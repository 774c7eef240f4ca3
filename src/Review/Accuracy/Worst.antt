-- ===== src/Review/Accuracy/Worst.antt =====
-- The worst moves that a report of internal/review/review.go names.
use blundernet.Base.{
  ℕ, zero, suc, ◌≡◌, ◌≤◌, refl, sym, subst, Bool, true, false, List, [], ◌∷◌, length, take, keep,
  if◌then◌else◌, if-cases, arith, ◌⊎◌, inl, inr, Bool-cases, clash,
}
use mathlib.Core.List.{Memᴰ}
use mathlib.Core.List.Memᴰ as Memᴰ
use mathlib.Core.List.Memᴰ.{head, tail}
use blundernet.Float.{Float64}
use blundernet.Review.{Move, is_error}
use blundernet.Review.Accuracy.{drop_of, place, by_drop, worst}

Mem-if :
    {A : Type 0} {a x : A} (t : Bool) (xs : List A)
    → Memᴰ a (if t then x ∷ xs else xs)
    → ((a ≡ x) × (t ≡ true)) ⊎ Memᴰ a xs
Mem-if true xs (head e) = inl (e, refl)
Mem-if true xs (tail d) = inr d
Mem-if false xs d = inr d

module _ {A : Type 0} (p : A → Bool) where
  Mem-keep : (a : A) (xs : List A) → Memᴰ a (keep p xs) → Memᴰ a xs × (p a ≡ true)
  Mem-keep a [] h = elim h [ ]
  Mem-keep a (x ∷ xs) h = elim (Mem-if (p x) (keep p xs) h) [
    | inl (e, t) ↦ (head e, subst (λ y. p y ≡ true) (sym e) t)
    | inr d ↦ let (there, t) = Mem-keep a xs d in (tail there, t)
  ]

  keep-Mem : (a : A) (xs : List A) → Memᴰ a xs → p a ≡ true → Memᴰ a (keep p xs)
  keep-Mem a [] h t = elim h [ ]
  keep-Mem a (x ∷ xs) (head e) t =
      if-cases (p x) (λ l. Memᴰ a l) (λ _. head e)
        (λ f. absurd (clash (subst (λ y. p y ≡ true) e t) f))
  keep-Mem a (x ∷ xs) (tail d) t =
      if-cases (p x) (λ l. Memᴰ a l) (λ _. tail (keep-Mem a xs d t)) (λ _. keep-Mem a xs d t)

module _ (fl : Float64) where
  open fl use {F, lt, le}

  -- How float64 compares numbers, which a NaN is not.
  pub record Compares : Type 0 where
    pub asym : (a b : F) → lt a b ≡ true → lt b a ≡ false
    pub cotrans :
        (a b c : F)
        → le a a ≡ true
        → le b b ≡ true
        → le c c ≡ true
        → lt a c ≡ true
        → lt a b ≡ false
        → lt b c ≡ true

  -- No drop is a NaN.
  abbrev pub Numbers : List (Move fl) → Type 0
  Numbers moves = (m : Move fl) → Memᴰ m moves → le (drop_of fl m) (drop_of fl m) ≡ true

  -- No drop is smaller than one that comes later.
  abbrev pub Falling : List (Move fl) → Type 0
  Falling [] = Unit
  Falling (m ∷ ms) =
      ((x : Move fl) → Memᴰ x ms → lt (drop_of fl m) (drop_of fl x) ≡ false) × Falling ms

  Mem-place : (a m : Move fl) (xs : List (Move fl)) → Memᴰ a (place fl m xs) → Memᴰ a (m ∷ xs)
  unfolding place
  Mem-place a m [] d = d
  Mem-place a m (x ∷ xs) d =
      if-cases (lt (drop_of fl m) (drop_of fl x)) (λ l. Memᴰ a l → Memᴰ a (m ∷ x ∷ xs))
        (λ _. later (Mem-place a m xs)) (λ _ e. e) d
    where
      later :
          (Memᴰ a (place fl m xs) → Memᴰ a (m ∷ xs))
          → Memᴰ a (x ∷ place fl m xs)
          → Memᴰ a (m ∷ x ∷ xs)
      later rest (head e) = tail (head e)
      later rest (tail d) = elim (Memᴰ.cases_cons (rest d)) [
        | inl e ↦ head e
        | inr t ↦ tail (tail t)
      ]

  place-Mem : (a m : Move fl) (xs : List (Move fl)) → Memᴰ a (m ∷ xs) → Memᴰ a (place fl m xs)
  unfolding place
  place-Mem a m [] d = d
  place-Mem a m (x ∷ xs) d =
      if-cases (lt (drop_of fl m) (drop_of fl x)) (λ l. Memᴰ a l) (λ _. later (place-Mem a m xs) d)
        (λ _. d)
    where
      later :
          (Memᴰ a (m ∷ xs) → Memᴰ a (place fl m xs))
          → Memᴰ a (m ∷ x ∷ xs)
          → Memᴰ a (x ∷ place fl m xs)
      later rest (head e) = tail (rest (head e))
      later rest (tail (head e)) = head e
      later rest (tail (tail t)) = tail (rest (tail t))

  Mem-by_drop : (a : Move fl) (xs : List (Move fl)) → Memᴰ a (by_drop fl xs) → Memᴰ a xs
  unfolding by_drop
  Mem-by_drop a [] d = d
  Mem-by_drop a (x ∷ xs) d = elim (Memᴰ.cases_cons (Mem-place a x (by_drop fl xs) d)) [
    | inl e ↦ head e
    | inr t ↦ tail (Mem-by_drop a xs t)
  ]

  by_drop-Mem : (a : Move fl) (xs : List (Move fl)) → Memᴰ a xs → Memᴰ a (by_drop fl xs)
  unfolding by_drop
  by_drop-Mem a [] d = d
  by_drop-Mem a (x ∷ xs) (head e) = place-Mem a x (by_drop fl xs) (head e)
  by_drop-Mem a (x ∷ xs) (tail d) = place-Mem a x (by_drop fl xs) (tail (by_drop-Mem a xs d))

  module _ (compares : Compares) where
    -- What does not drop more than a middle one does not drop more than what that is above.
    below :
        (a b c : Move fl)
        → le (drop_of fl a) (drop_of fl a) ≡ true
        → le (drop_of fl b) (drop_of fl b) ≡ true
        → le (drop_of fl c) (drop_of fl c) ≡ true
        → lt (drop_of fl a) (drop_of fl b) ≡ false
        → lt (drop_of fl b) (drop_of fl c) ≡ false
        → lt (drop_of fl a) (drop_of fl c) ≡ false
    below a b c na nb nc ab bc = elim (Bool-cases (lt (drop_of fl a) (drop_of fl c))) [
      | inr f ↦ f
      | inl t ↦
          absurd
            (clash (compares.cotrans (drop_of fl a) (drop_of fl b) (drop_of fl c) na nb nc t ab) bc)
    ]

    place-Falling :
        (m : Move fl) (xs : List (Move fl))
        → Numbers (m ∷ xs)
        → Falling xs
        → Falling (place fl m xs)
    unfolding place
    place-Falling m [] n f = ((λ x d. elim d [ ]), tt)
    place-Falling m (x ∷ xs) n (first, f) =
        let rest =
          place-Falling m xs
            (λ y d. elim (Memᴰ.cases_cons d) [ inl e ↦ n y (head e) | inr t ↦ n y (tail (tail t)) ])
            f in
        if-cases (lt (drop_of fl m) (drop_of fl x)) Falling
          (λ less. (
            (λ y d. elim (Memᴰ.cases_cons (Mem-place y m xs d)) [
              | inl e ↦
                  subst (λ z. lt (drop_of fl x) (drop_of fl z) ≡ false) (sym e)
                    (compares.asym (drop_of fl m) (drop_of fl x) less)
              | inr t ↦ first y t
            ]),
            rest,
          ))
          (λ more. (
            (λ y d. elim (Memᴰ.cases_cons d) [
              | inl e ↦ subst (λ z. lt (drop_of fl m) (drop_of fl z) ≡ false) (sym e) more
              | inr t ↦
                  below m x y (n m (head refl)) (n x (tail (head refl))) (n y (tail (tail t))) more
                    (first y t)
            ]),
            (first, f),
          ))

    by_drop-Falling : (xs : List (Move fl)) → Numbers xs → Falling (by_drop fl xs)
    unfolding by_drop
    by_drop-Falling [] n = tt
    by_drop-Falling (x ∷ xs) n =
        place-Falling x (by_drop fl xs)
          (λ y d. elim (Memᴰ.cases_cons d) [
            | inl e ↦ n y (head e)
            | inr t ↦ n y (tail (Mem-by_drop y xs t))
          ])
          (by_drop-Falling xs (λ y d. n y (tail d)))

  Mem-take : (n : ℕ) (a : Move fl) (xs : List (Move fl)) → Memᴰ a (take n xs) → Memᴰ a xs
  Mem-take zero a xs d = elim d [ ]
  Mem-take (suc n) a [] d = d
  Mem-take (suc n) a (x ∷ xs) (head e) = head e
  Mem-take (suc n) a (x ∷ xs) (tail d) = tail (Mem-take n a xs d)

  take-Falling : (n : ℕ) (xs : List (Move fl)) → Falling xs → Falling (take n xs)
  take-Falling zero xs f = tt
  take-Falling (suc n) [] f = f
  take-Falling (suc n) (x ∷ xs) (first, f) =
      ((λ y d. first y (Mem-take n y xs d)), take-Falling n xs f)

  length-take_le : (n : ℕ) (xs : List (Move fl)) → length (take n xs) ≤ n
  length-take_le zero xs = omega arith
  length-take_le (suc n) [] = omega arith
  length-take_le (suc n) (x ∷ xs) = omega (arith, length-take_le n xs)

  -- A move that is left out, in favour of `kept`.
  abbrev pub LeftOut : ℕ → Move fl → List (Move fl) → Type 0
  LeftOut n a kept =
      (length kept ≡ n) × ((w : Move fl) → Memᴰ w kept → lt (drop_of fl w) (drop_of fl a) ≡ false)

  take-or :
      (n : ℕ) (a : Move fl) (xs : List (Move fl))
      → Falling xs
      → Memᴰ a xs
      → Memᴰ a (take n xs) ⊎ LeftOut n a (take n xs)
  take-or zero a xs f d = inr (refl, λ w e. elim e [ ])
  take-or (suc n) a [] f d = elim d [ ]
  take-or (suc n) a (x ∷ xs) f (head e) = inl (head e)
  take-or (suc n) a (x ∷ xs) (first, f) (tail d) = elim (take-or n a xs f d) [
    | inl there ↦ inl (tail there)
    | inr (full, above) ↦ inr (
      omega (arith, full),
      λ w e. elim (Memᴰ.cases_cons e) [
        | inl same ↦ subst (λ z. lt (drop_of fl z) (drop_of fl a) ≡ false) (sym same) (first a d)
        | inr there ↦ above w there
      ],
    )
  ]

  -- What worst picks of the moves.
  pub record Picks (moves picked : List (Move fl)) : Type 0 where
    pub few : length picked ≤ 4
    pub errors : (m : Move fl) → Memᴰ m picked → Memᴰ m moves × (is_error m.judgement ≡ true)
    pub falling : Falling picked
    pub others :
        (m : Move fl)
        → Memᴰ m moves
        → is_error m.judgement ≡ true
        → Memᴰ m picked ⊎ LeftOut 4 m picked

  -- If float64 compares numbers as IEEE 754 says and no drop in the percentage of winning is a
  -- NaN, then worst picks at most four moves, all of them mistakes or blunders of the game, with
  -- no drop before a larger one; and it leaves a mistake or blunder out only if it picked four
  -- that did not drop less.
  pub worst-Picks :
      Compares → (moves : List (Move fl)) → Numbers moves → Picks moves (worst fl moves)
  unfolding worst
  worst-Picks compares moves n = record {
    few = length-take_le 4 (by_drop fl bad);
    errors = λ m d. Mem-keep is_bad m moves (Mem-by_drop m bad (Mem-take 4 m (by_drop fl bad) d));
    falling = take-Falling 4 (by_drop fl bad) sorted;
    others = λ m d e.
        take-or 4 m (by_drop fl bad) sorted (by_drop-Mem m bad (keep-Mem is_bad m moves d e));
  }
    where
      is_bad : Move fl → Bool
      is_bad m = is_error m.judgement

      bad : List (Move fl)
      bad = keep is_bad moves

      sorted : Falling (by_drop fl bad)
      sorted = by_drop-Falling compares bad (λ m d. n m (Mem-keep is_bad m moves d).0)
