-- ===== src/Engine/Search/Pick.antt =====
-- pickRoot of internal/engine/mcts.go: the child that it picks exists, and at temperature zero no
-- other child has more visits.
use blundernet.Base.{
  ℕ, zero, suc, ◌+◌, ◌-◌, ◌≤◌, ◌<◌, ◌≡◌, ◌⊎◌, inl, inr, refl, sym, ap, subst, ◌∙◌, true, List, [],
  ◌∷◌, length, Option, none, some, ltb, arith, if-cases,
}
use mathlib.Core.List.{Memᴰ}
use mathlib.Core.List.Memᴰ.{head, tail}
use blundernet.Float.{Float64, of_ℕ}
use blundernet.Review.{Boards}
use blundernet.Engine.Encode.{Squares}
use blundernet.Engine.Search.{
  Node, Kids, nil, cons, visits_of, count, move_at, most_from, most_visited,
}
use blundernet.Engine.Search.Run.{weights, sample, pick_root}
use blundernet.Engine.Search.Settling.{moves_of}

module _ {M F : Type 0} where
  abbrev pub child_at : Kids M F → ℕ → Option (M × Node M F)
  child_at nil i = none
  child_at (cons m n rest) zero = some (m, n)
  child_at (cons m n rest) (suc i) = child_at rest i

  abbrev pub AllLe : ℕ → Kids M F → Type 0
  AllLe v nil = Unit {0}
  AllLe v (cons m n rest) = (visits_of n ≤ v) × AllLe v rest

  -- The child with the index has the most visits.
  abbrev pub Winner : Kids M F → ℕ → Type 0
  Winner kids i =
      (m : M) × (n : Node M F) × (child_at kids i ≡ some (m, n)) × AllLe (visits_of n) kids

  -- What the loop has found, from child i on, starting with a best child that has v visits.
  abbrev Found : Kids M F → ℕ → ℕ → ℕ → ℕ → Type 0
  Found kids i best v j =
      (top : ℕ) × (v ≤ top)
      × AllLe top kids
      × (((j ≡ best) × (top ≡ v))
          ⊎ ((k : ℕ) × (m : M) × (n : Node M F) × (j ≡ i + k)
              × (child_at kids k ≡ some (m, n))
              × (visits_of n ≡ top)))

  child_taken :
      (m : M) (n : Node M F) (rest : Kids M F) (i best v j : ℕ)
      → v < visits_of n
      → Found rest (suc i) i (visits_of n) j
      → Found (cons m n rest) i best v j
  child_taken m n rest i best v j l (top, le, all, inl (e, t)) =
      (top, omega (arith, l, le), (le, all), inr (0, m, n, omega (arith, e), refl, sym t))
  child_taken m n rest i best v j l (top, le, all, inr (k, m', n', e, c, t)) =
      (top, omega (arith, l, le), (le, all), inr (suc k, m', n', omega (arith, e), c, t))

  child_passed :
      (m : M) (n : Node M F) (rest : Kids M F) (i best v j : ℕ)
      → visits_of n ≤ v
      → Found rest (suc i) best v j
      → Found (cons m n rest) i best v j
  child_passed m n rest i best v j l (top, le, all, inl e) =
      (top, le, (omega (arith, l, le), all), inl e)
  child_passed m n rest i best v j l (top, le, all, inr (k, m', n', e, c, t)) =
      (top, le, (omega (arith, l, le), all), inr (suc k, m', n', omega (arith, e), c, t))

  most_from-Found :
      (kids : Kids M F) (i best v : ℕ) → Found kids i best v (most_from kids i (best, v))
  unfolding most_from
  most_from-Found nil i best v = (v, omega arith, tt, inl (refl, refl))
  most_from-Found (cons m n rest) i best v =
      if-cases (ltb v (visits_of n))
        (λ c. Found (cons m n rest) i best v (most_from rest (suc i) c))
        (λ h.
          child_taken m n rest i best v _ (ground (arith, h))
            (most_from-Found rest (suc i) i (visits_of n)))
        (λ h.
          child_passed m n rest i best v _ (ground (arith, h))
            (most_from-Found rest (suc i) best v))

  pub most_visited-Winner : (kids : Kids M F) → 0 < count kids → Winner kids (most_visited kids)
  unfolding most_visited count
  most_visited-Winner nil h = absurd (omega (arith, h))
  most_visited-Winner (cons m n rest) h = won (most_from-Found (cons m n rest) 0 0 (visits_of n))
    where
      won :
          Found (cons m n rest) 0 0 (visits_of n) (most_visited (cons m n rest))
          → Winner (cons m n rest) (most_visited (cons m n rest))
      won (top, le, all, inl (e, t)) =
          (m, n, ap (λ j. child_at (cons m n rest) j) e, subst (λ v. AllLe v (cons m n rest)) t all)
      won (top, le, all, inr (k, m', n', e, c, t)) = (
        m',
        n',
        ap (λ j. child_at (cons m n rest) j) (e ∙ omega arith) ∙ c,
        subst (λ v. AllLe v (cons m n rest)) (sym t) all,
      )

  child_lt :
      (kids : Kids M F) (i : ℕ) (m : M) (n : Node M F)
      → child_at kids i ≡ some (m, n)
      → i < count kids
  unfolding count
  child_lt nil i m n e = absurd (ground (arith, e))
  child_lt (cons m' n' rest) zero m n e = omega arith
  child_lt (cons m' n' rest) (suc i) m n e = omega (arith, child_lt rest i m n e)

  pub child-move :
      (kids : Kids M F) (i : ℕ) (m : M) (n : Node M F)
      → child_at kids i ≡ some (m, n)
      → (move_at kids i ≡ some m) × Memᴰ m (moves_of kids)
  unfolding move_at
  child-move nil i m n e = absurd (ground (arith, e))
  child-move (cons m' n' rest) zero m n e =
      let same : m' ≡ m = ground (arith, e) in (ap some same, head (sym same))
  child-move (cons m' n' rest) (suc i) m n e = let (a, d) = child-move rest i m n e in (a, tail d)

  pub child_below :
      (kids : Kids M F) (i : ℕ)
      → i < count kids
      → (m : M) × (n : Node M F) × (child_at kids i ≡ some (m, n))
  unfolding count
  child_below nil i h = absurd (omega (arith, h))
  child_below (cons m n rest) zero h = (m, n, refl)
  child_below (cons m n rest) (suc i) h = child_below rest i (omega (arith, h))

module _ (boards : Boards) (squares : Squares boards) (fl : Float64) where
  open boards use {Position, ChessMove, valid_moves, update, status, parse_fen}
  open fl use {F, le, lt, add, sub, mul, div}

  abbrev SampledBelow : ℕ → Option ℕ → Type 0
  SampledBelow top none = Unit {0}
  SampledBelow top (some i) = i < top

  sample_lt :
      (ws : List F) (i : ℕ) (r : F) (top : ℕ)
      → i + length ws ≤ top
      → SampledBelow top (sample boards squares fl ws i r)
  unfolding sample
  sample_lt [] i r top h = tt
  sample_lt (w ∷ ws) i r top h =
      if-cases (lt r w) (SampledBelow top) (λ _. omega (arith, h))
        (λ _. sample_lt ws (suc i) (sub r w) top (omega (arith, h)))

  length-weights :
      (temp : F) (kids : Kids ChessMove F)
      → length (weights boards squares fl temp kids) ≡ count kids
  unfolding weights count
  length-weights temp nil = refl
  length-weights temp (cons m n rest) = ap suc (length-weights temp rest)

  pub pick_root_lt :
      (rand temp : F) (kids : Kids ChessMove F)
      → 0 < count kids
      → pick_root boards squares fl rand temp kids < count kids
  unfolding pick_root
  pick_root_lt rand temp kids h =
      if-cases (le temp (of_ℕ fl 0)) (λ i. i < count kids) (λ _. won (most_visited-Winner kids h))
        (λ _. drawn _ (
          sample_lt (weights boards squares fl temp kids) 0 _ (count kids)
            (omega (arith, length-weights temp kids))))
    where
      won : Winner kids (most_visited kids) → most_visited kids < count kids
      won (m, n, e, all) = child_lt kids (most_visited kids) m n e

      drawn :
          (o : Option ℕ)
          → SampledBelow (count kids) o
          → (elim o [ none ↦ count kids - 1 | some i ↦ i ]) < count kids
      drawn none k = omega (arith, h)
      drawn (some i) k = k

  pub pick_root_zero :
      (rand temp : F) (kids : Kids ChessMove F)
      → le temp (of_ℕ fl 0) ≡ true
      → pick_root boards squares fl rand temp kids ≡ most_visited kids
  unfolding pick_root
  pick_root_zero rand temp kids h = rw h refl
