-- ===== src/Store/Users/Rows.antt =====
-- The table of accounts of internal/store/users.go where names and ids are unique.
use blundernet.Base.{
  ◌≡◌, refl, sym, ap, subst, ◌∙◌, Text, text_eq_sym, equal_fold, to_lower, String, str_eq, eq_iff,
  eq_refl, Bool, true, false, not, ◌&&◌, ◌||◌, List, [], ◌∷◌, Option, none, some, if◌then◌else◌,
  if-cases, arith, ◌⊎◌, inl, inr,
}
use blundernet.Store.Users.{Account, same_name, find_id, has_id, name_taken, put, find_name}

abbrev pub is_set : {A : Type 0} → Option A → Bool
is_set none = false
is_set (some x) = true

-- A guest has no name and no secrets; any other account has a name and a password.
abbrev pub is_sound : Account → Bool
is_sound a =
    if a.is_guest
    then not (is_set a.username) && (not (is_set a.password) && not (is_set a.recovery))
    else is_set a.username && is_set a.password

unfoldable pub named : Text → List Account → Bool
named name [] = false
named name (a ∷ rows) = same_name name a.username || named name rows

abbrev pub clashes : Option Text → List Account → Bool
clashes none rows = false
clashes (some name) rows = named name rows

abbrev pub Distinct : List Account → Type 0
Distinct [] = Unit
Distinct (a ∷ rows) =
    (is_sound a ≡ true)
    × (has_id a.id rows ≡ false)
    × (clashes a.username rows ≡ false)
    × Distinct rows

equal_fold_sym : (a b : Text) → equal_fold a b ≡ equal_fold b a
unfolding equal_fold
equal_fold_sym a b = text_eq_sym (to_lower a) (to_lower b)

pub untaken :
    (id : String) (name : Text) (rows : List Account)
    → has_id id rows ≡ false
    → name_taken id name rows ≡ false
    → named name rows ≡ false
unfolding has_id name_taken named
untaken id name [] free fresh = refl
untaken id name (a ∷ rows) free fresh = ground (arith, untaken id name rows)

put_absent :
    (id : String) (f : Account → Account) (rows : List Account)
    → has_id id rows ≡ false
    → put id f rows ≡ rows
unfolding has_id put
put_absent id f [] free = refl
put_absent id f (a ∷ rows) free = ground (arith, put_absent id f rows)

equal_name_sym : (m n : Text) → equal_fold n m ≡ false → equal_fold m n ≡ false
equal_name_sym m n h = equal_fold_sym m n ∙ h

find_id-has_id :
    (id : String) (rows : List Account) (a : Account)
    → find_id id rows ≡ some a
    → has_id id rows ≡ true
unfolding find_id has_id
find_id-has_id id [] a h = ground arith
find_id-has_id id (x ∷ rows) a h = ground (arith, find_id-has_id id rows a)

find_id-id :
    (id : String) (rows : List Account) (a : Account) → find_id id rows ≡ some a → a.id ≡ id
unfolding find_id
find_id-id id [] a h = ground arith
find_id-id id (x ∷ rows) a h = ground (arith, find_id-id id rows a, eq_iff x.id id)

find_id-cons :
    (id : String) (x : Account) (rows : List Account) (a : Account)
    → find_id id (x ∷ rows) ≡ some a
    → ((str_eq x.id id ≡ true) × (x ≡ a)) ⊎ ((str_eq x.id id ≡ false) × (find_id id rows ≡ some a))
unfolding find_id
find_id-cons id x rows a h = by_test (str_eq x.id id) refl h
  where
    by_test :
        (b : Bool)
        → str_eq x.id id ≡ b
        → (if b then some x else find_id id rows) ≡ some a
        → ((str_eq x.id id ≡ true) × (x ≡ a))
          ⊎ ((str_eq x.id id ≡ false) × (find_id id rows ≡ some a))
    by_test true e found = inl (e, ap (λ o. elim o [ none ↦ x | some y ↦ y ]) found)
    by_test false e found = inr (e, found)

put-here :
    (id : String) (f : Account → Account) (x : Account) (rows : List Account)
    → str_eq x.id id ≡ true
    → has_id x.id rows ≡ false
    → put id f (x ∷ rows) ≡ f x ∷ rows
unfolding put
put-here id f x rows here free = rw here (
    ap (λ r. f x ∷ r)
      (put_absent id f rows (subst (λ i. has_id i rows ≡ false) ((eq_iff x.id id).0 here) free)))

put-there :
    (id : String) (f : Account → Account) (x : Account) (rows : List Account)
    → str_eq x.id id ≡ false
    → put id f (x ∷ rows) ≡ x ∷ put id f rows
unfolding put
put-there id f x rows there = rw there refl

pub or_false : (b c : Bool) → (b || c) ≡ false → (b ≡ false) × (c ≡ false)
or_false b c e = ground arith

neither : (b c : Bool) → b ≡ false → c ≡ false → (b || c) ≡ false
neither b c e e' = ground arith

find_id-named :
    (id : String) (rows : List Account) (a : Account) (m : Text)
    → find_id id rows ≡ some a
    → named m rows ≡ false
    → same_name m a.username ≡ false
unfolding find_id named
find_id-named id [] a m h free = ground arith
find_id-named id (x ∷ rows) a m h free =
    let (apart, rest) = or_false (same_name m x.username) (named m rows) free in
    elim (find_id-cons id x rows a h) [
      | inl (here, xa) ↦ subst (λ y. same_name m y.username ≡ false) xa apart
      | inr (there, h') ↦ find_id-named id rows a m h' rest
    ]

-- A change of one row that keeps its id.
module _ (id : String) (f : Account → Account) (a : Account) (same : (f a).id ≡ a.id) where
  -- The name that the change leaves is the old one, or one that no other row has.
  abbrev pub Free : List Account → Type 0
  Free rows =
      (n : Text) → (f a).username ≡ some n → (a.username ≡ some n) ⊎ (name_taken id n rows ≡ false)

  named-put :
      (m : Text) (rows : List Account)
      → Distinct rows
      → find_id id rows ≡ some a
      → named m rows ≡ false
      → same_name m (f a).username ≡ false
      → named m (put id f rows) ≡ false
  unfolding named
  named-put m [] d h free new = unfold put in refl
  named-put m (x ∷ rows) (_, alone, _, d) h free new =
      let (apart, rest) = or_false (same_name m x.username) (named m rows) free in
      elim (find_id-cons id x rows a h) [
        | inl (here, xa) ↦ rw (put-here id f x rows here alone) (
            neither (same_name m (f x).username) (named m rows)
              (subst (λ y. same_name m (f y).username ≡ false) (sym xa) new) rest)
        | inr (there, h') ↦ rw (put-there id f x rows there) (
            neither (same_name m x.username) (named m (put id f rows)) apart
              (named-put m rows d h' rest new))
      ]

  has_id-put :
      (j : String) (rows : List Account)
      → Distinct rows
      → find_id id rows ≡ some a
      → has_id j (put id f rows) ≡ has_id j rows
  unfolding has_id
  has_id-put j [] d h = unfold put in refl
  has_id-put j (x ∷ rows) (_, alone, _, d) h = elim (find_id-cons id x rows a h) [
    | inl (here, xa) ↦ rw (put-here id f x rows here alone) (
        ap (λ i. str_eq i j || has_id j rows)
          (ap (λ y. (f y).id) xa ∙ same ∙ ap (λ y. y.id) (sym xa)))
    | inr (there, h') ↦
        rw (put-there id f x rows there) (ap (λ b. str_eq x.id j || b) (has_id-put j rows d h'))
  ]

  Free-tail : (x : Account) (rows : List Account) → Free (x ∷ rows) → Free rows
  unfolding name_taken
  Free-tail x rows free n e = elim (free n e) [
    | inl old ↦ inl old
    | inr new ↦ inr (or_false _ (name_taken id n rows) new).1
  ]

  new_name_apart :
      (x : Account) (rows : List Account) (m : Text) (o : Option Text)
      → (f a).username ≡ o
      → x.username ≡ some m
      → str_eq x.id id ≡ false
      → find_id id rows ≡ some a
      → named m rows ≡ false
      → Free (x ∷ rows)
      → same_name m o ≡ false
  unfolding name_taken
  new_name_apart x rows m none e mine there h apart free = refl
  new_name_apart x rows m (some n) e mine there h apart free = elim (free n e) [
    | inl old ↦ subst (λ o. same_name m o ≡ false) old (find_id-named id rows a m h apart)
    | inr new ↦ equal_name_sym n m (
        subst (λ o. same_name n o ≡ false) mine
          (subst (λ b. (not b && same_name n x.username) ≡ false) there
            (or_false _ (name_taken id n rows) new).0))
  ]

  clash_here :
      (x : Account) (rows : List Account) (o : Option Text)
      → (f a).username ≡ o
      → a ≡ x
      → has_id id rows ≡ false
      → clashes x.username rows ≡ false
      → Free rows
      → clashes o rows ≡ false
  clash_here x rows none e ax alone apart free = refl
  clash_here x rows (some n) e ax alone apart free = elim (free n e) [
    | inl old ↦ subst (λ o. clashes o rows ≡ false) (ap (λ y. y.username) (sym ax) ∙ old) apart
    | inr new ↦ untaken id n rows alone new
  ]

  clash_there :
      (x : Account) (rows : List Account) (o : Option Text)
      → x.username ≡ o
      → clashes o rows ≡ false
      → str_eq x.id id ≡ false
      → Distinct rows
      → find_id id rows ≡ some a
      → Free (x ∷ rows)
      → clashes o (put id f rows) ≡ false
  clash_there x rows none e apart there d h free = refl
  clash_there x rows (some m) e apart there d h free =
      named-put m rows d h apart (new_name_apart x rows m (f a).username refl e there h apart free)

  pub put-Distinct :
      (rows : List Account)
      → Distinct rows
      → find_id id rows ≡ some a
      → is_sound (f a) ≡ true
      → Free rows
      → Distinct (put id f rows)
  put-Distinct [] d h sound free = unfold put in tt
  put-Distinct (x ∷ rows) (ok, alone, apart, d) h sound free = elim (find_id-cons id x rows a h) [
    | inl (here, xa) ↦ rw (put-here id f x rows here alone) (
        subst (λ y. Distinct (f y ∷ rows)) (sym xa)
          (
            sound,
            subst (λ i. has_id i rows ≡ false) (ap (λ y. y.id) xa ∙ sym same) alone,
            clash_here x rows (f a).username refl (sym xa)
                (subst (λ i. has_id i rows ≡ false) ((eq_iff x.id id).0 here) alone) apart
                (Free-tail x rows free),
            d,
          ))
    | inr (there, h') ↦ rw (put-there id f x rows there) (
      ok,
      has_id-put x.id rows d h' ∙ alone,
      clash_there x rows x.username refl apart there d h' free,
      put-Distinct rows d h' sound (Free-tail x rows free),
    )
  ]

pub find_name-find_id :
    (name : Text) (rows : List Account) (a : Account)
    → Distinct rows
    → find_name name rows ≡ some a
    → (find_id a.id rows ≡ some a) × (a.is_guest ≡ false)
unfolding find_name find_id
find_name-find_id name [] a d h = ground arith
find_name-find_id name (x ∷ rows) a (_, alone, _, d) h =
    by_test (same_name name x.username && not x.is_guest) refl h (find_name-find_id name rows a d)
  where
    by_test :
        (b : Bool)
        → (same_name name x.username && not x.is_guest) ≡ b
        → (if b then some x else find_name name rows) ≡ some a
        → (find_name name rows ≡ some a → (find_id a.id rows ≡ some a) × (a.is_guest ≡ false))
        → (find_id a.id (x ∷ rows) ≡ some a) × (a.is_guest ≡ false)
    by_test true e found ih =
        let xa : x ≡ a = ap (λ o. elim o [ none ↦ x | some y ↦ y ]) found in
        subst
          (λ y.
            ((if str_eq x.id y.id then some x else find_id y.id rows) ≡ some y)
            × (y.is_guest ≡ false))
          xa (rw (eq_refl x.id) refl, ground (arith, e))
    by_test false e found ih =
        let (there, member) = ih found in
        (
          if-cases (str_eq x.id a.id) (λ o. o ≡ some a)
              (λ same. absurd (
                used (subst (λ i. has_id i rows ≡ false) ((eq_iff x.id a.id).0 same) alone)
                  (find_id-has_id a.id rows a there)))
              (λ _. there),
          member,
        )
      where
        used : {b : Bool} → b ≡ false → b ≡ true → ⊥
        used p q = ground arith

pub find_id-is_sound :
    (id : String) (rows : List Account) (a : Account)
    → Distinct rows
    → find_id id rows ≡ some a
    → is_sound a ≡ true
find_id-is_sound id [] a d h = unfold find_id in ground arith
find_id-is_sound id (x ∷ rows) a (ok, _, _, d) h = elim (find_id-cons id x rows a h) [
  | inl (here, xa) ↦ subst (λ y. is_sound y ≡ true) xa ok
  | inr (there, h') ↦ find_id-is_sound id rows a d h'
]
