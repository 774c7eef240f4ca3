-- ===== src/Puzzle/Reader/Drain.antt =====
-- Draining the Reader of internal/puzzle/csv.go ends, and what comes out is what the file says.
use blundernet.Base.{
  ℕ, zero, suc, ◌+◌, ◌-◌, ◌≤◌, ◌≡◌, ◌⊎◌, inl, inr, refl, Text, Bool, true, false, List, [], ◌∷◌,
  length, take, Option, none, some, ltb, leb, ◌&&◌, if◌then◌else◌, if-cases, Bool-cases, arith,
  subst, ap, ◌∙◌,
}
use blundernet.Base.Int.{ℤ, pos, negsuc}
use blundernet.Puzzle.{Puzzle}
use blundernet.Puzzle.Reader.{
  Row, line, broken, Counts, fresh, new_reader, Answer, no_more, more, Drained, is_full, wanted,
  stops, next, add_current, drain,
}

-- The first puzzles, as many as the limit leaves after `read` of them.
unfoldable up_to : {A : Type 0} → ℤ → ℕ → List A → List A
up_to (negsuc n) read xs = xs
up_to (pos n) read xs = if ltb 0 n then take (n - read) xs else xs

abbrev flag : Bool → ℕ
flag true = 1
flag false = 0

take-nil : {A : Type 0} (n : ℕ) → take {A = A} n [] ≡ []
take-nil zero = refl
take-nil (suc n) = refl

up_to-nil : {A : Type 0} (limit : ℤ) (read : ℕ) → up_to {A = A} limit read [] ≡ []
unfolding up_to
up_to-nil (negsuc n) read = refl
up_to-nil (pos n) read = if-cases (ltb 0 n) (λ xs. xs ≡ []) (λ _. take-nil (n - read)) (λ _. refl)

none_left : (n read : ℕ) → (ltb 0 n && leb n read) ≡ true → 0 ≡ n - read
none_left n read full = ground arith

one_taken :
    (n read : ℕ) → ltb 0 n ≡ true → (ltb 0 n && leb n read) ≡ false → suc (n - suc read) ≡ n - read
one_taken n read high below = ground arith

up_to-full :
    {A : Type 0} (limit : ℤ) (read : ℕ) (xs : List A)
    → is_full limit read ≡ true
    → up_to limit read xs ≡ []
unfolding up_to is_full
up_to-full (negsuc n) read xs full = ground arith
up_to-full {A} (pos n) read xs full =
    if-cases (ltb 0 n) (λ ys. ys ≡ [])
      (λ _. subst (λ k. take k xs ≡ []) (none_left n read full) refl) (λ low. ground arith)

up_to-cons :
    {A : Type 0} (limit : ℤ) (read : ℕ) (x : A) (xs : List A)
    → is_full limit read ≡ false
    → up_to limit read (x ∷ xs) ≡ x ∷ up_to limit (suc read) xs
unfolding up_to is_full
up_to-cons (negsuc n) read x xs below = refl
up_to-cons (pos n) read x xs below = elim (Bool-cases (ltb 0 n)) [
  | inl high ↦
      rw high (
        subst (λ k. take k (x ∷ xs) ≡ x ∷ take (n - suc read) xs) (one_taken n read high below)
          refl)
  | inr low ↦ rw low refl
]

module _ (atoi : Text → Option ℤ) {F : Type 0} (parse_float : Text → Option F) (limit : ℤ)
    (filter : Option (Puzzle F → Bool)) where
  -- The puzzles of the rows in front of the first broken one that parse and pass the filter.
  unfoldable good : List Row → List (Puzzle F)
  good [] = []
  good (broken ∷ rows) = []
  good (line rec ∷ rows) =
      let rest = good rows in
      elim (wanted atoi parse_float limit filter rec) [ none ↦ rest | some p ↦ p ∷ rest ]

  pub record Read (rows : List Row) (c : Counts F) (d : Drained F) : Type 0 where
    given : d.given ≡ up_to limit c.read (good rows)
    counted : d.counts.read ≡ c.read + length d.given
    accounted :
        d.counts.read + d.counts.skipped + flag d.counts.failed + length d.left
        ≡ c.read + c.skipped + length rows
    over : next atoi parse_float limit filter d.left d.counts ≡ no_more d.left d.counts
    ended : d.counts.failed ≡ false → (is_full limit d.counts.read ≡ true) ⊎ (d.left ≡ [])

  abbrev deliver : ℕ → Answer F → Drained F
  deliver fuel a = elim a [
    | no_more rest c ↦ record { given = []; left = rest; counts = c }
    | more rest c ↦
        add_current atoi parse_float limit filter c
          (drain atoi parse_float limit filter fuel rest c)
  ]

  abbrev skip : Counts F → Counts F
  skip c = record c { skipped = suc c.skipped }

  abbrev accept : Puzzle F → Counts F → Counts F
  accept p c = record c { current = some p; read = suc c.read }

  next_stopped :
      (rows : List Row) (c : Counts F)
      → stops atoi parse_float limit filter c ≡ true
      → next atoi parse_float limit filter rows c ≡ no_more rows c
  unfolding next
  next_stopped [] c stop = refl
  next_stopped (broken ∷ rows) c stop = rw stop refl
  next_stopped (line rec ∷ rows) c stop = rw stop refl

  stopped-Read :
      (fuel : ℕ) (rec : List Text) (rows : List Row) (c : Counts F)
      → c.failed ≡ false
      → stops atoi parse_float limit filter c ≡ true
      → Read (line rec ∷ rows) c (deliver fuel (no_more (line rec ∷ rows) c))
  unfolding stops
  stopped-Read fuel rec rows c ok stop =
      ground
        (arith, up_to-full limit c.read (good (line rec ∷ rows)), next_stopped (line rec ∷ rows) c)

  skipped-Read :
      (rec : List Text) (rows : List Row) (c : Counts F) (d : Drained F)
      → wanted atoi parse_float limit filter rec ≡ none
      → Read rows (skip c) d
      → Read (line rec ∷ rows) c d
  unfolding good
  skipped-Read rec rows c d w r = ground arith

  accepted-Read :
      (rec : List Text) (rows : List Row) (c : Counts F) (p : Puzzle F) (d : Drained F)
      → wanted atoi parse_float limit filter rec ≡ some p
      → stops atoi parse_float limit filter c ≡ false
      → Read rows (accept p c) d
      → Read (line rec ∷ rows) c (record d { given = p ∷ d.given })
  unfolding good stops
  accepted-Read rec rows c p d w going r = ground (arith, up_to-cons limit c.read p (good rows))

  broken-Read :
      (fuel : ℕ) (rows : List Row) (c : Counts F)
      → c.failed ≡ false
      → Read (broken ∷ rows) c (deliver fuel (next atoi parse_float limit filter (broken ∷ rows) c))
  unfolding next stops good
  broken-Read fuel rows c ok = ground (
    arith,
    up_to-nil {A = Puzzle F} limit c.read,
    next_stopped (broken ∷ rows) c,
    next_stopped rows (record c { failed = true }),
  )

  line-Read :
      (fuel : ℕ) (rec : List Text) (rows : List Row) (c : Counts F)
      → Read rows (skip c) (drain atoi parse_float limit filter (suc (suc fuel)) rows (skip c))
      → ((p : Puzzle F)
          → Read rows
              (accept p c)
              (drain atoi parse_float limit filter (suc fuel) rows (accept p c)))
      → (o : Option (Puzzle F)) → wanted atoi parse_float limit filter rec ≡ o
      → stops atoi parse_float limit filter c ≡ false
      → Read (line rec ∷ rows) c (
          deliver (suc fuel) (elim o [
            | none ↦ next atoi parse_float limit filter rows (skip c)
            | some p ↦ more rows (accept p c)
          ]))
  unfolding drain
  line-Read fuel rec rows c skipping taking none w going = skipped-Read rec rows c _ w skipping
  line-Read fuel rec rows c skipping taking (some p) w going =
      accepted-Read rec rows c p _ w going (taking p)

  drain-Read :
      (fuel : ℕ) (rows : List Row) (c : Counts F)
      → length rows ≤ fuel
      → c.failed ≡ false
      → Read rows c (drain atoi parse_float limit filter (suc fuel) rows c)
  unfolding drain next good
  drain-Read fuel [] c enough ok = ground (arith, up_to-nil {A = Puzzle F} limit c.read)
  drain-Read fuel (broken ∷ rows) c enough ok = broken-Read fuel rows c ok
  drain-Read zero (line rec ∷ rows) c enough ok = ground arith
  drain-Read (suc fuel) (line rec ∷ rows) c enough ok =
      if-cases (stops atoi parse_float limit filter c)
        (λ a. Read (line rec ∷ rows) c (deliver (suc fuel) a))
        (stopped-Read (suc fuel) rec rows c ok)
        (line-Read fuel rec rows c (drain-Read (suc fuel) rows (skip c) (omega arith) ok)
          (λ p. drain-Read fuel rows (accept p c) (omega arith) ok)
          (wanted atoi parse_float limit filter rec) refl)

new_reader-fresh :
    {F : Type 0} (file rows : List Row) (c : Counts F)
    → new_reader file ≡ some (rows, c)
    → c ≡ fresh
unfolding new_reader fresh
new_reader-fresh [] rows c h = ground arith
new_reader-fresh (broken ∷ file) rows c h = ground arith
new_reader-fresh (line head ∷ file) rows c h = ground arith

fresh_intact : (F : Type 0) → (fresh {F = F}).failed ≡ false
unfolding fresh
fresh_intact F = refl

-- The loop that drains a reader ends within as many rounds as there are rows, and one more. A
-- reader that NewReader has made gives the puzzles of the rows in front of the first broken one
-- that parse and pass the filter, in order, and no more than the limit if there is one; its
-- counter says how many it gave; every row is given, skipped, left unread or the broken one; it
-- says that there is no more; and if no row was broken then it stopped at the limit or at the
-- end of the file.
pub drain-new_reader :
    (atoi : Text → Option ℤ) {F : Type 0} (parse_float : Text → Option F) (limit : ℤ)
    (filter : Option (Puzzle F → Bool)) (file rows : List Row) (c : Counts F)
    → new_reader file ≡ some (rows, c)
    → (c ≡ fresh)
      × Read atoi parse_float limit filter rows c
          (drain atoi parse_float limit filter (suc (length rows)) rows c)
drain-new_reader atoi parse_float limit filter file rows c h = (
  new_reader-fresh file rows c h,
  drain-Read atoi parse_float limit filter (length rows) rows c (omega arith)
      (ap (λ d. d.failed) (new_reader-fresh file rows c h) ∙ fresh_intact _),
)
