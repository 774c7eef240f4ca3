-- ===== src/Store/Select/Rows.antt =====
-- The draws of internal/store/puzzleselect.go, and the rows that are collected.
use blundernet.Base.{
  ℕ, ◌+◌, ◌-◌, ◌≤◌, ◌<◌, ◌≡◌, refl, sym, subst, Text, text_eq, text_eq_sym, text_eq_refl, ◌⊎◌, Bool,
  true, false, ◌||◌, List, [], ◌∷◌, ◌++◌, length, length-append, some, ltb, leb, if◌then◌else◌,
  if-cases, arith, ap, Bool-cases, inl, inr,
}
use mathlib.Core.List.{Memᴰ}
use mathlib.Core.List.Memᴰ.{head, tail}
use blundernet.Errors.{Except, ok, err}
use blundernet.Puzzle.{Puzzle}
use blundernet.Store.Select.{Cell, emptied, draw_cell, total_of, has_id, collect}

pub the_rows : {A : Type 0} {a b : A} → ok a ≡ ok b → a ≡ b
the_rows {A} {a} h = ap (λ (x : Except A). elim x [ ok y ↦ y | err e ↦ a ]) h

-- A draw below the sum takes a cell that is not empty out of the sum.
pub record Draws (r : ℕ) (cells : List Cell) : Type 0 where
  pub cell : Cell
  pub rest : List Cell
  pub is : draw_cell r cells ≡ some (cell, rest)
  pub holds : 0 < cell.n
  pub sum : total_of rest + cell.n ≡ total_of cells
  pub from : Memᴰ cell cells
  pub left : (d : Cell) → Memᴰ d rest → 0 < d.n → Memᴰ d cells

emptied_out : (c d : Cell) → d ≡ emptied c → 0 < d.n → ⊥
emptied_out c d e pos = ground (arith, pos, ap (λ (x : Cell). x.n) e)

pub draw_cell-Draws : (r : ℕ) (cells : List Cell) → r < total_of cells → Draws r cells
unfolding draw_cell
draw_cell-Draws r [] h = absurd (omega (arith, h))
draw_cell-Draws r (c ∷ []) h = record {
  cell = c;
  rest = emptied c ∷ [];
  is = refl;
  holds = omega (arith, h);
  sum = omega arith;
  from = head refl;
  left = λ d m pos. elim m [ head e ↦ absurd (emptied_out c d e pos) | tail t ↦ elim t [ ] ];
}
draw_cell-Draws r (c ∷ d ∷ cells) h = elim (Bool-cases (ltb r c.n)) [
  | inl here ↦ record {
    cell = c;
    rest = emptied c ∷ d ∷ cells;
    is = rw here refl;
    holds = ground (arith, here);
    sum = omega arith;
    from = head refl;
    left = λ e m pos. elim m [ head same ↦ absurd (emptied_out c e same pos) | tail t ↦ tail t ];
  }
  | inr later ↦
      let found = draw_cell-Draws (r - c.n) (d ∷ cells) (ground (arith, h, later)) in
      record {
        cell = found.cell;
        rest = c ∷ found.rest;
        is = rw (later, found.is) refl;
        holds = found.holds;
        sum = omega (arith, found.sum);
        from = tail found.from;
        left = λ e m pos. elim m [ head same ↦ head same | tail t ↦ tail (found.left e t pos) ];
      }
]

module _ {F : Type 0} (n : ℕ) (seen : Text → Bool) (matches : Puzzle F → Bool) where
  abbrev pub AllMatch : List (Puzzle F) → Type 0
  AllMatch [] = Unit
  AllMatch (p ∷ ps) = (matches p ≡ true) × AllMatch ps

  -- No two of the same id, none that was seen, and all of them matching.
  abbrev pub Apart : List (Puzzle F) → Type 0
  Apart [] = Unit
  Apart (p ∷ ps) = (has_id p.id ps ≡ false) × (seen p.id ≡ false) × (matches p ≡ true) × Apart ps

  abbrev pub Chosen : List (Puzzle F) → Type 0
  Chosen out = (length out ≤ n) × Apart out

  has_id-snoc :
      (id : Text) (ps : List (Puzzle F)) (r : Puzzle F)
      → has_id id (ps ++ (r ∷ [])) ≡ (has_id id ps || text_eq r.id id)
  has_id-snoc id [] r = ground arith
  has_id-snoc id (p ∷ ps) r = ground (arith, has_id-snoc id ps r)

  Apart-snoc :
      (ps : List (Puzzle F)) (r : Puzzle F)
      → Apart ps
      → has_id r.id ps ≡ false
      → seen r.id ≡ false
      → matches r ≡ true
      → Apart (ps ++ (r ∷ []))
  Apart-snoc [] r a new fresh good = (refl, fresh, good, tt)
  Apart-snoc (p ∷ ps) r (here, unseen, fits, a) new fresh good = (
    ground (arith, has_id-snoc p.id ps r, here, text_eq_sym p.id r.id, new),
    unseen,
    fits,
    Apart-snoc ps r a (ground (arith, new)) fresh good,
  )

  pub collect-Chosen :
      (rows out : List (Puzzle F)) → AllMatch rows → Chosen out → Chosen (collect n seen rows out)
  unfolding collect
  collect-Chosen [] out all c = c
  collect-Chosen (r ∷ rows) out (fits, all) (few, apart) =
      if-cases (leb n (length out)) Chosen (λ _. (few, apart))
        (λ room.
          collect-Chosen rows (if has_id r.id out || seen r.id then out else out ++ (r ∷ [])) all (
            if-cases (has_id r.id out || seen r.id) Chosen (λ _. (few, apart))
              (λ new. (
                ground (arith, length-append out (r ∷ []), room),
                Apart-snoc out r apart (ground (arith, new)) (ground (arith, new)) fits,
              ))))

  pub AllMatch-append : (ps qs : List (Puzzle F)) → AllMatch ps → AllMatch qs → AllMatch (ps ++ qs)
  AllMatch-append [] qs a b = b
  AllMatch-append (p ∷ ps) qs (fits, a) b = (fits, AllMatch-append ps qs a b)

  -- What is collected stays, and there is no less of it.
  pub record Keeps (out final : List (Puzzle F)) : Type 0 where
    pub ids : (id : Text) → has_id id out ≡ true → has_id id final ≡ true
    pub longer : length out ≤ length final

  pub Keeps-trans : (a b c : List (Puzzle F)) → Keeps a b → Keeps b c → Keeps a c
  Keeps-trans a b c k l = record {
    ids = λ id h. l.ids id (k.ids id h);
    longer = omega (arith, k.longer, l.longer);
  }

  Keeps-snoc : (out : List (Puzzle F)) (r : Puzzle F) → Keeps out (out ++ (r ∷ []))
  Keeps-snoc out r = record {
    ids = λ id h. ground (arith, h, has_id-snoc id out r);
    longer = omega (arith, length-append out (r ∷ []));
  }

  pub Keeps-refl : (out : List (Puzzle F)) → Keeps out out
  Keeps-refl out = record { ids = λ id h. h; longer = omega arith }

  step-Keeps :
      (out : List (Puzzle F)) (r : Puzzle F)
      → Keeps out (if has_id r.id out || seen r.id then out else out ++ (r ∷ []))
  step-Keeps out r =
      if-cases (has_id r.id out || seen r.id) (Keeps out) (λ _. Keeps-refl out)
        (λ _. Keeps-snoc out r)

  pub collect-Keeps : (rows out : List (Puzzle F)) → Keeps out (collect n seen rows out)
  unfolding collect
  collect-Keeps [] out = Keeps-refl out
  collect-Keeps (r ∷ rows) out =
      if-cases (leb n (length out)) (Keeps out) (λ _. Keeps-refl out)
        (λ _. Keeps-trans out _ _ (step-Keeps out r) (collect-Keeps rows _))

  -- A puzzle was seen, or its id is among those answered.
  abbrev pub Taken : List (Puzzle F) → Puzzle F → Type 0
  Taken out p = (seen p.id ≡ true) ⊎ (has_id p.id out ≡ true)

  step-Taken :
      (out : List (Puzzle F)) (r : Puzzle F)
      → Taken (if has_id r.id out || seen r.id then out else out ++ (r ∷ [])) r
  step-Taken out r = ground (arith, has_id-snoc r.id out r, text_eq_refl r.id)

  pub Taken-Keeps : (a b : List (Puzzle F)) (p : Puzzle F) → Keeps a b → Taken a p → Taken b p
  Taken-Keeps a b p k (inl old) = inl old
  Taken-Keeps a b p k (inr here) = inr (k.ids p.id here)

  -- Until there are enough, every row is taken.
  pub collect-Taken :
      (rows out : List (Puzzle F)) (p : Puzzle F)
      → Memᴰ p rows
      → length (collect n seen rows out) < n
      → Taken (collect n seen rows out) p
  unfolding collect
  collect-Taken [] out p m few = elim m [ ]
  collect-Taken (r ∷ rows) out p m few =
      if-cases (leb n (length out)) (λ x. length x < n → Taken x p)
        (λ full l. absurd (ground (arith, full, l)))
        (λ _ l. elim m [
          | head e ↦
              Taken-Keeps next (collect n seen rows next) p (collect-Keeps rows next)
                (subst (Taken next) (sym e) (step-Taken out r))
          | tail t ↦ collect-Taken rows next p t l
        ])
        few
    where
      next : List (Puzzle F)
      next = if has_id r.id out || seen r.id then out else out ++ (r ∷ [])
