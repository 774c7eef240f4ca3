-- ===== src/Store/Select/Chosen.antt =====
-- What internal/store/puzzleselect.go selects, and from which scans.
use blundernet.Base.{
  ℕ, zero, suc, ◌+◌, ◌-◌, ◌≤◌, ◌<◌, ◌≡◌, refl, sym, subst, Text, Bool, List, [], ◌++◌, length, none,
  some, ltb, leb, ◌==◌, if-cases, arith, Bool-cases, inl, inr, ◌⊎◌,
}
use mathlib.Core.List.{Memᴰ}
use blundernet.Errors.{Except, ok, err, Error}
use blundernet.Puzzle.{Puzzle}
use blundernet.Store.Select.{
  Cell, Scan, scan_limit, draw_cell, total_of, Selected, selected, failed, panicked, collect, whole,
  from_cursor, wrapped, with_more, wrap, rows_of, pool_of, scans, select,
}
use blundernet.Store.Select.Rows.{
  draw_cell-Draws, AllMatch, AllMatch-append, Chosen, collect-Chosen, Keeps, Keeps-refl,
  Keeps-trans, collect-Keeps, Taken, Taken-Keeps, collect-Taken,
}

module _ {F : Type 0} (n : ℕ) (seen : Text → Bool) (matches : Puzzle F → Bool) (draw : ℕ → ℕ → ℕ)
    (scan : ℕ → Scan → Cell → ℕ → Except (List (Puzzle F))) where
  -- rand.Int64N answers a number below its argument, and a scan answers rows that match.
  pub record Draw : Type 0 where
    pub below : (i total : ℕ) → 0 < total → draw i total < total
    pub fits :
        (i : ℕ) (s : Scan) (c : Cell) (limit : ℕ) (rows : List (Puzzle F))
        → scan i s c limit ≡ ok rows
        → AllMatch n seen matches rows

  -- The rows of a cell: the whole of a small one, or those from the cursor, with those in front of
  -- it where they are too few.
  pub data Found (i : ℕ) (c : Cell) (limit : ℕ) (rows : List (Puzzle F)) : Type 0 where
    in_whole : c.n ≤ limit → scan i whole c limit ≡ ok rows → Found i c limit rows
    behind :
        limit < c.n
        → scan i from_cursor c limit ≡ ok rows
        → limit ≤ length rows
        → Found i c limit rows
    around :
        (a b : List (Puzzle F))
        → limit < c.n
        → scan i from_cursor c limit ≡ ok a
        → length a < limit
        → scan i wrapped c (limit - length a) ≡ ok b
        → rows ≡ a ++ b
        → Found i c limit rows

  -- The i-th scan read one of the cells, and each of its rows was seen or is among those answered.
  pub record Scanned (cells : List Cell) (i : ℕ) (out : List (Puzzle F)) : Type 0 where
    pub cell : Cell
    pub there : Memᴰ cell cells
    pub holds : 0 < cell.n
    pub limit : ℕ
    pub wide : n + 2 ≤ limit + length out
    pub rows : List (Puzzle F)
    pub found : Found i cell limit rows
    pub taken : (p : Puzzle F) → Memᴰ p rows → Taken n seen matches out p

  -- A query of one of the twelve scans failed.
  pub record Broken : Type 0 where
    pub index : ℕ
    pub early : index < 12
    pub kind : Scan
    pub cell : Cell
    pub limit : ℕ
    pub error : Error
    pub failing : scan index kind cell limit ≡ err error

  -- From the i-th scan on.
  abbrev Enough : List Cell → ℕ → List (Puzzle F) → Type 0
  Enough cells i out = (length out ≡ n) ⊎ ((j : ℕ) → i ≤ j → j < 12 → Scanned cells j out)

  abbrev pub Done : List Cell → Selected F → Type 0
  Done cells (selected out) =
      Chosen n seen matches out
      × ((length out ≡ n) ⊎ (total_of cells ≡ 0) ⊎ ((j : ℕ) → j < 12 → Scanned cells j out))
  Done cells failed = Broken
  Done cells panicked = ⊥

  module _ (lawful : Draw) where
    Found-AllMatch :
        (i : ℕ) (c : Cell) (limit : ℕ) (rows : List (Puzzle F))
        → Found i c limit rows
        → AllMatch n seen matches rows
    Found-AllMatch i c limit rows (in_whole s e) = lawful.fits i whole c limit rows e
    Found-AllMatch i c limit rows (behind s e l) = lawful.fits i from_cursor c limit rows e
    Found-AllMatch i c limit rows (around a b s e l f same) =
        subst (AllMatch n seen matches) (sym same) (
          AllMatch-append n seen matches a b (lawful.fits i from_cursor c limit a e)
            (lawful.fits i wrapped c (limit - length a) b f))

    abbrev Rows : ℕ → Cell → ℕ → Except (List (Puzzle F)) → Type 0
    Rows i c limit (ok rows) = Found i c limit rows
    Rows i c limit (err e) = (k : Scan) × (l : ℕ) × (scan i k c l ≡ err e)

    rows_of-Rows :
        (i : ℕ) (c : Cell) (limit : ℕ) → Rows i c limit (rows_of n seen draw scan i c limit)
    unfolding rows_of
    rows_of-Rows i c limit =
        if-cases (leb c.n limit) (Rows i c limit)
          (λ small. all (ground (arith, small)) (scan i whole c limit) refl)
          (λ large. wrapping (ground (arith, large)) (scan i from_cursor c limit) refl)
      where
        all :
            c.n ≤ limit
            → (x : Except (List (Puzzle F))) → scan i whole c limit ≡ x
            → Rows i c limit x
        all small (err e) at = (whole, limit, at)
        all small (ok rows) at = in_whole small at

        more :
            limit < c.n
            → (a : List (Puzzle F)) → scan i from_cursor c limit ≡ ok a
            → length a < limit
            → (x : Except (List (Puzzle F))) → scan i wrapped c (limit - length a) ≡ x
            → Rows i c limit (with_more n seen draw scan a x)
        more large a at few (err e) then_at = (wrapped, limit - length a, then_at)
        more large a at few (ok b) then_at = around a b large at few then_at refl

        wrapping :
            limit < c.n
            → (x : Except (List (Puzzle F))) → scan i from_cursor c limit ≡ x
            → Rows i c limit (wrap n seen draw scan i c limit x)
        wrapping large (err e) at = (from_cursor, limit, at)
        wrapping large (ok rows) at =
            if-cases (ltb (length rows) limit) (Rows i c limit)
              (λ few.
                more large rows at (ground (arith, few)) (scan i wrapped c (limit - length rows))
                  refl)
              (λ many. behind large at (ground (arith, many)))

    -- A pool with the sum of its cells, which are not all empty, taken from `cells`.
    abbrev Full : List Cell → List Cell × ℕ → Type 0
    Full cells x =
        (total_of x.0 ≡ x.1) × (0 < x.1) × ((d : Cell) → Memᴰ d x.0 → 0 < d.n → Memᴰ d cells)

    -- The end of the scans from the i-th on, with the puzzles in front of it.
    abbrev Ended : List Cell → ℕ → List (Puzzle F) → Selected F → Type 0
    Ended cells i out (selected final) =
        Chosen n seen matches final × Keeps n seen matches out final × Enough cells i final
    Ended cells i out failed = Broken
    Ended cells i out panicked = ⊥

    stopped :
        (cells : List Cell) (i : ℕ) (out : List (Puzzle F))
        → Chosen n seen matches out
        → (n ≤ length out) ⊎ (12 ≤ i)
        → Ended cells i out (selected out)
    stopped cells i out c (inl full) =
        (c, Keeps-refl n seen matches out, inl (omega (arith, full, c.0)))
    stopped cells i out c (inr late) =
        (c, Keeps-refl n seen matches out, inr (λ j l m. absurd (omega (arith, late, l, m))))

    -- One more scan in front of the others.
    scanned :
        (cells : List Cell) (i : ℕ) (c : Cell) (rows out : List (Puzzle F))
        → Memᴰ c cells
        → 0 < c.n
        → length out < n
        → Found i c (scan_limit (n - length out)) rows
        → (x : Selected F) → Ended cells (suc i) (collect n seen rows out) x
        → Ended cells i out x
    scanned cells i c rows out m pos room f failed e = e
    scanned cells i c rows out m pos room f panicked e = e
    scanned cells i c rows out m pos room f (selected final) (chosen, keeps, inl full) = (
      chosen,
      Keeps-trans n seen matches out (collect n seen rows out) final
          (collect-Keeps n seen matches rows out) keeps,
      inl full,
    )
    scanned cells i c rows out m pos room f (selected final) (chosen, keeps, inr later) =
        elim (Bool-cases (ltb (length final) n)) [
          | inr full ↦ (chosen, whole_keeps, inl (ground (arith, full, chosen.0)))
          | inl few ↦ (
            chosen,
            whole_keeps,
            inr (λ j l h. elim (Bool-cases (j == i)) [
              | inl same ↦
                  subst (λ k. Scanned cells k final) (ground (arith, same))
                    (this (ground (arith, few)))
              | inr away ↦ later j (ground (arith, l, away)) h
            ]),
          )
        ]
      where
        whole_keeps : Keeps n seen matches out final
        whole_keeps =
            Keeps-trans n seen matches out (collect n seen rows out) final
              (collect-Keeps n seen matches rows out) keeps

        this : length final < n → Scanned cells i final
        this few = record {
          cell = c;
          there = m;
          holds = pos;
          limit = scan_limit (n - length out);
          wide = ground (arith, room, whole_keeps.longer);
          rows = rows;
          found = f;
          taken = λ p k.
              Taken-Keeps n seen matches (collect n seen rows out) final p keeps
                (collect-Taken n seen matches rows out p k (omega (arith, keeps.longer, few)));
        }

    scans-Ended :
        (cells : List Cell) (k i : ℕ) (pool : List Cell) (left : ℕ) (out : List (Puzzle F))
        → 0 < total_of cells
        → k + i ≡ 12
        → total_of pool ≡ left
        → ((d : Cell) → Memᴰ d pool → 0 < d.n → Memᴰ d cells)
        → Chosen n seen matches out
        → Ended cells i out (scans n seen draw scan cells (total_of cells) k i pool left out)
    unfolding scans
    scans-Ended cells zero i pool left out some_cells at sum inside c =
        stopped cells i out c (inr (omega (arith, at)))
    scans-Ended cells (suc k) i pool left out some_cells at sum inside c =
        if-cases (leb n (length out)) (Ended cells i out)
          (λ full. stopped cells i out c (inl (ground (arith, full))))
          (λ room.
            drawn (ground (arith, room)) (pool_of n seen draw scan cells (total_of cells) pool left)
              (if-cases (left == 0) (Full cells) (λ _. (refl, some_cells, λ d m _. m))
                (λ ne. (sum, ground (arith, ne), inside)))
              (λ pool' left' out' sum' inside' c'.
                scans-Ended cells k (suc i) pool' left' out' some_cells (omega (arith, at)) sum'
                  inside' c'))
      where
        Later : Type 0
        Later =
            (pool' : List Cell) (left' : ℕ) (out' : List (Puzzle F))
            → total_of pool' ≡ left'
            → ((e : Cell) → Memᴰ e pool' → 0 < e.n → Memᴰ e cells)
            → Chosen n seen matches out'
            → Ended cells (suc i) out'
                (scans n seen draw scan cells (total_of cells) k (suc i) pool' left' out')

        next : List Cell → ℕ → Except (List (Puzzle F)) → Selected F
        next pool' left' x = elim x [
          | err e ↦ failed
          | ok rows ↦
              scans n seen draw scan cells (total_of cells) k (suc i) pool' left'
                (collect n seen rows out)
        ]

        answered :
            length out < n
            → (d : Cell) (pool' : List Cell) (left' : ℕ) → Memᴰ d cells
            → 0 < d.n
            → total_of pool' ≡ left'
            → ((e : Cell) → Memᴰ e pool' → 0 < e.n → Memᴰ e cells)
            → (x : Except (List (Puzzle F))) → Rows i d (scan_limit (n - length out)) x
            → Later
            → Ended cells i out (next pool' left' x)
        answered room d pool' left' m pos sum' inside' (err e) (kind, limit, failing) ih = record {
          index = i;
          early = omega (arith, at);
          kind = kind;
          cell = d;
          limit = limit;
          error = e;
          failing = failing;
        }
        answered room d pool' left' m pos sum' inside' (ok rows) f ih =
            scanned cells i d rows out m pos room f _ (
              ih pool' left' (collect n seen rows out) sum' inside' (
                collect-Chosen n seen matches rows out
                  (Found-AllMatch i d (scan_limit (n - length out)) rows f) c))

        drawn :
            length out < n
            → (x : List Cell × ℕ) → Full cells x
            → Later
            → Ended cells i out (elim (draw_cell (draw i x.1) x.0) [
              | none ↦ panicked
              | some (d, pool') ↦
                  next pool'
                    (x.1 - d.n)
                    (rows_of n seen draw scan i d (scan_limit (n - length out)))
            ])
        drawn room x (sum', some_left, inside') ih =
            let d =
              draw_cell-Draws (draw i x.1) x.0
                (omega (arith, lawful.below i x.1 some_left, sum')) in
            rw d.is (
              answered room d.cell d.rest (x.1 - d.cell.n) (inside' d.cell d.from d.holds) d.holds
                (omega (arith, d.sum, sum')) (λ e m pos. inside' e (d.left e m pos) pos)
                (rows_of n seen draw scan i d.cell (scan_limit (n - length out)))
                (rows_of-Rows i d.cell (scan_limit (n - length out))) ih)

    -- If the random number of a draw is below the number that it is drawn from, and every scan
    -- answers puzzles that match, then Select ends without drawing from an empty sum, which
    -- would panic. If it fails, then a query of one of the first twelve scans failed. Else it
    -- answers at most n puzzles, all of them matching, none of them seen and no id twice; and
    -- unless there are n of them or the cells are all empty, it made twelve scans, each of one
    -- of the cells, and every row that they answered was seen or has the id of a puzzle that is
    -- answered.
    pub select-Done : (cells : List Cell) → Done cells (select n seen draw scan cells)
    unfolding select
    select-Done cells =
        if-cases (n == 0) (Done cells)
          (λ none_asked. ((omega arith, tt), inl (ground (arith, none_asked))))
          (λ _.
            if-cases (total_of cells == 0) (Done cells)
              (λ nothing. ((omega arith, tt), inr (inl (ground (arith, nothing)))))
              (λ ne. ended _ (
                scans-Ended cells 12 0 cells (total_of cells) [] (ground (arith, ne)) refl refl
                  (λ d m _. m) (omega arith, tt))))
      where
        ended : (x : Selected F) → Ended cells 0 [] x → Done cells x
        ended failed e = e
        ended panicked e = e
        ended (selected out) (c, _, inl full) = (c, inl full)
        ended (selected out) (c, _, inr every) = (c, inr (inr (λ j h. every j (omega arith) h)))
