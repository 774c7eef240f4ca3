-- ===== src/Store/Select.antt =====
-- internal/store/puzzleselect.go: drawing puzzles that match a filter. The queries of one scan, the
-- random cursor in them and the random number of a draw are parameters, told which scan it is.
pub mod Rows
pub mod Chosen
use blundernet.Base.{
  ℕ, zero, suc, ◌+◌, ◌-◌, Text, text_eq, Bool, true, false, ◌||◌, List, [], ◌∷◌, ◌++◌, length,
  Option, none, some, ltb, leb, ◌==◌, if◌then◌else◌,
}
use blundernet.Errors.{Except, ok, err}
use blundernet.Puzzle.{Puzzle}

pub record Cell : Type 0 where
  pub band : ℕ
  pub phase : Text
  pub plies : ℕ
  pub n : ℕ

-- scanWholeCell, and scanCell and scanCellWrapped around one cursor.
pub data Scan : Type 0 where
  whole from_cursor wrapped : Scan

abbrev pub scan_limit : ℕ → ℕ
scan_limit want = (if ltb want 1 then 1 else want) + 2

abbrev pub emptied : Cell → Cell
emptied c = record c { n = 0 }

abbrev pub put_back : Cell → Option (Cell × List Cell) → Option (Cell × List Cell)
put_back c none = none
put_back c (some (drawn, cells)) = some (drawn, c ∷ cells)

-- drawCell with its random number; `none` is the panic on no cells.
unfoldable pub draw_cell : ℕ → List Cell → Option (Cell × List Cell)
draw_cell r [] = none
draw_cell r (c ∷ []) = some (c, emptied c ∷ [])
draw_cell r (c ∷ d ∷ cells) =
    let rest = draw_cell (r - c.n) (d ∷ cells) in
    if ltb r c.n then some (c, emptied c ∷ d ∷ cells) else put_back c rest

-- The sum that cells answers with the cells.
abbrev pub total_of : List Cell → ℕ
total_of [] = 0
total_of (c ∷ cells) = c.n + total_of cells

pub data Selected (F : Type 0) : Type 0 where
  selected : List (Puzzle F) → Selected F
  failed panicked : Selected F

module _ {F : Type 0} where
  abbrev pub has_id : Text → List (Puzzle F) → Bool
  has_id id [] = false
  has_id id (p ∷ ps) = text_eq p.id id || has_id id ps

  module _ (n : ℕ) (seen : Text → Bool) where
    -- The loop over the rows of a scan.
    unfoldable pub collect : List (Puzzle F) → List (Puzzle F) → List (Puzzle F)
    collect [] out = out
    collect (r ∷ rows) out =
        if leb n (length out)
        then out
        else collect rows (if has_id r.id out || seen r.id then out else out ++ (r ∷ []))

    module _ (draw : ℕ → ℕ → ℕ) (scan : ℕ → Scan → Cell → ℕ → Except (List (Puzzle F))) where
      abbrev pub with_more : List (Puzzle F) → Except (List (Puzzle F)) → Except (List (Puzzle F))
      with_more rows (err e) = err e
      with_more rows (ok more) = ok (rows ++ more)

      abbrev pub wrap : ℕ → Cell → ℕ → Except (List (Puzzle F)) → Except (List (Puzzle F))
      wrap i c limit (err e) = err e
      wrap i c limit (ok rows) =
          if ltb (length rows) limit
          then with_more rows (scan i wrapped c (limit - length rows))
          else ok rows

      unfoldable pub rows_of : ℕ → Cell → ℕ → Except (List (Puzzle F))
      rows_of i c limit =
          if leb c.n limit
          then scan i whole c limit
          else wrap i c limit (scan i from_cursor c limit)

      module _ (cells : List Cell) (total : ℕ) where
        -- The pool of a scan: all the cells again once every one was drawn.
        abbrev pub pool_of : List Cell → ℕ → List Cell × ℕ
        pool_of pool left = if left == 0 then (cells, total) else (pool, left)

        -- The loop over at most so many scans, the i-th first.
        unfoldable pub scans : ℕ → ℕ → List Cell → ℕ → List (Puzzle F) → Selected F
        scans zero i pool left out = selected out
        scans (suc k) i pool left out =
            if leb n (length out)
            then selected out
            else elim (draw_cell (draw i (pool_of pool left).1) (pool_of pool left).0) [
              | none ↦ panicked
              | some (c, pool') ↦ elim (rows_of i c (scan_limit (n - length out))) [
                | err e ↦ failed
                | ok rows ↦ scans k (suc i) pool' ((pool_of pool left).1 - c.n) (collect rows out)
              ]
            ]

      -- Select on the cells that the filter covers.
      unfoldable pub select : List Cell → Selected F
      select cells =
          if n == 0
          then selected []
          else if total_of cells == 0
          then selected []
          else scans cells (total_of cells) 12 0 cells (total_of cells) []
