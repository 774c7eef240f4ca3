-- ===== src/Puzzle/Reader.antt =====
-- internal/puzzle/csv.go: the Reader that streams puzzles out of the dump. The csv package is the
-- list of what its Read answers, a record or an error, and ends with the file. The loop that drains
-- a reader runs on fuel; one more than the rows is enough (Reader/Drain.antt).
pub mod Drain
use blundernet.Base.{
  ℕ, zero, suc, ◌+◌, Text, Bool, true, false, ◌&&◌, ◌||◌, List, [], ◌∷◌, Option, none, some, ltb,
  leb, if◌then◌else◌,
}
use blundernet.Base.Int.{ℤ, pos, negsuc}
use blundernet.Puzzle.{Puzzle, Parsed, parsed, rejected, check_header, parse}

pub data Row : Type 0 where
  line : List Text → Row
  broken : Row

-- Of the Reader, what Next changes besides its place in the file; `none` is the zero Puzzle.
pub record Counts (F : Type 0) : Type 0 where
  pub current : Option (Puzzle F)
  pub read : ℕ
  pub skipped : ℕ
  pub failed : Bool

unfoldable pub fresh : {F : Type 0} → Counts F
fresh = record { current = none; read = 0; skipped = 0; failed = false }

-- `none` is an error: no header, or a header with other columns.
unfoldable pub new_reader : {F : Type 0} → List Row → Option (List Row × Counts F)
new_reader [] = none
new_reader (broken ∷ rows) = none
new_reader (line head ∷ rows) = if check_header head then some (rows, fresh) else none

-- What Next answers, with what is left of the file and the reader.
pub data Answer (F : Type 0) : Type 0 where
  no_more more : List Row → Counts F → Answer F

-- What a drained reader has given, with the same.
pub record Drained (F : Type 0) : Type 0 where
  pub given : List (Puzzle F)
  pub left : List Row
  pub counts : Counts F

-- Zero, and what is below it, is no limit.
unfoldable pub is_full : ℤ → ℕ → Bool
is_full (negsuc n) read = false
is_full (pos n) read = ltb 0 n && leb n read

module _ (atoi : Text → Option ℤ) {F : Type 0} (parse_float : Text → Option F) (limit : ℤ)
    (filter : Option (Puzzle F → Bool)) where
  abbrev pub passes : Puzzle F → Bool
  passes p = elim filter [ none ↦ true | some f ↦ f p ]

  abbrev pub filtered : Parsed F → Option (Puzzle F)
  filtered (rejected e) = none
  filtered (parsed p) = if passes p then some p else none

  unfoldable pub wanted : List Text → Option (Puzzle F)
  wanted rec = filtered (parse atoi parse_float rec)

  unfoldable pub stops : Counts F → Bool
  unfolding is_full
  stops c = c.failed || is_full limit c.read

  unfoldable pub next : List Row → Counts F → Answer F
  next [] c = no_more [] c
  next (broken ∷ rows) c =
      if stops c then no_more (broken ∷ rows) c else no_more rows (record c { failed = true })
  next (line rec ∷ rows) c =
      let rest = next rows (record c { skipped = suc c.skipped }) in
      if stops c then no_more (line rec ∷ rows) c else elim (wanted rec) [
        | none ↦ rest
        | some p ↦ more rows (record c { current = some p; read = suc c.read })
      ]

  abbrev pub add_current : Counts F → Drained F → Drained F
  add_current c d = elim c.current [ none ↦ d | some p ↦ record d { given = p ∷ d.given } ]

  -- The loop `for r.Next() { … r.Puzzle() … }`.
  unfoldable pub drain : ℕ → List Row → Counts F → Drained F
  drain zero rows c = record { given = []; left = rows; counts = c }
  drain (suc fuel) rows c = elim (next rows c) [
    | no_more rest c' ↦ record { given = []; left = rest; counts = c' }
    | more rest c' ↦ add_current c' (drain fuel rest c')
  ]
