-- ===== src/Tests/Samples.antt =====
-- A draw of two puzzles from two cells, in which one was seen.
use blundernet.Base.{ℕ, ◌-◌, Text, codes, text_eq, List, [], ◌∷◌, Bool, arith, refl, subst}
use blundernet.Errors.{Except, ok}
use blundernet.Puzzle.{Puzzle}
use blundernet.Store.Select.{Cell, Scan, select}
use blundernet.Store.Select.Rows.{AllMatch, the_rows}
use blundernet.Store.Select.Chosen.{Draw, Done, select-Done}
use blundernet.Tests.Puzzles.{fork}

abbrev small : Cell
small = record { band = 15; phase = codes "middlegame"; plies = 3; n = 1 }

abbrev cells : List Cell
cells = small ∷ record small { plies = 5; n = 2 } ∷ []

abbrev is_seen : Text → Bool
is_seen id = text_eq id (codes "p1")

abbrev is_fork : Puzzle ℕ → Bool
is_fork p = text_eq p.fen (codes "start")

-- Each draw is the largest there is.
abbrev largest : ℕ → ℕ → ℕ
largest i total = total - 1

abbrev scan : ℕ → Scan → Cell → ℕ → Except (List (Puzzle ℕ))
scan i s c limit = ok (fork ∷ record fork { id = codes "p2" } ∷ [])

lawful : Draw 2 is_seen is_fork largest scan
lawful = record {
  below = λ i total h. omega (arith, h);
  fits = λ i s c limit rows h. subst (AllMatch 2 is_seen is_fork) (the_rows h) (refl, (refl, tt));
}

select-Done_example :
    Done 2 is_seen is_fork largest scan cells (select 2 is_seen largest scan cells)
select-Done_example = select-Done 2 is_seen is_fork largest scan lawful cells
