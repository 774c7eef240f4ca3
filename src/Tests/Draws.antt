-- ===== src/Tests/Draws.antt =====
-- Ana asks for a ranked puzzle on an empty key, and asks again.
use blundernet.Base.{
  ℕ, ◌<◌, ◌≡◌, refl, sym, ap, Text, codes, Option, none, some, Bool, false, fields, arith,
}
use blundernet.Base.Int.{ℤ, pos}
use blundernet.Errors.{Except, ok, err}
use blundernet.Chess.{white}
use blundernet.Puzzle.{Puzzle, solver_color, setup_move}
use blundernet.Store.Sessions.{Entry}
use blundernet.Store.Progress.{InProgress, replace}
use blundernet.Store.Puzzles.{puzzle_rating}
use blundernet.Api.Ranked.{Desk}
use blundernet.Api.Ranked.Solving.{no_faults}
use blundernet.Api.Streak.{view_position}
use blundernet.Api.Ranked.Next.{
  Window, RankedView, NextReply, shown, handle_ranked_next, view, draw_ranked,
}
use blundernet.Api.Ranked.Next.Again.{Stored, handle_ranked_next-again}
use blundernet.Tests.Fixtures.{floats}
use blundernet.Tests.Puzzles.{board, fork}
use blundernet.Tests.Desks.{visitor, desk_with, fork_row, tables}

abbrev whole : ℕ → ℤ
whole n = pos n

-- The draw finds the fork, whatever the window.
abbrev finds : Window → (Text → Bool) → Except (Option (Puzzle ℕ))
finds w seen = ok (some fork)

abbrev finds_nothing : Window → (Text → Bool) → Except (Option (Puzzle ℕ))
finds_nothing w seen = ok none

finds-Stored : Stored floats board whole finds tables
finds-Stored w seen p h =
    let same : fork ≡ p = ap (λ x. elim x [ ok (some q) ↦ q | ok none ↦ fork | err e ↦ fork ]) h in
    (fork_row, ap (λ (q : Puzzle ℕ). tables.puzzles q.id) (sym same), same)

abbrev first : Desk floats × NextReply
first =
    handle_ranked_next floats board whole finds no_faults false 7 (some visitor)
      (desk_with none none)

abbrev fork_view : RankedView
fork_view = record {
  id = codes "p1";
  fen = codes "start";
  setup_move = codes "a";
  color = white;
  step = 0;
}

first_shown : first.1 ≡ shown fork_view
unfolding handle_ranked_next draw_ranked view view_position puzzle_rating replace setup_move
    solver_color fields
first_shown = refl

first_lives : (e : Entry InProgress) → first.0.ranked "ana" ≡ some e → 600 < e.expires
unfolding handle_ranked_next draw_ranked view view_position puzzle_rating replace
first_lives e h = ground (arith, h)

handle_ranked_next-again_example :
    handle_ranked_next floats board whole finds_nothing no_faults false 600 (some visitor) first.0
    ≡ (first.0, shown fork_view)
handle_ranked_next-again_example =
    handle_ranked_next-again floats board whole finds finds_nothing no_faults no_faults false false
      7 600 visitor (desk_with none none) fork_view finds-Stored first_shown first_lives refl refl
