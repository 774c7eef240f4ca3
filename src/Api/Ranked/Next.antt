-- ===== src/Api/Ranked/Next.antt =====
-- internal/httpapi/ranked.go: handing out a ranked puzzle. Puzzles.One, which draws at random, and
-- the conversion of a rating to an integer are given to the handler; puzzles are configured.
pub mod Again
use blundernet.Base.{
  ℕ, ◌*◌, Text, text_eq, String, Bool, true, false, List, [], ◌∷◌, Option, none, some, ◌||◌,
  if◌then◌else◌,
}
use blundernet.Base.Int.{ℤ, pos, ◌+ℤ◌, ◌-ℤ◌}
use blundernet.Errors.{Except, ok, err}
use blundernet.Float.{Float64}
use blundernet.Chess.{Color}
use blundernet.Puzzle.{Puzzle, solver_color}
use blundernet.Puzzle.Line.{Positions}
use blundernet.Rating.{Player}
use blundernet.Store.Progress.{InProgress, value}
use blundernet.Store.Puzzles.{PuzzleRow, puzzle_rating}
use blundernet.Api.Ranked.{Visitor, Faults, Desk, status_of, replace_ranked}
use blundernet.Api.Streak.{view_position}

pub record RankedView : Type 0 where
  pub id : Text
  pub fen : Text
  pub setup_move : Text
  pub color : Color
  pub step : ℕ

pub data NextReply : Type 0 where
  refused : ℕ → NextReply
  shown : RankedView → NextReply

-- The ratings of a draw, if it has any.
abbrev pub Window : Type 0
Window = Option (ℤ × ℤ)

abbrev pub around : ℤ → ℕ → Window
around rating wide = some (rating -ℤ pos (100 * wide), rating +ℤ pos (250 * wide))

-- The windows of drawRanked.
abbrev pub windows : ℤ → List Window
windows rating = around rating 1 ∷ around rating 4 ∷ none ∷ []

abbrev pub contains : List Text → Text → Bool
contains [] id = false
contains (x ∷ xs) id = text_eq x id || contains xs id

module _ (fl : Float64) (chess : Positions) (truncate : fl.F → ℤ) where
  -- toRankedView, and the answer with it.
  unfoldable pub view : Puzzle fl.F → ℕ → NextReply
  view p step = elim (view_position fl chess p step) [
    | none ↦ refused 500
    | some (fen, setup) ↦
        shown
          (record { id = p.id; fen = fen; setup_move = setup; color = solver_color p; step = step })
  ]

  module _ (one : Window → (Text → Bool) → Except (Option (Puzzle fl.F))) where
    unfoldable pub draw_ranked : List Window → (Text → Bool) → Except (Option (Puzzle fl.F))
    draw_ranked [] seen = ok none
    draw_ranked (w ∷ ws) seen = elim (one w seen) [
      | err e ↦ err e
      | ok none ↦ draw_ranked ws seen
      | ok (some p) ↦ ok (some p)
    ]

    abbrev pub after_put : Puzzle fl.F → Desk fl × Except (Unit {0}) → Desk fl × NextReply
    after_put p (d, err e) = (d, refused (status_of e))
    after_put p (d, ok u) = (d, view p 0)

    -- `unset` says that the script of the new state fails.
    abbrev pub put_ranked :
        Bool → ℕ → String → Desk fl → Except (Option (Puzzle fl.F)) → Desk fl × NextReply
    put_ranked unset now user d (err e) = (d, refused 500)
    put_ranked unset now user d (ok none) = (d, refused 404)
    put_ranked unset now user d (ok (some p)) = after_put p (
        replace_ranked fl unset now user none
          (some (record { puzzle_id = p.id; step = 0; started = now })) d)

    abbrev pub rated_draw :
        Faults → Bool → ℕ → String → Desk fl → Except (Player fl.F × ℕ) → Desk fl × NextReply
    rated_draw f unset now user d (err e) = (d, refused 500)
    rated_draw f unset now user d (ok (player, solved)) =
        if f.seen
        then (d, refused 500)
        else put_ranked unset now user d
            (draw_ranked (windows (truncate player.rating)) (contains (d.seen user)))

    abbrev pub new_puzzle : Faults → Bool → ℕ → String → Desk fl → Desk fl × NextReply
    new_puzzle f unset now user d =
        rated_draw f unset now user d (puzzle_rating fl f.store user d.tables)

    -- The puzzle in progress has gone: its state is dropped first.
    abbrev pub after_drop :
        Faults → Bool → ℕ → String → Desk fl × Except (Unit {0}) → Desk fl × NextReply
    after_drop f unset now user (d, err e) = (d, refused 500)
    after_drop f unset now user (d, ok u) = new_puzzle f unset now user d

    abbrev pub in_progress :
        Faults
        → Bool
        → ℕ
        → String
        → InProgress
        → Desk fl
        → Option (PuzzleRow fl)
        → Desk fl × NextReply
    in_progress f unset now user s d none =
        after_drop f unset now user (replace_ranked fl f.replace now user (some s) none d)
    in_progress f unset now user s d (some row) = (d, view row.puzzle s.step)

    abbrev pub on_progress :
        Faults → Bool → ℕ → String → Desk fl → Option InProgress → Desk fl × NextReply
    on_progress f unset now user d none = new_puzzle f unset now user d
    on_progress f unset now user d (some s) =
        if f.by_id
        then (d, refused 500)
        else in_progress f unset now user s d (d.tables.puzzles s.puzzle_id)

    -- handleRankedNext, with rankedUser.
    unfoldable pub handle_ranked_next :
        Faults → Bool → ℕ → Option Visitor → Desk fl → Desk fl × NextReply
    handle_ranked_next f unset now none d = (d, refused 401)
    handle_ranked_next f unset now (some v) d =
        if v.is_guest
        then (d, refused 401)
        else if f.get
        then (d, refused 500)
        else on_progress f unset now v.id d (value now (d.ranked v.id))
