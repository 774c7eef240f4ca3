-- ===== src/Api/Streak.antt =====
-- internal/httpapi/streak.go: the handlers that start a run of puzzles and grade its moves. What
-- ensureIdentity and the draws of Puzzles.One answer is given to the handlers; puzzles and accounts
-- are configured.
pub mod Between
use blundernet.Base.{
  ℕ, suc, ◌+◌, ◌-◌, Text, text_eq, String, str_eq, Bool, true, false, not, ◌&&◌, List, [], ◌∷◌,
  Option, none, some, ◌==◌, if◌then◌else◌,
}
use blundernet.Base.Int.{ℤ, pos, sub_ℕ, ◌+ℤ◌}
use blundernet.Errors.{Error, conflict, Except, ok, err}
use blundernet.Float.{Float64}
use blundernet.Puzzle.{Puzzle, column, solution, setup_move, solver_color, user_moves}
use blundernet.Puzzle.Line.{Positions, Graded, check, fen_after}
use blundernet.Chess.{Color}
use blundernet.Store.Sessions.{Entry}
use blundernet.Store.Progress.{StreakState, streak_ttl, same_streak, value, replace, rating_for}
use blundernet.Store.Puzzles.{
  Attempt, streak, nullable_int, PuzzleRow, Tables, record_streak, save_best_streak, best_streak,
}
use blundernet.Api.Ranked.{Visitor, Faults, MoveRequest, Desk, status_of, record_status, add_seen}

-- streakView
pub record StreakView : Type 0 where
  pub id : Text
  pub fen : Text
  pub setup_move : Text
  pub color : Color
  pub moves : ℕ
  pub step : ℕ
  pub count : ℕ
  pub best : ℕ

pub data StreakReply : Type 0 where
  refused : ℕ → StreakReply
  shown : StreakView → StreakReply
  replied : Text → ℕ → StreakReply
  solved : ℕ → StreakReply
  over : List Text → ℕ → ℕ → StreakReply

module _ (fl : Float64) where
  abbrev pub set_streak : String → Option (Entry StreakState) → Desk fl → Desk fl
  set_streak user e d = record d { streaks = λ j. if str_eq user j then e else d.streaks j }

  -- Streak.Replace
  abbrev pub replace_streak :
      Bool
      → ℕ
      → String
      → Option StreakState
      → Option StreakState
      → Desk fl
      → Desk fl × Except (Unit {0})
  replace_streak lost now user before after d =
      let (key, r) = replace same_streak streak_ttl lost now before after (d.streaks user) in
      (set_streak user key d, r)

  abbrev pub after_replace : StreakReply → Desk fl × Except (Unit {0}) → Desk fl × StreakReply
  after_replace reply (d, ok u) = (d, reply)
  after_replace reply (d, err e) = (d, refused (status_of e))

  -- The state of a run that has solved its puzzle: between two puzzles.
  abbrev pub between : StreakState → StreakState
  between s = record s { count = suc s.count; step = 0; puzzle_id = [] }

  -- A miss: the best run is kept, and then the key is cleared.
  abbrev pub after_best :
      Faults
      → ℕ
      → String
      → StreakState
      → Puzzle fl.F
      → Desk fl
      → Tables fl × Except ℕ
      → Desk fl × StreakReply
  after_best f now user s p d (t, err e) = (record d { tables = t }, refused 500)
  after_best f now user s p d (t, ok best) = (
    (replace_streak f.replace now user (some s) none (record d { tables = t })).0,
    over (solution p) s.count best,
  )

  abbrev pub after_streak :
      Faults
      → ℕ
      → String
      → StreakState
      → Puzzle fl.F
      → Bool
      → Desk fl
      → Tables fl × Except (Unit {0})
      → Desk fl × StreakReply
  after_streak f now user s p correct d (t, err e) =
      (record d { tables = t }, refused (record_status e))
  after_streak f now user s p correct d (t, ok u) =
      let d' = add_seen fl f.seen user p.id (record d { tables = t }) in
      if not correct
      then after_best f now user s p d' (save_best_streak fl f.store user s.count d'.tables)
      else after_replace (solved (suc s.count))
          (replace_streak f.replace now user (some s) (some (between s)) d')

  module _ (attempt_id : String → Text → ℕ → ℕ) where
    abbrev pub streak_attempt : ℕ → String → Puzzle fl.F → Bool → ℤ → Attempt
    streak_attempt now user p correct ms = record {
      user = user;
      puzzle = p.id;
      solved = correct;
      ms = nullable_int ms;
      mode = streak;
      hints = pos 0;
      attempt_id = none;
      attempted_at = now;
    }

    abbrev pub grade_streak :
        Faults
        → ℕ
        → String
        → StreakState
        → Puzzle fl.F
        → ℤ
        → Desk fl
        → Graded
        → Desk fl × StreakReply
    grade_streak f now user s p ms d g =
        if g.correct && not g.is_over
        then after_replace (replied (column (s.step + 1) (solution p)) s.count)
            (replace_streak f.replace now user (some s) (some (record s { step = s.step + 2 })) d)
        else after_streak f now user s p g.correct d (
            record_streak fl f.store (attempt_id user p.id s.started)
              (streak_attempt now user p g.correct ms) d.tables)

    module _ (chess : Positions) where
      abbrev pub on_streak_puzzle :
          Faults
          → ℕ
          → String
          → StreakState
          → MoveRequest
          → Desk fl
          → Option (PuzzleRow fl)
          → Desk fl × StreakReply
      on_streak_puzzle f now user s req d none =
          ((replace_streak f.replace now user (some s) none d).0, refused 409)
      on_streak_puzzle f now user s req d (some row) =
          grade_streak f now user s row.puzzle req.ms d
            (check chess row.puzzle (pos s.step) req.uci)

      abbrev pub on_run :
          Faults → ℕ → String → MoveRequest → Desk fl → Option StreakState → Desk fl × StreakReply
      on_run f now user req d none = (d, refused 409)
      on_run f now user req d (some s) =
          if f.by_id
          then (d, refused 500)
          else on_streak_puzzle f now user s req d (d.tables.puzzles s.puzzle_id)

      abbrev pub streak_move :
          Faults → ℕ → String → Option MoveRequest → Desk fl → Desk fl × StreakReply
      streak_move f now user none d = (d, refused 400)
      streak_move f now user (some req) d =
          if text_eq req.uci []
          then (d, refused 400)
          else if f.get
          then (d, refused 500)
          else on_run f now user req d (value now (d.streaks user))

      unfoldable pub handle_streak_move :
          Faults → ℕ → Option Visitor → Option MoveRequest → Desk fl → Desk fl × StreakReply
      handle_streak_move f now none req d = (d, refused 409)
      handle_streak_move f now (some v) req d = streak_move f now v.id req d

  module _ (chess : Positions) where
    -- toRankedView: the position the solver faces, and the move to play before it.
    unfoldable pub view_position : Puzzle fl.F → ℕ → Option (Text × Text)
    view_position p step =
        if 0 == step
        then some (p.fen, setup_move p)
        else elim (fen_after chess p (pos step)) [ none ↦ none | some fen ↦ some (fen, []) ]

    abbrev pub with_best : Puzzle fl.F → StreakState → Text × Text → Except ℕ → StreakReply
    with_best p s at (err e) = refused 500
    with_best p s (fen, setup) (ok best) = shown (record {
      id = p.id;
      fen = fen;
      setup_move = setup;
      color = solver_color p;
      moves = user_moves p;
      step = s.step;
      count = s.count;
      best = best;
    })

    unfoldable pub write_streak : Bool → String → Puzzle fl.F → StreakState → Desk fl → StreakReply
    write_streak lost user p s d = elim (view_position p s.step) [
      | none ↦ refused 500
      | some at ↦ with_best p s at (best_streak fl lost user d.tables)
    ]

    -- The two windows of nextStreakPuzzle, and what One answers to each.
    abbrev pub drawn_state : ℕ → Puzzle fl.F → Option StreakState → StreakState
    drawn_state now p none = record { puzzle_id = p.id; step = 0; count = 0; started = now }
    drawn_state now p (some s) = record s { puzzle_id = p.id; step = 0; started = now }

    abbrev pub put_drawn :
        Faults → ℕ → String → Option StreakState → Desk fl → Puzzle fl.F → Desk fl × StreakReply
    put_drawn f now user before d p =
        let (d', r) =
          replace_streak f.replace now user before (some (drawn_state now p before)) d in
        after_replace (write_streak f.store user p (drawn_state now p before) d') (d', r)

    unfoldable pub draw :
        Faults
        → ℕ
        → String
        → Option StreakState
        → Desk fl
        → List (Except (Option (Puzzle fl.F)))
        → Desk fl × StreakReply
    draw f now user before d [] = (d, refused 404)
    draw f now user before d (err e ∷ more) = (d, refused 500)
    draw f now user before d (ok none ∷ more) = draw f now user before d more
    draw f now user before d (ok (some p) ∷ more) = put_drawn f now user before d p

    abbrev pub window : ℕ → StreakState → ℤ × ℤ
    window span s = (sub_ℕ (rating_for s) span, pos (rating_for s + span))

    abbrev pub run_or_fresh : Option StreakState → StreakState
    run_or_fresh none = record { puzzle_id = []; step = 0; count = 0; started = 0 }
    run_or_fresh (some s) = s

    -- `one` answers a draw between two ratings.
    unfoldable pub next_streak_puzzle :
        (ℤ × ℤ → Except (Option (Puzzle fl.F)))
        → Faults
        → ℕ
        → String
        → Option StreakState
        → Desk fl
        → Desk fl × StreakReply
    next_streak_puzzle one f now user before d =
        if f.seen
        then (d, refused 500)
        else draw f now user before d
            (one (window 60 (run_or_fresh before)) ∷ one (window 250 (run_or_fresh before)) ∷ [])

    abbrev pub resume :
        (ℤ × ℤ → Except (Option (Puzzle fl.F)))
        → Faults
        → ℕ
        → String
        → StreakState
        → Desk fl
        → Option (PuzzleRow fl)
        → Desk fl × StreakReply
    resume one f now user s d none = next_streak_puzzle one f now user (some s) d
    resume one f now user s d (some row) = (d, write_streak f.store user row.puzzle s d)

    abbrev pub start_from :
        (ℤ × ℤ → Except (Option (Puzzle fl.F)))
        → Faults
        → ℕ
        → String
        → Desk fl
        → Option StreakState
        → Desk fl × StreakReply
    start_from one f now user d none = next_streak_puzzle one f now user none d
    start_from one f now user d (some s) =
        if text_eq s.puzzle_id []
        then next_streak_puzzle one f now user (some s) d
        else if f.by_id
        then (d, refused 500)
        else resume one f now user s d (d.tables.puzzles s.puzzle_id)

    unfoldable pub handle_streak_start :
        (ℤ × ℤ → Except (Option (Puzzle fl.F)))
        → Faults
        → ℕ
        → Except (Option Visitor)
        → Desk fl
        → Desk fl × StreakReply
    handle_streak_start one f now (err e) d = (d, refused 500)
    handle_streak_start one f now (ok none) d = (d, refused 503)
    handle_streak_start one f now (ok (some v)) d =
        if f.get then (d, refused 500) else start_from one f now v.id d (value now (d.streaks v.id))
