-- ===== src/Tests/Desks.antt =====
-- Handlers and tables of puzzles at concrete requests: Ana has an account, and one puzzle is loaded.
use blundernet.Base.{
  ℕ, suc, ◌≡◌, ◌<◌, zero, refl, Text, codes, text_eq, String, length, true, false, [], ◌∷◌, Option,
  none, some, equal_fold, if◌then◌else◌, arith,
}
use blundernet.Base.Int.{pos}
use blundernet.Rating.{update}
use blundernet.Puzzle.{solution, user_moves, column}
use blundernet.Puzzle.Line.{check, find_move, play, position_after}
use blundernet.Store.Sessions.{Entry}
use blundernet.Store.Progress.{InProgress, StreakState, value, replace}
use blundernet.Store.Puzzles.{
  ranked, Attempt, nullable_int, PuzzleRow, Tables, is_recorded, key_taken, record_ranked,
  record_streak,
}
use blundernet.Store.Puzzles.Counted.{tally, Counted, rank, climb, run_calls}
use blundernet.Store.Puzzles.Runs.{run_calls-Counted}
use blundernet.Api.Ranked.{Visitor, Faults, MoveRequest, Desk, RankedReply, handle_ranked_move}
use blundernet.Api.Ranked.Stuck.{ends, is_final, Refuses, handle_ranked_move-handle_ranked_move}
use blundernet.Api.Ranked.Solving.{no_faults, is_solved, client, Solver, Ready, client-user_moves}
use blundernet.Api.Streak.{StreakReply, solved, handle_streak_move}
use blundernet.Api.Streak.Between.{Dropped, solved-handle_streak_move}
use blundernet.Tests.Fixtures.{floats, newcomer, with_ana}
use blundernet.Tests.Puzzles.{board, fork, fork-Playable}

abbrev pub fork_row : PuzzleRow floats
fork_row = record { puzzle = fork; strength = newcomer; plays = 0; solved = 0; ranked_plays = 0 }

abbrev pub tables : Tables floats
tables = record {
  archive = with_ana;
  puzzles = λ id. if text_eq id (codes "p1") then some fork_row else none;
  attempts = [];
}

-- The digest of an attempt is its start.
abbrev digest : String → Text → ℕ → ℕ
digest user id started = started

abbrev pub visitor : Visitor
visitor = record { id = "ana"; is_guest = false }

abbrev pub desk_with : Option (Entry InProgress) → Option (Entry StreakState) → Desk floats
desk_with puzzle run = record {
  tables = tables;
  ranked = λ user. puzzle;
  streaks = λ user. run;
  seen = λ user. [];
}

abbrev at_step : ℕ → InProgress
at_step n = record { puzzle_id = codes "p1"; step = n; started = 5 }

abbrev ranked_desk : ℕ → Desk floats
ranked_desk n = desk_with (some (record { value = at_step n; expires = 9000 })) none

abbrev ana_attempt : Attempt
ana_attempt = record {
  user = "ana";
  puzzle = codes "p1";
  solved = true;
  ms = none;
  mode = ranked;
  hints = pos 0;
  attempt_id = none;
  attempted_at = 7;
}

tables-Counted : Counted floats tables
unfolding tally
tables-Counted = record {
  puzzles = λ id row h. ground arith;
  users = λ u row h. ground arith;
  once = λ k. omega arith;
}

run_calls-Counted_example : Counted floats (
    run_calls floats
      (rank false 3 5 ana_attempt ∷ rank false 3 5 ana_attempt ∷ climb false 8 ana_attempt ∷ [])
      tables)
run_calls-Counted_example =
    run_calls-Counted floats
      (rank false 3 5 ana_attempt ∷ rank false 3 5 ana_attempt ∷ climb false 8 ana_attempt ∷ [])
      tables tables-Counted

abbrev script_fails : Faults
script_fails = record no_faults { replace = true }

abbrev wrong_move : MoveRequest
wrong_move = record { uci = codes "a"; ms = pos 40 }

last_ends : ends (check board fork (pos 0) (codes "a")) ≡ true
unfolding check find_move solution position_after play equal_fold
last_ends = refl

abbrev ranked_answer : Desk floats × RankedReply floats
ranked_answer =
    handle_ranked_move floats digest board script_fails 3 7 (some visitor) (some wrong_move)
      (ranked_desk 0)

recorded_final : is_final floats ranked_answer.1 ≡ true
unfolding handle_ranked_move check find_move solution position_after play equal_fold record_ranked
    is_recorded key_taken update nullable_int
recorded_final = refl

handle_ranked_move-handle_ranked_move_example : Refuses floats ranked_answer.0 (
    handle_ranked_move floats digest board no_faults 3 9
      (some visitor)
      (some wrong_move)
      ranked_answer.0)
handle_ranked_move-handle_ranked_move_example =
    handle_ranked_move-handle_ranked_move floats digest board script_fails no_faults 3 3 7 9 visitor
      wrong_move wrong_move (at_step 0) fork_row (ranked_desk 0) ranked_answer.0 ranked_answer.1
      refl recorded_final refl refl refl refl last_ends

solver : Solver floats digest board 3 visitor fork_row (λ i. i) (pos 40) (codes "p1") 5
unfolding solution
solver = record { line = fork-Playable; known = refl; named = named; pace = λ i. omega arith }
  where
    named : (i : ℕ) → i < 3 → text_eq (column i (codes "b" ∷ codes "a" ∷ codes "b" ∷ [])) [] ≡ false
    named zero h = refl
    named (suc zero) h = refl
    named (suc (suc zero)) h = refl
    named (suc (suc (suc i))) h = absurd (omega arith)

ready :
    Ready floats digest board 3 visitor fork_row (λ i. i) (pos 40) (codes "p1") 5 0 (ranked_desk 0)
unfolding record_ranked is_recorded key_taken update nullable_int
ready = record { held = refl; found = refl; stored = λ now. refl }

fork_plies_desk : fork.solution_plies ≡ length (solution fork)
unfolding solution
fork_plies_desk = refl

client-user_moves_example :
    is_solved floats digest board (
      client floats digest board 3 visitor fork_row
        (λ i. i)
        (pos 40)
        (user_moves fork)
        0
        (ranked_desk 0))
    ≡ true
client-user_moves_example =
    client-user_moves floats digest board 3 visitor fork_row (λ i. i) (pos 40) (codes "p1") 5 solver
      (ranked_desk 0) fork_plies_desk refl ready

-- A run of three, at the last move of its fourth puzzle.
abbrev run_desk : Desk floats
run_desk = desk_with none (
    some (record {
      value = record { puzzle_id = codes "p1"; step = 2; count = 3; started = 5 };
      expires = 90000;
    }))

abbrev last_move : MoveRequest
last_move = record { uci = codes "b"; ms = pos 40 }

abbrev run_answer : Desk floats × StreakReply
run_answer =
    handle_streak_move floats digest board no_faults 7 (some visitor) (some last_move) run_desk

run_solved : run_answer ≡ (run_answer.0, solved 4)
unfolding handle_streak_move check find_move solution position_after play equal_fold record_streak
    is_recorded key_taken nullable_int replace
run_solved = refl

run_unnamed : run_answer.0.tables.puzzles [] ≡ none
unfolding handle_streak_move check find_move solution position_after play equal_fold record_streak
    is_recorded key_taken nullable_int replace
run_unnamed = refl

solved-handle_streak_move_example :
    (s : StreakState) × (value 8 (run_answer.0.streaks "ana") ≡ some s)
    × (s.count ≡ 4)
    × (run_answer.0.tables.archive ≡ run_desk.tables.archive)
    × Dropped floats digest board 8 "ana" run_answer.0 (
        handle_streak_move floats digest board no_faults 8
          (some visitor)
          (some last_move)
          run_answer.0)
solved-handle_streak_move_example =
    solved-handle_streak_move floats digest board no_faults no_faults 7 8 visitor last_move
      last_move run_desk run_answer.0 4 run_solved (omega arith) run_unnamed refl refl refl refl
