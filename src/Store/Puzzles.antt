-- ===== src/Store/Puzzles.antt =====
-- internal/store/puzzleattempts.go, puzzleranked.go and puzzlestreak.go: the tables of puzzles and
-- attempts, and the calls that record one, with migrations/0006, 0007, 0012 and
-- 0022_puzzle_attempt_identity.sql. A transaction is one step; one that fails changes nothing.
-- attempt_id is the digest of attemptID, a parameter; a NULL one is `none`.
pub mod Counted
pub mod Runs
pub mod Again
use blundernet.Base.{
  ℕ, suc, ◌+◌, Text, text_eq, String, str_eq, Bool, true, false, not, ◌&&◌, ◌||◌, List, [], ◌∷◌,
  Option, none, some, ltb, ◌==◌, if◌then◌else◌,
}
use blundernet.Base.Int.{ℤ, pos, negsuc}
use blundernet.Errors.{Except, ok, err, not_found, conflict, backend}
use blundernet.Float.{Float64, of_ℕ}
use blundernet.Rating.{Player, GameResult, update}
use blundernet.Puzzle.{Puzzle}
use blundernet.Store.Ratings.{UserRow, Archive, put_user}

pub data Mode : Type 0 where
  learning ranked streak : Mode

abbrev pub is_ranked : Mode → Bool
is_ranked learning = false
is_ranked ranked = true
is_ranked streak = false

abbrev pub is_streak : Mode → Bool
is_streak learning = false
is_streak ranked = false
is_streak streak = true

-- A row of puzzle_attempts.
pub record Attempt : Type 0 where
  pub user : String
  pub puzzle : Text
  pub solved : Bool
  pub ms : Option ℕ
  pub mode : Mode
  pub hints : ℤ
  pub attempt_id : Option ℕ
  pub attempted_at : ℕ

-- nullableInt
unfoldable pub nullable_int : ℤ → Option ℕ
nullable_int (negsuc n) = none
nullable_int (pos n) = if ltb 0 n then some n else none

-- The unique attempt_id of the rows, and their primary key.
abbrev pub is_id : ℕ → Option ℕ → Bool
is_id k none = false
is_id k (some j) = j == k

unfoldable pub is_recorded : ℕ → List Attempt → Bool
is_recorded k [] = false
is_recorded k (a ∷ rows) = is_id k a.attempt_id || is_recorded k rows

unfoldable pub key_taken : Attempt → List Attempt → Bool
key_taken new [] = false
key_taken new (a ∷ rows) =
    (str_eq a.user new.user && text_eq a.puzzle new.puzzle && (a.attempted_at == new.attempted_at))
    || key_taken new rows

abbrev pub one_if : Bool → ℕ
one_if true = 1
one_if false = 0

-- The rows that Record, RecordStreakAttempt and RecordRanked insert.
abbrev pub learning_row : Attempt → Attempt
learning_row a = record a { attempt_id = none }

abbrev pub streak_row : ℕ → Attempt → Attempt
streak_row k a = record a { mode = streak; hints = pos 0; attempt_id = some k }

abbrev pub ranked_row : ℕ → Attempt → Attempt
ranked_row k a = record a { mode = ranked; hints = pos 0; attempt_id = some k }

module _ (fl : Float64) where
  open fl use {F, ratio, add, sub, mul, lt}

  pub record PuzzleRow : Type 0 where
    pub puzzle : Puzzle F
    pub strength : Player F
    pub plays : ℕ
    pub solved : ℕ
    pub ranked_plays : ℕ

  pub record Tables : Type 0 where
    pub archive : Archive fl
    pub puzzles : Text → Option PuzzleRow
    pub attempts : List Attempt

  abbrev pub put_puzzle : Text → PuzzleRow → Tables → Tables
  put_puzzle id row t = record t { puzzles = λ j. if text_eq id j then some row else t.puzzles j }

  abbrev pub user_row : String → Tables → Option (UserRow fl)
  user_row id t = t.archive.users id

  abbrev pub set_user : String → UserRow fl → Tables → Tables
  set_user id row t = record t { archive = put_user fl id row t.archive }

  -- The row of the attempt, when its references hold and its primary key is free.
  abbrev pub insert : Attempt → Tables → Option Tables
  insert a t = elim (user_row a.user t) [
    | none ↦ none
    | some u ↦ elim (t.puzzles a.puzzle) [
      | none ↦ none
      | some p ↦
          if key_taken a t.attempts then none else some (record t { attempts = a ∷ t.attempts })
    ]
  ]

  -- The counters of a puzzle that an attempt moves.
  abbrev pub played_row : Attempt → PuzzleRow → PuzzleRow
  played_row a row = record row {
    plays = row.plays + 1;
    solved = row.solved + one_if a.solved;
    ranked_plays = row.ranked_plays + one_if (is_ranked a.mode);
  }

  abbrev pub count_play : Attempt → Tables → Tables
  count_play a t = elim (t.puzzles a.puzzle) [
    | none ↦ t
    | some row ↦ put_puzzle a.puzzle (played_row a row) t
  ]

  abbrev pub counted : Attempt → Tables → Option Tables → Tables × Except (Unit {0})
  counted a t none = (t, err backend)
  counted a t (some t') = (count_play a t', ok tt)

  -- Record. A mode that is neither learning nor ranked is refused.
  unfoldable pub record_attempt : Bool → Attempt → Tables → Tables × Except (Unit {0})
  record_attempt lost a t =
      if is_streak a.mode
      then (t, err backend)
      else if lost
      then (t, err backend)
      else counted (learning_row a) t (insert (learning_row a) t)

  -- RecordStreakAttempt
  unfoldable pub record_streak : Bool → ℕ → Attempt → Tables → Tables × Except (Unit {0})
  record_streak lost k a t =
      if lost
      then (t, err backend)
      else if is_recorded k t.attempts
      then (t, err conflict)
      else counted (streak_row k a) t (insert (streak_row k a) t)

  -- SaveBestStreak: GREATEST(best_streak, run).
  abbrev pub greatest : ℕ → ℕ → ℕ
  greatest a b = if ltb a b then b else a

  unfoldable pub save_best_streak : Bool → String → ℕ → Tables → Tables × Except ℕ
  save_best_streak lost user run t = if lost then (t, err backend) else elim (user_row user t) [
    | none ↦ (t, err not_found)
    | some u ↦ (
      set_user user (record u { best_streak = greatest u.best_streak run }) t,
      ok (greatest u.best_streak run),
    )
  ]

  unfoldable pub best_streak : Bool → String → Tables → Except ℕ
  best_streak lost user t =
      if lost
      then err backend
      else elim (user_row user t) [ none ↦ err not_found | some u ↦ ok u.best_streak ]

  -- missPenalty
  abbrev pub rating_floor : F
  rating_floor = of_ℕ fl 400

  abbrev pub raised : F → F
  raised current =
      if lt (of_ℕ fl 1200) current
      then add (of_ℕ fl 1) (mul (sub current (of_ℕ fl 1200)) (ratio 1 800))
      else of_ℕ fl 1

  abbrev pub multiplier : F → F
  multiplier current = if lt (ratio 25 10) (raised current) then ratio 25 10 else raised current

  abbrev pub at_floor : F → F → F
  at_floor current charged =
      if lt (sub current charged) rating_floor then sub current rating_floor else charged

  abbrev pub not_negative : F → F
  not_negative charged = if lt charged (of_ℕ fl 0) then of_ℕ fl 0 else charged

  unfoldable pub miss_penalty : F → F → F
  miss_penalty current drop = not_negative (at_floor current (mul drop (multiplier current)))

  pub record Outcome : Type 0 where
    pub rating : F
    pub change : F
    pub deviation : F
    pub puzzle_rating : F
    pub puzzles_solved : ℕ

  abbrev pub score_of : Bool → F
  score_of true = of_ℕ fl 1
  score_of false = of_ℕ fl 0

  abbrev pub against : Player F → F → List (GameResult F)
  against p score =
      record { opponent_rating = p.rating; opponent_deviation = p.deviation; score = score } ∷ []

  -- A miss is charged by missPenalty in place of what the rating system charges.
  abbrev pub charge : Bool → Player F → Player F → Player F
  charge true old new = new
  charge false old new = record new {
    rating = sub old.rating (miss_penalty old.rating (sub old.rating new.rating));
  }

  abbrev pub rated_user : Bool → Player F → UserRow fl → UserRow fl
  rated_user solved new row = record row {
    puzzle = new;
    puzzles_solved = row.puzzles_solved + one_if solved;
  }

  abbrev pub outcome : Player F → Player F → UserRow fl → Bool → Outcome
  outcome new puzzle old solved = record {
    rating = new.rating;
    change = sub new.rating old.puzzle.rating;
    deviation = new.deviation;
    puzzle_rating = puzzle.rating;
    puzzles_solved = old.puzzles_solved + one_if solved;
  }

  -- The three writes of RecordRanked.
  abbrev pub write_ranked :
      ℕ → Attempt → Tables → UserRow fl → PuzzleRow → Player F → Player F → Tables × Except Outcome
  write_ranked k a t u p new_user new_puzzle =
      if is_recorded k t.attempts then (t, err conflict) else elim (insert a t) [
        | none ↦ (t, err backend)
        | some t' ↦ (
          put_puzzle a.puzzle (played_row a (record p { strength = new_puzzle }))
              (set_user a.user (rated_user a.solved new_user u) t'),
          ok (outcome new_user new_puzzle u a.solved),
        )
      ]

  -- Both updates read the ratings as they were.
  abbrev pub rate_ranked :
      ℕ → ℕ → Attempt → Tables → UserRow fl → PuzzleRow → Tables × Except Outcome
  rate_ranked fuel k a t u p =
      elim (update fl fuel u.puzzle (against p.strength (score_of a.solved))) [
        | none ↦ (t, err backend)
        | some new ↦
            elim (update fl fuel p.strength
              (against u.puzzle (sub (of_ℕ fl 1) (score_of a.solved)))) [
                | none ↦ (t, err backend)
                | some new_puzzle ↦ write_ranked k a t u p (charge a.solved u.puzzle new) new_puzzle
              ]
      ]

  unfoldable pub record_ranked : Bool → ℕ → ℕ → Attempt → Tables → Tables × Except Outcome
  record_ranked lost fuel k a t = if lost then (t, err backend) else elim (user_row a.user t) [
    | none ↦ (t, err not_found)
    | some u ↦ elim (t.puzzles a.puzzle) [
      | none ↦ (t, err not_found)
      | some p ↦ rate_ranked fuel k (ranked_row k a) t u p
    ]
  ]

  -- PuzzleRating
  unfoldable pub puzzle_rating : Bool → String → Tables → Except (Player F × ℕ)
  puzzle_rating lost user t = if lost then err backend else elim (user_row user t) [
    | none ↦ err not_found
    | some u ↦ ok (u.puzzle, u.puzzles_solved)
  ]
