-- ===== src/Api/Ranked.antt =====
-- internal/httpapi/ranked.go: the handler that grades a move of a ranked puzzle. A reply has no
-- explanation, and puzzles and accounts are configured. Where the code only logs an error, the
-- handler goes on.
pub mod Stuck
pub mod Next
pub mod Solving
use blundernet.Base.{
  ℕ, ◌+◌, Text, text_eq, String, str_eq, Bool, true, false, not, ◌&&◌, List, [], ◌∷◌, Option, none,
  some, if◌then◌else◌,
}
use blundernet.Base.Int.{ℤ, pos}
use blundernet.Errors.{Error, not_found, conflict, backend, Except, ok, err}
use blundernet.Float.{Float64}
use blundernet.Puzzle.{Puzzle, column, solution}
use blundernet.Puzzle.Line.{Positions, Graded, check}
use blundernet.Store.Sessions.{Entry}
use blundernet.Store.Progress.{InProgress, StreakState, ranked_ttl, same_progress, value, replace}
use blundernet.Store.Puzzles.{
  Attempt, ranked, nullable_int, PuzzleRow, Tables, Outcome, record_ranked,
}

pub record Visitor : Type 0 where
  pub id : String
  pub is_guest : Bool

-- Which calls of one request fail: the reads of the state and of the puzzle, the script, the
-- transaction and the set of seen puzzles.
pub record Faults : Type 0 where
  pub get : Bool
  pub by_id : Bool
  pub replace : Bool
  pub store : Bool
  pub seen : Bool

-- What a request for a move carries: no body is one that does not decode.
pub record MoveRequest : Type 0 where
  pub uci : Text
  pub ms : ℤ

-- What the puzzle handlers work on: the tables in Postgres and the keys in Redis.
pub record Desk (fl : Float64) : Type 0 where
  pub tables : Tables fl
  pub ranked : String → Option (Entry InProgress)
  pub streaks : String → Option (Entry StreakState)
  pub seen : String → List Text

pub data RankedReply (fl : Float64) : Type 0 where
  refused : ℕ → RankedReply fl
  replied : Text → RankedReply fl
  finished : Bool → List Text → Outcome fl → RankedReply fl

-- gameError on the errors of the store.
abbrev pub status_of : Error → ℕ
status_of not_found = 404
status_of conflict = 409
status_of _ = 500

-- An attempt that was recorded already answers 409, and any other failure 500.
abbrev pub record_status : Error → ℕ
record_status conflict = 409
record_status _ = 500

module _ (fl : Float64) where
  abbrev pub set_ranked : String → Option (Entry InProgress) → Desk fl → Desk fl
  set_ranked user e d = record d { ranked = λ j. if str_eq user j then e else d.ranked j }

  -- Ranked.Replace
  abbrev pub replace_ranked :
      Bool
      → ℕ
      → String
      → Option InProgress
      → Option InProgress
      → Desk fl
      → Desk fl × Except (Unit {0})
  replace_ranked lost now user before after d =
      let (key, r) = replace same_progress ranked_ttl lost now before after (d.ranked user) in
      (set_ranked user key d, r)

  -- Seen.Add
  abbrev pub add_seen : Bool → String → Text → Desk fl → Desk fl
  add_seen lost user id d =
      if lost then d else record d { seen = λ j. if str_eq user j then id ∷ d.seen j else d.seen j }

  abbrev pub after_step : Text → Desk fl × Except (Unit {0}) → Desk fl × RankedReply fl
  after_step reply (d, ok u) = (d, replied reply)
  after_step reply (d, err e) = (d, refused (status_of e))

  module _ (attempt_id : String → Text → ℕ → ℕ) where
    -- A move that ends the attempt: it is recorded, the key is cleared and the puzzle is marked.
    abbrev pub after_record :
        Faults
        → ℕ
        → String
        → InProgress
        → Puzzle fl.F
        → Bool
        → Desk fl
        → Tables fl × Except (Outcome fl)
        → Desk fl × RankedReply fl
    after_record f now user s p correct d (t, err e) =
        (record d { tables = t }, refused (record_status e))
    after_record f now user s p correct d (t, ok out) = (
      add_seen f.seen user p.id
          (replace_ranked f.replace now user (some s) none (record d { tables = t })).0,
      finished correct (solution p) out,
    )

    abbrev pub attempt_of : ℕ → String → Puzzle fl.F → Bool → ℤ → Attempt
    attempt_of now user p solved ms = record {
      user = user;
      puzzle = p.id;
      solved = solved;
      ms = nullable_int ms;
      mode = ranked;
      hints = pos 0;
      attempt_id = none;
      attempted_at = now;
    }

    abbrev pub grade_ranked :
        Faults
        → ℕ
        → ℕ
        → String
        → InProgress
        → Puzzle fl.F
        → ℤ
        → Desk fl
        → Graded
        → Desk fl × RankedReply fl
    grade_ranked f fuel now user s p ms d g =
        if g.correct && not g.is_over
        then after_step (column (s.step + 1) (solution p))
            (replace_ranked f.replace now user (some s) (some (record s { step = s.step + 2 })) d)
        else after_record f now user s p g.correct d (
            record_ranked fl f.store fuel (attempt_id user p.id s.started)
              (attempt_of now user p g.correct ms) d.tables)

    module _ (chess : Positions) where
      abbrev pub on_puzzle :
          Faults
          → ℕ
          → ℕ
          → String
          → InProgress
          → MoveRequest
          → Desk fl
          → Option (PuzzleRow fl)
          → Desk fl × RankedReply fl
      on_puzzle f fuel now user s req d none =
          ((replace_ranked f.replace now user (some s) none d).0, refused 409)
      on_puzzle f fuel now user s req d (some row) =
          grade_ranked f fuel now user s row.puzzle req.ms d
            (check chess row.puzzle (pos s.step) req.uci)

      abbrev pub on_state :
          Faults
          → ℕ
          → ℕ
          → String
          → MoveRequest
          → Desk fl
          → Option InProgress
          → Desk fl × RankedReply fl
      on_state f fuel now user req d none = (d, refused 409)
      on_state f fuel now user req d (some s) =
          if f.by_id
          then (d, refused 500)
          else on_puzzle f fuel now user s req d (d.tables.puzzles s.puzzle_id)

      abbrev pub ranked_move :
          Faults → ℕ → ℕ → String → Option MoveRequest → Desk fl → Desk fl × RankedReply fl
      ranked_move f fuel now user none d = (d, refused 400)
      ranked_move f fuel now user (some req) d =
          if text_eq req.uci []
          then (d, refused 400)
          else if f.get
          then (d, refused 500)
          else on_state f fuel now user req d (value now (d.ranked user))

      -- rankedUser comes first: a guest, or nobody, is refused.
      unfoldable pub handle_ranked_move :
          Faults → ℕ → ℕ → Option Visitor → Option MoveRequest → Desk fl → Desk fl × RankedReply fl
      handle_ranked_move f fuel now none req d = (d, refused 401)
      handle_ranked_move f fuel now (some v) req d =
          if v.is_guest then (d, refused 401) else ranked_move f fuel now v.id req d
