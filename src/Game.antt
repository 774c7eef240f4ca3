-- ===== src/Game.antt =====
-- internal/game/game.go: the game record and its operations. A method that mutates `*Game` returns
-- the new record. Colours are the two constants that `handleCreate` lets in; the result strings
-- "", "1-0", "0-1" and "1/2-1/2" are the four values of `Result`. The clock is an argument.
pub mod Valid
pub mod Seats
use blundernet.Base.{
  ℕ, ◌+◌, ◌%◌, ◌≡◌, refl, Text, codes, trim_space, to_lower, String, str_eq, List, [], ◌∷◌, ◌++◌,
  length, Bool, true, false, not, Option, none, some, ◌==◌, if◌then◌else◌,
}
use blundernet.Base.Int.{ℤ}
use blundernet.Errors.{Except, ok, err, not_your_turn, illegal_move, game_finished, broken_replay}
use blundernet.Chess.{
  Color, white, black, color_eq, Outcome, no_outcome, white_won, black_won, draw, Method, checkmate,
  stalemate, threefold_repetition, fivefold_repetition, fifty_move_rule, seventy_five_move_rule,
  insufficient_material, Rules,
}

pub data Status : Type 0 where
  ongoing finished : Status

abbrev pub is_finished : Status → Bool
is_finished ongoing = false
is_finished finished = true

pub data Result : Type 0 where
  undecided white_wins black_wins drawn : Result

pub record Game : Type 0 where
  pub id : String
  pub moves : List Text
  pub ply : ℕ
  pub revision : ℕ  -- uint64
  pub player_color : Color
  pub user_id : String
  pub level : ℤ
  pub rated : Bool
  pub friend : Bool
  pub opponent_id : String
  pub status : Status
  pub result : Result
  pub termination : String
  pub created_at : ℕ
  pub updated_at : ℕ

unfoldable pub new : String → Color → ℤ → Bool → ℕ → Game
new id player_color level rated now = record {
  id = id;
  moves = [];
  ply = 0;
  revision = 0;
  player_color = player_color;
  user_id = "";
  level = level;
  rated = rated;
  friend = false;
  opponent_id = "";
  status = ongoing;
  result = undecided;
  termination = "";
  created_at = now;
  updated_at = now;
}

unfoldable pub engine_color : Game → Color
engine_color g = if color_eq g.player_color white then black else white

-- `none` is the answer ("", false).
unfoldable pub color_for : Game → String → Option Color
unfolding engine_color
color_for g user =
    if g.friend
    then (if str_eq user ""
        then none
        else if str_eq user g.user_id
        then some g.player_color
        else if str_eq user g.opponent_id
        then some (engine_color g)
        else none)
    else if not (str_eq g.user_id "")
    then (if not (str_eq user g.user_id) then none else some g.player_color)
    else some g.player_color

unfoldable pub turn : Game → Color
turn g = if length g.moves % 2 == 0 then white else black

-- strings.ToLower(strings.TrimSpace(uci))
unfoldable pub normalise : Text → Text
normalise uci = to_lower (trim_space uci)

-- outcome.String(), for an outcome that ends a game.
unfoldable pub result_of : Outcome → Result
result_of no_outcome = undecided
result_of white_won = white_wins
result_of black_won = black_wins
result_of draw = drawn

abbrev pub is_decided : Outcome → Bool
is_decided no_outcome = false
is_decided _ = true

unfoldable pub method_string : Method → String
method_string checkmate = "checkmate"
method_string stalemate = "stalemate"
method_string threefold_repetition = "threefold repetition"
method_string fivefold_repetition = "fivefold repetition"
method_string fifty_move_rule = "fifty-move rule"
method_string seventy_five_move_rule = "seventy-five-move rule"
method_string insufficient_material = "insufficient material"
method_string _ = "unknown"

unfoldable pub resign : ℕ → Color → Game → Except Game
resign now color g =
    if is_finished g.status
    then err game_finished
    else ok (record g {
      status = finished;
      termination = "resignation";
      result = if color_eq color white then black_wins else white_wins;
      updated_at = now;
    })

-- The move list of ApplyMove, with the ply and the time that go with it.
unfoldable pub push_move : ℕ → Text → Game → Game
push_move now m g =
    let moves' = g.moves ++ m ∷ [] in
    record g { moves = moves'; ply = length moves'; updated_at = now }

module _ (rules : Rules) where
  open rules use {GameState, start, move_str, outcome, method}

  unfoldable pub replay_from : GameState → List Text → Option GameState
  replay_from cg [] = some cg
  replay_from cg (m ∷ ms) = elim (move_str cg m) [ none ↦ none | some next ↦ replay_from next ms ]

  unfoldable pub replay : Game → Option GameState
  unfolding replay_from
  replay g = replay_from start g.moves

  unfoldable pub fen : Game → Text
  fen g = elim (replay g) [ none ↦ [] | some cg ↦ rules.fen cg ]

  -- The end of ApplyMove: a move that ends the game sets the status, the result and the reason.
  unfoldable pub settle : GameState → Game → Game
  unfolding result_of
  settle cg g =
      if is_decided (outcome cg)
      then record g {
        status = finished;
        result = result_of (outcome cg);
        termination = method_string (method cg);
      }
      else g

  unfoldable pub apply_move : ℕ → Color → Text → Game → Except Game
  unfolding settle
  apply_move now color uci g =
      if is_finished g.status
      then err game_finished
      else if not (color_eq (turn g) color)
      then err not_your_turn
      else elim (replay g) [
        | none ↦ err broken_replay
        | some cg ↦ elim (move_str cg (normalise uci)) [
          | none ↦ err illegal_move
          | some next ↦ ok (settle next (push_move now (normalise uci) g))
        ]
      ]
