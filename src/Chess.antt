-- ===== src/Chess.antt =====
-- What the program uses of the chess library github.com/notnil/chess, which is not part of the
-- repository: a parameter of the model.
use blundernet.Base.{Text, Bool, true, false, Option}

pub data Color : Type 0 where
  white black : Color

abbrev pub other : Color → Color
other white = black
other black = white

abbrev pub color_eq : Color → Color → Bool
color_eq white white = true
color_eq black black = true
color_eq _ _ = false

-- chess.Outcome and chess.Method.
pub data Outcome : Type 0 where
  no_outcome white_won black_won draw : Outcome

pub data Method : Type 0 where
  no_method checkmate resignation draw_offer stalemate : Method
  threefold_repetition fivefold_repetition fifty_move_rule seventy_five_move_rule : Method
  insufficient_material : Method

-- Status() == chess.Checkmate
abbrev pub is_mate : Method → Bool
is_mate checkmate = true
is_mate _ = false

-- A *chess.Game: a position with its history, and what MoveStr, Outcome, Method and
-- Position().String() answer on it. MoveStr answers `none` for an error.
pub record Rules : Type 1 where
  pub GameState : Type 0
  pub start : GameState
  pub move_str : GameState → Text → Option GameState
  pub outcome : GameState → Outcome
  pub method : GameState → Method
  pub fen : GameState → Text
