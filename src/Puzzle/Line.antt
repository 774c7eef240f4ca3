-- ===== src/Puzzle/Line.antt =====
-- internal/puzzle/explain.go: playing a puzzle's line and grading a move. The chess library's
-- positions are a parameter.
pub mod Play
pub mod Earned
use blundernet.Base.{
  ℕ, suc, ◌+◌, ◌-◌, Text, equal_fold, Bool, true, false, not, ◌&&◌, ◌||◌, List, [], ◌∷◌, length,
  take, Option, none, some, leb, ◌==◌, if◌then◌else◌,
}
use blundernet.Base.Int.{ℤ, pos, negsuc}
use blundernet.Puzzle.{Puzzle, column, solution}

-- *chess.Position: chess.FEN, ValidMoves, the UCI notation's Encode, Update, whether Status is
-- Checkmate, and String.
pub record Positions : Type 1 where
  pub Position : Type 0
  pub Move : Type 0
  pub parse_fen : Text → Option Position
  pub valid_moves : Position → List Move
  pub encode : Position → Move → Text
  pub update : Position → Move → Position
  pub is_mate : Position → Bool
  pub show : Position → Text

-- The two results of Check.
pub record Graded : Type 0 where
  pub correct : Bool
  pub is_over : Bool

abbrev pub wrong : Graded
wrong = record { correct = false; is_over = false }

module _ (chess : Positions) where
  open chess use {Position, Move, parse_fen, valid_moves, encode, update, is_mate, show}

  unfoldable pub first_match : Position → Text → List Move → Option Move
  first_match p uci [] = none
  first_match p uci (m ∷ ms) =
      let rest = first_match p uci ms in if equal_fold (encode p m) uci then some m else rest

  unfoldable pub find_move : Position → Text → Option Move
  unfolding first_match
  find_move p uci = first_match p uci (valid_moves p)

  -- The loop over a list of moves that ends at the first one that is not legal.
  unfoldable pub play : Position → List Text → Option Position
  play p [] = some p
  play p (u ∷ us) = elim (find_move p u) [ none ↦ none | some m ↦ play (update p m) us ]

  abbrev pub play_from : Option Position → List Text → Option Position
  play_from none us = none
  play_from (some p) us = play p us

  module _ {F : Type 0} where
    unfoldable pub position_after : Puzzle F → ℤ → Option Position
    position_after p (negsuc n) = none
    position_after p (pos step) =
        if leb (length p.moves) step
        then none
        else play_from (parse_fen p.fen) (take (suc step) p.moves)

    abbrev pub judge : Text → Puzzle F → ℕ → Position → Graded
    judge uci p step next =
        if not (equal_fold uci (column step (solution p))) && not (is_mate next)
        then wrong
        else record { correct = true; is_over = (step == length (solution p) - 1) || is_mate next }

    abbrev pub judge_move : Text → Puzzle F → ℕ → Position → Option Move → Graded
    judge_move uci p step at none = wrong
    judge_move uci p step at (some m) = judge uci p step (update at m)

    abbrev pub judge_at : Text → Puzzle F → ℕ → Option Position → Graded
    judge_at uci p step none = wrong
    judge_at uci p step (some at) = judge_move uci p step at (find_move at uci)

    unfoldable pub check : Puzzle F → ℤ → Text → Graded
    check p (negsuc n) uci = wrong
    check p (pos step) uci =
        if leb (length (solution p)) step
        then wrong
        else judge_at uci p step (position_after p (pos step))

    unfoldable pub fen_after : Puzzle F → ℤ → Option Text
    fen_after p step = elim (position_after p step) [ none ↦ none | some at ↦ some (show at) ]
