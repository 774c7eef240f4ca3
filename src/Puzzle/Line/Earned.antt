-- ===== src/Puzzle/Line/Earned.antt =====
-- What a move that Check of internal/puzzle/explain.go grades correct has done. The line and the
-- legality of a move are described by the library's legal moves and their texts.
use blundernet.Base.{
  ℕ, suc, ◌+◌, ◌<◌, ◌≡◌, ◌⊎◌, Text, equal_fold, true, false, List, [], ◌∷◌, length, take, get_elem?,
  some,
}
use mathlib.Core.List.{Memᴰ}
use blundernet.Puzzle.{Puzzle}
use blundernet.Puzzle.Line.{Positions, Graded}

module _ (chess : Positions) where
  open chess use {Position, Move, parse_fen, valid_moves, encode, update, is_mate}

  -- A legal move with the text, but for case.
  pub record Legal (at : Position) (uci : Text) (m : Move) : Type 0 where
    pub valid : Memᴰ m (valid_moves at)
    pub written : equal_fold (encode at m) uci ≡ true

  -- The moves are legal one after the other and lead from one position to the other.
  pub data Leads : Position → List Text → Position → Type 0 where
    stay : (at : Position) → Leads at [] at
    step :
        (at end : Position) (u : Text) (us : List Text) (m : Move)
        → Legal at u m
        → Leads (update at m) us end
        → Leads at (u ∷ us) end

  module _ {F : Type 0} where
    -- The puzzle's position and the move before each of the solver's replies.
    pub record Reached (p : Puzzle F) (i : ℕ) (at : Position) : Type 0 where
      pub start : Position
      pub fen : parse_fen p.fen ≡ some start
      pub line : Leads start (take (suc i) p.moves) at

    -- Why a move is correct.
    pub record Earned (p : Puzzle F) (i : ℕ) (uci : Text) (g : Graded) : Type 0 where
      pub at : Position
      pub reached : Reached p i at
      pub move : Move
      pub legal : Legal at uci move
      pub stored : Text
      pub next : get_elem? p.moves (suc i) ≡ some stored
      pub wins : (equal_fold uci stored ≡ true) ⊎ (is_mate (update at move) ≡ true)
      pub goes_on :
          g.is_over ≡ false → (i + 2 < length p.moves) × (is_mate (update at move) ≡ false)
      pub ends : g.is_over ≡ true → (i + 2 ≡ length p.moves) ⊎ (is_mate (update at move) ≡ true)
