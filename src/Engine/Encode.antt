-- ===== src/Engine/Encode.antt =====
-- internal/engine/encode.go: the tensor of a position, and the policy's index of a move. Every
-- number of the tensor is 0 or 1: a tensor tells which of its 18 * 64 cells are 1.
pub mod Cells
pub mod Tensor
pub mod Folding
use blundernet.Base.{
  ℕ, zero, suc, ◌+◌, ◌*◌, ◌/◌, ◌%◌, Text, codes, ◌++◌, Bool, true, false, ◌&&◌, ◌||◌, Option, none,
  some, ◌==◌, if◌then◌else◌,
}
use blundernet.Chess.{Color, white, black, color_eq}
use blundernet.Review.{Boards, PieceType, pawn, knight, bishop, rook, queen, king}

pub data Wing : Type 0 where
  king_side queen_side : Wing

-- More of the chess library: Square.String, Move.Promo, CastleRights and EnPassantSquare.
pub record Squares (boards : Boards) : Type 0 where
  pub square_name : ℕ → Text
  pub promotion : boards.ChessMove → Option PieceType
  pub can_castle : boards.Position → Color → Wing → Bool
  pub en_passant : boards.Position → Option ℕ

abbrev pub Tensor : Type 0
Tensor = ℕ → Bool

-- planeOf, with the six planes of black after those of white.
abbrev pub plane_of : PieceType → ℕ
plane_of pawn = 0
plane_of knight = 1
plane_of bishop = 2
plane_of rook = 3
plane_of queen = 4
plane_of king = 5

abbrev pub plane : PieceType × Color → ℕ
plane (t, white) = plane_of t
plane (t, black) = plane_of t + 6

abbrev pub set : ℕ → Tensor → Tensor
set i x = λ j. if i == j then true else x j

-- The loop of fill from its i-th cell on, with the plane's first cell.
unfoldable pub fill_from : ℕ → ℕ → ℕ → Tensor → Tensor
fill_from zero i first x = x
fill_from (suc n) i first x = fill_from n (suc i) first (set (first + i) x)

abbrev pub fill : ℕ → Tensor → Tensor
fill plane x = fill_from 64 0 (plane * 64) x

abbrev pub fill_if : Bool → ℕ → Tensor → Tensor
fill_if on plane x = if on then fill plane x else x

-- The loop over the ranks of the en passant file.
unfoldable pub file_from : ℕ → ℕ → ℕ → Tensor → Tensor
file_from zero rank file x = x
file_from (suc n) rank file x = file_from n (suc rank) file (set (17 * 64 + rank * 8 + file) x)

abbrev pub mark_file : Option ℕ → Tensor → Tensor
mark_file none x = x
mark_file (some sq) x = file_from 8 0 (sq % 8) x

-- MoveIndex on the two squares of a move.
abbrev pub index_of : ℕ → ℕ → ℕ
index_of from to = from * 64 + to

-- A pawn on its way to the first or the last rank.
abbrev pub promotes : Option (PieceType × Color) → ℕ → Bool
promotes (some (pawn, c)) to = (to / 8 == 0) || (to / 8 == 7)
promotes _ to = false

abbrev pub queen_suffix : Bool → Text
queen_suffix true = codes "q"
queen_suffix false = codes ""

module _ (boards : Boards) (squares : Squares boards) where
  open boards use {Position, ChessMove, source, target, turn, piece}

  -- The loop over the board from square `sq` on.
  unfoldable pub pieces_from : ℕ → ℕ → Position → Tensor → Tensor
  pieces_from zero sq p x = x
  pieces_from (suc n) sq p x =
      pieces_from n (suc sq) p
        (elim (piece p sq) [ none ↦ x | some man ↦ set (plane man * 64 + sq) x ])

  abbrev pub rights : Position → Tensor → Tensor
  rights p x = fill_if (squares.can_castle p black queen_side) 16 (
      fill_if (squares.can_castle p black king_side) 15 (
        fill_if (squares.can_castle p white queen_side) 14
          (fill_if (squares.can_castle p white king_side) 13 x)))

  unfoldable pub encode : Position → Tensor
  encode p =
      mark_file (squares.en_passant p)
        (rights p (fill_if (color_eq (turn p) white) 12 (pieces_from 64 0 p (λ j. false))))

  unfoldable pub move_index : ChessMove → ℕ
  move_index m = index_of (source m) (target m)

  unfoldable pub index_uci : ℕ → Position → Text
  index_uci i p =
      squares.square_name (i / 64)
      ++ (squares.square_name (i % 64) ++ queen_suffix (promotes (piece p (i / 64)) (i % 64)))
