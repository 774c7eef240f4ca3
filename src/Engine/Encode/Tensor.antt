-- ===== src/Engine/Encode/Tensor.antt =====
-- What the tensor of internal/engine/encode.go tells of a position.
use blundernet.Base.{ℕ, ◌+◌, ◌*◌, ◌<◌, ◌≡◌, sym, ap, ◌∙◌, arith}
use blundernet.Chess.{Color, white, black, color_eq}
use blundernet.Review.{Boards}
use blundernet.Engine.Encode.{Squares, Wing, king_side, queen_side, encode}
use blundernet.Engine.Encode.Cells.{
  file_is, stands_on, same_man, beyond, others, right_plane, same_color, encode_cell, encode_file,
}

module _ (boards : Boards) (squares : Squares boards) where
  open boards use {Position, turn, piece}

  encode_man :
      (p : Position) (k s : ℕ)
      → k < 12
      → s < 64
      → encode boards squares p (k * 64 + s) ≡ stands_on k (piece p s)
  encode_man p k s h l =
      encode_cell boards squares p k s (omega (arith, h)) l
      ∙ others (stands_on k (piece p s)) (color_eq (turn p) white)
          (squares.can_castle p white king_side) (squares.can_castle p white queen_side)
          (squares.can_castle p black king_side) (squares.can_castle p black queen_side) k h

  -- What the network is told of a position.
  pub record SameInput (p q : Position) : Type 0 where
    pub men : (s : ℕ) → s < 64 → piece p s ≡ piece q s
    pub mover : turn p ≡ turn q
    pub castling : (c : Color) (w : Wing) → squares.can_castle p c w ≡ squares.can_castle q c w
    pub file : (f : ℕ) → f < 8 → file_is f (squares.en_passant p) ≡ file_is f (squares.en_passant q)

  -- Plane k, at its first cell.
  encode_right :
      (p : Position) (c : Color) (w : Wing)
      → encode boards squares p (right_plane c w * 64 + 0) ≡ squares.can_castle p c w
  encode_right p white king_side =
      encode_cell boards squares p 13 0 (omega arith) (omega arith)
      ∙ ground (arith, beyond 13 (piece p 0) (omega arith))
  encode_right p white queen_side =
      encode_cell boards squares p 14 0 (omega arith) (omega arith)
      ∙ ground (arith, beyond 14 (piece p 0) (omega arith))
  encode_right p black king_side =
      encode_cell boards squares p 15 0 (omega arith) (omega arith)
      ∙ ground (arith, beyond 15 (piece p 0) (omega arith))
  encode_right p black queen_side =
      encode_cell boards squares p 16 0 (omega arith) (omega arith)
      ∙ ground (arith, beyond 16 (piece p 0) (omega arith))

  encode_turn : (p : Position) → encode boards squares p (12 * 64 + 0) ≡ color_eq (turn p) white
  encode_turn p =
      encode_cell boards squares p 12 0 (omega arith) (omega arith)
      ∙ ground (arith, beyond 12 (piece p 0) (omega arith))

  -- Two positions with the same tensor have the same men on all 64 squares, the same side to
  -- move, the same castling rights and the same en passant file.
  pub encode-SameInput :
      (p q : Position) → encode boards squares p ≡ encode boards squares q → SameInput p q
  encode-SameInput p q same = record { men = men; mover = mover; castling = castling; file = file }
    where
      cell : (j : ℕ) → encode boards squares p j ≡ encode boards squares q j
      cell j = ap (λ t. t j) same

      men : (s : ℕ) → s < 64 → piece p s ≡ piece q s
      men s l =
          same_man (piece p s) (piece q s)
            (λ k h. sym (encode_man p k s h l) ∙ cell (k * 64 + s) ∙ encode_man q k s h l)

      mover : turn p ≡ turn q
      mover = same_color (turn p) (turn q) (sym (encode_turn p) ∙ cell 768 ∙ encode_turn q)

      castling : (c : Color) (w : Wing) → squares.can_castle p c w ≡ squares.can_castle q c w
      castling c w = sym (encode_right p c w) ∙ cell (right_plane c w * 64 + 0) ∙ encode_right q c w

      file : (f : ℕ) → f < 8 → file_is f (squares.en_passant p) ≡ file_is f (squares.en_passant q)
      file f l =
          sym (encode_file boards squares p f l)
          ∙ cell (1088 + f)
          ∙ encode_file boards squares q f l
