-- ===== src/Engine/Encode/Cells.antt =====
-- The cells of the tensor of internal/engine/encode.go, one by one.
use blundernet.Base.{
  ℕ, zero, suc, ◌+◌, ◌*◌, ◌%◌, ◌≤◌, ◌<◌, ◌≡◌, refl, sym, ap, ◌∙◌, Bool, true, false, ◌&&◌, ◌||◌,
  Option, none, some, leb, ltb, ◌==◌, if◌then◌else◌, arith, Bool-cases, inl, inr,
}
use blundernet.Chess.{Color, white, black, color_eq}
use blundernet.Review.{Boards, PieceType, pawn, knight, bishop, rook, queen, king}
use blundernet.Engine.Encode.{
  Squares, Wing, king_side, queen_side, Tensor, plane, set, fill_from, fill_if, file_from,
  pieces_from, mark_file, encode,
}

fill_from_at :
    (n i first : ℕ) (x : Tensor) (j : ℕ)
    → fill_from n i first x j ≡ (x j || (leb (first + i) j && ltb j (first + i + n)))
unfolding fill_from
fill_from_at zero i first x j = ground arith
fill_from_at (suc n) i first x j =
    ground (arith, fill_from_at n (suc i) first (set (first + i) x) j)

fill_if_at :
    (on : Bool) (k : ℕ) (x : Tensor) (j : ℕ)
    → fill_if on k x j ≡ (x j || (on && (leb (k * 64) j && ltb j (k * 64 + 64))))
fill_if_at true k x j = ground (arith, fill_from_at 64 0 (k * 64) x j)
fill_if_at false k x j = ground arith

file_from_below :
    (n rank file : ℕ) (x : Tensor) (j : ℕ) → j < 1088 + rank * 8 → file_from n rank file x j ≡ x j
unfolding file_from
file_from_below zero rank file x j h = refl
file_from_below (suc n) rank file x j h = ground (
  arith,
  h,
  file_from_below n (suc rank) file (set (1088 + rank * 8 + file) x) j (omega (arith, h)),
)

-- The first rank of the last plane names the file.
file_from_first :
    (file : ℕ) (x : Tensor) (f : ℕ)
    → f < 8
    → file_from 8 0 file x (1088 + f) ≡ (x (1088 + f) || (file == f))
unfolding file_from
file_from_first file x f h =
    ground (arith, h, file_from_below 7 1 file (set (1088 + file) x) (1088 + f) (omega (arith, h)))

abbrev pub file_is : ℕ → Option ℕ → Bool
file_is f none = false
file_is f (some sq) = sq % 8 == f

mark_file_below : (o : Option ℕ) (x : Tensor) (j : ℕ) → j < 1088 → mark_file o x j ≡ x j
mark_file_below none x j h = refl
mark_file_below (some sq) x j h = file_from_below 8 0 (sq % 8) x j (omega (arith, h))

mark_file_first :
    (o : Option ℕ) (x : Tensor) (f : ℕ)
    → f < 8
    → mark_file o x (1088 + f) ≡ (x (1088 + f) || file_is f o)
mark_file_first none x f h = ground arith
mark_file_first (some sq) x f h = file_from_first (sq % 8) x f h

abbrev pub stands_on : ℕ → Option (PieceType × Color) → Bool
stands_on k none = false
stands_on k (some man) = plane man == k

plane_lt : (man : PieceType × Color) → plane man < 12
plane_lt (t, c) = ground arith

abbrev type_of : ℕ → PieceType
type_of n =
    if n == 0
    then pawn
    else if n == 1
    then knight
    else if n == 2
    then bishop
    else if n == 3
    then rook
    else if n == 4
    then queen
    else king

abbrev man_of : ℕ → PieceType × Color
man_of n = (type_of (n % 6), if ltb n 6 then white else black)

man_of-plane : (man : PieceType × Color) → man_of (plane man) ≡ man
man_of-plane (pawn, white) = refl
man_of-plane (knight, white) = refl
man_of-plane (bishop, white) = refl
man_of-plane (rook, white) = refl
man_of-plane (queen, white) = refl
man_of-plane (king, white) = refl
man_of-plane (pawn, black) = refl
man_of-plane (knight, black) = refl
man_of-plane (bishop, black) = refl
man_of-plane (rook, black) = refl
man_of-plane (queen, black) = refl
man_of-plane (king, black) = refl

pub same_man :
    (a b : Option (PieceType × Color)) → ((k : ℕ) → k < 12 → stands_on k a ≡ stands_on k b) → a ≡ b
same_man none none h = refl
same_man none (some m) h = absurd (ground (arith, h (plane m) (plane_lt m)))
same_man (some m) none h = absurd (ground (arith, h (plane m) (plane_lt m)))
same_man (some m) (some n) h =
    ap some
      (sym (man_of-plane m) ∙ ap man_of (ground (arith, h (plane m) (plane_lt m))) ∙ man_of-plane n)

pub beyond : (k : ℕ) (o : Option (PieceType × Color)) → 12 ≤ k → stands_on k o ≡ false
beyond k none h = refl
beyond k (some man) h = ground (arith, h, plane_lt man)

pub others :
    (a b c d e f : Bool) (k : ℕ)
    → k < 12
    → (((((a || (b && (12 == k))) || (c && (13 == k))) || (d && (14 == k))) || (e && (15 == k)))
        || (f && (16 == k)))
      ≡ a
others a b c d e f k h =
    rw
      (
        off 12 (omega arith),
        off 13 (omega arith),
        off 14 (omega arith),
        off 15 (omega arith),
        off 16 (omega arith),
      )
      (gone a b c d e f)
  where
    off : (n : ℕ) → 12 ≤ n → (n == k) ≡ false
    off n l = ground (arith, l, h)

    gone :
        (a b c d e f : Bool)
        → (((((a || (b && false)) || (c && false)) || (d && false)) || (e && false))
            || (f && false))
          ≡ a
    gone a b c d e f = ground arith

abbrev pub right_plane : Color → Wing → ℕ
right_plane white king_side = 13
right_plane white queen_side = 14
right_plane black king_side = 15
right_plane black queen_side = 16

pub same_color : (a b : Color) → color_eq a white ≡ color_eq b white → a ≡ b
same_color white white h = refl
same_color white black h = absurd (ground (arith, h))
same_color black white h = absurd (ground (arith, h))
same_color black black h = refl

module _ (boards : Boards) (squares : Squares boards) where
  open boards use {Position, turn, piece}

  placed :
      (o : Option (PieceType × Color)) (sq : ℕ) (x : Tensor) (k s : ℕ)
      → sq < 64
      → s < 64
      → (elim o as (λ _. Tensor) [ none ↦ x | some man ↦ set (plane man * 64 + sq) x ]) (k * 64 + s)
        ≡ (x (k * 64 + s) || ((sq == s) && stands_on k o))
  placed none sq x k s l m = ground arith
  placed (some man) sq x k s l m = ground (arith, l, m)

  pieces_from_at :
      (n sq : ℕ) (p : Position) (x : Tensor) (k s : ℕ)
      → sq + n ≤ 64
      → s < 64
      → pieces_from boards squares n sq p x (k * 64 + s)
        ≡ (x (k * 64 + s) || ((leb sq s && ltb s (sq + n)) && stands_on k (piece p s)))
  unfolding pieces_from
  pieces_from_at zero sq p x k s h l = ground arith
  pieces_from_at (suc n) sq p x k s h l =
      let rest =
        pieces_from_at n (suc sq) p
          (elim (piece p sq) [ none ↦ x | some man ↦ set (plane man * 64 + sq) x ]) k s
          (omega (arith, h)) l in
      elim (Bool-cases (sq == s)) [
        | inl here ↦
            let same : sq ≡ s = ground (arith, here) in
            rest
            ∙ ground (
              arith,
              placed (piece p sq) sq x k s (omega (arith, h)) l,
              here,
              ap (λ t. stands_on k (piece p t)) same,
            )
        | inr away ↦ rest ∙ ground (arith, placed (piece p sq) sq x k s (omega (arith, h)) l, away)
      ]

  fill_if_cell :
      (on : Bool) (q : ℕ) (x : Tensor) (k s : ℕ)
      → s < 64
      → fill_if on q x (k * 64 + s) ≡ (x (k * 64 + s) || (on && (q == k)))
  fill_if_cell on q x k s l = ground (arith, fill_if_at on q x (k * 64 + s), l)

  -- A cell of the planes in front of the en passant file.
  pub encode_cell :
      (p : Position) (k s : ℕ)
      → k < 17
      → s < 64
      → encode boards squares p (k * 64 + s) ≡ (
          ((((stands_on k (piece p s) || (color_eq (turn p) white && (12 == k)))
                || (squares.can_castle p white king_side && (13 == k)))
              || (squares.can_castle p white queen_side && (14 == k)))
            || (squares.can_castle p black king_side && (15 == k)))
          || (squares.can_castle p black queen_side && (16 == k)))
  unfolding encode
  encode_cell p k s h l =
      let men = pieces_from boards squares 64 0 p (λ j. false) in
      let mover = fill_if (color_eq (turn p) white) 12 men in
      let one = fill_if (squares.can_castle p white king_side) 13 mover in
      let two = fill_if (squares.can_castle p white queen_side) 14 one in
      let three = fill_if (squares.can_castle p black king_side) 15 two in
      rw
        (
          mark_file_below (squares.en_passant p)
              (fill_if (squares.can_castle p black queen_side) 16 three) (k * 64 + s)
              (omega (arith, h, l)),
          fill_if_cell (squares.can_castle p black queen_side) 16 three k s l,
          fill_if_cell (squares.can_castle p black king_side) 15 two k s l,
          fill_if_cell (squares.can_castle p white queen_side) 14 one k s l,
          fill_if_cell (squares.can_castle p white king_side) 13 mover k s l,
          fill_if_cell (color_eq (turn p) white) 12 men k s l,
          pieces_from_at 64 0 p (λ j. false) k s (omega arith) l,
        )
        (ground (arith, l))

  pub encode_file :
      (p : Position) (f : ℕ)
      → f < 8
      → encode boards squares p (1088 + f) ≡ file_is f (squares.en_passant p)
  unfolding encode
  encode_file p f l =
      let men = pieces_from boards squares 64 0 p (λ j. false) in
      let mover = fill_if (color_eq (turn p) white) 12 men in
      let one = fill_if (squares.can_castle p white king_side) 13 mover in
      let two = fill_if (squares.can_castle p white queen_side) 14 one in
      let three = fill_if (squares.can_castle p black king_side) 15 two in
      let s : f < 64 = omega (arith, l) in
      rw
        (
          mark_file_first (squares.en_passant p)
              (fill_if (squares.can_castle p black queen_side) 16 three) f l,
          fill_if_cell (squares.can_castle p black queen_side) 16 three 17 f s,
          fill_if_cell (squares.can_castle p black king_side) 15 two 17 f s,
          fill_if_cell (squares.can_castle p white queen_side) 14 one 17 f s,
          fill_if_cell (squares.can_castle p white king_side) 13 mover 17 f s,
          fill_if_cell (color_eq (turn p) white) 12 men 17 f s,
          pieces_from_at 64 0 p (λ j. false) 17 f (omega arith) s,
        )
        (ground (arith, beyond 17 (piece p f) (omega arith)))
