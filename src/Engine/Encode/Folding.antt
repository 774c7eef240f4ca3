-- ===== src/Engine/Encode/Folding.antt =====
-- The policy's index of a move in internal/engine/encode.go, and the move that it is read back as.
use blundernet.Base.{
  ℕ, ◌+◌, ◌*◌, ◌/◌, ◌%◌, ◌<◌, ◌≡◌, refl, sym, ap, ◌∙◌, Text, codes, ◌++◌, Bool, true, false, ◌&&◌,
  ◌||◌, ◌==◌, ltb, leb, Option, none, some, arith, Bool-cases, inl, inr,
}
use mathlib.Core.List.{Memᴰ}
use blundernet.Chess.{Color}
use blundernet.Review.{Boards, PieceType, pawn, knight, bishop, rook, queen, king}
use blundernet.Engine.Encode.{Squares, move_index, index_uci, promotes, queen_suffix}

abbrev pub letter : Option PieceType → Text
letter none = codes ""
letter (some queen) = codes "q"
letter (some rook) = codes "r"
letter (some bishop) = codes "b"
letter (some knight) = codes "n"
letter (some pawn) = codes ""
letter (some king) = codes ""

abbrev pub is_promotion : Option PieceType → Bool
is_promotion none = false
is_promotion (some t) = true

abbrev pub is_under : Option PieceType → Bool
is_under none = false
is_under (some queen) = false
is_under (some _) = true

abbrev pub is_pawn : Option (PieceType × Color) → Bool
is_pawn none = false
is_pawn (some (pawn, c)) = true
is_pawn (some (_, c)) = false

-- a1 to h1, or a8 to h8.
abbrev pub on_last_rank : ℕ → Bool
on_last_rank sq = ltb sq 8 || leb 56 sq

last_ranks : (sq : ℕ) → sq < 64 → ((sq / 8 == 0) || (sq / 8 == 7)) ≡ on_last_rank sq
last_ranks sq h = ground (arith, h)

promotes-on_last_rank :
    (o : Option (PieceType × Color)) (sq : ℕ)
    → sq < 64
    → promotes o sq ≡ (is_pawn o && on_last_rank sq)
promotes-on_last_rank none sq h = refl
promotes-on_last_rank (some (pawn, c)) sq h = last_ranks sq h
promotes-on_last_rank (some (knight, c)) sq h = refl
promotes-on_last_rank (some (bishop, c)) sq h = refl
promotes-on_last_rank (some (rook, c)) sq h = refl
promotes-on_last_rank (some (queen, c)) sq h = refl
promotes-on_last_rank (some (king, c)) sq h = refl

suffix_letter :
    (o : Option PieceType) (b : Bool)
    → b ≡ is_promotion o
    → is_under o ≡ false
    → queen_suffix b ≡ letter o
suffix_letter none b h u = ap queen_suffix h
suffix_letter (some queen) b h u = ap queen_suffix h
suffix_letter (some rook) b h u = absurd (ground (arith, u))
suffix_letter (some bishop) b h u = absurd (ground (arith, u))
suffix_letter (some knight) b h u = absurd (ground (arith, u))
suffix_letter (some pawn) b h u = absurd (ground (arith, u))
suffix_letter (some king) b h u = absurd (ground (arith, u))

module _ (boards : Boards) (squares : Squares boards) where
  open boards use {Position, ChessMove, valid_moves, source, target, uci, piece}
  open squares use {square_name, promotion}

  -- What the chess library documents of the legal moves of a position: their squares are on the
  -- board, they are written in UCI, a pawn promotes exactly when it reaches the first or the last
  -- rank, and it may then become a queen.
  pub record Documented (p : Position) : Type 0 where
    pub on_board : (m : ChessMove) → Memᴰ m (valid_moves p) → (source m < 64) × (target m < 64)
    pub written :
        (m : ChessMove)
        → Memᴰ m (valid_moves p)
        → uci p m ≡ square_name (source m) ++ (square_name (target m) ++ letter (promotion m))
    pub last_rank :
        (m : ChessMove)
        → Memᴰ m (valid_moves p)
        → is_promotion (promotion m) ≡ (is_pawn (piece p (source m)) && on_last_rank (target m))
    pub may_queen :
        (m : ChessMove)
        → Memᴰ m (valid_moves p)
        → is_promotion (promotion m) ≡ true
        → (q : ChessMove) × Memᴰ q (valid_moves p)
          × (source q ≡ source m)
          × (target q ≡ target m)
          × (promotion q ≡ some queen)

  -- The index of m is below the length of the policy and is read back as q.
  pub record ReadAs (p : Position) (m q : ChessMove) : Type 0 where
    pub bound : move_index boards squares m < 4096
    pub legal : Memᴰ q (valid_moves p)
    pub from : source q ≡ source m
    pub to : target q ≡ target m
    pub text : index_uci boards squares (move_index boards squares m) p ≡ uci p q
    pub queens : is_under (promotion q) ≡ false

  index_uci-uci :
      (p : Position)
      → Documented p
      → (m : ChessMove) → Memᴰ m (valid_moves p)
      → is_under (promotion m) ≡ false
      → index_uci boards squares (move_index boards squares m) p ≡ uci p m
  unfolding index_uci move_index
  index_uci-uci p d m k u =
      let (_, b) = d.on_board m k in
      let f : (source m * 64 + target m) / 64 ≡ source m = omega (arith, b) in
      let t : (source m * 64 + target m) % 64 ≡ target m = omega (arith, b) in
      rw
        (
          f,
          t,
          suffix_letter (promotion m) (promotes (piece p (source m)) (target m))
              (promotes-on_last_rank (piece p (source m)) (target m) b ∙ sym (d.last_rank m k)) u,
          d.written m k,
        )
        refl

  same_index :
      (m q : ChessMove)
      → source q ≡ source m
      → target q ≡ target m
      → move_index boards squares q ≡ move_index boards squares m
  unfolding move_index
  same_index m q f t = rw (f, t) refl

  move_index_lt :
      (p : Position)
      → Documented p
      → (m : ChessMove) → Memᴰ m (valid_moves p)
      → move_index boards squares m < 4096
  unfolding move_index
  move_index_lt p d m k = omega (arith, (d.on_board m k).0, (d.on_board m k).1)

  -- If the chess library writes legal moves in UCI, promotes exactly the pawns that reach the
  -- first or the last rank, and lets each of them become a queen, then the index of a legal move
  -- is below 4096 and is read back as the UCI text of a legal move with the same two squares
  -- that is no underpromotion; and as the move itself, if that is no underpromotion.
  pub index_uci-move_index :
      (p : Position)
      → Documented p
      → (m : ChessMove) → Memᴰ m (valid_moves p)
      → ((q : ChessMove) × ReadAs p m q) × (is_under (promotion m) ≡ false → ReadAs p m m)
  index_uci-move_index p d m k = (found, itself)
    where
      itself : is_under (promotion m) ≡ false → ReadAs p m m
      itself u = record {
        bound = move_index_lt p d m k;
        legal = k;
        from = refl;
        to = refl;
        text = index_uci-uci p d m k u;
        queens = u;
      }

      found : (q : ChessMove) × ReadAs p m q
      found = elim (Bool-cases (is_under (promotion m))) [
        | inr u ↦ (m, itself u)
        | inl u ↦
            let (q, l, f, t, e) = d.may_queen m k (under (promotion m) u) in
            let n : is_under (promotion q) ≡ false = ap is_under e in
            (
              q,
              record {
                bound = move_index_lt p d m k;
                legal = l;
                from = f;
                to = t;
                text =
                    ap (λ i. index_uci boards squares i p) (sym (same_index m q f t))
                    ∙ index_uci-uci p d q l n;
                queens = n;
              },
            )
      ]
        where
          under : (o : Option PieceType) → is_under o ≡ true → is_promotion o ≡ true
          under none h = absurd (ground (arith, h))
          under (some t) h = refl
