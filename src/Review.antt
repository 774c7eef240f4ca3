-- ===== src/Review.antt =====
-- internal/review/review.go: a game turned into a judgement of every move. The chess library's
-- boards and the engine's analysis are parameters; the i-th call of the analysis may answer what it
-- likes.
pub mod Board
pub mod Report
pub mod Accuracy
use blundernet.Base.{
  ℕ, zero, suc, ◌+◌, ◌-◌, ◌/◌, ◌%◌, Text, text_eq, codes, fields, ◌++◌, Bool, true, false, not,
  ◌&&◌, ◌||◌, List, [], ◌∷◌, length, take, drop, Option, none, some, ltb, leb, ◌==◌, if◌then◌else◌,
  keep, map,
}
use blundernet.Base.Int.{ℤ, pos, negsuc}
use blundernet.Chess.{
  Color, white, black, other, color_eq, Method, checkmate, stalemate, fivefold_repetition,
  seventy_five_move_rule, insufficient_material,
}
use blundernet.Float.{Float64, of_ℕ, min_f, max_f}

pub data PieceType : Type 0 where
  pawn knight bishop rook queen king : PieceType

-- *chess.Position and *chess.Move: a square is a number below 64.
pub record Boards : Type 1 where
  pub Position : Type 0
  pub ChessMove : Type 0
  pub start : Position
  pub valid_moves : Position → List ChessMove
  pub source : ChessMove → ℕ
  pub target : ChessMove → ℕ
  pub uci : Position → ChessMove → Text
  pub san : Position → ChessMove → Text
  pub update : Position → ChessMove → Position
  pub turn : Position → Color
  pub status : Position → Method
  pub piece : Position → ℕ → Option (PieceType × Color)
  pub show : Position → Text
  pub parse_fen : Text → Option Position

-- engine.Analysis, with the runner up's score and mate.
pub record Analysis : Type 0 where
  pub cp : ℤ
  pub mate : ℤ
  pub best : Text
  pub second : Option (ℤ × ℤ)

pub data Judgement : Type 0 where
  brilliant great best excellent good inaccuracy mistake blunder : Judgement

pub record Counts : Type 0 where
  pub brilliants : ℕ
  pub greats : ℕ
  pub bests : ℕ
  pub excellents : ℕ
  pub goods : ℕ
  pub inaccuracies : ℕ
  pub mistakes : ℕ
  pub blunders : ℕ

abbrev pub no_counts : Counts
no_counts = record {
  brilliants = 0;
  greats = 0;
  bests = 0;
  excellents = 0;
  goods = 0;
  inaccuracies = 0;
  mistakes = 0;
  blunders = 0;
}

unfoldable pub add : Judgement → Counts → Counts
add brilliant c = record c { brilliants = suc c.brilliants }
add great c = record c { greats = suc c.greats }
add best c = record c { bests = suc c.bests }
add excellent c = record c { excellents = suc c.excellents }
add good c = record c { goods = suc c.goods }
add inaccuracy c = record c { inaccuracies = suc c.inaccuracies }
add mistake c = record c { mistakes = suc c.mistakes }
add blunder c = record c { blunders = suc c.blunders }

abbrev pub is_best : Judgement → Bool
is_best best = true
is_best _ = false

-- j == Best || j == Excellent
abbrev pub is_fine : Judgement → Bool
is_fine best = true
is_fine excellent = true
is_fine _ = false

abbrev pub is_error : Judgement → Bool
is_error blunder = true
is_error mistake = true
is_error _ = false

abbrev pub join : List Text → Text
join [] = []
join (t ∷ []) = t
join (t ∷ u ∷ ts) = t ++ (b' ' ∷ join (u ∷ ts))

abbrev pub side_letter : Color → Text
side_letter white = codes "w"
side_letter black = codes "b"

-- The fields with the side to move and the en passant square replaced; `none` with fewer than six.
abbrev pub other_side : Color → List Text → Option (List Text)
other_side side (board ∷ turn ∷ castling ∷ en_passant ∷ half ∷ full ∷ rest) =
    some (board ∷ side_letter side ∷ castling ∷ codes "-" ∷ half ∷ full ∷ rest)
other_side side _ = none

module _ (fl : Float64) where
  open fl use {F, ratio, sub, mul, div, lt, le, exp, sqrt, round}

  pub record Move : Type 0 where
    pub ply : ℕ
    pub san : Text
    pub uci : Text
    pub white : Bool
    pub judgement : Judgement
    pub win_before : F
    pub win_after : F
    pub better : Text
    pub better_san : Text
    pub accuracy : F
    pub fen : Text

  pub record Result : Type 0 where
    pub moves : List Move
    pub white_accuracy : F
    pub black_accuracy : F
    pub white : Counts
    pub black : Counts
    pub worst : List Move

  abbrev pub num : ℕ → F
  num n = of_ℕ fl n

  abbrev pub of_int : ℤ → F
  of_int (pos n) = num n
  of_int (negsuc n) = sub (num 0) (num (suc n))

  abbrev pub curve : ℤ → F
  curve cp = fl.add (num 50) (
      mul (num 50) (
        sub
          (div (num 2)
            (fl.add (num 1) (exp (mul (sub (num 0) (ratio 368208 100000000)) (of_int cp)))))
          (num 1)))

  unfoldable pub win_percent : ℤ → ℤ → F
  win_percent cp (pos zero) = curve cp
  win_percent cp (pos (suc n)) = num 100
  win_percent cp (negsuc n) = num 0

  unfoldable pub accuracy_of : F → F
  accuracy_of lost =
      let lost = if lt lost (num 0) then num 0 else lost in
      let v =
        sub (mul (ratio 1031668 10000) (exp (mul (sub (num 0) (ratio 4354 100000)) lost)))
          (ratio 31669 10000) in
      min_f fl (num 100) (max_f fl (num 0) v)

  unfoldable pub judge : F → Text → Text → Judgement
  judge lost played engine =
      if text_eq played engine
      then best
      else if lt lost (num 2)
      then excellent
      else if lt lost (num 5)
      then good
      else if lt lost (num 10)
      then inaccuracy
      else if lt lost (num 20)
      then mistake
      else blunder

  -- pieceValue, where the king is missing.
  abbrev pub piece_value : PieceType → F
  piece_value pawn = num 1
  piece_value knight = num 3
  piece_value bishop = num 3
  piece_value rook = num 5
  piece_value queen = num 9
  piece_value king = num 0

  -- round
  abbrev pub round_tenth : F → F
  round_tenth v = div (round (mul v (num 10))) (num 10)
