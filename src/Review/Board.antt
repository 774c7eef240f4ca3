-- ===== src/Review/Board.antt =====
-- What internal/review/review.go asks of a board: material, exchanges, what is on offer, and the
-- move of a text. math.Inf is the absence of a move.
use blundernet.Base.{
  ℕ, zero, suc, Text, text_eq, fields, List, [], ◌∷◌, Option, none, some, ◌==◌, if◌then◌else◌,
}
use blundernet.Chess.{Color, other, color_eq}
use blundernet.Float.{Float64, max_f}
use blundernet.Review.{Boards, PieceType, king, num, piece_value, join, other_side}

module _ (fl : Float64) (boards : Boards) where
  open fl use {F, sub, lt, le}
  open boards use {
    Position, ChessMove, valid_moves, source, target, uci, update, turn, piece, show, parse_fen,
  }

  unfoldable pub first_uci : Position → Text → List ChessMove → Option ChessMove
  first_uci p text [] = none
  first_uci p text (m ∷ ms) =
      let rest = first_uci p text ms in if text_eq (uci p m) text then some m else rest

  -- findMove
  unfoldable pub find_uci : Position → Text → Option ChessMove
  find_uci p text = first_uci p text (valid_moves p)

  -- The loop of material over the squares from `sq` on.
  unfoldable pub material_from : ℕ → ℕ → Position → Color → F → F
  material_from zero sq p c total = total
  material_from (suc n) sq p c total = material_from n (suc sq) p c (elim (piece p sq) [
    | none ↦ total
    | some (t, owner) ↦ if color_eq owner c then fl.add total (piece_value fl t) else total
  ])

  unfoldable pub material : Position → Color → F
  material p c = material_from 64 0 p c (num fl 0)

  abbrev pub capture_value : Option (PieceType × Color) → F
  capture_value none = num fl 0
  capture_value (some (king, c)) = num fl 100
  capture_value (some (t, c)) = piece_value fl t

  abbrev pub cheaper : F → ChessMove → Option (F × ChessMove) → Option (F × ChessMove)
  cheaper v m none = some (v, m)
  cheaper v m (some (w, best)) = if lt v w then some (v, m) else some (w, best)

  -- The loop of exchangeOn over the valid moves.
  unfoldable pub cheapest :
      Position → ℕ → List ChessMove → Option (F × ChessMove) → Option (F × ChessMove)
  cheapest p sq [] best = best
  cheapest p sq (m ∷ ms) best =
      cheapest p sq ms
        (if target m == sq then cheaper (capture_value (piece p (source m))) m best else best)

  unfoldable pub exchange_on : ℕ → Position → ℕ → F
  exchange_on zero p sq = num fl 0
  exchange_on (suc depth) p sq = elim (piece p sq) [
    | none ↦ num fl 0
    | some (t, c) ↦ elim (cheapest p sq (valid_moves p) none) [
      | none ↦ num fl 0
      | some (v, m) ↦
          max_f fl (num fl 0) (sub (piece_value fl t) (exchange_on depth (update p m) sq))
    ]
  ]

  unfoldable pub null_move_fen : Position → Color → Text
  null_move_fen p side = elim (other_side side (fields (show p))) [
    | none ↦ show p
    | some f ↦ join f
  ]

  -- The loop of onOffer over the squares from `sq` on.
  unfoldable pub most_from : ℕ → ℕ → Position → Color → F → F
  most_from zero sq p side most = most
  most_from (suc n) sq p side most = most_from n (suc sq) p side (elim (piece p sq) [
    | none ↦ most
    | some (t, owner) ↦
        if color_eq owner side
        then most
        else if lt most (exchange_on 8 p sq)
        then exchange_on 8 p sq
        else most
  ])

  unfoldable pub on_offer : Position → Color → F
  on_offer p side =
      if color_eq (turn p) side
      then most_from 64 0 p side (num fl 0)
      else elim (parse_fen (null_move_fen p side)) [
        | none ↦ num fl 0
        | some flipped ↦ most_from 64 0 flipped side (num fl 0)
      ]

  unfoldable pub sacrificed : Position → Position → Color → F
  sacrificed before after mover =
      sub (on_offer after (other mover))
        (sub (material before (other mover)) (material after (other mover)))
