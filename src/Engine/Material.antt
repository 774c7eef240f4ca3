-- ===== src/Engine/Material.antt =====
-- internal/engine/material.go: the fallback engine, two plies of negamax over a count of material.
pub mod Mates
use blundernet.Base.{
  ℕ, zero, suc, Text, List, [], ◌∷◌, Option, none, some, if◌then◌else◌, ◌==◌, Bool, true, false,
}
use blundernet.Base.Int.{ℤ, pos, negsuc, ◌+ℤ◌, ◌-ℤ◌, ltb_ℤ}
use blundernet.Errors.{Except, ok, err, backend}
use blundernet.Chess.{Color, color_eq, Method, checkmate, stalemate}
use blundernet.Float.{Float64, of_ℕ, min_f, max_f}
use blundernet.Review.{Boards, PieceType, pawn, knight, bishop, rook, queen, king}
use blundernet.Engine.Encode.{Squares, move_index, index_uci}

-- pieceValue, where the king is missing.
abbrev pub piece_value : PieceType → ℕ
piece_value pawn = 100
piece_value knight = 320
piece_value bishop = 330
piece_value rook = 500
piece_value queen = 900
piece_value king = 0

-- math.MinInt
abbrev pub min_int : ℤ
min_int = negsuc 9223372036854775807

abbrev pub count : Color → PieceType × Color → ℤ → ℤ
count mover (t, c) score =
    if color_eq c mover then score +ℤ pos (piece_value t) else score -ℤ pos (piece_value t)

-- The switch of negamax, with what follows it.
abbrev pub value_or : Method → ℤ → ℤ
value_or checkmate x = negsuc 99999
value_or stalemate x = pos 0
value_or _ x = x

-- best == math.MinInt
abbrev pub is_min : ℤ → Bool
is_min (pos n) = false
is_min (negsuc n) = n == 9223372036854775807

abbrev pub larger : ℤ → ℤ → ℤ
larger best s = if ltb_ℤ best s then s else best

module _ (boards : Boards) (squares : Squares boards) where
  open boards use {Position, ChessMove, valid_moves, update, turn, status, piece, parse_fen}

  -- The loop over the board from square `sq` on.
  unfoldable pub evaluate_from : ℕ → ℕ → Position → ℤ → ℤ
  evaluate_from zero sq p score = score
  evaluate_from (suc n) sq p score =
      evaluate_from n (suc sq) p
        (elim (piece p sq) [ none ↦ score | some man ↦ count (turn p) man score ])

  unfoldable pub evaluate : Position → ℤ
  evaluate p = evaluate_from 64 0 p (pos 0)

  -- The loop over the moves, with the value of the position after one.
  unfoldable pub best_reply : (Position → ℤ) → Position → List ChessMove → ℤ → ℤ
  best_reply value p [] best = best
  best_reply value p (m ∷ ms) best =
      best_reply value p ms (larger best (pos 0 -ℤ value (update p m)))

  unfoldable pub negamax : ℕ → Position → ℤ
  negamax zero p = value_or (status p) (evaluate p)
  negamax (suc depth) p =
      let best = best_reply (λ q. negamax depth q) p (valid_moves p) min_int in
      value_or (status p) (if is_min best then pos 0 else best)

  unfoldable pub score_move : Position → ChessMove → ℤ
  score_move p m = pos 0 -ℤ negamax 1 (update p m)

  unfoldable pub best_of : Position → List ChessMove → ChessMove × ℤ → ChessMove
  best_of p [] (best, s) = best
  best_of p (m ∷ ms) (best, s) =
      best_of p ms (if ltb_ℤ s (score_move p m) then (m, score_move p m) else (best, s))

  unfoldable pub choose : Position → List ChessMove → Except Text
  choose p [] = err backend
  choose p (m ∷ ms) =
      ok (index_uci boards squares (move_index boards squares (best_of p (m ∷ ms) (m, min_int))) p)

  abbrev choose_at : Option Position → Except Text
  choose_at none = err backend
  choose_at (some p) = choose p (valid_moves p)

  unfoldable pub best_move : Text → Except Text
  best_move fen = choose_at (parse_fen fen)

  module _ (fl : Float64) where
    open fl use {F, div, neg}

    abbrev pub of_int : ℤ → F
    of_int (pos n) = of_ℕ fl n
    of_int (negsuc n) = neg (of_ℕ fl (suc n))

    abbrev pub score_or : Method → F → F
    score_or checkmate x = neg (of_ℕ fl 1)
    score_or stalemate x = of_ℕ fl 0
    score_or _ x = x

    unfoldable pub score : Text → Except F
    score fen = elim (parse_fen fen) [
      | none ↦ err backend
      | some p ↦ ok (
          score_or (status p) (
            max_f fl (neg (of_ℕ fl 1))
              (min_f fl (of_ℕ fl 1) (div (of_int (evaluate p)) (of_ℕ fl 900)))))
    ]
