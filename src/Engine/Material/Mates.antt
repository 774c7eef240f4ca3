-- ===== src/Engine/Material/Mates.antt =====
-- The fallback engine of internal/engine/material.go when a move mates at once.
use blundernet.Base.{
  ℕ, zero, suc, ◌+◌, ◌*◌, ◌≤◌, ◌≡◌, refl, ap, sym, subst, ◌∙◌, Text, List, [], ◌∷◌, true, false,
  Option, none, some, arith, Bool-cases, clash, inl, inr, ◌⊎◌, if-cases, if◌then◌else◌,
}
use blundernet.Base.Int.{ℤ, pos, negsuc, ◌+ℤ◌, ◌-ℤ◌, ltb_ℤ, pos_part, neg_part}
use mathlib.Core.List.{Memᴰ}
use mathlib.Core.List.Memᴰ.{head, tail}
use blundernet.Errors.{Except, ok}
use blundernet.Chess.{Color, Method, is_mate}
use blundernet.Review.{Boards, PieceType}
use blundernet.Engine.Encode.{Squares, move_index, index_uci}
use blundernet.Engine.Material.{
  piece_value, min_int, count, value_or, is_min, larger, evaluate_from, evaluate, best_reply,
  negamax, score_move, best_of, choose, best_move,
}

abbrev Within : ℕ → ℤ → Type 0
Within b x = (pos_part x ≤ b) × (neg_part x ≤ b)

piece_value_le : (t : PieceType) → piece_value t ≤ 900
piece_value_le t = ground arith

count-Within :
    (mover : Color) (man : PieceType × Color) (b : ℕ) (x : ℤ)
    → Within b x
    → Within (b + 900) (count mover man x)
unfolding ◌+ℤ◌ ◌-ℤ◌
count-Within mover (t, c) b x h = ground (arith, h, piece_value_le t)

mate_value : (s : Method) (x : ℤ) → is_mate s ≡ true → value_or s x ≡ negsuc 99999
mate_value s x h = ground (arith, h)

value_or_le : (s : Method) (x : ℤ) (b : ℕ) → pos_part x ≤ b → pos_part (value_or s x) ≤ b
value_or_le s x b h = ground (arith, h)

quiet_value_le :
    (s : Method) (x : ℤ) (b : ℕ) → is_mate s ≡ false → neg_part x ≤ b → neg_part (value_or s x) ≤ b
quiet_value_le s x b q h = ground (arith, h, q)

module _ (boards : Boards) (squares : Squares boards) where
  open boards use {Position, ChessMove, valid_moves, update, turn, status, piece, parse_fen}

  evaluate_from-Within :
      (n sq : ℕ) (p : Position) (b : ℕ) (x : ℤ)
      → Within b x
      → Within (b + n * 900) (evaluate_from boards squares n sq p x)
  unfolding evaluate_from
  evaluate_from-Within zero sq p b x h = ground (arith, h)
  evaluate_from-Within (suc n) sq p b x h = ground (
    arith,
    evaluate_from-Within n (suc sq) p (b + 900) (next (piece p sq)) (next-Within (piece p sq)),
  )
    where
      next : Option (PieceType × Color) → ℤ
      next o = elim o [ none ↦ x | some man ↦ count (turn p) man x ]

      next-Within : (o : Option (PieceType × Color)) → Within (b + 900) (next o)
      next-Within none = ground (arith, h)
      next-Within (some man) = count-Within (turn p) man b x h

  evaluate-Within : (p : Position) → Within 57600 (evaluate boards squares p)
  unfolding evaluate
  evaluate-Within p = evaluate_from-Within 64 0 p 0 (pos 0) (ground arith)

  leaf_le : (p : Position) → pos_part (negamax boards squares 0 p) ≤ 57600
  unfolding negamax
  leaf_le p = value_or_le (status p) (evaluate boards squares p) 57600 (evaluate-Within p).0

  larger_ge : (best x : ℤ) (b : ℕ) → neg_part best ≤ b → neg_part (larger best x) ≤ b
  larger_ge best x b h = ground (arith, h)

  larger_new : (best x : ℤ) (b : ℕ) → pos_part x ≤ b → neg_part (larger best (pos 0 -ℤ x)) ≤ b
  unfolding ◌-ℤ◌
  larger_new best x b h = ground (arith, h)

  module _ (value : Position → ℤ) (p : Position) (b : ℕ)
      (bound : (q : Position) → pos_part (value q) ≤ b) where
    best_reply_ge :
        (ms : List ChessMove) (best : ℤ)
        → neg_part best ≤ b
        → neg_part (best_reply boards squares value p ms best) ≤ b
    unfolding best_reply
    best_reply_ge [] best h = h
    best_reply_ge (m ∷ ms) best h =
        best_reply_ge ms (larger best (pos 0 -ℤ value (update p m)))
          (larger_ge best (pos 0 -ℤ value (update p m)) b h)

    best_reply_some :
        (ms : List ChessMove) (best : ℤ)
        → is_min best ≡ true
        → (is_min (best_reply boards squares value p ms best) ≡ true)
          ⊎ (neg_part (best_reply boards squares value p ms best) ≤ b)
    unfolding best_reply
    best_reply_some [] best h = inl h
    best_reply_some (m ∷ ms) best h = inr (
        best_reply_ge ms (larger best (pos 0 -ℤ value (update p m)))
          (larger_new best (value (update p m)) b (bound (update p m))))

  or_draw :
      (best : ℤ) (b : ℕ)
      → (is_min best ≡ true) ⊎ (neg_part best ≤ b)
      → neg_part (if is_min best then pos 0 else best) ≤ b
  or_draw best b (inl h) = ground (arith, h)
  or_draw best b (inr h) = ground (arith, h)

  quiet_ge :
      (p : Position) → is_mate (status p) ≡ false → neg_part (negamax boards squares 1 p) ≤ 57600
  unfolding negamax
  quiet_ge p h = quiet_value_le (status p) _ 57600 h (
      or_draw _ 57600 (
        best_reply_some (λ q. negamax boards squares 0 q) p 57600 leaf_le (valid_moves p) min_int
          refl))

  score_quiet :
      (p : Position) (m : ChessMove)
      → is_mate (status (update p m)) ≡ false
      → pos_part (score_move boards squares p m) ≤ 57600
  unfolding score_move ◌-ℤ◌
  score_quiet p m h = ground (arith, quiet_ge (update p m) h)

  score_mate :
      (p : Position) (m : ChessMove)
      → is_mate (status (update p m)) ≡ true
      → score_move boards squares p m ≡ pos 100000
  unfolding score_move negamax ◌-ℤ◌
  score_mate p m h = ap (λ x. pos 0 -ℤ x) (mate_value (status (update p m)) _ h)

  score_le : (p : Position) (m : ChessMove) → pos_part (score_move boards squares p m) ≤ 100000
  score_le p m = elim (Bool-cases (is_mate (status (update p m)))) [
    | inl h ↦ ground (arith, score_mate p m h)
    | inr h ↦ omega (arith, score_quiet p m h)
  ]

  -- A score that no move beats is kept.
  best_of_kept :
      (p : Position) (ms : List ChessMove) (b : ChessMove)
      → best_of boards squares p ms (b, pos 100000) ≡ b
  unfolding best_of
  best_of_kept p [] b = refl
  best_of_kept p (m ∷ ms) b =
      ap (best_of boards squares p ms) (kept (score_move boards squares p m) (score_le p m))
      ∙ best_of_kept p ms b
    where
      kept :
          (x : ℤ)
          → pos_part x ≤ 100000
          → if◌then◌else◌ {A = ChessMove × ℤ} (ltb_ℤ (pos 100000) x) (m, x) (b, pos 100000)
            ≡ (b, pos 100000)
      kept x h = ground (arith, h)

  abbrev pub Mating : Position → ChessMove → Type 0
  Mating p m = is_mate (status (update p m)) ≡ true

  best_of_mates :
      (p : Position) (ms : List ChessMove) (b : ChessMove) (x : ℤ)
      → pos_part x ≤ 57600
      → (m : ChessMove) → Memᴰ m ms
      → Mating p m
      → Mating p (best_of boards squares p ms (b, x))
  unfolding best_of
  best_of_mates p [] b x l m k h = elim k [ ]
  best_of_mates p (n ∷ ms) b x l m k h = elim (Bool-cases (is_mate (status (update p n)))) [
    | inl mates ↦
        subst (λ c. Mating p (best_of boards squares p ms c))
          (sym (new (score_move boards squares p n) (score_mate p n mates)))
          (subst (λ q. Mating p q) (sym (best_of_kept p ms n)) mates)
    | inr quiet ↦
        if-cases (ltb_ℤ x (score_move boards squares p n))
          (λ c. Mating p (best_of boards squares p ms c))
          (λ _.
            best_of_mates p ms n (score_move boards squares p n) (score_quiet p n quiet) m
              (later k quiet) h)
          (λ _. best_of_mates p ms b x l m (later k quiet) h)
  ]
    where
      new :
          (y : ℤ)
          → y ≡ pos 100000
          → if◌then◌else◌ {A = ChessMove × ℤ} (ltb_ℤ x y) (n, y) (b, x) ≡ (n, pos 100000)
      new y e = ground (arith, e, l)

      later : Memᴰ m (n ∷ ms) → is_mate (status (update p n)) ≡ false → Memᴰ m ms
      later (tail d) q = d
      later (head e) q = absurd (clash (subst (λ c. Mating p c) e h) q)

  best_of-Mem :
      (p : Position) (ms : List ChessMove) (b : ChessMove) (x : ℤ)
      → (best_of boards squares p ms (b, x) ≡ b) ⊎ Memᴰ (best_of boards squares p ms (b, x)) ms
  unfolding best_of
  best_of-Mem p [] b x = inl refl
  best_of-Mem p (n ∷ ms) b x =
      if-cases (ltb_ℤ x (score_move boards squares p n))
        (λ c. (best_of boards squares p ms c ≡ b) ⊎ Memᴰ (best_of boards squares p ms c) (n ∷ ms))
        (λ _. elim (best_of-Mem p ms n (score_move boards squares p n)) [
          | inl e ↦ inr (head e)
          | inr d ↦ inr (tail d)
        ])
        (λ _. elim (best_of-Mem p ms b x) [ inl e ↦ inl e | inr d ↦ inr (tail d) ])

  -- An answer that is the text of one of the moves, with a property.
  abbrev pub Plays : (ChessMove → Type 0) → Position → List ChessMove → Except Text → Type 0
  Plays P p ms r =
      (m : ChessMove) × Memᴰ m ms
      × P m
      × (r ≡ ok (index_uci boards squares (move_index boards squares m) p))

  choose-mates :
      (p : Position) (ms : List ChessMove) (m : ChessMove)
      → Memᴰ m ms
      → Mating p m
      → Plays (Mating p) p ms (choose boards squares p ms)
  unfolding choose
  choose-mates p [] m k h = elim k [ ]
  choose-mates p (n ∷ ms) m k h = (
    best_of boards squares p (n ∷ ms) (n, min_int),
    elim (best_of-Mem p (n ∷ ms) n min_int) [ inl e ↦ head e | inr d ↦ d ],
    best_of_mates p (n ∷ ms) n min_int (ground arith) m k h,
    refl,
  )

  -- If a legal move mates, then the fallback engine answers the text of the index of a legal
  -- move that mates: no count of material reaches the value of a mate.
  pub best_move-mates :
      (fen : Text) (p : Position) (m : ChessMove)
      → parse_fen fen ≡ some p
      → Memᴰ m (valid_moves p)
      → Mating p m
      → Plays (Mating p) p (valid_moves p) (best_move boards squares fen)
  unfolding best_move
  best_move-mates fen p m e k h = rw e (choose-mates p (valid_moves p) m k h)
