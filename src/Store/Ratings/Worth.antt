-- ===== src/Store/Ratings/Worth.antt =====
-- The points and the rung that a result gives, and the bot as an opponent, in
-- internal/store/ratings.go.
use blundernet.Base.{ℕ, suc, ◌≡◌, ◌≢◌, ◌≤◌, ◌⊎◌, inl, inr, refl, none, some, arith, Bool-cases, leb}
use blundernet.Base.Int.{pos, ◌-ℤ◌}
use blundernet.Chess.{white, black}
use blundernet.Float.{Float64, of_ℕ}
use blundernet.Rating.{GameResult}
use blundernet.Game.{Game, undecided, white_wins, black_wins, drawn}
use blundernet.Store.Ratings.{
  Score, loss, half, win, score_for, ladder_step, of_ℤ, engine_rating, engine_deviation, bot_result,
}

abbrev pub Won : Game → Type 0
Won g =
    ((g.result ≡ white_wins) × (g.player_color ≡ white))
    ⊎ ((g.result ≡ black_wins) × (g.player_color ≡ black))

abbrev pub Lost : Game → Type 0
Lost g =
    ((g.result ≡ white_wins) × (g.player_color ≡ black))
    ⊎ ((g.result ≡ black_wins) × (g.player_color ≡ white))

module _ (fl : Float64) where
  open fl use {F, ratio, add, mul}

  -- What a result is worth: the points of the player, and the rung before and after.
  pub data Worth (g : Game) (points : F) (rung next : ℕ) : Type 0 where
    up : Won g → points ≡ of_ℕ fl 1 → rung ≤ 5 → next ≡ suc rung → Worth g points rung next
    top : Won g → points ≡ of_ℕ fl 1 → 6 ≤ rung → next ≡ 6 → Worth g points rung next
    level : g.result ≡ drawn → points ≡ ratio 1 2 → next ≡ rung → Worth g points rung next
    down :
        Lost g
        → points ≡ of_ℕ fl 0
        → ((2 ≤ rung) × (rung ≤ 7) × (suc next ≡ rung)) ⊎ ((8 ≤ rung) × (next ≡ 6))
        → Worth g points rung next
    bottom : Lost g → points ≡ of_ℕ fl 0 → rung ≤ 1 → next ≡ 1 → Worth g points rung next

  pub score_for-cases :
      (g : Game) (s : Score)
      → score_for g ≡ some s
      → ((s ≡ win) × Won g) ⊎ ((s ≡ loss) × Lost g) ⊎ ((s ≡ half) × (g.result ≡ drawn))
  unfolding score_for
  score_for-cases g s e = ground (arith, e)

  win-Worth : (g : Game) (rung : ℕ) → Won g → Worth g (of_ℕ fl 1) rung (ladder_step win rung)
  unfolding ladder_step
  win-Worth g rung h = elim (Bool-cases (leb 6 rung)) [
    | inl high ↦ top h refl (ground (arith, high)) (ground (arith, high))
    | inr low ↦ up h refl (ground (arith, low)) (ground (arith, low))
  ]

  loss-Worth : (g : Game) (rung : ℕ) → Lost g → Worth g (of_ℕ fl 0) rung (ladder_step loss rung)
  unfolding ladder_step ◌-ℤ◌
  loss-Worth g rung h = elim (Bool-cases (leb rung 1)) [
    | inl low ↦ bottom h refl (ground (arith, low)) (ground (arith, low))
    | inr high ↦ down h refl (ground (arith, high))
  ]

  pub ladder_step-Worth :
      (g : Game) (s : Score) (rung : ℕ)
      → ((s ≡ win) × Won g) ⊎ ((s ≡ loss) × Lost g) ⊎ ((s ≡ half) × (g.result ≡ drawn))
      → Worth g (bot_result fl s g.level).score rung (ladder_step s rung)
  unfolding bot_result ladder_step
  ladder_step-Worth g s rung (inl (e, h)) = rw e (win-Worth g rung h)
  ladder_step-Worth g s rung (inr (inl (e, h))) = rw e (loss-Worth g rung h)
  ladder_step-Worth g s rung (inr (inr (e, h))) = rw e (level h refl refl)

  pub score_for-undecided : (g : Game) → score_for g ≡ none → g.result ≡ undecided
  unfolding score_for
  score_for-undecided g e = ground arith

  -- The bot as an opponent.
  pub record Bot (g : Game) (opponent : GameResult F) : Type 0 where
    pub rating :
        opponent.opponent_rating
        ≡ add (of_ℕ fl 1000) (mul (of_ℤ fl (g.level -ℤ pos 5)) (of_ℕ fl 120))
    pub measured : g.level ≡ pos 5 → opponent.opponent_deviation ≡ of_ℕ fl 50
    pub guessed : g.level ≢ pos 5 → opponent.opponent_deviation ≡ of_ℕ fl 150

  pub bot_result-Bot : (g : Game) (s : Score) → Bot g (bot_result fl s g.level)
  unfolding bot_result engine_rating engine_deviation
  bot_result-Bot g s = record {
    rating = refl;
    measured = λ h. ground (arith, h);
    guessed = λ h. ground (arith, h);
  }
