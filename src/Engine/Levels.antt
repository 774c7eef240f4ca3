-- ===== src/Engine/Levels.antt =====
-- internal/engine/level.go and the interfaces of engine.go: the ladder of levels, the engines as the
-- worker calls them, and the adaptation of a learning game. `none` for `at_level` or `score` is an
-- engine that does not implement Leveled or Scorer.
use blundernet.Base.{ℕ, Text, Bool, false, Option, ltb, ◌==◌, if◌then◌else◌, arith}
use blundernet.Base.Int.{ℤ, pos, negsuc, ◌+ℤ◌, ◌≤ℤ◌}
use blundernet.Errors.{Except}
use blundernet.Float.{Float64}

abbrev pub max_level : ℤ
max_level = pos 6

unfoldable pub is_hard : ℤ → Bool
is_hard (pos n) = n == 7
is_hard (negsuc n) = false

-- A level below MinLevel or above MaxLevel becomes that one.
unfoldable pub clamp : ℤ → ℕ
clamp (negsuc n) = 1
clamp (pos n) = if ltb n 1 then 1 else if ltb 6 n then 6 else n

pub record Level (F : Type 0) : Type 0 where
  pub sims : ℕ
  pub temp : F

module _ (fl : Float64) where
  open fl use {F, ratio, sub, lt}

  -- The table `levels`; a missing key is the zero value.
  unfoldable pub levels : ℕ → Level F
  levels n =
      if n == 1
      then record { sims = 8; temp = ratio 16 10 }
      else if n == 2
      then record { sims = 25; temp = ratio 11 10 }
      else if n == 3
      then record { sims = 75; temp = ratio 7 10 }
      else if n == 4
      then record { sims = 200; temp = ratio 35 100 }
      else if n == 5
      then record { sims = 400; temp = ratio 0 1 }
      else if n == 6
      then record { sims = 800; temp = ratio 0 1 }
      else record { sims = 0; temp = ratio 0 1 }

  unfoldable pub settings : ℤ → Level F
  unfolding levels clamp
  settings level = levels (clamp level)

  abbrev negative : F → F
  negative x = sub (ratio 0 1) x

  unfoldable pub adapt_step : F → ℤ
  adapt_step value =
      if lt (ratio 6 10) value
      then negsuc 1
      else if lt (ratio 3 10) value
      then negsuc 0
      else if lt value (negative (ratio 6 10))
      then pos 2
      else if lt value (negative (ratio 3 10))
      then pos 1
      else pos 0

  unfoldable pub adapt : ℤ → F → ℤ
  adapt base value = pos (clamp (base +ℤ adapt_step value))

  adapt_step_two : (value : F) → (negsuc 1 ≤ℤ adapt_step value) × (adapt_step value ≤ℤ pos 2)
  unfolding adapt_step
  adapt_step_two value = ground arith

  -- The level that the bot of a learning game plays a move at is between 1 and 6, and at most
  -- two levels away from the game's level if that is between 1 and 6 itself.
  pub adapt_near :
      (base : ℤ) (value : F)
      → (pos 1 ≤ℤ adapt base value)
        × (adapt base value ≤ℤ max_level)
        × (pos 1 ≤ℤ base
            → base ≤ℤ max_level
            → (base ≤ℤ adapt base value +ℤ pos 2) × (adapt base value ≤ℤ base +ℤ pos 2))
  unfolding adapt clamp ◌+ℤ◌
  adapt_near base value = ground (arith, adapt_step_two value)

pub record Engine (F : Type 0) : Type 0 where
  pub best_move : Text → Except Text
  pub at_level : Option (Text → ℤ → Except Text)
  pub score : Option (Text → Except F)
