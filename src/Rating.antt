-- ===== src/Rating.antt =====
-- internal/rating/glicko2.go: Glicko-2 over an abstract float64. The two loops of newVolatility take
-- fuel, and `none` says that it ran out.
use blundernet.Base.{ℕ, zero, suc, List, [], ◌∷◌, Option, none, some, if◌then◌else◌}
use blundernet.Float.{Float64, of_ℕ, min_f}

pub record Player (F : Type 0) : Type 0 where
  pub rating : F
  pub deviation : F
  pub volatility : F

pub record GameResult (F : Type 0) : Type 0 where
  pub opponent_rating : F
  pub opponent_deviation : F
  pub score : F

-- The bracket of the regula falsi: A, B, f(A) and f(B).
pub record Bracket (F : Type 0) : Type 0 where
  pub low : F
  pub high : F
  pub f_low : F
  pub f_high : F

module _ (fl : Float64) where
  open fl use {F, ratio, add, sub, mul, div, lt, le, sqrt, exp, log, abs, pi}

  abbrev pub one : F
  one = of_ℕ fl 1

  abbrev pub nil : F
  nil = of_ℕ fl 0

  abbrev pub two : F
  two = of_ℕ fl 2

  abbrev pub three : F
  three = of_ℕ fl 3

  abbrev pub scale : F
  scale = ratio 1737178 10000

  abbrev pub default_rating : F
  default_rating = of_ℕ fl 1500

  abbrev pub default_deviation : F
  default_deviation = of_ℕ fl 350

  abbrev pub tau : F
  tau = ratio 1 2

  abbrev pub convergence : F
  convergence = ratio 1 1000000

  abbrev square : F → F
  square x = mul x x

  unfoldable pub weight : F → F
  weight phi = div one (sqrt (add one (div (mul (mul three phi) phi) (square pi))))

  unfoldable pub expected : F → F → F → F
  unfolding weight
  expected mu mu_j phi_j = div one (add one (exp (mul (sub nil (weight phi_j)) (sub mu mu_j))))

  -- The function whose root is the logarithm of the new variance.
  unfoldable pub objective : F → F → F → F → F → F
  objective phi v delta a x =
      let ex = exp x in
      let num = mul ex (sub (sub (sub (square delta) (square phi)) v) ex) in
      let sum = add (add (square phi) v) ex in
      let den = mul (mul two sum) sum in sub (div num den) (div (sub x a) (square tau))

  -- `for f(a-k*tau) < 0 { k++ }`
  unfoldable pub walk_down : (F → F) → F → ℕ → F → Option F
  walk_down f a zero k = none
  walk_down f a (suc fuel) k =
      let rest = walk_down f a fuel (add k one) in
      if lt (f (sub a (mul k tau))) nil then rest else some (sub a (mul k tau))

  unfoldable pub illinois_step : (F → F) → Bracket F → Bracket F
  illinois_step f b =
      let c = add low (div (mul (sub low high) f_low) (sub f_high f_low)) in
      let fc = f c in
      if le (mul fc f_high) nil
      then record { low = high; high = c; f_low = f_high; f_high = fc }
      else record { low = low; high = c; f_low = div f_low two; f_high = fc }
    where
      open b use {low, high, f_low, f_high}

  unfoldable pub illinois : (F → F) → ℕ → Bracket F → Option F
  unfolding illinois_step
  illinois f zero b = none
  illinois f (suc fuel) b =
      let rest = illinois f fuel (illinois_step f b) in
      if lt convergence (abs (sub b.high b.low)) then rest else some b.low

  unfoldable pub new_volatility : ℕ → F → F → F → F → Option F
  unfolding objective walk_down illinois
  new_volatility fuel phi v delta sigma =
      let a = log (square sigma) in
      let f = objective phi v delta a in
      let spread = add (square phi) v in
      let far =
        if lt spread (square delta)
        then some (log (sub (sub (square delta) (square phi)) v))
        else walk_down f a fuel one in
      elim far [
        | none ↦ none
        | some b ↦
            elim (illinois f fuel (record { low = a; high = b; f_low = f a; f_high = f b })) [
              | none ↦ none
              | some root ↦ some (exp (div root two))
            ]
      ]

  unfoldable pub inverse_variance : F → F → List (GameResult F) → F
  unfolding expected
  inverse_variance mu acc [] = acc
  inverse_variance mu acc (r ∷ rs) =
      let mu_j = div (sub r.opponent_rating default_rating) scale in
      let phi_j = div r.opponent_deviation scale in
      let ej = expected mu mu_j phi_j in
      inverse_variance mu (add acc (mul (mul (mul (weight phi_j) (weight phi_j)) ej) (sub one ej)))
        rs

  unfoldable pub improvement : F → F → List (GameResult F) → F
  unfolding expected
  improvement mu acc [] = acc
  improvement mu acc (r ∷ rs) =
      let mu_j = div (sub r.opponent_rating default_rating) scale in
      let phi_j = div r.opponent_deviation scale in
      improvement mu (add acc (mul (weight phi_j) (sub r.score (expected mu mu_j phi_j)))) rs

  unfoldable pub idle_period : Player F → Player F
  idle_period p = record p {
    deviation = min_f fl (sqrt (add (square p.deviation) (square p.volatility))) default_deviation;
  }

  unfoldable pub update_period : ℕ → Player F → List (GameResult F) → Option (Player F)
  unfolding new_volatility inverse_variance improvement
  update_period fuel p results =
      let mu = div (sub p.rating default_rating) scale in
      let phi = div p.deviation scale in
      let v = div one (inverse_variance mu nil results) in
      let delta_sum = improvement mu nil results in
      elim (new_volatility fuel phi v (mul v delta_sum) p.volatility) [
        | none ↦ none
        | some sigma ↦
            let phi_star = sqrt (add (square phi) (square sigma)) in
            let phi' = div one (sqrt (add (div one (square phi_star)) (div one v))) in
            let mu' = add mu (mul (square phi') delta_sum) in
            some (record {
              rating = add (mul mu' scale) default_rating;
              deviation = mul phi' scale;
              volatility = sigma;
            })
      ]

  unfoldable pub update : ℕ → Player F → List (GameResult F) → Option (Player F)
  unfolding idle_period update_period
  update fuel p [] = some (idle_period p)
  update fuel p (r ∷ rs) = update_period fuel p (r ∷ rs)
