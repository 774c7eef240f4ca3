-- ===== src/Float.antt =====
-- float64 and the functions of Go's package math that the program uses, as a parameter: the type,
-- its operations and no law. `ratio a b` is the literal a / b.
use blundernet.Base.{ℕ, Bool, if◌then◌else◌}

pub record Float64 : Type 1 where
  pub F : Type 0
  pub ratio : ℕ → ℕ → F
  pub add : F → F → F
  pub sub : F → F → F
  pub mul : F → F → F
  pub div : F → F → F
  pub lt : F → F → Bool
  pub le : F → F → Bool
  pub sqrt : F → F
  pub exp : F → F
  pub log : F → F
  pub abs : F → F
  pub round : F → F
  pub pow : F → F → F
  pub neg : F → F
  pub neg_inf : F
  pub pi : F

module _ (fl : Float64) where
  open fl use {F, ratio}

  -- An integer constant or a converted int that is not negative.
  abbrev pub of_ℕ : ℕ → F
  of_ℕ n = ratio n 1

  -- math.Min and math.Max, away from NaN.
  abbrev pub min_f : F → F → F
  min_f a b = if fl.lt b a then b else a

  abbrev pub max_f : F → F → F
  max_f a b = if fl.lt a b then b else a
