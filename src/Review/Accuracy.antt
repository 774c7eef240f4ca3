-- ===== src/Review/Accuracy.antt =====
-- The accuracy of a side and the worst moves of internal/review/review.go.
pub mod Worst
use blundernet.Base.{
  ℕ, suc, ◌+◌, ◌-◌, ◌/◌, Bool, true, false, not, List, [], ◌∷◌, length, take, drop, ltb, ◌==◌,
  if◌then◌else◌, keep, map,
}
use blundernet.Float.{Float64, max_f}
use blundernet.Review.{Move, num, round_tenth, is_error}

abbrev pub bool_eq : Bool → Bool → Bool
bool_eq true b = b
bool_eq false b = not b

-- The window of weightedByVolatility.
unfoldable pub window_of : ℕ → ℕ
window_of n = if ltb (n / 10) 2 then 2 else if ltb 8 (n / 10) then 8 else n / 10

module _ (fl : Float64) where
  open fl use {F, sub, mul, div, lt, sqrt}

  abbrev pub total_from : F → List F → F
  total_from sum [] = sum
  total_from sum (x ∷ xs) = total_from (fl.add sum x) xs

  unfoldable pub harmonic : List F → F
  harmonic v =
      div (num fl (length v))
        (total_from (num fl 0) (map (λ x. div (num fl 1) (max_f fl x (num fl 1))) v))

  unfoldable pub stdev : List F → F
  stdev v =
      if ltb (length v) 2
      then num fl 0
      else let mean = div (total_from (num fl 0) v) (num fl (length v)) in
        sqrt (
          div (total_from (num fl 0) (map (λ x. mul (sub x mean) (sub x mean)) v))
            (num fl (length v)))

  -- wins[max(0, i-window):min(len(wins), i+window+1)]
  abbrev pub around : ℕ → ℕ → List F → List F
  around window i wins =
      let high = if ltb (length wins) (i + window + 1) then length wins else i + window + 1 in
      take (high - (i - window)) (drop (i - window) wins)

  -- The loop over the accuracies from the i-th on.
  unfoldable pub weigh : ℕ → List F → ℕ → List F → F → F → F × F
  weigh window wins i [] total weighted = (total, weighted)
  weigh window wins i (a ∷ acc) total weighted =
      let w = max_f fl (stdev (around window i wins)) (fl.ratio 5 10) in
      weigh window wins (suc i) acc (fl.add total w) (fl.add weighted (mul w a))

  -- Whether a float is zero.
  abbrev pub is_zero : F → Bool
  is_zero x = if fl.le x (num fl 0) then fl.le (num fl 0) x else false

  unfoldable pub weighted_by_volatility : List F → List F → F
  weighted_by_volatility (a ∷ []) wins = a
  weighted_by_volatility acc wins =
      let (total, weighted) = weigh (window_of (length wins)) wins 0 acc (num fl 0) (num fl 0) in
      if is_zero total then harmonic acc else div weighted total

  abbrev pub of_side : Bool → List (Move fl) → List (Move fl)
  of_side white moves = keep (λ (m : Move fl). bool_eq m.white white) moves

  unfoldable pub side_accuracy : List (Move fl) → Bool → F
  side_accuracy moves white =
      let acc = map (λ (m : Move fl). m.accuracy) (of_side white moves) in
      let wins = map (λ (m : Move fl). m.win_before) (of_side white moves) in
      if length acc == 0
      then num fl 0
      else round_tenth fl (div (fl.add (harmonic acc) (weighted_by_volatility acc wins)) (num fl 2))

  abbrev pub drop_of : Move fl → F
  drop_of m = sub m.win_before m.win_after

  -- A stable insertion: before the first move that dropped less.
  unfoldable pub place : Move fl → List (Move fl) → List (Move fl)
  place m [] = m ∷ []
  place m (x ∷ xs) =
      let rest = x ∷ place m xs in if lt (drop_of m) (drop_of x) then rest else m ∷ x ∷ xs

  unfoldable pub by_drop : List (Move fl) → List (Move fl)
  by_drop [] = []
  by_drop (m ∷ ms) = place m (by_drop ms)

  unfoldable pub worst : List (Move fl) → List (Move fl)
  worst moves = take 4 (by_drop (keep (λ (m : Move fl). is_error m.judgement) moves))
