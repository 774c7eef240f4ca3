-- ===== src/Engine/Search.antt =====
-- internal/engine/mcts.go: the tree search. The network is a parameter; the s-th call of it may
-- answer what it likes.
pub mod Run
pub mod Settling
pub mod Visits
pub mod Pick
pub mod Answer
use blundernet.Base.{
  ℕ, zero, suc, ◌+◌, ◌-◌, Text, Bool, true, false, List, [], ◌∷◌, length, map, Option, none, some,
  ltb, ◌==◌, if◌then◌else◌,
}
use blundernet.Base.Int.{ℤ}
use blundernet.Chess.{Method, checkmate, stalemate}
use blundernet.Float.{Float64, of_ℕ}
use blundernet.Review.{Boards}
use blundernet.Engine.Encode.{Squares, move_index, index_uci}
use blundernet.Engine.Levels.{settings}

-- A call that ends with a result, with an error, or with an index out of range.
pub data Outcome {ℓ} (A : Type ℓ) : Type ℓ where
  done : A → Outcome A
  failed : Outcome A
  panicked : Outcome A

module _ {ℓ κ} {A : Type ℓ} {B : Type κ} where
  unfoldable pub and_then : Outcome A → (A → Outcome B) → Outcome B
  and_then (done a) f = f a
  and_then failed f = failed
  and_then panicked f = panicked

-- The fields of a node that are numbers.
pub record Stats (F : Type 0) : Type 0 where
  pub prior : F
  pub visits : ℕ
  pub value_sum : F

-- A node, whose children stand beside the moves that lead to them.
mutual
  pub data Node (M F : Type 0) : Type 0 where
    node : Stats F → Kids M F → Node M F

  pub data Kids (M F : Type 0) : Type 0 where
    nil : Kids M F
    cons : M → Node M F → Kids M F → Kids M F

-- float32 and the network: Evaluate on its s-th call, which answers a logit for each index of the
-- policy and the value as a float64.
pub record Network (Position F : Type 0) : Type 1 where
  pub Logit : Type 0
  pub lowest : Logit
  pub above : Logit → Logit → Bool
  pub minus : Logit → Logit → F
  pub evaluate : ℕ → Position → Option ((ℕ → Logit) × F)

module _ {M F : Type 0} where
  abbrev pub stats : Node M F → Stats F
  stats (node st kids) = st

  abbrev pub children : Node M F → Kids M F
  children (node st kids) = kids

  abbrev pub visits_of : Node M F → ℕ
  visits_of n = (stats n).visits

  unfoldable pub count : Kids M F → ℕ
  count nil = 0
  count (cons m n rest) = suc (count rest)

  unfoldable pub move_at : Kids M F → ℕ → Option M
  move_at nil i = none
  move_at (cons m n rest) zero = some m
  move_at (cons m n rest) (suc i) = move_at rest i

  -- The loop of pickRoot for the most visits, from child i on.
  unfoldable pub most_from : Kids M F → ℕ → ℕ × ℕ → ℕ
  most_from nil i (best, visits) = best
  most_from (cons m n rest) i (best, visits) =
      most_from rest (suc i) (if ltb visits (visits_of n) then (i, visits_of n) else (best, visits))

  unfoldable pub most_visited : Kids M F → ℕ
  most_visited nil = 0
  most_visited (cons m n rest) = most_from (cons m n rest) 0 (0, visits_of n)

module _ (boards : Boards) (squares : Squares boards) (fl : Float64) where
  open boards use {Position, ChessMove, valid_moves, update, status, parse_fen}
  open fl use {F, ratio, add, mul, div, lt, le, sqrt, exp, pow, neg, neg_inf}

  abbrev pub Tree : Type 0
  Tree = Node ChessMove F

  abbrev pub Branches : Type 0
  Branches = Kids ChessMove F

  unfoldable pub q : Stats F → F
  q st = if st.visits == 0 then of_ℕ fl 0 else div st.value_sum (of_ℕ fl st.visits)

  abbrev pub value_of : Method → Option F
  value_of checkmate = some (neg (of_ℕ fl 1))
  value_of stalemate = some (of_ℕ fl 0)
  value_of _ = none

  unfoldable pub terminal_value : Position → Option F
  terminal_value p = value_of (status p)

  -- The score of a child, with the square root for its parent.
  unfoldable pub puct : F → F → Stats F → F
  puct c_puct sqrt_n st =
      add (neg (q st)) (div (mul (mul c_puct st.prior) sqrt_n) (of_ℕ fl (1 + st.visits)))

  unfoldable pub best_from : F → F → Branches → ℕ → ℕ × F → ℕ
  best_from c_puct sqrt_n nil i (best, score) = best
  best_from c_puct sqrt_n (cons m n rest) i (best, score) = best_from c_puct sqrt_n rest (suc i) (
      if lt score (puct c_puct sqrt_n (stats n))
      then (i, puct c_puct sqrt_n (stats n))
      else (best, score))

  unfoldable pub selected : F → Stats F → Branches → ℕ
  selected c_puct st kids =
      best_from c_puct (sqrt (add (of_ℕ fl st.visits) (of_ℕ fl 1))) kids 0 (0, neg_inf)

  -- Backpropagation through one node of the path: the node and the value for its parent.
  unfoldable pub credit : Tree × F → Tree × F
  credit (node st kids, v) =
      (node (record st { visits = suc st.visits; value_sum = add st.value_sum v }) kids, neg v)

  module _ (network : Network Position F) where
    open network use {Logit, lowest, above, minus, evaluate}

    abbrev pub Policy : Type 0
    Policy = ℕ → Logit

    unfoldable pub max_logit : Policy → List ChessMove → Logit → Logit
    max_logit policy [] top = top
    max_logit policy (m ∷ ms) top =
        let l = policy (move_index boards squares m) in
        max_logit policy ms (if above l top then l else top)

    abbrev pub weight : Policy → Logit → ChessMove → F
    weight policy top m = exp (minus (policy (move_index boards squares m)) top)

    unfoldable pub sum_from : F → List F → F
    sum_from sum [] = sum
    sum_from sum (w ∷ ws) = sum_from (add sum w) ws

    unfoldable pub new_children : Policy → Logit → F → List ChessMove → Branches
    new_children policy top sum [] = nil
    new_children policy top sum (m ∷ ms) =
        cons m
          (node
            (record { prior = div (weight policy top m) sum; visits = 0; value_sum = of_ℕ fl 0 })
            nil)
          (new_children policy top sum ms)

    abbrev pub branches : Policy → List ChessMove → Branches
    branches policy ms =
        let top = max_logit policy ms lowest in
        new_children policy top (sum_from (of_ℕ fl 0) (map (weight policy top) ms)) ms

    abbrev pub after_evaluate : Position → Option (Policy × F) → Outcome (Branches × F)
    after_evaluate p none = failed
    after_evaluate p (some (policy, v)) = done (branches policy (valid_moves p), v)

    unfoldable pub expand : ℕ → Position → Outcome (Branches × F)
    expand s p = after_evaluate p (evaluate s p)

    -- Expand and evaluate, at a node that has no children.
    abbrev pub settle_at : ℕ → Position → Stats F → Option F → Outcome (Tree × F)
    settle_at s p st (some v) = done (node st nil, v)
    settle_at s p st none = and_then (expand s p) (λ r. done (node st r.0, r.1))

    unfoldable pub settle : ℕ → Position → Stats F → Outcome (Tree × F)
    settle s p st = settle_at s p st (terminal_value p)
