-- ===== src/Engine/Search/Run.antt =====
-- The search of internal/engine/mcts.go: a simulation, the loop of simulations, the choice at the
-- root and the answer. One simulation makes at most one call of the network, and the expansion of
-- the root is call 0. A random number is a parameter.
use blundernet.Base.{ℕ, zero, suc, ◌-◌, Text, List, [], ◌∷◌, Option, none, some, if◌then◌else◌}
use blundernet.Base.Int.{ℤ}
use blundernet.Chess.{is_mate}
use blundernet.Float.{Float64, of_ℕ}
use blundernet.Review.{Boards}
use blundernet.Engine.Encode.{Squares, move_index, index_uci}
use blundernet.Engine.Levels.{settings}
use blundernet.Engine.Search.{
  Outcome, done, failed, panicked, and_then, Node, node, Kids, nil, cons, Network, visits_of, count,
  move_at, most_visited, selected, terminal_value, credit, expand, settle,
}

module _ (boards : Boards) (squares : Squares boards) (fl : Float64) where
  open boards use {Position, ChessMove, valid_moves, update, status, parse_fen}
  open fl use {F, ratio, add, sub, mul, div, lt, le, pow}

  -- c_puct of NewMCTS.
  abbrev pub c_puct : F
  c_puct = ratio 15 10

  unfoldable pub first_mate : Position → List ChessMove → Option ChessMove
  first_mate p [] = none
  first_mate p (m ∷ ms) =
      let rest = first_mate p ms in if is_mate (status (update p m)) then some m else rest

  -- The weights of pickRoot above temperature zero, and the loop that samples one.
  unfoldable pub weights : F → Kids ChessMove F → List F
  weights temp nil = []
  weights temp (cons m n rest) =
      pow (add (of_ℕ fl (visits_of n)) (of_ℕ fl 1)) (div (of_ℕ fl 1) temp) ∷ weights temp rest

  unfoldable pub total_from : F → List F → F
  total_from total [] = total
  total_from total (w ∷ ws) = total_from (add total w) ws

  unfoldable pub sample : List F → ℕ → F → Option ℕ
  sample [] i r = none
  sample (w ∷ ws) i r = let rest = sample ws (suc i) (sub r w) in if lt r w then some i else rest

  unfoldable pub pick_root : F → F → Kids ChessMove F → ℕ
  pick_root rand temp kids =
      if le temp (of_ℕ fl 0)
      then most_visited kids
      else elim (sample (weights temp kids) 0
          (mul rand (total_from (of_ℕ fl 0) (weights temp kids)))) [
            | none ↦ count kids - 1
            | some i ↦ i
          ]

  module _ (network : Network Position F) where
    open network use {evaluate}

    -- Select, expand and backpropagate below a node: the node with its children up to date, and the
    -- value for it. `walk` goes to the child with the index i.
    unfoldable mutual
      pub simulate : ℕ → Position → Node ChessMove F → Outcome (Node ChessMove F × F)
      simulate s p (node st nil) = settle boards squares fl network s p st
      simulate s p (node st (cons m n rest)) =
          and_then (walk s p (selected boards squares fl c_puct st (cons m n rest)) (cons m n rest))
            (λ r. done (node st r.0, r.1))

      pub walk : ℕ → Position → ℕ → Kids ChessMove F → Outcome (Kids ChessMove F × F)
      walk s p i nil = panicked
      walk s p zero (cons m n rest) =
          and_then (simulate s (update p m) n)
            (λ r. let c = credit boards squares fl r in done (cons m c.0 rest, c.1))
      walk s p (suc i) (cons m n rest) = and_then (walk s p i rest) (λ r. done (cons m n r.0, r.1))

    -- root.visits++
    abbrev pub count_root : Node ChessMove F → Node ChessMove F
    count_root (node st kids) = node (record st { visits = suc st.visits }) kids

    -- n simulations, the next one being the s-th.
    unfoldable pub simulations : ℕ → ℕ → Position → Node ChessMove F → Outcome (Node ChessMove F)
    simulations zero s p root = done root
    simulations (suc n) s p root =
        and_then (simulate s p root) (λ r. simulations n (suc s) p (count_root r.0))

    abbrev pub root_with : Kids ChessMove F → Node ChessMove F
    root_with kids = node (record { prior = of_ℕ fl 0; visits = 0; value_sum = of_ℕ fl 0 }) kids

    abbrev pub said : Position → Option ChessMove → Outcome Text
    said p none = panicked
    said p (some m) = done (index_uci boards squares (move_index boards squares m) p)

    unfoldable pub answer : F → F → Position → Node ChessMove F → Outcome Text
    answer rand temp p (node st kids) = said p (move_at kids (pick_root rand temp kids))

    unfoldable pub grow : ℕ → Position → Outcome (Node ChessMove F)
    grow sims p =
        and_then (expand boards squares fl network 0 p) (λ r. simulations sims 1 p (root_with r.0))

    abbrev pub probed : ℕ → F → F → Position → Option ChessMove → Outcome Text
    probed sims temp rand p (some m) =
        done (index_uci boards squares (move_index boards squares m) p)
    probed sims temp rand p none = and_then (grow sims p) (answer rand temp p)

    unfoldable pub search_at : ℕ → F → F → Position → Outcome Text
    search_at sims temp rand p = probed sims temp rand p (first_mate p (valid_moves p))

    abbrev pub guarded : ℕ → F → F → Position → List ChessMove → Outcome Text
    guarded sims temp rand p [] = failed
    guarded sims temp rand p (m ∷ ms) = search_at sims temp rand p

    abbrev pub search_from : ℕ → F → F → Option Position → Outcome Text
    search_from sims temp rand none = failed
    search_from sims temp rand (some p) = guarded sims temp rand p (valid_moves p)

    unfoldable pub search : ℕ → F → F → Text → Outcome Text
    search sims temp rand fen = search_from sims temp rand (parse_fen fen)

    -- The engine that NewMCTS builds, with its number of simulations.
    unfoldable pub best_move : ℕ → F → Text → Outcome Text
    best_move sims rand fen = search sims (of_ℕ fl 0) rand fen

    unfoldable pub best_move_at : ℤ → F → Text → Outcome Text
    best_move_at level rand fen = let cfg = settings fl level in search cfg.sims cfg.temp rand fen

    unfoldable pub score : Text → Outcome F
    score fen = elim (parse_fen fen) [
      | none ↦ failed
      | some p ↦ elim (terminal_value boards squares fl p) [
        | some v ↦ done v
        | none ↦ elim (evaluate 0 p) [ none ↦ failed | some r ↦ done r.1 ]
      ]
    ]
