-- ===== src/Engine/Search/Visits.antt =====
-- The tree that the simulations of internal/engine/mcts.go build: its moves and its visits.
use blundernet.Base.{ℕ, zero, suc, ◌+◌, ◌<◌, ◌≡◌, refl, ap, subst, ◌∙◌, ◌∷◌, length, arith}
use blundernet.Float.{Float64}
use blundernet.Review.{Boards}
use blundernet.Engine.Encode.{Squares}
use blundernet.Engine.Search.{
  done, Stats, Node, node, Kids, nil, cons, Network, stats, children, visits_of, count, selected,
  credit, expand,
}
use blundernet.Engine.Search.Run.{c_puct, simulate, walk, count_root, simulations, root_with, grow}
use blundernet.Engine.Search.Settling.{
  sum_visits, moves_of, Good, AllGood, Ends, and_then-Ends, selected_lt, Fresh, expand-Fresh,
  Settled, settle-Settled,
}

module _ (boards : Boards) (squares : Squares boards) (fl : Float64) where
  open boards use {Position, ChessMove, valid_moves, update}
  open fl use {F, lt}

  module _ (network : Network Position F) where
    open network use {Logit, evaluate}

    -- What a walk does to the children at p: one visit more, the same moves.
    abbrev Grown : Position → Kids ChessMove F → Kids ChessMove F × F → Type 0
    Grown p kids r =
        (moves_of r.0 ≡ moves_of kids)
        × (sum_visits r.0 ≡ suc (sum_visits kids))
        × AllGood boards squares fl p r.0

    grown-Good :
        (p : Position) (st : Stats F) (kids : Kids ChessMove F)
        → 0 < sum_visits kids
        → st.visits ≡ suc (sum_visits kids)
        → moves_of kids ≡ valid_moves p
        → AllGood boards squares fl p kids
        → Good boards squares fl p (node st kids)
    unfolding Good
    grown-Good p st nil h v e g = absurd (ground (arith, h))
    grown-Good p st (cons m n rest) h v e g = (v, e, g)

    credit_visits :
        (r : Node ChessMove F × F) → visits_of (credit boards squares fl r).0 ≡ suc (visits_of r.0)
    unfolding credit
    credit_visits (node st kids, v) = refl

    mutual
      unfolding simulate walk credit Good AllGood count

      simulate-Settled :
          (s : ℕ) (p : Position) (n : Node ChessMove F)
          → Good boards squares fl p n
          → Ends boards squares fl network
              (Settled boards squares fl network p (stats n))
              (simulate boards squares fl network s p n)
      simulate-Settled s p (node st nil) g = settle-Settled boards squares fl network s p st g
      simulate-Settled s p (node st (cons m n rest)) (v, e, g) =
          let kids = cons m n rest in
          let i = selected boards squares fl (c_puct boards squares fl) st kids in
          and_then-Ends boards squares fl network (Grown p kids)
            (Settled boards squares fl network p st) (walk boards squares fl network s p i kids)
            (λ r. done (node st r.0, r.1))
            (walk-Grown s p i (cons m n rest) g (
              selected_lt boards squares fl network (c_puct boards squares fl) st kids
                (omega arith)))
            (λ r (mv, sv, ag). (
              refl,
              grown-Good p
                  (record st { visits = suc st.visits; value_sum = fl.add st.value_sum r.1 }) r.0
                  (omega (arith, sv)) (omega (arith, sv, v)) (mv ∙ e) ag,
            ))

      walk-Grown :
          (s : ℕ) (p : Position) (i : ℕ) (kids : Kids ChessMove F)
          → AllGood boards squares fl p kids
          → i < count kids
          → Ends boards squares fl network
              (Grown p kids)
              (walk boards squares fl network s p i kids)
      walk-Grown s p i nil g h = absurd (ground (arith, h))
      walk-Grown s p zero (cons m n rest) (g, gs) h =
          and_then-Ends boards squares fl network
            (Settled boards squares fl network (update p m) (stats n)) (Grown p (cons m n rest))
            (simulate boards squares fl network s (update p m) n)
            (λ r. let c = credit boards squares fl r in done (cons m c.0 rest, c.1))
            (simulate-Settled s (update p m) n g)
            (λ r (same, good).
              (refl, omega (arith, credit_visits r, ap (λ st. st.visits) same), (good, gs)))
      walk-Grown s p (suc i) (cons m n rest) (g, gs) h =
          and_then-Ends boards squares fl network (Grown p rest) (Grown p (cons m n rest))
            (walk boards squares fl network s p i rest) (λ r. done (cons m n r.0, r.1))
            (walk-Grown s p i rest gs (omega (arith, h)))
            (λ r (mv, sv, ag). (ap (λ l. m ∷ l) mv, omega (arith, sv), (g, ag)))

    -- The root after n simulations.
    pub record Rooted (n : ℕ) (p : Position) (root : Node ChessMove F) : Type 0 where
      pub visits : visits_of root ≡ n
      pub spread : sum_visits (children root) ≡ n
      pub moves : moves_of (children root) ≡ valid_moves p
      pub good : AllGood boards squares fl p (children root)

    module _ (p : Position) (some_move : 0 < length (valid_moves p)) where
      simulate-Rooted :
          (s k : ℕ) (root : Node ChessMove F)
          → Rooted k p root
          → Ends boards squares fl network
              (λ r. Rooted (suc k) p (count_root boards squares fl network r.0))
              (simulate boards squares fl network s p root)
      unfolding simulate count
      simulate-Rooted s k (node st nil) h = absurd (ground (arith, some_move, ap length h.moves))
      simulate-Rooted s k (node st (cons m n rest)) h =
          let i = selected boards squares fl (c_puct boards squares fl) st (cons m n rest) in
          and_then-Ends boards squares fl network (Grown p (cons m n rest))
            (λ r. Rooted (suc k) p (count_root boards squares fl network r.0))
            (walk boards squares fl network s p i (cons m n rest)) (λ r. done (node st r.0, r.1))
            (walk-Grown s p i (cons m n rest) h.good (
              selected_lt boards squares fl network (c_puct boards squares fl) st (cons m n rest)
                (omega arith)))
            (λ r (mv, sv, ag). record {
              visits = omega (arith, h.visits);
              spread = omega (arith, sv, h.spread);
              moves = mv ∙ h.moves;
              good = ag;
            })

      simulations-Rooted :
          (n s k : ℕ) (root : Node ChessMove F)
          → Rooted k p root
          → Ends boards squares fl network
              (Rooted (k + n) p)
              (simulations boards squares fl network n s p root)
      unfolding simulations
      simulations-Rooted zero s k root h = subst (λ j. Rooted j p root) (omega arith) h
      simulations-Rooted (suc n) s k root h =
          and_then-Ends boards squares fl network
            (λ r. Rooted (suc k) p (count_root boards squares fl network r.0))
            (Rooted (k + suc n) p) (simulate boards squares fl network s p root) _
            (simulate-Rooted s k root h)
            (λ r g.
              subst
                (λ j. Ends boards squares fl network (Rooted j p) (
                  simulations boards squares fl network n (suc s) p
                    (count_root boards squares fl network r.0)))
                (omega arith)
                (simulations-Rooted n (suc s) (suc k) (count_root boards squares fl network r.0) g))

      pub grow-Rooted :
          (sims : ℕ)
          → Ends boards squares fl network (Rooted sims p) (grow boards squares fl network sims p)
      unfolding grow
      grow-Rooted sims =
          and_then-Ends boards squares fl network
            (λ r. Fresh boards squares fl network p (valid_moves p) r.0) (Rooted sims p)
            (expand boards squares fl network 0 p) _ (expand-Fresh boards squares fl network 0 p)
            (λ r (mv, sv, ag).
              subst
                (λ j. Ends boards squares fl network (Rooted j p) (
                  simulations boards squares fl network sims 1 p
                    (root_with boards squares fl network r.0)))
                (omega arith)
                (simulations-Rooted sims 1 0 (root_with boards squares fl network r.0)
                  (record { visits = refl; spread = sv; moves = mv; good = ag })))
