-- ===== src/Engine/Search/Settling.antt =====
-- The node that a simulation of internal/engine/mcts.go ends at, and the outcomes of calls.
use blundernet.Base.{
  ℕ, suc, ◌+◌, ◌≤◌, ◌<◌, ◌≡◌, ◌⊎◌, inl, inr, refl, sym, ap, ◌∙◌, List, [], ◌∷◌, Option, none, some,
  arith, if-cases,
}
use blundernet.Float.{Float64}
use blundernet.Review.{Boards}
use blundernet.Engine.Encode.{Squares}
use blundernet.Engine.Search.{
  Outcome, done, failed, panicked, and_then, Stats, Node, node, Kids, nil, cons, Network, stats,
  visits_of, count, best_from, puct, selected, terminal_value, credit, new_children, after_evaluate,
  expand, settle_at, settle,
}

module _ {M F : Type 0} where
  abbrev pub sum_visits : Kids M F → ℕ
  sum_visits nil = 0
  sum_visits (cons m n rest) = visits_of n + sum_visits rest

  abbrev pub moves_of : Kids M F → List M
  moves_of nil = []
  moves_of (cons m n rest) = m ∷ moves_of rest

module _ (boards : Boards) (squares : Squares boards) (fl : Float64) where
  open boards use {Position, ChessMove, valid_moves, update}
  open fl use {F, lt}

  -- A position whose node never has children.
  abbrev pub Final : Position → Type 0
  Final p = ((v : F) × (terminal_value boards squares fl p ≡ some v)) ⊎ (valid_moves p ≡ [])

  -- A node below the root. Without children it is new, or its position is final. With children it
  -- has one visit more than they have together, and their moves are the legal ones.
  unfoldable mutual
    pub Good : Position → Node ChessMove F → Type 0
    Good p (node st nil) = (st.visits ≡ 0) ⊎ Final p
    Good p (node st (cons m n rest)) =
        (st.visits ≡ suc (sum_visits (cons m n rest)))
        × (moves_of (cons m n rest) ≡ valid_moves p)
        × AllGood p (cons m n rest)

    pub AllGood : Position → Kids ChessMove F → Type 0
    AllGood p nil = Unit {0}
    AllGood p (cons m n rest) = Good (update p m) n × AllGood p rest

  module _ (network : Network Position F) where
    open network use {Logit, evaluate}

    -- The outcome is a result with the property, or the error of a call of the network: never an
    -- index out of range.
    abbrev pub Ends : {A : Type 0} → (A → Type 0) → Outcome A → Type 0
    Ends P (done a) = P a
    Ends P failed = (s : ℕ) × (p : Position) × (evaluate s p ≡ none)
    Ends P panicked = ⊥

    pub and_then-Ends :
        {A B : Type 0} (P : A → Type 0) (Q : B → Type 0) (o : Outcome A) (f : A → Outcome B)
        → Ends P o
        → ((a : A) → P a → Ends Q (f a))
        → Ends Q (and_then o f)
    unfolding and_then
    and_then-Ends P Q (done a) f h k = k a h
    and_then-Ends P Q failed f h k = h
    and_then-Ends P Q panicked f h k = absurd h

    pub map-Ends :
        {A : Type 0} (P Q : A → Type 0) (o : Outcome A)
        → Ends P o
        → ((a : A) → P a → Q a)
        → Ends Q o
    map-Ends P Q (done a) h k = k a h
    map-Ends P Q failed h k = h
    map-Ends P Q panicked h k = h

    best_from_lt :
        (c r : F) (kids : Kids ChessMove F) (i best : ℕ) (score : F) (top : ℕ)
        → best < top
        → i + count kids ≤ top
        → best_from boards squares fl c r kids i (best, score) < top
    unfolding best_from count
    best_from_lt c r nil i best score top h k = h
    best_from_lt c r (cons m n rest) i best score top h k =
        if-cases (lt score (puct boards squares fl c r (stats n)))
          (λ b. best_from boards squares fl c r rest (suc i) b < top)
          (λ _.
            best_from_lt c r rest (suc i) i (puct boards squares fl c r (stats n)) top
              (omega (arith, k)) (omega (arith, k)))
          (λ _. best_from_lt c r rest (suc i) best score top h (omega (arith, k)))

    pub selected_lt :
        (c : F) (st : Stats F) (kids : Kids ChessMove F)
        → 0 < count kids
        → selected boards squares fl c st kids < count kids
    unfolding selected
    selected_lt c st kids h = best_from_lt c _ kids 0 0 fl.neg_inf (count kids) h (omega arith)

    -- The children of an expansion.
    abbrev pub Fresh : Position → List ChessMove → Kids ChessMove F → Type 0
    Fresh p ms kids = (moves_of kids ≡ ms) × (sum_visits kids ≡ 0) × AllGood p kids

    new_children-Fresh :
        (policy : ℕ → Logit) (top : Logit) (sum : F) (p : Position) (ms : List ChessMove)
        → Fresh p ms (new_children boards squares fl network policy top sum ms)
    unfolding new_children AllGood
    new_children-Fresh policy top sum p [] = (refl, refl, tt)
    new_children-Fresh policy top sum p (m ∷ ms) =
        let (moves, visits, good) = new_children-Fresh policy top sum p ms in
        (ap (λ l. m ∷ l) moves, omega (arith, visits), (inl refl, good))

    pub expand-Fresh :
        (s : ℕ) (p : Position)
        → Ends (λ r. Fresh p (valid_moves p) r.0) (expand boards squares fl network s p)
    unfolding expand
    expand-Fresh s p = at (evaluate s p) refl
      where
        at :
            (o : Option ((ℕ → Logit) × F))
            → evaluate s p ≡ o
            → Ends (λ r. Fresh p (valid_moves p) r.0) (after_evaluate boards squares fl network p o)
        at none e = (s, p, e)
        at (some (policy, v)) e = new_children-Fresh policy _ _ p (valid_moves p)

    -- What a simulation does to a node at p: it is good once it is credited.
    abbrev pub Settled : Position → Stats F → Node ChessMove F × F → Type 0
    Settled p st r = (stats r.0 ≡ st) × Good p (credit boards squares fl r).0

    Fresh-Good :
        (p : Position) (st : Stats F) (x : F) (kids : Kids ChessMove F)
        → Fresh p (valid_moves p) kids
        → (st.visits ≡ 0) ⊎ Final p
        → terminal_value boards squares fl p ≡ none
        → Good p (node (record st { visits = suc st.visits; value_sum = x }) kids)
    unfolding Good
    Fresh-Good p st x nil (moves, visits, good) h e = inr (inr (sym moves))
    Fresh-Good p st x (cons m n rest) (moves, visits, good) h e = (counted h, moves, good)
      where
        counted : (st.visits ≡ 0) ⊎ Final p → suc st.visits ≡ suc (sum_visits (cons m n rest))
        counted (inl none_yet) = omega (arith, none_yet, visits)
        counted (inr (inl (v, over))) = absurd (some_none (sym over ∙ e))
          where
            some_none : some v ≡ none → ⊥
            some_none h = ground (arith, h)
        counted (inr (inr stuck)) = absurd (cons_nil (moves ∙ stuck))
          where
            cons_nil : m ∷ moves_of rest ≡ [] → ⊥
            cons_nil h = ground (arith, h)

    pub settle-Settled :
        (s : ℕ) (p : Position) (st : Stats F)
        → (st.visits ≡ 0) ⊎ Final p
        → Ends (Settled p st) (settle boards squares fl network s p st)
    unfolding settle credit Good
    settle-Settled s p st h = at (terminal_value boards squares fl p) refl
      where
        at :
            (o : Option F)
            → terminal_value boards squares fl p ≡ o
            → Ends (Settled p st) (settle_at boards squares fl network s p st o)
        at (some v) e = (refl, inr (inl (v, e)))
        at none e =
            and_then-Ends (λ r. Fresh p (valid_moves p) r.0) (Settled p st)
              (expand boards squares fl network s p) (λ r. done (node st r.0, r.1))
              (expand-Fresh s p)
              (λ r fresh. (refl, Fresh-Good p st (fl.add st.value_sum r.1) r.0 fresh h e))
