-- ===== src/Engine/Search/Answer.antt =====
-- What the search of internal/engine/mcts.go answers.
use blundernet.Base.{
  ℕ, suc, ◌<◌, ◌≡◌, refl, sym, ap, subst, ◌∙◌, Text, true, false, List, [], ◌∷◌, length, Option,
  none, some, arith, clash, if-cases,
}
use mathlib.Core.List.{Memᴰ}
use mathlib.Core.List.Memᴰ.{head, tail}
use blundernet.Chess.{is_mate}
use blundernet.Float.{Float64, of_ℕ}
use blundernet.Review.{Boards}
use blundernet.Engine.Encode.{Squares, move_index, index_uci}
use blundernet.Engine.Encode.Folding.{Documented, index_uci-move_index}
use blundernet.Engine.Search.{
  Outcome, done, failed, panicked, and_then, Node, node, Kids, nil, cons, Network, children,
  visits_of, count, move_at, most_visited,
}
use blundernet.Engine.Search.Run.{
  first_mate, pick_root, said, answer, probed, grow, search_at, guarded, search_from, search,
}
use blundernet.Engine.Search.Pick.{
  child_at, AllLe, most_visited-Winner, child-move, child_below, pick_root_lt, pick_root_zero,
}
use blundernet.Engine.Search.Settling.{moves_of, Ends, and_then-Ends, map-Ends}
use blundernet.Engine.Search.Visits.{Rooted, grow-Rooted}

Mem_some : {A : Type 0} (a : A) (xs : List A) → Memᴰ a xs → 0 < length xs
Mem_some a [] k = elim k [ ]
Mem_some a (x ∷ xs) k = omega arith

module _ (boards : Boards) (squares : Squares boards) (fl : Float64) where
  open boards use {Position, ChessMove, valid_moves, update, status, uci, parse_fen}
  open fl use {F, le}

  abbrev pub Mating : Position → ChessMove → Type 0
  Mating p m = is_mate (status (update p m)) ≡ true

  abbrev Probe : Position → List ChessMove → Option ChessMove → Type 0
  Probe p ms none = (m : ChessMove) → Memᴰ m ms → Mating p m → ⊥
  Probe p ms (some w) = Memᴰ w ms × Mating p w

  first_mate-Probe :
      (p : Position) (ms : List ChessMove) → Probe p ms (first_mate boards squares fl p ms)
  unfolding first_mate
  first_mate-Probe p [] = λ m k h. elim k [ ]
  first_mate-Probe p (n ∷ ms) =
      if-cases (is_mate (status (update p n))) (Probe p (n ∷ ms)) (λ yes. (head refl, yes))
        (λ quiet. later quiet (first_mate boards squares fl p ms) (first_mate-Probe p ms))
    where
      later :
          is_mate (status (update p n)) ≡ false
          → (o : Option ChessMove) → Probe p ms o
          → Probe p (n ∷ ms) o
      later quiet (some w) (k, h) = (tail k, h)
      later quiet none h =
          λ m k y. elim k [ head e ↦ clash (subst (λ c. Mating p c) e y) quiet | tail d ↦ h m d y ]

  length-moves_of : (kids : Kids ChessMove F) → length (moves_of kids) ≡ count kids
  unfolding count
  length-moves_of nil = refl
  length-moves_of (cons m n rest) = ap suc (length-moves_of rest)

  -- The answer is the text of a legal move.
  abbrev pub Plays : Position → Text → Type 0
  Plays p u =
      (m : ChessMove) × Memᴰ m (valid_moves p)
      × (u ≡ index_uci boards squares (move_index boards squares m) p)

  -- The answer is the UCI text of a legal move.
  abbrev pub Legal : Position → Text → Type 0
  Legal p u = (m : ChessMove) × Memᴰ m (valid_moves p) × (u ≡ uci p m)

  module _ (network : Network Position F) where
    -- The move of the child with the most visits, in the tree of all simulations.
    pub record MostVisited (sims : ℕ) (p : Position) (u : Text) : Type 0 where
      pub root : Node ChessMove F
      pub grown : grow boards squares fl network sims p ≡ done root
      pub rooted : Rooted boards squares fl network sims p root
      pub index : ℕ
      pub move : ChessMove
      pub child : Node ChessMove F
      pub at : child_at (children root) index ≡ some (move, child)
      pub most : AllLe (visits_of child) (children root)
      pub text : u ≡ index_uci boards squares (move_index boards squares move) p

    guarded_some :
        (sims : ℕ) (temp rand : F) (p : Position) (ms : List ChessMove)
        → 0 < length ms
        → guarded boards squares fl network sims temp rand p ms
          ≡ search_at boards squares fl network sims temp rand p
    guarded_some sims temp rand p [] h = absurd (omega (arith, h))
    guarded_some sims temp rand p (m ∷ ms) h = refl

    -- The search of a position that has legal moves.
    search_legal :
        (sims : ℕ) (temp rand : F) (fen : Text) (p : Position)
        → parse_fen fen ≡ some p
        → 0 < length (valid_moves p)
        → search boards squares fl network sims temp rand fen
          ≡ search_at boards squares fl network sims temp rand p
    unfolding search
    search_legal sims temp rand fen p e h =
        ap (search_from boards squares fl network sims temp rand) e
        ∙ guarded_some sims temp rand p (valid_moves p) h

    answer-Plays :
        (sims : ℕ) (temp rand : F) (p : Position) (root : Node ChessMove F)
        → 0 < length (valid_moves p)
        → Rooted boards squares fl network sims p root
        → Ends boards squares fl network
            (Plays p)
            (answer boards squares fl network rand temp p root)
    unfolding answer
    answer-Plays sims temp rand p (node st kids) h r =
        let below =
          pick_root_lt boards squares fl rand temp kids
            (omega (arith, h, length-moves_of kids, ap length r.moves)) in
        let (m, n, e) = child_below kids (pick_root boards squares fl rand temp kids) below in
        let (at, k) = child-move kids (pick_root boards squares fl rand temp kids) m n e in
        subst (λ o. Ends boards squares fl network (Plays p) (said boards squares fl network p o))
          (sym at) (m, subst (λ l. Memᴰ m l) r.moves k, refl)

    -- If the FEN is a position with a legal move, then a search with any number of simulations,
    -- temperature and random number either fails, which takes a call that the network fails on,
    -- or answers the text of the index of a legal move; it never reads a child that does not
    -- exist.
    pub search-Plays :
        (sims : ℕ) (temp rand : F) (fen : Text) (p : Position)
        → parse_fen fen ≡ some p
        → 0 < length (valid_moves p)
        → Ends boards squares fl network
            (Plays p)
            (search boards squares fl network sims temp rand fen)
    unfolding search_at
    search-Plays sims temp rand fen p e h =
        subst (λ o. Ends boards squares fl network (Plays p) o)
          (sym (search_legal sims temp rand fen p e h))
          (at (first_mate boards squares fl p (valid_moves p)) (first_mate-Probe p (valid_moves p)))
      where
        at :
            (o : Option ChessMove)
            → Probe p (valid_moves p) o
            → Ends boards squares fl network
                (Plays p)
                (probed boards squares fl network sims temp rand p o)
        at (some w) (k, mates) = (w, k, refl)
        at none b =
            and_then-Ends boards squares fl network (Rooted boards squares fl network sims p)
              (Plays p) (grow boards squares fl network sims p)
              (answer boards squares fl network rand temp p)
              (grow-Rooted boards squares fl network p h sims)
              (λ root r. answer-Plays sims temp rand p root h r)

    -- If the FEN is a position with a legal move, and the chess library writes moves and
    -- promotes pawns as it documents, then a search with any number of simulations, temperature
    -- and random number either fails, which takes a call that the network fails on, or answers
    -- the UCI text of a legal move; it never reads a child that does not exist.
    pub search-Legal :
        (sims : ℕ) (temp rand : F) (fen : Text) (p : Position)
        → parse_fen fen ≡ some p
        → 0 < length (valid_moves p)
        → Documented boards squares p
        → Ends boards squares fl network
            (Legal p)
            (search boards squares fl network sims temp rand fen)
    search-Legal sims temp rand fen p e h d =
        map-Ends boards squares fl network (Plays p) (Legal p)
          (search boards squares fl network sims temp rand fen)
          (search-Plays sims temp rand fen p e h)
          (λ u (m, k, same).
            let (q, r) = (index_uci-move_index boards squares p d m k).0 in
            (q, r.legal, same ∙ r.text))

    -- If a legal move mates, then a search answers the text of the index of a legal move that
    -- mates, whatever the network answers and with any number of simulations, temperature and
    -- random number.
    pub search-mates :
        (sims : ℕ) (temp rand : F) (fen : Text) (p : Position) (m : ChessMove)
        → parse_fen fen ≡ some p
        → Memᴰ m (valid_moves p)
        → Mating p m
        → (w : ChessMove) × Memᴰ w (valid_moves p)
          × Mating p w
          × (search boards squares fl network sims temp rand fen
              ≡ done (index_uci boards squares (move_index boards squares w) p))
    unfolding search_at
    search-mates sims temp rand fen p m e k h =
        at (first_mate boards squares fl p (valid_moves p)) refl
          (first_mate-Probe p (valid_moves p))
      where
        at :
            (o : Option ChessMove)
            → first_mate boards squares fl p (valid_moves p) ≡ o
            → Probe p (valid_moves p) o
            → (w : ChessMove) × Memᴰ w (valid_moves p)
              × Mating p w
              × (search boards squares fl network sims temp rand fen
                  ≡ done (index_uci boards squares (move_index boards squares w) p))
        at none f b = absurd (b m k h)
        at (some w) f (l, mates) = (
          w,
          l,
          mates,
          search_legal sims temp rand fen p e (Mem_some m (valid_moves p) k)
              ∙ ap (probed boards squares fl network sims temp rand p) f,
        )

    -- If the position has a legal move, no legal move mates and the temperature is not above
    -- zero, then a search of n simulations either fails, which takes a call that the network
    -- fails on, or answers the text of the index of a move of the root that no other move has
    -- more visits than. The tree then has n visits at the root, n visits on the children of the
    -- root together, the legal moves as the moves of every node that has children, and in every
    -- such node below the root one visit more than its children have. It never reads a child
    -- that does not exist.
    pub search-MostVisited :
        (sims : ℕ) (temp rand : F) (fen : Text) (p : Position)
        → parse_fen fen ≡ some p
        → 0 < length (valid_moves p)
        → ((m : ChessMove) → Memᴰ m (valid_moves p) → is_mate (status (update p m)) ≡ false)
        → le temp (of_ℕ fl 0) ≡ true
        → Ends boards squares fl network
            (MostVisited sims p)
            (search boards squares fl network sims temp rand fen)
    unfolding search_at and_then answer
    search-MostVisited sims temp rand fen p e h quiet zero_temp =
        subst (λ o. Ends boards squares fl network (MostVisited sims p) o)
          (sym (search_legal sims temp rand fen p e h))
          (at (first_mate boards squares fl p (valid_moves p)) (first_mate-Probe p (valid_moves p)))
      where
        grown_at :
            (o : Outcome (Node ChessMove F))
            → grow boards squares fl network sims p ≡ o
            → Ends boards squares fl network (Rooted boards squares fl network sims p) o
            → Ends boards squares fl network
                (MostVisited sims p)
                (and_then o (answer boards squares fl network rand temp p))
        grown_at failed g r = r
        grown_at panicked g r = absurd r
        grown_at (done (node st kids)) g r =
            let (m, n, c, all) =
              most_visited-Winner kids
                (omega (arith, h, length-moves_of kids, ap length r.moves)) in
            let picked =
              ap (move_at kids) (pick_root_zero boards squares fl rand temp kids zero_temp)
              ∙ (child-move kids (most_visited kids) m n c).0 in
            subst
              (λ o.
                Ends boards squares fl network (MostVisited sims p)
                  (said boards squares fl network p o))
              (sym picked)
              (record {
                root = node st kids;
                grown = g;
                rooted = r;
                index = most_visited kids;
                move = m;
                child = n;
                at = c;
                most = all;
                text = refl;
              })

        at :
            (o : Option ChessMove)
            → Probe p (valid_moves p) o
            → Ends boards squares fl network
                (MostVisited sims p)
                (probed boards squares fl network sims temp rand p o)
        at (some w) (k, mates) = absurd (clash mates (quiet w k))
        at none b =
            grown_at (grow boards squares fl network sims p) refl
              (grow-Rooted boards squares fl network p h sims)
