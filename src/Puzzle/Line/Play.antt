-- ===== src/Puzzle/Line/Play.antt =====
-- Check and positionAfter of internal/puzzle/explain.go along a puzzle's own line.
use blundernet.Base.{
  ℕ, zero, suc, ◌+◌, ◌*◌, ◌%◌, ◌/◌, ◌≤◌, ◌<◌, ◌≡◌, refl, sym, ap, ◌∙◌, Text, equal_fold, to_lower,
  text_eq_refl, Bool, true, false, not, List, [], ◌∷◌, length, take, drop, Option, none, some, leb,
  ltb, if◌then◌else◌, if-cases, arith, subst,
}
use blundernet.Base.Int.{pos}
use blundernet.Puzzle.{Puzzle, column, solution, user_moves}
use blundernet.Puzzle.Line.{
  Positions, Graded, find_move, play, play_from, position_after, judge, judge_move, judge_at, check,
}

behind_setup :
    (xs : List Text) (i : ℕ)
    → i < length (drop 1 xs)
    → (column i (drop 1 xs) ≡ column (suc i) xs) × (suc (suc i) ≤ length xs)
behind_setup [] i lt = ground arith
behind_setup (x ∷ xs) i lt = (refl, omega (arith, lt))

abbrev pub Accepts : ℕ → ℕ → Graded → Type 0
Accepts i n g = (g.correct ≡ true) × (i + 1 ≡ n → g.is_over ≡ true)

abbrev go_on : Graded → Bool → Bool
go_on g rest = if not g.correct then false else if g.is_over then true else rest

equal_fold_refl : (t : Text) → equal_fold t t ≡ true
unfolding equal_fold
equal_fold_refl t = text_eq_refl (to_lower t)

module _ (chess : Positions) where
  open chess use {Position, Move, parse_fen, update, is_mate}

  first_legal :
      (p e : Position) (us : List Text) (found o : Option Move)
      → found ≡ o
      → (elim o [ none ↦ none | some m ↦ play chess (update p m) us ]) ≡ some e
      → (m : Move) × (found ≡ some m) × (play chess (update p m) us ≡ some e)
  first_legal p e us found none f h = ground arith
  first_legal p e us found (some m) f h = (m, f, h)

  -- In a line that plays, each move is legal where the moves before it lead.
  play-take :
      (us : List Text) (p e : Position) (i : ℕ)
      → play chess p us ≡ some e
      → i < length us
      → (at : Position) × (m : Move) × (play chess p (take i us) ≡ some at)
        × (find_move chess at (column i us) ≡ some m)
  unfolding play
  play-take [] p e i h lt = ground arith
  play-take (u ∷ us) p e zero h lt =
      let (m, legal, rest) =
        first_legal p e us (find_move chess p u) (find_move chess p u) refl h in
      (p, m, refl, legal)
  play-take (u ∷ us) p e (suc i) h lt =
      let (m, legal, rest) =
        first_legal p e us (find_move chess p u) (find_move chess p u) refl h in
      let (at, n, there, next) = play-take us (update p m) e i rest (omega arith) in
      (
        at,
        n,
        ap (λ o. elim o [ none ↦ none | some k ↦ play chess (update p k) (take i us) ]) legal
            ∙ there,
        next,
      )

  module _ {F : Type 0} where
    -- The puzzle's stored moves are legal one after the other.
    pub record Playable (p : Puzzle F) : Type 0 where
      pub begin : Position
      pub end : Position
      pub fen : parse_fen p.fen ≡ some begin
      pub plays : play chess begin p.moves ≡ some end

    pub column-solution :
        (p : Puzzle F) (i : ℕ)
        → i < length (solution p)
        → (column i (solution p) ≡ column (suc i) p.moves) × (suc (suc i) ≤ length p.moves)
    unfolding solution
    column-solution p i =
        if-cases (ltb (length p.moves) 2)
          (λ s.
            i < length s → (column i s ≡ column (suc i) p.moves) × (suc (suc i) ≤ length p.moves))
          (λ _ lt. ground arith) (λ _. behind_setup p.moves i)

    position_after_ok :
        (p : Puzzle F)
        → Playable p
        → (i : ℕ) → i < length (solution p)
        → (at : Position) × (m : Move) × (position_after chess p (pos i) ≡ some at)
          × (find_move chess at (column i (solution p)) ≡ some m)
    unfolding position_after
    position_after_ok p line i lt =
        let (same, fits) = column-solution p i lt in
        let (at, m, there, next) = play-take p.moves line.begin line.end (suc i) line.plays fits in
        (
          at,
          m,
          if-cases (leb (length p.moves) i) (λ o. o ≡ some at) (λ high. ground arith)
              (λ _. ap (λ o. play_from chess o (take (suc i) p.moves)) line.fen ∙ there),
          ap (find_move chess at) same ∙ next,
        )

    judge-Accepts :
        (uci : Text) (p : Puzzle F) (i : ℕ) (next : Position)
        → equal_fold uci (column i (solution p)) ≡ true
        → Accepts i (length (solution p)) (judge chess uci p i next)
    judge-Accepts uci p i next same = ground arith

    -- A move of the stored solution, sent at its place, is correct.
    pub check-solution :
        (p : Puzzle F)
        → Playable p
        → (i : ℕ) → i < length (solution p)
        → Accepts i (length (solution p)) (check chess p (pos i) (column i (solution p)))
    unfolding check
    check-solution p line i lt =
        let uci = column i (solution p) in
        let (at, m, there, legal) = position_after_ok p line i lt in
        if-cases (leb (length (solution p)) i) (Accepts i (length (solution p)))
          (λ high. ground arith)
          (λ _.
            subst (λ o. Accepts i (length (solution p)) (judge_at chess uci p i o)) (sym there)
              (subst (λ o. Accepts i (length (solution p)) (judge_move chess uci p i at o))
                (sym legal) (judge-Accepts uci p i (update at m) (equal_fold_refl uci))))

    -- A solver that sends the stored solution, every second ply of it.
    unfoldable pub solve : Puzzle F → ℕ → ℕ → Bool
    solve p zero step = false
    solve p (suc tries) step =
        let rest = solve p tries (step + 2) in
        go_on (check chess p (pos step) (column step (solution p))) rest

    solve_from :
        (p : Puzzle F)
        → Playable p
        → (k step : ℕ) → step + 1 + k * 2 ≡ length (solution p)
        → solve p (suc k) step ≡ true
    unfolding solve
    solve_from p line zero step h = ground (arith, check-solution p line step)
    solve_from p line (suc k) step h =
        ground (arith, check-solution p line step, solve_from p line k (step + 2))

    pub solve-user_moves :
        (p : Puzzle F)
        → Playable p
        → p.solution_plies ≡ length (solution p)
        → p.solution_plies % 2 ≡ 1
        → solve p (user_moves p) 0 ≡ true
    unfolding user_moves
    solve-user_moves p line plies odd =
        subst (λ n. solve p n 0 ≡ true) (omega arith)
          (solve_from p line (p.solution_plies / 2) 0 (omega arith))
