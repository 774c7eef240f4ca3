-- ===== src/Review/Report/Told.antt =====
-- What the report of internal/review/review.go says of a game.
use blundernet.Base.{
  ℕ, suc, ◌+◌, ◌%◌, ◌≡◌, ◌≢◌, refl, sym, ap, subst, ◌∙◌, Text, text_eq, Bool, true, false, not,
  ◌&&◌, List, [], ◌∷◌, length, keep, Option, none, some, arith, ◌==◌, if◌then◌else◌, if-cases,
  Option-cases, inl, inr,
}
use blundernet.Float.{Float64}
use blundernet.Review.{
  Boards, Analysis, Judgement, brilliant, great, best, excellent, good, inaccuracy, mistake,
  blunder, Counts, no_counts, add, Move, Result, num, win_percent,
}
use blundernet.Review.Board.{find_uci}
use blundernet.Review.Accuracy.{bool_eq}
use blundernet.Review.Accuracy
use blundernet.Review.Report.{
  Step, Reviewed, reviewed, failed, replay, first_illegal, afters, analyse_all, win_after,
  is_brilliant, is_great, judge_step, judge_steps, count, report, after_analysis, review_game,
}
use blundernet.Review.Report.Labels.{Says, judge_step-Says}

abbrev pub count_of : Judgement → Counts → ℕ
count_of brilliant c = c.brilliants
count_of great c = c.greats
count_of best c = c.bests
count_of excellent c = c.excellents
count_of good c = c.goods
count_of inaccuracy c = c.inaccuracies
count_of mistake c = c.mistakes
count_of blunder c = c.blunders

abbrev pub rank : Judgement → ℕ
rank brilliant = 0
rank great = 1
rank best = 2
rank excellent = 3
rank good = 4
rank inaccuracy = 5
rank mistake = 6
rank blunder = 7

count_of-add :
    (j k : Judgement) (c : Counts)
    → count_of j (add k c) ≡ count_of j c + (if rank j == rank k then 1 else 0)
unfolding add
count_of-add j k c = ground arith

module _ (fl : Float64) (boards : Boards) where
  open boards use {Position, ChessMove, start, update, turn, status, show}

  -- The moves of one side with one judgement.
  abbrev pub judged : Bool → Judgement → List (Move fl) → List (Move fl)
  judged side j moves =
      keep (λ (m : Move fl). bool_eq m.white side && (rank j == rank m.judgement)) moves

  count_of-count :
      (side : Bool) (j : Judgement) (moves : List (Move fl)) (c : Counts)
      → count_of j (count fl boards side moves c) ≡ count_of j c + length (judged side j moves)
  unfolding count
  count_of-count side j [] c = omega arith
  count_of-count side j (m ∷ ms) c = ground (
    arith,
    count_of-count side j ms c,
    count_of-count side j ms (add m.judgement c),
    count_of-add j m.judgement c,
  )

  module _ (analyse : ℕ → Text → Option Analysis) where
    -- What the report says of the i-th move, which was played in `p` and is `x`.
    pub record Tells (i : ℕ) (p : Position) (u : Text) (x : ChessMove) (e next : Analysis)
        (m : Move fl) : Type 0 where
      pub ply : m.ply ≡ i + 1
      pub white : m.white ≡ (i % 2 == 0)
      pub uci : m.uci ≡ u
      pub san : m.san ≡ boards.san p x
      pub fen : m.fen ≡ show (update p x)
      pub engine :
          m.better ≡ (if not (text_eq u e.best) && not (length e.best == 0) then e.best else [])
      pub judgement :
          let s : Step fl boards = record {
            san = boards.san p x;
            uci = u;
            before = p;
            after = update p x;
          } in
          let before = win_percent fl e.cp e.mate in
          let after = win_after fl boards (status (update p x)) next in
          Says
            (text_eq u e.best)
            (fl.lt (fl.sub before after) (num fl 2))
            (fl.lt (fl.sub before after) (num fl 10))
            (is_brilliant fl boards s after)
            (is_great fl boards before e.second)
            m.judgement

    -- The judged moves, from the i-th and the position `p` on: all up to the first that is not legal.
    abbrev pub Walk : ℕ → Position → List Text → List (Move fl) → Type 0
    Walk i p [] [] = Unit
    Walk i p [] (m ∷ ms) = ⊥
    Walk i p (u ∷ us) [] = find_uci fl boards p u ≡ none
    Walk i p (u ∷ us) (m ∷ ms) =
        (x : ChessMove) × (e : Analysis) × (next : Analysis) × (find_uci fl boards p u ≡ some x)
        × (analyse i (show p) ≡ some e)
        × (analyse (suc i) (show (update p x)) ≡ some next)
        × Tells i p u x e next m
        × Walk (suc i) (update p x) us ms

    analyse_all-cons :
        (i : ℕ) (p : Position) (ps : List Position) (es : List Analysis)
        → analyse_all fl boards analyse i (p ∷ ps) ≡ some es
        → (e : Analysis) × (rest : List Analysis) × (analyse i (show p) ≡ some e)
          × (analyse_all fl boards analyse (suc i) ps ≡ some rest)
          × (es ≡ e ∷ rest)
    unfolding analyse_all
    analyse_all-cons i p ps es h = elim (Option-cases (analyse i (show p))) [
      | inl lost ↦ absurd (ground (arith, lost, h))
      | inr (e, at) ↦ elim (Option-cases (analyse_all fl boards analyse (suc i) ps)) [
        | inl lost ↦ absurd (ground (arith, at, lost, h))
        | inr (rest, more) ↦ (e, rest, at, more, ground (arith, at, more, h))
      ]
    ]

    judge_steps-Walk :
        (i : ℕ) (p : Position) (us : List Text) (es : List Analysis)
        → analyse_all fl boards analyse i (p ∷ afters fl boards (replay fl boards p us)) ≡ some es
        → Walk i p us (judge_steps fl boards i (replay fl boards p us) es)
    unfolding replay judge_steps
    judge_steps-Walk i p [] es h = tt
    judge_steps-Walk i p (u ∷ us) es h =
        found (find_uci fl boards p u) refl (λ x. judge_steps-Walk (suc i) (update p x) us) h
      where
        step : ChessMove → Step fl boards
        step x = record { san = boards.san p x; uci = u; before = p; after = update p x }

        steps : Option ChessMove → List (Step fl boards)
        steps o = elim o [ none ↦ [] | some x ↦ step x ∷ replay fl boards (update p x) us ]

        tells :
            (x : ChessMove) (e next : Analysis)
            → Tells i p u x e next (judge_step fl boards i (step x) e next)
        tells x e next = record {
          ply = unfold judge_step in refl;
          white = unfold judge_step in refl;
          uci = unfold judge_step in refl;
          san = unfold judge_step in refl;
          fen = unfold judge_step in refl;
          engine = unfold judge_step in refl;
          judgement = judge_step-Says fl boards i (step x) e next;
        }

        found :
            (o : Option ChessMove)
            → find_uci fl boards p u ≡ o
            → ((x : ChessMove) (es : List Analysis)
                → analyse_all fl boards analyse
                    (suc i)
                    (update p x ∷ afters fl boards (replay fl boards (update p x) us))
                  ≡ some es
                → Walk
                    (suc i)
                    (update p x)
                    us
                    (judge_steps fl boards (suc i) (replay fl boards (update p x) us) es))
            → analyse_all fl boards analyse i (p ∷ afters fl boards (steps o)) ≡ some es
            → Walk i p (u ∷ us) (judge_steps fl boards i (steps o) es)
        found none at ih h = at
        found (some x) at ih h =
            let later = replay fl boards (update p x) us in
            let (e, rest, here, more, is) =
              analyse_all-cons i p (update p x ∷ afters fl boards later) es h in
            let (next, rest', there, _, is') =
              analyse_all-cons (suc i) (update p x) (afters fl boards later) rest more in
            let after =
              subst (λ l. Walk (suc i) (update p x) us (judge_steps fl boards (suc i) later l)) is'
                (ih x rest more) in
            subst (λ l. Walk i p (u ∷ us) (judge_steps fl boards i (steps (some x)) l))
              (sym (is ∙ ap (λ l. e ∷ l) is')) (x, e, next, at, here, there, tells x e next, after)

    -- What Game promises of its report.
    pub record Told (moves : List Text) (r : Result fl) : Type 0 where
      pub walk : Walk 0 start moves r.moves
      pub some_move : moves ≢ [] → r.moves ≢ []
      pub white : (j : Judgement) → count_of j r.white ≡ length (judged true j r.moves)
      pub black : (j : Judgement) → count_of j r.black ≡ length (judged false j r.moves)
      pub worst : r.worst ≡ Accuracy.worst fl r.moves

    some_move :
        (moves : List Text) (ms : List (Move fl))
        → first_illegal fl boards moves ≡ false
        → Walk 0 start moves ms
        → moves ≢ []
        → ms ≢ []
    some_move [] ms legal w ne = absurd (ne refl)
    some_move (u ∷ us) [] legal w ne = absurd (ground (arith, w, legal))
    some_move (u ∷ us) (m ∷ ms) legal w ne = λ e. ground (arith, e)

    same : {A : Type 0} (a b : A) → reviewed a ≡ reviewed b → a ≡ b
    same a b e = ap (λ x. elim x [ reviewed y ↦ y | failed z ↦ a ]) e

    none_yet : (j : Judgement) (n : ℕ) → count_of j no_counts + n ≡ n
    none_yet j n = ground arith

    -- If the review of a game answers a report, then its moves are the game's, in order, up to
    -- the first that is not legal; each has its ply, side, notation, the position after it and
    -- the engine's choice if that is another move; it is labelled best, great or brilliant only
    -- if it is the engine's move or, for brilliant, lost less than 2 points, as a blunder or
    -- mistake only if it is not the engine's and lost 10 points or more, as brilliant only if it
    -- gave up three pawns' worth and kept 45 percent, and as great only if the engine's second
    -- choice was 20 points worse; a game with a move has a report with one; the counts of each
    -- side are how often each label was given; and the moves to look at are those that worst
    -- picks.
    pub review_game-Told :
        (moves : List Text) (r : Result fl)
        → review_game fl boards analyse moves ≡ reviewed r
        → Told moves r
    unfolding review_game
    review_game-Told moves r h =
        if-cases (first_illegal fl boards moves)
          (λ (x : Reviewed (Result fl)). x ≡ reviewed r → Told moves r)
          (λ _ e. absurd (ground (arith, e)))
          (λ legal.
            analysed legal (analyse_all fl boards analyse 0 (start ∷ afters fl boards steps)) refl)
          h
      where
        steps : List (Step fl boards)
        steps = replay fl boards start moves

        analysed :
            first_illegal fl boards moves ≡ false
            → (o : Option (List Analysis))
            → analyse_all fl boards analyse 0 (start ∷ afters fl boards steps) ≡ o
            → after_analysis fl boards steps o ≡ reviewed r
            → Told moves r
        analysed legal none at e = absurd (ground (arith, e))
        analysed legal (some es) at e =
            let walk = judge_steps-Walk 0 start moves es at in
            let ms = judge_steps fl boards 0 steps es in
            subst (Told moves) (same (report fl boards ms) r e) (record {
              walk = walk;
              some_move = some_move moves ms legal walk;
              white =
                  λ j. count_of-count true j ms no_counts ∙ none_yet j (length (judged true j ms));
              black = λ j.
                  count_of-count false j ms no_counts ∙ none_yet j (length (judged false j ms));
              worst = refl;
            })
