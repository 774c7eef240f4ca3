-- ===== src/Api/Ranked/Solving.antt =====
-- A solver who sends the stored solution to the handler of internal/httpapi/ranked.go.
use blundernet.Base.{
  ℕ, zero, suc, ◌+◌, ◌*◌, ◌/◌, ◌%◌, ◌<◌, ◌≡◌, refl, sym, ap, subst, Text, text_eq, text_eq_refl,
  String, str_eq, eq_refl, Bool, true, false, not, ◌&&◌, [], length, Option, some, ltb,
  if◌then◌else◌, if-cases, Bool-cases, inl, inr, arith,
}
use blundernet.Base.Int.{ℤ, pos}
use blundernet.Errors.{Except, ok, err, conflict}
use blundernet.Float.{Float64}
use blundernet.Puzzle.{column, solution, user_moves}
use blundernet.Puzzle.Line.{Positions, Graded, check}
use blundernet.Puzzle.Line.Play.{Playable, check-solution}
use blundernet.Store.Sessions.{Entry}
use blundernet.Store.Progress.{
  InProgress, value, entry_value, same_progress, same_option, replace, put_entry, ranked_ttl,
}
use blundernet.Store.Puzzles.{PuzzleRow, Tables, Outcome, record_ranked}
use blundernet.Store.Puzzles.Again.{failed}
use blundernet.Api.Ranked.{
  Visitor, Faults, MoveRequest, Desk, RankedReply, refused, replied, finished, set_ranked,
  after_step, after_record, attempt_of, grade_ranked, on_puzzle, on_state, handle_ranked_move,
}

abbrev pub no_faults : Faults
no_faults = record { get = false; by_id = false; replace = false; store = false; seen = false }

abbrev next_state : InProgress → InProgress
next_state s = record s { step = s.step + 2 }

same_progress_refl : (s : InProgress) → same_progress s s ≡ true
same_progress_refl s = ground (arith, text_eq_refl s.puzzle_id)

fresh_entry :
    (s : InProgress) (now expires : ℕ)
    → now < expires
    → value now (some (record { value = s; expires = expires })) ≡ some s
fresh_entry s now expires lt =
    if-cases (ltb now expires) (λ e. entry_value e ≡ some s) (λ _. refl) (λ bad. ground arith)

no_such : {A : Type 0} {b : Bool} → b ≡ true → b ≡ false → A
no_such h h' = ground arith

abbrev Replaced : ℕ → Option InProgress → Option (Entry InProgress) × Except (Unit {0}) → Type 0
Replaced now after x = x ≡ (put_entry ranked_ttl now after, ok tt)

replace_held :
    (s : InProgress) (after : Option InProgress) (now : ℕ) (key : Option (Entry InProgress))
    → value now key ≡ some s
    → Replaced now after (replace same_progress ranked_ttl false now (some s) after key)
unfolding replace
replace_held s after now key held =
    subst
      (λ o. Replaced now after (
        if same_option same_progress o (some s)
        then (put_entry ranked_ttl now after, ok tt)
        else (key, err conflict)))
      (sym held)
      (if-cases (same_progress s s) (Replaced now after) (λ _. refl)
        (λ bad. no_such (same_progress_refl s) bad))

module _ (fl : Float64) (attempt_id : String → Text → ℕ → ℕ) (chess : Positions) where
  abbrev pub is_solved : RankedReply fl → Bool
  is_solved (refused code) = false
  is_solved (replied reply) = false
  is_solved (finished correct line out) = correct

  abbrev go_on : RankedReply fl → RankedReply fl → RankedReply fl
  go_on (refused code) rest = refused code
  go_on (replied reply) rest = rest
  go_on (finished correct line out) rest = finished correct line out

  module _ (fuel : ℕ) (v : Visitor) (row : PuzzleRow fl) (times : ℕ → ℕ) (ms : ℤ) where
    abbrev request : ℕ → MoveRequest
    request step = record { uci = column step (solution row.puzzle); ms = ms }

    -- Each move is sent at its own time; the last reply counts.
    unfoldable pub client : ℕ → ℕ → Desk fl → RankedReply fl
    client zero step d = refused 0
    client (suc tries) step d =
        let (d', r) =
          handle_ranked_move fl attempt_id chess no_faults fuel (times step) (some v)
            (some (request step)) d in
        let rest = client tries (step + 2) d' in go_on r rest

    -- A request that reaches the grading.
    reach_grading :
        (s : InProgress) (req : MoveRequest) (now : ℕ) (d : Desk fl)
        → v.is_guest ≡ false
        → text_eq req.uci [] ≡ false
        → value now (d.ranked v.id) ≡ some s
        → d.tables.puzzles s.puzzle_id ≡ some row
        → handle_ranked_move fl attempt_id chess no_faults fuel now (some v) (some req) d
          ≡ grade_ranked fl attempt_id no_faults fuel now v.id s row.puzzle req.ms d
              (check chess row.puzzle (pos s.step) req.uci)
    unfolding handle_ranked_move
    reach_grading s req now d known named held found =
        let P = λ (x : Desk fl × RankedReply fl).
          x
          ≡ grade_ranked fl attempt_id no_faults fuel now v.id s row.puzzle req.ms d
              (check chess row.puzzle (pos s.step) req.uci) in
        if-cases v.is_guest P (λ guest. ground arith)
          (λ _.
            if-cases (text_eq req.uci []) P (λ bad. ground arith)
              (λ _.
                subst (λ o. P (on_state fl attempt_id chess no_faults fuel now v.id req d o))
                  (sym held)
                  (subst (λ o. P (on_puzzle fl attempt_id chess no_faults fuel now v.id s req d o))
                    (sym found) refl)))

    grade_more :
        (s : InProgress) (now : ℕ) (d : Desk fl) (g : Graded)
        → value now (d.ranked v.id) ≡ some s
        → g.correct ≡ true
        → g.is_over ≡ false
        → grade_ranked fl attempt_id no_faults fuel now v.id s row.puzzle ms d g ≡ (
          set_ranked fl v.id (put_entry ranked_ttl now (some (next_state s))) d,
          replied (column (s.step + 1) (solution row.puzzle)),
        )
    grade_more s now d g held right more =
        let P = λ (x : Desk fl × RankedReply fl). x ≡ (
          set_ranked fl v.id (put_entry ranked_ttl now (some (next_state s))) d,
          replied (column (s.step + 1) (solution row.puzzle)),
        ) in
        if-cases (g.correct && not g.is_over) P
          (λ _.
            ap
              (λ x.
                after_step fl (column (s.step + 1) (solution row.puzzle))
                  (set_ranked fl v.id x.0 d, x.1))
              (replace_held s (some (next_state s)) now (d.ranked v.id) held))
          (λ bad. ground arith)

    after_record_solved :
        (s : InProgress) (now : ℕ) (d : Desk fl) (x : Tables fl × Except (Outcome fl))
        → failed fl x.1 ≡ false
        → is_solved (after_record fl attempt_id no_faults now v.id s row.puzzle true d x).1 ≡ true
    after_record_solved s now d (t, ok out) stored = refl
    after_record_solved s now d (t, err e) stored = ground arith

    grade_last :
        (s : InProgress) (now : ℕ) (d : Desk fl) (g : Graded)
        → g.correct ≡ true
        → g.is_over ≡ true
        → failed fl
            (record_ranked fl false fuel
              (attempt_id v.id row.puzzle.id s.started)
              (attempt_of fl attempt_id now v.id row.puzzle true ms)
              d.tables).1
          ≡ false
        → is_solved (grade_ranked fl attempt_id no_faults fuel now v.id s row.puzzle ms d g).1
          ≡ true
    grade_last s now d g right over stored =
        if-cases (g.correct && not g.is_over)
          (λ (x : Desk fl × RankedReply fl). is_solved x.1 ≡ true) (λ bad. ground arith)
          (λ _.
            subst
              (λ c.
                is_solved
                  (after_record fl attempt_id no_faults now v.id s row.puzzle c d (
                    record_ranked fl false fuel (attempt_id v.id row.puzzle.id s.started)
                      (attempt_of fl attempt_id now v.id row.puzzle c ms) d.tables)).1
                ≡ true)
              (sym right) (after_record_solved s now d _ stored))

    -- What the solver needs of the world between two moves.
    pub record Ready (id : Text) (started step : ℕ) (d : Desk fl) : Type 0 where
      pub held :
          value (times step) (d.ranked v.id)
          ≡ some (record { puzzle_id = id; step = step; started = started })
      pub found : d.tables.puzzles id ≡ some row
      pub stored :
          (now : ℕ)
          → failed fl
              (record_ranked fl false fuel
                (attempt_id v.id row.puzzle.id started)
                (attempt_of fl attempt_id now v.id row.puzzle true ms)
                d.tables).1
            ≡ false

    -- The key that a request has written is there for the next one.
    next_Ready :
        (id : Text) (started step : ℕ) (d : Desk fl)
        → times (step + 2) < times step + ranked_ttl
        → Ready id started step d
        → Ready id started (step + 2) (
            set_ranked fl v.id
              (put_entry ranked_ttl
                (times step)
                (some (record { puzzle_id = id; step = step + 2; started = started })))
              d)
    next_Ready id started step d pace ready = record {
      held =
          if-cases (str_eq v.id v.id)
            (λ e.
              value (times (step + 2)) e
              ≡ some (record { puzzle_id = id; step = step + 2; started = started }))
            (λ _.
              fresh_entry (record { puzzle_id = id; step = step + 2; started = started })
                (times (step + 2)) _ pace)
            (λ bad. no_such (eq_refl v.id) bad);
      found = ready.found;
      stored = ready.stored;
    }

    go_on_solved : (r rest : RankedReply fl) → is_solved r ≡ true → is_solved (go_on r rest) ≡ true
    go_on_solved (refused code) rest h = ground arith
    go_on_solved (replied reply) rest h = ground arith
    go_on_solved (finished correct line out) rest h = h

    -- A solver of a line that plays and ends on the solver's move.
    pub record Solver (id : Text) (started : ℕ) : Type 0 where
      pub line : Playable chess row.puzzle
      pub known : v.is_guest ≡ false
      pub named :
          (i : ℕ)
          → i < length (solution row.puzzle)
          → text_eq (column i (solution row.puzzle)) [] ≡ false
      pub pace : (i : ℕ) → times (i + 2) < times i + ranked_ttl

    module _ (id : Text) (started : ℕ) (solver : Solver id started) where
      abbrev graded : ℕ → Graded
      graded step = check chess row.puzzle (pos step) (column step (solution row.puzzle))

      abbrev state_at : ℕ → InProgress
      state_at step = record { puzzle_id = id; step = step; started = started }

      abbrev answer : ℕ → Desk fl → Desk fl × RankedReply fl
      answer step d =
          grade_ranked fl attempt_id no_faults fuel (times step) v.id (state_at step) row.puzzle ms
            d (graded step)

      abbrev after_request : ℕ → ℕ → Desk fl × RankedReply fl → RankedReply fl
      after_request tries step x = go_on x.1 (client tries (step + 2) x.0)

      client_step :
          (tries step : ℕ) (d : Desk fl)
          → step < length (solution row.puzzle)
          → Ready id started step d
          → is_solved (after_request tries step (answer step d)) ≡ true
          → is_solved (client (suc tries) step d) ≡ true
      unfolding client
      client_step tries step d lt ready =
          subst (λ x. is_solved (after_request tries step x) ≡ true)
            (sym (
              reach_grading (state_at step) (request step) (times step) d solver.known
                (solver.named step lt) ready.held ready.found))

      last_step :
          (tries step : ℕ) (d : Desk fl)
          → step < length (solution row.puzzle)
          → (graded step).is_over ≡ true
          → Ready id started step d
          → is_solved (client (suc tries) step d) ≡ true
      last_step tries step d lt over ready = client_step tries step d lt ready (
          go_on_solved (answer step d).1 (client tries (step + 2) (answer step d).0) (
            grade_last (state_at step) (times step) d (graded step)
              (check-solution chess row.puzzle solver.line step lt).0 over
              (ready.stored (times step))))

      client_from :
          (k step : ℕ) (d : Desk fl)
          → step + 1 + k * 2 ≡ length (solution row.puzzle)
          → Ready id started step d
          → is_solved (client (suc k) step d) ≡ true
      client_from zero step d h ready =
          last_step zero step d (omega arith)
            ((check-solution chess row.puzzle solver.line step (omega arith)).1 (omega arith)) ready
      client_from (suc k) step d h ready = elim (Bool-cases (graded step).is_over) [
        | inl over ↦ last_step (suc k) step d (omega arith) over ready
        | inr more ↦ client_step (suc k) step d (omega arith) ready (
            subst (λ x. is_solved (after_request (suc k) step x) ≡ true)
              (sym (
                grade_more (state_at step) (times step) d (graded step) ready.held
                  (check-solution chess row.puzzle solver.line step (omega arith)).0 more))
              (client_from k (step + 2) _ (omega arith)
                (next_Ready id started step d (solver.pace step) ready)))
      ]

      -- Take a puzzle whose stored moves play one after the other and whose solution has an odd
      -- number of plies, none of them empty, a signed-in solver with this puzzle at its first
      -- step in Redis, tables that hold it and in which recording the solve succeeds, and
      -- requests that carry the solution's moves for the solver's side, each less than two hours
      -- after the one before, with no call failing. Then within as many requests as UserMoves
      -- says, one is answered that the attempt is over and the puzzle solved.
      pub client-user_moves :
          (d : Desk fl)
          → row.puzzle.solution_plies ≡ length (solution row.puzzle)
          → row.puzzle.solution_plies % 2 ≡ 1
          → Ready id started 0 d
          → is_solved (client (user_moves row.puzzle) 0 d) ≡ true
      unfolding user_moves
      client-user_moves d plies odd ready =
          subst (λ n. is_solved (client n 0 d) ≡ true) (omega arith)
            (client_from (row.puzzle.solution_plies / 2) 0 d (omega arith) ready)
