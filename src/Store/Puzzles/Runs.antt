-- ===== src/Store/Puzzles/Runs.antt =====
-- Each call that records an attempt keeps the counters in step, and so does any run of them.
use blundernet.Base.{
  ℕ, ◌+◌, ◌≡◌, refl, sym, ap, ◌∙◌, subst, String, str_eq, eq_iff, Bool, true, false, List, [], ◌∷◌,
  Option, none, some, if-cases, arith,
}
use blundernet.Errors.{Except, ok, err, not_found, backend}
use blundernet.Float.{Float64, of_ℕ}
use blundernet.Rating.{Player, update}
use blundernet.Store.Ratings.{UserRow, put_user}
use blundernet.Store.Puzzles.{
  is_streak, Attempt, learning_row, streak_row, ranked_row, is_recorded, one_if, PuzzleRow, Tables,
  put_puzzle, user_row, set_user, insert, played_row, record_attempt, record_streak,
  save_best_streak, record_ranked, rate_ranked, write_ranked, rated_user, charge, against, score_of,
  greatest, Outcome, outcome,
}
use blundernet.Store.Puzzles.Counted.{
  tally, wins_of, some_injective, Counted, Call, learn, rank, climb, keep_best, run_call, run_calls,
  counted-Counted, written-Counted, insert-some, tally-played,
}

str_same : (s t : String) → str_eq s t ≡ true → s ≡ t
str_same s t h = ground (arith, eq_iff s t)

tally-win :
    (k : ℕ) (a : Attempt) (rows : List Attempt) (v : String) (n : ℕ)
    → str_eq a.user v ≡ true
    → n ≡ tally (wins_of v) rows
    → n + one_if a.solved ≡ tally (wins_of v) (ranked_row k a ∷ rows)
unfolding tally
tally-win k a rows v n same h = ground arith

tally-loss :
    (k : ℕ) (a : Attempt) (rows : List Attempt) (v : String)
    → str_eq a.user v ≡ false
    → tally (wins_of v) rows ≡ tally (wins_of v) (ranked_row k a ∷ rows)
unfolding tally
tally-loss k a rows v differ = ground arith

module _ (fl : Float64) where
  record_streak-Counted :
      (lost : Bool) (k : ℕ) (a : Attempt) (t : Tables fl)
      → Counted fl t
      → Counted fl (record_streak fl lost k a t).0
  unfolding record_streak
  record_streak-Counted true k a t c = c
  record_streak-Counted false k a t c =
      if-cases (is_recorded k t.attempts) (λ (r : Tables fl × Except (Unit {0})). Counted fl r.0)
        (λ _. c)
        (λ unused.
          counted-Counted fl (streak_row k a) t c
            (refl, λ j e. subst (λ i. is_recorded i t.attempts ≡ false) (ground (arith, e)) unused)
            _ refl)

  record_attempt-Counted :
      (lost : Bool) (a : Attempt) (t : Tables fl)
      → Counted fl t
      → Counted fl (record_attempt fl lost a t).0
  unfolding record_attempt
  record_attempt-Counted lost a t c =
      if-cases (is_streak a.mode) (λ (r : Tables fl × Except (Unit {0})). Counted fl r.0) (λ _. c)
        (λ _.
          if-cases lost (λ (r : Tables fl × Except (Unit {0})). Counted fl r.0) (λ _. c)
            (λ _.
              counted-Counted fl (learning_row a) t c (ground arith, λ j e. ground (arith, e)) _
                refl))

  save_best_streak-Counted :
      (lost : Bool) (user : String) (run : ℕ) (t : Tables fl)
      → Counted fl t
      → Counted fl (save_best_streak fl lost user run t).0
  unfolding save_best_streak
  save_best_streak-Counted true user run t c = c
  save_best_streak-Counted false user run t c = with_row (user_row fl user t) refl
    where
      with_row :
          (o : Option (UserRow fl))
          → user_row fl user t ≡ o
          → Counted fl
              (elim o as (λ _. Tables fl × Except ℕ) [
                | none ↦ (t, err not_found)
                | some u ↦ (
                  set_user fl user (record u { best_streak = greatest fl u.best_streak run }) t,
                  ok (greatest fl u.best_streak run),
                )
              ]).0
      with_row none e = c
      with_row (some u) e = record {
        puzzles = c.puzzles;
        users = λ v r.
            if-cases (str_eq user v)
              (λ o. o ≡ some r → r.puzzles_solved ≡ tally (wins_of v) t.attempts)
              (λ same h.
                subst (λ w. r.puzzles_solved ≡ tally (wins_of w) t.attempts) (str_same user v same)
                  (sym (ap (λ x. x.puzzles_solved) (some_injective fl h)) ∙ c.users user u e))
              (λ _ h. c.users v r h);
        once = c.once;
      }

  write_ranked-Counted :
      (k : ℕ) (a : Attempt) (t : Tables fl) (u : UserRow fl) (p : PuzzleRow fl)
      (new_user new_puzzle : Player fl.F)
      → Counted fl t
      → user_row fl a.user t ≡ some u
      → t.puzzles a.puzzle ≡ some p
      → Counted fl (write_ranked fl k (ranked_row k a) t u p new_user new_puzzle).0
  write_ranked-Counted k a t u p new_user new_puzzle c known found =
      if-cases (is_recorded k t.attempts) (λ (r : Tables fl × Except (Outcome fl)). Counted fl r.0)
        (λ _. c) (λ unused. with_insert unused (insert fl (ranked_row k a) t) refl)
    where
      with_insert :
          is_recorded k t.attempts ≡ false
          → (o : Option (Tables fl)) → insert fl (ranked_row k a) t ≡ o
          → Counted fl
              (elim o as (λ _. Tables fl × Except (Outcome fl)) [
                | none ↦ (t, err backend)
                | some t' ↦ (
                  put_puzzle fl a.puzzle
                      (played_row fl (ranked_row k a) (record p { strength = new_puzzle }))
                      (set_user fl a.user (rated_user fl a.solved new_user u) t'),
                  ok (outcome fl new_user new_puzzle u a.solved),
                )
              ]).0
      with_insert unused none h = c
      with_insert unused (some t') h =
          let before = c.puzzles a.puzzle p found in
          let (_, _, is) = insert-some fl (ranked_row k a) t t' h in
          subst
            (λ s. Counted fl (
              put_puzzle fl a.puzzle
                (played_row fl (ranked_row k a) (record p { strength = new_puzzle }))
                (set_user fl a.user (rated_user fl a.solved new_user u) s)))
            (sym is)
            (written-Counted fl t (ranked_row k a)
              (put_user fl a.user (rated_user fl a.solved new_user u) t.archive) _ c
              (tally-played fl (ranked_row k a) t.attempts (record p { strength = new_puzzle })
                (record {
                  plays = before.plays;
                  solved = before.solved;
                  ranked_plays = before.ranked_plays;
                }))
              (λ v r.
                if-cases (str_eq a.user v)
                  (λ o.
                    o ≡ some r → r.puzzles_solved ≡ tally (wins_of v) (ranked_row k a ∷ t.attempts))
                  (λ same e.
                    sym (ap (λ x. x.puzzles_solved) (some_injective fl e))
                    ∙ tally-win k a t.attempts v u.puzzles_solved same (
                        subst (λ w. u.puzzles_solved ≡ tally (wins_of w) t.attempts)
                          (str_same a.user v same) (c.users a.user u known)))
                  (λ differ e. c.users v r e ∙ tally-loss k a t.attempts v differ))
              (λ j e. subst (λ i. is_recorded i t.attempts ≡ false) (ground (arith, e)) unused))

  abbrev Kept : Tables fl × Except (Outcome fl) → Type 0
  Kept r = Counted fl r.0

  rate_ranked-Counted :
      (fuel k : ℕ) (a : Attempt) (t : Tables fl) (u : UserRow fl) (p : PuzzleRow fl)
      → Counted fl t
      → user_row fl a.user t ≡ some u
      → t.puzzles a.puzzle ≡ some p
      → Kept (rate_ranked fl fuel k (ranked_row k a) t u p)
  rate_ranked-Counted fuel k a t u p c known found =
      both (update fl fuel u.puzzle (against fl p.strength (score_of fl a.solved))) (
        update fl fuel p.strength (against fl u.puzzle (fl.sub (of_ℕ fl 1) (score_of fl a.solved))))
    where
      both :
          (one two : Option (Player fl.F))
          → Kept (elim one [
            | none ↦ (t, err backend)
            | some new ↦ elim two [
              | none ↦ (t, err backend)
              | some new_puzzle ↦
                  write_ranked fl k
                    (ranked_row k a)
                    t
                    u
                    p
                    (charge fl a.solved u.puzzle new)
                    new_puzzle
            ]
          ])
      both none two = c
      both (some new) none = c
      both (some new) (some new_puzzle) = write_ranked-Counted k a t u p _ new_puzzle c known found

  record_ranked-Counted :
      (lost : Bool) (fuel k : ℕ) (a : Attempt) (t : Tables fl)
      → Counted fl t
      → Counted fl (record_ranked fl lost fuel k a t).0
  unfolding record_ranked
  record_ranked-Counted true fuel k a t c = c
  record_ranked-Counted false fuel k a t c =
      locked (user_row fl a.user t) refl (t.puzzles a.puzzle) refl
    where
      locked :
          (ou : Option (UserRow fl))
          → user_row fl a.user t ≡ ou
          → (op : Option (PuzzleRow fl)) → t.puzzles a.puzzle ≡ op
          → Kept (elim ou [
            | none ↦ (t, err not_found)
            | some u ↦ elim op [
              | none ↦ (t, err not_found)
              | some p ↦ rate_ranked fl fuel k (ranked_row k a) t u p
            ]
          ])
      locked none known op found = c
      locked (some u) known none found = c
      locked (some u) known (some p) found = rate_ranked-Counted fuel k a t u p c known found

  run_call-Counted :
      (call : Call fl) (t : Tables fl) → Counted fl t → Counted fl (run_call fl call t)
  unfolding run_call
  run_call-Counted (learn lost a) t c = record_attempt-Counted lost a t c
  run_call-Counted (rank lost fuel k a) t c = record_ranked-Counted lost fuel k a t c
  run_call-Counted (climb lost k a) t c = record_streak-Counted lost k a t c
  run_call-Counted (keep_best lost user n) t c = save_best_streak-Counted lost user n t c

  -- If each puzzle's counters of plays, solves and ranked plays are the numbers of attempts on
  -- it, each user's count of solved puzzles is the number of ranked attempts with an id that the
  -- user solved, and no attempt id stands on two attempts, then so it is after any sequence of
  -- the calls Record, RecordRanked, RecordStreakAttempt and SaveBestStreak, whichever of them
  -- fail.
  pub run_calls-Counted :
      (calls : List (Call fl)) (t : Tables fl) → Counted fl t → Counted fl (run_calls fl calls t)
  unfolding run_calls
  run_calls-Counted [] t c = c
  run_calls-Counted (call ∷ calls) t c =
      run_calls-Counted calls (run_call fl call t) (run_call-Counted call t c)
