-- ===== src/Store/Puzzles/Again.antt =====
-- RecordRanked of internal/store/puzzleranked.go: what success and failure leave behind, and that an
-- attempt counts once.
use blundernet.Base.{
  ℕ, ◌≡◌, refl, sym, ap, ◌∙◌, subst, Text, text_eq, text_eq→eq, Bool, true, false, List, ◌∷◌,
  Option, none, some, if-cases, arith,
}
use blundernet.Errors.{Except, ok, err, not_found, backend}
use blundernet.Float.{Float64, of_ℕ}
use blundernet.Rating.{Player, update}
use blundernet.Store.Ratings.{UserRow}
use blundernet.Store.Puzzles.{
  Attempt, ranked_row, is_recorded, PuzzleRow, Tables, put_puzzle, user_row, set_user, insert,
  played_row, record_ranked, rate_ranked, write_ranked, rated_user, charge, against, score_of,
  Outcome, outcome,
}
use blundernet.Store.Puzzles.Counted.{some_injective, insert-some}

own_id : (k : ℕ) (a : Attempt) (rows : List Attempt) → is_recorded k (ranked_row k a ∷ rows) ≡ true
unfolding is_recorded
own_id k a rows = ground arith

module _ (fl : Float64) where
  -- The moves of every puzzle stay.
  pub record SameBodies (t t' : Tables fl) : Type 0 where
    pub body :
        (id : Text) (row : PuzzleRow fl)
        → t.puzzles id ≡ some row
        → (row' : PuzzleRow fl) × (t'.puzzles id ≡ some row') × (row'.puzzle ≡ row.puzzle)

  abbrev pub Settled : ℕ → Tables fl → Tables fl × Except (Outcome fl) → Type 0
  Settled k t (t', err e) = t' ≡ t
  Settled k t (t', ok out) =
      (is_recorded k t.attempts ≡ false) × (is_recorded k t'.attempts ≡ true) × SameBodies t t'

  write_ranked-Settled :
      (k : ℕ) (a : Attempt) (t : Tables fl) (u : UserRow fl) (p : PuzzleRow fl)
      (new_user new_puzzle : Player fl.F)
      → t.puzzles a.puzzle ≡ some p
      → Settled k t (write_ranked fl k (ranked_row k a) t u p new_user new_puzzle)
  write_ranked-Settled k a t u p new_user new_puzzle found =
      if-cases (is_recorded k t.attempts) (Settled k t) (λ _. refl)
        (λ unused. with_insert unused (insert fl (ranked_row k a) t) refl)
    where
      with_insert :
          is_recorded k t.attempts ≡ false
          → (o : Option (Tables fl)) → insert fl (ranked_row k a) t ≡ o
          → Settled k t (elim o [
            | none ↦ (t, err backend)
            | some t' ↦ (
              put_puzzle fl a.puzzle
                  (played_row fl (ranked_row k a) (record p { strength = new_puzzle }))
                  (set_user fl a.user (rated_user fl a.solved new_user u) t'),
              ok (outcome fl new_user new_puzzle u a.solved),
            )
          ])
      with_insert unused none h = refl
      with_insert unused (some t') h =
          let (_, _, is) = insert-some fl (ranked_row k a) t t' h in
          subst
            (λ s. Settled k t (
              put_puzzle fl a.puzzle
                  (played_row fl (ranked_row k a) (record p { strength = new_puzzle }))
                  (set_user fl a.user (rated_user fl a.solved new_user u) s),
              ok (outcome fl new_user new_puzzle u a.solved),
            ))
            (sym is)
            (
              unused,
              own_id k a t.attempts,
              record {
                body = λ id row e.
                    if-cases (text_eq a.puzzle id)
                      (λ o. (row' : PuzzleRow fl) × (o ≡ some row') × (row'.puzzle ≡ row.puzzle))
                      (λ same. (
                        played_row fl (ranked_row k a) (record p { strength = new_puzzle }),
                        refl,
                        ap (λ q. q.puzzle)
                            (some_injective fl
                              (sym found ∙ ap t.puzzles (text_eq→eq a.puzzle id same) ∙ e)),
                      ))
                      (λ _. (row, e, refl));
              },
            )

  rate_ranked-Settled :
      (fuel k : ℕ) (a : Attempt) (t : Tables fl) (u : UserRow fl) (p : PuzzleRow fl)
      → t.puzzles a.puzzle ≡ some p
      → Settled k t (rate_ranked fl fuel k (ranked_row k a) t u p)
  rate_ranked-Settled fuel k a t u p found =
      both (update fl fuel u.puzzle (against fl p.strength (score_of fl a.solved))) (
        update fl fuel p.strength (against fl u.puzzle (fl.sub (of_ℕ fl 1) (score_of fl a.solved))))
    where
      both :
          (one two : Option (Player fl.F))
          → Settled k t (elim one [
            | none ↦ (t, err backend)
            | some new ↦ elim two [
              | none ↦ (t, err backend)
              | some new_puzzle ↦
                  write_ranked fl k
                    (ranked_row k a)
                    t
                    u
                    p
                    (charge fl a.solved u.puzzle new)
                    new_puzzle
            ]
          ])
      both none two = refl
      both (some new) none = refl
      both (some new) (some new_puzzle) = write_ranked-Settled k a t u p _ new_puzzle found

  pub record_ranked-Settled :
      (lost : Bool) (fuel k : ℕ) (a : Attempt) (t : Tables fl)
      → Settled k t (record_ranked fl lost fuel k a t)
  unfolding record_ranked
  record_ranked-Settled true fuel k a t = refl
  record_ranked-Settled false fuel k a t = locked (user_row fl a.user t) (t.puzzles a.puzzle) refl
    where
      locked :
          (ou : Option (UserRow fl)) (op : Option (PuzzleRow fl))
          → t.puzzles a.puzzle ≡ op
          → Settled k t (elim ou [
            | none ↦ (t, err not_found)
            | some u ↦ elim op [
              | none ↦ (t, err not_found)
              | some p ↦ rate_ranked fl fuel k (ranked_row k a) t u p
            ]
          ])
      locked none op found = refl
      locked (some u) none found = refl
      locked (some u) (some p) found = rate_ranked-Settled fuel k a t u p found

  abbrev pub failed : Except (Outcome fl) → Bool
  failed (ok out) = false
  failed (err e) = true

  Settled-refused :
      (k : ℕ) (t : Tables fl) (r : Tables fl × Except (Outcome fl))
      → is_recorded k t.attempts ≡ true
      → Settled k t r
      → (r.0 ≡ t) × (failed r.1 ≡ true)
  Settled-refused k t (t', err e) used s = (s, refl)
  Settled-refused k t (t', ok out) used s = ground (arith, s)

  -- An attempt that is recorded already is refused, whatever it says now.
  pub record_ranked_used :
      (lost : Bool) (fuel k : ℕ) (a : Attempt) (t : Tables fl)
      → is_recorded k t.attempts ≡ true
      → ((record_ranked fl lost fuel k a t).0 ≡ t)
        × (failed (record_ranked fl lost fuel k a t).1 ≡ true)
  record_ranked_used lost fuel k a t used =
      Settled-refused k t (record_ranked fl lost fuel k a t) used
        (record_ranked-Settled lost fuel k a t)
