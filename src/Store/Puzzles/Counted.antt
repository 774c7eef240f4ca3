-- ===== src/Store/Puzzles/Counted.antt =====
-- The counters of puzzles and users against the attempts behind them, over any calls.
use blundernet.Base.{
  ℕ, ◌+◌, ◌≤◌, ◌≡◌, refl, sym, ap, subst, Text, text_eq, text_eq→eq, text_eq_refl, String, str_eq,
  Bool, true, false, ◌&&◌, List, [], ◌∷◌, Option, none, some, ◌==◌, if◌then◌else◌, if-cases,
  Bool-cases, arith, inl, inr,
}
use blundernet.Float.{Float64}
use blundernet.Store.Ratings.{UserRow, Archive}
use blundernet.Store.Puzzles.{
  is_ranked, Attempt, is_id, is_recorded, one_if, PuzzleRow, Tables, put_puzzle, user_row,
  key_taken, insert, played_row, count_play, counted, record_attempt, record_streak,
  save_best_streak, record_ranked,
}

-- The attempts that a test picks, counted.
unfoldable pub tally : (Attempt → Bool) → List Attempt → ℕ
tally p [] = 0
tally p (a ∷ rows) = one_if (p a) + tally p rows

abbrev pub plays_of : Text → Attempt → Bool
plays_of id a = text_eq a.puzzle id

abbrev pub solves_of : Text → Attempt → Bool
solves_of id a = text_eq a.puzzle id && a.solved

abbrev pub ranks_of : Text → Attempt → Bool
ranks_of id a = text_eq a.puzzle id && is_ranked a.mode

abbrev pub is_identified : Option ℕ → Bool
is_identified none = false
is_identified (some k) = true

-- An attempt of RecordRanked: Record keeps no id.
abbrev pub moves_rating : Attempt → Bool
moves_rating a = is_ranked a.mode && is_identified a.attempt_id

abbrev pub wins_of : String → Attempt → Bool
wins_of user a = str_eq a.user user && (a.solved && moves_rating a)

abbrev pub has_id : ℕ → Attempt → Bool
has_id k a = is_id k a.attempt_id

module _ (fl : Float64) where
  -- A puzzle's row agrees with its attempts.
  pub record Agrees (id : Text) (rows : List Attempt) (row : PuzzleRow fl) : Type 0 where
    pub plays : row.plays ≡ tally (plays_of id) rows
    pub solved : row.solved ≡ tally (solves_of id) rows
    pub ranked_plays : row.ranked_plays ≡ tally (ranks_of id) rows

  pub record Counted (t : Tables fl) : Type 0 where
    pub puzzles :
        (id : Text) (row : PuzzleRow fl) → t.puzzles id ≡ some row → Agrees id t.attempts row
    pub users :
        (u : String) (row : UserRow fl)
        → user_row fl u t ≡ some row
        → row.puzzles_solved ≡ tally (wins_of u) t.attempts
    pub once : (k : ℕ) → tally (has_id k) t.attempts ≤ 1

  -- The calls, with what the outside decides of each.
  pub data Call : Type 0 where
    learn : Bool → Attempt → Call
    rank : Bool → ℕ → ℕ → Attempt → Call
    climb : Bool → ℕ → Attempt → Call
    keep_best : Bool → String → ℕ → Call

  unfoldable pub run_call : Call → Tables fl → Tables fl
  run_call (learn lost a) t = (record_attempt fl lost a t).0
  run_call (rank lost fuel k a) t = (record_ranked fl lost fuel k a t).0
  run_call (climb lost k a) t = (record_streak fl lost k a t).0
  run_call (keep_best lost user n) t = (save_best_streak fl lost user n t).0

  unfoldable pub run_calls : List Call → Tables fl → Tables fl
  run_calls [] t = t
  run_calls (c ∷ cs) t = run_calls cs (run_call c t)

  pub tally-played :
      (a : Attempt) (rows : List Attempt) (row : PuzzleRow fl)
      → Agrees a.puzzle rows row
      → Agrees a.puzzle (a ∷ rows) (played_row fl a row)
  unfolding tally
  tally-played a rows row h = ground (arith, text_eq_refl a.puzzle)

  tally-other :
      (id : Text) (a : Attempt) (rows : List Attempt) (row : PuzzleRow fl)
      → text_eq a.puzzle id ≡ false
      → Agrees id rows row
      → Agrees id (a ∷ rows) row
  unfolding tally
  tally-other id a rows row ne h = ground arith

  unused_once :
      (k : ℕ) (rows : List Attempt) → is_recorded k rows ≡ false → tally (has_id k) rows ≡ 0
  unfolding is_recorded tally
  unused_once k [] h = refl
  unused_once k (a ∷ rows) h = ground (arith, unused_once k rows)

  pub some_injective : {A : Type 0} {x y : A} → some x ≡ some y → x ≡ y
  some_injective {x} h = ap (λ o. elim o [ none ↦ x | some z ↦ z ]) h

  same_id : (j k : ℕ) → (j == k) ≡ true → j ≡ k
  same_id j k h = ground arith

  -- The attempt with the id `k`, or without one, keeps the ids apart.
  new_once :
      (a : Attempt) (rows : List Attempt)
      → ((k : ℕ) → a.attempt_id ≡ some k → is_recorded k rows ≡ false)
      → ((k : ℕ) → tally (has_id k) rows ≤ 1)
      → (k : ℕ) → tally (has_id k) (a ∷ rows) ≤ 1
  unfolding tally
  new_once a rows unused one k = id_once a.attempt_id k unused (one k) (unused_once k rows)
    where
      id_once :
          (o : Option ℕ) (k : ℕ)
          → ((j : ℕ) → o ≡ some j → is_recorded j rows ≡ false)
          → tally (has_id k) rows ≤ 1
          → (is_recorded k rows ≡ false → tally (has_id k) rows ≡ 0)
          → one_if (is_id k o) + tally (has_id k) rows ≤ 1
      id_once none k unused one free = omega arith
      id_once (some j) k unused one free = elim (Bool-cases (j == k)) [
        | inl same ↦ ground (
          arith,
          free (subst (λ i. is_recorded i rows ≡ false) (same_id j k same) (unused j refl)),
        )
        | inr differ ↦ ground arith
      ]

  no_win :
      (a : Attempt) (rows : List Attempt) (u : String) (r : UserRow fl)
      → moves_rating a ≡ false
      → r.puzzles_solved ≡ tally (wins_of u) rows
      → r.puzzles_solved ≡ tally (wins_of u) (a ∷ rows)
  unfolding tally
  no_win a rows u r casual h = ground arith

  -- What every recording call writes: the attempt, the puzzle's row, and perhaps the user's.
  pub written-Counted :
      (t : Tables fl) (a : Attempt) (archive : Archive fl) (row : PuzzleRow fl)
      → Counted t
      → Agrees a.puzzle (a ∷ t.attempts) row
      → ((u : String) (r : UserRow fl)
          → archive.users u ≡ some r
          → r.puzzles_solved ≡ tally (wins_of u) (a ∷ t.attempts))
      → ((k : ℕ) → a.attempt_id ≡ some k → is_recorded k t.attempts ≡ false)
      → Counted
          (put_puzzle fl a.puzzle row (record t { archive = archive; attempts = a ∷ t.attempts }))
  written-Counted t a archive row c agrees users unused = record {
    puzzles = λ id r.
        if-cases (text_eq a.puzzle id) (λ o. o ≡ some r → Agrees id (a ∷ t.attempts) r)
          (λ same e.
            subst (λ j. Agrees j (a ∷ t.attempts) r) (text_eq→eq a.puzzle id same)
              (subst (Agrees a.puzzle (a ∷ t.attempts)) (ground (arith, e)) agrees))
          (λ differ e. tally-other id a t.attempts r differ (c.puzzles id r e));
    users = users;
    once = new_once a t.attempts unused c.once;
  }

  insert_shape :
      (a : Attempt) (t t' : Tables fl) (ou : Option (UserRow fl)) (found op : Option (PuzzleRow fl))
      → found ≡ op
      → (elim ou [
        | none ↦ none
        | some u ↦ elim op [
          | none ↦ none
          | some p ↦
              if key_taken a t.attempts then none else some (record t { attempts = a ∷ t.attempts })
        ]
      ])
        ≡ some t'
      → (p : PuzzleRow fl) × (found ≡ some p) × (t' ≡ record t { attempts = a ∷ t.attempts })
  insert_shape a t t' none found op f h = ground arith
  insert_shape a t t' (some u) found none f h = ground arith
  insert_shape a t t' (some u) found (some p) f h = (p, f, stored (key_taken a t.attempts) h)
    where
      stored :
          (b : Bool)
          → (if b then none else some (record t { attempts = a ∷ t.attempts })) ≡ some t'
          → t' ≡ record t { attempts = a ∷ t.attempts }
      stored true e = ground arith
      stored false e = sym (some_injective e)

  pub insert-some :
      (a : Attempt) (t t' : Tables fl)
      → insert fl a t ≡ some t'
      → (p : PuzzleRow fl) × (t.puzzles a.puzzle ≡ some p)
        × (t' ≡ record t { attempts = a ∷ t.attempts })
  insert-some a t t' =
      insert_shape a t t' (user_row fl a.user t) (t.puzzles a.puzzle) (t.puzzles a.puzzle) refl

  -- RecordStreakAttempt and Record: the user's row stays.
  abbrev pub Unranked : Attempt → List Attempt → Type 0
  Unranked a rows =
      (moves_rating a ≡ false) × ((k : ℕ) → a.attempt_id ≡ some k → is_recorded k rows ≡ false)

  pub counted-Counted :
      (a : Attempt) (t : Tables fl)
      → Counted t
      → Unranked a t.attempts
      → (o : Option (Tables fl)) → insert fl a t ≡ o
      → Counted (counted fl a t o).0
  counted-Counted a t c (casual, unused) none h = c
  counted-Counted a t c (casual, unused) (some t') h =
      let (p, found, is) = insert-some a t t' h in
      subst (λ s. Counted (count_play fl a s)) (sym is)
        (subst
          (λ o. Counted (elim o [
            | none ↦ record t { attempts = a ∷ t.attempts }
            | some row ↦
                put_puzzle fl a.puzzle (played_row fl a row)
                  (record t { attempts = a ∷ t.attempts })
          ]))
          (sym found)
          (written-Counted t a t.archive (played_row fl a p) c
            (tally-played a t.attempts p (c.puzzles a.puzzle p found))
            (λ u r e. no_win a t.attempts u r casual (c.users u r e)) unused))
