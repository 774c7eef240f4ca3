-- ===== src/Api/Streak/Between.antt =====
-- internal/httpapi/streak.go between two puzzles of a run: a move that comes before the next puzzle is
-- drawn, as a second click on the last move does.
use blundernet.Base.{
  ℕ, suc, ◌+◌, ◌<◌, ◌≡◌, refl, sym, ap, ◌∙◌, subst, Text, text_eq, text_eq_refl, String, str_eq,
  eq_refl, Bool, true, false, not, ◌&&◌, [], Option, none, some, ltb, if-cases, arith,
}
use blundernet.Base.Int.{ℤ}
use blundernet.Errors.{Except, ok, err}
use blundernet.Float.{Float64}
use blundernet.Puzzle.{Puzzle}
use blundernet.Puzzle.Line.{Positions, Graded}
use blundernet.Store.Sessions.{Entry}
use blundernet.Store.Progress.{
  StreakState, streak_ttl, same_streak, same_option, value, entry_value, put_entry, replace,
}
use blundernet.Store.Puzzles.{
  Attempt, streak_row, is_recorded, PuzzleRow, Tables, put_puzzle, played_row, insert, counted,
  record_streak,
}
use blundernet.Store.Puzzles.Counted.{insert-some}
use blundernet.Api.Ranked.{Visitor, Faults, MoveRequest, Desk, add_seen}
use blundernet.Api.Streak.{
  StreakReply, refused, shown, replied, solved, over, set_streak, after_replace, between,
  after_best, after_streak, grade_streak, on_streak_puzzle, on_run, handle_streak_move,
}

-- The run that a reply says is solved: `none` for another reply.
abbrev pub solved_count : StreakReply → Option ℕ
solved_count (refused code) = none
solved_count (shown view) = none
solved_count (replied reply count) = none
solved_count (solved count) = some count
solved_count (over line count best) = none

abbrev is_ok : Except (Unit {0}) → Bool
is_ok (ok u) = true
is_ok (err e) = false

same_streak_refl : (s : StreakState) → same_streak s s ≡ true
same_streak_refl s = ground (arith, text_eq_refl s.puzzle_id)

no_such : {A : Type 0} {b : Bool} → b ≡ true → b ≡ false → A
no_such h h' = ground arith

replace_ok :
    (lost : Bool) (now : ℕ) (before after : Option StreakState) (key : Option (Entry StreakState))
    → is_ok (replace same_streak streak_ttl lost now before after key).1 ≡ true
    → (replace same_streak streak_ttl lost now before after key).0 ≡ put_entry streak_ttl now after
unfolding replace
replace_ok lost now before after key =
    if-cases lost Written (λ _ h. ground arith)
      (λ _.
        if-cases (same_option same_streak (value now key) before) Written (λ _ _. refl)
          (λ _ h. ground arith))
  where
    Written : Option (Entry StreakState) × Except (Unit {0}) → Type 0
    Written x = is_ok x.1 ≡ true → x.0 ≡ put_entry streak_ttl now after

solved_some : (k n : ℕ) → some k ≡ some n → k ≡ n
solved_some k n h = ground arith

module _ (fl : Float64) where
  -- What a reply that says the puzzle is solved leaves.
  abbrev pub Paused : ℕ → String → Desk fl → Desk fl × StreakReply → Type 0
  Paused now user d x =
      (n : ℕ)
      → solved_count x.1 ≡ some n
      → (s : StreakState) × (x.0.streaks user
          ≡ some (record { value = s; expires = now + streak_ttl }))
        × (s.puzzle_id ≡ [])
        × (s.count ≡ n)
        × (x.0.tables.archive ≡ d.tables.archive)

  stored-Paused :
      (now : ℕ) (user : String) (s : StreakState) (d d' : Desk fl)
      (key : Option (Entry StreakState)) (r : Except (Unit {0}))
      → d'.tables.archive ≡ d.tables.archive
      → (is_ok r ≡ true → key ≡ put_entry streak_ttl now (some (between fl s)))
      → Paused now user d (after_replace fl (solved (suc s.count)) (set_streak fl user key d', r))
  stored-Paused now user s d d' key (ok u) same written n h = (
    between fl s,
    if-cases (str_eq user user)
        (λ e. e ≡ some (record { value = between fl s; expires = now + streak_ttl }))
        (λ _. written refl) (λ bad. no_such (eq_refl user) bad),
    refl,
    solved_some (suc s.count) n h,
    same,
  )
  stored-Paused now user s d d' key (err e) same written n h = ground arith

  replied-Paused :
      (now count : ℕ) (user : String) (reply : Text) (d : Desk fl) (x : Desk fl × Except (Unit {0}))
      → Paused now user d (after_replace fl (replied reply count) x)
  replied-Paused now count user reply d (d', ok u) n h = ground arith
  replied-Paused now count user reply d (d', err e) n h = ground arith

  after_best-Paused :
      (f : Faults) (now : ℕ) (user : String) (s : StreakState) (p : Puzzle fl.F) (d d' : Desk fl)
      (r : Tables fl × Except ℕ)
      → Paused now user d (after_best fl f now user s p d' r)
  after_best-Paused f now user s p d d' (t, ok best) n h = ground arith
  after_best-Paused f now user s p d d' (t, err e) n h = ground arith

  add_seen-archive :
      (lost : Bool) (user : String) (id : Text) (d : Desk fl)
      → (add_seen fl lost user id d).tables.archive ≡ d.tables.archive
  add_seen-archive true user id d = refl
  add_seen-archive false user id d = refl

  after_streak-Paused :
      (f : Faults) (now : ℕ) (user : String) (s : StreakState) (p : Puzzle fl.F) (correct : Bool)
      (d : Desk fl) (r : Tables fl × Except (Unit {0}))
      → r.0.archive ≡ d.tables.archive
      → Paused now user d (after_streak fl f now user s p correct d r)
  after_streak-Paused f now user s p correct d (t, err e) same n h = ground arith
  after_streak-Paused f now user s p false d (t, ok u) same n h =
      after_best-Paused f now user s p d (add_seen fl f.seen user p.id (record d { tables = t })) _
        n h
  after_streak-Paused f now user s p true d (t, ok u) same n h =
      let d' = add_seen fl f.seen user p.id (record d { tables = t }) in
      stored-Paused now user s d d' _ _
        (add_seen-archive f.seen user p.id (record d { tables = t }) ∙ same)
        (replace_ok f.replace now (some s) (some (between fl s)) (d'.streaks user)) n h

  insert_archive :
      (a : Attempt) (t : Tables fl) → (counted fl a t (insert fl a t)).0.archive ≡ t.archive
  insert_archive a t = written (insert fl a t) refl
    where
      kept :
          (t' : Tables fl) (o : Option (PuzzleRow fl))
          → (elim o as (λ _. Tables fl) [
            | none ↦ t'
            | some row ↦ put_puzzle fl a.puzzle (played_row fl a row) t'
          ]).archive
            ≡ t'.archive
      kept t' none = refl
      kept t' (some row) = refl

      written :
          (o : Option (Tables fl)) → insert fl a t ≡ o → (counted fl a t o).0.archive ≡ t.archive
      written none h = refl
      written (some t') h =
          let (_, _, is) = insert-some fl a t t' h in
          kept t' (t'.puzzles a.puzzle) ∙ ap (λ x. x.archive) is

  record_streak-archive :
      (lost : Bool) (k : ℕ) (a : Attempt) (t : Tables fl)
      → (record_streak fl lost k a t).0.archive ≡ t.archive
  unfolding record_streak
  record_streak-archive lost k a t =
      if-cases lost (λ (x : Tables fl × Except (Unit {0})). x.0.archive ≡ t.archive) (λ _. refl)
        (λ _.
          if-cases (is_recorded k t.attempts)
            (λ (x : Tables fl × Except (Unit {0})). x.0.archive ≡ t.archive) (λ _. refl)
            (λ _. insert_archive (streak_row k a) t))

  module _ (attempt_id : String → Text → ℕ → ℕ) (chess : Positions) where
    grade_streak-Paused :
        (f : Faults) (now : ℕ) (user : String) (s : StreakState) (p : Puzzle fl.F) (ms : ℤ)
        (d : Desk fl) (g : Graded)
        → Paused now user d (grade_streak fl attempt_id f now user s p ms d g)
    grade_streak-Paused f now user s p ms d g =
        if-cases (g.correct && not g.is_over) (Paused now user d)
          (λ _. replied-Paused now s.count user _ d _)
          (λ _.
            after_streak-Paused f now user s p g.correct d _
              (record_streak-archive f.store _ _ d.tables))

    on_run-Paused :
        (f : Faults) (now : ℕ) (user : String) (req : MoveRequest) (d : Desk fl)
        (o : Option StreakState)
        → Paused now user d (on_run fl attempt_id chess f now user req d o)
    on_run-Paused f now user req d none n h = ground arith
    on_run-Paused f now user req d (some s) n h =
        if-cases f.by_id (Paused now user d) (λ _ _ h'. ground arith)
          (λ _. on_puzzle (d.tables.puzzles s.puzzle_id)) n h
      where
        on_puzzle :
            (row : Option (PuzzleRow fl))
            → Paused now user d (on_streak_puzzle fl attempt_id chess f now user s req d row)
        on_puzzle none m h' = ground arith
        on_puzzle (some row) m h' = grade_streak-Paused f now user s row.puzzle req.ms d _ m h'

    handle_streak_move-Paused :
        (f : Faults) (now : ℕ) (v : Visitor) (req : MoveRequest) (d : Desk fl)
        → Paused now v.id d (handle_streak_move fl attempt_id chess f now (some v) (some req) d)
    unfolding handle_streak_move
    handle_streak_move-Paused f now v req d =
        if-cases (text_eq req.uci []) (Paused now v.id d) (λ _ _ h. ground arith)
          (λ _.
            if-cases f.get (Paused now v.id d) (λ _ _ h. ground arith)
              (λ _. on_run-Paused f now v.id req d (value now (d.streaks v.id))))

    -- What the second request leaves of the run.
    abbrev pub Dropped : ℕ → String → Desk fl → Desk fl × StreakReply → Type 0
    Dropped now user d x =
        (x.1 ≡ refused 409) × (x.0.tables ≡ d.tables) × (value now (x.0.streaks user) ≡ none)

    replace_held :
        (s : StreakState) (now : ℕ) (key : Option (Entry StreakState))
        → value now key ≡ some s
        → (replace same_streak streak_ttl false now (some s) none key).0 ≡ none
    unfolding replace
    replace_held s now key held =
        if-cases (same_option same_streak (value now key) (some s)) Cleared (λ _. refl)
          (λ bad.
            no_such (same_streak_refl s)
              (subst (λ o. same_option same_streak o (some s) ≡ false) held bad))
      where
        Cleared : Option (Entry StreakState) × Except (Unit {0}) → Type 0
        Cleared x = x.0 ≡ none

    gone-Dropped :
        (g : Faults) (now : ℕ) (user : String) (s : StreakState) (req : MoveRequest) (d : Desk fl)
        → g.replace ≡ false
        → value now (d.streaks user) ≡ some s
        → Dropped now user d (on_streak_puzzle fl attempt_id chess g now user s req d none)
    gone-Dropped g now user s req d works held = (
      refl,
      refl,
      if-cases (str_eq user user) (λ e. value now e ≡ none)
          (λ _. ap (value now) (
            subst
              (λ b. (replace same_streak streak_ttl b now (some s) none (d.streaks user)).0 ≡ none)
              (sym works) (replace_held s now (d.streaks user) held)))
          (λ bad. no_such (eq_refl user) bad),
    )

    handle_streak_move-Dropped :
        (g : Faults) (now : ℕ) (v : Visitor) (s : StreakState) (req : MoveRequest) (d : Desk fl)
        → text_eq req.uci [] ≡ false
        → g.get ≡ false
        → g.by_id ≡ false
        → g.replace ≡ false
        → value now (d.streaks v.id) ≡ some s
        → d.tables.puzzles s.puzzle_id ≡ none
        → Dropped now v.id d (handle_streak_move fl attempt_id chess g now (some v) (some req) d)
    unfolding handle_streak_move
    handle_streak_move-Dropped g now v s req d named get by_id works held gone =
        if-cases (text_eq req.uci []) (Dropped now v.id d) (λ bad. no_such bad named)
          (λ _.
            if-cases g.get (Dropped now v.id d) (λ bad. no_such bad get)
              (λ _.
                subst (λ o. Dropped now v.id d (on_run fl attempt_id chess g now v.id req d o))
                  (sym held)
                  (if-cases g.by_id (Dropped now v.id d) (λ bad. no_such bad by_id)
                    (λ _.
                      subst
                        (λ o.
                          Dropped now v.id d
                            (on_streak_puzzle fl attempt_id chess g now v.id s req d o))
                        (sym gone) (gone-Dropped g now v.id s req d works held)))))

    live :
        (s : StreakState) (now later : ℕ)
        → later < now + streak_ttl
        → value later (some (record { value = s; expires = now + streak_ttl })) ≡ some s
    live s now later soon =
        if-cases (ltb later (now + streak_ttl)) (λ e. entry_value e ≡ some s) (λ _. refl)
          (λ bad. ground arith)

    -- If a streak move is answered that it solved its puzzle and the run is now n puzzles long,
    -- then the run in Redis is n long and no account has changed; and if another move is sent
    -- within a day, before the next puzzle is drawn, none of its calls fails and no puzzle has
    -- an empty id, then it is answered 409, the run is gone from Redis, and the tables are as
    -- they were.
    pub solved-handle_streak_move :
        (f g : Faults) (now later : ℕ) (v : Visitor) (req req' : MoveRequest) (d d' : Desk fl)
        (n : ℕ)
        → handle_streak_move fl attempt_id chess f now (some v) (some req) d ≡ (d', solved n)
        → later < now + streak_ttl
        → d'.tables.puzzles [] ≡ none
        → text_eq req'.uci [] ≡ false
        → g.get ≡ false
        → g.by_id ≡ false
        → g.replace ≡ false
        → (s : StreakState) × (value later (d'.streaks v.id) ≡ some s)
          × (s.count ≡ n)
          × (d'.tables.archive ≡ d.tables.archive)
          × Dropped later v.id d'
              (handle_streak_move fl attempt_id chess g later (some v) (some req') d')
    solved-handle_streak_move f g now later v req req' d d' n first soon unnamed named get by_id
          works =
        let (s, there, empty, count, same) =
          subst (Paused now v.id d) first (handle_streak_move-Paused f now v req d) n refl in
        (
          s,
          ap (value later) there ∙ live s now later soon,
          count,
          same,
          handle_streak_move-Dropped g later v s req' d' named get by_id works
              (ap (value later) there ∙ live s now later soon)
              (ap d'.tables.puzzles empty ∙ unnamed),
        )
