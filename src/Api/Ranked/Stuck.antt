-- ===== src/Api/Ranked/Stuck.antt =====
-- internal/httpapi/ranked.go when the script that clears the key fails after an attempt is recorded.
use blundernet.Base.{
  ℕ, ◌≡◌, refl, sym, ap, ◌∙◌, subst, Text, text_eq, String, str_eq, Bool, true, false, not, ◌&&◌,
  [], Option, none, some, if-cases, arith,
}
use blundernet.Base.Int.{ℤ, pos}
use blundernet.Errors.{Except, ok, err}
use blundernet.Float.{Float64}
use blundernet.Puzzle.{Puzzle, solution}
use blundernet.Puzzle.Line.{Positions, Graded, check}
use blundernet.Store.Progress.{InProgress, value, replace}
use blundernet.Store.Puzzles.{is_recorded, PuzzleRow, Tables, Outcome}
use blundernet.Store.Puzzles.Again.{
  Settled, SameBodies, record_ranked-Settled, record_ranked_used, failed,
}
use blundernet.Api.Ranked.{
  Visitor, Faults, MoveRequest, Desk, RankedReply, refused, replied, finished, replace_ranked,
  after_step, after_record, attempt_of, grade_ranked, on_puzzle, on_state, handle_ranked_move,
}

-- Whether a graded move ends the attempt.
abbrev pub ends : Graded → Bool
ends g = not (g.correct && not g.is_over)

module _ (fl : Float64) where
  abbrev pub is_refused : RankedReply fl → Bool
  is_refused (refused code) = true
  is_refused (replied reply) = false
  is_refused (finished correct line out) = false

  abbrev pub is_final : RankedReply fl → Bool
  is_final (refused code) = false
  is_final (replied reply) = false
  is_final (finished correct line out) = true

  -- What a final reply leaves when the script has failed.
  abbrev Lingers : ℕ → String → Desk fl → Desk fl × RankedReply fl → Type 0
  Lingers k user d r =
      is_final r.1 ≡ true
      → (is_recorded k r.0.tables.attempts ≡ true)
        × SameBodies fl d.tables r.0.tables
        × (r.0.ranked user ≡ d.ranked user)

  replaced_not :
      (now : ℕ) (user : String) (before after : Option InProgress) (d : Desk fl)
      → (replace_ranked fl true now user before after d).0.ranked user ≡ d.ranked user
  unfolding replace
  replaced_not now user before after d =
      if-cases (str_eq user user) (λ e. e ≡ d.ranked user) (λ _. refl) (λ _. refl)

  after_step_not :
      (reply : Text) (x : Desk fl × Except (Unit {0})) → is_final (after_step fl reply x).1 ≡ false
  after_step_not reply (d, ok u) = refl
  after_step_not reply (d, err e) = refl

  abbrev pub Refuses : Desk fl → Desk fl × RankedReply fl → Type 0
  Refuses d r = (r.0 ≡ d) × (is_refused r.1 ≡ true)

  no_end : {A : Type 0} {b : Bool} → b ≡ true → b ≡ false → A
  no_end yes' no' = ground arith

  module _ (attempt_id : String → Text → ℕ → ℕ) where
    after_record-Refuses :
        (f : Faults) (now : ℕ) (user : String) (s : InProgress) (p : Puzzle fl.F) (correct : Bool)
        (d : Desk fl) (r : Tables fl × Except (Outcome fl))
        → r.0 ≡ d.tables
        → failed fl r.1 ≡ true
        → Refuses d (after_record fl attempt_id f now user s p correct d r)
    after_record-Refuses f now user s p correct d (t, err e) same bad =
        (ap (λ x. record d { tables = x }) same, refl)
    after_record-Refuses f now user s p correct d (t, ok out) same bad = ground arith

    after_record-Lingers :
        (f : Faults) (now k : ℕ) (user : String) (s : InProgress) (p : Puzzle fl.F) (correct : Bool)
        (d : Desk fl) (r : Tables fl × Except (Outcome fl))
        → f.replace ≡ true
        → Settled fl k d.tables r
        → Lingers k user d (after_record fl attempt_id f now user s p correct d r)
    after_record-Lingers f now k user s p correct d (t, err e) broken settled final = ground arith
    after_record-Lingers f now k user s p correct d (t, ok out) broken (_, used, same) final =
        if-cases f.seen (λ (x : Desk fl). Lingers k user d (x, finished correct (solution p) out))
          (λ _. kept) (λ _. kept) final
      where
        kept :
            true ≡ true
            → (is_recorded k t.attempts ≡ true)
              × SameBodies fl d.tables t
              × ((replace_ranked fl f.replace now user
                      (some s)
                      none
                      (record d { tables = t })).0.ranked
                    user
                  ≡ d.ranked user)
        kept _ = (
          used,
          same,
          subst
              (λ b.
                (replace_ranked fl b now user (some s) none (record d { tables = t })).0.ranked user
                ≡ d.ranked user)
              (sym broken) (replaced_not now user (some s) none (record d { tables = t })),
        )

    module _ (chess : Positions) where
      grade_ranked-Lingers :
          (f : Faults) (fuel now : ℕ) (user : String) (s : InProgress) (p : Puzzle fl.F) (ms : ℤ)
          (d : Desk fl) (g : Graded)
          → f.replace ≡ true
          → Lingers
              (attempt_id user p.id s.started)
              user
              d
              (grade_ranked fl attempt_id f fuel now user s p ms d g)
      grade_ranked-Lingers f fuel now user s p ms d g broken =
          if-cases (g.correct && not g.is_over) (Lingers (attempt_id user p.id s.started) user d)
            (λ _ final. no_end final (after_step_not _ _))
            (λ _.
              after_record-Lingers f now (attempt_id user p.id s.started) user s p g.correct d _
                broken
                (record_ranked-Settled fl f.store fuel (attempt_id user p.id s.started)
                  (attempt_of fl attempt_id now user p g.correct ms) d.tables))

      on_state-Lingers :
          (f : Faults) (fuel now : ℕ) (user : String) (s : InProgress) (req : MoveRequest)
          (row : PuzzleRow fl) (d : Desk fl)
          → f.replace ≡ true
          → d.tables.puzzles s.puzzle_id ≡ some row
          → Lingers
              (attempt_id user row.puzzle.id s.started)
              user
              d
              (on_state fl attempt_id chess f fuel now user req d (some s))
      on_state-Lingers f fuel now user s req row d broken found =
          if-cases f.by_id (Lingers (attempt_id user row.puzzle.id s.started) user d)
            (λ _ final. ground arith)
            (λ _.
              subst
                (λ o.
                  Lingers (attempt_id user row.puzzle.id s.started) user d
                    (on_puzzle fl attempt_id chess f fuel now user s req d o))
                (sym found) (grade_ranked-Lingers f fuel now user s row.puzzle req.ms d _ broken))

      handle_ranked_move-Lingers :
          (f : Faults) (fuel now : ℕ) (v : Visitor) (req : MoveRequest) (s : InProgress)
          (row : PuzzleRow fl) (d : Desk fl)
          → f.replace ≡ true
          → value now (d.ranked v.id) ≡ some s
          → d.tables.puzzles s.puzzle_id ≡ some row
          → Lingers
              (attempt_id v.id row.puzzle.id s.started)
              v.id
              d
              (handle_ranked_move fl attempt_id chess f fuel now (some v) (some req) d)
      unfolding handle_ranked_move
      handle_ranked_move-Lingers f fuel now v req s row d broken held found =
          let P = Lingers (attempt_id v.id row.puzzle.id s.started) v.id d in
          if-cases v.is_guest P (λ _ final. ground arith)
            (λ _.
              if-cases (text_eq req.uci []) P (λ _ final. ground arith)
                (λ _.
                  if-cases f.get P (λ _ final. ground arith)
                    (λ _.
                      subst (λ o. P (on_state fl attempt_id chess f fuel now v.id req d o))
                        (sym held) (on_state-Lingers f fuel now v.id s req row d broken found))))

      grade_used :
          (f : Faults) (fuel now : ℕ) (user : String) (s : InProgress) (p : Puzzle fl.F) (ms : ℤ)
          (d : Desk fl) (g : Graded)
          → is_recorded (attempt_id user p.id s.started) d.tables.attempts ≡ true
          → ends g ≡ true
          → Refuses d (grade_ranked fl attempt_id f fuel now user s p ms d g)
      grade_used f fuel now user s p ms d g used over =
          if-cases (g.correct && not g.is_over) (Refuses d) (λ more. ground arith)
            (λ _.
              let (same, bad) =
                record_ranked_used fl f.store fuel (attempt_id user p.id s.started)
                  (attempt_of fl attempt_id now user p g.correct ms) d.tables used in
              after_record-Refuses f now user s p g.correct d _ same bad)

      on_state_used :
          (f : Faults) (fuel now : ℕ) (user : String) (s : InProgress) (req : MoveRequest)
          (row : PuzzleRow fl) (d : Desk fl)
          → d.tables.puzzles s.puzzle_id ≡ some row
          → is_recorded (attempt_id user row.puzzle.id s.started) d.tables.attempts ≡ true
          → ends (check chess row.puzzle (pos s.step) req.uci) ≡ true
          → Refuses d (on_state fl attempt_id chess f fuel now user req d (some s))
      on_state_used f fuel now user s req row d found used over =
          if-cases f.by_id (Refuses d) (λ _. (refl, refl))
            (λ _.
              subst (λ o. Refuses d (on_puzzle fl attempt_id chess f fuel now user s req d o))
                (sym found) (grade_used f fuel now user s row.puzzle req.ms d _ used over))

      -- While the key holds a state whose attempt is recorded, each request that would end the attempt
      -- is refused and changes nothing.
      pub handle_ranked_move_used :
          (f : Faults) (fuel now : ℕ) (v : Visitor) (req : MoveRequest) (s : InProgress)
          (row : PuzzleRow fl) (d : Desk fl)
          → value now (d.ranked v.id) ≡ some s
          → d.tables.puzzles s.puzzle_id ≡ some row
          → is_recorded (attempt_id v.id row.puzzle.id s.started) d.tables.attempts ≡ true
          → ends (check chess row.puzzle (pos s.step) req.uci) ≡ true
          → Refuses d (handle_ranked_move fl attempt_id chess f fuel now (some v) (some req) d)
      unfolding handle_ranked_move
      handle_ranked_move_used f fuel now v req s row d held found used over =
          if-cases v.is_guest (Refuses d) (λ _. (refl, refl))
            (λ _.
              if-cases (text_eq req.uci []) (Refuses d) (λ _. (refl, refl))
                (λ _.
                  if-cases f.get (Refuses d) (λ _. (refl, refl))
                    (λ _.
                      subst (λ o. Refuses d (on_state fl attempt_id chess f fuel now v.id req d o))
                        (sym held) (on_state_used f fuel now v.id s req row d found used over))))

      -- If a ranked move is answered that the attempt is over while the script that clears the
      -- attempt fails, then as long as the key in Redis lives, any request whose move would end
      -- the attempt, by a solve or a miss, is refused and changes nothing.
      pub handle_ranked_move-handle_ranked_move :
          (f g : Faults) (fuel fuel' now now' : ℕ) (v : Visitor) (req req' : MoveRequest)
          (s : InProgress) (row : PuzzleRow fl) (d d' : Desk fl) (r : RankedReply fl)
          → handle_ranked_move fl attempt_id chess f fuel now (some v) (some req) d ≡ (d', r)
          → is_final r ≡ true
          → f.replace ≡ true
          → value now (d.ranked v.id) ≡ some s
          → value now' (d.ranked v.id) ≡ some s
          → d.tables.puzzles s.puzzle_id ≡ some row
          → ends (check chess row.puzzle (pos s.step) req'.uci) ≡ true
          → Refuses d' (handle_ranked_move fl attempt_id chess g fuel' now' (some v) (some req') d')
      handle_ranked_move-handle_ranked_move f g fuel fuel' now now' v req req' s row d d' r first
            final broken held held' found over =
          let (used, same, kept) =
            subst (Lingers (attempt_id v.id row.puzzle.id s.started) v.id d) first
              (handle_ranked_move-Lingers f fuel now v req s row d broken held found) final in
          let (row', found', body) = same.body s.puzzle_id row found in
          handle_ranked_move_used g fuel' now' v req' s row' d' (ap (value now') kept ∙ held')
            found'
            (subst (λ p. is_recorded (attempt_id v.id p.id s.started) d'.tables.attempts ≡ true)
              (sym body) used)
            (subst (λ p. ends (check chess p (pos s.step) req'.uci) ≡ true) (sym body) over)
