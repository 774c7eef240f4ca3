-- ===== src/Api/Ranked/Next/Again.antt =====
-- A ranked puzzle of internal/httpapi/ranked.go stays until it is played.
use blundernet.Base.{
  ℕ, ◌+◌, ◌<◌, ◌≡◌, refl, sym, subst, ◌∙◌, ap, Text, String, eq_refl, Bool, true, false, List, [],
  ◌∷◌, Option, none, some, ltb, if-cases, arith,
}
use blundernet.Base.Int.{ℤ}
use blundernet.Errors.{Except, ok, err}
use blundernet.Float.{Float64}
use blundernet.Puzzle.{Puzzle}
use blundernet.Puzzle.Line.{Positions}
use blundernet.Rating.{Player}
use blundernet.Store.Sessions.{Entry}
use blundernet.Store.Progress.{InProgress, value, replace, same_option, same_progress, ranked_ttl}
use blundernet.Store.Puzzles.{PuzzleRow, Tables, puzzle_rating}
use blundernet.Api.Ranked.{Visitor, Faults, Desk, replace_ranked, set_ranked}
use blundernet.Api.Ranked.Next.{
  RankedView, NextReply, shown, Window, windows, contains, view, draw_ranked, after_put, put_ranked,
  rated_draw, new_puzzle, after_drop, in_progress, on_progress, handle_ranked_next,
}

module _ (fl : Float64) (chess : Positions) (truncate : fl.F → ℤ) where
  -- The state in Redis, and the puzzle of it, that a reply has shown.
  record Holds (user : String) (d : Desk fl) (v : RankedView) : Type 0 where
    pub entry : Entry InProgress
    pub row : PuzzleRow fl
    pub there : d.ranked user ≡ some entry
    pub known : d.tables.puzzles entry.value.puzzle_id ≡ some row
    pub seen : view fl chess truncate row.puzzle entry.value.step ≡ shown v

  -- One answers a puzzle of the table.
  abbrev pub Stored : (Window → (Text → Bool) → Except (Option (Puzzle fl.F))) → Tables fl → Type 0
  Stored one t =
      (w : Window) (seen : Text → Bool) (p : Puzzle fl.F)
      → one w seen ≡ ok (some p)
      → (row : PuzzleRow fl) × (t.puzzles p.id ≡ some row) × (row.puzzle ≡ p)

  Kept : String → Desk fl × NextReply → Type 0
  Kept user x = (v : RankedView) → x.1 ≡ shown v → Holds user x.0 v

  value-there :
      (now : ℕ) (o : Option (Entry InProgress)) (s : InProgress)
      → value now o ≡ some s
      → (e : Entry InProgress) × (o ≡ some e) × (e.value ≡ s)
  value-there now none s h = ground arith
  value-there now (some e) s h = (e, refl, ground (arith, h))

  module _ (one : Window → (Text → Bool) → Except (Option (Puzzle fl.F))) where
    abbrev Found : Tables fl → Except (Option (Puzzle fl.F)) → Type 0
    Found t x =
        (p : Puzzle fl.F)
        → x ≡ ok (some p)
        → (row : PuzzleRow fl) × (t.puzzles p.id ≡ some row) × (row.puzzle ≡ p)

    draw_ranked-Found :
        (t : Tables fl) (ws : List Window) (seen : Text → Bool)
        → Stored one t
        → Found t (draw_ranked fl chess truncate one ws seen)
    unfolding draw_ranked
    draw_ranked-Found t [] seen stored = λ p h. ground arith
    draw_ranked-Found t (w ∷ ws) seen stored =
        answered (one w seen) refl (draw_ranked-Found t ws seen stored)
      where
        answered :
            (o : Except (Option (Puzzle fl.F)))
            → one w seen ≡ o
            → Found t (draw_ranked fl chess truncate one ws seen)
            → Found t (elim o [
              | err e ↦ err e
              | ok none ↦ draw_ranked fl chess truncate one ws seen
              | ok (some p) ↦ ok (some p)
            ])
        answered (err e) at rest = λ p h. ground arith
        answered (ok none) at rest = rest
        answered (ok (some q)) at rest = λ p h. stored w seen p (at ∙ h)

    put_ranked-Kept :
        (unset : Bool) (now : ℕ) (user : String) (d : Desk fl) (x : Except (Option (Puzzle fl.F)))
        → Found d.tables x
        → Kept user (put_ranked fl chess truncate one unset now user d x)
    unfolding Kept replace
    put_ranked-Kept unset now user d (err e) found = λ v h. ground arith
    put_ranked-Kept unset now user d (ok none) found = λ v h. ground arith
    put_ranked-Kept unset now user d (ok (some p)) found =
        if-cases unset After (λ _ v h. ground arith)
          (λ _.
            if-cases (same_option same_progress (value now (d.ranked user)) none) After
              (λ _ v h.
                let (row, there, same) = found p refl in
                record {
                  entry = record { value = drawn; expires = now + ranked_ttl };
                  row = row;
                  there = rw (eq_refl user) refl;
                  known = there;
                  seen = ap (λ q. view fl chess truncate q 0) same ∙ h;
                })
              (λ _ v h. ground arith))
      where
        drawn : InProgress
        drawn = record { puzzle_id = p.id; step = 0; started = now }

        After : Option (Entry InProgress) × Except (Unit {0}) → Type 0
        After x = Kept user (after_put fl chess truncate one p (set_ranked fl user x.0 d, x.1))

    new_puzzle-Kept :
        (f : Faults) (unset : Bool) (now : ℕ) (user : String) (d : Desk fl)
        → Stored one d.tables
        → Kept user (new_puzzle fl chess truncate one f unset now user d)
    unfolding Kept
    new_puzzle-Kept f unset now user d stored = rated (puzzle_rating fl f.store user d.tables)
      where
        rated :
            (r : Except (Player fl.F × ℕ))
            → Kept user (rated_draw fl chess truncate one f unset now user d r)
        rated (err e) = λ v h. ground arith
        rated (ok (player, solved)) =
            if-cases f.seen (Kept user) (λ _ v h. ground arith)
              (λ _.
                put_ranked-Kept unset now user d
                  (draw_ranked fl chess truncate one (windows (truncate player.rating))
                    (contains (d.seen user)))
                  (draw_ranked-Found d.tables (windows (truncate player.rating))
                    (contains (d.seen user)) stored))

    on_progress-Kept :
        (f : Faults) (unset : Bool) (now : ℕ) (user : String) (d : Desk fl)
        → Stored one d.tables
        → Kept user
            (on_progress fl chess truncate one f unset now user d (value now (d.ranked user)))
    unfolding Kept
    on_progress-Kept f unset now user d stored = held (value now (d.ranked user)) refl
      where
        dropped :
            (x : Desk fl × Except (Unit {0}))
            → x.0.tables ≡ d.tables
            → Kept user (after_drop fl chess truncate one f unset now user x)
        dropped (d', err e) same = λ v h. ground arith
        dropped (d', ok u) same =
            new_puzzle-Kept f unset now user d' (subst (Stored one) (sym same) stored)

        known :
            (s : InProgress) (o : Option (PuzzleRow fl))
            → value now (d.ranked user) ≡ some s
            → d.tables.puzzles s.puzzle_id ≡ o
            → Kept user (in_progress fl chess truncate one f unset now user s d o)
        known s none at row = dropped (replace_ranked fl f.replace now user (some s) none d) refl
        known s (some r) at row = λ v h.
            let (e, there, same) = value-there now (d.ranked user) s at in
            record {
              entry = e;
              row = r;
              there = there;
              known = ap (λ (x : InProgress). d.tables.puzzles x.puzzle_id) same ∙ row;
              seen = ap (λ (x : InProgress). view fl chess truncate r.puzzle x.step) same ∙ h;
            }

        held :
            (o : Option InProgress)
            → value now (d.ranked user) ≡ o
            → Kept user (on_progress fl chess truncate one f unset now user d o)
        held none at = new_puzzle-Kept f unset now user d stored
        held (some s) at =
            if-cases f.by_id (Kept user) (λ _ v h. ground arith)
              (λ _. known s (d.tables.puzzles s.puzzle_id) at refl)

  -- If a user is shown a ranked puzzle, and One only answers puzzles that the table holds, then
  -- as long as the state in Redis lives another request of that user, in which the state and the
  -- puzzle can be read, is shown the same puzzle at the same step and changes nothing, whatever
  -- One answers then: a puzzle cannot be reloaded away.
  pub handle_ranked_next-again :
      (one one' : Window → (Text → Bool) → Except (Option (Puzzle fl.F))) (f f' : Faults)
      (unset unset' : Bool) (now later : ℕ) (v : Visitor) (d : Desk fl) (r : RankedView)
      → Stored one d.tables
      → (handle_ranked_next fl chess truncate one f unset now (some v) d).1 ≡ shown r
      → ((e : Entry InProgress)
          → (handle_ranked_next fl chess truncate one f unset now (some v) d).0.ranked v.id ≡ some e
          → later < e.expires)
      → f'.get ≡ false
      → f'.by_id ≡ false
      → let d' = (handle_ranked_next fl chess truncate one f unset now (some v) d).0 in
        handle_ranked_next fl chess truncate one' f' unset' later (some v) d' ≡ (d', shown r)
  unfolding handle_ranked_next Kept
  handle_ranked_next-again one one' f f' unset unset' now later v d r stored =
      if-cases v.is_guest Again (λ _ h. ground arith)
        (λ member.
          if-cases f.get Again (λ _ h. ground arith)
            (λ _.
              again member
                (on_progress fl chess truncate one f unset now v.id d (value now (d.ranked v.id)))
                (on_progress-Kept one f unset now v.id d stored)))
    where
      Again : Desk fl × NextReply → Type 0
      Again x =
          x.1 ≡ shown r
          → ((e : Entry InProgress) → x.0.ranked v.id ≡ some e → later < e.expires)
          → f'.get ≡ false
          → f'.by_id ≡ false
          → handle_ranked_next fl chess truncate one' f' unset' later (some v) x.0 ≡ (x.0, shown r)

      again : v.is_guest ≡ false → (x : Desk fl × NextReply) → Kept v.id x → Again x
      again member x kept h lives read found =
          let held = kept r h in
          let soon : ltb later held.entry.expires ≡ true =
            ground (arith, lives held.entry held.there) in
          rw (member, read, held.there, soon, found, held.known, held.seen) refl
