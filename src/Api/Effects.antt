-- ===== src/Api/Effects.antt =====
-- What the handlers do to the stored games and to the queue.
use blundernet.Base.{
  ℕ, ◌≡◌, ◌≢◌, refl, sym, subst, ◌∙◌, ap, String, str_eq, Text, text_eq, List, [], ◌∷◌, Bool, true,
  false, not, ◌||◌, Option, none, some, ◌⊎◌, inl, inr, arith, Option-cases, if◌then◌else◌,
}
use mathlib.Core.Option.{some-injective}
use blundernet.Errors.{Except, ok, err}
use blundernet.Chess.{Color, color_eq, Rules}
use blundernet.Float.{Float64}
use blundernet.Game.{Game, finished, is_finished, turn, apply_move, resign, color_for}
use blundernet.Store.Games.{Db, put, bump, get}
use blundernet.Store.Games.Answers.{update-Answers, put_self}
use blundernet.World.{World, Faults, Job, Kind, move, hint, review, state}
use blundernet.Api.{
  Reply, Caller, user_id_of, from_game, Edit, edited, denied, edit_move, edit_resign, after_change,
  archive_or_retry, commit, apply_edit, take_seat, with_game, join_as, join_game, hint_game,
  handle_move, handle_resign, handle_join, handle_hint, handle_review_start, start_review,
  is_stored,
}
use blundernet.Api.Edits.{
  IsEdit, Change, kept, wrote, apply_move-IsEdit, resign-IsEdit, join-IsEdit,
}

-- A move job names no friend game that is still going on: the bot has no seat there.
abbrev pub JobOk : Job → Db → Type 0
JobOk j db =
    (h : Game) → db j.game_id ≡ some h → j.kind ≡ move → (h.friend ≡ false) ⊎ (h.status ≡ finished)

pub data JobsGrow (jobs : List Job) (db : Db) (jobs' : List Job) : Type 0 where
  same : jobs' ≡ jobs → JobsGrow jobs db jobs'
  more : (j : Job) → jobs' ≡ j ∷ jobs → JobOk j db → JobsGrow jobs db jobs'

module _ (fl : Float64) where
  abbrev pub JobFrom : ℕ → Game → World fl → World fl → Type 0
  JobFrom ply g w w' =
      (w'.games ≡ w.games)
      × ((w'.jobs ≡ w.jobs)
          ⊎ ((w'.jobs ≡ record { game_id = g.id; ply = ply; kind = move } ∷ w.jobs)
              × ((g.friend ≡ false) ⊎ (g.status ≡ finished))))

  archive_or_retry-JobFrom :
      (f : Faults) (fuel : ℕ) (g : Game) (w : World fl)
      → g.status ≡ finished
      → JobFrom g.ply g w (archive_or_retry fl f fuel g w)
  unfolding archive_or_retry
  archive_or_retry-JobFrom f fuel g w e = ground arith

  pub after_change-JobFrom :
      (f : Faults) (fuel : ℕ) (g : Game) (w : World fl)
      → JobFrom g.ply g w (after_change fl f fuel g w)
  unfolding after_change
  after_change-JobFrom f fuel g w = ground (
    arith,
    archive_or_retry-JobFrom f fuel g w,
    archive_or_retry-JobFrom f fuel g (record w { events = state g ∷ w.events }),
  )

  pub JobFrom-Grow :
      (ply : ℕ) (g : Game) (w w' : World fl)
      → w.games g.id ≡ some g
      → JobFrom ply g w w'
      → JobsGrow w.jobs w'.games w'.jobs
  JobFrom-Grow ply g w w' e (games, inl jobs) = same jobs
  JobFrom-Grow ply g w w' e (games, inr (jobs, fine)) = more _ jobs (λ h f _.
      let e' : g ≡ h = some-injective g h (sym e ∙ ap (λ (d : Db). d g.id) (sym games) ∙ f) in
      subst (λ (x : Game). (x.friend ≡ false) ⊎ (x.status ≡ finished)) e' fine)

module _ (fl : Float64) (rules : Rules) where
  -- One request or delivery: an edit of one stored game at most, and a harmless job at most.
  pub record Transition (w w' : World fl) : Type 0 where
    pub id : String
    pub change : Change rules id w.games w'.games
    pub jobs : JobsGrow w.jobs w'.games w'.jobs

  pub Transition-none : (id : String) (w : World fl) → Transition w w
  Transition-none id w = record { id = id; change = kept refl; jobs = same refl }

  commit-Transition :
      (f : Faults) (fuel : ℕ) (id : String) (g g' : Game) (w : World fl)
      → w.games id ≡ some g
      → IsEdit rules g g'
      → Transition w (commit fl f fuel g.ply g' w).0
  unfolding commit
  commit-Transition f fuel id g g' w e ed = elim (update-Answers f.write g' g.ply w.games) [
    | inr (x, refused') ↦ rw (commit, refused') (Transition-none id w)
    | inl stored ↦
        let w' : World fl = record w { games = put w.games g'.id (some (bump g')) } in
        let after = after_change-JobFrom fl f fuel (bump g') w' in
        rw (commit, stored)
          (record {
            id = id;
            change = wrote g g' e ed after.0;
            jobs =
                JobFrom-Grow fl g'.ply (bump g') w' (after_change fl f fuel (bump g') w')
                  (put_self w.games (bump g')) after;
          })
  ]

  -- Both branches of a test.
  pub if-Transition {ℓ} :
      {A : Type ℓ} {w : World fl} (b : Bool) (p q : World fl × A)
      → Transition w p.0
      → Transition w q.0
      → Transition w (if b then p else q).0
  if-Transition true p q h k = h
  if-Transition false p q h k = k

  pub read-eq :
      (lost : Bool) (id : String) (db : Db) (g : Game) → get lost id db ≡ ok g → db id ≡ some g
  unfolding get
  read-eq lost id db g e = ground arith

  abbrev EditOk : Game → Edit → Type 0
  EditOk g (denied r) = Unit {0}
  EditOk g (edited g') = IsEdit rules g g'

  edit_move-EditOk :
      (now : ℕ) (c : Caller) (uci : Text) (g : Game) → EditOk g (edit_move rules now c uci g)
  unfolding edit_move
  edit_move-EditOk now c uci g = elim (Option-cases (color_for g (user_id_of c))) [
    | inl watcher ↦ rw (edit_move, watcher) tt
    | inr (color, seat) ↦ rw (edit_move, seat) (moved color (apply_move rules now color uci g) refl)
  ]
    where
      moved :
          (color : Color) (r : Except Game)
          → apply_move rules now color uci g ≡ r
          → EditOk g (from_game r)
      moved color (ok g') e = apply_move-IsEdit rules now color uci g g' e
      moved color (err x) e = tt

  edit_resign-EditOk : (now : ℕ) (c : Caller) (g : Game) → EditOk g (edit_resign now c g)
  unfolding edit_resign
  edit_resign-EditOk now c g = elim (Option-cases (color_for g (user_id_of c))) [
    | inl watcher ↦ rw (edit_resign, watcher) tt
    | inr (color, seat) ↦ rw (edit_resign, seat) (resigned color (resign now color g) refl)
  ]
    where
      resigned : (color : Color) (r : Except Game) → resign now color g ≡ r → EditOk g (from_game r)
      resigned color (ok g') e = resign-IsEdit rules now color g g' e
      resigned color (err x) e = tt

  apply_edit-Transition :
      (f : Faults) (fuel : ℕ) (id : String) (g : Game) (ed : Edit) (w : World fl)
      → w.games id ≡ some g
      → EditOk g ed
      → Transition w (apply_edit fl f fuel g ed w).0
  unfolding apply_edit
  apply_edit-Transition f fuel id g (denied r) w e h = Transition-none id w
  apply_edit-Transition f fuel id g (edited g') w e h = commit-Transition f fuel id g g' w e h

  with_game-Transition :
      (lost : Bool) (id : String) (w : World fl) (k : Game → World fl × Reply)
      → ((g : Game) → w.games id ≡ some g → Transition w (k g).0)
      → Transition w (with_game fl w (get lost id w.games) k).0
  with_game-Transition lost id w k step = found (get lost id w.games) refl
    where
      found : (r : Except Game) → get lost id w.games ≡ r → Transition w (with_game fl w r k).0
      found (err e) h = Transition-none id w
      found (ok g) h = step g (read-eq lost id w.games g h)

  pub handle_move-Transition :
      (f : Faults) (fuel now : ℕ) (c : Caller) (id : String) (body : Option Text) (w : World fl)
      → Transition w (handle_move fl rules f fuel now c id body w).0
  unfolding handle_move
  handle_move-Transition f fuel now c id none w = Transition-none id w
  handle_move-Transition f fuel now c id (some uci) w =
      if-Transition (text_eq uci []) _ _ (Transition-none id w) (
        with_game-Transition f.read id w _
          (λ g e. apply_edit-Transition f fuel id g _ w e (edit_move-EditOk now c uci g)))

  pub handle_resign-Transition :
      (f : Faults) (fuel now : ℕ) (c : Caller) (id : String) (w : World fl)
      → Transition w (handle_resign fl f fuel now c id w).0
  unfolding handle_resign
  handle_resign-Transition f fuel now c id w =
      with_game-Transition f.read id w _
        (λ g e. apply_edit-Transition f fuel id g _ w e (edit_resign-EditOk now c g))

  take_seat-Transition :
      (f : Faults) (id user : String) (g : Game) (w : World fl)
      → w.games id ≡ some g
      → Transition w (take_seat fl f user g w).0
  unfolding take_seat
  take_seat-Transition f id user g w e =
      elim (update-Answers f.write (record g { opponent_id = user }) g.ply w.games) [
        | inr (x, refused') ↦ rw (take_seat, refused') (Transition-none id w)
        | inl stored ↦
            rw (take_seat, stored)
              (record {
                id = id;
                change = wrote g _ e (join-IsEdit rules g user) refl;
                jobs = same refl;
              })
      ]

  join_as-Transition :
      (f : Faults) (id : String) (g : Game) (who : Option String) (w : World fl)
      → w.games id ≡ some g
      → Transition w (join_as fl f g who w).0
  unfolding join_as
  join_as-Transition f id g none w e = Transition-none id w
  join_as-Transition f id g (some user) w e =
      if-Transition (str_eq user g.user_id || str_eq user g.opponent_id) _ _ (Transition-none id w)
        (if-Transition (not (str_eq g.opponent_id "")) _ _ (Transition-none id w)
          (take_seat-Transition f id user g w e))

  pub handle_join-Transition :
      (f : Faults) (who : Option String) (id : String) (w : World fl)
      → Transition w (handle_join fl f who id w).0
  unfolding handle_join join_game
  handle_join-Transition f who id w = with_game-Transition f.read id w _ λ g e.
      if-Transition (not g.friend) _ _ (Transition-none id w)
        (if-Transition f.identity _ _ (Transition-none id w) (join_as-Transition f id g who w e))

  quiet_job-JobOk :
      (k : Kind) (g : Game) (db : Db)
      → k ≢ move
      → JobOk (record { game_id = g.id; ply = g.ply; kind = k }) db
  quiet_job-JobOk k g db ne h e same' = absurd (ne same')

  pub handle_review_start-Transition :
      (f : Faults) (stored : Except Bool) (id : String) (w : World fl)
      → Transition w (handle_review_start fl f stored id w).0
  unfolding handle_review_start start_review
  handle_review_start-Transition f stored id w = with_game-Transition f.read id w _ λ g e.
      if-Transition (not (is_finished g.status)) _ _ (Transition-none id w) (
        if-Transition (is_stored stored) _ _ (Transition-none id w) (
          if-Transition f.enqueue _ _ (Transition-none id w) (record {
            id = id;
            change = kept refl;
            jobs = more _ refl (quiet_job-JobOk review g w.games (λ k. cc));
          })))

  pub handle_hint-Transition :
      (f : Faults) (id : String) (w : World fl) → Transition w (handle_hint fl f id w).0
  unfolding handle_hint hint_game
  handle_hint-Transition f id w = with_game-Transition f.read id w _ λ g e.
      if-Transition g.rated _ _ (Transition-none id w) (
        if-Transition (is_finished g.status || not (color_eq (turn g) g.player_color)) _ _
          (Transition-none id w)
          (if-Transition f.enqueue _ _ (Transition-none id w) (record {
            id = id;
            change = kept refl;
            jobs = more _ refl (quiet_job-JobOk hint g w.games (λ k. cc));
          })))
