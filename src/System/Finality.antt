-- ===== src/System/Finality.antt =====
-- Games that are over, and games between friends.
use blundernet.Base.{
  ℕ, ◌≡◌, ◌≢◌, refl, sym, subst, ◌∙◌, ap, String, str_eq, eq_iff, true, Option, none, some, ◌⊎◌,
  inl, inr, arith, if-cases, Bool-cases,
}
use mathlib.Core.Option.{some-injective}
use mathlib.Core.List.{Memᴰ}
use blundernet.Errors.{Except, ok, err}
use blundernet.Chess.{Rules, no_outcome}
use blundernet.Game.{Game, finished}
use blundernet.Game.Valid.{SameResult}
use blundernet.Store.Games.{Db, put, bump, expire, get}
use blundernet.World.{World, Faults, Job, Kind, move, hint, review, import}
use blundernet.Api.Edits.{Change, kept, wrote}
use blundernet.Api.Effects.{
  Transition, handle_move-Transition, handle_resign-Transition, handle_join-Transition,
  handle_hint-Transition, handle_review_start-Transition,
}
use blundernet.Api.Creation.{Creation, handle_create-Creation}
use blundernet.Worker.{dispatch, after_read, process, is_import}
use blundernet.Worker.Deliveries.{process-Transition, process_hint-Quiet, after_read-err}
use blundernet.Worker.Stale.{process-Spent}
use blundernet.System.{
  Site, Action, creates, moves, resigns, joins, hints, reviews, delivers, expires, perform,
}
use blundernet.System.Promises.{AllValid, Good}

-- The key ran out, or a game that went the same way is there.
abbrev pub Final : Game → Option Game → Type 0
Final g o = (o ≡ none) ⊎ ((h : Game) × (o ≡ some h) × SameResult g h)

same-Final : (g : Game) (db db' : Db) (id : String) → db id ≡ some g → db' ≡ db → Final g (db' id)
same-Final g db db' id e p = inr (g, ap (λ (d : Db). d id) p ∙ e, ground arith)

expire-Final :
    (id : String) (db : Db) (k : String) (g : Game) → db k ≡ some g → Final g (expire id db k)
unfolding expire
expire-Final id db k g e = elim (Bool-cases (str_eq id k)) [
  | inl gone ↦ rw gone (inl refl)
  | inr stays ↦ rw stays (same-Final g db db k e refl)
]

module _ (rules : Rules) where
  put-Final :
      (g x : Game) (db : Db) (k : String)
      → (x.id ≡ k → SameResult g x)
      → Final g (db k)
      → Final g (put db x.id (some (bump x)) k)
  put-Final g x db k mine other = elim (Bool-cases (str_eq x.id k)) [
    | inl here ↦ inr (bump x, rw here refl, bumped (mine ((eq_iff x.id k).0 here)))
    | inr away ↦ rw away other
  ]
    where
      bumped : SameResult g x → SameResult g (bump x)
      bumped s = ground arith

  Change-Final :
      {id : String} {db db' : Db} (k : String) (g : Game)
      → Change rules id db db'
      → AllValid rules db
      → db k ≡ some g
      → g.status ≡ finished
      → Final g (db' k)
  Change-Final k g (kept p) valid e over = same-Final g _ _ k e p
  Change-Final {id} {db} {db'} k g (wrote h h' e' ed p) valid e over =
      subst (λ (d : Db). Final g (d k)) (sym p)
        (put-Final g h' db k
          (λ mine.
            subst (λ (x : Game). SameResult x h') (sym (same mine))
              (ed.final (subst (λ (x : Game). x.status ≡ finished) (same mine) over)))
          (same-Final g db db k e refl))
    where
      same : h'.id ≡ k → g ≡ h
      same mine =
          let at : id ≡ k = sym (valid id h e').0 ∙ sym ed.seats.id ∙ mine in
          some-injective g h (sym e ∙ ap db (sym at) ∙ e')

module _ (site : Site) (fresh : site.rules.outcome site.rules.start ≡ no_outcome) where
  open site use {fl, rules, engine, hard, reviewed}

  Transition-Final :
      {w w' : World fl} (k : String) (g : Game)
      → Transition fl rules w w'
      → Good site fresh w
      → w.games k ≡ some g
      → g.status ≡ finished
      → Final g (w'.games k)
  Transition-Final k g t h e over = Change-Final rules k g t.change h.valid e over

  Creation-Final :
      {id : String} {w w' : World fl} (k : String) (g : Game)
      → Creation fl rules id w w'
      → w.games k ≡ some g
      → Final g (w'.games k)
  Creation-Final {id} {w} {w'} k g c e =
      subst (λ (d : Db). Final g (d k)) (sym c.stored)
        (put-Final rules g c.game w.games k (λ mine. absurd (ground (arith, c.free, c.named)))
          (same-Final g w.games w.games k e refl))

  -- In a world that keeps the site's promises, a finished game stays as it ended under every
  -- request and delivery: afterwards its key has run out, or a game with the same moves, ply,
  -- status, result and reason stands there.
  pub perform-Final :
      (f : Faults) (a : Action) (w : World fl) (k : String) (g : Game)
      → Good site fresh w
      → w.games k ≡ some g
      → g.status ≡ finished
      → Final g ((perform site f a w).games k)
  unfolding perform
  perform-Final f (creates now id owner rung color mode level) w k g h e over =
      elim (handle_create-Creation fl rules f now id owner rung color mode level w fresh) [
        | inl t ↦ Transition-Final k g t h e over
        | inr c ↦ Creation-Final k g c e
      ]
  perform-Final f (moves fuel now caller id body) w k g h e over =
      Transition-Final k g (handle_move-Transition fl rules f fuel now caller id body w) h e over
  perform-Final f (resigns fuel now caller id) w k g h e over =
      Transition-Final k g (handle_resign-Transition fl rules f fuel now caller id w) h e over
  perform-Final f (joins who id) w k g h e over =
      Transition-Final k g (handle_join-Transition fl rules f who id w) h e over
  perform-Final f (hints id) w k g h e over =
      Transition-Final k g (handle_hint-Transition fl rules f id w) h e over
  perform-Final f (reviews stored id) w k g h e over =
      Transition-Final k g (handle_review_start-Transition fl rules f stored id w) h e over
  perform-Final f (delivers fuel now j) w k g h e over =
      Transition-Final k g (process-Transition fl rules engine hard reviewed f fuel now j w) h e
        over
  perform-Final f (expires id) w k g h e over = expire-Final id w.games k g e

  process-quiet :
      (f : Faults) (fuel now : ℕ) (j : Job) (w : World fl)
      → j.kind ≢ move
      → (process fl rules engine hard reviewed f fuel now j w).0.games ≡ w.games
  unfolding process
  process-quiet f fuel now j w other =
      if-cases (is_import j.kind) (λ (p : World fl × Except (Unit {0})). p.0.games ≡ w.games)
        (λ _. refl) (λ _. found (get f.read j.game_id w.games))
    where
      dispatched :
          (kind : Kind) (g : Game)
          → kind ≢ move
          → (dispatch fl rules engine hard reviewed kind f fuel now g j w).0.games ≡ w.games
      dispatched move g o = absurd (o refl)
      dispatched hint g o = (process_hint-Quiet fl rules engine hard f g j w).0
      dispatched review g o = refl
      dispatched import g o = refl

      found :
          (r : Except Game)
          → (after_read fl rules engine hard reviewed f fuel now j w r).0.games ≡ w.games
      found (ok g) = dispatched j.kind g other
      found (err x) = (after_read-err fl rules engine hard reviewed f fuel now j w x).0

  is_move : (k : Kind) → (k ≡ move) ⊎ (k ≢ move)
  is_move move = inl refl
  is_move hint = inr (λ e. cc)
  is_move review = inr (λ e. cc)
  is_move import = inr (λ e. cc)

  -- In a world that keeps the site's promises, no delivery of a job that was sent changes the
  -- stored games if the job names a friend game: the bot never moves for a person.
  pub friend_game-process :
      (f : Faults) (fuel now : ℕ) (j : Job) (w : World fl) (g : Game)
      → Good site fresh w
      → Memᴰ j w.jobs
      → w.games j.game_id ≡ some g
      → g.friend ≡ true
      → (process fl rules engine hard reviewed f fuel now j w).0.games ≡ w.games
  friend_game-process f fuel now j w g h m e friendly = elim (is_move j.kind) [
    | inr other ↦ process-quiet f fuel now j w other
    | inl asked ↦ process-Spent fl rules engine hard reviewed f fuel now j w asked (λ x p.
        elim (h.botless j m x p asked) [
          | inl alone ↦ absurd (ground arith)
          | inr over ↦ inr (inr over)
        ])
  ]
