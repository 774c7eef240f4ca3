-- ===== src/System/Promises.antt =====
-- What holds of every world that the site can reach.
use blundernet.Base.{
  ◌≡◌, ◌≢◌, sym, subst, ◌∙◌, String, eq_iff, List, ◌∷◌, false, Option, none, some, ◌⊎◌, inl, inr,
  arith,
}
use mathlib.Core.List.{Memᴰ}
use blundernet.Chess.{Rules, no_outcome}
use blundernet.Game.{Game, finished}
use blundernet.Game.Valid.{IsValid, IsValid-SameResult}
use blundernet.Store.Games.{Db, put, bump, expire}
use blundernet.World.{World, Faults, Job}
use blundernet.Api.Edits.{IsEdit, Change, kept, wrote}
use blundernet.Api.Effects.{
  JobOk, JobsGrow, same, more, Transition, handle_move-Transition, handle_resign-Transition,
  handle_join-Transition, handle_hint-Transition, handle_review_start-Transition,
}
use blundernet.Api.Creation.{Creation, handle_create-Creation}
use blundernet.Worker.Deliveries.{process-Transition}
use blundernet.System.{
  Site, Action, creates, moves, resigns, joins, hints, reviews, delivers, expires, perform, Allowed,
  Reach, here, next,
}

put_cases :
    (db : Db) (id k : String) (e : Option Game) (h : Game)
    → put db id e k ≡ some h
    → ((id ≡ k) × (e ≡ some h)) ⊎ ((id ≢ k) × (db k ≡ some h))
put_cases db id k e h p = ground (arith, eq_iff id k)

module _ (rules : Rules) where
  -- Every stored game stands under its own id and is valid.
  abbrev pub AllValid : Db → Type 0
  AllValid db = (id : String) (g : Game) → db id ≡ some g → (g.id ≡ id) × IsValid rules g

  -- No job asks the bot to move in a friend game that is still going on.
  abbrev pub AllOk : List Job → Db → Type 0
  AllOk jobs db = (j : Job) → Memᴰ j jobs → JobOk j db

  bump-IsValid : (g : Game) → IsValid rules g → IsValid rules (bump g)
  bump-IsValid g v = IsValid-SameResult rules g (bump g) (ground arith) v

  put-AllValid :
      (db : Db) (g : Game) → IsValid rules g → AllValid db → AllValid (put db g.id (some (bump g)))
  put-AllValid db g v all k h e = elim (put_cases db g.id k (some (bump g)) h e) [
    | inl (i, s) ↦ (ground arith, subst (IsValid rules) (ground arith) (bump-IsValid g v))
    | inr (_, old) ↦ all k h old
  ]

  Change-AllValid :
      {id : String} {db db' : Db} → Change rules id db db' → AllValid db → AllValid db'
  Change-AllValid (kept e) all = subst AllValid (sym e) all
  Change-AllValid {id} {db} (wrote g g' e ed p) all =
      subst AllValid (sym p) (put-AllValid db g' (ed.valid (all id g e).1) all)

  JobOk-put :
      (id : String) (db : Db) (g g' : Game) (j : Job)
      → db id ≡ some g
      → g.id ≡ id
      → IsEdit rules g g'
      → JobOk j db
      → JobOk j (put db g'.id (some (bump g')))
  JobOk-put id db g g' j e i ed fine h p k = elim (put_cases db g'.id j.game_id _ h p) [
    | inl (mine, s) ↦
        carried s (fine g (subst (λ n. db n ≡ some g) (sym i ∙ sym ed.seats.id ∙ mine) e) k)
    | inr (_, old) ↦ fine h old k
  ]
    where
      carried :
          ◌≡◌ {A = Option Game} (some (bump g')) (some h)
          → (g.friend ≡ false) ⊎ (g.status ≡ finished)
          → (h.friend ≡ false) ⊎ (h.status ≡ finished)
      carried s (inl f) = inl (ground (arith, ed.seats.friend))
      carried s (inr f) = inr (ground (arith, (ed.final f).status))

  Change-AllOk :
      {id : String} {db db' : Db} (jobs : List Job)
      → Change rules id db db'
      → AllValid db
      → AllOk jobs db
      → AllOk jobs db'
  Change-AllOk jobs (kept e) all fine = subst (AllOk jobs) (sym e) fine
  Change-AllOk {id} {db} jobs (wrote g g' e ed p) all fine =
      subst (AllOk jobs) (sym p) (λ j m. JobOk-put id db g g' j e (all id g e).0 ed (fine j m))

  JobsGrow-AllOk :
      {db : Db} {jobs jobs' : List Job} → JobsGrow jobs db jobs' → AllOk jobs db → AllOk jobs' db
  JobsGrow-AllOk {db} (same e) fine = subst (λ js. AllOk js db) (sym e) fine
  JobsGrow-AllOk {db} {jobs} (more j e ok') fine = subst (λ js. AllOk js db) (sym e) grown
    where
      grown : AllOk (j ∷ jobs) db
      grown k (Memᴰ.head p) = subst (λ x. JobOk x db) (sym p) ok'
      grown k (Memᴰ.tail m) = fine k m

module _ (site : Site) (fresh : site.rules.outcome site.rules.start ≡ no_outcome) where
  open site use {fl, rules}

  pub record Good (w : World fl) : Type 0 where
    pub valid : AllValid rules w.games
    pub botless : AllOk rules w.jobs w.games

  Transition-Good : {w w' : World fl} → Transition fl rules w w' → Good w → Good w'
  Transition-Good {w} t h = record {
    valid = Change-AllValid rules t.change h.valid;
    botless = JobsGrow-AllOk rules t.jobs (Change-AllOk rules w.jobs t.change h.valid h.botless);
  }

  Creation-Good :
      {id : String} {w w' : World fl}
      → ((j : Job) → Memᴰ j w.jobs → j.game_id ≢ id)
      → Creation fl rules id w w'
      → Good w
      → Good w'
  Creation-Good {id} {w} unused c h = record {
    valid =
        subst (AllValid rules) (sym c.stored) (put-AllValid rules w.games c.game c.valid h.valid);
    botless = JobsGrow-AllOk rules c.jobs (subst (AllOk rules w.jobs) (sym c.stored) untouched);
  }
    where
      untouched : AllOk rules w.jobs (put w.games c.game.id (some (bump c.game)))
      untouched j m g p k = elim (put_cases w.games c.game.id j.game_id _ g p) [
        | inl (mine, _) ↦ absurd (unused j m (sym mine ∙ c.named))
        | inr (_, old) ↦ h.botless j m g old k
      ]

  expire-Good :
      (id : String) (w : World fl) → Good w → Good (record w { games = expire id w.games })
  unfolding expire
  expire-Good id w h = record {
    valid = λ k g p. elim (put_cases w.games id k none g p) [
      | inl (_, s) ↦ absurd (ground arith)
      | inr (_, old) ↦ h.valid k g old
    ];
    botless = λ j m g p k. elim (put_cases w.games id j.game_id none g p) [
      | inl (_, s) ↦ absurd (ground arith)
      | inr (_, old) ↦ h.botless j m g old k
    ];
  }

  pub perform-Good :
      (f : Faults) (a : Action) (w : World fl)
      → Allowed site a w
      → Good w
      → Good (perform site f a w)
  unfolding perform
  perform-Good f (creates now id owner rung color mode level) w unused h =
      elim (handle_create-Creation fl rules f now id owner rung color mode level w fresh) [
        | inl t ↦ Transition-Good t h
        | inr c ↦ Creation-Good unused c h
      ]
  perform-Good f (moves fuel now caller id body) w a h =
      Transition-Good (handle_move-Transition fl rules f fuel now caller id body w) h
  perform-Good f (resigns fuel now caller id) w a h =
      Transition-Good (handle_resign-Transition fl rules f fuel now caller id w) h
  perform-Good f (joins who id) w a h =
      Transition-Good (handle_join-Transition fl rules f who id w) h
  perform-Good f (hints id) w a h = Transition-Good (handle_hint-Transition fl rules f id w) h
  perform-Good f (reviews stored id) w a h =
      Transition-Good (handle_review_start-Transition fl rules f stored id w) h
  perform-Good f (delivers fuel now j) w a h =
      Transition-Good
        (process-Transition fl rules site.engine site.hard site.reviewed f fuel now j w) h
  perform-Good f (expires id) w a h = expire-Good id w h

  -- If the position that chess starts from is undecided, then from a world whose games are valid
  -- and whose jobs are harmless, whatever requests and deliveries follow and whatever outside
  -- calls fail, as long as a new game's id is one that no job names, every stored game stands
  -- under its own id, replays through the rules, has a ply that counts its moves, is finished
  -- exactly when it has a result and then names how it ended; and no job asks the bot to move in
  -- a friend game that is still going on.
  pub Reach-Good : {w v : World fl} → Good w → Reach site w v → Good v
  Reach-Good h here = h
  Reach-Good h (next {v = v} f a r allowed) = perform-Good f a v allowed (Reach-Good h r)
