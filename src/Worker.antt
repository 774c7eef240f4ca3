-- ===== src/Worker.antt =====
-- internal/worker/worker.go: one delivery of a job. An answer `err` leaves the message on the queue
-- for redelivery. The engines are parameters. Archive and accounts are configured.
pub mod Deliveries
pub mod Stale
pub mod Pace
use blundernet.Base.{
  ℕ, zero, suc, ◌≡◌, refl, Text, String, Bool, true, false, not, ◌&&◌, ◌||◌, Option, none, some,
  ◌==◌, leb, if◌then◌else◌,
}
use blundernet.Base.Int.{ℤ, pos, negsuc}
use blundernet.Errors.{Except, ok, err, Error, not_found, conflict, backend}
use blundernet.Chess.{color_eq, Rules}
use blundernet.Float.{Float64}
use blundernet.Game.{Game, is_finished, turn, engine_color, fen, apply_move}
use blundernet.Store.Games.{Db, update, get}
use blundernet.Store.Ratings.{save_finished}
use blundernet.World.{Kind, move, hint, review, import, Job, World, Faults, state, hint_for}
use blundernet.Engine.Levels.{Engine, max_level, is_hard, adapt}
use blundernet.Api.{publish}

abbrev pub is_import : Kind → Bool
is_import import = true
is_import _ = false

abbrev is_not_positive : ℤ → Bool
is_not_positive (negsuc n) = true
is_not_positive (pos zero) = true
is_not_positive (pos (suc n)) = false

module _ (fl : Float64) (rules : Rules) (engine : Engine fl.F) (hard : Option (Engine fl.F)) where
  unfoldable pub level_for : Game → ℤ
  level_for g =
      if g.rated || g.friend
      then g.level
      else if is_hard g.level
      then g.level
      else elim engine.score [
        | none ↦ g.level
        | some score ↦ elim (score (fen rules g)) [
          | err e ↦ g.level
          | ok value ↦ adapt fl g.level value
        ]
      ]

  unfoldable pub network_move : Game → Except Text
  network_move g = elim engine.at_level [
    | none ↦ engine.best_move (fen rules g)
    | some at ↦
        if is_not_positive g.level
        then engine.best_move (fen rules g)
        else at (fen rules g) (level_for g)
  ]

  unfoldable pub best_move : Game → Except Text
  best_move g =
      if is_hard g.level
      then elim hard [ none ↦ network_move g | some h ↦ h.best_move (fen rules g) ]
      else network_move g

  unfoldable pub hint_move : Game → Except Text
  hint_move g = elim engine.at_level [
    | none ↦ engine.best_move (fen rules g)
    | some at ↦ at (fen rules g) max_level
  ]

  abbrev pub Answer : Type 0
  Answer = World fl × Except (Unit {0})

  unfoldable pub process_hint : Faults → Game → Job → World fl → Answer
  process_hint f g j w =
      if not (g.ply == j.ply) || is_finished g.status || not (color_eq (turn g) g.player_color)
      then (w, ok tt)
      else elim (hint_move g) [
        | err e ↦ (w, err e)
        | ok uci ↦ if f.publish then (w, err backend) else (publish fl false (hint_for g) w, ok tt)
      ]

  -- After the write: announce the state, and archive a game that the move ended.
  unfoldable pub announce : Faults → ℕ → Game → World fl → Answer
  announce f fuel g w =
      let w' = publish fl f.publish (state g) w in
      if is_finished g.status
      then (let (a, r) = save_finished fl f.archive fuel g w'.archive in
          (record w' { archive = a }, r))
      else (w', ok tt)

  abbrev pub give_up : Error → World fl → Answer
  give_up conflict w = (w, ok tt)
  give_up e w = (w, err e)

  abbrev pub after_write : Faults → ℕ → World fl → Db × Except Game → Answer
  after_write f fuel w (db, err e) = give_up e w
  after_write f fuel w (db, ok g) = announce f fuel g (record w { games = db })

  abbrev pub after_apply : Faults → ℕ → Game → World fl → Except Game → Answer
  after_apply f fuel g w (err e) = (w, err e)
  after_apply f fuel g w (ok g') = after_write f fuel w (update f.write g' g.ply w.games)

  abbrev pub after_thought : Faults → ℕ → ℕ → Game → World fl → Except Text → Answer
  after_thought f fuel now g w (err e) = (w, err e)
  after_thought f fuel now g w (ok uci) =
      after_apply f fuel g w (apply_move rules now (engine_color g) uci g)

  unfoldable pub play : Faults → ℕ → ℕ → Game → World fl → Answer
  play f fuel now g w = after_thought f fuel now g w (best_move g)

  unfoldable pub process_move : Faults → ℕ → ℕ → Game → Job → World fl → Answer
  process_move f fuel now g j w =
      if is_finished g.status
      then (let (a, r) = save_finished fl f.archive fuel g w.archive in
          (record w { archive = a }, r))
      else if not (g.ply == j.ply) || not (color_eq (turn g) (engine_color g))
      then (w, ok tt)
      else play f fuel now g w

  -- A review (worker/review.go) writes its own table only: here it is its answer.
  module _ (reviewed : Job → Except (Unit {0})) where
    abbrev pub dispatch : Kind → Faults → ℕ → ℕ → Game → Job → World fl → Answer
    dispatch move f fuel now g j w = process_move f fuel now g j w
    dispatch hint f fuel now g j w = process_hint f g j w
    dispatch _ f fuel now g j w = (w, if is_finished g.status then reviewed j else ok tt)

    abbrev pub after_read : Faults → ℕ → ℕ → Job → World fl → Except Game → Answer
    after_read f fuel now j w (ok g) = dispatch j.kind f fuel now g j w
    after_read f fuel now j w (err not_found) = (w, ok tt)
    after_read f fuel now j w (err e) = (w, err e)

    unfoldable pub process : Faults → ℕ → ℕ → Job → World fl → Answer
    process f fuel now j w =
        if is_import j.kind
        then (w, reviewed j)
        else after_read f fuel now j w (get f.read j.game_id w.games)
