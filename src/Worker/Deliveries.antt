-- ===== src/Worker/Deliveries.antt =====
-- What a delivery does to the shared state.
use blundernet.Base.{ℕ, ◌≡◌, refl, String, Text, not, ◌||◌, Option, some, inl, inr, arith, ◌==◌}
use blundernet.Errors.{Error, Except, ok, err}
use blundernet.Chess.{color_eq, Rules}
use blundernet.Float.{Float64}
use blundernet.Game.{Game, is_finished, turn, engine_color, apply_move}
use blundernet.Store.Games.{put, bump, get}
use blundernet.Store.Games.Answers.{update-Answers}
use blundernet.World.{World, Faults, Job, Kind, move, hint, review, import}
use blundernet.Engine.Levels.{Engine}
use blundernet.Api.Edits.{kept, wrote, apply_move-IsEdit}
use blundernet.Api.Effects.{Transition, Transition-none, if-Transition, read-eq, same}
use blundernet.Worker.{
  best_move, process_hint, announce, give_up, after_apply, after_thought, play, process_move,
  dispatch, after_read, is_import, process,
}

module _ (fl : Float64) (rules : Rules) (engine : Engine fl.F) (hard : Option (Engine fl.F)) where
  -- A delivery sends no job, and touches the games only to play a move in the one it names.
  abbrev pub Quiet : World fl → World fl → Type 0
  Quiet w w' = (w'.games ≡ w.games) × (w'.jobs ≡ w.jobs)

  pub process_hint-Quiet :
      (f : Faults) (g : Game) (j : Job) (w : World fl)
      → Quiet w (process_hint fl rules engine hard f g j w).0
  unfolding process_hint
  process_hint-Quiet f g j w = ground arith

  pub announce-Quiet :
      (f : Faults) (fuel : ℕ) (g : Game) (w : World fl)
      → Quiet w (announce fl rules engine hard f fuel g w).0
  unfolding announce
  announce-Quiet f fuel g w = ground arith

  give_up-Quiet : (e : Error) (w : World fl) → Quiet w (give_up fl rules engine hard e w).0
  give_up-Quiet e w = ground arith

  Quiet-Transition : (id : String) (w w' : World fl) → Quiet w w' → Transition fl rules w w'
  Quiet-Transition id w w' q = record { id = id; change = kept q.0; jobs = same q.1 }

  play-Transition :
      (f : Faults) (fuel now : ℕ) (id : String) (g : Game) (w : World fl)
      → w.games id ≡ some g
      → Transition fl rules w (play fl rules engine hard f fuel now g w).0
  unfolding play
  play-Transition f fuel now id g w e = thought (best_move fl rules engine hard g)
    where
      applied :
          (uci : Text) (r : Except Game)
          → apply_move rules now (engine_color g) uci g ≡ r
          → Transition fl rules w (after_apply fl rules engine hard f fuel g w r).0
      applied uci (err x) h = Transition-none fl rules id w
      applied uci (ok g') h = elim (update-Answers f.write g' g.ply w.games) [
        | inr (x, refused) ↦ rw refused (Quiet-Transition id w _ (give_up-Quiet x w))
        | inl stored ↦
            let w' : World fl = record w { games = put w.games g'.id (some (bump g')) } in
            let quiet = announce-Quiet f fuel (bump g') w' in
            rw stored (record {
              id = id;
              change =
                  wrote g g' e (apply_move-IsEdit rules now (engine_color g) uci g g' h) quiet.0;
              jobs = same quiet.1;
            })
      ]

      thought :
          (r : Except Text)
          → Transition fl rules w (after_thought fl rules engine hard f fuel now g w r).0
      thought (err x) = Transition-none fl rules id w
      thought (ok uci) = applied uci (apply_move rules now (engine_color g) uci g) refl

  process_move-Transition :
      (f : Faults) (fuel now : ℕ) (id : String) (g : Game) (j : Job) (w : World fl)
      → w.games id ≡ some g
      → Transition fl rules w (process_move fl rules engine hard f fuel now g j w).0
  unfolding process_move
  process_move-Transition f fuel now id g j w e =
      if-Transition fl rules (is_finished g.status) _ _ (Quiet-Transition id w _ (refl, refl)) (
        if-Transition fl rules (not (g.ply == j.ply) || not (color_eq (turn g) (engine_color g))) _
          _ (Transition-none fl rules id w) (play-Transition f fuel now id g w e))

  module _ (reviewed : Job → Except (Unit {0})) where
    dispatch-Transition :
        (k : Kind) (f : Faults) (fuel now : ℕ) (g : Game) (j : Job) (w : World fl)
        → w.games j.game_id ≡ some g
        → Transition fl rules w (dispatch fl rules engine hard reviewed k f fuel now g j w).0
    dispatch-Transition move f fuel now g j w e =
        process_move-Transition f fuel now j.game_id g j w e
    dispatch-Transition hint f fuel now g j w e =
        Quiet-Transition j.game_id w _ (process_hint-Quiet f g j w)
    dispatch-Transition review f fuel now g j w e = Transition-none fl rules j.game_id w
    dispatch-Transition import f fuel now g j w e = Transition-none fl rules j.game_id w

    pub after_read-err :
        (f : Faults) (fuel now : ℕ) (j : Job) (w : World fl) (x : Error)
        → Quiet w (after_read fl rules engine hard reviewed f fuel now j w (err x)).0
    after_read-err f fuel now j w x = ground arith

    pub process-Transition :
        (f : Faults) (fuel now : ℕ) (j : Job) (w : World fl)
        → Transition fl rules w (process fl rules engine hard reviewed f fuel now j w).0
    unfolding process
    process-Transition f fuel now j w =
        if-Transition fl rules (is_import j.kind) _ _ (Transition-none fl rules j.game_id w)
          (found (get f.read j.game_id w.games) refl)
      where
        found :
            (r : Except Game)
            → get f.read j.game_id w.games ≡ r
            → Transition fl rules w (after_read fl rules engine hard reviewed f fuel now j w r).0
        found (ok g) h =
            dispatch-Transition j.kind f fuel now g j w
              (read-eq fl rules f.read j.game_id w.games g h)
        found (err x) h = Quiet-Transition j.game_id w _ (after_read-err f fuel now j w x)
