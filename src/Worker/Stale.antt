-- ===== src/Worker/Stale.antt =====
-- Duplicate and late deliveries of a job to play the bot's move.
use blundernet.Base.{
  ℕ, ◌+◌, ◌≡◌, ◌≢◌, refl, sym, subst, ◌∙◌, ap, Text, [], ◌∷◌, length, length-append, Bool, true,
  false, not, ◌||◌, Option, some, ◌⊎◌, inl, inr, arith, ◌==◌, if-cases, Bool-cases, eq_iff,
}
use blundernet.Errors.{Error, Except, ok, err, not_found}
use blundernet.Chess.{Color, color_eq, Rules}
use blundernet.Float.{Float64}
use blundernet.Game.{
  Game, finished, is_finished, turn, engine_color, normalise, push_move, settle, apply_move,
}
use blundernet.Game.Valid.{IsValid, Moved, apply_move-Moved}
use blundernet.Store.Games.{Db, put, bump, get}
use blundernet.Store.Games.Answers.{update_current}
use blundernet.World.{World, Faults, Job, move}
use blundernet.Engine.Levels.{Engine}
use blundernet.Api.Effects.{read-eq}
use blundernet.Api.Edits.{IsEdit, apply_move-IsEdit}
use blundernet.Worker.{
  best_move, announce, after_apply, after_thought, play, process_move, dispatch, after_read,
  is_import, process,
}
use blundernet.Worker.Deliveries.{announce-Quiet, after_read-err}

-- The bot has no move to make for this job.
abbrev pub IsSpent : Job → Game → Type 0
IsSpent j g = (g.ply ≢ j.ply) ⊎ (turn g ≢ engine_color g) ⊎ (g.status ≡ finished)

abbrev pub Spent : Job → Db → Type 0
Spent j db = (g : Game) → db j.game_id ≡ some g → IsSpent j g

abbrev is_spent : Game → Job → Bool
is_spent g j = not (g.ply == j.ply) || not (color_eq (turn g) (engine_color g))

color_ne : (a b : Color) → color_eq a b ≡ false → a ≢ b
color_ne a b h = ground arith

IsSpent-test :
    (j : Job) (g : Game) → is_spent g j ≡ false → is_finished g.status ≡ false → ¬ IsSpent j g
IsSpent-test j g t f (inl p) = p (ground arith)
IsSpent-test j g t f (inr (inl p)) = p (ground arith)
IsSpent-test j g t f (inr (inr p)) = ground arith

settle_ply :
    (rules : Rules) (cg : rules.GameState) (now : ℕ) (m : Text) (g : Game)
    → (settle rules cg (push_move now m g)).ply ≡ length g.moves + 1
unfolding settle push_move
settle_ply rules cg now m g = ground (arith, length-append g.moves (m ∷ []))

IsSpent-true : (j : Job) (g : Game) → is_spent g j ≡ true → IsSpent j g
IsSpent-true j g t = elim (Bool-cases (g.ply == j.ply)) [
  | inr other ↦ inl (ground arith)
  | inl same ↦ inr (inl (color_ne (turn g) (engine_color g) (ground arith)))
]

module _ (fl : Float64) (rules : Rules) (engine : Engine fl.F) (hard : Option (Engine fl.F)) where
  -- A move that is accepted takes a valid game past the ply that it was asked for at.
  apply_move_ply :
      (now : ℕ) (color : Color) (uci : Text) (g g' : Game)
      → IsValid rules g
      → apply_move rules now color uci g ≡ ok g'
      → g'.ply ≡ g.ply + 1
  apply_move_ply now color uci g g' v e =
      let m : Moved rules now color uci g g' = apply_move-Moved rules now color uci g g' e in
      ap (λ (h : Game). h.ply) m.result
      ∙ settle_ply rules m.after now (normalise uci) g
      ∙ ap (λ (n : ℕ). n + 1) (sym v.counted)

  process_move-IsSpent :
      (f : Faults) (fuel now : ℕ) (g : Game) (j : Job) (w : World fl)
      → IsSpent j g
      → (process_move fl rules engine hard f fuel now g j w).0.games ≡ w.games
  unfolding process_move
  process_move-IsSpent f fuel now g j w s =
      if-cases (is_finished g.status) (λ (p : World fl × Except (Unit {0})). p.0.games ≡ w.games)
        (λ _. refl)
        (λ live.
          if-cases (is_spent g j) (λ (p : World fl × Except (Unit {0})). p.0.games ≡ w.games)
            (λ _. refl) (λ fresh. absurd (IsSpent-test j g fresh live s)))

  -- The game is marked when the job's work is done.
  abbrev Done : Job → World fl × Except (Unit {0}) → Type 0
  Done j p = p.1 ≡ ok tt → Spent j p.0.games

  announced :
      (f : Faults) (fuel : ℕ) (g g' : Game) (j : Job) (w : World fl)
      → g'.id ≡ j.game_id
      → g'.ply ≢ j.ply
      → Spent j
          (announce fl rules engine hard f fuel
            (bump g')
            (record w { games = put w.games g'.id (some (bump g')) })).0.games
  announced f fuel g g' j w i p h e =
      inl (λ q. p (put_at h (subst (λ db. db j.game_id ≡ some h) quiet e) ∙ q))
    where
      put_at : (h : Game) → put w.games g'.id (some (bump g')) j.game_id ≡ some h → g'.ply ≡ h.ply
      put_at h e = ground (arith, eq_iff g'.id j.game_id)

      quiet :
          (announce fl rules engine hard f fuel
            (bump g')
            (record w { games = put w.games g'.id (some (bump g')) })).0.games
          ≡ put w.games g'.id (some (bump g'))
      quiet =
          (announce-Quiet fl rules engine hard f fuel (bump g')
            (record w { games = put w.games g'.id (some (bump g')) })).0

  play-Done :
      (f : Faults) (fuel now : ℕ) (g : Game) (j : Job) (w : World fl)
      → w.games j.game_id ≡ some g
      → g.id ≡ j.game_id
      → IsValid rules g
      → g.ply ≡ j.ply
      → Done j (play fl rules engine hard f fuel now g w)
  unfolding play
  play-Done f fuel now g j w e i v p = thought (best_move fl rules engine hard g)
    where
      applied :
          (uci : Text) (r : Except Game)
          → apply_move rules now (engine_color g) uci g ≡ r
          → Done j (after_apply fl rules engine hard f fuel g w r)
      applied uci (err x) h = λ q. absurd (ground arith)
      applied uci (ok g') h =
          let edit : IsEdit rules g g' = apply_move-IsEdit rules now (engine_color g) uci g g' h in
          elim (update_current f.write g g' w.games
            (subst (λ n. w.games n ≡ some g) (sym (edit.seats.id ∙ i)) e) edit.revision) [
              | inr refused ↦ rw refused (λ q. absurd (ground arith))
              | inl stored ↦ rw stored (λ _.
                  announced f fuel g g' j w (edit.seats.id ∙ i)
                    (λ q. absurd (omega (arith, apply_move_ply now (engine_color g) uci g g' v h))))
            ]

      thought : (r : Except Text) → Done j (after_thought fl rules engine hard f fuel now g w r)
      thought (err x) = λ q. absurd (ground arith)
      thought (ok uci) = applied uci (apply_move rules now (engine_color g) uci g) refl

  stored-eq :
      (w : World fl) (j : Job) (g h : Game)
      → w.games j.game_id ≡ some g
      → w.games j.game_id ≡ some h
      → g ≡ h
  stored-eq w j g h e q = ground arith

  process_move-Done :
      (f : Faults) (fuel now : ℕ) (g : Game) (j : Job) (w : World fl)
      → w.games j.game_id ≡ some g
      → g.id ≡ j.game_id
      → IsValid rules g
      → Done j (process_move fl rules engine hard f fuel now g j w)
  unfolding process_move
  process_move-Done f fuel now g j w e i v =
      if-cases (is_finished g.status) (Done j) (λ over _ h q. inr (inr (ground arith)))
        (λ live.
          if-cases (is_spent g j) (Done j)
            (λ moved _ h q. subst (IsSpent j) (stored-eq w j g h e q) (IsSpent-true j g moved))
            (λ fresh. play-Done f fuel now g j w e i v (ground arith)))

  present :
      (w : World fl) (j : Job) (g : Game)
      → w.games j.game_id ≡ some g
      → (lost : Bool) → get lost j.game_id w.games ≢ err not_found
  unfolding get
  present w j g q lost h = ground arith

  after_read-answer :
      (reviewed : Job → Except (Unit {0})) (f : Faults) (fuel now : ℕ) (j : Job) (w : World fl)
      (x : Error)
      → (after_read fl rules engine hard reviewed f fuel now j w (err x)).1 ≡ ok tt
      → x ≡ not_found
  after_read-answer reviewed f fuel now j w x e = ground arith

  module _ (reviewed : Job → Except (Unit {0})) where
    pub process-Spent :
        (f : Faults) (fuel now : ℕ) (j : Job) (w : World fl)
        → j.kind ≡ move
        → Spent j w.games
        → (process fl rules engine hard reviewed f fuel now j w).0.games ≡ w.games
    unfolding process
    process-Spent f fuel now j w k s =
        if-cases (is_import j.kind) (λ (p : World fl × Except (Unit {0})). p.0.games ≡ w.games)
          (λ _. refl) (λ _. found (get f.read j.game_id w.games) refl)
      where
        found :
            (r : Except Game)
            → get f.read j.game_id w.games ≡ r
            → (after_read fl rules engine hard reviewed f fuel now j w r).0.games ≡ w.games
        found (ok g) h =
            subst
              (λ kind.
                (dispatch fl rules engine hard reviewed kind f fuel now g j w).0.games ≡ w.games)
              (sym k)
              (process_move-IsSpent f fuel now g j w
                (s g (read-eq fl rules f.read j.game_id w.games g h)))
        found (err x) h = (after_read-err fl rules engine hard reviewed f fuel now j w x).0

    pub process-Done :
        (f : Faults) (fuel now : ℕ) (j : Job) (w : World fl)
        → j.kind ≡ move
        → ((g : Game) → w.games j.game_id ≡ some g → (g.id ≡ j.game_id) × IsValid rules g)
        → (process fl rules engine hard reviewed f fuel now j w).1 ≡ ok tt
        → Spent j (process fl rules engine hard reviewed f fuel now j w).0.games
    unfolding process
    process-Done f fuel now j w k valid =
        if-cases (is_import j.kind) (Done j) (λ e. absurd (ground arith))
          (λ _. found (get f.read j.game_id w.games) refl)
      where
        found :
            (r : Except Game)
            → get f.read j.game_id w.games ≡ r
            → Done j (after_read fl rules engine hard reviewed f fuel now j w r)
        found (ok g) h =
            let e = read-eq fl rules f.read j.game_id w.games g h in
            subst (λ kind. Done j (dispatch fl rules engine hard reviewed kind f fuel now g j w))
              (sym k) (process_move-Done f fuel now g j w e (valid g e).0 (valid g e).1)
        found (err x) h = λ answered g q. absurd (
            present w j g
              (subst (λ (db : Db). db j.game_id ≡ some g)
                (after_read-err fl rules engine hard reviewed f fuel now j w x).0 q)
              f.read (h ∙ ap err (after_read-answer reviewed f fuel now j w x answered)))

    -- If a delivery of a job to play the bot's move is answered without error, and the stored
    -- game that the job names, if there is one, is valid and stands under its own id, then a
    -- second delivery of that job right after it leaves the stored games as they are, whatever
    -- calls fail: a duplicate plays no second move.
    pub process_twice :
        (f again : Faults) (fuel now refuel later : ℕ) (j : Job) (w : World fl)
        → j.kind ≡ move
        → ((g : Game) → w.games j.game_id ≡ some g → (g.id ≡ j.game_id) × IsValid rules g)
        → (process fl rules engine hard reviewed f fuel now j w).1 ≡ ok tt
        → let w' = (process fl rules engine hard reviewed f fuel now j w).0 in
          (process fl rules engine hard reviewed again refuel later j w').0.games ≡ w'.games
    process_twice f again fuel now refuel later j w k valid answered =
        process-Spent again refuel later j (process fl rules engine hard reviewed f fuel now j w).0
          k (process-Done f fuel now j w k valid answered)
