-- ===== src/Api/Turns.antt =====
-- What a player is shown by internal/httpapi/server.go, beside what their next move is answered.
use blundernet.Base.{
  ℕ, ◌≡◌, ◌⊎◌, inl, inr, refl, sym, ap, subst, ◌∙◌, Text, text_eq, [], String, true, false, none,
  some, Option-cases, Bool-cases, arith,
}
use mathlib.Core.Option.{some-injective}
use blundernet.Errors.{Except, ok, err, backend}
use blundernet.Chess.{Color, Rules}
use blundernet.Float.{Float64}
use blundernet.Game.{Game, ongoing, turn, color_for, apply_move}
use blundernet.Game.Valid.{
  IsValid, Verdict, over, waits, refused as illegal, moved, apply_move-Verdict,
}
use blundernet.Store.Games.{Db, put, bump, get, update, write, cas_allows}
use blundernet.World.{World, Faults}
use blundernet.Api.{
  Reply, sent, refused, denied, Caller, user_id_of, from_game, edit_move, after_write, commit,
  apply_edit, with_game, game_error, handle_move,
}
use blundernet.Api.Edits.{IsEdit, apply_move-IsEdit}
use blundernet.Api.Views.{State, shown, to_state, to_state_for, show, handle_get}

-- The page says that it is the caller's move.
abbrev pub OnTurn : State → Type 0
OnTurn s = (s.you ≡ some s.turn) × (s.status ≡ ongoing)

-- The move is played or is no move of the rules, or its write was lost.
abbrev pub Tried : Faults → Reply → Type 0
Tried f reply =
    ((g : Game) × (reply ≡ sent 200 g))
    ⊎ (reply ≡ refused 400)
    ⊎ ((f.write ≡ true) × (reply ≡ refused 500))

-- The caller has no seat, or it is not their turn.
abbrev pub Barred : Reply → Type 0
Barred reply = (reply ≡ refused 403) ⊎ (reply ≡ refused 409)

abbrev pub Agrees : Faults → State → Reply → Type 0
Agrees f s reply = (OnTurn s × Tried f reply) ⊎ ((OnTurn s → ⊥) × Barred reply)

found : (db : Db) (id : String) (g : Game) → db id ≡ some g → get false id db ≡ ok g
unfolding get
found db id g e = rw e refl

module _ (fl : Float64) (rules : Rules) where
  written :
      (g g' : Game) (db : Db)
      → db g'.id ≡ some g
      → g'.revision ≡ g.revision
      → update false g' g.ply db ≡ (put db g'.id (some (bump g')), ok (bump g'))
  unfolding update cas_allows write
  written g g' db e r = rw (write, allowed) refl
    where
      allowed : cas_allows (db g'.id) (some g.ply) g'.revision ≡ true
      allowed = rw e (ground arith)

  lost_write : (g' : Game) (ply : ℕ) (db : Db) → update true g' ply db ≡ (db, err backend)
  unfolding update write
  lost_write g' ply db = refl

  commit-Tried :
      (f : Faults) (fuel : ℕ) (g g' : Game) (w : World fl)
      → w.games g'.id ≡ some g
      → g'.revision ≡ g.revision
      → Tried f (commit fl f fuel g.ply g' w).1
  unfolding commit game_error
  commit-Tried f fuel g g' w e r = elim (Bool-cases f.write) [
    | inl lost ↦
        subst (λ p. Tried f (after_write fl f fuel w p).1)
          (sym (ap (λ x. update x g' g.ply w.games) lost ∙ lost_write g' g.ply w.games))
          (inr (inr (lost, refl)))
    | inr kept ↦
        subst (λ p. Tried f (after_write fl f fuel w p).1)
          (sym (ap (λ x. update x g' g.ply w.games) kept ∙ written g g' w.games e r))
          (inl (bump g', refl))
  ]

  -- What the caller with a seat is answered.
  seated :
      (f : Faults) (fuel now : ℕ) (user : String) (uci : Text) (g : Game) (w : World fl) (c : Color)
      (cg : rules.GameState) (r : Except Game)
      → w.games g.id ≡ some g
      → color_for g user ≡ some c
      → ((g' : Game) → r ≡ ok g' → IsEdit rules g g')
      → Verdict rules c uci g cg r
      → Agrees f (to_state_for rules g user) (apply_edit fl f fuel g (from_game r) w).1
  unfolding to_state_for to_state apply_edit game_error
  seated f fuel now user uci g w c cg r e seat ed (over x a) =
      subst (λ o. Agrees f (to_state_for rules g user) (apply_edit fl f fuel g (from_game o) w).1)
        (sym a) (inr (λ t. ground (arith, x, t), inr refl))
  seated f fuel now user uci g w c cg r e seat ed (waits l t a) =
      subst (λ o. Agrees f (to_state_for rules g user) (apply_edit fl f fuel g (from_game o) w).1)
        (sym a) (inr (λ s. t (some-injective (turn g) c (sym s.0 ∙ seat)), inr refl))
  seated f fuel now user uci g w c cg r e seat ed (illegal l t m a) =
      subst (λ o. Agrees f (to_state_for rules g user) (apply_edit fl f fuel g (from_game o) w).1)
        (sym a) (inl ((seat ∙ ap some (sym t), l), inr (inl refl)))
  seated f fuel now user uci g w c cg r e seat ed (moved g' next l t m a ms rs) =
      let i = ed g' a in
      subst (λ o. Agrees f (to_state_for rules g user) (apply_edit fl f fuel g (from_game o) w).1)
        (sym a)
        (inl (
          (seat ∙ ap some (sym t), l),
          commit-Tried f fuel g g' w (ap w.games i.seats.id ∙ e) i.revision,
        ))

  with_seat :
      (now : ℕ) (caller : Caller) (uci : Text) (g : Game) (c : Color)
      → color_for g (user_id_of caller) ≡ some c
      → edit_move rules now caller uci g ≡ from_game (apply_move rules now c uci g)
  unfolding edit_move
  with_seat now caller uci g c h = rw (edit_move, h) refl

  unseated :
      (now : ℕ) (caller : Caller) (uci : Text) (g : Game)
      → color_for g (user_id_of caller) ≡ none
      → edit_move rules now caller uci g ≡ denied (refused 403)
  unfolding edit_move
  unseated now caller uci g h = rw (edit_move, h) refl

  stranger :
      (f : Faults) (fuel : ℕ) (g : Game) (user : String) (w : World fl)
      → color_for g user ≡ none
      → Agrees f (to_state_for rules g user) (apply_edit fl f fuel g (denied (refused 403)) w).1
  unfolding to_state_for apply_edit
  stranger f fuel g user w h = inr (λ s. none_some (sym h ∙ s.0), inl refl)
    where
      none_some : {c : Color} → none ≡ some c → ⊥
      none_some k = ground (arith, k)

  -- Take a valid game that is stored under its id, a read that succeeds and a move that is not
  -- empty. Then handleGet shows the caller a state. If that says that the game goes on and that
  -- the side to move is the caller's, then handleMove by the caller answers 200 with a game, or
  -- 400, or 500 where the write is lost; if it does not say so, then handleMove answers 403 or
  -- 409.
  pub handle_get-handle_move :
      (f : Faults) (fuel now : ℕ) (caller : Caller) (id : String) (uci : Text) (g : Game)
      (w : World fl)
      → w.games id ≡ some g
      → g.id ≡ id
      → IsValid rules g
      → f.read ≡ false
      → text_eq uci [] ≡ false
      → (s : State) × (handle_get rules f caller id w ≡ shown s)
        × Agrees f s (handle_move fl rules f fuel now caller id (some uci) w).1
  unfolding handle_get handle_move
  handle_get-handle_move f fuel now caller id uci g w e i v up some_text = (
    to_state_for rules g (user_id_of caller),
    ap (show rules (user_id_of caller)) here,
    rw (some_text) (
        subst
          (λ x.
            Agrees f (to_state_for rules g (user_id_of caller))
              (with_game fl w x
                (λ h. apply_edit fl f fuel h (edit_move rules now caller uci h) w)).1)
          (sym here) moving),
  )
    where
      here : get f.read id w.games ≡ ok g
      here = ap (λ b. get b id w.games) up ∙ found w.games id g e

      moving :
          Agrees f
            (to_state_for rules g (user_id_of caller))
            (apply_edit fl f fuel g (edit_move rules now caller uci g) w).1
      moving = elim (Option-cases (color_for g (user_id_of caller))) [
        | inl none_of ↦
            subst
              (λ x.
                Agrees f (to_state_for rules g (user_id_of caller)) (apply_edit fl f fuel g x w).1)
              (sym (unseated now caller uci g none_of))
              (stranger f fuel g (user_id_of caller) w none_of)
        | inr (c, seat) ↦
            subst
              (λ x.
                Agrees f (to_state_for rules g (user_id_of caller)) (apply_edit fl f fuel g x w).1)
              (sym (with_seat now caller uci g c seat))
              (seated f fuel now (user_id_of caller) uci g w c v.state
                (apply_move rules now c uci g) (ap w.games i ∙ e) seat
                (λ g' a. apply_move-IsEdit rules now c uci g g' a)
                (apply_move-Verdict rules now c uci g v))
      ]
