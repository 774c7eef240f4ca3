-- ===== src/Api/Authority.antt =====
-- What an answer of the move and resign handlers says of the caller and of the stored game.
use blundernet.Base.{
  ℕ, ◌≡◌, ◌≢◌, refl, sym, subst, Text, text_eq, [], String, Bool, Option, none, some, inl, inr,
  arith, if-cases, Option-cases,
}
use blundernet.Errors.{Except, Error, ok, err}
use blundernet.Chess.{Color, Rules}
use blundernet.Float.{Float64}
use blundernet.Game.{Game, color_for, apply_move, resign}
use blundernet.Store.Games.{put, bump, get}
use blundernet.Store.Games.Answers.{update-Answers}
use blundernet.World.{World, Faults}
use blundernet.Api.{
  Reply, sent, refused, Caller, user_id_of, Edit, denied, edit_move, edit_resign, commit,
  apply_edit, with_game, from_game, game_error, handle_move, handle_resign,
}
use blundernet.Api.Effects.{after_change-JobFrom, read-eq}

game_error_sent : (e : Error) (code : ℕ) (g : Game) → game_error e ≢ sent code g
unfolding game_error
game_error_sent e code g h = ground arith

module _ (fl : Float64) (rules : Rules) where
  -- The caller had a seat with `color` in the stored game, and the game that is answered is the
  -- stored edit of it.
  pub record Played (c : Caller) (id : String) (edit : Color → Game → Except Game) (w w' : World fl)
      (answer : Game) : Type 0 where
    pub before : Game
    pub after : Game
    pub color : Color
    pub stored : w.games id ≡ some before
    pub seat : color_for before (user_id_of c) ≡ some color
    pub legal : edit color before ≡ ok after
    pub answered : answer ≡ bump after
    pub kept : w'.games ≡ put w.games after.id (some (bump after))

  commit_sent :
      (f : Faults) (fuel ply code : ℕ) (x g' : Game) (w : World fl)
      → (commit fl f fuel ply x w).1 ≡ sent code g'
      → (g' ≡ bump x) × ((commit fl f fuel ply x w).0.games ≡ put w.games x.id (some (bump x)))
  unfolding commit
  commit_sent f fuel ply code x g' w = elim (update-Answers f.write x ply w.games) [
    | inr (e, lost) ↦ rw lost (λ h. absurd (game_error_sent e code g' h))
    | inl stored ↦
        let w' : World fl = record w { games = put w.games x.id (some (bump x)) } in
        rw stored (λ h. (ground arith, (after_change-JobFrom fl f fuel (bump x) w').0))
  ]

  edit_sent :
      (f : Faults) (fuel code : ℕ) (c : Caller) (id : String) (g g' : Game) (color : Color)
      (w : World fl) (edit : Color → Game → Except Game)
      → w.games id ≡ some g
      → color_for g (user_id_of c) ≡ some color
      → (r : Except Game) → edit color g ≡ r
      → let p = apply_edit fl f fuel g (from_game r) w in
        p.1 ≡ sent code g' → Played c id edit w p.0 g'
  unfolding apply_edit
  edit_sent f fuel code c id g g' color w edit e seat (err x) h s =
      absurd (game_error_sent x code g' s)
  edit_sent f fuel code c id g g' color w edit e seat (ok x) h s =
      let done = commit_sent f fuel g.ply code x g' w s in
      record {
        before = g;
        after = x;
        color = color;
        stored = e;
        seat = seat;
        legal = h;
        answered = done.0;
        kept = done.1;
      }

  with_game_sent :
      (lost : Bool) (code : ℕ) (id : String) (g' : Game) (w : World fl)
      (k : Game → World fl × Reply) (P : World fl → Type 0)
      → ((g : Game) → w.games id ≡ some g → (k g).1 ≡ sent code g' → P (k g).0)
      → (with_game fl w (get lost id w.games) k).1 ≡ sent code g'
      → P (with_game fl w (get lost id w.games) k).0
  with_game_sent lost code id g' w k P step = found (get lost id w.games) refl
    where
      found :
          (r : Except Game)
          → get lost id w.games ≡ r
          → (with_game fl w r k).1 ≡ sent code g'
          → P (with_game fl w r k).0
      found (err e) h s = absurd (game_error_sent e code g' s)
      found (ok g) h s = step g (read-eq fl rules lost id w.games g h) s

  abbrev by_seat : (Color → Game → Except Game) → Game → Option Color → Edit
  by_seat edit g none = denied (refused 403)
  by_seat edit g (some color) = from_game (edit color g)

  edit_move-by_seat :
      (now : ℕ) (c : Caller) (uci : Text) (g : Game)
      → edit_move rules now c uci g
        ≡ by_seat (λ color h. apply_move rules now color uci h) g (color_for g (user_id_of c))
  unfolding edit_move
  edit_move-by_seat now c uci g = elim (Option-cases (color_for g (user_id_of c))) [
    | inl watcher ↦ rw (edit_move, watcher) refl
    | inr (color, seat) ↦ rw (edit_move, seat) refl
  ]

  edit_resign-by_seat :
      (now : ℕ) (c : Caller) (g : Game)
      → edit_resign now c g ≡ by_seat (resign now) g (color_for g (user_id_of c))
  unfolding edit_resign
  edit_resign-by_seat now c g = elim (Option-cases (color_for g (user_id_of c))) [
    | inl watcher ↦ rw (edit_resign, watcher) refl
    | inr (color, seat) ↦ rw (edit_resign, seat) refl
  ]

  seat_sent :
      (f : Faults) (fuel code : ℕ) (c : Caller) (id : String) (g g' : Game) (w : World fl)
      (edit : Color → Game → Except Game)
      → w.games id ≡ some g
      → (o : Option Color) → color_for g (user_id_of c) ≡ o
      → (apply_edit fl f fuel g (by_seat edit g o) w).1 ≡ sent code g'
      → Played c id edit w (apply_edit fl f fuel g (by_seat edit g o) w).0 g'
  unfolding apply_edit
  seat_sent f fuel code c id g g' w edit e none watcher s = absurd (ground arith)
  seat_sent f fuel code c id g g' w edit e (some color) seat s =
      edit_sent f fuel code c id g g' color w edit e seat (edit color g) refl s

  -- A reader's handler, with any edit by seat.
  handler_sent :
      (f : Faults) (fuel code : ℕ) (c : Caller) (id : String) (g' : Game) (w : World fl)
      (edit : Color → Game → Except Game) (ed : Game → Edit)
      → ((g : Game) → ed g ≡ by_seat edit g (color_for g (user_id_of c)))
      → let p = with_game fl w (get f.read id w.games) (λ g. apply_edit fl f fuel g (ed g) w) in
        p.1 ≡ sent code g' → Played c id edit w p.0 g'
  handler_sent f fuel code c id g' w edit ed same =
      with_game_sent f.read code id g' w (λ g. apply_edit fl f fuel g (ed g) w)
        (λ w'. Played c id edit w w' g')
        (λ g e.
          subst
            (λ x.
              (apply_edit fl f fuel g x w).1 ≡ sent code g'
              → Played c id edit w (apply_edit fl f fuel g x w).0 g')
            (sym (same g))
            (seat_sent f fuel code c id g g' w edit e (color_for g (user_id_of c)) refl))

  -- If the answer to a move request is a game, then the caller had a seat in the game that was
  -- stored, ApplyMove accepts the move for the colour of that seat, the game answered is the
  -- result with its new revision, and exactly that game was put into the store.
  pub handle_move_sent :
      (f : Faults) (fuel now code : ℕ) (c : Caller) (id : String) (uci : Text) (w : World fl)
      (g' : Game)
      → (handle_move fl rules f fuel now c id (some uci) w).1 ≡ sent code g'
      → Played c id
          (λ color g. apply_move rules now color uci g)
          w
          (handle_move fl rules f fuel now c id (some uci) w).0
          g'
  unfolding handle_move
  handle_move_sent f fuel now code c id uci w g' =
      if-cases (text_eq uci [])
        (λ (p : World fl × Reply).
          p.1 ≡ sent code g' → Played c id (λ color g. apply_move rules now color uci g) w p.0 g')
        (λ _ s. absurd (ground arith))
        (λ _.
          handler_sent f fuel code c id g' w (λ color g. apply_move rules now color uci g)
            (edit_move rules now c uci) (edit_move-by_seat now c uci))

  -- If the answer to a resign request is a game, then the caller had a seat in the game that was
  -- stored, the game answered is that game resigned by the colour of that seat, with its new
  -- revision, and exactly that game was put into the store.
  pub handle_resign_sent :
      (f : Faults) (fuel now code : ℕ) (c : Caller) (id : String) (w : World fl) (g' : Game)
      → (handle_resign fl f fuel now c id w).1 ≡ sent code g'
      → Played c id (resign now) w (handle_resign fl f fuel now c id w).0 g'
  unfolding handle_resign
  handle_resign_sent f fuel now code c id w g' =
      handler_sent f fuel code c id g' w (resign now) (edit_resign now c)
        (edit_resign-by_seat now c)
