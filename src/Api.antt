-- ===== src/Api.antt =====
-- internal/httpapi/server.go: the handlers that create, change, resign and review games. A request's path
-- id, its body and the caller's id are arguments; `none` for a body is one that does not decode. A
-- reply is the game sent back with 200, 201 or 202, or an error's status code.
pub mod Create
pub mod Edits
pub mod Effects
pub mod Creation
pub mod Words
pub mod Created
pub mod Authority
pub mod Views
pub mod Turns
pub mod Ranked
pub mod Streak
pub mod Limits
pub mod Accounts
use blundernet.Base.{
  ℕ, ◌≡◌, refl, Text, text_eq, String, str_eq, List, [], ◌∷◌, Bool, true, false, not, ◌&&◌, ◌||◌,
  Option, none, some, if◌then◌else◌,
}
use blundernet.Base.Int.{ℤ, pos}
use blundernet.Errors.{
  Error, not_your_turn, illegal_move, game_finished, broken_replay, not_found, conflict, backend,
  Except, ok, err,
}
use blundernet.Chess.{Color, white, black, color_eq, Rules}
use blundernet.Float.{Float64}
use blundernet.Game.{Game, is_finished, color_for, turn, engine_color, apply_move, resign, new}
use blundernet.Store.Games.{Db, update, get}
use blundernet.Store.Ratings.{save_finished, Archive, UserRow}
use blundernet.World.{Kind, move, hint, review, Job, Event, state, World, Faults}

pub data Reply : Type 0 where
  sent : ℕ → Game → Reply
  accepted : Reply
  ready : Reply
  refused : ℕ → Reply

-- gameError
unfoldable pub game_error : Error → Reply
game_error not_found = refused 404
game_error illegal_move = refused 400
game_error not_your_turn = refused 409
game_error game_finished = refused 409
game_error conflict = refused 409
game_error broken_replay = refused 500
game_error backend = refused 500

-- Who is asking: withUser found a session or not.
abbrev pub Caller : Type 0
Caller = Option String

-- userIDOf
abbrev pub user_id_of : Caller → String
user_id_of none = ""
user_id_of (some id) = id

-- The bodies of handleMove and handleResign between the read and the write.
pub data Edit : Type 0 where
  edited : Game → Edit
  denied : Reply → Edit

abbrev pub from_game : Except Game → Edit
from_game (ok g) = edited g
from_game (err e) = denied (game_error e)

unfoldable pub edit_resign : ℕ → Caller → Game → Edit
edit_resign now caller g = elim (color_for g (user_id_of caller)) [
  | none ↦ denied (refused 403)
  | some color ↦ from_game (resign now color g)
]

unfoldable pub edit_move : Rules → ℕ → Caller → Text → Game → Edit
edit_move rules now caller uci g = elim (color_for g (user_id_of caller)) [
  | none ↦ denied (refused 403)
  | some color ↦ from_game (apply_move rules now color uci g)
]

abbrev pub is_stored : Except Bool → Bool
is_stored (ok b) = b
is_stored (err e) = false

module _ (fl : Float64) where
  abbrev pub send_job : Bool → String → ℕ → Kind → World fl → World fl
  send_job lost id ply kind w =
      if lost
      then w
      else record w { jobs = record { game_id = id; ply = ply; kind = kind } ∷ w.jobs }

  abbrev pub publish : Bool → Event → World fl → World fl
  publish lost e w = if lost then w else record w { events = e ∷ w.events }

  abbrev is_ok : Except (Unit {0}) → Bool
  is_ok (ok u) = true
  is_ok (err e) = false

  -- The finished case of afterChange: archive now, or leave a job that retries it.
  unfoldable pub archive_or_retry : Faults → ℕ → Game → World fl → World fl
  archive_or_retry f fuel g w =
      let (a, r) = save_finished fl f.archive fuel g w.archive in
      let w' = record w { archive = a } in
      if is_ok r then w' else send_job f.enqueue g.id g.ply move w'

  unfoldable pub after_change : Faults → ℕ → Game → World fl → World fl
  after_change f fuel g w =
      let w' = publish f.publish (state g) w in
      if is_finished g.status
      then archive_or_retry f fuel g w'
      else if not g.friend && color_eq (turn g) (engine_color g)
      then send_job f.enqueue g.id g.ply move w'
      else w'

  -- What handleMove and handleResign do with the answer of the write.
  abbrev pub after_write : Faults → ℕ → World fl → Db × Except Game → World fl × Reply
  after_write f fuel w (db, err e) = (w, game_error e)
  after_write f fuel w (db, ok g) = (after_change f fuel g (record w { games = db }), sent 200 g)

  -- The check-and-set that ends handleMove and handleResign.
  unfoldable pub commit : Faults → ℕ → ℕ → Game → World fl → World fl × Reply
  commit f fuel prev_ply g w = after_write f fuel w (update f.write g prev_ply w.games)

  unfoldable pub apply_edit : Faults → ℕ → Game → Edit → World fl → World fl × Reply
  apply_edit f fuel g (denied r) w = (w, r)
  apply_edit f fuel g (edited g') w = commit f fuel g.ply g' w

  -- Every handler starts by reading the game.
  abbrev pub with_game : World fl → Except Game → (Game → World fl × Reply) → World fl × Reply
  with_game w (err e) k = (w, game_error e)
  with_game w (ok g) k = k g

  unfoldable pub handle_move :
      Rules → Faults → ℕ → ℕ → Caller → String → Option Text → World fl → World fl × Reply
  handle_move rules f fuel now caller id none w = (w, refused 400)
  handle_move rules f fuel now caller id (some uci) w =
      if text_eq uci []
      then (w, refused 400)
      else with_game w (get f.read id w.games)
          (λ g. apply_edit f fuel g (edit_move rules now caller uci g) w)

  unfoldable pub handle_resign : Faults → ℕ → ℕ → Caller → String → World fl → World fl × Reply
  handle_resign f fuel now caller id w =
      with_game w (get f.read id w.games) (λ g. apply_edit f fuel g (edit_resign now caller g) w)

  -- handleJoin writes and sends nothing else.
  abbrev pub after_seat : World fl → Db × Except Game → World fl × Reply
  after_seat w (db, err e) = (w, game_error e)
  after_seat w (db, ok g) = (record w { games = db }, sent 200 g)

  unfoldable pub take_seat : Faults → String → Game → World fl → World fl × Reply
  take_seat f user g w =
      after_seat w (update f.write (record g { opponent_id = user }) g.ply w.games)

  -- ensureIdentity gave a user (minting a guest where there was no session), failed
  -- (`f.identity`), or gave none because accounts are not configured.
  unfoldable pub join_as : Faults → Game → Option String → World fl → World fl × Reply
  join_as f g none w = (w, refused 503)
  join_as f g (some user) w =
      if str_eq user g.user_id || str_eq user g.opponent_id
      then (w, sent 200 g)
      else if not (str_eq g.opponent_id "")
      then (w, refused 409)
      else take_seat f user g w

  unfoldable pub join_game : Faults → Option String → Game → World fl → World fl × Reply
  join_game f identity g w =
      if not g.friend
      then (w, refused 409)
      else if f.identity
      then (w, refused 500)
      else join_as f g identity w

  unfoldable pub handle_join : Faults → Option String → String → World fl → World fl × Reply
  handle_join f identity id w = with_game w (get f.read id w.games) (λ g. join_game f identity g w)

  unfoldable pub hint_game : Faults → Game → World fl → World fl × Reply
  hint_game f g w =
      if g.rated
      then (w, refused 403)
      else if is_finished g.status || not (color_eq (turn g) g.player_color)
      then (w, refused 409)
      else if f.enqueue
      then (w, refused 500)
      else (send_job false g.id g.ply hint w, accepted)

  unfoldable pub handle_hint : Faults → String → World fl → World fl × Reply
  handle_hint f id w = with_game w (get f.read id w.games) (λ g. hint_game f g w)

  -- `stored` is what the archive answers when it is asked for the game's review: an error, or
  -- whether it has one.
  unfoldable pub start_review : Faults → Except Bool → Game → World fl → World fl × Reply
  start_review f stored g w =
      if not (is_finished g.status)
      then (w, refused 409)
      else if is_stored stored
      then (w, ready)
      else if f.enqueue
      then (w, refused 500)
      else (send_job false g.id g.ply review w, accepted)

  unfoldable pub handle_review_start : Faults → Except Bool → String → World fl → World fl × Reply
  handle_review_start f stored id w =
      with_game w (get f.read id w.games) (λ g. start_review f stored g w)
