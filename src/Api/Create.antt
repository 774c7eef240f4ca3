-- ===== src/Api/Create.antt =====
-- handleCreate of internal/httpapi/server.go.
use blundernet.Base.{
  ℕ, String, str_eq, Bool, true, false, not, ◌&&◌, Option, none, some, if◌then◌else◌,
}
use blundernet.Base.Int.{ℤ, pos}
use blundernet.Errors.{Except, ok, err}
use blundernet.Chess.{Color, white, black, color_eq}
use blundernet.Float.{Float64}
use blundernet.Game.{Game, new}
use blundernet.Store.Games.{Db, create}
use blundernet.World.{World, Faults, move}
use blundernet.Api.{Reply, sent, refused, user_id_of, send_job}

pub data Mode : Type 0 where
  rated_mode learning_mode friend_mode : Mode

-- The colour and the mode of a request, with the defaults of an empty field.
unfoldable pub parse_color : String → Option Color
parse_color s =
    if str_eq s ""
    then some white
    else if str_eq s "white"
    then some white
    else if str_eq s "black"
    then some black
    else none

unfoldable pub parse_mode : String → Option Mode
parse_mode s =
    if str_eq s ""
    then some rated_mode
    else if str_eq s "rated"
    then some rated_mode
    else if str_eq s "learning"
    then some learning_mode
    else if str_eq s "friend"
    then some friend_mode
    else none

abbrev pub is_rated_mode : Mode → Bool
is_rated_mode rated_mode = true
is_rated_mode _ = false

abbrev pub is_friend_mode : Mode → Bool
is_friend_mode friend_mode = true
is_friend_mode _ = false

-- The ladder decides the level of a rated game: the user's rung where it can be read (`rung`), and
-- DefaultLevel where not.
unfoldable pub level_of : Mode → Option ℕ → ℤ → ℤ
level_of rated_mode none level = pos 3
level_of rated_mode (some rung) level = pos rung
level_of learning_mode rung level = level
level_of friend_mode rung level = level

-- The game that is created, before it is stored.
unfoldable pub first_state : String → Color → Mode → ℤ → Option String → ℕ → Game
first_state id color mode level owner now = record g {
  rated = if is_friend_mode mode then false else g.rated;
  friend = is_friend_mode mode;
  user_id = user_id_of owner;
}
  where
    g : Game
    g = new id color level (is_rated_mode mode) now

module _ (fl : Float64) where
  -- The engine opens when the player took black, except in a friend game.
  unfoldable pub open_game : Faults → Game → World fl → World fl × Reply
  open_game f g w =
      if color_eq g.player_color black && not g.friend
      then (if f.enqueue then (w, refused 500) else (send_job fl false g.id 0 move w, sent 201 g))
      else (w, sent 201 g)

  abbrev pub after_create : Faults → World fl → Db × Except Game → World fl × Reply
  after_create f w (db, err e) = (w, refused 500)
  after_create f w (db, ok g) = open_game f g (record w { games = db })

  abbrev pub create_with :
      Faults
      → ℕ
      → String
      → Option String
      → Option ℕ
      → Option Color
      → Option Mode
      → ℤ
      → World fl
      → World fl × Reply
  create_with f now id owner rung none mode level w = (w, refused 400)
  create_with f now id owner rung (some color) none level w = (w, refused 400)
  create_with f now id owner rung (some color) (some mode) level w =
      if f.identity
      then (w, refused 500)
      else after_create f w
          (create f.write (first_state id color mode (level_of mode rung level) owner now) w.games)

  -- `id` is the new uuid, `owner` what ensureIdentity answered, `rung` the user's bot level.
  unfoldable pub handle_create :
      Faults
      → ℕ
      → String
      → Option String
      → Option ℕ
      → String
      → String
      → ℤ
      → World fl
      → World fl × Reply
  handle_create f now id owner rung color mode level w =
      create_with f now id owner rung (parse_color color) (parse_mode mode) level w
