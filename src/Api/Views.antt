-- ===== src/Api/Views.antt =====
-- What a player is shown: ToState, ToStateFor and handleGet of internal/httpapi/server.go.
use blundernet.Base.{ℕ, Text, String, str_eq, List, Bool, ◌&&◌, Option, none}
use blundernet.Base.Int.{ℤ}
use blundernet.Errors.{Except, ok, err}
use blundernet.Chess.{Color, Rules}
use blundernet.Float.{Float64}
use blundernet.Game.{Game, Status, Result, fen, turn, color_for}
use blundernet.Store.Games.{get}
use blundernet.World.{World, Faults}
use blundernet.Api.{Reply, Caller, user_id_of, game_error}

pub record State : Type 0 where
  pub id : String
  pub revision : ℕ
  pub fen : Text
  pub moves : List Text
  pub turn : Color
  pub player_color : Color
  pub level : ℤ
  pub rated : Bool
  pub friend : Bool
  pub waiting : Bool
  pub you : Option Color
  pub status : Status
  pub result : Result
  pub termination : String

pub data Shown : Type 0 where
  shown : State → Shown
  failed : Reply → Shown

module _ (rules : Rules) where
  unfoldable pub to_state : Game → State
  to_state g = record {
    id = g.id;
    revision = g.revision;
    fen = fen rules g;
    moves = g.moves;
    turn = turn g;
    player_color = g.player_color;
    level = g.level;
    rated = g.rated;
    friend = g.friend;
    waiting = g.friend && str_eq g.opponent_id "";
    you = none;
    status = g.status;
    result = g.result;
    termination = g.termination;
  }

  unfoldable pub to_state_for : Game → String → State
  to_state_for g user = record (to_state g) { you = color_for g user }

  abbrev pub show : String → Except Game → Shown
  show user (err e) = failed (game_error e)
  show user (ok g) = shown (to_state_for g user)

  unfoldable pub handle_get : {fl : Float64} → Faults → Caller → String → World fl → Shown
  handle_get f caller id w = show (user_id_of caller) (get f.read id w.games)
