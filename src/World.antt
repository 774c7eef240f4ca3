-- ===== src/World.antt =====
-- What the api and the worker processes share: the games in Redis, the archive in Postgres, the
-- queue and the event channel. The queue delivers at least once and in any order, so `jobs` holds
-- every job ever sent (internal/queue/queue.go), and a delivery is any of them.
use blundernet.Base.{ℕ, String, Bool, List}
use blundernet.Float.{Float64}
use blundernet.Game.{Game}
use blundernet.Store.Games.{Db}
use blundernet.Store.Ratings.{Archive}

pub data Kind : Type 0 where
  move hint review import : Kind

pub record Job : Type 0 where
  pub game_id : String
  pub ply : ℕ
  pub kind : Kind

-- What is published on a game's channel: a state, or a hint for a ply.
pub data Event : Type 0 where
  state : Game → Event
  hint_for : Game → Event

pub record World (fl : Float64) : Type 0 where
  pub games : Db
  pub archive : Archive fl
  pub jobs : List Job
  pub events : List Event

-- Which outside calls fail while one request or delivery is served.
pub record Faults : Type 0 where
  pub identity : Bool
  pub read : Bool
  pub write : Bool
  pub publish : Bool
  pub enqueue : Bool
  pub archive : Bool
