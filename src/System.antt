-- ===== src/System.antt =====
-- The site as a whole: requests that any api instance serves and deliveries that any worker takes,
-- one at a time, in any order, with any outside call failing. Store/Games/Races.antt opens up the gap
-- between a request's read and its write.
pub mod Promises
pub mod Finality
use blundernet.Base.{ℕ, ◌≡◌, ◌≢◌, String, Text, List, Option, Bool}
use blundernet.Base.Int.{ℤ}
use blundernet.Errors.{Except}
use blundernet.Chess.{Rules, no_outcome}
use blundernet.Float.{Float64}
use blundernet.Store.Games.{expire}
use blundernet.World.{World, Faults, Job}
use blundernet.Engine.Levels.{Engine}
use blundernet.Api.{
  Caller, handle_move, handle_resign, handle_join, handle_hint, handle_review_start,
}
use blundernet.Api.Create.{handle_create}
use blundernet.Worker.{process}
use mathlib.Core.List.{Memᴰ}

-- What is outside the program: the rules of chess, the engines and the analysis behind a review.
pub record Site : Type 1 where
  pub fl : Float64
  pub rules : Rules
  pub engine : Engine fl.F
  pub hard : Option (Engine fl.F)
  pub reviewed : Job → Except (Unit {0})

pub data Action : Type 0 where
  creates : ℕ → String → Option String → Option ℕ → String → String → ℤ → Action
  moves : ℕ → ℕ → Caller → String → Option Text → Action
  resigns : ℕ → ℕ → Caller → String → Action
  joins : Option String → String → Action
  hints : String → Action
  reviews : Except Bool → String → Action
  delivers : ℕ → ℕ → Job → Action
  expires : String → Action

module _ (site : Site) where
  open site use {fl, rules, engine, hard, reviewed}

  unfoldable pub perform : Faults → Action → World fl → World fl
  perform f (creates now id owner rung color mode level) w =
      (handle_create fl f now id owner rung color mode level w).0
  perform f (moves fuel now caller id body) w = (handle_move fl rules f fuel now caller id body w).0
  perform f (resigns fuel now caller id) w = (handle_resign fl f fuel now caller id w).0
  perform f (joins who id) w = (handle_join fl f who id w).0
  perform f (hints id) w = (handle_hint fl f id w).0
  perform f (reviews stored id) w = (handle_review_start fl f stored id w).0
  perform f (delivers fuel now j) w = (process fl rules engine hard reviewed f fuel now j w).0
  perform f (expires id) w = record w { games = expire id w.games }

  -- A new game's uuid is one that no job names; a delivery is of a job that was sent.
  abbrev pub Allowed : Action → World fl → Type 0
  Allowed (creates now id owner rung color mode level) w =
      (j : Job) → Memᴰ j w.jobs → j.game_id ≢ id
  Allowed (delivers fuel now j) w = Memᴰ j w.jobs
  Allowed (moves fuel now caller id body) w = Unit {0}
  Allowed (resigns fuel now caller id) w = Unit {0}
  Allowed (joins who id) w = Unit {0}
  Allowed (hints id) w = Unit {0}
  Allowed (reviews stored id) w = Unit {0}
  Allowed (expires id) w = Unit {0}

  pub data Reach (w : World fl) : World fl → Type 0 where
    here : Reach w w
    next :
        {v : World fl} (f : Faults) (a : Action) → Reach w v → Allowed a v → Reach w (perform f a v)
