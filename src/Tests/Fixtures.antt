-- ===== src/Tests/Fixtures.antt =====
-- A toy game in place of chess: a move is any word of four letters, and the third move wins for
-- white. Whole numbers stand in for floats, and the engine plays one opening move.
use blundernet.Base.{
  ℕ, suc, ◌+◌, ◌-◌, ◌*◌, codes, String, List, [], ◌∷◌, length, true, false, none, some, ltb, leb,
  ◌==◌, if◌then◌else◌,
}
use blundernet.Base.Int.{pos}
use blundernet.Errors.{ok}
use blundernet.Chess.{white, black, Rules, no_outcome, white_won, no_method, checkmate}
use blundernet.Float.{Float64}
use blundernet.Rating.{Player}
use blundernet.Game.{Game, ongoing, finished, undecided, white_wins}
use blundernet.Store.Games.{Db, put}
use blundernet.Store.Ratings.{Archive, UserRow}
use blundernet.World.{World, Faults, Job, move}
use blundernet.Engine.Levels.{Engine}
use blundernet.System.{Site}

abbrev pub toy : Rules
toy = record {
  GameState = ℕ;
  start = 0;
  move_str = λ n m. if length m == 4 then some (suc n) else none;
  outcome = λ n. if n == 3 then white_won else no_outcome;
  method = λ n. if n == 3 then checkmate else no_method;
  fen = λ n. n ∷ [];
}

abbrev pub floats : Float64
floats = record {
  F = ℕ;
  ratio = λ a b. a;
  add = λ a b. a + b;
  sub = λ a b. a - b;
  mul = λ a b. a * b;
  div = λ a b. a;
  lt = ltb;
  le = leb;
  sqrt = λ a. a;
  exp = λ a. 1;
  log = λ a. 0;
  abs = λ a. 0;
  round = λ a. a;
  pow = λ a b. a;
  neg = λ a. a;
  neg_inf = 0;
  pi = 3;
}

abbrev pub opener : Engine ℕ
opener = record { best_move = λ fen. ok (codes "d2d4"); at_level = none; score = none }

abbrev pub site : Site
site = record { fl = floats; rules = toy; engine = opener; hard = none; reviewed = λ j. ok tt }

abbrev pub calm : Faults
calm = record {
  identity = false;
  read = false;
  write = false;
  publish = false;
  enqueue = false;
  archive = false;
}

abbrev pub signed_out : String
signed_out = ""

abbrev pub ben : String
ben = "ben"

-- Ana plays white against the bot, rated, and it is the first move.
abbrev pub opening : Game
opening = record {
  id = "g1";
  moves = [];
  ply = 0;
  revision = 1;
  player_color = white;
  user_id = "ana";
  level = pos 3;
  rated = true;
  friend = false;
  opponent_id = "";
  status = ongoing;
  result = undecided;
  termination = "";
  created_at = 5;
  updated_at = 5;
}

-- The same with Ana as black: the bot is to move.
abbrev pub bot_opens : Game
bot_opens = record opening { player_color = black }

-- A friend game of Ana, white, and Ben.
abbrev pub friends : Game
friends = record opening { rated = false; friend = true; opponent_id = "ben" }

abbrev pub won : Game
won = record opening {
  moves = codes "e2e4" ∷ codes "e7e5" ∷ codes "d1h5" ∷ [];
  ply = 3;
  status = finished;
  result = white_wins;
  termination = "checkmate";
}

-- The friend game after Ben has resigned.
abbrev pub friends_over : Game
friends_over = record friends {
  status = finished;
  result = white_wins;
  termination = "resignation";
}

abbrev pub empty_db : Db
empty_db = λ id. none

abbrev pub newcomer : Player ℕ
newcomer = record { rating = 1500; deviation = 350; volatility = 1 }

abbrev pub ana : UserRow floats
ana = record {
  is_guest = false;
  glicko = newcomer;
  rated_games = 0;
  bot_level = 3;
  puzzle = newcomer;
  puzzles_solved = 0;
  best_streak = 0;
}

abbrev pub no_accounts : Archive floats
no_accounts = record { games = λ id. none; users = λ id. none }

abbrev pub with_ana : Archive floats
with_ana = record { games = λ id. none; users = λ id. some ana }

abbrev pub bot_job : Job
bot_job = record { game_id = "g1"; ply = 0; kind = move }

abbrev pub world : List Job → Game → World floats
world jobs g = record {
  games = put empty_db "g1" (some g);
  archive = with_ana;
  jobs = jobs;
  events = [];
}
