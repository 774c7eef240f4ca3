-- ===== src/Store/Ratings.antt =====
-- internal/store/ratings.go: the bot ladder and the archive of finished games, with
-- migrations/0002_users.sql (games.user_id references users) and 0010_bot_levels.sql. A transaction
-- is one step; one that fails (`lost`, a broken reference, a rating that does not settle) changes
-- nothing.
pub mod Once
pub mod Worth
pub mod Verdict
use blundernet.Base.{
  ℕ, suc, ◌+◌, ◌-◌, ◌≡◌, refl, String, str_eq, Bool, true, false, not, ◌&&◌, ◌||◌, List, [], ◌∷◌,
  Option, none, some, ltb, if◌then◌else◌,
}
use blundernet.Base.Int.{ℤ, pos, negsuc, ◌-ℤ◌}
use blundernet.Errors.{Except, ok, err, backend}
use blundernet.Chess.{Color, white, black, color_eq}
use blundernet.Float.{Float64, of_ℕ}
use blundernet.Rating.{Player, GameResult, update}
use blundernet.Game.{Game, Result, undecided, white_wins, black_wins, drawn}

-- The score of the player: 0, 0.5 and 1.
pub data Score : Type 0 where
  loss half win : Score

pub bool_score : Bool → Score
bool_score true = win
bool_score false = loss

score_of : Result → Color → Option Score
unfolding bool_score
score_of undecided c = none
score_of drawn c = some half
score_of white_wins c = some (bool_score (color_eq c white))
score_of black_wins c = some (bool_score (color_eq c black))

unfoldable pub score_for : Game → Option Score
unfolding score_of
score_for g = score_of g.result g.player_color

-- LEAST(6, GREATEST(1, bot_level + step))
abbrev pub clamp_level : ℤ → ℕ
clamp_level (negsuc n) = 1
clamp_level (pos n) = if ltb n 1 then 1 else if ltb 6 n then 6 else n

unfoldable pub ladder_step : Score → ℕ → ℕ
ladder_step half level = level
ladder_step win level = clamp_level (pos (level + 1))
ladder_step loss level = clamp_level (pos level -ℤ pos 1)

module _ (fl : Float64) where
  open fl use {F, ratio, add, sub, mul}

  -- The columns of `users` that the ratings touch.
  pub record UserRow : Type 0 where
    pub is_guest : Bool
    pub glicko : Player F
    pub rated_games : ℕ
    pub bot_level : ℕ
    pub puzzle : Player F
    pub puzzles_solved : ℕ
    pub best_streak : ℕ

  pub record Archive : Type 0 where
    pub games : String → Option Game
    pub users : String → Option UserRow

  abbrev pub put_user : String → UserRow → Archive → Archive
  put_user id row a = record a { users = λ j. if str_eq id j then some row else a.users j }

  abbrev pub put_game : Game → Archive → Archive
  put_game g a = record a { games = λ j. if str_eq g.id j then some g else a.games j }

  abbrev pub of_ℤ : ℤ → F
  of_ℤ (pos n) = of_ℕ fl n
  of_ℤ (negsuc n) = sub (of_ℕ fl 0) (of_ℕ fl (suc n))

  unfoldable pub engine_rating : ℤ → F
  engine_rating level = add (of_ℕ fl 1000) (mul (of_ℤ (level -ℤ pos 5)) (of_ℕ fl 120))

  abbrev is_measured : ℤ → Bool
  is_measured (negsuc n) = false
  is_measured (pos n) = not (ltb n 5) && not (ltb 5 n)

  unfoldable pub engine_deviation : ℤ → F
  engine_deviation level = if is_measured level then of_ℕ fl 50 else of_ℕ fl 150

  abbrev score_value : Score → F
  score_value loss = of_ℕ fl 0
  score_value half = ratio 1 2
  score_value win = of_ℕ fl 1

  -- A game against the bot, as the rating sees it.
  unfoldable pub bot_result : Score → ℤ → GameResult F
  unfolding engine_rating engine_deviation
  bot_result score level = record {
    opponent_rating = engine_rating level;
    opponent_deviation = engine_deviation level;
    score = score_value score;
  }

  abbrev pub rated_row : Player F → UserRow → UserRow
  rated_row p row = record row { glicko = p; rated_games = row.rated_games + 1 }

  -- applyRating: no row, nothing to do.
  unfoldable pub apply_rating : ℕ → String → Score → ℤ → Archive → Option Archive
  apply_rating fuel id score level a = elim (a.users id) [
    | none ↦ some a
    | some row ↦ elim (update fl fuel row.glicko (bot_result score level ∷ [])) [
      | none ↦ none
      | some p ↦ some (put_user id (rated_row p row) a)
    ]
  ]

  unfoldable pub move_ladder : String → Score → Archive → Archive
  move_ladder id score a = elim (a.users id) [
    | none ↦ a
    | some row ↦ put_user id (record row { bot_level = ladder_step score row.bot_level }) a
  ]

  -- The rating update and the ladder, gated on a rated game with an owner and a result.
  unfoldable pub rate : ℕ → Game → Archive → Option Archive
  rate fuel g a =
      if not (str_eq g.user_id "") && g.rated
      then elim (score_for g) [
        | none ↦ some a
        | some score ↦ elim (apply_rating fuel g.user_id score g.level a) [
          | none ↦ none
          | some rated ↦ some (move_ladder g.user_id score rated)
        ]
      ]
      else some a

  abbrev is_row : Option UserRow → Bool
  is_row none = false
  is_row (some row) = true

  -- games.user_id is NULL or names a row of users.
  unfoldable pub owner_exists : Game → Archive → Bool
  owner_exists g a = str_eq g.user_id "" || is_row (a.users g.user_id)

  unfoldable pub save_finished : Bool → ℕ → Game → Archive → Archive × Except (Unit {0})
  save_finished lost fuel g a = if lost then (a, err backend) else elim (a.games g.id) [
    | some archived ↦ (a, ok tt)
    | none ↦
        if owner_exists g a
        then elim (rate fuel g (put_game g a)) [
          | none ↦ (a, err backend)
          | some rated ↦ (rated, ok tt)
        ]
        else (a, err backend)
  ]
