-- ===== src/Tests/Games.antt =====
-- Games and seats, applied.
use blundernet.Base.{
  zero, ◌≡◌, ◌≢◌, refl, codes, to_lower, trim_space, false, inl, inr, String, str_eq, eq_iff, some,
  arith, [], ◌∷◌,
}
use blundernet.Errors.{ok}
use blundernet.Chess.{white, black}
use blundernet.Game.{
  Game, finished, black_wins, replay, replay_from, apply_move, resign, color_for, engine_color,
  turn, push_move, settle, normalise, result_of, method_string,
}
use blundernet.Game.Valid.{IsValid, Verdict, apply_move-Verdict}
use blundernet.Game.Seats.{color_for_exclusive}
use blundernet.Tests.Fixtures.{toy, opening, friends, friends_over, won, ben}

pub opening-IsValid : IsValid toy opening
unfolding replay replay_from
opening-IsValid = record {
  state = zero;
  replays = refl;
  counted = refl;
  live = λ _. (refl, refl);
  decided = λ e. cc;
  reason = λ e. cc;
}

pub friends-IsValid : IsValid toy friends
unfolding replay replay_from
friends-IsValid = record {
  state = zero;
  replays = refl;
  counted = refl;
  live = λ _. (refl, refl);
  decided = λ e. cc;
  reason = λ e. cc;
}

pub friends_over-IsValid : IsValid toy friends_over
unfolding replay replay_from
friends_over-IsValid = record {
  state = zero;
  replays = refl;
  counted = refl;
  live = λ e. cc;
  decided = λ _ e. cc;
  reason = λ _. inl refl;
}

pub won-IsValid : IsValid toy won
unfolding replay replay_from result_of method_string
won-IsValid = record {
  state = 3;
  replays = refl;
  counted = refl;
  live = λ e. cc;
  decided = λ _ e. cc;
  reason = λ _. inr (refl, refl);
}

abbrev opened : Game
opened = record opening { moves = codes "e2e4" ∷ []; ply = 1; updated_at = 9 }

abbrev resigned : Game
resigned = record opening {
  status = finished;
  termination = "resignation";
  result = black_wins;
  updated_at = 9;
}

opening_moves : apply_move toy 9 white (codes " E2E4 ") opening ≡ ok opened
unfolding apply_move replay replay_from turn normalise push_move settle to_lower trim_space
opening_moves = refl

opening_resigns : resign 9 white opening ≡ ok resigned
unfolding resign
opening_resigns = refl

apply_move-Verdict_example :
    Verdict toy white (codes "e2e4") opening 0 (apply_move toy 9 white (codes "e2e4") opening)
unfolding opening-IsValid
apply_move-Verdict_example = apply_move-Verdict toy 9 white (codes "e2e4") opening opening-IsValid

differ : (a b : String) → str_eq a b ≡ false → a ≢ b
differ a b h = ground (arith, eq_iff a b)

ben_is_black : color_for friends "ben" ≡ some black
unfolding color_for engine_color
ben_is_black = refl

ana_is_white : color_for opening "ana" ≡ some white
unfolding color_for
ana_is_white = refl

color_for_exclusive_example : ben ≡ ben
color_for_exclusive_example =
    color_for_exclusive friends "ben" "ben" black (differ "ana" "" refl) ben_is_black ben_is_black
