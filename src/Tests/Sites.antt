-- ===== src/Tests/Sites.antt =====
-- The api, the worker and the whole site, applied.
use blundernet.Base.{
  ◌≡◌, inr, refl, sym, subst, ap, ◌∙◌, codes, to_lower, trim_space, String, eq_iff, none, some,
  arith, List, [], ◌∷◌,
}
use mathlib.Core.List.{Memᴰ}
use blundernet.Errors.{ok}
use blundernet.Game.{
  Game, finished, white_wins, resign, color_for, apply_move, replay, replay_from, turn,
  engine_color, normalise, push_move, settle, fen,
}
use blundernet.Game.Valid.{IsValid}
use blundernet.Store.Games.{put, get, update, write, cas_allows}
use blundernet.World.{World, Job}
use blundernet.Api.{
  handle_move, handle_resign, sent, edit_move, edit_resign, apply_edit, commit, after_change,
}
use blundernet.Api.Views.{State, shown, handle_get}
use blundernet.Api.Turns.{Agrees, handle_get-handle_move}
use blundernet.Api.Authority.{Played, handle_move_sent}
use blundernet.Worker.{process, process_move, play, best_move, network_move, announce}
use blundernet.Engine.Levels.{is_hard}
use blundernet.Worker.Stale.{process_twice}
use blundernet.System.{here, next, hints, perform}
use blundernet.System.Promises.{AllValid, AllOk, Good, Reach-Good}
use blundernet.System.Finality.{Final, perform-Final, friend_game-process}
use blundernet.Tests.Fixtures.{
  toy, floats, opener, site, calm, opening, bot_opens, friends, friends_over, won, bot_job, world,
  empty_db,
}
use blundernet.Tests.Games.{opening-IsValid, friends_over-IsValid, won-IsValid}

put-some : (g h : Game) (k : String) → put empty_db "g1" (some g) k ≡ some h → (g ≡ h) × ("g1" ≡ k)
put-some g h k e = ground (arith, eq_iff "g1" k)

world-Good :
    (jobs : List Job) (g : Game)
    → "g1" ≡ g.id
    → IsValid toy g
    → AllOk toy jobs (world jobs g).games
    → Good site refl (world jobs g)
world-Good jobs g i v fine = record { valid = valid; botless = fine }
  where
    valid : AllValid toy (world jobs g).games
    valid k h e =
        let found = put-some g h k e in
        (sym (ap (λ (x : Game). x.id) found.0) ∙ sym i ∙ found.1, subst (IsValid toy) found.0 v)

no_jobs : (g : Game) → AllOk toy [] (world [] g).games
no_jobs g j m = absurd (nowhere m)
  where
    nowhere : ¬ Memᴰ j []
    nowhere h = elim h [ ]

opening-Good : Good site refl (world [] opening)
opening-Good = world-Good [] opening refl opening-IsValid (no_jobs opening)

Reach-Good_example : Good site refl (perform site calm (hints "g1") (world [] opening))
Reach-Good_example = Reach-Good site refl opening-Good (next calm (hints "g1") here tt)

perform-Final_example : Final won ((perform site calm (hints "g1") (world [] won)).games "g1")
perform-Final_example =
    perform-Final site refl calm (hints "g1") (world [] won) "g1" won
      (world-Good [] won refl won-IsValid (no_jobs won)) refl refl

retried : AllOk toy (bot_job ∷ []) (world (bot_job ∷ []) friends_over).games
retried j m h e k = inr (sym (ap (λ (x : Game). x.status) (put-some friends_over h j.game_id e).0))

friend_game-process_example :
    (process floats toy opener none
      (λ j. ok tt)
      calm
      3
      9
      bot_job
      (world (bot_job ∷ []) friends_over)).0.games
    ≡ (world (bot_job ∷ []) friends_over).games
friend_game-process_example =
    friend_game-process site refl calm 3 9 bot_job (world (bot_job ∷ []) friends_over) friends_over
      (world-Good (bot_job ∷ []) friends_over refl friends_over-IsValid retried) (Memᴰ.head refl)
      refl refl

bot_opens-IsValid : IsValid toy bot_opens
unfolding replay replay_from
bot_opens-IsValid = record {
  state = 0;
  replays = refl;
  counted = refl;
  live = λ _. (refl, refl);
  decided = λ e. cc;
  reason = λ e. cc;
}

abbrev bot_world : World floats
bot_world = world (bot_job ∷ []) bot_opens

bot_plays : (process floats toy opener none (λ j. ok tt) calm 3 9 bot_job bot_world).1 ≡ ok tt
unfolding process process_move play best_move network_move apply_move replay replay_from turn
    engine_color normalise to_lower trim_space push_move settle get update write cas_allows announce
    is_hard fen
bot_plays = refl

process_twice_example :
    let w = (process floats toy opener none (λ j. ok tt) calm 3 9 bot_job bot_world).0 in
    (process floats toy opener none (λ j. ok tt) calm 4 10 bot_job w).0.games ≡ w.games
process_twice_example =
    process_twice floats toy opener none (λ j. ok tt) calm calm 3 9 4 10 bot_job bot_world refl
      valid bot_plays
  where
    valid : (g : Game) → bot_world.games "g1" ≡ some g → (g.id ≡ "g1") × IsValid toy g
    valid g e =
        let found = put-some bot_opens g "g1" e in
        (sym (ap (λ (x : Game). x.id) found.0), subst (IsValid toy) found.0 bot_opens-IsValid)

abbrev ana_moves : Game
ana_moves = record opening { moves = codes "e2e4" ∷ []; ply = 1; revision = 2; updated_at = 9 }

ana_sent :
    (handle_move floats toy calm 3 9 (some "ana") "g1" (some (codes "e2e4")) (world [] opening)).1
    ≡ sent 200 ana_moves
unfolding handle_move edit_move apply_edit commit color_for apply_move replay replay_from turn
    engine_color normalise to_lower trim_space push_move settle get update write cas_allows
    after_change
ana_sent = refl

handle_move_sent_example :
    Played floats toy
      (some "ana")
      "g1"
      (λ color g. apply_move toy 9 color (codes "e2e4") g)
      (world [] opening)
      (handle_move floats toy calm 3 9 (some "ana") "g1" (some (codes "e2e4")) (world [] opening)).0
      ana_moves
handle_move_sent_example =
    handle_move_sent floats toy calm 3 9 200 (some "ana") "g1" (codes "e2e4") (world [] opening)
      ana_moves ana_sent

abbrev ben_gone : Game
ben_gone = record friends {
  revision = 2;
  status = finished;
  result = white_wins;
  termination = "resignation";
  updated_at = 9;
}

ben_sent :
    (handle_resign floats calm 3 9 (some "ben") "g1" (world [] friends)).1 ≡ sent 200 ben_gone
unfolding handle_resign edit_resign apply_edit commit color_for resign engine_color get update write
    cas_allows after_change
ben_sent = refl

handle_get-handle_move_example :
    (s : State) × (handle_get toy {fl = floats} calm (some "ana") "g1" (world [] opening) ≡ shown s)
    × Agrees calm s
        (handle_move floats toy calm 3 9
          (some "ana")
          "g1"
          (some (codes "e2e4"))
          (world [] opening)).1
handle_get-handle_move_example =
    handle_get-handle_move floats toy calm 3 9 (some "ana") "g1" (codes "e2e4") opening
      (world [] opening) refl refl opening-IsValid refl refl
