-- ===== src/Tests/Archives.antt =====
-- Live games and the archive, applied.
use blundernet.Base.{ℕ, ◌≡◌, ◌↔◌, refl, none, some, false, arith, ◌==◌, if◌then◌else◌, [], ◌∷◌}
use blundernet.Base.Int.{pos, ◌-ℤ◌}
use blundernet.Errors.{ok}
use blundernet.Rating.{Player, update}
use blundernet.Game.{Game}
use blundernet.Store.Games.{put, get, update as update_game}
use blundernet.Store.Games.Races.{System, Reach, next, here, reads, update_iff_current}
use blundernet.Store.Ratings.{
  win, score_for, bot_result, owner_exists, rate, apply_rating, save_finished,
}
use blundernet.Store.Ratings.Once.{save_finished_twice}
use blundernet.Store.Ratings.Verdict.{Verdict, save_finished-Verdict}
use blundernet.Tests.Fixtures.{floats, opening, won, empty_db, ana, with_ana}

abbrev start : System
start = record { db = put empty_db "g1" (some opening); held = λ c. none }

abbrev one_reader : System
one_reader = record start { held = λ j. if 7 == j then some opening else none }

reader_gets : get false "g1" start.db ≡ ok opening
unfolding get
reader_gets = refl

reached : Reach "g1" start one_reader
reached = next here (reads start 7 opening reader_gets)

update_iff_current_example :
    ((w : Game) × ((update_game false (record opening { updated_at = 9 }) 0 one_reader.db).1
        ≡ ok w))
    ↔ (one_reader.db "g1" ≡ some opening)
update_iff_current_example =
    update_iff_current "g1" {start = start} {s = one_reader} 7 opening
      (record opening { updated_at = 9 }) (λ j. refl) reached refl refl refl (ground arith)

won_scores : score_for won ≡ some win
unfolding score_for
won_scores = refl

-- The rating that the toy floats give.
abbrev rated_ana : Player ℕ
rated_ana = record { rating = 1500; deviation = 1737178; volatility = 1 }

won_rates : update floats 3 ana.glicko (bot_result floats win (pos 3) ∷ []) ≡ some rated_ana
unfolding update bot_result ◌-ℤ◌
won_rates = refl

won_saves : (save_finished floats false 3 won with_ana).1 ≡ ok tt
unfolding save_finished owner_exists rate apply_rating update bot_result score_for ◌-ℤ◌
won_saves = refl

save_finished-Verdict_example :
    Verdict floats false 3 won with_ana (save_finished floats false 3 won with_ana)
save_finished-Verdict_example = save_finished-Verdict floats false 3 won with_ana

save_finished_twice_example :
    let b = (save_finished floats false 3 won with_ana).0 in
    save_finished floats false 5 won b ≡ (b, ok tt)
save_finished_twice_example = save_finished_twice floats false 3 5 won with_ana won_saves
