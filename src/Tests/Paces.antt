-- ===== src/Tests/Paces.antt =====
-- The worker's pace, applied.
use blundernet.Base.{ℕ, ◌+◌, ◌≡◌, ◌≤◌, ◌↔◌, refl, [], ◌∷◌, some, List}
use blundernet.Worker.Pace.{
  Poll, unreachable, received, Pace, stops, waits, poll, next_backoff, run_polls, last_received,
  poll_unreachable,
}

abbrev rested : Pace
rested = record { backoff = 0; last_receive = 5000 }

abbrev answers : List Poll
answers = unreachable 1000 ∷ received 5000 ∷ []

runs : run_polls (record { backoff = 0; last_receive = 0 }) answers ≡ some rested
unfolding run_polls poll next_backoff
runs = refl

poll_unreachable_example :
    ((poll rested (unreachable 400000) ≡ stops) ↔ (last_received 0 answers + 300000 ≤ 400000))
    × ((d : ℕ) (q : Pace) → poll rested (unreachable 400000) ≡ waits d q → (1000 ≤ d) × (d ≤ 30000))
poll_unreachable_example = poll_unreachable 0 400000 answers rested runs
