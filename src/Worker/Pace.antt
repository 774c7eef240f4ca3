-- ===== src/Worker/Pace.antt =====
-- The pace of Run in internal/worker/worker.go: how a worker waits for a queue that it cannot reach,
-- and when it stops. Times are milliseconds of one clock.
use blundernet.Base.{
  ℕ, ◌+◌, ◌-◌, ◌*◌, ◌≡◌, ◌≤◌, ◌↔◌, ◌⊎◌, inl, inr, refl, false, List, [], ◌∷◌, Option, none, some,
  ltb, leb, ◌==◌, if◌then◌else◌, arith, Bool-cases,
}

unfoldable pub next_backoff : ℕ → ℕ
next_backoff d = if d == 0 then 1000 else if ltb 30000 (d * 2) then 30000 else d * 2

-- One answer of Receive, and the time when it came.
pub data Poll : Type 0 where
  unreachable received : ℕ → Poll

pub record Pace : Type 0 where
  pub backoff : ℕ
  pub last_receive : ℕ

pub data Turn : Type 0 where
  stops : Turn
  waits : ℕ → Pace → Turn
  serves : Pace → Turn

unfoldable pub poll : Pace → Poll → Turn
poll p (unreachable now) =
    if leb 300000 (now - p.last_receive)
    then stops
    else waits (next_backoff p.backoff) (record p { backoff = next_backoff p.backoff })
poll p (received now) = serves (record { backoff = 0; last_receive = now })

abbrev pub pace_of : Turn → Option Pace
pace_of stops = none
pace_of (waits d p) = some p
pace_of (serves p) = some p

-- The pace after some answers, unless the worker has stopped.
unfoldable pub run_polls : Pace → List Poll → Option Pace
run_polls p [] = some p
run_polls p (x ∷ xs) = elim (pace_of (poll p x)) [ none ↦ none | some p' ↦ run_polls p' xs ]

-- The last time that the queue answered.
abbrev pub last_received : ℕ → List Poll → ℕ
last_received t [] = t
last_received t (unreachable now ∷ xs) = last_received t xs
last_received t (received now ∷ xs) = last_received now xs

abbrev pub IsPaced : Pace → Type 0
IsPaced p = (p.backoff ≡ 0) ⊎ ((1000 ≤ p.backoff) × (p.backoff ≤ 30000))

next_backoff-bounds :
    (p : Pace) → IsPaced p → (1000 ≤ next_backoff p.backoff) × (next_backoff p.backoff ≤ 30000)
unfolding next_backoff
next_backoff-bounds p (inl start) = ground arith
next_backoff-bounds p (inr bounds) = ground arith

run_polls-last :
    (p q : Pace) (xs : List Poll)
    → IsPaced p
    → run_polls p xs ≡ some q
    → IsPaced q × (q.last_receive ≡ last_received p.last_receive xs)
unfolding run_polls poll
run_polls-last p q [] paced e = ground arith
run_polls-last p q (received now ∷ xs) paced e =
    run_polls-last (record { backoff = 0; last_receive = now }) q xs (inl refl) e
run_polls-last p q (unreachable now ∷ xs) paced e =
    elim (Bool-cases (leb 300000 (now - p.last_receive))) [
      | inl gone ↦ absurd (ground (arith, e, gone))
      | inr soon ↦
          run_polls-last (record p { backoff = next_backoff p.backoff }) q xs
            (inr (next_backoff-bounds p paced)) (waited soon e)
    ]
  where
    waited :
        leb 300000 (now - p.last_receive) ≡ false
        → run_polls p (unreachable now ∷ xs) ≡ some q
        → run_polls (record p { backoff = next_backoff p.backoff }) xs ≡ some q
    waited soon e = ground (arith, soon, e)

-- Take a worker that has polled its queue any number of times since it started and has not
-- stopped. When its next poll fails, it stops exactly if the queue last answered, or the worker
-- started, five minutes or more before; and if it waits instead, it waits between 1 and 30
-- seconds.
pub poll_unreachable :
    (start now : ℕ) (xs : List Poll) (p : Pace)
    → run_polls (record { backoff = 0; last_receive = start }) xs ≡ some p
    → ((poll p (unreachable now) ≡ stops) ↔ (last_received start xs + 300000 ≤ now))
      × ((d : ℕ) (q : Pace) → poll p (unreachable now) ≡ waits d q → (1000 ≤ d) × (d ≤ 30000))
unfolding poll
poll_unreachable start now xs p e =
    let (paced, last) =
      run_polls-last (record { backoff = 0; last_receive = start }) p xs (inl refl) e in
    let bounds = next_backoff-bounds p paced in
    (ground (arith, last), λ d q w. ground (arith, bounds, w))
