-- ===== src/Store/Sessions/Spec.antt =====
-- What sessions promise: who is signed in by which key and until when, with no index. `owner` tells
-- which user a key is ever handed out to: keys are random and not used again.
use blundernet.Base.{ℕ, ◌+◌, String, str_eq, List, [], ◌∷◌, Option, none, some, if◌then◌else◌}
use blundernet.Store.Sessions.{Entry, fresh, Sessions, extend, store, refresh, forget, revoke}

-- The writes of the calls, in the order in which Redis runs them, each after a delay.
pub data Write : Type 0 where
  stores : String → Write
  refreshes : String → Write
  forgets : String → Write
  revokes : String → Write

abbrev pub SignedIn : Type 0
SignedIn = String → Option (Entry String)

abbrev pub set : String → Option (Entry String) → SignedIn → SignedIn
set k e a j = if str_eq k j then e else a j

abbrev pub unless_of : String → Option (Entry String) → Option (Entry String)
unless_of user none = none
unless_of user (some e) = if str_eq user e.value then none else some e

module _ (ttl : ℕ) (owner : String → String) where
  -- The index is not there: to revoke is to sign out every key of the user.
  unfoldable pub spec_write : ℕ → Write → SignedIn → SignedIn
  spec_write now (stores k) a = set k (some (record { value = owner k; expires = now + ttl })) a
  spec_write now (refreshes k) a = set k (extend ttl now (fresh now (a k))) a
  spec_write now (forgets k) a = set k none a
  spec_write now (revokes user) a = λ j. unless_of user (a j)

  unfoldable pub run_write : ℕ → Write → Sessions → Sessions
  run_write now (stores k) s = store ttl now k (owner k) s
  run_write now (refreshes k) s = refresh ttl now k (owner k) s
  run_write now (forgets k) s = forget k (owner k) s
  run_write now (revokes user) s = revoke now user s

  unfoldable pub spec_run : ℕ → List (ℕ × Write) → SignedIn → ℕ × SignedIn
  spec_run now [] a = (now, a)
  spec_run now ((delay, w) ∷ ws) a = spec_run (now + delay) ws (spec_write (now + delay) w a)

  unfoldable pub run : ℕ → List (ℕ × Write) → Sessions → ℕ × Sessions
  run now [] s = (now, s)
  run now ((delay, w) ∷ ws) s = run (now + delay) ws (run_write (now + delay) w s)
