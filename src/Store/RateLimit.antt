-- ===== src/Store/RateLimit.antt =====
-- internal/store/ratelimit.go: the token bucket. A token is `token` parts, a second is `second`
-- ticks of the caller's clock, and a rate is the parts that come back in a tick, so that the
-- script's numbers are whole; rounding is not modelled. Redis expires a key by the same clock.
pub mod Bound
use blundernet.Base.{
  ℕ, ◌+◌, ◌-◌, ◌*◌, ◌/◌, Bool, true, false, Option, none, some, ltb, leb, ◌==◌, if◌then◌else◌,
}

pub record Limit : Type 0 where
  pub burst : ℕ
  pub rate : ℕ

-- The hash under a key, and when the key runs out if it does.
pub record Bucket : Type 0 where
  pub tokens : ℕ
  pub ts : ℕ
  pub expires : Option ℕ

abbrev pub lives : ℕ → Option ℕ → Bool
lives now none = true
lives now (some at) = ltb now at

-- What Redis still holds.
abbrev pub held : ℕ → Option Bucket → Option Bucket
held now none = none
held now (some b) = if lives now b.expires then some b else none

module _ (second token : ℕ) where
  abbrev pub capacity : Limit → ℕ
  capacity l = l.burst * token

  -- math.min(capacity, tokens + elapsed * refill)
  abbrev pub refill : Limit → ℕ → Option Bucket → ℕ
  refill l now none = capacity l
  refill l now (some b) =
      if ltb (capacity l) (b.tokens + l.rate * (now - b.ts))
      then capacity l
      else b.tokens + l.rate * (now - b.ts)

  -- math.ceil(capacity / refill) + 1 seconds.
  unfoldable pub time_to_live : Limit → ℕ
  time_to_live l = ((capacity l + (l.rate * second - 1)) / (l.rate * second) + 1) * second

  abbrev pub old_expiry : Option Bucket → Option ℕ
  old_expiry none = none
  old_expiry (some b) = b.expires

  abbrev pub allows : Limit → ℕ → Option Bucket → Bool
  allows l now b = leb token (refill l now b)

  abbrev pub spend : Limit → ℕ → Option Bucket → ℕ
  spend l now b = if allows l now b then refill l now b - token else refill l now b

  -- The script on what Redis holds. With a rate of nothing EXPIRE fails, after HSET has written.
  unfoldable pub token_bucket : Limit → ℕ → Option Bucket → Bucket × Option Bool
  token_bucket l now b =
      if l.rate == 0
      then (record { tokens = spend l now b; ts = now; expires = old_expiry b }, none)
      else (
        record { tokens = spend l now b; ts = now; expires = some (now + time_to_live l) },
        some (allows l now b),
      )

  abbrev pub after_script : Bucket × Option Bool → Option Bucket × Bool
  after_script (b, none) = (some b, true)
  after_script (b, some allowed) = (some b, allowed)

  -- Limiter.Allow; `lost` says that Redis does not answer.
  unfoldable pub allow : Bool → Limit → ℕ → Option Bucket → Option Bucket × Bool
  allow lost l now b = if lost then (b, true) else after_script (token_bucket l now (held now b))
