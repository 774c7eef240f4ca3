-- ===== src/Store/RateLimit/Bound.antt =====
-- How many requests the token bucket of internal/store/ratelimit.go lets through.
use blundernet.Base.{
  ℕ, ◌+◌, ◌-◌, ◌*◌, ◌/◌, ◌≤◌, ◌<◌, ◌≡◌, subst, Bool, false, Option, none, some, ◌==◌, if◌then◌else◌,
  if-cases, arith,
}
use native.Mathlib.Nat.{mul-add, add-mul, mul-pos, mul_left_comm, mul-le-mul_left, lt-div-mul-add}
use blundernet.Store.RateLimit.{
  Limit, Bucket, held, capacity, refill, time_to_live, allow, token_bucket, after_script,
}

pub gain_split : (rate a b c : ℕ) → a ≤ b → b ≤ c → rate * (c - a) ≡ rate * (b - a) + rate * (c - b)
gain_split rate a b c ab bc =
    subst (λ n. rate * n ≡ rate * (b - a) + rate * (c - b)) (omega (arith, ab, bc))
      (mul-add rate (b - a) (c - b))

module _ (second token : ℕ) (l : Limit) (ticks : 0 < second) (refills : 0 < l.rate) where
  -- A bucket that is not used until its key runs out would be full.
  full_by_then : capacity second token l ≤ l.rate * time_to_live second token l
  unfolding time_to_live
  full_by_then =
      let b = l.rate * second in
      let q = (capacity second token l + (b - 1)) / b in
      let some_tokens : 0 < b = mul-pos refills ticks in
      omega (
        arith,
        some_tokens,
        lt-div-mul-add {a = capacity second token l + (b - 1)} {b = b} some_tokens,
        mul_left_comm l.rate (q + 1) second,
        add-mul q 1 b,
      )

  pub refill_le :
      (now : ℕ) (b : Option Bucket) → refill second token l now b ≤ capacity second token l
  refill_le now none = omega arith
  refill_le now (some b) = ground arith

  -- What a caller finds, at most, after a call that left `left`.
  found_later :
      (now later left : ℕ)
      → now ≤ later
      → refill second token l later (
          held later (
            some (record {
              tokens = left;
              ts = now;
              expires = some (now + time_to_live second token l);
            })))
        ≤ left + l.rate * (later - now)
  found_later now later left le =
      let ttl = time_to_live second token l in
      let gone : now + ttl ≤ later → l.rate * ttl ≤ l.rate * (later - now) =
        λ out. mul-le-mul_left l.rate (omega (arith, out)) in
      ground (arith, full_by_then, gone)

  pub allow-later :
      (now later : ℕ) (b : Option Bucket)
      → now ≤ later
      → refill second token l later (held later (allow second token false l now b).0)
          + (if (allow second token false l now b).1 then token else 0)
        ≤ refill second token l now (held now b) + l.rate * (later - now)
  unfolding allow token_bucket
  allow-later now later b le =
      let here = refill second token l now (held now b) in
      if-cases (l.rate == 0) Fine (λ off. absurd (ground (arith, off, refills)))
        (λ _.
          ground (arith, found_later now later (here - token) le, found_later now later here le))
    where
      Fine : Bucket × Option Bool → Type 0
      Fine x =
          refill second token l later (held later (after_script second token x).0)
            + (if (after_script second token x).1 then token else 0)
          ≤ refill second token l now (held now b) + l.rate * (later - now)
