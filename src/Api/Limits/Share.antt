-- ===== src/Api/Limits/Share.antt =====
-- How many requests of one caller internal/httpapi/ratelimit.go lets through.
use blundernet.Base.{
  ℕ, suc, ◌+◌, ◌-◌, ◌*◌, ◌≤◌, ◌<◌, ◌≡◌, subst, Text, text_eq, text_eq→eq, text_eq_refl, Bool, true,
  false, List, [], ◌∷◌, Option, none, some, if◌then◌else◌, arith, Bool-cases, inl, inr,
}
use native.Mathlib.Nat.{mul-zero, mul-suc}
use blundernet.Store.RateLimit.{Limit, Bucket, held, capacity, refill, allow}
use blundernet.Store.RateLimit.Bound.{refill_le, allow-later, gain_split}
use blundernet.Api.Limits.{Request, Addresses, limit_key, Buckets, answer, limit}

-- Whether a request got through to its handler.
abbrev pub passes : Option ℕ → Bool
passes none = true
passes (some retry) = false

-- Each request comes no earlier than the one before; the last one's time.
abbrev pub Rising : ℕ → List (ℕ × Request) → Type 0
Rising now [] = Unit
Rising now ((at, r) ∷ rest) = (now ≤ at) × Rising at rest

abbrev pub last : ℕ → List (ℕ × Request) → ℕ
last now [] = now
last now ((at, r) ∷ rest) = last at rest

last_le : (now : ℕ) (rest : List (ℕ × Request)) → Rising now rest → now ≤ last now rest
last_le now [] h = omega arith
last_le now ((at, r) ∷ rest) (le, h) = omega (arith, le, last_le at rest h)

module _ (second token : ℕ) (net : Addresses) (trust_proxy : Bool) (group : Text) (l : Limit) where
  abbrev pub key_of : Request → Text
  key_of r = (limit_key net trust_proxy group r).0

  -- The requests that count against a key and reach the handler of a route.
  unfoldable pub passed : Text → List (ℕ × Request) → Buckets → ℕ
  passed k [] buckets = 0
  passed k ((at, r) ∷ rest) buckets =
      let (buckets', refusal) = limit second token false l at (key_of r) buckets in
      let n = passed k rest buckets' in
      if text_eq (key_of r) k then (if passes refusal then suc n else n) else n

  module _ (ticks : 0 < second) (refills : 0 < l.rate) where
    -- What a key's caller finds from a time on is bounded.
    Within : Text → ℕ → ℕ → Buckets → Type 0
    Within k since amount buckets =
        (later : ℕ)
        → since ≤ later
        → refill second token l later (held later (buckets k)) ≤ amount + l.rate * (later - since)

    settle :
        (ok : Bool) (n here gained total : ℕ)
        → (if ok then token else 0) ≤ here
        → token * n ≤ (here - (if ok then token else 0)) + gained
        → here + gained ≤ total
        → token * (if passes (answer second token l ok) then suc n else n) ≤ total
    settle true n here gained total paid rest all = omega (arith, mul-suc token n, paid, rest, all)
    settle false n here gained total paid rest all = omega (arith, rest, all)

    passed_from :
        (k : Text) (since amount now : ℕ) (rest : List (ℕ × Request)) (buckets : Buckets)
        → since ≤ now
        → Rising now rest
        → Within k since amount buckets
        → token * passed k rest buckets ≤ amount + l.rate * (last now rest - since)
    unfolding passed Within limit
    passed_from k since amount now [] buckets le h w = rw (mul-zero token) (omega arith)
    passed_from k since amount now ((at, r) ∷ rest) buckets le (step, h) w =
        elim (Bool-cases (text_eq (key_of r) k)) [
          | inr other ↦ rw other (
              passed_from k since amount at rest (next (key_of r)) (omega (arith, le, step)) h
                (λ later from. rw other (w later from)))
          | inl own ↦
              let same = text_eq→eq (key_of r) k own in
              rw (own, same)
                (pays (
                  passed_from k at (here - paid) at rest (next k) (omega arith) h (λ later from.
                    rw (text_eq_refl k) (
                      omega (
                        arith,
                        allow-later second token l ticks refills at later (buckets k) from,
                        covered,
                      )))))
        ]
      where
        now_there : Option Bucket × Bool
        now_there = allow second token false l at (buckets k)

        here : ℕ
        here = refill second token l at (held at (buckets k))

        paid : ℕ
        paid = if now_there.1 then token else 0

        next : Text → Buckets
        next j = (limit second token false l at j buckets).0

        covered : paid ≤ here
        covered =
            let free : l.rate * (at - at) ≡ 0 =
              subst (λ n. l.rate * n ≡ 0) (omega arith) (mul-zero l.rate) in
            omega (
              arith,
              allow-later second token l ticks refills at at (buckets k) (omega arith),
              free,
            )

        pays :
            token * passed k rest (next k) ≤ (here - paid) + l.rate * (last at rest - at)
            → token
                * (if passes (answer second token l now_there.1)
                    then suc (passed k rest (next k))
                    else passed k rest (next k))
              ≤ amount + l.rate * (last at rest - since)
        pays ih =
            settle now_there.1 (passed k rest (next k)) here (l.rate * (last at rest - at))
              (amount + l.rate * (last at rest - since)) covered ih
              (omega (
                arith,
                w at (omega (arith, le, step)),
                gain_split l.rate since at (last at rest) (omega (arith, le, step))
                    (last_le at rest h),
              ))

    -- Take a route whose limit gives tokens back, buckets in whatever state, and requests whose
    -- times never go back, with Redis answering. Then the tokens of the requests that count
    -- against one key and reach the handler are no more than a full bucket and what comes back
    -- between the start and the last request, whatever other keys do and whenever the key in
    -- Redis runs out in between.
    pub passed_le :
        (k : Text) (start : ℕ) (requests : List (ℕ × Request)) (buckets : Buckets)
        → Rising start requests
        → token * passed k requests buckets
          ≤ capacity second token l + l.rate * (last start requests - start)
    unfolding Within
    passed_le k start requests buckets rising =
        passed_from k start (capacity second token l) start requests buckets (omega arith) rising
          (λ later from.
            omega (arith, refill_le second token l ticks refills later (held later (buckets k))))
