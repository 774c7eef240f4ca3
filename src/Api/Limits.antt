-- ===== src/Api/Limits.antt =====
-- internal/httpapi/ratelimit.go: who a request counts against, and whether it reaches its handler.
-- net.ParseIP with String, and net.SplitHostPort, are parameters. `lost` says that Redis does not
-- answer.
pub mod Share
use blundernet.Base.{
  ℕ, ◌+◌, ◌*◌, ◌/◌, Text, codes, text_eq, trim_space, ◌++◌, length, Bool, true, false, not, ◌&&◌,
  List, [], ◌∷◌, Option, none, some, ◌==◌, if◌then◌else◌,
}
use blundernet.Store.Users.{User}
use blundernet.Store.RateLimit.{Limit, Bucket, allow}

-- What is read of a request: X-Forwarded-For, RemoteAddr and the caller.
pub record Request : Type 0 where
  pub user : Option User
  pub forwarded : Text
  pub remote : Text

pub record Addresses : Type 0 where
  pub parse_ip : Text → Option Text
  pub split_host_port : Text → Option Text

-- The text after the last comma, or all of it.
abbrev pub after_comma : Text → Text → Text
after_comma kept [] = kept
after_comma kept (c ∷ t) = after_comma (if c == b',' then t else kept) t

abbrev pub remote_host : Addresses → Text → Text
remote_host net remote = elim (net.split_host_port remote) [ none ↦ remote | some host ↦ host ]

unfoldable pub client_ip : Addresses → Bool → Request → Text
client_ip net trust_proxy r =
    if trust_proxy && not (length r.forwarded == 0)
    then elim (net.parse_ip (trim_space (after_comma r.forwarded r.forwarded))) [
      | none ↦ remote_host net r.remote
      | some ip ↦ ip
    ]
    else remote_host net r.remote

abbrev pub address_key : Addresses → Bool → Text → Request → Text × Bool
address_key net trust_proxy group r =
    (group ++ (codes ":ip:" ++ client_ip net trust_proxy r), false)

unfoldable pub limit_key : Addresses → Bool → Text → Request → Text × Bool
limit_key net trust_proxy group r = elim r.user [
  | none ↦ address_key net trust_proxy group r
  | some u ↦
      if u.is_guest
      then address_key net trust_proxy group r
      else (group ++ (codes ":user:" ++ codes u.id), true)
]

pub record Limits : Type 0 where
  pub auth : Limit
  pub create_game : Limit
  pub move : Limit
  pub puzzles : Limit

-- A limit at its zero value is the default's.
abbrev pub or_default : Limit → Limit → Limit
or_default d l = if (l.burst == 0) && (l.rate == 0) then d else l

-- withDefaults, with the defaults.
unfoldable pub with_defaults : Limits → Limits → Limits
with_defaults d l = record {
  auth = or_default d.auth l.auth;
  create_game = or_default d.create_game l.create_game;
  move = or_default d.move l.move;
  puzzles = or_default d.puzzles l.puzzles;
}

abbrev pub Buckets : Type 0
Buckets = Text → Option Bucket

abbrev pub put_bucket : Text → Option Bucket → Buckets → Buckets
put_bucket k b buckets = λ j. if text_eq k j then b else buckets j

module _ (second token : ℕ) where
  -- The value of Retry-After.
  unfoldable pub retry_after : Limit → ℕ
  retry_after l = if l.rate == 0 then 2 else token / (l.rate * second) + 1

  abbrev pub answer : Limit → Bool → Option ℕ
  answer l true = none
  answer l false = some (retry_after l)

  -- limit: `none` lets the request through to its handler, `some` is a 429 with its Retry-After.
  unfoldable pub limit : Bool → Limit → ℕ → Text → Buckets → Buckets × Option ℕ
  limit lost l now key buckets =
      let (b, allowed) = allow second token lost l now (buckets key) in
      (put_bucket key b buckets, answer l allowed)
