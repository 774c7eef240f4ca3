-- ===== src/Store/Games.antt =====
-- internal/store/redis.go: live games in Redis, written by check-and-set. Redis is a map from game
-- ids to games; the encoding of a game as JSON is taken to lose nothing. `lost` says that the call
-- to Redis itself failed, before the script ran. The script's comparison of numbers is exact below
-- 2 ^ 53. Expiry is a step of its own (`expire`).
pub mod Races
pub mod Answers
use blundernet.Base.{
  ℕ, ◌+◌, ◌%◌, ◌^◌, ◌≡◌, String, str_eq, Bool, true, false, not, ◌||◌, Option, none, some, ◌==◌,
  if◌then◌else◌,
}
use blundernet.Errors.{Except, ok, err, not_found, conflict, backend}
use blundernet.Game.{Game}

abbrev pub Db : Type 0
Db = String → Option Game

abbrev pub put : Db → String → Option Game → Db
put db id entry j = if str_eq id j then entry else db j

-- casScript: the test that it makes on the stored game. `none` is the expected ply -1, which wants
-- the key to be absent.
unfoldable pub cas_allows : Option Game → Option ℕ → ℕ → Bool
cas_allows none none revision = true
cas_allows (some cur) none revision = false
cas_allows none (some ply) revision = false
cas_allows (some cur) (some ply) revision =
    not (not (cur.ply == ply) || not (cur.revision == revision))

abbrev pub u64 : ℕ → ℕ
u64 n = n % 2 ^ 64

-- The copy that is written.
abbrev pub bump : Game → Game
bump g = record g { revision = u64 (g.revision + 1) }

-- Games.write: the new store, and the caller's game with the revision that was written.
unfoldable pub write : Bool → Game → Option ℕ → Db → Db × Except Game
write lost g expected db =
    let next = bump g in
    if lost
    then (db, err backend)
    else if cas_allows (db g.id) expected g.revision
    then (put db g.id (some next), ok next)
    else (db, err conflict)

unfoldable pub create : Bool → Game → Db → Db × Except Game
create lost g db = write lost g none db

unfoldable pub update : Bool → Game → ℕ → Db → Db × Except Game
update lost g expected_ply db = write lost g (some expected_ply) db

unfoldable pub get : Bool → String → Db → Except Game
get lost id db = if lost then err backend else elim (db id) [ none ↦ err not_found | some g ↦ ok g ]

-- The key's time to live runs out.
unfoldable pub expire : String → Db → Db
expire id db = put db id none
