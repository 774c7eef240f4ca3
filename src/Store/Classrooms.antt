-- ===== src/Store/Classrooms.antt =====
-- internal/store/classrooms.go: rooms and their members, as the tables of
-- migrations/0017_classrooms.sql. A transaction is one step, and `lost` says that the database fails
-- before the call changes anything; `database` is every error that is none of the package's own. A role is read before the transaction, so the steps that need
-- one take it as an argument. New ids and the join codes that are drawn are arguments.
pub mod Coaches
use blundernet.Base.{
  ℕ, suc, ◌+◌, ◌-◌, ◌≡◌, Text, text_eq, trim_space, length, String, str_eq, Bool, true, false, not,
  ◌&&◌, ◌||◌, List, [], ◌∷◌, Option, none, some, ltb, leb, ◌==◌, if◌then◌else◌,
}
use blundernet.Store.JoinCodes.{normalise_join_code}

pub data RoomError : Type 0 where
  no_such_code not_a_member not_coach guest_user already_in last_coach : RoomError
  code_clashes bad_name too_many_rooms room_full database : RoomError

pub data RoomResult {ℓ} (A : Type ℓ) : Type ℓ where
  done : A → RoomResult A
  failed : RoomError → RoomResult A

pub data Role : Type 0 where
  coach student : Role

abbrev pub is_coach : Role → Bool
is_coach coach = true
is_coach student = false

pub record Room : Type 0 where
  pub id : String
  pub name : Text
  pub join_code : Text

pub record Member : Type 0 where
  pub room : String
  pub user : String
  pub role : Role

-- `guests` answers `none` for a user that has no row.
pub record Tables : Type 0 where
  pub rooms : List Room
  pub members : List Member
  pub guests : String → Option Bool

abbrev pub is_row : String → String → Member → Bool
is_row room user m = str_eq m.room room && str_eq m.user user

-- roleOf
unfoldable pub role_of : String → String → List Member → RoomResult Role
role_of room user [] = failed not_a_member
role_of room user (m ∷ ms) =
    let rest = role_of room user ms in if is_row room user m then done m.role else rest

unfoldable pub count_members : String → List Member → ℕ
count_members room [] = 0
count_members room (m ∷ ms) =
    let rest = count_members room ms in if str_eq m.room room then suc rest else rest

unfoldable pub count_coaches : String → List Member → ℕ
count_coaches room [] = 0
count_coaches room (m ∷ ms) =
    let rest = count_coaches room ms in
    if str_eq m.room room && is_coach m.role then suc rest else rest

-- The rooms that a user coaches.
unfoldable pub count_coached : String → List Member → ℕ
count_coached user [] = 0
count_coached user (m ∷ ms) =
    let rest = count_coached user ms in
    if str_eq m.user user && is_coach m.role then suc rest else rest

unfoldable pub drop_member : String → String → List Member → List Member
drop_member room user [] = []
drop_member room user (m ∷ ms) =
    let rest = drop_member room user ms in if is_row room user m then rest else m ∷ rest

unfoldable pub drop_members : String → List Member → List Member
drop_members room [] = []
drop_members room (m ∷ ms) =
    let rest = drop_members room ms in if str_eq m.room room then rest else m ∷ rest

unfoldable pub drop_room : String → List Room → List Room
drop_room id [] = []
drop_room id (r ∷ rs) = let rest = drop_room id rs in if str_eq r.id id then rest else r ∷ rest

unfoldable pub find_code : Text → List Room → Option Room
find_code code [] = none
find_code code (r ∷ rs) =
    let rest = find_code code rs in if text_eq r.join_code code then some r else rest

unfoldable pub set_code : String → Text → List Room → List Room
set_code id code [] = []
set_code id code (r ∷ rs) =
    (if str_eq r.id id then record r { join_code = code } else r) ∷ set_code id code rs

-- Another room has the code.
unfoldable pub clashes : String → Text → List Room → Bool
clashes id code [] = false
clashes id code (r ∷ rs) = text_eq r.join_code code && not (str_eq r.id id) || clashes id code rs

unfoldable pub has_room : String → List Room → Bool
has_room id [] = false
has_room id (r ∷ rs) = str_eq r.id id || has_room id rs

-- The loops over the three codes that are drawn in Create and RotateCode.
unfoldable pub free_code : String → List Text → List Room → RoomResult Text
free_code id [] rs = failed code_clashes
free_code id (code ∷ codes) rs =
    let rest = free_code id codes rs in if clashes id code rs then rest else done code

-- isGuest
unfoldable pub require_account : String → Tables → RoomResult (Unit {0})
require_account user t = elim (t.guests user) [
  | none ↦ failed not_a_member
  | some guest ↦ if guest then failed guest_user else done tt
]

-- insert: the room and its first coach.
unfoldable pub insert : String → Text → Text → String → Tables → Tables
insert id name code user t = record t {
  rooms = record { id = id; name = name; join_code = code } ∷ t.rooms;
  members = record { room = id; user = user; role = coach } ∷ t.members;
}

abbrev pub Outcome : Type 0
Outcome = Tables × RoomResult (Unit {0})

abbrev pub after_code : String → Text → String → Tables → RoomResult Text → Outcome
after_code id name user t (failed e) = (t, failed e)
after_code id name user t (done code) = (insert id name code user t, done tt)

abbrev pub after_account :
    String → Text → List Text → String → Tables → RoomResult (Unit {0}) → Outcome
after_account id name codes user t (failed e) = (t, failed e)
after_account id name codes user t (done u) =
    if leb 20 (count_coached user t.members)
    then (t, failed too_many_rooms)
    else after_code id name user t (free_code id codes t.rooms)

unfoldable pub create_room : Bool → String → List Text → String → Text → Tables → Outcome
create_room lost id codes user name t =
    if length (trim_space name) == 0 || ltb 60 (length (trim_space name))
    then (t, failed bad_name)
    else if lost
    then (t, failed database)
    else after_account id (trim_space name) codes user t (require_account user t)

-- The transaction of Join: a row that is there already stays, and a room over its size rolls back.
abbrev pub join_row : String → String → Tables → RoomResult Role → Outcome
join_row room user t (done role) = (t, failed already_in)
join_row room user t (failed e) =
    let ms = record { room = room; user = user; role = student } ∷ t.members in
    if ltb 200 (count_members room ms)
    then (t, failed room_full)
    else (record t { members = ms }, done tt)

unfoldable pub join_tx : String → String → Tables → Outcome
join_tx room user t =
    if has_room room t.rooms
    then join_row room user t (role_of room user t.members)
    else (t, failed database)

-- The transaction of Remove.
abbrev pub remove_row : String → String → Tables → RoomResult Role → Outcome
remove_row room target t (failed e) = (t, failed not_a_member)
remove_row room target t (done role) =
    let ms = drop_member room target t.members in
    if count_coaches room ms == 0
    then (t, failed last_coach)
    else (record t { members = ms }, done tt)

unfoldable pub remove_tx : String → String → Tables → Outcome
remove_tx room target t =
    if has_room room t.rooms
    then remove_row room target t (role_of room target t.members)
    else (t, failed database)

abbrev pub after_find : String → Tables → Option Room → Outcome
after_find user t none = (t, failed no_such_code)
after_find user t (some room) = join_tx room.id user t

abbrev pub join_account : Text → String → Tables → RoomResult (Unit {0}) → Outcome
join_account code user t (failed e) = (t, failed e)
join_account code user t (done u) = after_find user t (find_code code t.rooms)

unfoldable pub join_room : Bool → String → Text → Tables → Outcome
join_room lost user typed t =
    let code = normalise_join_code typed in
    if not (length code == 6)
    then (t, failed no_such_code)
    else if lost
    then (t, failed database)
    else join_account code user t (require_account user t)

-- What a coach may do, once the role has been read.
abbrev pub as_coach : Tables → RoomResult Role → Outcome → Outcome
as_coach t (failed e) p = (t, failed e)
as_coach t (done student) p = (t, failed not_coach)
as_coach t (done coach) p = p

abbrev pub may_remove : Role → String → String → Bool
may_remove role caller target = is_coach role || str_eq caller target

abbrev pub remove_as : String → String → String → Tables → RoomResult Role → Outcome
remove_as room caller target t (failed e) = (t, failed e)
remove_as room caller target t (done role) =
    if may_remove role caller target then remove_tx room target t else (t, failed not_coach)

unfoldable pub remove : Bool → String → String → String → Tables → Outcome
remove lost room caller target t =
    if lost
    then (t, failed database)
    else remove_as room caller target t (role_of room caller t.members)

-- The members go with the room.
abbrev pub without_room : String → Tables → Tables
without_room id t = record t { rooms = drop_room id t.rooms; members = drop_members id t.members }

unfoldable pub delete_room : Bool → String → String → Tables → Outcome
delete_room lost room user t =
    if lost
    then (t, failed database)
    else as_coach t (role_of room user t.members) (without_room room t, done tt)

abbrev pub after_draw : String → Tables → RoomResult Text → Outcome
after_draw room t (failed e) = (t, failed e)
after_draw room t (done code) = (record t { rooms = set_code room code t.rooms }, done tt)

unfoldable pub rotate_code : Bool → List Text → String → String → Tables → Outcome
rotate_code lost codes room user t =
    if lost
    then (t, failed database)
    else as_coach t (role_of room user t.members) (after_draw room t (free_code room codes t.rooms))

-- What the functions write, apart from the reads before: between them any other call may have run,
-- so the room that a code led to and the role that was read are arguments.
pub data Write : Type 0 where
  creates : Bool → String → List Text → String → Text → Write
  joins : String → String → Write
  removes : String → String → String → RoomResult Role → Write
  deletes : String → RoomResult Role → Write
  rotates : String → List Text → RoomResult Role → Write

unfoldable pub run_write : Write → Tables → Outcome
run_write (creates lost id codes user name) t = create_room lost id codes user name t
run_write (joins room user) t = join_tx room user t
run_write (removes room caller target read) t = remove_as room caller target t read
run_write (deletes room read) t = as_coach t read (without_room room t, done tt)
run_write (rotates room codes read) t =
    as_coach t read (after_draw room t (free_code room codes t.rooms))

-- A new room's id is one that no member row names.
abbrev pub IsNew : Write → Tables → Type 0
IsNew (creates lost id codes user name) t = count_members id t.members ≡ 0
IsNew _ t = Unit {0}

pub data Writes (t : Tables) : Tables → Type 0 where
  here : Writes t t
  next : {u : Tables} (s : Write) → Writes t u → IsNew s u → Writes t (run_write s u).0
