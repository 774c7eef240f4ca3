-- ===== src/Store/Homework.antt =====
-- internal/store/classroomwork.go: the assignments of classrooms. The role and the count that a call
-- reads before its statement are arguments; `lost` says that the statement fails, and `database` is
-- every error that is none of the package's own. That a deleted room
-- takes its assignments with it is not part of the model.
pub mod Kept
use blundernet.Base.{
  ℕ, suc, Text, trim_space, String, str_eq, Bool, true, false, not, ◌&&◌, ◌||◌, List, [], ◌∷◌,
  Option, none, some, leb, if◌then◌else◌,
}
use blundernet.Base.Int.{ℤ, pos, ltb_ℤ}
use blundernet.Store.Classrooms.{Role, coach, student, RoomResult, RoomError, done, failed}

pub record Assignment : Type 0 where
  pub id : String
  pub room : String
  pub created_by : String
  pub theme : Text
  pub min_rating : ℤ
  pub max_rating : ℤ
  pub target : ℤ

pub data WorkError : Type 0 where
  bad_assignment : WorkError
  room_error : RoomError → WorkError

pub data WorkResult (A : Type 0) : Type 0 where
  granted : A → WorkResult A
  denied : WorkError → WorkResult A

-- A window the wrong way round is turned.
unfoldable pub window : ℤ → ℤ → ℤ × ℤ
window low high =
    if ltb_ℤ (pos 0) low && (ltb_ℤ (pos 0) high && ltb_ℤ high low) then (high, low) else (low, high)

unfoldable pub count_room : String → List Assignment → ℕ
count_room room [] = 0
count_room room (a ∷ rows) =
    let rest = count_room room rows in if str_eq a.room room then suc rest else rest

abbrev pub Written : Type 0
Written = List Assignment × WorkResult (Unit {0})

abbrev pub insert : Bool → Assignment → List Assignment → Option ℕ → Written
insert lost a rows none = (rows, denied (room_error RoomError.database))
insert lost a rows (some counted) =
    if leb 20 counted
    then (rows, denied (room_error RoomError.too_many_rooms))
    else if lost
    then (rows, denied (room_error RoomError.database))
    else (a ∷ rows, granted tt)

-- SetAssignment; `counted` is the count that was read, if it could be, and `id` the new uuid.
unfoldable pub set_assignment :
    Bool
    → Option ℕ
    → String
    → String
    → String
    → Text
    → ℤ
    → ℤ
    → ℤ
    → List Assignment
    → RoomResult Role
    → Written
set_assignment lost counted room user id theme low high target rows (failed e) =
    (rows, denied (room_error e))
set_assignment lost counted room user id theme low high target rows (done student) =
    (rows, denied (room_error RoomError.not_coach))
set_assignment lost counted room user id theme low high target rows (done coach) =
    if ltb_ℤ target (pos 1) || ltb_ℤ (pos 100) target
    then (rows, denied bad_assignment)
    else insert lost
        (record {
          id = id;
          room = room;
          created_by = user;
          theme = trim_space theme;
          min_rating = (window low high).0;
          max_rating = (window low high).1;
          target = target;
        })
        rows counted

abbrev pub is_named : String → String → Assignment → Bool
is_named room id a = str_eq a.id id && str_eq a.room room

unfoldable pub has_assignment : String → String → List Assignment → Bool
has_assignment room id [] = false
has_assignment room id (a ∷ rows) = is_named room id a || has_assignment room id rows

unfoldable pub without : String → String → List Assignment → List Assignment
without room id [] = []
without room id (a ∷ rows) =
    let rest = without room id rows in if is_named room id a then rest else a ∷ rest

-- DropAssignment
unfoldable pub drop_assignment :
    Bool → String → String → List Assignment → RoomResult Role → Written
drop_assignment lost room id rows (failed e) = (rows, denied (room_error e))
drop_assignment lost room id rows (done student) = (rows, denied (room_error RoomError.not_coach))
drop_assignment lost room id rows (done coach) =
    if lost
    then (rows, denied (room_error RoomError.database))
    else if not (has_assignment room id rows)
    then (rows, denied (room_error RoomError.not_a_member))
    else (without room id rows, granted tt)
