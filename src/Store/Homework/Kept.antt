-- ===== src/Store/Homework/Kept.antt =====
-- What any calls keep of the assignments of internal/store/classroomwork.go.
use blundernet.Base.{
  ℕ, suc, ◌≤◌, ◌≡◌, refl, Text, String, str_eq, eq_iff, Bool, false, not, ◌||◌, List, [], ◌∷◌,
  Option, none, some, leb, if-cases, trim_space, subst, arith,
}
use blundernet.Base.Int.{ℤ, pos, ◌≤ℤ◌, ltb_ℤ}
use blundernet.Store.Classrooms.{Role, coach, student, RoomResult, done, failed}
use blundernet.Store.Homework.{
  Assignment, Written, window, count_room, insert, set_assignment, is_named, has_assignment,
  without, drop_assignment,
}

-- The calls, with what each has read and whether its statement fails.
pub data Call : Type 0 where
  sets : Bool → Option ℕ → String → String → String → Text → ℤ → ℤ → ℤ → RoomResult Role → Call
  drops : Bool → String → String → RoomResult Role → Call

unfoldable pub run_call : Call → List Assignment → Written
run_call (sets lost counted room user id theme low high target role) rows =
    set_assignment lost counted room user id theme low high target rows role
run_call (drops lost room id role) rows = drop_assignment lost room id rows role

unfoldable pub run_calls : List Call → List Assignment → List Assignment
run_calls [] rows = rows
run_calls (c ∷ cs) rows = run_calls cs (run_call c rows).0

-- A target between 1 and 100, and a window that is not the wrong way round.
pub record Fits (a : Assignment) : Type 0 where
  pub low : pos 1 ≤ℤ a.target
  pub high : a.target ≤ℤ pos 100
  pub ordered : pos 1 ≤ℤ a.min_rating → pos 1 ≤ℤ a.max_rating → a.min_rating ≤ℤ a.max_rating

abbrev pub AllFit : List Assignment → Type 0
AllFit [] = Unit
AllFit (a ∷ rows) = Fits a × AllFit rows

abbrev pub Small : List Assignment → Type 0
Small rows = (room : String) → count_room room rows ≤ 20

-- A call whose count, if it has read one, is still the room's.
abbrev pub Current : Call → List Assignment → Type 0
Current (sets lost none room user id theme low high target role) rows = Unit
Current (sets lost (some n) room user id theme low high target role) rows = n ≡ count_room room rows
Current (drops lost room id role) rows = Unit

abbrev pub AllCurrent : List Call → List Assignment → Type 0
AllCurrent [] rows = Unit
AllCurrent (c ∷ cs) rows = Current c rows × AllCurrent cs (run_call c rows).0

abbrev pub Sound : List Assignment → Type 0
Sound rows = AllFit rows × Small rows

window_ordered :
    (low high : ℤ)
    → pos 1 ≤ℤ (window low high).0
    → pos 1 ≤ℤ (window low high).1
    → (window low high).0 ≤ℤ (window low high).1
unfolding window
window_ordered low high a b = ground (arith, a, b)

AllFit-without :
    (room id : String) (rows : List Assignment) → AllFit rows → AllFit (without room id rows)
unfolding without
AllFit-without room id [] f = f
AllFit-without room id (a ∷ rows) (here, f) =
    if-cases (is_named room id a) AllFit (λ _. AllFit-without room id rows f)
      (λ _. (here, AllFit-without room id rows f))

count_room-without :
    (room id other : String) (rows : List Assignment)
    → count_room other (without room id rows) ≤ count_room other rows
unfolding count_room without
count_room-without room id other [] = omega arith
count_room-without room id other (a ∷ rows) = ground (arith, count_room-without room id other rows)

insert-Sound :
    (lost : Bool) (a : Assignment) (rows : List Assignment) (counted : Option ℕ)
    → Fits a
    → ((n : ℕ) → counted ≡ some n → n ≡ count_room a.room rows)
    → Sound rows
    → Sound (insert lost a rows counted).0
unfolding count_room
insert-Sound lost a rows none fits current s = s
insert-Sound lost a rows (some n) fits current (all, small) =
    if-cases (leb 20 n) (λ (x : Written). Sound x.0) (λ _. (all, small))
      (λ room_left.
        if-cases lost (λ (x : Written). Sound x.0) (λ _. (all, small))
          (λ _. ((fits, all), λ room. grown room room_left)))
  where
    grown : (room : String) → leb 20 n ≡ false → count_room room (a ∷ rows) ≤ 20
    grown room room_left =
        if-cases (str_eq a.room room) (λ (k : ℕ). k ≤ 20)
          (λ here.
            subst (λ r. suc (count_room r rows) ≤ 20) ((eq_iff a.room room).0 here)
              (ground (arith, current n refl, room_left)))
          (λ _. small room)

run_call-Sound :
    (c : Call) (rows : List Assignment) → Current c rows → Sound rows → Sound (run_call c rows).0
unfolding run_call set_assignment drop_assignment
run_call-Sound (sets lost counted room user id theme low high target (failed e)) rows current s = s
run_call-Sound (sets lost counted room user id theme low high target (done student)) rows current
      s =
    s
run_call-Sound (sets lost counted room user id theme low high target (done coach)) rows current s =
    if-cases (ltb_ℤ target (pos 1) || ltb_ℤ (pos 100) target) (λ (x : Written). Sound x.0) (λ _. s)
      (λ fine.
        insert-Sound lost
          (record {
            id = id;
            room = room;
            created_by = user;
            theme = trim_space theme;
            min_rating = (window low high).0;
            max_rating = (window low high).1;
            target = target;
          })
          rows counted
          (record {
            low = ground (arith, fine);
            high = ground (arith, fine);
            ordered = window_ordered low high;
          })
          (read counted current) s)
  where
    read :
        (o : Option ℕ)
        → Current (sets lost o room user id theme low high target (done coach)) rows
        → (n : ℕ) → o ≡ some n
        → n ≡ count_room room rows
    read none c n h = ground arith
    read (some m) c n h = ground (arith, h, c)
run_call-Sound (drops lost room id (failed e)) rows current s = s
run_call-Sound (drops lost room id (done student)) rows current s = s
run_call-Sound (drops lost room id (done coach)) rows current (all, small) =
    if-cases lost (λ (x : Written). Sound x.0) (λ _. (all, small))
      (λ _.
        if-cases (not (has_assignment room id rows)) (λ (x : Written). Sound x.0)
          (λ _. (all, small))
          (λ _. (
            AllFit-without room id rows all,
            λ other. omega (arith, small other, count_room-without room id other rows),
          )))

-- If every assignment has a target between 1 and 100 and a rating window that is not the wrong
-- way round, and no room has more than 20, then so it is after any sequence of calls of
-- SetAssignment and DropAssignment, whatever roles they read and whichever statements fail, as
-- long as the count that each SetAssignment has read is still the room's when it writes.
pub run_calls-Sound :
    (calls : List Call) (rows : List Assignment)
    → AllCurrent calls rows
    → Sound rows
    → Sound (run_calls calls rows)
unfolding run_calls
run_calls-Sound [] rows current s = s
run_calls-Sound (c ∷ cs) rows (now, later) s =
    run_calls-Sound cs (run_call c rows).0 later (run_call-Sound c rows now s)
