-- ===== src/Tests/Homework.antt =====
-- Assignments of one room: two that are set and one that is dropped, and two coaches at once.
use blundernet.Base.{ℕ, suc, zero, ◌≡◌, codes, List, [], ◌∷◌, some, false, refl, arith}
use blundernet.Base.Int.{pos}
use blundernet.Store.Classrooms.{coach, student, done}
use blundernet.Store.Homework.{Assignment, count_room, set_assignment}
use blundernet.Store.Homework.Kept.{
  Call, sets, drops, run_call, run_calls, Sound, AllCurrent, run_calls-Sound,
}

abbrev calls : List Call
calls =
    sets false (some 0) "r" "ana" "a1" (codes " fork ") (pos 1800) (pos 1200) (pos 10) (done coach)
    ∷ sets false (some 1) "r" "ben" "a2" [] (pos 0) (pos 0) (pos 5) (done student)
    ∷ drops false "r" "a1" (done coach)
    ∷ []

calls_current : AllCurrent calls []
unfolding run_call set_assignment count_room
calls_current = (refl, (refl, (tt, tt)))

run_calls-Sound_example : Sound (run_calls calls [])
run_calls-Sound_example =
    run_calls-Sound calls [] calls_current (tt, λ room. unfold count_room in omega arith)

-- Nineteen assignments, and two coaches who both have read that.
abbrev assigned : ℕ → List Assignment
assigned zero = []
assigned (suc n) =
    record {
      id = "a";
      room = "r";
      created_by = "ana";
      theme = [];
      min_rating = pos 0;
      max_rating = pos 0;
      target = pos 5;
    }
    ∷ assigned n

abbrev both : List Call
both =
    sets false (some 19) "r" "ana" "a20" [] (pos 0) (pos 0) (pos 5) (done coach)
    ∷ sets false (some 19) "r" "ben" "a21" [] (pos 0) (pos 0) (pos 5) (done coach)
    ∷ []

one_too_many : count_room "r" (run_calls both (assigned 19)) ≡ 21
unfolding run_calls run_call set_assignment count_room
one_too_many = refl
