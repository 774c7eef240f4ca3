-- ===== src/Tests/Rooms.antt =====
-- Classrooms and their questions, applied.
use blundernet.Base.{
  refl, List, ℕ, ◌≡◌, ◌≤◌, sym, subst, codes, some, true, false, arith, [], ◌∷◌, String, eq_iff,
}
use mathlib.Core.List.{Memᴰ}
use blundernet.Store.Classrooms.{
  coach, student, done, Room, Tables, count_members, count_coaches, Write, removes, run_write, here,
  next,
}
use blundernet.Store.Classrooms.Coaches.{AllOk, Writes-AllOk}
use blundernet.Store.Questions.View.{count_responses}
use blundernet.Store.Questions.{response_of, Question, Response, Board, asks, answer, serve_all}
use blundernet.Store.Questions.Open.{OneOpen, Answering, serve_all-OneOpen, answer-cases}

abbrev club : Room
club = record { id = "r1"; name = codes "club"; join_code = codes "ABC123" }

-- Ana coaches Ben.
abbrev tables : Tables
tables = record {
  rooms = club ∷ [];
  members =
      record { room = "r1"; user = "ana"; role = coach }
      ∷ record { room = "r1"; user = "ben"; role = student }
      ∷ [];
  guests = λ user. some false;
}

tables-AllOk : AllOk tables
unfolding count_members count_coaches
tables-AllOk r (Memᴰ.head p) =
    subst
      (λ (x : Room).
        (1 ≤ count_coaches x.id tables.members) × (count_members x.id tables.members ≤ 200))
      (sym p) (ground arith, ground arith)
tables-AllOk r (Memᴰ.tail m) = elim m [ ]

-- Ana tries to leave.
abbrev leaves : Write
leaves = removes "r1" "ana" "ana" (done coach)

Writes-AllOk_example : AllOk (run_write leaves tables).0
Writes-AllOk_example = Writes-AllOk tables-AllOk (next leaves here tt)

abbrev asked : Question
asked = record {
  id = "q1";
  room = "r1";
  asked_by = "ana";
  fen = codes "8/8";
  prompt = [];
  is_open = true;
}

abbrev board : Board
board = record { questions = asked ∷ []; responses = [] }

one_question : OneOpen board
one_question room = ground arith

serve_all-OneOpen_example :
    OneOpen (serve_all (asks false "r1" "ana" "q2" (codes "7/8") [] (done coach) ∷ []) board)
serve_all-OneOpen_example =
    serve_all-OneOpen (asks false "r1" "ana" "q2" (codes "7/8") [] (done coach) ∷ []) board
      one_question

abbrev response : Response
response = record { question = "q1"; user = "ben"; uci = codes "e2e4"; san = codes "e4" }

answer-cases_example :
    Answering false "r1" response board
      (done student)
      (answer false "r1" response board (done student))
answer-cases_example = answer-cases false "r1" response board (done student)

-- Cleo has answered in one of two boards and Dan in the other.
abbrev answered_by : String → Board
answered_by user = record board {
  responses = record { question = "q1"; user = user; uci = codes "e2e4"; san = codes "e4" } ∷ [];
}

abbrev no_grouping : String → List Response → ℕ
no_grouping question rs = 0

same_count :
    (q : String)
    → count_responses q (answered_by "cleo").responses
      ≡ count_responses q (answered_by "dan").responses
unfolding count_responses
same_count q = refl

same_own :
    (q : String)
    → response_of q "ben" (answered_by "cleo").responses
      ≡ response_of q "ben" (answered_by "dan").responses
unfolding response_of
same_own q = ground (arith, eq_iff "cleo" "ben", eq_iff "dan" "ben")
