-- ===== src/Store/Questions/View.antt =====
-- OpenQuestion of internal/store/classroomquestions.go. The query that groups the responses by move
-- for a coach is a parameter, as its order is the database's.
use blundernet.Base.{
  ℕ, suc, ◌≡◌, refl, subst, Text, trim_space, String, str_eq, eq_iff, Bool, true, List, [], ◌∷◌,
  Option, none, some, arith, if◌then◌else◌,
}
use blundernet.Store.Classrooms.{Role, coach, student, RoomResult, done, failed}
use blundernet.Store.Questions.{
  Question, Response, Board, QuestionResult, granted, denied, no_question, room_error, is_live, ask,
  response_of,
}

pub record View (G : Type 0) : Type 0 where
  pub question : Question
  pub answered : ℕ
  pub groups : Option G
  pub mine : Text

-- The newest open question of a room.
unfoldable pub find_open : String → List Question → Option Question
find_open room [] = none
find_open room (q ∷ qs) = let rest = find_open room qs in if is_live room q then some q else rest

unfoldable pub count_responses : String → List Response → ℕ
count_responses question [] = 0
count_responses question (r ∷ rs) =
    let rest = count_responses question rs in if str_eq r.question question then suc rest else rest

-- The caller's own move, or nothing.
abbrev pub move_of : Option Response → Text
move_of none = []
move_of (some r) = r.uci

module _ {G : Type 0} (grouped : String → List Response → G) where
  abbrev pub groups_for : Role → String → List Response → Option G
  groups_for student question rs = none
  groups_for coach question rs = some (grouped question rs)

  abbrev pub view_of : String → Role → Board → Option Question → QuestionResult (View G)
  view_of user role b none = denied no_question
  view_of user role b (some q) = granted (record {
    question = q;
    answered = count_responses q.id b.responses;
    groups = groups_for role q.id b.responses;
    mine = move_of (response_of q.id user b.responses);
  })

  unfoldable pub open_question : String → String → Board → RoomResult Role → QuestionResult (View G)
  open_question room user b (failed e) = denied (room_error e)
  open_question room user b (done role) = view_of user role b (find_open room b.questions)

  view_of-student :
      (user : String) (b b' : Board) (o : Option Question)
      → ((q : String) → count_responses q b.responses ≡ count_responses q b'.responses)
      → ((q : String) → response_of q user b.responses ≡ response_of q user b'.responses)
      → view_of user student b o ≡ view_of user student b' o
  view_of-student user b b' none c r = refl
  view_of-student user b b' (some q) c r = rw (c q.id, r q.id) refl

  -- What OpenQuestion shows a student is the same for any two states of a classroom that have
  -- the same questions, the same number of responses to each, and the same responses of that
  -- student: nobody else's moves show.
  pub open_question_student :
      (room user : String) (b b' : Board)
      → b.questions ≡ b'.questions
      → ((q : String) → count_responses q b.responses ≡ count_responses q b'.responses)
      → ((q : String) → response_of q user b.responses ≡ response_of q user b'.responses)
      → open_question room user b (done student) ≡ open_question room user b' (done student)
  unfolding open_question
  open_question_student room user b b' same c r =
      subst
        (λ qs.
          view_of user student b (find_open room b.questions)
          ≡ view_of user student b' (find_open room qs))
        same (view_of-student user b b' (find_open room b.questions) c r)

-- If Ask succeeds, the caller's role was read as coach, and the question that the room is on
-- afterwards is the one that was asked, with its position and its prompt trimmed.
pub find_open-ask :
    (lost : Bool) (room user id : String) (fen prompt : Text) (b : Board) (read : RoomResult Role)
    → (ask lost room user id fen prompt b read).1 ≡ granted tt
    → (read ≡ done coach)
      × (find_open room (ask lost room user id fen prompt b read).0.questions
          ≡ some (record {
            id = id;
            room = room;
            asked_by = user;
            fen = trim_space fen;
            prompt = trim_space prompt;
            is_open = true;
          }))
unfolding ask find_open
find_open-ask lost room user id fen prompt b (failed e) h = cc
find_open-ask lost room user id fen prompt b (done student) h = cc
find_open-ask lost room user id fen prompt b (done coach) h =
    (refl, ground (arith, eq_iff room room, h))
