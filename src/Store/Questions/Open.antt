-- ===== src/Store/Questions/Open.antt =====
-- At most one question is open in a room, and whose answers a call may change.
use blundernet.Base.{
  ℕ, suc, ◌≡◌, ◌≢◌, ◌≤◌, refl, Text, trim_space, String, eq_iff, Bool, true, false, List, [], ◌∷◌,
  some, ◌⊎◌, inl, inr, arith, if◌then◌else◌, if-cases, Bool-cases, clash, subst,
}
use mathlib.Core.List.{Memᴰ}
use mathlib.Core.List.Memᴰ.{head, tail}
use blundernet.Store.Classrooms.{Role, coach, student, RoomResult, RoomError, done, failed}
use blundernet.Store.Questions.{
  Question, Response, Board, Outcome, QuestionResult, granted, denied, room_error, question_closed,
  is_asked, is_live, close_all, bad_question, ask_room, ask, has_open, upsert, response_of, answer,
  close_one, close_question, Call, asks, answers, closes, serve, serve_all,
}

-- The open questions of a room.
abbrev pub count_open : String → List Question → ℕ
count_open room [] = 0
count_open room (q ∷ qs) = if is_live room q then suc (count_open room qs) else count_open room qs

abbrev pub OneOpen : Board → Type 0
OneOpen b = (room : String) → count_open room b.questions ≤ 1

count_open-close_all :
    (room : String) (qs : List Question) → count_open room (close_all room qs) ≡ 0
unfolding close_all
count_open-close_all room [] = refl
count_open-close_all room (q ∷ qs) = ground (arith, count_open-close_all room qs)

count_open-close_all_le :
    (room other : String) (qs : List Question)
    → count_open other (close_all room qs) ≤ count_open other qs
unfolding close_all
count_open-close_all_le room other [] = omega arith
count_open-close_all_le room other (q ∷ qs) = ground (arith, count_open-close_all_le room other qs)

count_open-close_one :
    (room id other : String) (qs : List Question)
    → count_open other (close_one room id qs) ≤ count_open other qs
unfolding close_one
count_open-close_one room id other [] = omega arith
count_open-close_one room id other (q ∷ qs) = ground (arith, count_open-close_one room id other qs)

ask_room-OneOpen :
    (lost : Bool) (q : Question) (b : Board) → OneOpen b → OneOpen (ask_room lost q b).0
ask_room-OneOpen true q b one = one
ask_room-OneOpen false q b one = λ other. ground (
  arith,
  count_open-close_all q.room b.questions,
  count_open-close_all_le q.room other b.questions,
  eq_iff q.room other,
  one other,
)

ask-OneOpen :
    (lost : Bool) (room user id : String) (fen prompt : Text) (b : Board) (read : RoomResult Role)
    → OneOpen b
    → OneOpen (ask lost room user id fen prompt b read).0
unfolding ask
ask-OneOpen lost room user id fen prompt b (failed e) one = one
ask-OneOpen lost room user id fen prompt b (done student) one = one
ask-OneOpen lost room user id fen prompt b (done coach) one =
    if-cases (bad_question (trim_space fen) (trim_space prompt)) (λ (p : Outcome). OneOpen p.0)
      (λ _. one) (λ _. ask_room-OneOpen lost _ b one)

answer-questions :
    (lost : Bool) (room : String) (new : Response) (b : Board) (read : RoomResult Role)
    → (answer lost room new b read).0.questions ≡ b.questions
unfolding answer
answer-questions lost room new b (failed e) = refl
answer-questions lost room new b (done role) = ground arith

close_question-OneOpen :
    (lost : Bool) (room id : String) (b : Board) (read : RoomResult Role)
    → OneOpen b
    → OneOpen (close_question lost room id b read).0
unfolding close_question
close_question-OneOpen lost room id b (failed e) one = one
close_question-OneOpen lost room id b (done student) one = one
close_question-OneOpen true room id b (done coach) one = one
close_question-OneOpen false room id b (done coach) one =
    if-cases (has_open room id b.questions) (λ (p : Outcome). OneOpen p.0)
      (λ _ other. omega (arith, count_open-close_one room id other b.questions, one other))
      (λ _. one)

serve-OneOpen : (c : Call) (b : Board) → OneOpen b → OneOpen (serve c b).0
unfolding serve
serve-OneOpen (asks lost room user id fen prompt read) b one =
    ask-OneOpen lost room user id fen prompt b read one
serve-OneOpen (answers lost room new read) b one =
    λ other. rw (answer-questions lost room new b read) (one other)
serve-OneOpen (closes lost room id read) b one = close_question-OneOpen lost room id b read one

-- If no room has two open questions, then so it is after any sequence of calls of Ask, Answer
-- and CloseQuestion, whatever roles they read and whichever of them fail.
pub serve_all-OneOpen : (cs : List Call) (b : Board) → OneOpen b → OneOpen (serve_all cs b)
unfolding serve_all
serve_all-OneOpen [] b one = one
serve_all-OneOpen (c ∷ cs) b one = serve_all-OneOpen cs (serve c b).0 (serve-OneOpen c b one)

response_of-upsert :
    (new : Response) (rs : List Response)
    → response_of new.question new.user (upsert new rs) ≡ some new
unfolding response_of upsert
response_of-upsert new [] =
    ground (arith, eq_iff new.question new.question, eq_iff new.user new.user)
response_of-upsert new (r ∷ rs) =
    ground
      (arith, response_of-upsert new rs, eq_iff new.question new.question, eq_iff new.user new.user)

response_of-upsert_ne :
    (new : Response) (rs : List Response) (question user : String)
    → (question ≢ new.question) ⊎ (user ≢ new.user)
    → response_of question user (upsert new rs) ≡ response_of question user rs
unfolding response_of upsert
response_of-upsert_ne new [] question user ne =
    ground (arith, eq_iff new.question question, eq_iff new.user user)
response_of-upsert_ne new (r ∷ rs) question user ne = ground (
  arith,
  response_of-upsert_ne new rs question user ne,
  eq_iff r.question new.question,
  eq_iff r.user new.user,
  eq_iff r.question question,
  eq_iff r.user user,
)

-- An open question of the room with the id.
pub record Asked (room id : String) (b : Board) : Type 0 where
  pub question : Question
  pub there : Memᴰ question b.questions
  pub named : question.id ≡ id
  pub placed : question.room ≡ room
  pub live : question.is_open ≡ true

has_open-Asked :
    (room id : String) (qs : List Question) (rs : List Response)
    → has_open room id qs ≡ true
    → Asked room id (record { questions = qs; responses = rs })
unfolding has_open
has_open-Asked room id [] rs h = absurd (ground (arith, h))
has_open-Asked room id (q ∷ qs) rs h = elim (Bool-cases (is_asked room id q)) [
  | inl here ↦ record {
    question = q;
    there = head refl;
    named = ground (arith, here, eq_iff q.id id);
    placed = ground (arith, here, eq_iff q.room room);
    live = ground (arith, here);
  }
  | inr away ↦
      let found = has_open-Asked room id qs rs (ground (arith, h, away)) in
      record {
        question = found.question;
        there = tail found.there;
        named = found.named;
        placed = found.placed;
        live = found.live;
      }
]

Asked-has_open :
    (room id : String) (qs : List Question) (q : Question)
    → Memᴰ q qs
    → q.id ≡ id
    → q.room ≡ room
    → q.is_open ≡ true
    → has_open room id qs ≡ true
unfolding has_open
Asked-has_open room id [] q m i r o = elim m [ ]
Asked-has_open room id (x ∷ qs) q (tail m) i r o =
    ground (arith, Asked-has_open room id qs q m i r o)
Asked-has_open room id (x ∷ qs) q (head e) i r o =
    let same =
      subst (λ (y : Question). (y.id ≡ id) × (y.room ≡ room) × (y.is_open ≡ true)) e (i, r, o) in
    ground (arith, same.0, same.1, same.2, eq_iff x.id id, eq_iff x.room room)

-- What an answer that is granted did.
pub record Answered (room : String) (new : Response) (b : Board) (read : RoomResult Role)
    (p : Outcome) : Type 0 where
  pub role : Role
  pub member : read ≡ done role
  pub asked : Asked room new.question b
  pub reply : p.1 ≡ granted tt
  pub questions : p.0.questions ≡ b.questions
  pub mine : response_of new.question new.user p.0.responses ≡ some new
  pub others :
      (question user : String)
      → (question ≢ new.question) ⊎ (user ≢ new.user)
      → response_of question user p.0.responses ≡ response_of question user b.responses

-- Why an answer was refused, and with which error.
pub data Refused (lost : Bool) (room : String) (new : Response) (b : Board) (read : RoomResult Role)
    (reply : QuestionResult (Unit {0})) : Type 0 where
  no_role :
      (e : RoomError)
      → read ≡ failed e
      → reply ≡ denied (room_error e)
      → Refused lost room new b read reply
  unreached :
      lost ≡ true
      → reply ≡ denied (room_error RoomError.database)
      → Refused lost room new b read reply
  shut :
      (Asked room new.question b → ⊥)
      → reply ≡ denied question_closed
      → Refused lost room new b read reply

abbrev pub Answering : Bool → String → Response → Board → RoomResult Role → Outcome → Type 0
Answering lost room new b read p =
    Answered room new b read p ⊎ ((p.0 ≡ b) × Refused lost room new b read p.1)

-- Answer is granted only to a caller whose role in the room could be read, for an open question
-- that has the id and belongs to the room; the caller's response to it is then the one that was
-- sent, every other response stands as it was, and so do the questions. Otherwise nothing
-- changes, and the error is that of the failed read, that of a statement that was lost, or, only
-- if the room has no open question of the id, ErrQuestionClosed.
pub answer-cases :
    (lost : Bool) (room : String) (new : Response) (b : Board) (read : RoomResult Role)
    → Answering lost room new b read (answer lost room new b read)
unfolding answer
answer-cases lost room new b (failed e) = inr (refl, no_role e refl refl)
answer-cases true room new b (done role) = inr (refl, unreached refl refl)
answer-cases false room new b (done role) =
    if-cases (has_open room new.question b.questions) (Answering false room new b (done role))
      (λ live. inl (record {
        role = role;
        member = refl;
        asked = has_open-Asked room new.question b.questions b.responses live;
        reply = refl;
        questions = refl;
        mine = response_of-upsert new b.responses;
        others = response_of-upsert_ne new b.responses;
      }))
      (λ gone. inr (
        refl,
        shut
            (λ a.
              clash
                (Asked-has_open room new.question b.questions a.question a.there a.named a.placed
                  a.live)
                gone)
            refl,
      ))
