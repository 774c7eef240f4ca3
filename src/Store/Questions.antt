-- ===== src/Store/Questions.antt =====
-- internal/store/classroomquestions.go: the questions of a classroom and their answers, as the tables
-- of migrations/0018_classroom_questions.sql. A statement or transaction is one step; the role that
-- was read before it is an argument, and `database` is every error that is none of the package's own.
pub mod Open
pub mod View
use blundernet.Base.{
  ℕ, suc, ◌+◌, ◌≡◌, Text, text_eq, trim_space, length, String, str_eq, Bool, true, false, not, ◌&&◌,
  ◌||◌, List, [], ◌∷◌, Option, none, some, ltb, if◌then◌else◌,
}
use blundernet.Store.Classrooms.{Role, coach, student, RoomResult, RoomError, done, failed}

pub data QuestionError : Type 0 where
  no_question question_closed bad_prompt : QuestionError
  room_error : RoomError → QuestionError

pub data QuestionResult {ℓ} (A : Type ℓ) : Type ℓ where
  granted : A → QuestionResult A
  denied : QuestionError → QuestionResult A

-- The newest stands first; `is_open` says that closed_at is NULL.
pub record Question : Type 0 where
  pub id : String
  pub room : String
  pub asked_by : String
  pub fen : Text
  pub prompt : Text
  pub is_open : Bool

pub record Response : Type 0 where
  pub question : String
  pub user : String
  pub uci : Text
  pub san : Text

pub record Board : Type 0 where
  pub questions : List Question
  pub responses : List Response

abbrev pub Outcome : Type 0
Outcome = Board × QuestionResult (Unit {0})

abbrev pub is_live : String → Question → Bool
is_live room q = str_eq q.room room && q.is_open

abbrev pub close : Question → Question
close q = record q { is_open = false }

unfoldable pub close_all : String → List Question → List Question
close_all room [] = []
close_all room (q ∷ qs) = (if is_live room q then close q else q) ∷ close_all room qs

abbrev pub bad_question : Text → Text → Bool
bad_question fen prompt = text_eq fen [] || ltb 140 (length prompt)

abbrev pub ask_room : Bool → Question → Board → Outcome
ask_room lost q b =
    if lost
    then (b, denied (room_error RoomError.database))
    else (record b { questions = q ∷ close_all q.room b.questions }, granted tt)

-- `id` is the new uuid; `lost` says that the transaction fails and is rolled back.
unfoldable pub ask :
    Bool → String → String → String → Text → Text → Board → RoomResult Role → Outcome
ask lost room user id fen prompt b (failed e) = (b, denied (room_error e))
ask lost room user id fen prompt b (done student) = (b, denied (room_error RoomError.not_coach))
ask lost room user id fen prompt b (done coach) =
    if bad_question (trim_space fen) (trim_space prompt)
    then (b, denied bad_prompt)
    else ask_room lost
        (record {
          id = id;
          room = room;
          asked_by = user;
          fen = trim_space fen;
          prompt = trim_space prompt;
          is_open = true;
        })
        b

abbrev pub is_asked : String → String → Question → Bool
is_asked room id q = str_eq q.id id && is_live room q

unfoldable pub has_open : String → String → List Question → Bool
has_open room id [] = false
has_open room id (q ∷ qs) = is_asked room id q || has_open room id qs

abbrev pub is_response : String → String → Response → Bool
is_response question user r = str_eq r.question question && str_eq r.user user

-- INSERT ... ON CONFLICT (question_id, user_id) DO UPDATE
unfoldable pub upsert : Response → List Response → List Response
upsert new [] = new ∷ []
upsert new (r ∷ rs) =
    let rest = upsert new rs in if is_response new.question new.user r then new ∷ rs else r ∷ rest

unfoldable pub response_of : String → String → List Response → Option Response
response_of question user [] = none
response_of question user (r ∷ rs) =
    let rest = response_of question user rs in if is_response question user r then some r else rest

unfoldable pub answer : Bool → String → Response → Board → RoomResult Role → Outcome
answer lost room new b (failed e) = (b, denied (room_error e))
answer lost room new b (done role) =
    if lost
    then (b, denied (room_error RoomError.database))
    else if has_open room new.question b.questions
    then (record b { responses = upsert new b.responses }, granted tt)
    else (b, denied question_closed)

unfoldable pub close_one : String → String → List Question → List Question
close_one room id [] = []
close_one room id (q ∷ qs) = (if is_asked room id q then close q else q) ∷ close_one room id qs

unfoldable pub close_question : Bool → String → String → Board → RoomResult Role → Outcome
close_question lost room id b (failed e) = (b, denied (room_error e))
close_question lost room id b (done student) = (b, denied (room_error RoomError.not_coach))
close_question lost room id b (done coach) =
    if lost
    then (b, denied (room_error RoomError.database))
    else if has_open room id b.questions
    then (record b { questions = close_one room id b.questions }, granted tt)
    else (b, denied no_question)

-- Any call, with the role that it read at some time before.
pub data Call : Type 0 where
  asks : Bool → String → String → String → Text → Text → RoomResult Role → Call
  answers : Bool → String → Response → RoomResult Role → Call
  closes : Bool → String → String → RoomResult Role → Call

unfoldable pub serve : Call → Board → Outcome
serve (asks lost room user id fen prompt read) b = ask lost room user id fen prompt b read
serve (answers lost room new read) b = answer lost room new b read
serve (closes lost room id read) b = close_question lost room id b read

unfoldable pub serve_all : List Call → Board → Board
serve_all [] b = b
serve_all (c ∷ cs) b = serve_all cs (serve c b).0
