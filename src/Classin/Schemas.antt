-- ===== src/Classin/Schemas.antt =====
-- classin/webhook_schemas.py: the events that pydantic validates a payload into, and what is read
-- out of them. Fields that the program never reads are left out.
use api_dashboard.Prelude.{
  ℕ, String, Bool, true, false, ◌||◌, not, Option, none, some, List, nonempty, ◌==◌, nat_eq,
  string_eq, option_eq, if◌then◌else◌,
}
use api_dashboard.Json
use api_dashboard.Json.{
  Json, ℤ, null, bool, int, real, str, arr, obj, Items, nil, cons, Fields, end, field, pos, negsuc,
}
use api_dashboard.Python.{Python}

-- _BaseEvent
pub record Base : Type 0 where
  pub cmd : String
  pub class_id : Option ℕ
  pub course_id : Option ℕ
  pub course_name : Option String
  pub action_time : Option ℕ

-- AttendanceMember
pub record Member : Type 0 where
  pub uid : ℕ
  pub name : Option String
  pub identity : Option ℕ
  pub attendance_time : ℕ
  pub first_in_time : Option ℕ

unfoldable pub is_student : Member → Bool
is_student m = m.identity == none || m.identity == some 0 || m.identity == some 1

unfoldable pub is_teacher : Member → Bool
is_teacher m = m.identity == some 3 || m.identity == some 4

-- HomeworkParty
pub record Party : Type 0 where
  pub uid : Option ℕ
  pub name : Option String

-- The `Data` of the three homework and answer-sheet events. `is_submit_late` counts True as 1.
pub record Work (R : Type 0) : Type 0 where
  pub activity_id : ℕ
  pub student_info : Option Party
  pub teacher_info : Option Party
  pub is_submit_late : Option ℕ
  pub score : Option R
  pub student_scoring_rate : Option R

pub record Attendance : Type 0 where
  pub class_name : Option String
  pub class_start_time : Option ℕ
  pub class_end_time : Option ℕ
  pub members : List Member

-- The subclasses of _BaseEvent.
pub data Kind (R : Type 0) : Type 0 where
  attendance : Attendance → Kind R
  close : Fields R → Kind R
  homework_submit : Work R → Kind R
  homework_score : Work R → Kind R
  answer_sheet_score : Work R → Kind R
  rating : Option ℕ → Kind R
  generic : Kind R

pub record Event (R : Type 0) : Type 0 where
  pub base : Base
  pub kind : Kind R

-- The model classes that _KNOWN names, and GenericEvent.
pub data Model : Type 0 where
  attendance close homework_submit homework_score answer_sheet_score rating generic : Model

-- _KNOWN.get(cmd, GenericEvent)
unfoldable pub known : String → Model
known cmd =
    if cmd == "Attendance"
    then Model.attendance
    else if cmd == "End"
    then Model.close
    else if cmd == "HomeworkSubmit"
    then Model.homework_submit
    else if cmd == "HomeworkScore"
    then Model.homework_score
    else if cmd == "AnswerSheetScore"
    then Model.answer_sheet_score
    else if cmd == "Rating"
    then Model.rating
    else Model.generic

module _ {R : Type 0} (py : Python R) where
  -- bool(v)
  unfoldable pub truth : Json R → Bool
  truth null = false
  truth (bool b) = b
  truth (int (pos n)) = not (n == 0)
  truth (int (negsuc n)) = true
  truth (real x) = py.nonzero x
  truth (str s) = nonempty s
  truth (arr nil) = false
  truth (arr (cons v vs)) = true
  truth (obj end) = false
  truth (obj (field k v fs)) = true

  -- d.get(a) or d.get(b) or default
  unfoldable pub first_true : Option (Json R) → Option (Json R) → Json R → Json R
  unfolding truth
  first_true none none d = d
  first_true none (some w) d = if truth w then w else d
  first_true (some v) none d = if truth v then v else d
  first_true (some v) (some w) d = if truth v then v else if truth w then w else d

  -- A list or a dict is no key of a dict: TypeError.
  unfoldable pub model_of : Json R → Option Model
  unfolding known
  model_of (str cmd) = some (known cmd)
  model_of (arr vs) = none
  model_of (obj fs) = none
  model_of v = some Model.generic

  -- parse_event; none where it raises. `validate` is pydantic's model_validate.
  unfoldable pub parse_event : (Model → Json R → Option (Event R)) → Json R → Option (Event R)
  unfolding first_true model_of
  parse_event validate (obj fs) =
      elim (model_of (first_true (Json.lookup "Cmd" fs) (Json.lookup "cmd" fs) (str ""))) [
        | none ↦ none
        | some m ↦ validate m (obj fs)
      ]
  parse_event validate v = none

  -- score_percent
  unfoldable pub score_percent : Work R → Option R
  score_percent w = elim w.student_scoring_rate [
    | some rate ↦ some (py.round (py.mul rate (py.float 100)) 1)
    | none ↦ w.score
  ]
