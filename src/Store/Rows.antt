-- ===== src/Store/Rows.antt =====
-- The tables of store.py, with a record for a row of each. NULL is `none`; a table is the list of
-- its rows in the order of insertion. `R` is the type of REAL columns. The ids of SQLite and of
-- ClassIn are only compared, and tested for zero, so they are natural numbers; the instants
-- `_now()` are texts, and the clock readings of a lesson are epoch seconds.
use api_dashboard.Prelude.{ℕ, String, Option, none, List, Bool}
use api_dashboard.Json.{Json}

-- The id column of `events` serves as the order of insertion only, and is the place in the list.
pub record Event (R : Type 0) : Type 0 where
  pub received_at : String
  pub cmd : String
  pub msg_id : Option String
  pub course_id : Option ℕ
  pub class_id : Option ℕ
  pub student_uid : Option ℕ
  pub teacher_uid : Option ℕ
  pub payload : Json R

pub record LessonRecord (R : Type 0) : Type 0 where
  pub lesson_id : String
  pub student_uid : ℕ
  pub course_id : Option ℕ
  pub course_name : Option String
  pub class_name : Option String
  pub lesson_date : Option String
  pub class_start : Option ℕ
  pub class_end : Option ℕ
  pub attendance : Option String
  pub attendance_seconds : Option ℕ
  pub camera_minutes : Option R
  pub hand_raise : Option R
  pub trophy : Option R
  pub poll : Option R
  pub homework_submitted : Option ℕ
  pub homework_late : Option ℕ
  pub homework_score : Option R
  pub homework_activity_id : Option ℕ
  pub teacher_uid : Option ℕ
  pub teacher_name : Option String
  pub updated_at : Option String

-- A lesson record of which only the key is known.
abbrev pub blank : {R : Type 0} → String → ℕ → LessonRecord R
blank lesson_id student_uid = record {
  lesson_id = lesson_id;
  student_uid = student_uid;
  course_id = none;
  course_name = none;
  class_name = none;
  lesson_date = none;
  class_start = none;
  class_end = none;
  attendance = none;
  attendance_seconds = none;
  camera_minutes = none;
  hand_raise = none;
  trophy = none;
  poll = none;
  homework_submitted = none;
  homework_late = none;
  homework_score = none;
  homework_activity_id = none;
  teacher_uid = none;
  teacher_name = none;
  updated_at = none;
}

pub record Student : Type 0 where
  pub uid : ℕ
  pub name : Option String
  pub class_name : Option String
  pub parent_phone : Option String

pub record Course : Type 0 where
  pub course_id : ℕ
  pub name : Option String
  pub teacher_uid : Option ℕ
  pub teacher_name : Option String
  pub created_via : Option String
  pub created_at : Option String
  pub branch_id : Option ℕ

pub record Lesson : Type 0 where
  pub lesson_id : String
  pub course_id : Option ℕ
  pub title : Option String
  pub start_time : Option ℕ
  pub end_time : Option ℕ
  pub teacher_uid : Option ℕ
  pub homework_activity_id : Option ℕ
  pub created_via : Option String
  pub created_at : Option String

pub record Teacher : Type 0 where
  pub uid : ℕ
  pub name : Option String
  pub branch_id : Option ℕ

pub record Notification : Type 0 where
  pub created_at : String
  pub event_type : String
  pub provider : String
  pub status : String
  pub student_uid : Option ℕ
  pub student_name : Option String
  pub message : Option String
  pub error : Option String

pub record Branch : Type 0 where
  pub id : ℕ
  pub name : String
  pub sid : Option String
  pub secret : Option String
  pub created_at : Option String

pub record User : Type 0 where
  pub id : ℕ
  pub username : String
  pub password_hash : String
  pub role : String
  pub branch_id : Option ℕ
  pub teacher_uid : Option ℕ
  pub active : Bool
  pub created_at : Option String

-- The database, and the raw JSONL log with the instant of each line.
pub record Store (R : Type 0) : Type 0 where
  pub raw_log : List (String × Json R)
  pub events : List (Event R)
  pub lesson_records : List (LessonRecord R)
  pub students : List Student
  pub courses : List Course
  pub lessons : List Lesson
  pub teachers : List Teacher
  pub notify_history : List Notification
  pub branches : List Branch
  pub users : List User
