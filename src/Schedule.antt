-- ===== src/Schedule.antt =====
-- intelligence/schedule_parser.py: the models of a schedule. A confidence is never read by the
-- program, and is left out; an instant is a day and a time of that day in a zone.
pub mod Names
pub mod Resolve
pub mod Resolved
pub mod Pointed
pub mod Scoped
pub mod Dates
pub mod Lessons
pub mod Ascending
pub mod Timetable
pub mod Mondays
pub mod Sundays
pub mod Times
pub mod Tables
pub mod Heuristic
pub mod Smart
pub mod Sourced
pub mod Taught
pub mod Whole
use api_dashboard.Prelude.{ℕ, String, Option, none, List, []}

-- A `datetime`: the ordinal of its day, the minute of that day, and the text of its offset.
pub record DateTime : Type 0 where
  pub day : ℕ
  pub minute : ℕ
  pub zone : String

pub record ParsedHomework : Type 0 where
  pub title : String
  pub due_at : Option DateTime

pub record ParsedLesson : Type 0 where
  pub title : String
  pub start_at : DateTime
  pub end_at : DateTime
  pub homework : Option ParsedHomework

pub record ParsedCourse : Type 0 where
  pub course_name : String
  pub teacher_name : Option String
  pub lessons : List ParsedLesson

-- An item of `_store_teachers`.
pub record Candidate : Type 0 where
  pub uid : ℕ
  pub name : String

pub record PlannedCourse : Type 0 where
  pub course_name : String
  pub teacher_name : Option String
  pub lessons : List ParsedLesson
  pub teacher_uid : Option ℕ
  pub existing_course_id : Option ℕ
  pub teacher_candidates : List Candidate
  pub blocked_reason : Option String

-- The kinds of a question; the program asks only for teachers.
pub record Question : Type 0 where
  pub kind : String
  pub subject : String
  pub candidates : List Candidate
  pub message : String

pub record ParsePlan : Type 0 where
  pub courses : List PlannedCourse
  pub assumptions : List String
  pub needs_confirm : List Question
  pub source_format : String

-- PlannedCourse.model_validate(c.model_dump())
unfoldable pub planned : ParsedCourse → PlannedCourse
planned c = record {
  course_name = c.course_name;
  teacher_name = c.teacher_name;
  lessons = c.lessons;
  teacher_uid = none;
  existing_course_id = none;
  teacher_candidates = [];
  blocked_reason = none;
}
