-- ===== src/Create.antt =====
-- web/routes_create.py: a plan is executed by calls of ClassIn's API, which is a parameter. What a
-- call answers may depend on the calls before it.
pub mod Courses
pub mod Calls
pub mod Plan
pub mod Teachers
pub mod Pages
pub use api_dashboard.Prelude.Flow.{Flow, go, crash, ◌>>=◌}
use Prim.Native.String.{◌++◌ as concat}
use api_dashboard.Prelude.{
  ℕ, String, Bool, true, false, Option, none, some, List, [], ◌∷◌, ◌++◌, truthy, nonempty, get_or,
  ◌==◌, nat_eq, string_eq, if◌then◌else◌,
}
use api_dashboard.Schedule.{DateTime, ParsedHomework, ParsedLesson, PlannedCourse}
use api_dashboard.Store.Rows.{Store, Lesson}
use api_dashboard.Store.Masters.{upsert_course, upsert_lesson}

-- The calls that create something, with what they are given.
pub data Call : Type 0 where
  add_course : (name : String) (teacher : ℕ) (identity : String) → Call
  create_unit : (course : ℕ) (name : String) → Call
  create_classroom :
      (course : ℕ) (name : String) (teacher start finish : ℕ) (unit : Option ℕ) → Call
  create_activity : (course unit : ℕ) (name : String) (teacher start : ℕ) (finish : Option ℕ) → Call

-- What becomes of a call: an id; for a classroom, no id; ClassInError with its message; or another
-- exception, that of a response without the field and of a failing connection.
pub data Answer : Type 0 where
  id : ℕ → Answer
  no_id raised : Answer
  refused : String → Answer

-- Of the standard library: the epoch seconds of an instant, the text of a day, of an instant and
-- of a number, and the first 32 digits of an MD5 digest.
pub record Clock : Type 0 where
  pub timestamp : DateTime → ℕ
  pub day_text : ℕ → String
  pub instant_text : DateTime → String
  pub str : ℕ → String
  pub md5_32 : String → String

-- The store, the calls so far, and the lists that the result page shows.
pub record Run (R : Type 0) : Type 0 where
  pub store : Store R
  pub calls : List Call
  pub created : List String
  pub errors : List String

module _ {R : Type 0} where
  abbrev pub made : Call → Run R → Run R
  made c r = record r { calls = r.calls ++ c ∷ [] }

  abbrev pub note_created : String → Run R → Run R
  note_created text r = record r { created = r.created ++ text ∷ [] }

  abbrev pub note_error : String → Run R → Run R
  note_error text r = record r { errors = r.errors ++ text ∷ [] }
