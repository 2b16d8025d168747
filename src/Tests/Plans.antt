-- ===== src/Tests/Plans.antt =====
-- A plan of two courses: one names a teacher, and the other is a course of the school.
use api_dashboard.Prelude.{
  ℕ, ◌-◌, String, ◌≡◌, refl, not, none, some, List, [], ◌∷◌, All, leb, ltb, ◌&&◌, ◌==◌, nat_eq,
  string_eq, if◌then◌else◌,
}
use api_dashboard.Session.{Session}
use api_dashboard.Scope.{Scope, for_branch}
use api_dashboard.Schedule.{DateTime, ParsedLesson, ParsedCourse, PlannedCourse}
use api_dashboard.Schedule.Names.{Similarity}
use api_dashboard.Schedule.Resolve.{resolve_entities, new_plan}
use api_dashboard.Schedule.Scoped.{InScope, resolve_entities-InScope}
use api_dashboard.Create.{Call, Answer, Clock}
use api_dashboard.Create.Calls.{CallsBy}
use api_dashboard.Create.Plan.{Forms, Form, create_execute}
use api_dashboard.Create.Teachers.{OfBranch, teacher-create_execute, manager-create_execute}
use api_dashboard.Tests.{school}

-- Percents for floats; no two different names are alike.
abbrev pub percents : Similarity ℕ
percents = record {
  unspaced = λ t. t;
  lower = λ t. t;
  strip = λ t. t;
  str = λ n. "8";
  ratio = λ a b. 0;
  decimal =
      λ n k. if (n == 1) && (k == 0) then 100 else if k == 2 then n else if n == 9 then 90 else 0;
  minus = λ m n. m - n;
  gt = λ m n. ltb n m;
  ge = λ m n. leb n m;
  nonzero = λ n. not (n == 0);
}

abbrev at_hour : ℕ → DateTime
at_hour day = record { day = day; minute = 1140; zone = "+09:00" }

abbrev lesson : ParsedLesson
lesson = record {
  title = "1회차";
  start_at = at_hour 739741;
  end_at = at_hour 739741;
  homework = none;
}

abbrev pub parsed : List ParsedCourse
parsed =
    record { course_name = "영어"; teacher_name = some "8"; lessons = lesson ∷ [] }
    ∷ record { course_name = "수학"; teacher_name = none; lessons = lesson ∷ [] }
    ∷ []

abbrev pub branch_two : Scope
branch_two = for_branch (some 2)

abbrev english : PlannedCourse
english = record {
  course_name = "영어";
  teacher_name = some "8";
  lessons = lesson ∷ [];
  teacher_uid = some 8;
  existing_course_id = none;
  teacher_candidates = [];
  blocked_reason = none;
}

abbrev clock : Clock
clock = record {
  timestamp = λ at. at.minute;
  day_text = λ d. "day";
  instant_text = λ at. "instant";
  str = λ n. "n";
  md5_32 = λ t. t;
}

abbrev forms : Forms
forms = record { strip = λ t. t; isdigit = λ t. t == "8"; int = λ t. some 8; str = λ n. "0" }

-- The form picks teacher 8 for every course.
abbrev form : Form
form field = some "8"

abbrev session : String → Session
session role = record {
  sid = "1";
  secret = "s";
  role = role;
  user_id = some 3;
  username = "kim";
  branch_id = some 2;
  teacher_uid = some 8;
  branch_filter = none;
  created_at = 0;
}

abbrev api : List Call → Call → Answer
api calls c = Answer.id 30

teacher-create_execute_example :
    CallsBy
      (λ u. some 8 ≡ some u)
      (create_execute clock api "t0" forms form
        (some (session "teacher"))
        (some (english ∷ []))
        school).0
teacher-create_execute_example =
    teacher-create_execute clock api "t0" forms form (session "teacher") school (english ∷ []) refl

manager-create_execute_example :
    CallsBy
      (OfBranch (session "manager") school)
      (create_execute clock api "t0" forms form
        (some (session "manager"))
        (some (english ∷ []))
        school).0
manager-create_execute_example =
    manager-create_execute clock api "t0" forms form (session "manager") school (english ∷ []) refl

resolve_entities-InScope_example :
    All
      (InScope school branch_two percents)
      (resolve_entities percents (new_plan parsed [] "csv") (some school) branch_two).courses
resolve_entities-InScope_example =
    resolve_entities-InScope school branch_two percents parsed [] "csv"
