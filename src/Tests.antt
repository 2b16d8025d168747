-- ===== src/Tests.antt =====
-- Data for the tests: a school of two branches, a Python whose floats are natural numbers, and a
-- serializer that signs with a NUL.
pub mod Reads
pub mod Deliveries
pub mod Logins
pub mod Admins
pub mod Batches
pub mod Plans
pub mod Logons
pub mod Timetables
pub mod Reports
pub mod Syncs
pub mod Pages
pub mod Pasted
pub mod Previews
pub mod Requests
pub mod Lockouts
pub mod Homework
pub mod Databases
use Prim.Native.Char.{nul}
use Prim.Native.String.{[] as empty_text, ◌∷◌ as char, ◌++◌ as concat}
use api_dashboard.Prelude.{
  ℕ, ◌*◌, ◌/◌, String, ◌≡◌, refl, Bool, true, false, not, Option, none, some, List, [], ◌∷◌,
  nonempty, ◌==◌, ==_iff, nat_eq, string_eq, Bool-cases, inl, inr,
}
use api_dashboard.Json.{Json, Fields, int, real, pos, str, obj, field, end}
use api_dashboard.Python.{Python}
use api_dashboard.Store.Rows.{
  Store, LessonRecord, blank, Student, Course, Lesson, Teacher, Branch, User,
}
use api_dashboard.Store.Keys.Reach.{empty}
use api_dashboard.Classin.Schemas.{Base, Event, Kind, Model}
use api_dashboard.Classin.Signing.{Digest}
use api_dashboard.Auth.Sessions.{Serializer, Login}

abbrev pub py : Python ℕ
py = record {
  float = λ n. n;
  nonzero = λ n. not (n == 0);
  div = λ m n. m / n;
  mul = λ m n. m * n;
  round = λ n digits. n;
  to_float = λ v. elim v as (λ _. Option ℕ) [ int (pos n) ↦ some n | real n ↦ some n | _ ↦ none ];
  to_int = λ v. elim v as (λ _. Option ℕ) [ int (pos n) ↦ some n | _ ↦ none ];
  str = λ n. "n";
  str_of = λ v. elim v as (λ _. String) [ str t ↦ t | _ ↦ "v" ];
  iso = λ n. "2026-07-01T00:00:00+00:00";
}

abbrev pub digest : Digest
digest = record { md5 = λ t. concat "md5-" t; lower = λ t. t }

abbrev signed : String → Option String
signed empty_text = none
signed (char c t) = some t

pub signed-nonempty : (t : String) → nonempty (char nul t) ≡ true
signed-nonempty t = elim (Bool-cases (char nul t == "")) [
  | inl e ↦ let same = (==_iff (char nul t) "").0 e in cc
  | inr e ↦ rw e refl
]

abbrev pub serializer : Serializer
serializer = record {
  dumps = λ t. char nul t;
  loads = signed;
  dumps-nonempty = signed-nonempty;
  loads-dumps = λ t. refl;
}

abbrev pub record_of : String → ℕ → ℕ → ℕ → LessonRecord ℕ
record_of lesson_id uid course teacher = record (blank lesson_id uid) {
  course_id = some course;
  teacher_uid = some teacher;
}

abbrev pub course_of : ℕ → Option ℕ → Option ℕ → Course
course_of id teacher branch = record {
  course_id = id;
  name = some "수학";
  teacher_uid = teacher;
  teacher_name = none;
  created_via = some "webhook";
  created_at = none;
  branch_id = branch;
}

abbrev pub teacher_of : ℕ → Option ℕ → Teacher
teacher_of uid branch = record { uid = uid; name = none; branch_id = branch }

abbrev pub student_of : ℕ → Student
student_of uid = record { uid = uid; name = none; class_name = none; parent_phone = none }

abbrev pub lesson_of : String → ℕ → Lesson
lesson_of id course = record {
  lesson_id = id;
  course_id = some course;
  title = none;
  start_time = none;
  end_time = none;
  teacher_uid = none;
  homework_activity_id = none;
  created_via = none;
  created_at = none;
}

abbrev pub branch_of : ℕ → String → Branch
branch_of id name = record { id = id; name = name; sid = none; secret = none; created_at = none }

-- Course 10 belongs to branch 1; course 20 has no branch, and teacher 8 of branch 2.
abbrev pub school : Store ℕ
school = record empty {
  lesson_records = record_of "10_1" 5 10 7 ∷ record_of "20_1" 6 20 8 ∷ [];
  students = student_of 5 ∷ student_of 6 ∷ [];
  courses = course_of 10 none (some 1) ∷ course_of 20 (some 8) none ∷ [];
  lessons = lesson_of "10_1" 10 ∷ lesson_of "20_1" 20 ∷ [];
  teachers = teacher_of 7 none ∷ teacher_of 8 (some 2) ∷ [];
  branches = branch_of 1 "본관" ∷ branch_of 2 "별관" ∷ [];
}

-- A push that the program keeps and does not apply.
abbrev pub push_fields : Fields ℕ
push_fields =
    field "_id" (str "m1")
      (field "Cmd" (str "Rating") (field "SafeKey" (str "bad") (field "TimeStamp" (str "1") end)))

abbrev pub push : Json ℕ
push = obj push_fields

abbrev pub rating : Event ℕ
rating = record {
  base = record {
    cmd = "Rating";
    class_id = some 1;
    course_id = some 10;
    course_name = none;
    action_time = none;
  };
  kind = Kind.rating (some 7);
}

abbrev pub validate : Model → Json ℕ → Option (Event ℕ)
validate model raw = some rating

abbrev pub login : Login
login = record {
  sid = "1";
  secret = "s";
  role = "manager";
  user_id = some 3;
  username = "kim";
  branch_id = some 1;
  teacher_uid = none;
}
