-- ===== src/Store/Keys.antt =====
-- store.py: the keys that the schema declares (PRIMARY KEY, UNIQUE), as a property of the tables.
pub mod Records
pub mod Accounts
pub mod Reach
use api_dashboard.Prelude.{
  ℕ, String, ◌≡◌, ◌≢◌, refl, Bool, true, false, not, ◌&&◌, Option, none, some, List, [], ◌∷◌, ◌++◌,
  inl, inr, ◌∙◌, nonempty, any, any-append, Distinct, upsert-Distinct, update-Distinct,
  append-Distinct, upsert_other-Distinct, subst, keep-Distinct, any-upsert_key, any-update_key,
  upsert, update, arith, ◌==◌, ==_iff, ==_comm, Bool-cases, nat_eq, string_eq, option_eq, pair_eq,
  if◌then◌else◌,
}
use api_dashboard.Json.{Json}
use api_dashboard.Store.Rows.{
  Store, Event, LessonRecord, blank, Student, Course, Lesson, Teacher, Notification, Branch, User,
}
use api_dashboard.Store.Columns.{Column, assign, assign_all}
use api_dashboard.Store.Records.{
  append_raw, insert_event, same_message, set_columns, upsert_lesson_record, append_notification,
}
use api_dashboard.Store.Masters.{
  ensure_student, backfill, upsert_course, upsert_lesson, upsert_teacher, set_course_branch,
  set_teacher_branch,
}
use api_dashboard.Store.Accounts.{
  Result, ok, integrity_error, put_branch, rename_branch, renamed, branch_in_use, upsert_branch,
  delete_branch, create_user, add_user, set_user_active, set_user_password,
}

module _ {R : Type 0} where
  -- No two events carry the same message id.
  abbrev pub DistinctMessages : List (Event R) → Type 0
  DistinctMessages [] = Unit
  DistinctMessages (e ∷ es) = (any (same_message e.msg_id) es ≡ false) × DistinctMessages es

  abbrev pub record_key : LessonRecord R → String × ℕ
  record_key r = (r.lesson_id, r.student_uid)

  pub record HasKeys (s : Store R) : Type 0 where
    pub events : DistinctMessages s.events
    pub lesson_records : Distinct record_key s.lesson_records
    pub students : Distinct (λ (x : Student). x.uid) s.students
    pub courses : Distinct (λ (c : Course). c.course_id) s.courses
    pub lessons : Distinct (λ (l : Lesson). l.lesson_id) s.lessons
    pub teachers : Distinct (λ (t : Teacher). t.uid) s.teachers
    pub branches : Distinct (λ (b : Branch). b.id) s.branches
    pub branch_names : Distinct (λ (b : Branch). b.name) s.branches
    pub users : Distinct (λ (u : User). u.id) s.users
    pub usernames : Distinct (λ (u : User). u.username) s.users

  -- The keys stay distinct when one table is replaced by one with distinct keys.
  pub lesson_records-HasKeys :
      (s : Store R) (rows : List (LessonRecord R))
      → Distinct record_key rows
      → HasKeys s
      → HasKeys (record s { lesson_records = rows })
  lesson_records-HasKeys s rows d h = assumption

  pub students-HasKeys :
      (s : Store R) (rows : List Student)
      → Distinct (λ (x : Student). x.uid) rows
      → HasKeys s
      → HasKeys (record s { students = rows })
  students-HasKeys s rows d h = assumption

  pub courses-HasKeys :
      (s : Store R) (rows : List Course)
      → Distinct (λ (c : Course). c.course_id) rows
      → HasKeys s
      → HasKeys (record s { courses = rows })
  courses-HasKeys s rows d h = assumption

  pub lessons-HasKeys :
      (s : Store R) (rows : List Lesson)
      → Distinct (λ (l : Lesson). l.lesson_id) rows
      → HasKeys s
      → HasKeys (record s { lessons = rows })
  lessons-HasKeys s rows d h = assumption

  pub teachers-HasKeys :
      (s : Store R) (rows : List Teacher)
      → Distinct (λ (t : Teacher). t.uid) rows
      → HasKeys s
      → HasKeys (record s { teachers = rows })
  teachers-HasKeys s rows d h = assumption

  pub branches-HasKeys :
      (s : Store R) (rows : List Branch)
      → Distinct (λ (b : Branch). b.id) rows
      → Distinct (λ (b : Branch). b.name) rows
      → HasKeys s
      → HasKeys (record s { branches = rows })
  branches-HasKeys s rows d e h = assumption

  pub users-HasKeys :
      (s : Store R) (rows : List User)
      → Distinct (λ (u : User). u.id) rows
      → Distinct (λ (u : User). u.username) rows
      → HasKeys s
      → HasKeys (record s { users = rows })
  users-HasKeys s rows d e h = assumption
