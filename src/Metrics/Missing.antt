-- ===== src/Metrics/Missing.antt =====
-- metrics.py: missing_homework_rows.
use Prim.Native.String.{◌++◌ as concat}
use api_dashboard.Prelude.{
  ℕ, String, Bool, ◌&&◌, not, Option, none, some, is_some, List, [], ◌∷◌, ◌++◌, map, keep, lookup,
  put, elem, get_or, nonempty, ◌==◌, nat_eq, string_eq, option_eq, if◌then◌else◌,
}
use api_dashboard.Scope.{Scope}
use api_dashboard.Store.Rows.{Store, LessonRecord, Student, Lesson}
use api_dashboard.Store.Access.{no_filter, lesson_records}
use api_dashboard.Store.Queries.{students, lessons}
use api_dashboard.Metrics.{Numbers}
use api_dashboard.Metrics.Summary.{since_filter}

-- A row of missing_homework_rows: the record, with what is known of the student.
pub record MissingRow (R : Type 0) : Type 0 where
  pub row : LessonRecord R
  pub student_name : String
  pub parent_phone : Option String

-- {s["uid"]: s for s in students}
abbrev pub by_uid : List Student → List (ℕ × Student) → List (ℕ × Student)
by_uid [] d = d
by_uid (x ∷ xs) d = by_uid xs (put x.uid x d)

module _ {R : Type 0} (num : Numbers R) where
  abbrev pub name_or_uid : ℕ → Option Student → String
  name_or_uid uid none = concat "UID " (num.python.str uid)
  name_or_uid uid (some x) =
      let name = get_or x.name "" in
      if nonempty name then name else concat "UID " (num.python.str uid)

  abbrev pub phone : Option Student → Option String
  phone none = none
  phone (some x) = x.parent_phone

  abbrev pub missing_row : List (ℕ × Student) → LessonRecord R → MissingRow R
  missing_row names r =
      let student = lookup r.student_uid names in
      record {
        row = r;
        student_name = name_or_uid r.student_uid student;
        parent_phone = phone student;
      }

-- The lessons of which a record, or the row of the lesson itself, has a homework activity.
unfoldable pub lessons_with_hw : {R : Type 0} → Store R → Scope → List String
lessons_with_hw {R} s scope =
    map (λ (r : LessonRecord R). r.lesson_id)
      (keep (λ (r : LessonRecord R). is_some r.homework_activity_id)
        (lesson_records s scope no_filter))
    ++ map (λ (l : Lesson). l.lesson_id)
        (keep (λ (l : Lesson). is_some l.homework_activity_id) (lessons s scope none))

-- The two guards of the loop.
abbrev pub is_missing : {R : Type 0} → List String → LessonRecord R → Bool
is_missing with_hw r = elem r.lesson_id with_hw && not (r.homework_submitted == some 1)

-- `since` is the instant that the window begins at.
unfoldable pub missing_homework_rows :
    {R : Type 0} → Numbers R → Store R → Scope → String → List (MissingRow R)
unfolding lessons_with_hw
missing_homework_rows num s scope since =
    map (missing_row num (by_uid (students s scope) []))
      (keep (is_missing (lessons_with_hw s scope)) (lesson_records s scope (since_filter since)))
