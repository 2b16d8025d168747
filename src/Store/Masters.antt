-- ===== src/Store/Masters.antt =====
-- store.py: the master tables of students, courses, lessons and teachers. `now` is the instant
-- that `_now()` returned.
use api_dashboard.Prelude.{
  ℕ, String, Bool, true, ◌&&◌, Option, none, some, List, update, upsert, coalesce, nonempty, ◌==◌,
  nat_eq, string_eq, option_eq, if◌then◌else◌,
}
use api_dashboard.Store.Rows.{Store, Student, Course, Lesson, Teacher}

-- name IS NULL OR name = ''
abbrev pub nameless : Option String → Bool
nameless none = true
nameless (some n) = n == ""

abbrev pub backfill : ℕ → Option String → List Student → List Student
backfill uid none students = students
backfill uid (some name) students =
    if nonempty name
    then update (λ (x : Student). (x.uid == uid) && nameless x.name)
        (λ (x : Student). record x { name = some name }) students
    else students

module _ {R : Type 0} where
  unfoldable pub ensure_student : ℕ → Option String → Store R → Store R
  ensure_student uid name s =
      let new : Student = record {
        uid = uid;
        name = name;
        class_name = none;
        parent_phone = none;
      } in
      record s {
        students =
            backfill uid name
              (upsert (λ (x : Student). x.uid == uid) (λ (x : Student). x) new s.students);
      }

  unfoldable pub upsert_course :
      String → ℕ → Option String → Option ℕ → Option String → String → Store R → Store R
  upsert_course now course_id name teacher_uid teacher_name created_via s = record s {
    courses =
        upsert (λ (c : Course). c.course_id == course_id)
          (λ (c : Course). record c {
            name = coalesce name c.name;
            teacher_uid = coalesce teacher_uid c.teacher_uid;
            teacher_name = coalesce teacher_name c.teacher_name;
          })
          (record {
            course_id = course_id;
            name = name;
            teacher_uid = teacher_uid;
            teacher_name = teacher_name;
            created_via = some created_via;
            created_at = some now;
            branch_id = none;
          })
          s.courses;
  }

  -- The row that a call of `upsert_lesson` would insert.
  unfoldable pub upsert_lesson : Lesson → Store R → Store R
  upsert_lesson new s = record s {
    lessons =
        upsert (λ (l : Lesson). l.lesson_id == new.lesson_id)
          (λ (l : Lesson). record l {
            course_id = coalesce new.course_id l.course_id;
            title = coalesce new.title l.title;
            start_time = coalesce new.start_time l.start_time;
            end_time = coalesce new.end_time l.end_time;
            teacher_uid = coalesce new.teacher_uid l.teacher_uid;
            homework_activity_id = coalesce new.homework_activity_id l.homework_activity_id;
          })
          new s.lessons;
  }

  unfoldable pub upsert_teacher : ℕ → Option String → Store R → Store R
  upsert_teacher uid name s = record s {
    teachers =
        upsert (λ (t : Teacher). t.uid == uid)
          (λ (t : Teacher). record t { name = coalesce name t.name })
          (record { uid = uid; name = name; branch_id = none }) s.teachers;
  }

  unfoldable pub set_course_branch : ℕ → Option ℕ → Store R → Store R
  set_course_branch course_id branch_id s = record s {
    courses =
        update (λ (c : Course). c.course_id == course_id)
          (λ (c : Course). record c { branch_id = branch_id }) s.courses;
  }

  unfoldable pub set_teacher_branch : ℕ → Option ℕ → Store R → Store R
  set_teacher_branch uid branch_id s = record s {
    teachers =
        update (λ (t : Teacher). t.uid == uid) (λ (t : Teacher). record t { branch_id = branch_id })
          s.teachers;
  }
