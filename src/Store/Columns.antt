-- ===== src/Store/Columns.antt =====
-- The columns of `lesson_records` that the keyword arguments of `upsert_lesson_record` name.
use api_dashboard.Prelude.{ℕ, String, Option, List, [], ◌∷◌, nat_eq, string_eq, option_eq}
use api_dashboard.Store.Rows.{LessonRecord}

-- A column of `lesson_records` and the value that a call gives for it.
pub data Column (R : Type 0) : Type 0 where
  course_id : Option ℕ → Column R
  course_name : Option String → Column R
  class_name : Option String → Column R
  lesson_date : Option String → Column R
  class_start : Option ℕ → Column R
  class_end : Option ℕ → Column R
  attendance : Option String → Column R
  attendance_seconds : Option ℕ → Column R
  camera_minutes : Option R → Column R
  hand_raise : Option R → Column R
  trophy : Option R → Column R
  poll : Option R → Column R
  homework_submitted : Option ℕ → Column R
  homework_late : Option ℕ → Column R
  homework_score : Option R → Column R
  homework_activity_id : Option ℕ → Column R
  teacher_uid : Option ℕ → Column R
  teacher_name : Option String → Column R

-- SET column = value
unfoldable pub assign : {R : Type 0} → Column R → LessonRecord R → LessonRecord R
assign (course_id v) r = record r { course_id = v }
assign (course_name v) r = record r { course_name = v }
assign (class_name v) r = record r { class_name = v }
assign (lesson_date v) r = record r { lesson_date = v }
assign (class_start v) r = record r { class_start = v }
assign (class_end v) r = record r { class_end = v }
assign (attendance v) r = record r { attendance = v }
assign (attendance_seconds v) r = record r { attendance_seconds = v }
assign (camera_minutes v) r = record r { camera_minutes = v }
assign (hand_raise v) r = record r { hand_raise = v }
assign (trophy v) r = record r { trophy = v }
assign (poll v) r = record r { poll = v }
assign (homework_submitted v) r = record r { homework_submitted = v }
assign (homework_late v) r = record r { homework_late = v }
assign (homework_score v) r = record r { homework_score = v }
assign (homework_activity_id v) r = record r { homework_activity_id = v }
assign (teacher_uid v) r = record r { teacher_uid = v }
assign (teacher_name v) r = record r { teacher_name = v }

unfoldable pub assign_all : {R : Type 0} → List (Column R) → LessonRecord R → LessonRecord R
unfolding assign
assign_all [] r = r
assign_all (c ∷ cs) r = assign_all cs (assign c r)
