-- ===== src/Tests/Reports.antt =====
-- The reports on the school, where floats are natural numbers.
use api_dashboard.Prelude.{
  ℕ, ◌+◌, ◌-◌, ◌/◌, ◌≡◌, ◌≢◌, ◌↔◌, refl, true, some, [], ◌∷◌, map, In, sort, text_leb, nullable_leb,
  ltb, nat_eq,
}
use api_dashboard.Scope.{unrestricted, all, for_branch}
use api_dashboard.Store.Rows.{Store, LessonRecord}
use api_dashboard.Store.Queries.{courses, lessons, counts_by_cmd}
use api_dashboard.Store.Access.{
  lesson_records, row_in_scope, scope_keys, course_ids_in_scope, all_courses, selected,
}
use api_dashboard.Store.Isolation.{RowVisible}
use api_dashboard.Metrics.{Numbers}
use api_dashboard.Metrics.Missing.{MissingRow, missing_homework_rows}
use api_dashboard.Metrics.Summary.{Overview, overview, since_filter}
use api_dashboard.Metrics.Homework.{HasHomework, missing_homework_rows_iff}
use api_dashboard.Tests.{py, school, record_of}

abbrev pub num : Numbers ℕ
num = record {
  python = py;
  add = λ m n. m + n;
  lt = λ m n. ltb m n;
  decimal = λ n k. n;
  minutes = λ a b. (b - a) / 60;
  fromisoformat = λ t. some 739741;
  isoformat = λ d. "2026-05-04";
}

abbrev absence : LessonRecord ℕ
absence = record (record_of "10_1" 5 10 7) {
  lesson_date = some "2026-05-05T10:00:00";
  attendance = some "결석";
  homework_activity_id = some 4;
}

abbrev attended : LessonRecord ℕ
attended = record (record_of "20_1" 6 20 8) {
  lesson_date = some "2026-05-05T11:00:00";
  attendance = some "출석";
}

abbrev pub term : Store ℕ
term = record school { lesson_records = absence ∷ attended ∷ [] }

missing_homework_rows_iff_example :
    In absence (
      map
        (λ (m : MissingRow ℕ). m.row)
        (missing_homework_rows num term (for_branch (some 1)) "2026-05-01"))
    ↔ (In absence term.lesson_records
        × (selected (since_filter "2026-05-01") absence ≡ true)
        × RowVisible term (for_branch (some 1)) (some 10) (some 7)
        × HasHomework term (for_branch (some 1)) "10_1"
        × (absence.homework_submitted ≢ some 1))
missing_homework_rows_iff_example =
    missing_homework_rows_iff term (for_branch (some 1)) num "2026-05-01" absence

abbrev report : Overview ℕ
report = record {
  course_count = 2;
  lesson_count = 2;
  student_count = 2;
  attendance_rate = some 0;
  homework_missing = 0;
  risk_counts = ("high", 2) ∷ ("medium", 0) ∷ ("good", 0) ∷ [];
  event_counts = [];
  attendance_trend =
      record {
        week = "2026-05-04";
        attendance_rate = some 0;
        present = 1;
        late = 0;
        absent = 1;
        total = 2;
      }
      ∷ [];
  score_trend = [];
}

reported : overview num term all "2026-05-01" ≡ some report
unfolding overview lesson_records sort selected text_leb nullable_leb row_in_scope scope_keys
    unrestricted courses lessons counts_by_cmd course_ids_in_scope all_courses
reported = refl
