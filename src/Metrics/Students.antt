-- ===== src/Metrics/Students.antt =====
-- metrics.py: students_summary and student_detail.
use Prim.Native.String.{◌++◌ as concat}
use api_dashboard.Prelude.{
  distinct, ℕ, String, Bool, true, false, Option, none, some, List, [], ◌∷◌, map, collect, lookup,
  get_or, ltb, sort, text_leb, ◌==◌, nat_eq, string_eq, option_eq, if◌then◌else◌,
}
use api_dashboard.Json
use api_dashboard.Json.{Json, null, bool, int, real, str, arr, obj, Fields, end}
use api_dashboard.Scope.{Scope}
use api_dashboard.Store.Rows.{Store, Event, LessonRecord, Student}
use api_dashboard.Store.Access.{Filter, no_filter, lesson_records}
use api_dashboard.Store.Queries.{EventFilter, events, students}
use api_dashboard.Classin.Schemas.{truth, first_true}
use api_dashboard.Metrics.{Numbers, Metrics, student_metrics}
use api_dashboard.Metrics.Trends.{
  per_student, Week, WeekScore, dated, weekly_attendance_trend, weekly_score_trend,
}
use api_dashboard.Metrics.Summary.{since_filter}
use api_dashboard.Metrics.Missing.{by_uid, name_or_uid}

-- ", ".join(texts)
abbrev pub joined : List String → String
joined [] = ""
joined (t ∷ []) = t
joined (t ∷ u ∷ ts) = concat t (concat ", " (joined (u ∷ ts)))

-- ", ".join(course_names) or None
abbrev pub class_name_of : List String → Option String
class_name_of names = dated (some (joined names))

-- What students_summary says of a student.
pub record StudentRow (R : Type 0) : Type 0 where
  pub uid : ℕ
  pub name : String
  pub class_name : Option String
  pub metrics : Metrics R

-- rank.get(risk_level, 3)
abbrev pub rank : String → ℕ
rank level =
    if level == "high" then 0 else if level == "medium" then 1 else if level == "good" then 2 else 3

module _ {R : Type 0} (num : Numbers R) where
  abbrev pub student_row : List (ℕ × Student) → ℕ × List (LessonRecord R) → StudentRow R
  student_row names (uid, rows) = record {
    uid = uid;
    name = name_or_uid num uid (lookup uid names);
    class_name =
        class_name_of
          (sort text_leb (distinct (collect (λ (r : LessonRecord R). dated r.course_name) rows)));
    metrics = student_metrics num rows;
  }

  -- s["attendance_rate"] if it is not None else 1.0
  abbrev pub rate_or_one : StudentRow R → R
  rate_or_one x = get_or x.metrics.attendance_rate (num.decimal 1 0)

  -- The order of the keys; two rates are equal where neither is below the other.
  abbrev pub student_leb : StudentRow R → StudentRow R → Bool
  student_leb x y =
      if ltb (rank x.metrics.risk_level) (rank y.metrics.risk_level)
      then true
      else if ltb (rank y.metrics.risk_level) (rank x.metrics.risk_level)
      then false
      else if ltb y.metrics.homework_missing x.metrics.homework_missing
      then true
      else if ltb x.metrics.homework_missing y.metrics.homework_missing
      then false
      else if num.lt (rate_or_one x) (rate_or_one y)
      then true
      else if num.lt (rate_or_one y) (rate_or_one x)
      then false
      else text_leb x.name y.name

  -- `since` is the instant that the days are counted back to.
  unfoldable pub students_summary : Store R → Scope → String → List (StudentRow R)
  unfolding student_metrics per_student
  students_summary s scope since =
      let names = by_uid (students s scope) [] in
      sort student_leb
        (map (student_row names) (per_student (lesson_records s scope (since_filter since)) []))

-- An exam of student_detail.
pub record Exam (R : Type 0) : Type 0 where
  pub name : Json R
  pub score : Option (Json R)
  pub max_score : Option (Json R)
  pub rate : Option (Json R)
  pub received_at : String

-- What student_detail returns.
pub record StudentDetail (R : Type 0) : Type 0 where
  pub uid : ℕ
  pub name : String
  pub metrics : Metrics R
  pub rows : List (LessonRecord R)
  pub exams : List (Exam R)
  pub attendance_trend : List (Week R)
  pub score_trend : List (WeekScore R)

abbrev pub exam_filter : ℕ → EventFilter
exam_filter uid = record {
  cmd = some "AnswerSheetScore";
  course_id = none;
  class_id = none;
  student_uid = some uid;
  teacher_uid = none;
}

abbrev pub student_filter : ℕ → String → Filter
student_filter uid since = record no_filter { student_uid = some uid; since = some since }

module _ {R : Type 0} (num : Numbers R) where
  -- payload.get("Data") or {}, of a dict; none where it is neither a dict nor false.
  abbrev pub data_fields : Option (Json R) → Option (Fields R)
  data_fields none = some end
  data_fields (some (obj fields)) = some fields
  data_fields (some v) = if truth num.python v then none else some end

  abbrev pub payload_fields : Json R → Option (Fields R)
  payload_fields (obj fields) = data_fields (Json.lookup "Data" fields)
  payload_fields v = some end

  abbrev pub exam_of : String → Fields R → Exam R
  exam_of received_at data_of = record {
    name =
        first_true num.python (Json.lookup "ActivityName" data_of) (Json.lookup "UnitName" data_of)
          (str "시험");
    score = Json.lookup "Score" data_of;
    max_score = Json.lookup "MaximumScore" data_of;
    rate = Json.lookup "StudentScoringRate" data_of;
    received_at = received_at;
  }

  abbrev pub add_exam : Option (Fields R) → String → Option (List (Exam R)) → Option (List (Exam R))
  add_exam none received_at rest = none
  add_exam (some data_of) received_at none = none
  add_exam (some data_of) received_at (some exams) = some (exam_of received_at data_of ∷ exams)

  -- The loop over the events; none where it raises.
  unfoldable pub exams_of : List (Event R) → Option (List (Exam R))
  unfolding truth first_true Json.lookup
  exams_of [] = some []
  exams_of (e ∷ es) = add_exam (payload_fields e.payload) e.received_at (exams_of es)

  abbrev pub detail_of :
      Store R
      → Scope
      → ℕ
      → List (LessonRecord R)
      → Option (List (Exam R))
      → Option (List (Week R))
      → Option (List (WeekScore R))
      → Option (StudentDetail R)
  detail_of s scope uid rows none trend scores = none
  detail_of s scope uid rows (some exams) none scores = none
  detail_of s scope uid rows (some exams) (some trend) none = none
  detail_of s scope uid rows (some exams) (some trend) (some scores) = some (record {
    uid = uid;
    name = name_or_uid num uid (lookup uid (by_uid (students s scope) []));
    metrics = student_metrics num rows;
    rows = rows;
    exams = exams;
    attendance_trend = trend;
    score_trend = scores;
  })

  -- none where a date or an event raises
  unfoldable pub student_detail : Store R → ℕ → Scope → String → Option (StudentDetail R)
  unfolding exams_of weekly_attendance_trend weekly_score_trend student_metrics
  student_detail s uid scope since =
      let rows = lesson_records s scope (student_filter uid since) in
      detail_of s scope uid rows (exams_of (events s scope (exam_filter uid) 100))
        (weekly_attendance_trend num rows 14) (weekly_score_trend num rows 14)
