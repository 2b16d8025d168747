-- ===== src/Metrics/Summary.antt =====
-- metrics.py: overview.
use api_dashboard.Prelude.{
  ℕ, String, Option, none, some, List, [], ◌∷◌, length, nat_eq, string_eq, option_eq,
}
use api_dashboard.Scope.{Scope}
use api_dashboard.Store.Rows.{Store, LessonRecord}
use api_dashboard.Store.Access.{Filter, no_filter, lesson_records}
use api_dashboard.Store.Queries.{courses, lessons, counts_by_cmd, bump}
use api_dashboard.Metrics.{Numbers, missing_count, attendance_rate, student_metrics}
use api_dashboard.Metrics.Trends.{
  per_student, Week, WeekScore, weekly_attendance_trend, weekly_score_trend,
}

-- The levels of the students, counted.
unfoldable pub risk_counts :
    {R : Type 0}
    → Numbers R
    → List (ℕ × List (LessonRecord R))
    → List (String × ℕ)
    → List (String × ℕ)
unfolding student_metrics
risk_counts num [] counts = counts
risk_counts num ((uid, rows) ∷ groups) counts =
    risk_counts num groups (bump (student_metrics num rows).risk_level counts)

abbrev pub no_risks : List (String × ℕ)
no_risks = ("high", 0) ∷ ("medium", 0) ∷ ("good", 0) ∷ []

-- What overview returns.
pub record Overview (R : Type 0) : Type 0 where
  pub course_count : ℕ
  pub lesson_count : ℕ
  pub student_count : ℕ
  pub attendance_rate : Option R
  pub homework_missing : ℕ
  pub risk_counts : List (String × ℕ)
  pub event_counts : List (String × ℕ)
  pub attendance_trend : List (Week R)
  pub score_trend : List (WeekScore R)

abbrev pub since_filter : String → Filter
since_filter since = record no_filter { since = some since }

module _ {R : Type 0} (num : Numbers R) where
  abbrev pub overview_of :
      Store R
      → Scope
      → List (LessonRecord R)
      → Option (List (Week R))
      → Option (List (WeekScore R))
      → Option (Overview R)
  overview_of s scope rows none scores = none
  overview_of s scope rows (some trend) none = none
  overview_of s scope rows (some trend) (some scores) =
      let groups = per_student rows [] in
      some (record {
        course_count = length (courses s scope);
        lesson_count = length (lessons s scope none);
        student_count = length groups;
        attendance_rate = attendance_rate num rows;
        homework_missing = missing_count rows;
        risk_counts = risk_counts num groups no_risks;
        event_counts = counts_by_cmd s scope;
        attendance_trend = trend;
        score_trend = scores;
      })

  -- `since` is the instant that the days are counted back to; none where a date raises.
  unfoldable pub overview : Store R → Scope → String → Option (Overview R)
  unfolding weekly_attendance_trend weekly_score_trend risk_counts per_student
  overview s scope since =
      let rows = lesson_records s scope (since_filter since) in
      overview_of s scope rows (weekly_attendance_trend num rows 14)
        (weekly_score_trend num rows 14)
