-- ===== src/Metrics/Counts.antt =====
-- metrics.py: every student is counted once in the levels of the overview.
use api_dashboard.Prelude.{
  ℕ, suc, ◌+◌, String, ◌≡◌, ap, inl, inr, Option, none, some, List, [], ◌∷◌, ◌==◌, string_eq,
  length, Bool-cases, arith,
}
use api_dashboard.Scope.{Scope}
use api_dashboard.Store.Rows.{Store, LessonRecord}
use api_dashboard.Store.Access.{lesson_records}
use api_dashboard.Store.Queries.{bump}
use api_dashboard.Metrics.{Numbers, student_metrics}
use api_dashboard.Metrics.Summary.{
  risk_counts, no_risks, since_filter, Overview, overview_of, overview,
}
use api_dashboard.Metrics.Trends.{
  Week, WeekScore, per_student, weekly_attendance_trend, weekly_score_trend,
}

-- The counts together.
abbrev pub sum : List (String × ℕ) → ℕ
sum [] = 0
sum ((k, n) ∷ counts) = n + sum counts

sum-bump : (k : String) (counts : List (String × ℕ)) → sum (bump k counts) ≡ suc (sum counts)
sum-bump k [] = omega arith
sum-bump k ((j, n) ∷ counts) = elim (Bool-cases (j == k)) [
  | inl b ↦ rw b (omega arith)
  | inr b ↦ rw b (omega (arith, sum-bump k counts))
]

module _ {R : Type 0} (num : Numbers R) where
  sum-risk_counts :
      (groups : List (ℕ × List (LessonRecord R))) (counts : List (String × ℕ))
      → sum (risk_counts num groups counts) ≡ length groups + sum counts
  unfolding risk_counts
  sum-risk_counts [] counts = omega arith
  sum-risk_counts ((uid, rows) ∷ groups) counts =
      let level = (student_metrics num rows).risk_level in
      omega (arith, sum-risk_counts groups (bump level counts), sum-bump level counts)

  overview_of-sum :
      (s : Store R) (scope : Scope) (rows : List (LessonRecord R)) (a : Option (List (Week R)))
      (b : Option (List (WeekScore R))) (o : Overview R)
      → overview_of num s scope rows a b ≡ some o
      → sum o.risk_counts ≡ o.student_count
  overview_of-sum s scope rows none b o e = cc
  overview_of-sum s scope rows (some t) none o e = cc
  overview_of-sum s scope rows (some t) (some u) o e =
      let levels : risk_counts num (per_student rows []) no_risks ≡ o.risk_counts = cc e in
      let students : length (per_student rows []) ≡ o.student_count = cc e in
      let counted = sum-risk_counts (per_student rows []) no_risks in
      omega (arith, counted, ap sum levels, students)

  -- Where an overview is returned, the counts of its risk levels together are the number of its
  -- students.
  pub overview-sum :
      (s : Store R) (scope : Scope) (since : String) (o : Overview R)
      → overview num s scope since ≡ some o
      → sum o.risk_counts ≡ o.student_count
  unfolding overview
  overview-sum s scope since o e =
      let rows = lesson_records s scope (since_filter since) in
      overview_of-sum s scope rows (weekly_attendance_trend num rows 14)
        (weekly_score_trend num rows 14) o e
