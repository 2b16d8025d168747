-- ===== src/Metrics/Trends.antt =====
-- metrics.py: the rows under a student or a week, and the weekly trends.
use api_dashboard.Prelude.{
  ℕ, ◌-◌, String, Option, none, some, List, [], ◌∷◌, ◌++◌, map, length, lookup, put, HasEquality,
  drop, get_or, nonempty, sort, text_leb, nat_eq, string_eq, option_eq, if◌then◌else◌,
}
use api_dashboard.Store.Rows.{LessonRecord}
use api_dashboard.Metrics.{
  Numbers, present, late, absent, attended_as, attendance_rate, average, week_start,
}

-- d[k].append(v) of a defaultdict(list)
abbrev pub append_to :
    {K A : Type 0} ⦃e : HasEquality K⦄ → K → A → List (K × List A) → List (K × List A)
append_to k a d = put k (get_or (lookup k d) [] ++ a ∷ []) d

-- for a in xs: d[key(a)].append(a)
abbrev pub append_all :
    {K A : Type 0} ⦃e : HasEquality K⦄ → (A → K) → List A → List (K × List A) → List (K × List A)
append_all key [] d = d
append_all key (a ∷ xs) d = append_all key xs (append_to (key a) a d)

module _ {R : Type 0} where
  -- per_student
  unfoldable pub per_student :
      List (LessonRecord R) → List (ℕ × List (LessonRecord R)) → List (ℕ × List (LessonRecord R))
  per_student rows d = append_all (λ r. r.student_uid) rows d

-- A value under its week; none where the date raises.
abbrev pub with_week :
    {V : Type 0} → Option String → V → List (String × List V) → Option (List (String × List V))
with_week none v d = none
with_week (some week) v d = some (append_to week v d)

abbrev pub dated : Option String → Option String
dated none = none
dated (some d) = if nonempty d then some d else none

module _ {R V : Type 0} (num : Numbers R) where
  -- A row that has a date and the value is put under its week.
  abbrev pub in_week :
      Option String → Option V → List (String × List V) → Option (List (String × List V))
  in_week none v d = some d
  in_week (some date) none d = some d
  in_week (some date) (some v) d = with_week (week_start num date) v d

  unfoldable pub by_week :
      (LessonRecord R → Option V)
      → List (LessonRecord R)
      → List (String × List V)
      → Option (List (String × List V))
  unfolding week_start
  by_week pick [] d = some d
  by_week pick (r ∷ rows) d = elim (in_week (dated r.lesson_date) (pick r) d) [
    | none ↦ none
    | some e ↦ by_week pick rows e
  ]

-- What a week of the attendance trend shows.
pub record Week (R : Type 0) : Type 0 where
  pub week : String
  pub attendance_rate : Option R
  pub present : ℕ
  pub late : ℕ
  pub absent : ℕ
  pub total : ℕ

-- xs[-n:], for an n that is not zero
abbrev pub last_of : {A : Type 0} → ℕ → List A → List A
last_of n xs = drop (length xs - n) xs

module _ {R : Type 0} (num : Numbers R) where
  abbrev pub week_of : String × List (LessonRecord R) → Week R
  week_of (week, rows) = record {
    week = week;
    attendance_rate = attendance_rate num rows;
    present = attended_as present rows;
    late = attended_as late rows;
    absent = attended_as absent rows;
    total = length rows;
  }

  -- weekly_attendance_trend
  unfoldable pub weekly_attendance_trend : List (LessonRecord R) → ℕ → Option (List (Week R))
  unfolding by_week attendance_rate
  weekly_attendance_trend rows buckets = elim (by_week num (λ r. some r) rows []) [
    | none ↦ none
    | some weeks ↦ some (map week_of (last_of buckets (sort (λ v w. text_leb v.0 w.0) weeks)))
  ]

-- What a week of the score trend shows.
pub record WeekScore (R : Type 0) : Type 0 where
  pub week : String
  pub avg_score : Option R
  pub count : ℕ

module _ {R : Type 0} (num : Numbers R) where
  abbrev pub week_score_of : String × List R → WeekScore R
  week_score_of (week, scores) = record {
    week = week;
    avg_score = average num scores;
    count = length scores;
  }

  -- weekly_score_trend
  unfoldable pub weekly_score_trend : List (LessonRecord R) → ℕ → Option (List (WeekScore R))
  unfolding by_week
  weekly_score_trend rows buckets = elim (by_week num (λ r. r.homework_score) rows []) [
    | none ↦ none
    | some weeks ↦ some (map week_score_of (last_of buckets (sort (λ v w. text_leb v.0 w.0) weeks)))
  ]
