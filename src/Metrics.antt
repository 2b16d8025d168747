-- ===== src/Metrics.antt =====
-- metrics.py: aggregations over the lesson records. The arithmetic and the order of floats are
-- parameters, and so is the reading of an ISO text as a day.
pub mod Trends
pub mod Summary
pub mod Missing
pub mod Students
pub mod Listed
pub mod Teachers
pub mod Counts
pub mod Groups
pub mod Homework
use Prim.Native.String.{◌++◌ as concat}
use api_dashboard.Prelude.{
  ℕ, suc, ◌+◌, ◌-◌, String, Bool, true, false, ◌||◌, ◌&&◌, not, Option, none, some, is_some, List,
  [], ◌∷◌, ◌++◌, map, keep, collect, length, take, lookup, put, HasEquality, drop, elem, elem_opt,
  get_or, nonempty, leb, sort, text_leb, ◌==◌, nat_eq, string_eq, option_eq, if◌then◌else◌,
}
use api_dashboard.Python.{Python}
use api_dashboard.Scope.{Scope}
use api_dashboard.Schedule.Dates.{monday_of}
use api_dashboard.Store.Rows.{Store, LessonRecord, Student, Lesson}
use api_dashboard.Store.Access.{Filter, no_filter, lesson_records}
use api_dashboard.Store.Queries.{students, courses, lessons, counts_by_cmd, bump}

-- a + b and a < b of floats, the literal n / 10 ** k; the ordinal of the day of an ISO text, none where
-- fromisoformat raises, and the text of a day.
pub record Numbers (R : Type 0) : Type 0 where
  pub python : Python R
  pub add : R → R → R
  pub lt : R → R → Bool
  pub decimal : ℕ → ℕ → R
  -- (end - start) / 60 of two instants, the start first
  pub minutes : ℕ → ℕ → R
  pub fromisoformat : String → Option ℕ
  pub isoformat : ℕ → String

abbrev pub present : String
present = "출석"

abbrev pub late : String
late = "지각"

abbrev pub absent : String
absent = "결석"

-- sum(1 for r in rows if r.get("attendance") == label)
abbrev pub attended_as : {R : Type 0} → String → List (LessonRecord R) → ℕ
attended_as label rows = length (keep (λ r. r.attendance == some label) rows)

-- sum(1 for r in rows if r.get("homework_submitted") == 0)
abbrev pub missing_count : {R : Type 0} → List (LessonRecord R) → ℕ
missing_count rows = length (keep (λ r. r.homework_submitted == some 0) rows)

-- What student_metrics returns.
pub record Metrics (R : Type 0) : Type 0 where
  pub lesson_count : ℕ
  pub attendance_rate : Option R
  pub present_count : ℕ
  pub late_count : ℕ
  pub absent_count : ℕ
  pub homework_missing : ℕ
  pub score_avg : Option R
  pub risk_level : String

module _ {R : Type 0} (num : Numbers R) where
  -- x is not None and x < bound
  abbrev pub below : Option R → R → Bool
  below none bound = false
  below (some x) bound = num.lt x bound

  -- _risk_level
  unfoldable pub risk_level : Option R → Option R → ℕ → String
  risk_level attendance_rate score_avg homework_missing =
      if below attendance_rate (num.decimal 72 2)
        || below score_avg (num.decimal 70 0)
        || leb 3 homework_missing
      then "high"
      else if below attendance_rate (num.decimal 86 2)
          || below score_avg (num.decimal 80 0)
          || leb 1 homework_missing
      then "medium"
      else "good"

  -- round(ok / len(known), 3), where there is a known row.
  abbrev pub rate_of : ℕ → ℕ → Option R
  rate_of good known =
      if known == 0
      then none
      else some
          (num.python.round (num.python.div (num.python.float good) (num.python.float known)) 3)

  -- _attendance_rate
  unfoldable pub attendance_rate : List (LessonRecord R) → Option R
  attendance_rate rows =
      let known = keep (λ r. elem_opt r.attendance (present ∷ late ∷ absent ∷ [])) rows in
      rate_of (length (keep (λ r. elem_opt r.attendance (present ∷ late ∷ [])) known))
        (length known)

  -- sum(scores), from what there is so far
  abbrev pub total : R → List R → R
  total acc [] = acc
  total acc (x ∷ xs) = total (num.add acc x) xs

  -- round(sum(scores) / len(scores), 1), where there is one.
  abbrev pub average : List R → Option R
  average [] = none
  average (x ∷ xs) = some (
      num.python.round
        (num.python.div (total (num.python.float 0) (x ∷ xs)) (num.python.float (length (x ∷ xs))))
        1)

  unfoldable pub student_metrics : List (LessonRecord R) → Metrics R
  unfolding attendance_rate risk_level
  student_metrics rows =
      let homework_missing = missing_count rows in
      let rate = attendance_rate rows in
      let avg = average (collect (λ r. r.homework_score) rows) in
      record {
        lesson_count = length rows;
        attendance_rate = rate;
        present_count = attended_as present rows;
        late_count = attended_as late rows;
        absent_count = attended_as absent rows;
        homework_missing = homework_missing;
        score_avg = avg;
        risk_level = risk_level rate avg homework_missing;
      }

  -- _week_start; none where it raises.
  unfoldable pub week_start : String → Option String
  week_start date_iso = elim (num.fromisoformat date_iso) [
    | none ↦ none
    | some day ↦ some (num.isoformat (monday_of day))
  ]
