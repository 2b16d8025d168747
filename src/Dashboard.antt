-- ===== src/Dashboard.antt =====
-- web/routes_dashboard.py: what the pages of the dashboard are given. The charts and the templates are
-- not modelled; `since` gives the instant that some days before now began at.
pub mod Teachers
pub mod Visible
use api_dashboard.Prelude.{
  ℕ, ◌+◌, String, Bool, true, false, ◌&&◌, not, Option, none, some, is_some, List, [], ◌∷◌, map,
  find, elem, length, lookup, put, get_or, truthy, ltb, ◌==◌, nat_eq, string_eq, option_eq,
  if◌then◌else◌,
}
use api_dashboard.Session.{Session}
use api_dashboard.Scope.{Scope}
use api_dashboard.Scope.Derive.{scope_for}
use api_dashboard.Store.Rows.{Store, LessonRecord, Course, Lesson}
use api_dashboard.Store.Access.{
  Filter, no_filter, lesson_records, course_ids_in_scope, student_uids_in_scope,
}
use api_dashboard.Store.Queries.{courses, lessons}
use api_dashboard.Metrics.{Numbers, present, late, absent, attended_as}
use api_dashboard.Metrics.Trends.{append_to}
use api_dashboard.Metrics.Summary.{Overview, overview}
use api_dashboard.Metrics.Students.{StudentRow, StudentDetail, students_summary, student_detail}

-- max(7, min(days, 365))
abbrev pub clamp_days : ℕ → ℕ
clamp_days days = if ltb days 7 then 7 else if ltb 365 days then 365 else days

-- The answer to a request for a page of which `A` is the context.
pub data Page (A : Type 0) : Type 0 where
  login_page forbidden server_error : Page A
  redirected : Option ℕ → Page A
  shown : A → Page A

abbrev pub shown_or_error : {A : Type 0} → Option A → Page A
shown_or_error none = server_error
shown_or_error (some a) = shown a

-- allowed is not None and x not in allowed
abbrev pub outside : ℕ → Option (List ℕ) → Bool
outside x none = false
outside x (some ids) = not (elem x ids)

-- AppState.scope_of
abbrev pub scope_of : {R : Type 0} → Session → Store R → Scope
scope_of session s = scope_for session (some s)

abbrev pub count_lesson : Option ℕ → List (ℕ × ℕ) → List (ℕ × ℕ)
count_lesson none counts = counts
count_lesson (some id) counts =
    if id == 0 then counts else put id (get_or (lookup id counts) 0 + 1) counts

-- lessons_by_course
unfoldable pub count_lessons : List Lesson → List (ℕ × ℕ) → List (ℕ × ℕ)
count_lessons [] counts = counts
count_lessons (l ∷ ls) counts = count_lessons ls (count_lesson l.course_id counts)

-- What the home page is given.
pub record Home (R : Type 0) : Type 0 where
  pub figures : Overview R
  pub courses : List Course
  pub lessons_by_course : List (ℕ × ℕ)

-- lesson_stats of a lesson
pub record LessonStats : Type 0 where
  pub present : ℕ
  pub late : ℕ
  pub absent : ℕ

pub record CourseDetail : Type 0 where
  pub course_id : ℕ
  pub course : Option Course
  pub lessons : List Lesson
  pub lesson_stats : List (String × LessonStats)
  pub record_count : ℕ

-- What the page of the students is given.
pub record StudentsView (R : Type 0) : Type 0 where
  pub students : List (StudentRow R)
  pub detail : Option (StudentDetail R)
  pub days : ℕ

abbrev pub course_filter : ℕ → Filter
course_filter course_id = record no_filter { course_id = some course_id }

module _ {R : Type 0} where
  -- per_lesson.setdefault(r["lesson_id"], []).append(r)
  unfoldable pub per_lesson :
      List (LessonRecord R)
      → List (String × List (LessonRecord R))
      → List (String × List (LessonRecord R))
  per_lesson [] d = d
  per_lesson (r ∷ rows) d = per_lesson rows (append_to r.lesson_id r d)

  abbrev pub stats_of : String × List (LessonRecord R) → String × LessonStats
  stats_of (id, rows) = (
    id,
    record {
      present = attended_as present rows;
      late = attended_as late rows;
      absent = attended_as absent rows;
    },
  )

  abbrev pub course_detail_in : Store R → Scope → ℕ → CourseDetail
  course_detail_in s scope course_id =
      let rows = lesson_records s scope (course_filter course_id) in
      record {
        course_id = course_id;
        course = find (λ (c : Course). c.course_id == course_id) (courses s scope);
        lessons = lessons s scope (some course_id);
        lesson_stats = map stats_of (per_lesson rows []);
        record_count = length rows;
      }

  unfoldable pub course_detail : Option Session → Store R → ℕ → Page CourseDetail
  unfolding per_lesson
  course_detail none s course_id = login_page
  course_detail (some session) s course_id =
      let scope = scope_of session s in
      if outside course_id (course_ids_in_scope s scope)
      then forbidden
      else shown (course_detail_in s scope course_id)

module _ {R : Type 0} (num : Numbers R) (since : ℕ → String) where
  abbrev pub home_of : Store R → Scope → Option (Overview R) → Option (Home R)
  home_of s scope none = none
  home_of s scope (some figures) = some (record {
    figures = figures;
    courses = courses s scope;
    lessons_by_course = count_lessons (lessons s scope none) [];
  })

  unfoldable pub dashboard_home : Option Session → Store R → ℕ → Page (Home R)
  unfolding count_lessons overview
  dashboard_home none s days = login_page
  dashboard_home (some session) s days =
      let scope = scope_of session s in
      shown_or_error (home_of s scope (overview num s scope (since (clamp_days days))))

  abbrev pub with_detail :
      List (StudentRow R) → ℕ → Option (StudentDetail R) → Page (StudentsView R)
  with_detail students days none = server_error
  with_detail students days (some d) =
      shown (record { students = students; detail = some d; days = days })

  -- The page, with the detail of a student where one is asked for.
  abbrev pub students_page : Store R → Scope → Option ℕ → ℕ → Page (StudentsView R)
  students_page s scope none days =
      shown (record {
        students = students_summary num s scope (since days);
        detail = none;
        days = days;
      })
  students_page s scope (some uid) days =
      if outside uid (student_uids_in_scope s scope)
      then forbidden
      else with_detail (students_summary num s scope (since days)) days
          (student_detail num s uid scope (since 180))

  unfoldable pub students_view : Option Session → Store R → Option ℕ → ℕ → Page (StudentsView R)
  unfolding students_summary student_detail
  students_view none s uid days = login_page
  students_view (some session) s uid days =
      students_page s (scope_of session s) uid (clamp_days days)
