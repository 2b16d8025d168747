-- ===== src/Tests/Pages.antt =====
-- The page of the students, read by a manager of the school.
use api_dashboard.Prelude.{ℕ, String, ◌≡◌, refl, Option, some, sort, text_leb, nullable_leb}
use api_dashboard.Session.{Session}
use api_dashboard.Scope.{unrestricted, for_branch}
use api_dashboard.Scope.Derive.{scope_for}
use api_dashboard.Store.Access.{
  student_uids_in_scope, lesson_records, selected, row_in_scope, scope_keys, course_ids_in_scope,
  all_courses, all_teachers, course_ids_taught_by,
}
use api_dashboard.Auth.Sessions.{session_of}
use api_dashboard.Dashboard.{Page, forbidden, scope_of, StudentsView, students_view}
use api_dashboard.Dashboard.Visible.{Shows, students_view-Shows}
use api_dashboard.Tests.{login}
use api_dashboard.Tests.Reports.{num, term}

abbrev pub manager : Session
manager = session_of 0 login

abbrev pub since : ℕ → String
since days = "2026-05-01"

abbrev page : Option ℕ → Page (StudentsView ℕ)
page uid = students_view num since (some manager) term uid 400

-- Student 6 has records of the other branch only.
forbidden_page : page (some 6) ≡ forbidden
unfolding students_view student_uids_in_scope unrestricted scope_for for_branch lesson_records sort
    selected nullable_leb text_leb row_in_scope scope_keys course_ids_in_scope all_courses
    all_teachers course_ids_taught_by
forbidden_page = refl

students_view-Shows_example :
    Shows num since term (scope_of manager term) (some 5) 365 (page (some 5))
students_view-Shows_example = students_view-Shows num since manager term (some 5) 400
