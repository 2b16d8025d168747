-- ===== src/Tests/Reads.antt =====
-- What the roles of a small school are given of it.
use api_dashboard.Prelude.{ℕ, ◌≡◌, refl, ◌↔◌, ◌⊎◌, true, false, none, some, In, nat_eq}
use api_dashboard.Session.{Session}
use api_dashboard.Scope.{for_branch, for_teacher, unrestricted}
use api_dashboard.Scope.Derive.{branch_exists, scope_for}
use api_dashboard.Scope.Roles
use api_dashboard.Scope.Roles.{SeesNothing, unrestricted-scope_for_iff, homeless-SeesNothing}
use api_dashboard.Store.Access.{no_filter, selected, lesson_records}
use api_dashboard.Store.Queries.{students, courses, teachers}
use api_dashboard.Store.Visible.{CourseVisible, TeacherVisible}
use api_dashboard.Store.Isolation.{RowVisible, lesson_records_iff}
use api_dashboard.Store.Isolation.Keyed.{StudentVisible, courses_iff, students_iff, teachers_iff}
use api_dashboard.Auth.Sessions.{session_of}
use api_dashboard.Tests.{school, record_of, course_of, student_of, teacher_of, login}

lesson_records_iff_example :
    In (record_of "20_1" 6 20 8) (lesson_records school (for_branch (some 2)) no_filter) ↔ (
      In (record_of "20_1" 6 20 8) school.lesson_records
      × (selected no_filter (record_of "20_1" 6 20 8) ≡ true)
      × RowVisible school (for_branch (some 2)) (some 20) (some 8))
lesson_records_iff_example =
    lesson_records_iff school (for_branch (some 2)) no_filter (record_of "20_1" 6 20 8)

courses_iff_example : In (course_of 20 (some 8) none) (courses school (for_branch (some 2))) ↔ (
    In (course_of 20 (some 8) none) school.courses
    × ((unrestricted (for_branch (some 2)) ≡ true) ⊎ CourseVisible school (for_branch (some 2)) 20))
courses_iff_example = courses_iff school (for_branch (some 2)) (course_of 20 (some 8) none)

students_iff_example : In (student_of 6) (students school (for_teacher (some 8))) ↔ (
    In (student_of 6) school.students
    × ((unrestricted (for_teacher (some 8)) ≡ true)
        ⊎ StudentVisible school (for_teacher (some 8)) 6))
students_iff_example = students_iff school (for_teacher (some 8)) (student_of 6)

teachers_iff_example : In (teacher_of 7 none) (teachers school (for_branch (some 2))) ↔ (
    In (teacher_of 7 none) school.teachers
    × ((unrestricted (for_branch (some 2)) ≡ true) ⊎ TeacherVisible school (for_branch (some 2)) 7))
teachers_iff_example = teachers_iff school (for_branch (some 2)) (teacher_of 7 none)

abbrev manager : Session
manager = session_of 0 login

unrestricted-scope_for_iff_example : (unrestricted (scope_for manager (some school)) ≡ true) ↔ (
    (manager.role ≡ "owner")
    × ((b : ℕ) → manager.branch_filter ≡ some b → branch_exists school b ≡ false))
unrestricted-scope_for_iff_example = unrestricted-scope_for_iff school manager

abbrev unassigned : Session
unassigned = record manager { branch_id = none }

homeless-SeesNothing_example : SeesNothing school (scope_for unassigned (some school))
homeless-SeesNothing_example = homeless-SeesNothing school unassigned (Roles.manager refl refl)
