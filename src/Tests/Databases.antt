-- ===== src/Tests/Databases.antt =====
-- A database of the first release, and the page of /admin.
use api_dashboard.Prelude.{◌≡◌, refl, none, some, [], ◌∷◌}
use api_dashboard.Store.Migration.{added_columns, migrate}
use api_dashboard.Store.Opening.{Indexed}
use api_dashboard.Admin.Home.{Shows, admin_home, admin_home-Shows}
use api_dashboard.Tests.{school}
use api_dashboard.Tests.Pages.{manager}

-- The columns of the courses and the teachers in the first release.
abbrev first_release : Indexed
first_release = record {
  tables =
      (
        "courses",
        "course_id" ∷ "name" ∷ "teacher_uid" ∷ "teacher_name" ∷ "created_via" ∷ "created_at" ∷ [],
      )
      ∷ ("teachers", "uid" ∷ "name" ∷ [])
      ∷ [];
  indices = [];
}

migrated :
    migrate added_columns
      (("courses", "course_id" ∷ []) ∷ ("teachers", "uid" ∷ "branch_id" ∷ []) ∷ [])
    ≡ some
        (("courses", "course_id" ∷ "branch_id" ∷ []) ∷ ("teachers", "uid" ∷ "branch_id" ∷ []) ∷ [])
unfolding migrate
migrated = refl

-- A database without its tables.
migrated_none : migrate added_columns [] ≡ none
unfolding migrate
migrated_none = refl

admin_home-Shows_example : Shows manager school (admin_home (some manager) school)
admin_home-Shows_example = admin_home-Shows manager school
