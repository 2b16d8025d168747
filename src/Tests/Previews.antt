-- ===== src/Tests/Previews.antt =====
-- The preview of reminders, read by a manager of the school.
use api_dashboard.Prelude.{
  ℕ, String, ◌≡◌, refl, true, List, none, some, [], ◌∷◌, map, sort, text_leb, nullable_leb,
}
use api_dashboard.Json
use api_dashboard.Json.{arr, obj, field, end, int, pos, str, nil, cons}
use api_dashboard.Scope.{unrestricted, for_branch}
use api_dashboard.Scope.Derive.{scope_for}
use api_dashboard.Store.Access.{
  lesson_records, selected, row_in_scope, scope_keys, course_ids_in_scope, all_courses,
  all_teachers, course_ids_taught_by,
}
use api_dashboard.Dashboard.{Page, shown}
use api_dashboard.Notify.Requests.{Preview, notify_compose}
use api_dashboard.Tests.Pages.{manager, since}
use api_dashboard.Tests.Reports.{num, term}

-- The model does not answer.
abbrev page : Page (List Preview)
page =
    notify_compose num since true (λ students academy. none) (some manager) term 48 "ai" "brief"
      "학원"

-- It does, for the student with the uid 5.
abbrev told : Page (List Preview)
told =
    notify_compose num since true
      (λ students academy.
        some (
          arr
            (cons (obj (field "student_uid" (int (pos 5)) (field "message" (str "숙제") end))) nil)))
      (some manager) term 48 "ai" "brief" "학원"

abbrev uids : Page (List Preview) → List ℕ
uids (shown ps) = map (λ (p : Preview). p.uid) ps
uids other = []

previewed_students : uids page ≡ 5 ∷ []
unfolding notify_compose lesson_records sort selected text_leb nullable_leb row_in_scope scope_keys
    unrestricted scope_for for_branch course_ids_in_scope all_courses all_teachers
    course_ids_taught_by
previewed_students = refl

abbrev messages : Page (List Preview) → List String
messages (shown ps) = map (λ (p : Preview). p.message) ps
messages other = []

messages-told : messages told ≡ "숙제" ∷ []
unfolding notify_compose lesson_records sort selected text_leb nullable_leb row_in_scope scope_keys
    unrestricted scope_for for_branch course_ids_in_scope all_courses all_teachers
    course_ids_taught_by Json.lookup
messages-told = refl
