-- ===== src/Create/Plan.antt =====
-- web/routes_create.py: whom a plan may name as a teacher, and create_execute.
use Prim.Native.String.{◌++◌ as concat}
use api_dashboard.Prelude.{
  ℕ, suc, String, Bool, Option, none, some, List, [], ◌∷◌, truthy, get_or, elem, ◌==◌, nat_eq,
  string_eq, option_eq, if◌then◌else◌,
}
use api_dashboard.Session.{Session}
use api_dashboard.Scope.Derive.{scope_for}
use api_dashboard.Schedule.{PlannedCourse}
use api_dashboard.Store.Rows.{Store}
use api_dashboard.Store.Access.{teacher_uids_in_scope}
use api_dashboard.Create.{Call, Answer, Clock, Run, Flow, go, crash}
use api_dashboard.Create.Courses.{words, execute}

-- str.strip, str.isdigit and int of the texts of a form (none where int raises), and str of a number.
pub record Forms : Type 0 where
  pub strip : String → String
  pub isdigit : String → Bool
  pub int : String → Option ℕ
  pub str : ℕ → String

-- `form.get(field)`
abbrev pub Form : Type 0
Form = String → Option String

-- What _enforce_teacher_scope leaves: the courses and the notes.
abbrev pub Enforced : Type 0
Enforced = List PlannedCourse × List String

-- The reasons to block a course.
abbrev pub unassigned : String → String
unassigned name = concat name ": 계정에 ClassIn 선생님 UID가 연결되어 있지 않습니다 — 관리자에게 문의하세요."

abbrev pub foreign : Forms → String → ℕ → String
foreign forms name uid = words (name ∷ ": 선생님(UID " ∷ forms.str uid ∷ ")이 관장 소속 관의 선생님이 아닙니다." ∷ [])

module _ (forms : Forms) where
  -- The loop over the fields of a course; none where it raises.
  abbrev pub override_from : Form → List String → PlannedCourse → Option PlannedCourse
  override_from form [] c = some c
  override_from form (field ∷ fields) c =
      let rest = override_from form fields c in
      let value = forms.strip (get_or (form field) "") in
      if forms.isdigit value
      then elim (forms.int value) [
        | none ↦ none
        | some uid ↦ some (record c { teacher_uid = some uid })
      ]
      else rest

  abbrev pub fields_of : ℕ → List String
  fields_of index =
      concat "teacher_uid_manual_" (forms.str index) ∷ concat "teacher_uid_" (forms.str index) ∷ []

  abbrev pub join : Option PlannedCourse → Option (List PlannedCourse) → Option (List PlannedCourse)
  join none courses = none
  join (some c) none = none
  join (some c) (some courses) = some (c ∷ courses)

  -- _apply_teacher_overrides, from the course of that index on.
  unfoldable pub apply_teacher_overrides :
      Form → ℕ → List PlannedCourse → Option (List PlannedCourse)
  apply_teacher_overrides form index [] = some []
  apply_teacher_overrides form index (c ∷ courses) =
      join (override_from form (fields_of index) c)
        (apply_teacher_overrides form (suc index) courses)

  -- A teacher's course: under the session's own uid, or blocked.
  unfoldable pub own_course : Option ℕ → PlannedCourse → PlannedCourse
  own_course none c = record c { blocked_reason = some (unassigned c.course_name) }
  own_course (some uid) c = record c { teacher_uid = some uid }

  abbrev pub own_note : Option ℕ → PlannedCourse → List String → List String
  own_note none c notes = notes
  own_note (some uid) c notes =
      if c.teacher_uid == some uid
      then notes
      else words ("「" ∷ c.course_name ∷ "」 선생님은 본인 계정으로 배정" ∷ []) ∷ notes

  abbrev pub add_own : Option ℕ → PlannedCourse → Enforced → Enforced
  add_own uid c (courses, notes) = (own_course uid c ∷ courses, own_note uid c notes)

  -- The loop for a teacher.
  unfoldable pub own_courses : Option ℕ → List PlannedCourse → Enforced
  unfolding own_course
  own_courses uid [] = ([], [])
  own_courses uid (c ∷ courses) = add_own uid c (own_courses uid courses)

  -- A manager's course.
  unfoldable pub branch_course : List ℕ → PlannedCourse → PlannedCourse
  branch_course allowed c =
      if truthy c.teacher_uid
      then (if elem (get_or c.teacher_uid 0) allowed then c else record c {
        blocked_reason = some (foreign forms c.course_name (get_or c.teacher_uid 0));
      })
      else c

  -- The loop for a manager.
  unfoldable pub branch_courses_only : List ℕ → List PlannedCourse → List PlannedCourse
  unfolding branch_course
  branch_courses_only allowed [] = []
  branch_courses_only allowed (c ∷ courses) =
      branch_course allowed c ∷ branch_courses_only allowed courses

  -- _enforce_teacher_scope
  unfoldable pub enforce_teacher_scope :
      {R : Type 0} → Session → Store R → List PlannedCourse → Enforced
  unfolding own_courses branch_courses_only
  enforce_teacher_scope session s courses =
      if session.role == "teacher"
      then own_courses session.teacher_uid courses
      else if session.role == "manager"
      then (
        branch_courses_only (get_or (teacher_uids_in_scope s (scope_for session (some s))) [])
            courses,
        [],
      )
      else (courses, [])

-- The page of the results with the notes, the login page, or a server error; and what was done.
pub data Page : Type 0 where
  result : List String → Page
  login_page server_error : Page

abbrev pub start : {R : Type 0} → Store R → Run R
start s = record { store = s; calls = []; created = []; errors = [] }

abbrev pub finished : {R : Type 0} → List String → Flow (Run R) → Run R × Page
finished notes (go r) = (r, result notes)
finished notes (crash r) = (r, server_error)

module _ {R : Type 0} (clock : Clock) (api : List Call → Call → Answer) (now : String)
    (forms : Forms) (form : Form) where
  abbrev pub enforced : Session → Store R → List PlannedCourse → Run R × Page
  enforced session s courses =
      let (kept, notes) = enforce_teacher_scope forms session s courses in
      finished notes (execute clock api now kept (start s))

  -- `courses` are those of the plan in the form, or none where it does not validate.
  unfoldable pub create_execute :
      Option Session → Option (List PlannedCourse) → Store R → Run R × Page
  create_execute none courses s = (start s, login_page)
  create_execute (some session) none s = (start s, server_error)
  create_execute (some session) (some courses) s =
      elim (apply_teacher_overrides forms form 0 courses) [
        | none ↦ (start s, server_error)
        | some chosen ↦ enforced session s chosen
      ]
