-- ===== src/Create/Teachers.antt =====
-- web/routes_create.py: the teachers that a teacher's and a manager's plan reaches.
use api_dashboard.Prelude.{
  ℕ, String, ◌≡◌, refl, inl, inr, true, false, Option, none, some, List, [], ◌∷◌, truthy, nonempty,
  nonempty-concat, get_or, elem, elem_iff, In, Bool-cases, ◌==◌, ==_iff, nat_eq, string_eq, subst,
  sym,
}
use api_dashboard.Session.{Session}
use api_dashboard.Scope.{for_branch, singleton, unrestricted}
use api_dashboard.Scope.Derive.{scope_for}
use api_dashboard.Schedule.{PlannedCourse}
use api_dashboard.Store.Rows.{Store, Teacher}
use api_dashboard.Store.Access.{teacher_uids_in_scope}
use api_dashboard.Store.Visible.{Among, TeachesIn, teacher_uids_iff}
use api_dashboard.Create.{Call, Answer, Clock, Run, Flow, go, crash}
use api_dashboard.Create.Calls.{CallsBy, FlowBy, MayCreate, execute-FlowBy}
use api_dashboard.Create.Plan.{
  Forms, Form, unassigned, foreign, own_course, own_courses, branch_course, branch_courses_only,
  enforce_teacher_scope, apply_teacher_overrides, start, finished, enforced, create_execute,
}

unassigned-nonempty : (name : String) → nonempty (unassigned name) ≡ true
unassigned-nonempty name = nonempty-concat name _ refl

foreign-nonempty :
    (forms : Forms) (name : String) (uid : ℕ) → nonempty (foreign forms name uid) ≡ true
foreign-nonempty forms name uid =
    nonempty-concat name _ (nonempty-concat ": 선생님(UID " _ (nonempty-concat (forms.str uid) _ refl))

module _ (forms : Forms) where
  own_course-MayCreate :
      (uid : Option ℕ) (c : PlannedCourse) → MayCreate (λ u. uid ≡ some u) (own_course forms uid c)
  unfolding own_course
  own_course-MayCreate none c u b t e = cc (b, unassigned-nonempty c.course_name)
  own_course-MayCreate (some v) c u b t e = e

  own_courses-MayCreate :
      (uid : Option ℕ) (courses : List PlannedCourse) (c : PlannedCourse)
      → In c (own_courses forms uid courses).0
      → MayCreate (λ u. uid ≡ some u) c
  unfolding own_courses
  own_courses-MayCreate uid [] c m = absurd m
  own_courses-MayCreate uid (d ∷ courses) c (inl e) =
      subst (MayCreate (λ u. uid ≡ some u)) (sym e) (own_course-MayCreate uid d)
  own_courses-MayCreate uid (d ∷ courses) c (inr m) = own_courses-MayCreate uid courses c m

  branch_course-MayCreate :
      (allowed : List ℕ) (c : PlannedCourse)
      → MayCreate (λ u. In u allowed) (branch_course forms allowed c)
  unfolding branch_course
  branch_course-MayCreate allowed c u b t e = elim (Bool-cases (truthy c.teacher_uid)) [
    | inr unnamed ↦ let t' = rw (branch_course, unnamed) at t in cc
    | inl named ↦
        let uid = get_or c.teacher_uid 0 in
        elim (Bool-cases (elem uid allowed)) [
          | inl found ↦
              let e' : c.teacher_uid ≡ some u = (rw (branch_course, named, found) at e) in
              (elem_iff u allowed).0 (rw e' at found)
          | inr missing ↦
              let full = foreign-nonempty forms c.course_name uid in
              let b' = rw (branch_course, named, missing) at b in cc
        ]
  ]

  branch_courses_only-MayCreate :
      (allowed : List ℕ) (courses : List PlannedCourse) (c : PlannedCourse)
      → In c (branch_courses_only forms allowed courses)
      → MayCreate (λ u. In u allowed) c
  unfolding branch_courses_only
  branch_courses_only-MayCreate allowed [] c m = absurd m
  branch_courses_only-MayCreate allowed (d ∷ courses) c (inl e) =
      subst (MayCreate (λ u. In u allowed)) (sym e) (branch_course-MayCreate allowed d)
  branch_courses_only-MayCreate allowed (d ∷ courses) c (inr m) =
      branch_courses_only-MayCreate allowed courses c m

-- A teacher of the session's branch.
abbrev pub OfBranch : {R : Type 0} → Session → Store R → ℕ → Type 0
OfBranch session s u =
    (t : Teacher) × In t s.teachers
    × (t.uid ≡ u)
    × Among t.branch_id (λ b. session.branch_id ≡ some b)

is_manager :
    (role : String)
    → role ≡ "manager"
    → ((role == "owner") ≡ false) × ((role == "manager") ≡ true) × ((role == "teacher") ≡ false)
is_manager role e = rw e (refl, refl, refl)

In-singleton : (o : Option ℕ) (b : ℕ) → In b (singleton o) → o ≡ some b
In-singleton none b m = absurd m
In-singleton (some x) b (inl e) = cc
In-singleton (some x) b (inr m) = absurd m

module _ {R : Type 0} (forms : Forms) (session : Session) (s : Store R) where
  teacher-Checked :
      (courses : List PlannedCourse)
      → session.role ≡ "teacher"
      → (c : PlannedCourse) → In c (enforce_teacher_scope forms session s courses).0
      → MayCreate (λ u. session.teacher_uid ≡ some u) c
  unfolding enforce_teacher_scope
  teacher-Checked courses e c m =
      let teacher : (session.role == "teacher") ≡ true = (==_iff session.role "teacher").1 e in
      own_courses-MayCreate forms session.teacher_uid courses c
        (rw (enforce_teacher_scope, teacher) at m)

  limited : unrestricted (for_branch session.branch_id) ≡ false
  unfolding for_branch unrestricted
  limited = refl

  allowed-OfBranch :
      session.role ≡ "manager"
      → (u : ℕ) → In u (get_or (teacher_uids_in_scope s (scope_for session (some s))) [])
      → OfBranch session s u
  unfolding scope_for for_branch
  allowed-OfBranch e u m =
      let (owner, manager, teacher) = is_manager session.role e in
      let m' : In u (get_or (teacher_uids_in_scope s (for_branch session.branch_id)) []) =
        (rw (scope_for, owner, manager) at m) in
      let seen : TeachesIn s (singleton session.branch_id) u =
        ((teacher_uids_iff s (for_branch session.branch_id) limited u).0 m').0 in
      let (t, listed, found, (b, branch, own)) = seen in
      (t, listed, found, (b, branch, In-singleton session.branch_id b own))

  manager-Checked :
      (courses : List PlannedCourse)
      → session.role ≡ "manager"
      → (c : PlannedCourse) → In c (enforce_teacher_scope forms session s courses).0
      → MayCreate (OfBranch session s) c
  unfolding enforce_teacher_scope
  manager-Checked courses e c m u b t h =
      let (owner, manager, teacher) = is_manager session.role e in
      allowed-OfBranch e u (
        branch_courses_only-MayCreate forms _ courses c
          (rw (enforce_teacher_scope, teacher, manager) at m) u b t h)

module _ {R : Type 0} (clock : Clock) (api : List Call → Call → Answer) (now : String)
    (forms : Forms) (form : Form) (session : Session) (s : Store R) where
  finished-CallsBy :
      (P : ℕ → Type 0) (notes : List String) (f : Flow (Run R))
      → FlowBy P f
      → CallsBy P (finished notes f).0
  finished-CallsBy P notes (go r) h = h
  finished-CallsBy P notes (crash r) h = h

  enforced-CallsBy :
      (P : ℕ → Type 0) (chosen : List PlannedCourse)
      → ((c : PlannedCourse)
          → In c (enforce_teacher_scope forms session s chosen).0
          → MayCreate P c)
      → CallsBy P (enforced clock api now forms form session s chosen).0
  enforced-CallsBy P chosen h =
      finished-CallsBy P _ _ (execute-FlowBy clock api now P _ (start s) h (λ c m. absurd m))

  created-CallsBy :
      (P : ℕ → Type 0) (courses : List PlannedCourse) (o : Option (List PlannedCourse))
      → apply_teacher_overrides forms form 0 courses ≡ o
      → ((chosen : List PlannedCourse) (c : PlannedCourse)
          → In c (enforce_teacher_scope forms session s chosen).0
          → MayCreate P c)
      → CallsBy P (create_execute clock api now forms form (some session) (some courses) s).0
  unfolding create_execute
  created-CallsBy P courses none e h = rw (create_execute, e) (λ c m. absurd m)
  created-CallsBy P courses (some chosen) e h =
      rw (create_execute, e) (enforced-CallsBy P chosen (h chosen))

  -- Whatever the plan and the form of a teacher's request hold and whatever ClassIn answers,
  -- every call that names a teacher names the teacher of the session, also in a request that
  -- ends in a server error.
  pub teacher-create_execute :
      (courses : List PlannedCourse)
      → session.role ≡ "teacher"
      → CallsBy
          (λ u. session.teacher_uid ≡ some u)
          (create_execute clock api now forms form (some session) (some courses) s).0
  teacher-create_execute courses e =
      created-CallsBy (λ u. session.teacher_uid ≡ some u) courses _ refl
        (λ chosen. teacher-Checked forms session s chosen e)

  -- Whatever the plan and the form of a manager's request hold and whatever ClassIn answers,
  -- every call that names a teacher names a teacher in the table whose branch is the session's,
  -- also in a request that ends in a server error.
  pub manager-create_execute :
      (courses : List PlannedCourse)
      → session.role ≡ "manager"
      → CallsBy
          (OfBranch session s)
          (create_execute clock api now forms form (some session) (some courses) s).0
  manager-create_execute courses e =
      created-CallsBy (OfBranch session s) courses _ refl
        (λ chosen. manager-Checked forms session s chosen e)
