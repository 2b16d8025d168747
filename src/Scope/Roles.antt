-- ===== src/Scope/Roles.antt =====
-- scope.py: what the sessions of each role may see.
use api_dashboard.Prelude.{
  ℕ, String, ◌≡◌, ◌≢◌, refl, ◌↔◌, inl, inr, true, false, Option, none, some, [], In, arith,
  Bool-cases, ◌==◌, ==_iff, nat_eq, string_eq,
}
use api_dashboard.Session.{Session}
use api_dashboard.Scope.{Scope, unrestricted, for_branch, for_teacher}
use api_dashboard.Scope.Derive.{branch_exists, owner_scope, scope_for}
use api_dashboard.Store.Rows.{Store, LessonRecord, Course, Student, Teacher, Lesson}
use api_dashboard.Store.Access.{Filter, lesson_records}
use api_dashboard.Store.Queries.{courses, students, teachers, lessons}
use api_dashboard.Store.Visible.{TaughtBy, InBranches, CourseVisible, TeacherVisible}
use api_dashboard.Store.Isolation.{RowVisible, lesson_records_iff, lessons_iff}
use api_dashboard.Store.Isolation.Keyed.{courses_iff, students_iff, teachers_iff}

-- The session has no part of the school: a manager with no branch, a teacher with no uid, or a role
-- that the program does not know.
pub data Homeless (session : Session) : Type 0 where
  manager : session.role ≡ "manager" → session.branch_id ≡ none → Homeless session
  teacher : session.role ≡ "teacher" → session.teacher_uid ≡ none → Homeless session
  unknown :
      session.role ≢ "owner"
      → session.role ≢ "manager"
      → session.role ≢ "teacher"
      → Homeless session

ne-false : (a b : String) → a ≢ b → (a == b) ≡ false
ne-false a b h = ground (arith, ==_iff a b)

module _ {R : Type 0} (s : Store R) where
  unrestricted-owner_scope_iff :
      (picked : Option ℕ)
      → (unrestricted (owner_scope picked (some s)) ≡ true)
        ↔ ((b : ℕ) → picked ≡ some b → branch_exists s b ≡ false)
  unfolding owner_scope unrestricted for_branch
  unrestricted-owner_scope_iff none = (λ h b e. cc, λ h. refl)
  unrestricted-owner_scope_iff (some b) = (λ h c e. ground arith, λ h. rw (h b refl))

  -- The scope of a session is unrestricted exactly if the role is owner and there is no branch
  -- picked, or the picked one is no longer in the table.
  pub unrestricted-scope_for_iff :
      (session : Session)
      → (unrestricted (scope_for session (some s)) ≡ true) ↔ (
          (session.role ≡ "owner")
          × ((b : ℕ) → session.branch_filter ≡ some b → branch_exists s b ≡ false))
  unfolding scope_for unrestricted for_branch for_teacher
  unrestricted-scope_for_iff session =
      let is_owner = ==_iff session.role "owner" in
      let picked = unrestricted-owner_scope_iff session.branch_filter in
      elim (Bool-cases (session.role == "owner")) [
        | inl o ↦ (
          λ h. (is_owner.0 o, picked.0 (unfold unrestricted in ground arith)),
          λ h. rw (o, scope_for) (picked.1 h.1),
        )
        | inr o ↦ (λ h. absurd (unfold unrestricted in ground arith), λ h. cc (is_owner.1 h.0))
      ]

  empty_branch : (id : ℕ) → ¬ InBranches s [] id
  empty_branch id (inl (c, _, _, (_, _, m))) = m
  empty_branch id (inr (inl (c, _, _, (u, _, (t, _, _, (_, _, m)))))) = m
  empty_branch id (inr (inr (r, _, _, (u, _, (t, _, _, (_, _, m)))))) = m

  empty_teachers : (id : ℕ) → ¬ TaughtBy s (λ u. In u []) id
  empty_teachers id (inl (c, _, _, (_, _, m))) = m
  empty_teachers id (inr (r, _, _, (_, _, m))) = m

  -- No course, no teacher and no row can be visible.
  record IsBlind (scope : Scope) : Type 0 where
    no_course : (id : ℕ) → ¬ CourseVisible s scope id
    no_teacher : (u : ℕ) → ¬ TeacherVisible s scope u
    limited : unrestricted scope ≡ false

  for_branch-none-IsBlind : IsBlind (for_branch none)
  unfolding for_branch unrestricted
  for_branch-none-IsBlind = record {
    no_course = λ id h. empty_branch id h.0;
    no_teacher = λ u (h, _). h.3.2;
    limited = refl;
  }

  for_teacher-none-IsBlind : IsBlind (for_teacher none)
  unfolding for_teacher unrestricted
  for_teacher-none-IsBlind = record {
    no_course = λ id h. empty_teachers id h.1;
    no_teacher = λ u h. h.1;
    limited = refl;
  }

  homeless-IsBlind : (session : Session) → Homeless session → IsBlind (scope_for session (some s))
  unfolding scope_for
  homeless-IsBlind session (manager r b) = rw (r, b, scope_for) for_branch-none-IsBlind
  homeless-IsBlind session (teacher r u) = rw (r, u, scope_for) for_teacher-none-IsBlind
  homeless-IsBlind session (unknown o m t) =
      rw (ne-false _ _ o, scope_for, ne-false _ _ m, ne-false _ _ t) for_branch-none-IsBlind

  -- Nothing is given to the reader, whatever the filters.
  pub record SeesNothing (scope : Scope) : Type 0 where
    pub no_records : (f : Filter) (r : LessonRecord R) → ¬ In r (lesson_records s scope f)
    pub no_lessons : (c : Option ℕ) (l : Lesson) → ¬ In l (lessons s scope c)
    pub no_courses : (c : Course) → ¬ In c (courses s scope)
    pub no_students : (x : Student) → ¬ In x (students s scope)
    pub no_teachers : (t : Teacher) → ¬ In t (teachers s scope)

  no_row : (scope : Scope) → IsBlind scope → (c t : Option ℕ) → ¬ RowVisible s scope c t
  no_row scope b c t (inl e) = cc b.limited
  no_row scope b c t (inr (inl (id, _, v))) = b.no_course id v
  no_row scope b c t (inr (inr (u, _, v))) = b.no_teacher u v

  IsBlind-SeesNothing : (scope : Scope) → IsBlind scope → SeesNothing scope
  IsBlind-SeesNothing scope b = record {
    no_records =
        λ f r m. no_row scope b r.course_id r.teacher_uid ((lesson_records_iff s scope f r).0 m).2;
    no_lessons =
        λ c l m. no_row scope b l.course_id l.teacher_uid ((lessons_iff s scope c l).0 m).2;
    no_courses = λ c m. elim ((courses_iff s scope c).0 m).1 [
      | inl e ↦ cc b.limited
      | inr v ↦ b.no_course c.course_id v
    ];
    no_students = λ x m. elim ((students_iff s scope x).0 m).1 [
      | inl e ↦ cc b.limited
      | inr (r, _, _, v) ↦ no_row scope b r.course_id r.teacher_uid v
    ];
    no_teachers = λ t m. elim ((teachers_iff s scope t).0 m).1 [
      | inl e ↦ cc b.limited
      | inr v ↦ b.no_teacher t.uid v
    ];
  }

  -- A session with no part of the school (a manager with no branch, a teacher with no uid, a
  -- role that is none of the three) is given no lesson record, lesson, course, student or
  -- teacher, whatever the filters.
  pub homeless-SeesNothing :
      (session : Session) → Homeless session → SeesNothing (scope_for session (some s))
  homeless-SeesNothing session h = IsBlind-SeesNothing _ (homeless-IsBlind session h)
