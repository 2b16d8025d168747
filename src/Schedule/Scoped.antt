-- ===== src/Schedule/Scoped.antt =====
-- intelligence/schedule_parser.py: a resolved plan names teachers and courses of the scope only.
use api_dashboard.Prelude.{
  ℕ, String, ◌≡◌, refl, ◌⊎◌, inl, inr, true, none, some, List, [], ◌∷◌, map, In, In-map_iff, All,
  All-of_In, subst, sym, ◌∙◌, ap,
}
use api_dashboard.Scope.{Scope, unrestricted}
use api_dashboard.Store.Rows.{Store, Course, Teacher}
use api_dashboard.Store.Queries.{courses, teachers}
use api_dashboard.Store.Visible.{CourseVisible, TeacherVisible}
use api_dashboard.Store.Isolation.Keyed.{courses_iff, teachers_iff}
use api_dashboard.Schedule.{Candidate, ParsedCourse, PlannedCourse, ParsePlan, planned}
use api_dashboard.Schedule.Names.{Similarity}
use api_dashboard.Schedule.Resolve.{
  store_teachers, candidate_of, resolve_course, resolve_one, resolve_all, resolve_entities,
  new_plan,
}
use api_dashboard.Schedule.Resolved.{Known, Answered, Grows, resolve_teacher-Settled}
use api_dashboard.Schedule.Pointed.{resolve_course-Pointed}

-- A course of a resolved plan.
pub record Sound (candidates : List Candidate) (rows : List Course) (course : PlannedCourse)
    (plan : ParsePlan) : Type 0 where
  pub known : (u : ℕ) → course.teacher_uid ≡ some u → Known candidates rows u
  pub pointed :
      (id : ℕ)
      → course.existing_course_id ≡ some id
      → (row : Course) × In row rows × (row.course_id ≡ id)
  pub answered : Answered course plan

Answered-Grows :
    (course : PlannedCourse) (p q : ParsePlan) → Grows p q → Answered course p → Answered course q
Answered-Grows course p q g (inl e) = inl e
Answered-Grows course p q g (inr (e, (question, m, kind, offered))) =
    inr (e, (question, g question m, kind, offered))

Sound-Grows :
    {candidates : List Candidate} {rows : List Course} (course : PlannedCourse) (p q : ParsePlan)
    → Grows p q
    → Sound candidates rows course p
    → Sound candidates rows course q
Sound-Grows course p q g s = record {
  known = s.known;
  pointed = s.pointed;
  answered = Answered-Grows course p q g s.answered;
}

module _ {F : Type 0} (sim : Similarity F) (candidates : List Candidate) (rows : List Course) where
  -- Nothing is resolved yet.
  abbrev pub Fresh : PlannedCourse → Type 0
  Fresh c = (c.teacher_uid ≡ none) × (c.existing_course_id ≡ none)

  resolve_one-Sound :
      (c : PlannedCourse) (plan : ParsePlan)
      → Fresh c
      → Sound candidates rows
          (resolve_one sim rows candidates c plan).0
          (resolve_one sim rows candidates c plan).1
        × Grows plan (resolve_one sim rows candidates c plan).1
  resolve_one-Sound c plan (t, e) =
      let (exists, teacher, same, questions) = resolve_course-Pointed sim rows c plan e in
      let settled =
        resolve_teacher-Settled sim candidates rows (resolve_course sim c rows plan).0.0 _ _ teacher
          (same ∙ t) in
      (
        record {
          known = settled.known;
          pointed = λ id h. exists id (sym settled.kept ∙ h);
          answered = settled.answered;
        },
        λ q m. settled.grows q (subst (λ qs. In q qs) (sym questions) m),
      )

  resolve_all-Sound :
      (cs : List PlannedCourse) (plan : ParsePlan)
      → ((c : PlannedCourse) → In c cs → Fresh c)
      → ((c : PlannedCourse)
          → In c (resolve_all sim rows candidates cs plan).0
          → Sound candidates rows c (resolve_all sim rows candidates cs plan).1)
        × Grows plan (resolve_all sim rows candidates cs plan).1
  unfolding resolve_all
  resolve_all-Sound [] plan fresh = (λ c m. absurd m, λ q m. m)
  resolve_all-Sound (d ∷ cs) plan fresh =
      let (sound, grows) = resolve_one-Sound d plan (fresh d (inl refl)) in
      let last = (resolve_all sim rows candidates (d ∷ cs) plan).1 in
      let (rest, later) = resolve_all-Sound cs _ (λ c m. fresh c (inr m)) in
      (
        λ c m. elim m [
          | inl e ↦
              subst (λ x. Sound candidates rows x last) (sym e) (Sound-Grows _ _ last later sound)
          | inr n ↦ rest c n
        ],
        λ q m. later q (grows q m),
      )

-- The scope is Scope.ALL, or what it restricts is visible.
abbrev pub Open : Scope → Type 0 → Type 0
Open scope V = (unrestricted scope ≡ true) ⊎ V

module _ {R : Type 0} (s : Store R) (scope : Scope) where
  -- A teacher of the scope, or the teacher of a course of the scope.
  abbrev pub OpenTeacher : ℕ → Type 0
  OpenTeacher u =
      ((t : Teacher) × In t s.teachers × (t.uid ≡ u) × Open scope (TeacherVisible s scope u))
      ⊎ ((row : Course) × In row s.courses
          × (row.teacher_uid ≡ some u)
          × Open scope (CourseVisible s scope row.course_id))

  abbrev pub OpenCourse : ℕ → Type 0
  OpenCourse id =
      (row : Course) × In row s.courses
      × (row.course_id ≡ id)
      × Open scope (CourseVisible s scope id)

  module _ {F : Type 0} (sim : Similarity F) where
    known-OpenTeacher :
        (u : ℕ) → Known (store_teachers sim (some s) scope) (courses s scope) u → OpenTeacher u
    unfolding store_teachers
    known-OpenTeacher u (inl (c, m, e)) =
        let (t, listed, same) = (In-map_iff (candidate_of sim) (teachers s scope) c).0 m in
        let (row, seen) = (teachers_iff s scope t).0 listed in
        let uid : t.uid ≡ u = ap (λ (k : Candidate). k.uid) same ∙ e in
        inl (t, row, uid, subst (λ i. Open scope (TeacherVisible s scope i)) uid seen)
    known-OpenTeacher u (inr (row, m, e)) =
        let (listed, seen) = (courses_iff s scope row).0 m in inr (row, listed, e, seen)

    known-OpenCourse :
        (id : ℕ) (row : Course) → In row (courses s scope) → row.course_id ≡ id → OpenCourse id
    known-OpenCourse id row m e =
        let (listed, seen) = (courses_iff s scope row).0 m in
        (row, listed, e, subst (λ i. Open scope (CourseVisible s scope i)) e seen)

    Fresh-planned :
        (cs : List ParsedCourse) (c : PlannedCourse) → In c (map planned cs) → Fresh sim [] [] c
    unfolding planned
    Fresh-planned cs c m =
        let (p, _, e) = (In-map_iff planned cs c).0 m in subst (Fresh sim [] []) e (refl, refl)

    -- A course of a resolved plan.
    pub record InScope (course : PlannedCourse) : Type 0 where
      pub teacher : (u : ℕ) → course.teacher_uid ≡ some u → OpenTeacher u
      pub existing : (id : ℕ) → course.existing_course_id ≡ some id → OpenCourse id

    resolved-Sound :
        (cs : List ParsedCourse) (notes : List String) (source : String) (c : PlannedCourse)
        → In c (resolve_entities sim (new_plan cs notes source) (some s) scope).courses
        → Sound
            (store_teachers sim (some s) scope)
            (courses s scope)
            c
            (resolve_entities sim (new_plan cs notes source) (some s) scope)
    unfolding resolve_entities new_plan
    resolved-Sound cs notes source c m =
        let sound =
          (resolve_all-Sound sim (store_teachers sim (some s) scope) (courses s scope)
              (map planned cs) (new_plan cs notes source) (Fresh-planned cs)).0
            c m in
        record { known = sound.known; pointed = sound.pointed; answered = sound.answered }

    -- In a plan that was made of parsed courses and resolved against a store, the teacher of a
    -- course is a teacher in the table that the scope may see, or the teacher of a course in
    -- the table that it may see, and the existing course of a course is one that it may see.
    pub resolve_entities-InScope :
        (cs : List ParsedCourse) (notes : List String) (source : String)
        → All InScope (resolve_entities sim (new_plan cs notes source) (some s) scope).courses
    resolve_entities-InScope cs notes source = All-of_In _ (λ c m.
        let sound = resolved-Sound cs notes source c m in
        record {
          teacher = λ u h. known-OpenTeacher u (sound.known u h);
          existing =
              λ id h. let (row, listed, e) = sound.pointed id h in known-OpenCourse id row listed e;
        })

    -- In a plan that was made of parsed courses and resolved against a store, each course has a
    -- teacher, or has none and there is a question of kind teacher whose candidates are those
    -- of the course.
    pub resolve_entities-Answered :
        (cs : List ParsedCourse) (notes : List String) (source : String)
        → All
            (λ c. Answered c (resolve_entities sim (new_plan cs notes source) (some s) scope))
            (resolve_entities sim (new_plan cs notes source) (some s) scope).courses
    resolve_entities-Answered cs notes source =
        All-of_In _ (λ c m. (resolved-Sound cs notes source c m).answered)
