-- ===== src/Create/Calls.antt =====
-- web/routes_create.py: whom the calls of the API name as their teacher.
use api_dashboard.Prelude.{
  ℕ, String, ◌≡◌, refl, inl, inr, Bool, true, false, Option, none, some, List, [], ◌∷◌, truthy,
  nonempty, get_or, In, In-append_iff, Bool-cases, ◌==◌, nat_eq, subst, sym,
}
use api_dashboard.Schedule.{ParsedHomework, ParsedLesson, PlannedCourse}
use api_dashboard.Create.{
  Call, add_course, create_unit, create_classroom, create_activity, Answer, id, no_id, raised,
  refused, Clock, Run, made, Flow, go, crash, ◌>>=◌,
}
use api_dashboard.Create.Courses.{
  homework_saved, activity_answered, create_homework, class_saved, classroom_answered,
  create_lesson, create_lessons, unit_answered, create_units, course_answered, create_course,
  with_teacher, execute_course, execute, identity,
}

-- The teacher that a call names satisfies the predicate; a unit names none.
abbrev pub CallBy : (ℕ → Type 0) → Call → Type 0
CallBy P (add_course name teacher identity) = P teacher
CallBy P (create_unit course name) = Unit
CallBy P (create_classroom course name teacher start finish unit) = P teacher
CallBy P (create_activity course unit name teacher start finish) = P teacher

module _ {R : Type 0} (P : ℕ → Type 0) where
  abbrev pub CallsBy : Run R → Type 0
  CallsBy r = (c : Call) → In c r.calls → CallBy P c

  -- So too where an exception has left the handler.
  abbrev pub FlowBy : Flow (Run R) → Type 0
  FlowBy (go r) = CallsBy r
  FlowBy (crash r) = CallsBy r

  made-CallsBy : (c : Call) (r : Run R) → CallBy P c → CallsBy r → CallsBy (made c r)
  made-CallsBy c r p h d m = elim ((In-append_iff r.calls (c ∷ []) d).0 m) [
    | inl old ↦ h d old
    | inr (inl e) ↦ subst (CallBy P) (sym e) p
    | inr (inr x) ↦ absurd x
  ]

  >>=-FlowBy :
      (m : Flow (Run R)) (f : Run R → Flow (Run R))
      → FlowBy m
      → ((r : Run R) → CallsBy r → FlowBy (f r))
      → FlowBy (m >>= f)
  >>=-FlowBy (go r) f h k = k r h
  >>=-FlowBy (crash r) f h k = h

module _ {R : Type 0} (clock : Clock) (api : List Call → Call → Answer) (now : String)
    (P : ℕ → Type 0) where
  module _ (course : PlannedCourse) (teacher : ℕ) (allowed : P teacher) where
    homework_saved-CallsBy :
        (class_id : Option ℕ) (activity : ℕ) (r : Run R)
        → CallsBy P r
        → CallsBy P (homework_saved clock api now course teacher class_id activity r)
    homework_saved-CallsBy none activity r h = h
    homework_saved-CallsBy (some n) activity r h = elim (Bool-cases (n == 0)) [
      | inl e ↦ rw e h
      | inr e ↦ rw e h
    ]

    activity_answered-FlowBy :
        (hw : ParsedHomework) (class_id : Option ℕ) (a : Answer) (r : Run R)
        → CallsBy P r
        → FlowBy P (activity_answered clock api now course teacher hw class_id a r)
    activity_answered-FlowBy hw class_id (id n) r h = homework_saved-CallsBy class_id n r h
    activity_answered-FlowBy hw class_id (refused m) r h = h
    activity_answered-FlowBy hw class_id no_id r h = h
    activity_answered-FlowBy hw class_id raised r h = h

    create_homework-FlowBy :
        (course_id : ℕ) (lesson : ParsedLesson) (hw : Option ParsedHomework)
        (unit class_id : Option ℕ) (r : Run R)
        → CallsBy P r
        → FlowBy P
            (create_homework clock api now course teacher course_id lesson hw unit class_id r)
    unfolding create_homework
    create_homework-FlowBy course_id lesson none unit class_id r h = h
    create_homework-FlowBy course_id lesson (some hw) none class_id r h = h
    create_homework-FlowBy course_id lesson (some hw) (some unit) class_id r h =
        elim (Bool-cases (unit == 0)) [
          | inl e ↦ rw e h
          | inr e ↦ rw e (activity_answered-FlowBy hw class_id _ _ (made-CallsBy P _ r allowed h))
        ]

    class_saved-CallsBy :
        (course_id : ℕ) (lesson : ParsedLesson) (class_id : Option ℕ) (r : Run R)
        → CallsBy P r
        → CallsBy P (class_saved clock api now course teacher course_id lesson class_id r)
    class_saved-CallsBy course_id lesson none r h = h
    class_saved-CallsBy course_id lesson (some n) r h = elim (Bool-cases (n == 0)) [
      | inl e ↦ rw e h
      | inr e ↦ rw e h
    ]

    classroom_answered-FlowBy :
        (course_id : ℕ) (unit : Option ℕ) (lesson : ParsedLesson) (a : Answer) (r : Run R)
        → CallsBy P r
        → FlowBy P (classroom_answered clock api now course teacher course_id unit lesson a r)
    classroom_answered-FlowBy course_id unit lesson (id n) r h =
        create_homework-FlowBy course_id lesson lesson.homework unit (some n) _
          (class_saved-CallsBy course_id lesson (some n) r h)
    classroom_answered-FlowBy course_id unit lesson no_id r h =
        create_homework-FlowBy course_id lesson lesson.homework unit none _ h
    classroom_answered-FlowBy course_id unit lesson (refused m) r h = h
    classroom_answered-FlowBy course_id unit lesson raised r h = h

    create_lessons-FlowBy :
        (course_id : ℕ) (unit : Option ℕ) (lessons : List ParsedLesson) (r : Run R)
        → CallsBy P r
        → FlowBy P (create_lessons clock api now course teacher course_id unit lessons r)
    unfolding create_lessons create_lesson
    create_lessons-FlowBy course_id unit [] r h = h
    create_lessons-FlowBy course_id unit (lesson ∷ lessons) r h =
        >>=-FlowBy P _ _
          (classroom_answered-FlowBy course_id unit lesson _ _ (made-CallsBy P _ r allowed h))
          (create_lessons-FlowBy course_id unit lessons)

    unit_answered-FlowBy :
        (course_id : ℕ) (a : Answer) (r : Run R)
        → CallsBy P r
        → FlowBy P (unit_answered clock api now course teacher course_id a r)
    unit_answered-FlowBy course_id (id n) r h =
        create_lessons-FlowBy course_id (some n) course.lessons r h
    unit_answered-FlowBy course_id (refused m) r h =
        create_lessons-FlowBy course_id none course.lessons _ h
    unit_answered-FlowBy course_id no_id r h = h
    unit_answered-FlowBy course_id raised r h = h

    fill_course-FlowBy :
        (course_id : ℕ) (lessons : List ParsedLesson) (r : Run R)
        → CallsBy P r
        → FlowBy P (create_units clock api now course teacher course_id lessons r)
    unfolding create_units
    fill_course-FlowBy course_id [] r h = h
    fill_course-FlowBy course_id (first ∷ lessons) r h =
        unit_answered-FlowBy course_id _ _ (made-CallsBy P _ r tt h)

    course_answered-FlowBy :
        (a : Answer) (r : Run R)
        → CallsBy P r
        → FlowBy P (course_answered clock api now course teacher a r)
    course_answered-FlowBy (id n) r h = fill_course-FlowBy n course.lessons _ h
    course_answered-FlowBy (refused m) r h = h
    course_answered-FlowBy no_id r h = h
    course_answered-FlowBy raised r h = h

    create_course-FlowBy :
        (existing : Option ℕ) (r : Run R)
        → CallsBy P r
        → FlowBy P (create_course clock api now course teacher existing r)
    unfolding create_course
    create_course-FlowBy existing r h = elim (Bool-cases (truthy existing)) [
      | inl e ↦ rw e (fill_course-FlowBy (get_or existing 0) course.lessons _ h)
      | inr e ↦ rw e (course_answered-FlowBy _ _ (made-CallsBy P _ r allowed h))
    ]

-- The course is blocked.
abbrev pub blocked : PlannedCourse → Bool
blocked c = elim c.blocked_reason [ none ↦ false | some reason ↦ nonempty reason ]

-- The teacher of the course, where it is not blocked and names one, satisfies the predicate.
abbrev pub MayCreate : (ℕ → Type 0) → PlannedCourse → Type 0
MayCreate P c =
    (u : ℕ) → blocked c ≡ false → truthy c.teacher_uid ≡ true → c.teacher_uid ≡ some u → P u

truthy-some : (o : Option ℕ) → truthy o ≡ true → o ≡ some (get_or o 0)
truthy-some none h = cc
truthy-some (some n) h = refl

module _ {R : Type 0} (clock : Clock) (api : List Call → Call → Answer) (now : String)
    (P : ℕ → Type 0) where
  with_teacher-FlowBy :
      (c : PlannedCourse) (uid : Option ℕ) (r : Run R)
      → ((u : ℕ) → truthy uid ≡ true → uid ≡ some u → P u)
      → CallsBy P r
      → FlowBy P (with_teacher clock api now c uid r)
  with_teacher-FlowBy c uid r p h = elim (Bool-cases (truthy uid)) [
    | inl e ↦
        let found = truthy-some uid e in
        rw e (
          create_course-FlowBy clock api now P c (get_or uid 0) (p (get_or uid 0) e found)
            c.existing_course_id r h)
    | inr e ↦ rw e h
  ]

  execute_course-FlowBy :
      (c : PlannedCourse) (reason : Option String) (r : Run R)
      → c.blocked_reason ≡ reason
      → MayCreate P c
      → CallsBy P r
      → FlowBy P (execute_course clock api now c r)
  unfolding execute_course
  execute_course-FlowBy c none r e p h =
      rw (e, execute_course) (with_teacher-FlowBy c c.teacher_uid r (λ u. p u (rw e refl)) h)
  execute_course-FlowBy c (some reason) r e p h = elim (Bool-cases (nonempty reason)) [
    | inl b ↦ rw (e, execute_course, b) h
    | inr b ↦
        rw (e, execute_course, b)
          (with_teacher-FlowBy c c.teacher_uid r (λ u. p u (rw (e, b) refl)) h)
  ]

  pub execute-FlowBy :
      (courses : List PlannedCourse) (r : Run R)
      → ((c : PlannedCourse) → In c courses → MayCreate P c)
      → CallsBy P r
      → FlowBy P (execute clock api now courses r)
  unfolding execute
  execute-FlowBy [] r p h = h
  execute-FlowBy (c ∷ courses) r p h =
      >>=-FlowBy P _ _ (execute_course-FlowBy c c.blocked_reason r refl (p c (inl refl)) h)
        (λ s k. execute-FlowBy courses s (λ d m. p d (inr m)) k)
