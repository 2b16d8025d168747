-- ===== src/Schedule/Resolved.antt =====
-- intelligence/schedule_parser.py: the teacher of a resolved course, and the question about a
-- course without one.
use api_dashboard.Prelude.{
  ℕ, String, ◌≡◌, refl, subst, ◌⊎◌, inl, inr, Option, none, some, List, [], ◌∷◌, cons_some, In,
  In-map_iff, In-keep_iff, In-append_iff, Bool-cases, nonempty, get_or, ◌==◌, nat_eq,
}
use api_dashboard.Store.Rows.{Course}
use api_dashboard.Schedule.{Candidate, PlannedCourse, Question, ParsePlan}
use api_dashboard.Schedule.Names.{Similarity, normalize_teacher_name}
use api_dashboard.Schedule.Resolve.{
  ask, counts, scored, teacher_scores, winners, only_teacher, unnamed_teacher, decided,
  named_teacher, resolve_teacher,
}

-- The uid of a teacher of the list, or of the teacher of a course of the list.
abbrev pub Known : List Candidate → List Course → ℕ → Type 0
Known teachers rows u =
    ((t : Candidate) × In t teachers × (t.uid ≡ u))
    ⊎ ((row : Course) × In row rows × (row.teacher_uid ≡ some u))

-- The course has a teacher, or a question offers its candidates.
abbrev pub Answered : PlannedCourse → ParsePlan → Type 0
Answered course plan =
    ((u : ℕ) × (course.teacher_uid ≡ some u))
    ⊎ ((course.teacher_uid ≡ none)
        × ((q : Question) × In q plan.needs_confirm
            × (q.kind ≡ "teacher")
            × (q.candidates ≡ course.teacher_candidates)))

-- No question is lost.
abbrev pub Grows : ParsePlan → ParsePlan → Type 0
Grows before after = (q : Question) → In q before.needs_confirm → In q after.needs_confirm

ask-Grows :
    (subject : String) (ts : List Candidate) (message : String) (plan : ParsePlan)
    → Grows plan (ask subject ts message plan)
ask-Grows subject ts message plan q m = (In-append_iff plan.needs_confirm _ q).1 (inl m)

-- What a step leaves of a course, of which nothing was resolved.
pub record Settled (teachers : List Candidate) (rows : List Course) (existing : Option ℕ)
    (before : ParsePlan) (course : PlannedCourse) (after : ParsePlan) : Type 0 where
  pub known : (u : ℕ) → course.teacher_uid ≡ some u → Known teachers rows u
  pub answered : Answered course after
  pub kept : course.existing_course_id ≡ existing
  pub grows : Grows before after

In-cons_some :
    {A : Type 0} (o : Option A) (xs : List A) (a : A)
    → In a (cons_some o xs)
    → (o ≡ some a) ⊎ In a xs
In-cons_some none xs a m = inr m
In-cons_some (some b) xs a (inl e) = inl (cc e)
In-cons_some (some b) xs a (inr m) = inr m

module _ {F : Type 0} (sim : Similarity F) (teachers : List Candidate) (rows : List Course) where
  asked-Settled :
      (course : PlannedCourse) (subject : String) (ts : List Candidate) (message : String)
      (plan : ParsePlan)
      → course.teacher_uid ≡ none
      → Settled teachers rows course.existing_course_id plan
          (record course { teacher_candidates = ts })
          (ask subject ts message plan)
  asked-Settled course subject ts message plan e = record {
    known = λ u h. cc;
    kept = refl;
    answered = inr (e, (_, (In-append_iff plan.needs_confirm _ _).1 (inr (inl refl)), refl, refl));
    grows = ask-Grows subject ts message plan;
  }

  only_teacher-Settled :
      (course : PlannedCourse) (ts : List Candidate) (plan : ParsePlan)
      → ((t : Candidate) → In t ts → In t teachers)
      → course.teacher_uid ≡ none
      → Settled teachers rows course.existing_course_id plan
          (only_teacher sim course ts plan).0
          (only_teacher sim course ts plan).1
  only_teacher-Settled course [] plan h e = asked-Settled course _ [] _ plan e
  only_teacher-Settled course (t ∷ []) plan h e = record {
    known = λ u k. inl (t, h t (inl refl), cc k);
    kept = refl;
    answered = inl (t.uid, refl);
    grows = λ q m. m;
  }
  only_teacher-Settled course (t ∷ u ∷ ts) plan h e = asked-Settled course _ (t ∷ u ∷ ts) _ plan e

  decided-Settled :
      (course : PlannedCourse) (name : String) (best : F) (ts : List Candidate) (plan : ParsePlan)
      → ((t : Candidate) → In t ts → In t teachers)
      → course.teacher_uid ≡ none
      → Settled teachers rows course.existing_course_id plan
          (decided sim course name best ts plan).0
          (decided sim course name best ts plan).1
  decided-Settled course name best [] plan h e = asked-Settled course name [] _ plan e
  decided-Settled course name best (t ∷ []) plan h e = record {
    known = λ u k. inl (t, h t (inl refl), cc k);
    kept = refl;
    answered = inl (t.uid, refl);
    grows = elim (Bool-cases (sim.gt (sim.decimal 1 0) best)) [
      | inl b ↦ rw b (λ q m. m)
      | inr b ↦ rw b (λ q m. m)
    ];
  }
  decided-Settled course name best (t ∷ u ∷ ts) plan h e =
      asked-Settled course name (t ∷ u ∷ ts) _ plan e

  scored-of :
      (target : String) (t : Candidate) (e : F × Candidate) → scored sim target t ≡ some e → e.1 ≡ t
  scored-of target t e h = elim (Bool-cases (counts sim target t)) [
    | inl b ↦ cc (rw b at h)
    | inr b ↦ cc (rw b at h)
  ]

  In-teacher_scores :
      (name : String) (ts : List Candidate) (e : F × Candidate)
      → In e (teacher_scores sim name ts)
      → In e.1 ts
  unfolding teacher_scores
  In-teacher_scores name [] e m = absurd m
  In-teacher_scores name (t ∷ ts) e m =
      let target = normalize_teacher_name sim (some name) in
      elim (In-cons_some (scored sim target t) (teacher_scores sim name ts) e m) [
        | inl new ↦ inl (scored-of target t e new)
        | inr old ↦ inr (In-teacher_scores name ts e old)
      ]

  In-winners :
      (best : F) (scores : List (F × Candidate)) (t : Candidate)
      → In t (winners sim best scores)
      → (e : F × Candidate) × In e scores × (e.1 ≡ t)
  In-winners best scores t m =
      let (e, kept, same) = (In-map_iff _ _ t).0 m in (e, ((In-keep_iff _ scores e).0 kept).0, same)

  named_teacher-Settled :
      (course : PlannedCourse) (name : String) (scores : List (F × Candidate)) (plan : ParsePlan)
      → ((e : F × Candidate) → In e scores → In e.1 teachers)
      → course.teacher_uid ≡ none
      → Settled teachers rows course.existing_course_id plan
          (named_teacher sim course name teachers scores plan).0
          (named_teacher sim course name teachers scores plan).1
  named_teacher-Settled course name [] plan h e = asked-Settled course name teachers _ plan e
  named_teacher-Settled course name (first ∷ scores) plan h e =
      decided-Settled course name _ _ plan
        (λ t m.
          let (s, listed, same) = In-winners _ (first ∷ scores) t m in
          subst (λ x. In x teachers) same (h s listed))
        e

  unnamed_teacher-Settled :
      (course : PlannedCourse) (uid : Option ℕ) (plan : ParsePlan)
      → ((u : ℕ) → uid ≡ some u → (row : Course) × In row rows × (row.teacher_uid ≡ some u))
      → course.teacher_uid ≡ none
      → Settled teachers rows course.existing_course_id plan
          (unnamed_teacher sim course teachers uid plan).0
          (unnamed_teacher sim course teachers uid plan).1
  unnamed_teacher-Settled course none plan h e =
      only_teacher-Settled course teachers plan (λ t m. m) e
  unnamed_teacher-Settled course (some n) plan h e = elim (Bool-cases (n == 0)) [
    | inl z ↦ rw z (only_teacher-Settled course teachers plan (λ t m. m) e)
    | inr z ↦ rw z (record {
      known = λ u k. inr (h u (cc k));
      kept = refl;
      answered = inl (n, refl);
      grows = λ q m. m;
    })
  ]

  pub resolve_teacher-Settled :
      (course : PlannedCourse) (uid : Option ℕ) (plan : ParsePlan)
      → ((u : ℕ) → uid ≡ some u → (row : Course) × In row rows × (row.teacher_uid ≡ some u))
      → course.teacher_uid ≡ none
      → Settled teachers rows course.existing_course_id plan
          (resolve_teacher sim course teachers uid plan).0
          (resolve_teacher sim course teachers uid plan).1
  unfolding resolve_teacher
  resolve_teacher-Settled course uid plan h e =
      let name = sim.strip (get_or course.teacher_name "") in
      elim (Bool-cases (nonempty name)) [
        | inl b ↦
            rw b (named_teacher-Settled course name _ plan (In-teacher_scores name teachers) e)
        | inr b ↦ rw b (unnamed_teacher-Settled course uid plan h e)
      ]
