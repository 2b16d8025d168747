-- ===== src/Store/Visible.antt =====
-- What a scope lets a reader see, stated of the tables and not of the code: a teacher belongs to a
-- branch, a course belongs to a branch or is taught by a teacher. The sets that the queries build
-- are compared with it.
use api_dashboard.Prelude.{
  ℕ, ◌≡◌, refl, ◌↔◌, ◌⊎◌, inl, inr, true, false, Option, none, some, List, [], ◌∷◌, In, map, keep,
  In-map_iff, In-keep_iff, In-append_iff, In-collect_iff, In-sort_iff, elem, elem_iff, elem_opt,
  elem_opt_iff, get_or, arith, map_option, is_some, ◌||◌, nat_eq,
}
use api_dashboard.Scope.{Scope, unrestricted}
use api_dashboard.Store.Rows.{Store, LessonRecord, Course, Teacher}
use api_dashboard.Store.Access.{
  meet, all_courses, all_teachers, branch_teachers, teacher_uids_in_scope, course_ids_taught_by,
  teacher_courses, branch_courses, course_ids_in_scope, teacher_leb,
}

-- The value is there and satisfies the predicate.
abbrev pub Among : Option ℕ → (ℕ → Type 0) → Type 0
Among o P = (a : ℕ) × (o ≡ some a) × P a

-- What holds of the set, if the scope names one.
abbrev pub WhereNamed : Option (List ℕ) → (List ℕ → Type 0) → Type 0
WhereNamed none P = Unit
WhereNamed (some xs) P = P xs

module _ {R : Type 0} (s : Store R) where
  -- A teacher of one of the branches has this uid.
  abbrev pub TeachesIn : List ℕ → ℕ → Type 0
  TeachesIn bs u = (t : Teacher) × In t s.teachers × (t.uid ≡ u) × Among t.branch_id (λ b. In b bs)

  -- The course is assigned to such a teacher, or has a lesson record of one.
  abbrev pub TaughtBy : (ℕ → Type 0) → ℕ → Type 0
  TaughtBy P id =
      ((c : Course) × In c s.courses × (c.course_id ≡ id) × Among c.teacher_uid P)
      ⊎ ((r : LessonRecord R) × In r s.lesson_records
          × (r.course_id ≡ some id)
          × Among r.teacher_uid P)

  -- The course is assigned to one of the branches, or taught by one of their teachers.
  abbrev pub InBranches : List ℕ → ℕ → Type 0
  InBranches bs id =
      ((c : Course) × In c s.courses × (c.course_id ≡ id) × Among c.branch_id (λ b. In b bs))
      ⊎ TaughtBy (TeachesIn bs) id

  abbrev pub CourseVisible : Scope → ℕ → Type 0
  CourseVisible scope id =
      WhereNamed scope.branch_ids (λ bs. InBranches bs id)
      × WhereNamed scope.teacher_uids (λ us. TaughtBy (λ u. In u us) id)

  abbrev pub TeacherVisible : Scope → ℕ → Type 0
  TeacherVisible scope u =
      WhereNamed scope.branch_ids (λ bs. TeachesIn bs u)
      × WhereNamed scope.teacher_uids (λ us. In u us)

  branch_teachers_iff : (bs : List ℕ) (u : ℕ) → In u (branch_teachers s bs) ↔ TeachesIn bs u
  unfolding all_teachers
  branch_teachers_iff bs u = (
    λ h.
        let (t, kept, e) = (In-map_iff _ _ u).0 h in
        let (m, b) = (In-keep_iff _ _ t).0 kept in
        (t, (In-sort_iff teacher_leb s.teachers t).0 m, e, (elem_opt_iff t.branch_id bs).0 b),
    λ (t, m, e, b). (In-map_iff _ _ u).1 (
      t,
      (In-keep_iff _ _ t).1
          ((In-sort_iff teacher_leb s.teachers t).1 m, (elem_opt_iff t.branch_id bs).1 b),
      e,
    ),
  )

  taught_iff :
      (us : List ℕ) (id : ℕ)
      → In id (course_ids_taught_by s us) ↔ (
          (r : LessonRecord R) × In r s.lesson_records
          × (r.course_id ≡ some id)
          × Among r.teacher_uid (λ u. In u us))
  unfolding course_ids_taught_by
  taught_iff [] id = (λ h. absurd h, λ h. h.3.2)
  taught_iff (u ∷ us) id = (
    λ h.
        let (r, m, e) = (In-collect_iff _ _ id).0 h in
        let mine : elem_opt r.teacher_uid (u ∷ us) ≡ true = ground arith in
        (r, m, ground arith, (elem_opt_iff r.teacher_uid (u ∷ us)).0 mine),
    λ (r, m, e, t).
        (In-collect_iff _ _ id).1 (r, m, rw ((elem_opt_iff r.teacher_uid (u ∷ us)).1 t) e),
  )

  assigned_iff :
      (field : Course → Option ℕ) (xs : List ℕ) (id : ℕ)
      → In id (
          map
            (λ (c : Course). c.course_id)
            (keep (λ (c : Course). elem_opt (field c) xs) (all_courses s)))
        ↔ ((c : Course) × In c s.courses × (c.course_id ≡ id) × Among (field c) (λ a. In a xs))
  unfolding all_courses
  assigned_iff field xs id = (
    λ h.
        let (c, kept, e) = (In-map_iff _ _ id).0 h in
        let (m, b) = (In-keep_iff _ _ c).0 kept in
        (c, (In-sort_iff _ s.courses c).0 m, e, (elem_opt_iff (field c) xs).0 b),
    λ (c, m, e, b). (In-map_iff _ _ id).1 (
      c,
      (In-keep_iff _ _ c).1 ((In-sort_iff _ s.courses c).1 m, (elem_opt_iff (field c) xs).1 b),
      e,
    ),
  )

  teacher_courses_iff :
      (us : List ℕ) (id : ℕ) → In id (teacher_courses s us) ↔ TaughtBy (λ u. In u us) id
  teacher_courses_iff us id =
      let split = In-append_iff _ (course_ids_taught_by s us) id in
      let named = assigned_iff (λ c. c.teacher_uid) us id in
      let taught = taught_iff us id in
      (
        λ h. elim (split.0 h) [ inl m ↦ inl (named.0 m) | inr m ↦ inr (taught.0 m) ],
        λ h. elim h [ inl m ↦ split.1 (inl (named.1 m)) | inr m ↦ split.1 (inr (taught.1 m)) ],
      )

  -- A weaker condition on the teacher is met by the same courses.
  TaughtBy-mono :
      (P Q : ℕ → Type 0) → ((u : ℕ) → P u → Q u) → (id : ℕ) → TaughtBy P id → TaughtBy Q id
  TaughtBy-mono P Q f id (inl (c, m, e, (u, t, p))) = inl (c, m, e, (u, t, f u p))
  TaughtBy-mono P Q f id (inr (r, m, e, (u, t, p))) = inr (r, m, e, (u, t, f u p))

  branch_courses_iff : (bs : List ℕ) (id : ℕ) → In id (branch_courses s bs) ↔ InBranches bs id
  unfolding teacher_uids_in_scope
  branch_courses_iff bs id =
      let us = branch_teachers s bs in
      let split = In-append_iff _ (teacher_courses s us) id in
      let named = assigned_iff (λ c. c.branch_id) bs id in
      let taught = teacher_courses_iff us id in
      let narrow = λ (u : ℕ) (h : In u us). (branch_teachers_iff bs u).0 h in
      let widen = λ (u : ℕ) (h : TeachesIn bs u). (branch_teachers_iff bs u).1 h in
      (
        λ h. elim (split.0 h) [
          | inl m ↦ inl (named.0 m)
          | inr m ↦ inr (TaughtBy-mono (λ u. In u us) (TeachesIn bs) narrow id (taught.0 m))
        ],
        λ h. elim h [
          | inl m ↦ split.1 (inl (named.1 m))
          | inr m ↦
              split.1 (inr (taught.1 (TaughtBy-mono (TeachesIn bs) (λ u. In u us) widen id m)))
        ],
      )

-- Both of the sets that a scope names hold the members of the set that the code computes.
meet_iff :
    (f g : List ℕ → List ℕ) (o p : Option (List ℕ)) (x : ℕ)
    → (is_some o || is_some p) ≡ true
    → In x (get_or (meet (map_option f o) (map_option g p)) [])
      ↔ (WhereNamed o (λ xs. In x (f xs)) × WhereNamed p (λ ys. In x (g ys)))
unfolding meet
meet_iff f g none none x h = cc
meet_iff f g none (some ys) x h = (λ m. (tt, m), λ m. m.1)
meet_iff f g (some xs) none x h = (λ m. (m, tt), λ m. m.0)
meet_iff f g (some xs) (some ys) x h =
    let kept = In-keep_iff (λ y. elem y (g ys)) (f xs) x in
    (
      λ m. let (n, e) = kept.0 m in (n, (elem_iff x (g ys)).0 e),
      λ m. kept.1 (m.0, (elem_iff x (g ys)).1 m.1),
    )

map_option_id : (o : Option (List ℕ)) → map_option (λ xs. xs) o ≡ o
map_option_id none = refl
map_option_id (some xs) = refl

WhereNamed_iff :
    (o : Option (List ℕ)) (P Q : List ℕ → Type 0)
    → ((xs : List ℕ) → P xs ↔ Q xs)
    → WhereNamed o P ↔ WhereNamed o Q
WhereNamed_iff none P Q f = (λ h. h, λ h. h)
WhereNamed_iff (some xs) P Q f = f xs

restricted :
    (scope : Scope)
    → unrestricted scope ≡ false
    → (is_some scope.branch_ids || is_some scope.teacher_uids) ≡ true
unfolding unrestricted
restricted scope h = ground arith

module _ {R : Type 0} (s : Store R) (scope : Scope) (h : unrestricted scope ≡ false) where
  pub course_ids_iff :
      (id : ℕ) → In id (get_or (course_ids_in_scope s scope) []) ↔ CourseVisible s scope id
  unfolding course_ids_in_scope
  course_ids_iff id = rw h (
      let both =
        meet_iff (branch_courses s) (teacher_courses s) scope.branch_ids scope.teacher_uids id
          (restricted scope h) in
      let bs = WhereNamed_iff scope.branch_ids _ _ (λ xs. branch_courses_iff s xs id) in
      let us = WhereNamed_iff scope.teacher_uids _ _ (λ xs. teacher_courses_iff s xs id) in
      (λ m. let (a, b) = both.0 m in (bs.0 a, us.0 b), λ m. both.1 (bs.1 m.0, us.1 m.1)))

  pub teacher_uids_iff :
      (u : ℕ) → In u (get_or (teacher_uids_in_scope s scope) []) ↔ TeacherVisible s scope u
  unfolding teacher_uids_in_scope
  teacher_uids_iff u = rw h (
      let both = rw map_option_id at (
        meet_iff (branch_teachers s) (λ us. us) scope.branch_ids scope.teacher_uids u
          (restricted scope h)) in
      let bs = WhereNamed_iff scope.branch_ids _ _ (λ xs. branch_teachers_iff s xs u) in
      (λ m. let (a, b) = both.0 m in (bs.0 a, b), λ m. both.1 (bs.1 m.0, m.1)))
