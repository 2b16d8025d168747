-- ===== src/Store/Isolation/Keyed.antt =====
-- store.py: the courses, teachers and students that a scope is given are those that it may see.
use api_dashboard.Prelude.{
  ℕ, ◌≡◌, refl, ◌≢◌, ◌↔◌, ◌⊎◌, inl, inr, true, false, Option, none, some, List, [], map, In,
  In-keep_iff, In-sort_iff, In-map_iff, elem, elem_iff, get_or, arith, Bool-cases, nat_eq,
}
use api_dashboard.Scope.{Scope, unrestricted}
use api_dashboard.Store.Rows.{Store, LessonRecord, Student, Course, Teacher}
use api_dashboard.Store.Access.{
  no_filter, selected, lesson_records, course_ids_in_scope, teacher_uids_in_scope,
  student_uids_in_scope, all_courses, all_teachers,
}
use api_dashboard.Store.Queries.{allowed, students, courses, teachers, all_students}
use api_dashboard.Store.Visible.{CourseVisible, TeacherVisible, course_ids_iff, teacher_uids_iff}
use api_dashboard.Store.Isolation.{RowVisible, lesson_records_iff}

-- Under Scope.ALL every row; else the rows with a visible key.
allowed_iff :
    {A : Type 0} (key : A → ℕ) (U : Type 0) (V : ℕ → Type 0) (ids : Option (List ℕ)) (rows : List A)
    → (ids ≡ none) ↔ U
    → ((k : ℕ) → ids ≢ none → In k (get_or ids []) ↔ V k)
    → (a : A) → In a (allowed key ids rows) ↔ (In a rows × (U ⊎ V (key a)))
allowed_iff key U V none rows u f a = (λ m. (m, inl (u.0 refl)), λ m. m.0)
allowed_iff key U V (some xs) rows u f a =
    let kept = In-keep_iff (λ r. elem (key r) xs) rows a in
    let seen = f (key a) (λ e. cc) in
    (
      λ m. let (n, e) = kept.0 m in (n, inr (seen.0 ((elem_iff (key a) xs).0 e))),
      λ (n, v).
          kept.1 (n, elim v [ inl e ↦ cc (u.1 e) | inr w ↦ (elem_iff (key a) xs).1 (seen.1 w) ]),
    )

module _ {R : Type 0} (s : Store R) (scope : Scope) where
  restricted_of_ne :
      {A : Type 0} {o : Option A}
      → (o ≡ none) ↔ (unrestricted scope ≡ true)
      → o ≢ none
      → unrestricted scope ≡ false
  restricted_of_ne u h = elim (Bool-cases (unrestricted scope)) [
    | inl e ↦ absurd (h (u.1 e))
    | inr e ↦ e
  ]

  course_ids-none_iff : (course_ids_in_scope s scope ≡ none) ↔ (unrestricted scope ≡ true)
  unfolding course_ids_in_scope
  course_ids-none_iff = (λ h. ground arith, λ h. rw h)

  teacher_uids-none_iff : (teacher_uids_in_scope s scope ≡ none) ↔ (unrestricted scope ≡ true)
  unfolding teacher_uids_in_scope
  teacher_uids-none_iff = (λ h. ground arith, λ h. rw h)

  student_uids-none_iff : (student_uids_in_scope s scope ≡ none) ↔ (unrestricted scope ≡ true)
  unfolding student_uids_in_scope
  student_uids-none_iff = (λ h. ground arith, λ h. rw h)

  -- A course is read under a scope exactly if it is in the table and the scope is ALL or the
  -- course is visible: it is assigned to a branch of the scope or taught by one of its
  -- teachers, in the table or by a lesson record, whether or not the course itself is assigned
  -- to a branch.
  pub courses_iff :
      (c : Course)
      → In c (courses s scope)
        ↔ (In c s.courses × ((unrestricted scope ≡ true) ⊎ CourseVisible s scope c.course_id))
  unfolding courses all_courses
  courses_iff c =
      let sorted = In-sort_iff _ s.courses c in
      let shown =
        allowed_iff (λ (d : Course). d.course_id) _ (CourseVisible s scope)
          (course_ids_in_scope s scope) (all_courses s) course_ids-none_iff
          (λ k h. course_ids_iff s scope (restricted_of_ne course_ids-none_iff h) k) c in
      (λ m. let (n, v) = shown.0 m in (sorted.0 n, v), λ (n, v). shown.1 (sorted.1 n, v))

  -- A teacher is read under a scope exactly if it is in the table and the scope is ALL or the
  -- teacher is visible: of a branch of the scope, and named by it where it names teachers.
  pub teachers_iff :
      (t : Teacher)
      → In t (teachers s scope)
        ↔ (In t s.teachers × ((unrestricted scope ≡ true) ⊎ TeacherVisible s scope t.uid))
  unfolding teachers all_teachers
  teachers_iff t =
      let sorted = In-sort_iff _ s.teachers t in
      let shown =
        allowed_iff (λ (u : Teacher). u.uid) _ (TeacherVisible s scope)
          (teacher_uids_in_scope s scope) (all_teachers s) teacher_uids-none_iff
          (λ k h. teacher_uids_iff s scope (restricted_of_ne teacher_uids-none_iff h) k) t in
      (λ m. let (n, v) = shown.0 m in (sorted.0 n, v), λ (n, v). shown.1 (sorted.1 n, v))

  -- A student is visible by a visible lesson record.
  abbrev pub StudentVisible : ℕ → Type 0
  StudentVisible uid =
      (r : LessonRecord R) × In r s.lesson_records
      × (r.student_uid ≡ uid)
      × RowVisible s scope r.course_id r.teacher_uid

  selected-no_filter : (r : LessonRecord R) → selected no_filter r ≡ true
  unfolding selected
  selected-no_filter r = refl

  pub student_uids-some :
      unrestricted scope ≡ false
      → student_uids_in_scope s scope
        ≡ some (map (λ (r : LessonRecord R). r.student_uid) (lesson_records s scope no_filter))
  unfolding student_uids_in_scope
  student_uids-some h = rw h

  pub student_uids_iff :
      (uid : ℕ)
      → unrestricted scope ≡ false
      → In uid (get_or (student_uids_in_scope s scope) []) ↔ StudentVisible uid
  student_uids_iff uid h =
      let image =
        In-map_iff (λ (r : LessonRecord R). r.student_uid) (lesson_records s scope no_filter) uid in
      rw (student_uids-some h) (
        λ m.
            let (r, n, e) = image.0 m in
            let (k, _, v) = (lesson_records_iff s scope no_filter r).0 n in (r, k, e, v),
        λ (r, k, e, v).
            image.1 (r, (lesson_records_iff s scope no_filter r).1 (k, selected-no_filter r, v), e),
      )

  -- A student is read under a scope exactly if it is in the table and the scope is ALL or a
  -- lesson record that the scope may see is of that student.
  pub students_iff :
      (x : Student)
      → In x (students s scope)
        ↔ (In x s.students × ((unrestricted scope ≡ true) ⊎ StudentVisible x.uid))
  unfolding students all_students
  students_iff x =
      let sorted = In-sort_iff _ s.students x in
      let shown =
        allowed_iff (λ (y : Student). y.uid) _ StudentVisible (student_uids_in_scope s scope)
          (all_students s) student_uids-none_iff
          (λ k h. student_uids_iff k (restricted_of_ne student_uids-none_iff h)) x in
      (λ m. let (n, v) = shown.0 m in (sorted.0 n, v), λ (n, v). shown.1 (sorted.1 n, v))
