-- ===== src/Store/Isolation.antt =====
-- store.py: every read of rows gives exactly those that the scope may see.
pub mod Keyed
use api_dashboard.Prelude.{
  ℕ, ◌≡◌, refl, ◌≢◌, ◌↔◌, ◌⊎◌, inl, inr, Bool, true, false, Option, none, some, List, [], map, In,
  In-keep_iff, In-sort_iff, In-map_iff, In-reverse_iff, In-take, elem, elem_iff, elem_opt,
  elem_opt_iff, get_or, arith, Bool-cases, ◌||◌, nat_eq,
}
use api_dashboard.Scope.{Scope, unrestricted}
use api_dashboard.Store.Rows.{Store, Event, LessonRecord, Student, Course, Lesson, Teacher}
use api_dashboard.Store.Access.{
  Filter, no_filter, selected, equals, scope_keys, row_in_scope, lesson_records,
  course_ids_in_scope, teacher_uids_in_scope, student_uids_in_scope, all_courses, all_teachers,
}
use api_dashboard.Store.Queries.{
  EventFilter, event_selected, allowed, events, students, courses, teachers, lessons, all_students,
}
use api_dashboard.Store.Visible.{
  Among, CourseVisible, TeacherVisible, course_ids_iff, teacher_uids_iff,
}

-- The scope is ALL, or the row's course or its teacher is visible.
abbrev pub RowVisible : {R : Type 0} → Store R → Scope → Option ℕ → Option ℕ → Type 0
RowVisible s scope course_id teacher_uid =
    (unrestricted scope ≡ true)
    ⊎ Among course_id (CourseVisible s scope)
    ⊎ Among teacher_uid (TeacherVisible s scope)

Among_iff : (P Q : ℕ → Type 0) → ((a : ℕ) → P a ↔ Q a) → (o : Option ℕ) → Among o P ↔ Among o Q
Among_iff P Q f o = (λ (a, e, p). (a, e, (f a).0 p), λ (a, e, q). (a, e, (f a).1 q))

Bool-or_iff : (a b : Bool) → ((a || b) ≡ true) ↔ ((a ≡ true) ⊎ (b ≡ true))
Bool-or_iff a b = (λ h. ground arith, λ h. ground arith)

module _ {R : Type 0} (s : Store R) (scope : Scope) where
  restricted_row_iff :
      (c t : Option ℕ)
      → unrestricted scope ≡ false
      → (row_in_scope c t (scope_keys s scope) ≡ true)
        ↔ (Among c (CourseVisible s scope) ⊎ Among t (TeacherVisible s scope))
  unfolding row_in_scope scope_keys
  restricted_row_iff c t h =
      let split =
        Bool-or_iff (elem_opt c (get_or (course_ids_in_scope s scope) []))
          (elem_opt t (get_or (teacher_uids_in_scope s scope) [])) in
      let cs = elem_opt_iff c (get_or (course_ids_in_scope s scope) []) in
      let ts = elem_opt_iff t (get_or (teacher_uids_in_scope s scope) []) in
      let cv = Among_iff _ (CourseVisible s scope) (course_ids_iff s scope h) c in
      let tv = Among_iff _ (TeacherVisible s scope) (teacher_uids_iff s scope h) t in
      rw (h, row_in_scope)
        (
          λ m. elim (split.0 m) [ inl x ↦ inl (cv.0 (cs.0 x)) | inr x ↦ inr (tv.0 (ts.0 x)) ],
          λ m. split.1 (elim m [ inl x ↦ inl (cs.1 (cv.1 x)) | inr x ↦ inr (ts.1 (tv.1 x)) ]),
        )

  -- `_row_in_scope` passes exactly the rows that the scope may see.
  pub row_in_scope_iff :
      (c t : Option ℕ) → (row_in_scope c t (scope_keys s scope) ≡ true) ↔ RowVisible s scope c t
  unfolding row_in_scope scope_keys
  row_in_scope_iff c t = elim (Bool-cases (unrestricted scope)) [
    | inl all ↦ (λ _. inl all, λ _. rw (all, row_in_scope))
    | inr h ↦
        let rest = restricted_row_iff c t h in
        (λ m. inr (rest.0 m), λ m. elim m [ inl all ↦ cc | inr x ↦ rest.1 x ])
  ]

  -- A lesson record is read under a scope exactly if it is in the table, the filter selects it,
  -- and the scope is ALL or the record's course or teacher is visible to it, where visibility
  -- is stated of the tables and not of the code.
  pub lesson_records_iff :
      (f : Filter) (r : LessonRecord R)
      → In r (lesson_records s scope f) ↔ (
          In r s.lesson_records
          × (selected f r ≡ true)
          × RowVisible s scope r.course_id r.teacher_uid)
  unfolding lesson_records
  lesson_records_iff f r =
      let inner = In-keep_iff (selected f) s.lesson_records r in
      let sorted = In-sort_iff _ _ r in
      let outer = In-keep_iff _ _ r in
      let seen = row_in_scope_iff r.course_id r.teacher_uid in
      (
        λ m. let (m', v) = outer.0 m in let (n, q) = inner.0 (sorted.0 m') in (n, q, seen.0 v),
        λ (n, q, v). outer.1 (sorted.1 (inner.1 (n, q)), seen.1 v),
      )

  -- A lesson is read under a scope exactly if it is in the table, is of the given course where
  -- one is given, and the scope is ALL or the lesson's course or teacher is visible to it.
  pub lessons_iff :
      (course_id : Option ℕ) (l : Lesson)
      → In l (lessons s scope course_id) ↔ (
          In l s.lessons
          × (equals course_id l.course_id ≡ true)
          × RowVisible s scope l.course_id l.teacher_uid)
  unfolding lessons
  lessons_iff course_id l =
      let inner = In-keep_iff (λ (m : Lesson). equals course_id m.course_id) s.lessons l in
      let sorted = In-sort_iff _ _ l in
      let outer = In-keep_iff _ _ l in
      let seen = row_in_scope_iff l.course_id l.teacher_uid in
      (
        λ m. let (m', v) = outer.0 m in let (n, q) = inner.0 (sorted.0 m') in (n, q, seen.0 v),
        λ (n, q, v). outer.1 (sorted.1 (inner.1 (n, q)), seen.1 v),
      )

  -- An event that is read was stored, passes the filter and is one that the scope may see.
  pub events-RowVisible :
      (f : EventFilter) (limit : ℕ) (e : Event R)
      → In e (events s scope f limit)
      → In e s.events × (event_selected f e ≡ true) × RowVisible s scope e.course_id e.teacher_uid
  unfolding events
  events-RowVisible f limit e m =
      let (m', v) = (In-keep_iff _ _ e).0 m in
      let newest = (In-reverse_iff _ e).0 (In-take limit _ e m') in
      let (n, q) = (In-keep_iff (event_selected f) s.events e).0 newest in
      (n, q, (row_in_scope_iff e.course_id e.teacher_uid).0 v)
