-- ===== src/Metrics/Homework.antt =====
-- metrics.py: which rows are reported as missing homework.
use api_dashboard.Prelude.{
  String, ◌≡◌, ◌≢◌, ◌↔◌, ◌⊎◌, refl, sym, ap, subst, ◌∙◌, inl, inr, Bool, true, false, not, ◌&&◌,
  none, some, is_some, [], map, keep, elem, elem_iff, In, In-append_iff, In-map, In-map_iff,
  In-keep_iff, Bool-cases, ◌==◌, ==_iff, nat_eq, string_eq, option_eq, arith,
}
use mathlib.Core.Bool.{true≢false}
use api_dashboard.Scope.{Scope}
use api_dashboard.Store.Rows.{Store, LessonRecord, Lesson}
use api_dashboard.Store.Access.{no_filter, selected, lesson_records}
use api_dashboard.Store.Queries.{students}
use api_dashboard.Store.Isolation.{RowVisible, lesson_records_iff, lessons_iff}
use api_dashboard.Metrics.{Numbers}
use api_dashboard.Metrics.Missing.{
  MissingRow, by_uid, missing_row, lessons_with_hw, is_missing, missing_homework_rows,
}
use api_dashboard.Metrics.Summary.{since_filter}

and_not_iff : (a b : Bool) → ((a && not b) ≡ true) ↔ ((a ≡ true) × (b ≡ false))
and_not_iff a b = (λ h. ground arith, λ h. ground arith)

module _ {R : Type 0} (s : Store R) (scope : Scope) where
  -- A visible record of the lesson, or the visible lesson itself, has a homework activity.
  abbrev pub HasHomework : String → Type 0
  HasHomework id =
      ((r : LessonRecord R) × In r s.lesson_records
        × RowVisible s scope r.course_id r.teacher_uid
        × (r.lesson_id ≡ id)
        × (is_some r.homework_activity_id ≡ true))
      ⊎ ((l : Lesson) × In l s.lessons
          × RowVisible s scope l.course_id l.teacher_uid
          × (l.lesson_id ≡ id)
          × (is_some l.homework_activity_id ≡ true))

  no_filter-selected : (r : LessonRecord R) → selected no_filter r ≡ true
  unfolding selected
  no_filter-selected r = refl

  lessons_with_hw_iff : (id : String) → In id (lessons_with_hw s scope) ↔ HasHomework id
  unfolding lessons_with_hw
  lessons_with_hw_iff id =
      let split =
        In-append_iff
          (map (λ (r : LessonRecord R). r.lesson_id)
            (keep (λ (r : LessonRecord R). is_some r.homework_activity_id)
              (lesson_records s scope no_filter)))
          _ id in
      (
        λ m. elim (split.0 m) [
          | inl a ↦
              let (r, kept, e) = (In-map_iff _ _ id).0 a in
              let (listed, has) = (In-keep_iff _ _ r).0 kept in
              let (here, _, seen) = (lesson_records_iff s scope no_filter r).0 listed in
              inl (r, here, seen, e, has)
          | inr b ↦
              let (l, kept, e) = (In-map_iff _ _ id).0 b in
              let (listed, has) = (In-keep_iff _ _ l).0 kept in
              let (here, _, seen) = (lessons_iff s scope none l).0 listed in
              inr (l, here, seen, e, has)
        ],
        λ h. elim h [
          | inl (r, here, seen, e, has) ↦ split.1 (
              inl (
                (In-map_iff _ _ id).1 (
                  r,
                  (In-keep_iff _ _ r).1 (
                    (lesson_records_iff s scope no_filter r).1 (here, no_filter-selected r, seen),
                    has,
                  ),
                  e,
                )))
          | inr (l, here, seen, e, has) ↦ split.1 (
              inr (
                (In-map_iff _ _ id).1 (
                  l,
                  (In-keep_iff _ _ l).1 ((lessons_iff s scope none l).1 (here, refl, seen), has),
                  e,
                )))
        ],
      )

  is_missing_iff :
      (r : LessonRecord R)
      → (is_missing (lessons_with_hw s scope) r ≡ true)
        ↔ (HasHomework r.lesson_id × (r.homework_submitted ≢ some 1))
  is_missing_iff r =
      let homework = lessons_with_hw_iff r.lesson_id in
      let listed = elem_iff r.lesson_id (lessons_with_hw s scope) in
      let handed_in = ==_iff r.homework_submitted (some 1) in
      let test = r.homework_submitted == some 1 in
      let both = and_not_iff (elem r.lesson_id (lessons_with_hw s scope)) test in
      (
        λ h.
            let (a, b) = both.0 h in
            (
              homework.0 (listed.0 a),
              λ e. let t = handed_in.1 e in absurd (true≢false (sym t ∙ b)),
            ),
        λ (hw, ne). both.1 (
          listed.1 (homework.1 hw),
          elim (Bool-cases test) [ inl e ↦ absurd (ne (handed_in.0 e)) | inr e ↦ e ],
        ),
      )

  -- A lesson record is reported as missing homework exactly if it is in the table and visible
  -- to the scope, its date is in the window, its lesson has a visible record with a homework
  -- activity or is itself visible with one, and it is not marked as submitted; a record that
  -- says nothing of the homework is reported too.
  pub missing_homework_rows_iff :
      (num : Numbers R) (since : String) (r : LessonRecord R)
      → In r (map (λ (m : MissingRow R). m.row) (missing_homework_rows num s scope since)) ↔ (
          In r s.lesson_records
          × (selected (since_filter since) r ≡ true)
          × RowVisible s scope r.course_id r.teacher_uid
          × HasHomework r.lesson_id
          × (r.homework_submitted ≢ some 1))
  unfolding missing_homework_rows
  missing_homework_rows_iff num since r =
      let read = lesson_records_iff s scope (since_filter since) r in
      let passes = is_missing_iff r in
      let kept =
        In-keep_iff (is_missing (lessons_with_hw s scope))
          (lesson_records s scope (since_filter since)) r in
      let rows =
        keep (is_missing (lessons_with_hw s scope)) (lesson_records s scope (since_filter since)) in
      let names = by_uid (students s scope) [] in
      let shown =
        In-map_iff (λ (m : MissingRow R). m.row) (missing_homework_rows num s scope since) r in
      (
        λ m.
            let (row, listed, e) = shown.0 m in
            let (q, n, f) = (In-map_iff (missing_row num names) _ row).0 listed in
            let same : q ≡ r = ap (λ (x : MissingRow R). x.row) f ∙ e in
            let (a, b) = kept.0 (subst (λ x. In x rows) same n) in
            let (here, since_then, seen) = read.0 a in
            let (hw, open_yet) = passes.0 b in (here, since_then, seen, hw, open_yet),
        λ (here, since_then, seen, hw, open_yet). shown.1 (
          missing_row num names r,
          In-map (missing_row num names) _ r
              (kept.1 (read.1 (here, since_then, seen), passes.1 (hw, open_yet))),
          refl,
        ),
      )
