-- ===== src/Metrics/Listed.antt =====
-- metrics.py: of which students the summary and the detail tell.
use api_dashboard.Prelude.{
  ℕ, String, ◌≡◌, ◌↔◌, ap, ◌∙◌, true, List, [], map, keys, In, In-map, In-map_iff, In-sort_iff,
  ==_iff, nat_eq, option_eq, arith,
}
use api_dashboard.Scope.{Scope}
use api_dashboard.Store.Rows.{Store, LessonRecord}
use api_dashboard.Store.Access.{selected, lesson_records}
use api_dashboard.Store.Queries.{students}
use api_dashboard.Store.Isolation.{RowVisible, lesson_records_iff}
use api_dashboard.Metrics.{Numbers}
use api_dashboard.Metrics.Trends.{per_student}
use api_dashboard.Metrics.Groups.{In-keys_iff, In-keys-append_all}
use api_dashboard.Metrics.Summary.{since_filter}
use api_dashboard.Metrics.Missing.{by_uid}
use api_dashboard.Metrics.Students.{
  StudentRow, student_row, student_leb, students_summary, student_filter,
}

module _ {R : Type 0} where
  -- A row of the student is among them.
  abbrev HasRow : ℕ → List (LessonRecord R) → Type 0
  HasRow uid rows = (r : LessonRecord R) × In r rows × (r.student_uid ≡ uid)

  In-keys-per_student :
      (uid : ℕ) (rows : List (LessonRecord R))
      → In uid (keys (per_student rows [])) ↔ HasRow uid rows
  unfolding per_student
  In-keys-per_student uid rows = In-keys-append_all (λ r. r.student_uid) uid rows

  -- A visible record of the student since an instant.
  abbrev pub RecordSince : Store R → Scope → String → ℕ → Type 0
  RecordSince s scope since uid =
      (r : LessonRecord R) × In r s.lesson_records
      × (selected (since_filter since) r ≡ true)
      × RowVisible s scope r.course_id r.teacher_uid
      × (r.student_uid ≡ uid)

  HasRow-RecordSince :
      (s : Store R) (scope : Scope) (since : String) (uid : ℕ)
      → HasRow uid (lesson_records s scope (since_filter since)) ↔ RecordSince s scope since uid
  HasRow-RecordSince s scope since uid = (
    λ (r, m, same).
        let (here, chosen, seen) = (lesson_records_iff s scope (since_filter since) r).0 m in
        (r, here, chosen, seen, same),
    λ (r, here, chosen, seen, same).
        (r, (lesson_records_iff s scope (since_filter since) r).1 (here, chosen, seen), same),
  )

  pub students_summary-uids :
      (num : Numbers R) (s : Store R) (scope : Scope) (since : String) (uid : ℕ)
      → In uid (map (λ (x : StudentRow R). x.uid) (students_summary num s scope since))
        ↔ RecordSince s scope since uid
  unfolding students_summary
  students_summary-uids num s scope since uid =
      let rows = lesson_records s scope (since_filter since) in
      let names = by_uid (students s scope) [] in
      let groups = per_student rows [] in
      let listed =
        In-map_iff (λ (x : StudentRow R). x.uid) (students_summary num s scope since) uid in
      let known = In-keys_iff uid groups in
      let grouped = In-keys-per_student uid rows in
      let found = HasRow-RecordSince s scope since uid in
      (
        λ m.
            let (x, n, same) = listed.0 m in
            let sorted =
              (In-sort_iff (student_leb num) (map (student_row num names) groups) x).0 n in
            let (g, k, made) = (In-map_iff (student_row num names) groups x).0 sorted in
            found.0 (grouped.0 (known.1 (g, k, ap (λ (y : StudentRow R). y.uid) made ∙ same))),
        λ h.
            let (g, k, same) = known.0 (grouped.1 (found.1 h)) in
            listed.1 (
              student_row num names g,
              (In-sort_iff (student_leb num) (map (student_row num names) groups) _).1
                  (In-map (student_row num names) groups g k),
              same,
            ),
      )

  pub student_filter-selected :
      (uid : ℕ) (since : String) (r : LessonRecord R)
      → (selected (student_filter uid since) r ≡ true)
        ↔ ((r.student_uid ≡ uid) × (selected (since_filter since) r ≡ true))
  unfolding selected
  student_filter-selected uid since r =
      (λ h. ground (arith, ==_iff r.student_uid uid), λ h. ground (arith, ==_iff r.student_uid uid))
