-- ===== src/Dashboard/Visible.antt =====
-- web/routes_dashboard.py: what the page of the students shows, stated of the tables.
use api_dashboard.Prelude.{
  ℕ, String, ◌≡◌, ◌↔◌, ◌⊎◌, refl, sym, ap, inl, inr, Bool, true, false, Option, none, some, List,
  [], map, elem_iff, In, get_or, Bool-cases, nat_eq, ◌∙◌, arith,
}
use mathlib.Core.Bool.{true≢false}
use mathlib.Core.Option.{some-injective}
use api_dashboard.Session.{Session}
use api_dashboard.Scope.{Scope, unrestricted}
use api_dashboard.Store.Rows.{Store, LessonRecord}
use api_dashboard.Store.Access.{lesson_records, selected, student_uids_in_scope}
use api_dashboard.Store.Queries.{events}
use api_dashboard.Store.Isolation.{RowVisible, lesson_records_iff}
use api_dashboard.Store.Isolation.Keyed.{StudentVisible, student_uids_iff}
use api_dashboard.Metrics.{Numbers}
use api_dashboard.Metrics.Trends.{Week, WeekScore, weekly_attendance_trend, weekly_score_trend}
use api_dashboard.Metrics.Summary.{since_filter}
use api_dashboard.Metrics.Students.{
  StudentRow, StudentDetail, Exam, exams_of, exam_filter, detail_of, student_filter,
  students_summary, student_detail,
}
use api_dashboard.Metrics.Listed.{RecordSince, students_summary-uids, student_filter-selected}
use api_dashboard.Dashboard.{
  Page, login_page, forbidden, server_error, redirected, shown, outside, scope_of, clamp_days,
  StudentsView, with_detail, students_page, students_view,
}

outside-In :
    (x : ℕ) (ids : Option (List ℕ)) (b : Bool)
    → b ≡ false
    → (ids ≡ none → b ≡ true)
    → outside x ids ≡ false
    → In x (get_or ids [])
outside-In x none b h all e = absurd (true≢false (sym (all refl) ∙ h))
outside-In x (some xs) b h all e = (elem_iff x xs).0 (ground (arith, e))

outside-not_In :
    (x : ℕ) (ids : Option (List ℕ)) (b : Bool)
    → (b ≡ true → ids ≡ none)
    → outside x ids ≡ true
    → (b ≡ false) × ¬ In x (get_or ids [])
outside-not_In x none b all e = cc
outside-not_In x (some xs) true all e = let same = all refl in cc
outside-not_In x (some xs) false all e =
    (refl, λ m. let there = (elem_iff x xs).1 m in ground (arith, e, there))

module _ {R : Type 0} (s : Store R) (scope : Scope) where
  student_uids-none : student_uids_in_scope s scope ≡ none → unrestricted scope ≡ true
  unfolding student_uids_in_scope
  student_uids-none e = ground arith

  student_uids-all : unrestricted scope ≡ true → student_uids_in_scope s scope ≡ none
  unfolding student_uids_in_scope
  student_uids-all h = rw h

module _ {R : Type 0} (num : Numbers R) (since : ℕ → String) (s : Store R) (scope : Scope) where
  -- The rows of the detail are the visible records of the student, since 180 days ago.
  abbrev pub DetailShows : ℕ → StudentDetail R → Type 0
  DetailShows uid d =
      (d.uid ≡ uid)
      × ((unrestricted scope ≡ true) ⊎ StudentVisible s scope uid)
      × ((r : LessonRecord R)
          → In r d.rows ↔ (
              In r s.lesson_records
              × (r.student_uid ≡ uid)
              × (selected (since_filter (since 180)) r ≡ true)
              × RowVisible s scope r.course_id r.teacher_uid))

  abbrev pub DetailFor : Option ℕ → Option (StudentDetail R) → Type 0
  DetailFor none none = Unit
  DetailFor none (some d) = ⊥
  DetailFor (some uid) none = ⊥
  DetailFor (some uid) (some d) = DetailShows uid d

  -- What the answer says, whichever it is.
  abbrev pub Shows : Option ℕ → ℕ → Page (StudentsView R) → Type 0
  Shows uid days (shown v) =
      ((u : ℕ)
        → In u (map (λ (x : StudentRow R). x.uid) v.students) ↔ RecordSince s scope (since days) u)
      × DetailFor uid v.detail
  Shows uid days forbidden =
      (u : ℕ) × (uid ≡ some u) × (unrestricted scope ≡ false) × ¬ StudentVisible s scope u
  Shows uid days server_error = (u : ℕ) × (uid ≡ some u)
  Shows uid days login_page = ⊥
  Shows uid days (redirected t) = ⊥

  -- A detail has the rows that were read.
  detail_of-rows :
      (uid : ℕ) (rows : List (LessonRecord R)) (exams : Option (List (Exam R)))
      (trend : Option (List (Week R))) (scores : Option (List (WeekScore R))) (d : StudentDetail R)
      → detail_of num s scope uid rows exams trend scores ≡ some d
      → (d.uid ≡ uid) × (d.rows ≡ rows)
  detail_of-rows uid rows none trend scores d e = cc
  detail_of-rows uid rows (some exams) none scores d e = cc
  detail_of-rows uid rows (some exams) (some trend) none d e = cc
  detail_of-rows uid rows (some exams) (some trend) (some scores) d e =
      let same = some-injective _ _ e in
      (
        sym (ap (λ (x : StudentDetail R). x.uid) same),
        sym (ap (λ (x : StudentDetail R). x.rows) same),
      )

  allowed-Seen :
      (uid : ℕ)
      → outside uid (student_uids_in_scope s scope) ≡ false
      → (unrestricted scope ≡ true) ⊎ StudentVisible s scope uid
  allowed-Seen uid e = elim (Bool-cases (unrestricted scope)) [
    | inl all ↦ inl all
    | inr h ↦
        let ids = student_uids_in_scope s scope in
        inr (
          (student_uids_iff s scope uid h).0
            (outside-In uid ids (unrestricted scope) h (student_uids-none s scope) e))
  ]

  outside-Denied :
      (uid : ℕ)
      → outside uid (student_uids_in_scope s scope) ≡ true
      → (unrestricted scope ≡ false) × ¬ StudentVisible s scope uid
  outside-Denied uid e =
      let (h, absent) =
        outside-not_In uid (student_uids_in_scope s scope) (unrestricted scope)
          (student_uids-all s scope) e in
      (h, λ v. absent ((student_uids_iff s scope uid h).1 v))

  student_detail-rows :
      (uid : ℕ) (d : StudentDetail R)
      → student_detail num s uid scope (since 180) ≡ some d
      → (d.uid ≡ uid) × (d.rows ≡ lesson_records s scope (student_filter uid (since 180)))
  unfolding student_detail
  student_detail-rows uid d e =
      let rows = lesson_records s scope (student_filter uid (since 180)) in
      detail_of-rows uid rows (exams_of num (events s scope (exam_filter uid) 100))
        (weekly_attendance_trend num rows 14) (weekly_score_trend num rows 14) d e

  detail-shows :
      (uid : ℕ) (d : StudentDetail R)
      → student_detail num s uid scope (since 180) ≡ some d
      → (unrestricted scope ≡ true) ⊎ StudentVisible s scope uid
      → DetailShows uid d
  detail-shows uid d e v =
      let (same, rows) = student_detail-rows uid d e in
      (
        same,
        v,
        λ r.
            let read = lesson_records_iff s scope (student_filter uid (since 180)) r in
            let chosen = student_filter-selected uid (since 180) r in
            rw rows (
              λ m.
                  let (here, c, seen) = read.0 m in
                  let (of, at) = chosen.0 c in (here, of, at, seen),
              λ (here, of, at, seen). read.1 (here, chosen.1 (of, at), seen),
            ),
      )

  with_detail-Shows :
      (days uid : ℕ) (o : Option (StudentDetail R))
      → student_detail num s uid scope (since 180) ≡ o
      → (unrestricted scope ≡ true) ⊎ StudentVisible s scope uid
      → Shows
          (some uid)
          days
          (with_detail num since (students_summary num s scope (since days)) days o)
  with_detail-Shows days uid none e v = (uid, refl)
  with_detail-Shows days uid (some d) e v =
      (students_summary-uids num s scope (since days), detail-shows uid d e v)

  students_page-Shows :
      (uid : Option ℕ) (days : ℕ) → Shows uid days (students_page num since s scope uid days)
  students_page-Shows none days = (students_summary-uids num s scope (since days), tt)
  students_page-Shows (some uid) days =
      elim (Bool-cases (outside uid (student_uids_in_scope s scope))) [
        | inl out ↦
            let (hidden, unseen) = outside-Denied uid out in rw out (uid, refl, hidden, unseen)
        | inr e ↦ rw e (
            with_detail-Shows days uid (student_detail num s uid scope (since 180)) refl
              (allowed-Seen uid e))
      ]

-- Whatever a session asks of the page of the students, the answer is one of three: the page,
-- whose students are exactly those of the records in the table that are visible to the scope
-- and not older than the clamped days, and whose detail is there exactly if a student was asked
-- for and has exactly the visible records of that student of the last 180 days, the student
-- being visible or the scope ALL; the 403 page, for a student of whom no record is visible
-- under a restricted scope; or a server error, for a student that was asked for.
pub students_view-Shows :
    {R : Type 0} (num : Numbers R) (since : ℕ → String) (session : Session) (s : Store R)
    (uid : Option ℕ) (days : ℕ)
    → Shows num since s
        (scope_of session s)
        uid
        (clamp_days days)
        (students_view num since (some session) s uid days)
unfolding students_view
students_view-Shows num since session s uid days =
    students_page-Shows num since s (scope_of session s) uid (clamp_days days)
