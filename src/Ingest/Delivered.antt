-- ===== src/Ingest/Delivered.antt =====
-- ingest.py: homework that was handed in, over the handlers of a delivery.
use api_dashboard.Prelude.{
  ℕ, String, refl, inl, inr, Option, none, some, List, [], ◌∷◌, All, any, Bool-cases, Option-cases,
  ◌==◌, map_option, cons_some, nat_eq, string_eq, option_eq,
}
use api_dashboard.Json.{Json, Fields}
use api_dashboard.Python.{Python}
use api_dashboard.Store.Rows.{Store, LessonRecord}
use api_dashboard.Store.Columns.{Column}
use api_dashboard.Store.Records.{same_message, insert_event, patch_lesson_record}
use api_dashboard.Store.Masters.{ensure_student, upsert_course, upsert_lesson, upsert_teacher}
use api_dashboard.Classin.Schemas.{
  Base, Member, Party, Work, Attendance, Kind, Event, Model, is_student, is_teacher, parse_event,
}
use api_dashboard.Classin.Ended.{poll_by_uid}
use api_dashboard.Ingest.{
  event_row, ingest_member, ingest_members, ingest_attendance, attended_course, patch_uids,
  ingest_end, ingest_homework_submit, ingest_homework_score, submit_for, score_for, apply_kind,
  store_and_apply, ingest,
}
use api_dashboard.Ingest.Columns.{end_columns, attendance_columns}
use api_dashboard.Store.Rows
use api_dashboard.Ingest.HandedIn.{Keeps, HandedIn, upsert_lesson_record-HandedIn}

module _ {R : Type 0} (id : String) (uid : ℕ) where
  -- Statements on the other tables.
  ensure_student-HandedIn :
      (u : ℕ) (name : Option String) (s : Store R)
      → HandedIn id uid s
      → HandedIn id uid (ensure_student u name s)
  unfolding ensure_student
  ensure_student-HandedIn u name s h = h

  upsert_teacher-HandedIn :
      (u : ℕ) (name : Option String) (s : Store R)
      → HandedIn id uid s
      → HandedIn id uid (upsert_teacher u name s)
  unfolding upsert_teacher
  upsert_teacher-HandedIn u name s h = h

  insert_event-HandedIn :
      (e : Rows.Event R) (s : Store R) → HandedIn id uid s → HandedIn id uid (insert_event e s).0
  unfolding insert_event
  insert_event-HandedIn e s h = elim (Bool-cases (any (same_message e.msg_id) s.events)) [
    | inl seen ↦ rw seen h
    | inr new ↦ rw new h
  ]

  cons_some-Keeps :
      {A : Type 0} (f : A → Column R) (o : Option A) (cs : List (Column R))
      → ((a : A) → Keeps (f a))
      → All Keeps cs
      → All Keeps (cons_some (map_option f o) cs)
  cons_some-Keeps f none cs k h = h
  cons_some-Keeps f (some a) cs k h = (k a, h)

  end_columns-Keeps :
      (camera hands trophies polls : Option R) → All Keeps (end_columns camera hands trophies polls)
  unfolding end_columns
  end_columns-Keeps camera hands trophies polls =
      cons_some-Keeps _ camera _ (λ v. tt)
        (cons_some-Keeps _ hands _ (λ v. tt)
          (cons_some-Keeps _ trophies _ (λ v. tt) (cons_some-Keeps _ polls [] (λ v. tt) tt)))

  module _ (py : Python R) (now : String) where
    attended_course-HandedIn :
        (c : Option ℕ) (name : Option String) (s : Store R)
        → HandedIn id uid s
        → HandedIn id uid (attended_course py now c name s)
    unfolding attended_course upsert_course
    attended_course-HandedIn none name s h = h
    attended_course-HandedIn (some c) name s h = elim (Bool-cases (c == 0)) [
      | inl e ↦ rw e h
      | inr e ↦ rw e h
    ]

    attendance_columns-Keeps :
        (b : Base) (a : Attendance) (t : Option Member) (m : Member)
        → All Keeps (attendance_columns py b a t m)
    unfolding attendance_columns
    attendance_columns-Keeps b a t m = (tt, (tt, (tt, (tt, (tt, (tt, (tt, (tt, (tt, tt)))))))))

    ingest_member-HandedIn :
        (b : Base) (a : Attendance) (t : Option Member) (m : Member) (s : Store R)
        → HandedIn id uid s
        → HandedIn id uid (ingest_member py now b a t m s)
    unfolding ingest_member
    ingest_member-HandedIn b a t m s h = elim (Bool-cases (is_student m)) [
      | inl student ↦ rw student (
          upsert_lesson_record-HandedIn id _ uid _ now _ _ _ (tt, attendance_columns-Keeps b a t m)
            (ensure_student-HandedIn m.uid m.name s h))
      | inr other ↦ rw other (elim (Bool-cases (is_teacher m)) [
        | inl teacher ↦ rw teacher (upsert_teacher-HandedIn m.uid m.name s h)
        | inr none_of_them ↦ rw none_of_them h
      ])
    ]

    ingest_members-HandedIn :
        (b : Base) (a : Attendance) (t : Option Member) (ms : List Member) (s : Store R)
        → HandedIn id uid s
        → HandedIn id uid (ingest_members py now b a t ms s)
    unfolding ingest_members
    ingest_members-HandedIn b a t [] s h = h
    ingest_members-HandedIn b a t (m ∷ ms) s h =
        ingest_members-HandedIn b a t ms _ (ingest_member-HandedIn b a t m s h)

    patch_uids-HandedIn :
        (b : Base) (camera hands trophies : List (ℕ × R)) (polls : List (ℕ × ℕ)) (uids : List ℕ)
        (s : Store R)
        → HandedIn id uid s
        → HandedIn id uid (patch_uids py now b camera hands trophies polls uids s)
    unfolding patch_uids patch_lesson_record
    patch_uids-HandedIn b camera hands trophies polls [] s h = h
    patch_uids-HandedIn b camera hands trophies polls (u ∷ uids) s h =
        patch_uids-HandedIn b camera hands trophies polls uids _
          (upsert_lesson_record-HandedIn id _ uid u now _ _ s (tt, end_columns-Keeps _ _ _ _) h)

    ingest_end-HandedIn :
        (b : Base) (d : Fields R) (s : Store R)
        → HandedIn id uid s
        → HandedIn id uid (ingest_end py now b d s).0
    unfolding ingest_end
    ingest_end-HandedIn b d s h = elim (Option-cases (poll_by_uid py d)) [
      | inl raised ↦ rw (raised, ingest_end) h
      | inr (polls, e) ↦ rw (e, ingest_end) (patch_uids-HandedIn b _ _ _ polls _ s h)
    ]

    submit_for-HandedIn :
        (b : Base) (w : Work R) (p : Option Party) (s : Store R)
        → HandedIn id uid s
        → HandedIn id uid (submit_for py now b w p s)
    unfolding submit_for patch_lesson_record
    submit_for-HandedIn b w none s h = h
    submit_for-HandedIn b w (some p) s h = elim (Option-cases p.uid) [
      | inl e ↦ rw (e, submit_for) h
      | inr (u, e) ↦
          rw (e, submit_for)
            (upsert_lesson_record-HandedIn id _ uid u now _ _ _ (tt, (refl, (tt, (tt, tt))))
              (ensure_student-HandedIn u p.name s h))
    ]

    score_for-HandedIn :
        (b : Base) (w : Work R) (p : Option Party) (s : Store R)
        → HandedIn id uid s
        → HandedIn id uid (score_for py now b w p s)
    unfolding score_for patch_lesson_record
    score_for-HandedIn b w none s h = h
    score_for-HandedIn b w (some p) s h = elim (Option-cases p.uid) [
      | inl e ↦ rw (e, score_for) h
      | inr (u, e) ↦
          rw (e, score_for) (upsert_lesson_record-HandedIn id _ uid u now _ _ s (tt, (tt, tt)) h)
    ]

    apply_kind-HandedIn :
        (b : Base) (k : Kind R) (s : Store R)
        → HandedIn id uid s
        → HandedIn id uid (apply_kind py now b k s).0
    unfolding apply_kind ingest_homework_submit ingest_homework_score ingest_attendance
        upsert_lesson
    apply_kind-HandedIn b (Kind.attendance a) s h =
        ingest_members-HandedIn b a _ a.members _
          (attended_course-HandedIn b.course_id b.course_name s h)
    apply_kind-HandedIn b (Kind.close d) s h = ingest_end-HandedIn b d s h
    apply_kind-HandedIn b (Kind.homework_submit w) s h = submit_for-HandedIn b w w.student_info s h
    apply_kind-HandedIn b (Kind.homework_score w) s h = score_for-HandedIn b w w.student_info s h
    apply_kind-HandedIn b (Kind.rating (some u)) s h = elim (Bool-cases (u == 0)) [
      | inl e ↦ rw e h
      | inr e ↦ rw e (upsert_teacher-HandedIn u none s h)
    ]
    apply_kind-HandedIn b k s h = h

    pub ingest-HandedIn :
        (validate : Model → Json R → Option (Event R)) (raw : Json R) (s : Store R)
        → HandedIn id uid s
        → HandedIn id uid (ingest py now validate raw s).0
    unfolding ingest store_and_apply
    ingest-HandedIn validate raw s h = elim (Option-cases (parse_event py validate raw)) [
      | inl raised ↦ rw (raised, ingest) h
      | inr (e, parsed) ↦
          let row = event_row py now raw e in
          let kept = insert_event-HandedIn row s h in
          rw (parsed, ingest)
            (elim (Bool-cases (insert_event row s).1) [
              | inl new ↦ rw new (apply_kind-HandedIn e.base e.kind _ kept)
              | inr seen ↦ rw seen kept
            ])
    ]
