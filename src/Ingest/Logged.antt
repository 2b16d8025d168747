-- ===== src/Ingest/Logged.antt =====
-- ingest.py and the raw log, which no handler reads or writes.
use api_dashboard.Prelude.{
  ℕ, String, ◌≡◌, refl, ap, ◌∙◌, inl, inr, Bool, true, Option, none, some, List, [], ◌∷◌,
  Bool-cases, Option-cases, ◌==◌, option_eq, string_eq, nat_eq, any,
}
use api_dashboard.Json.{Json, Fields}
use api_dashboard.Python.{Python}
use api_dashboard.Store.Rows
use api_dashboard.Store.Rows.{Store}
use api_dashboard.Store.Records.{
  same_message, insert_event, upsert_lesson_record, patch_lesson_record,
}
use api_dashboard.Store.Masters.{ensure_student, upsert_course, upsert_lesson, upsert_teacher}
use api_dashboard.Classin.Schemas.{
  Base, Member, Party, Work, Attendance, Kind, Event, Model, is_student, is_teacher, parse_event,
}
use api_dashboard.Classin.Ended.{poll_by_uid}
use api_dashboard.Ingest.{
  ingest_member, ingest_members, ingest_attendance, patch_uids, ingest_end, ingest_homework_submit,
  ingest_homework_score, submit_for, score_for, apply_kind, event_row, store_and_apply, ingest,
  attended_course,
}

-- The store with another raw log.
abbrev pub with_log : {R : Type 0} → List (String × Json R) → Store R → Store R
with_log log s = record s { raw_log = log }

-- The same of what a handler leaves and whether it returned.
abbrev pub log_of : {R : Type 0} → List (String × Json R) → Store R × Bool → Store R × Bool
log_of log r = (with_log log r.0, r.1)

module _ {R : Type 0} (log : List (String × Json R)) where
  insert_event-with_log :
      (e : Rows.Event R) (s : Store R)
      → insert_event e (with_log log s) ≡ log_of log (insert_event e s)
  unfolding insert_event
  insert_event-with_log e s = elim (Bool-cases (any (same_message e.msg_id) s.events)) [
    | inl seen ↦ rw seen refl
    | inr new ↦ rw new refl
  ]

  module _ (py : Python R) (now : String) where
    ingest_member-with_log :
        (b : Base) (a : Attendance) (t : Option Member) (m : Member) (s : Store R)
        → ingest_member py now b a t m (with_log log s)
          ≡ with_log log (ingest_member py now b a t m s)
    unfolding ingest_member upsert_lesson_record ensure_student upsert_teacher
    ingest_member-with_log b a t m s = elim (Bool-cases (is_student m)) [
      | inl student ↦ rw student refl
      | inr other ↦ rw other (elim (Bool-cases (is_teacher m)) [
        | inl teacher ↦ rw teacher refl
        | inr none_of_them ↦ rw none_of_them refl
      ])
    ]

    ingest_members-with_log :
        (b : Base) (a : Attendance) (t : Option Member) (ms : List Member) (s : Store R)
        → ingest_members py now b a t ms (with_log log s)
          ≡ with_log log (ingest_members py now b a t ms s)
    unfolding ingest_members
    ingest_members-with_log b a t [] s = refl
    ingest_members-with_log b a t (m ∷ ms) s =
        ap (ingest_members py now b a t ms) (ingest_member-with_log b a t m s)
        ∙ ingest_members-with_log b a t ms (ingest_member py now b a t m s)

    attended_course-with_log :
        (id : Option ℕ) (name : Option String) (s : Store R)
        → attended_course py now id name (with_log log s)
          ≡ with_log log (attended_course py now id name s)
    unfolding attended_course upsert_course
    attended_course-with_log none name s = refl
    attended_course-with_log (some id) name s = elim (Bool-cases (id == 0)) [
      | inl zero_id ↦ rw zero_id refl
      | inr course ↦ rw course refl
    ]

    ingest_attendance-with_log :
        (b : Base) (a : Attendance) (s : Store R)
        → ingest_attendance py now b a (with_log log s)
          ≡ with_log log (ingest_attendance py now b a s)
    unfolding ingest_attendance upsert_lesson
    ingest_attendance-with_log b a s =
        rw (attended_course-with_log b.course_id b.course_name s)
          (ingest_members-with_log b a _ a.members _)

    patch_uids-with_log :
        (b : Base) (camera hands trophies : List (ℕ × R)) (polls : List (ℕ × ℕ)) (uids : List ℕ)
        (s : Store R)
        → patch_uids py now b camera hands trophies polls uids (with_log log s)
          ≡ with_log log (patch_uids py now b camera hands trophies polls uids s)
    unfolding patch_uids patch_lesson_record upsert_lesson_record
    patch_uids-with_log b camera hands trophies polls [] s = refl
    patch_uids-with_log b camera hands trophies polls (uid ∷ uids) s =
        patch_uids-with_log b camera hands trophies polls uids _

    ingest_end-with_log :
        (b : Base) (d : Fields R) (s : Store R)
        → ingest_end py now b d (with_log log s) ≡ log_of log (ingest_end py now b d s)
    unfolding ingest_end
    ingest_end-with_log b d s = elim (Option-cases (poll_by_uid py d)) [
      | inl raised ↦ rw (raised, ingest_end) refl
      | inr (polls, e) ↦
          rw (e, ingest_end) (ap (λ t. (t, true)) (patch_uids-with_log b _ _ _ polls _ s))
    ]

    submit_for-with_log :
        (b : Base) (w : Work R) (p : Option Party) (s : Store R)
        → submit_for py now b w p (with_log log s) ≡ with_log log (submit_for py now b w p s)
    unfolding submit_for ensure_student patch_lesson_record upsert_lesson_record
    submit_for-with_log b w none s = refl
    submit_for-with_log b w (some p) s = elim (Option-cases p.uid) [
      | inl e ↦ rw (e, submit_for) refl
      | inr (uid, e) ↦ rw (e, submit_for) refl
    ]

    score_for-with_log :
        (b : Base) (w : Work R) (p : Option Party) (s : Store R)
        → score_for py now b w p (with_log log s) ≡ with_log log (score_for py now b w p s)
    unfolding score_for patch_lesson_record upsert_lesson_record
    score_for-with_log b w none s = refl
    score_for-with_log b w (some p) s = elim (Option-cases p.uid) [
      | inl e ↦ rw (e, score_for) refl
      | inr (uid, e) ↦ rw (e, score_for) refl
    ]

    apply_kind-with_log :
        (b : Base) (k : Kind R) (s : Store R)
        → apply_kind py now b k (with_log log s) ≡ log_of log (apply_kind py now b k s)
    unfolding apply_kind ingest_homework_submit ingest_homework_score upsert_teacher
    apply_kind-with_log b (Kind.attendance a) s =
        ap (λ t. (t, true)) (ingest_attendance-with_log b a s)
    apply_kind-with_log b (Kind.close d) s = ingest_end-with_log b d s
    apply_kind-with_log b (Kind.homework_submit w) s =
        ap (λ t. (t, true)) (submit_for-with_log b w w.student_info s)
    apply_kind-with_log b (Kind.homework_score w) s =
        ap (λ t. (t, true)) (score_for-with_log b w w.student_info s)
    apply_kind-with_log b (Kind.rating (some uid)) s = elim (Bool-cases (uid == 0)) [
      | inl e ↦ rw e refl
      | inr e ↦ rw e refl
    ]
    apply_kind-with_log b k s = refl

    store_and_apply-with_log :
        (raw : Json R) (e : Event R) (s : Store R)
        → store_and_apply py now raw e (with_log log s)
          ≡ log_of log (store_and_apply py now raw e s)
    unfolding store_and_apply
    store_and_apply-with_log raw e s =
        let row = event_row py now raw e in
        rw (insert_event-with_log row s) (elim (Bool-cases (insert_event row s).1) [
          | inl new ↦ rw new (apply_kind-with_log e.base e.kind _)
          | inr seen ↦ rw seen refl
        ])

    pub ingest-with_log :
        (validate : Model → Json R → Option (Event R)) (raw : Json R) (s : Store R)
        → ingest py now validate raw (with_log log s) ≡ log_of log (ingest py now validate raw s)
    unfolding ingest
    ingest-with_log validate raw s = elim (Option-cases (parse_event py validate raw)) [
      | inl raised ↦ rw (raised, ingest) refl
      | inr (e, parsed) ↦ rw (parsed, ingest) (store_and_apply-with_log raw e s)
    ]
