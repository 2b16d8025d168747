-- ===== src/Ingest/Delivery.antt =====
-- ingest.py: a delivery is a history of statements, and a second delivery of a message does
-- nothing, whatever has happened to the store since the first.
use api_dashboard.Prelude.{
  ℕ, String, inl, inr, Option, none, some, List, [], ◌∷◌, Bool-cases, Option-cases, ◌==◌, option_eq,
  string_eq, nat_eq, if◌then◌else◌,
}
use api_dashboard.Json.{Json, Fields}
use api_dashboard.Python.{Python}
use api_dashboard.Store.Rows.{Store}
use api_dashboard.Store.Columns.{Column}
use api_dashboard.Store.Records.{insert_event, patch_lesson_record}
use api_dashboard.Store.Masters.{upsert_teacher}
use api_dashboard.Store.Keys.Reach.{Step, Reach, here, next}
use api_dashboard.Classin.Schemas.{
  Base, Member, Party, Work, Attendance, Kind, Event, Model, is_student, is_teacher, parse_event,
}
use api_dashboard.Classin.Ended.{poll_by_uid}
use api_dashboard.Ingest.{
  ingest_member, ingest_members, ingest_attendance, patch_uids, ingest_end, ingest_homework_submit,
  ingest_homework_score, submit_for, score_for, apply_kind, event_row, store_and_apply, ingest,
  attended_course,
}

module _ {R : Type 0} where
  pub Reach-trans : {s t u : Store R} → Reach s t → Reach t u → Reach s u
  Reach-trans r here = r
  Reach-trans r (next q st) = next (Reach-trans r q) st

  one : {s t : Store R} → Step s t → Reach s t
  one st = next here st

module _ {R : Type 0} (py : Python R) (now : String) where
  ingest_member-Reach :
      (b : Base) (a : Attendance) (t : Option Member) (m : Member) (s : Store R)
      → Reach s (ingest_member py now b a t m s)
  unfolding ingest_member
  ingest_member-Reach b a t m s = elim (Bool-cases (is_student m)) [
    | inl student ↦
        rw student (next (one (Step.student m.uid m.name)) (Step.lesson_record now _ m.uid _ _))
    | inr other ↦ rw other (elim (Bool-cases (is_teacher m)) [
      | inl teacher ↦ rw teacher (one (Step.teacher m.uid m.name))
      | inr none_of_them ↦ rw none_of_them here
    ])
  ]

  ingest_members-Reach :
      (b : Base) (a : Attendance) (t : Option Member) (ms : List Member) (s : Store R)
      → Reach s (ingest_members py now b a t ms s)
  unfolding ingest_members
  ingest_members-Reach b a t [] s = here
  ingest_members-Reach b a t (m ∷ ms) s =
      Reach-trans (ingest_member-Reach b a t m s) (ingest_members-Reach b a t ms _)

  attended_course-Reach :
      (id : Option ℕ) (name : Option String) (s : Store R)
      → Reach s (attended_course py now id name s)
  unfolding attended_course
  attended_course-Reach none name s = here
  attended_course-Reach (some id) name s = elim (Bool-cases (id == 0)) [
    | inl zero_id ↦ rw zero_id here
    | inr course ↦ rw course (one (Step.course now id name none none "webhook"))
  ]

  ingest_attendance-Reach :
      (b : Base) (a : Attendance) (s : Store R) → Reach s (ingest_attendance py now b a s)
  unfolding ingest_attendance
  ingest_attendance-Reach b a s =
      Reach-trans (next (attended_course-Reach b.course_id b.course_name s) (Step.lesson _))
        (ingest_members-Reach b a _ a.members _)

  patch-Step :
      (id : String) (uid : ℕ) (c : Column R) (cs : List (Column R)) (s : Store R)
      → Step s (patch_lesson_record now id uid c cs s)
  unfolding patch_lesson_record
  patch-Step id uid c cs s = Step.lesson_record now id uid c cs

  patch_uids-Reach :
      (b : Base) (camera hands trophies : List (ℕ × R)) (polls : List (ℕ × ℕ)) (uids : List ℕ)
      (s : Store R)
      → Reach s (patch_uids py now b camera hands trophies polls uids s)
  unfolding patch_uids
  patch_uids-Reach b camera hands trophies polls [] s = here
  patch_uids-Reach b camera hands trophies polls (uid ∷ uids) s =
      Reach-trans (one (patch-Step _ uid _ _ s))
        (patch_uids-Reach b camera hands trophies polls uids _)

  ingest_end-Reach : (b : Base) (d : Fields R) (s : Store R) → Reach s (ingest_end py now b d s).0
  unfolding ingest_end
  ingest_end-Reach b d s = elim (Option-cases (poll_by_uid py d)) [
    | inl raised ↦ rw (raised, ingest_end) here
    | inr (polls, e) ↦ rw (e, ingest_end) (patch_uids-Reach b _ _ _ polls _ s)
  ]

  submit_for-Reach :
      (b : Base) (w : Work R) (p : Option Party) (s : Store R) → Reach s (submit_for py now b w p s)
  unfolding submit_for
  submit_for-Reach b w none s = here
  submit_for-Reach b w (some p) s = elim (Option-cases p.uid) [
    | inl e ↦ rw (e, submit_for) here
    | inr (uid, e) ↦
        rw (e, submit_for) (next (one (Step.student uid p.name)) (patch-Step _ uid _ _ _))
  ]

  score_for-Reach :
      (b : Base) (w : Work R) (p : Option Party) (s : Store R) → Reach s (score_for py now b w p s)
  unfolding score_for
  score_for-Reach b w none s = here
  score_for-Reach b w (some p) s = elim (Option-cases p.uid) [
    | inl e ↦ rw (e, score_for) here
    | inr (uid, e) ↦ rw (e, score_for) (one (patch-Step _ uid _ _ s))
  ]

  rating-Reach :
      (uid : ℕ) (s : Store R) → Reach s (if uid == 0 then s else upsert_teacher uid none s)
  rating-Reach uid s = elim (Bool-cases (uid == 0)) [
    | inl e ↦ rw e here
    | inr e ↦ rw e (one (Step.teacher uid none))
  ]

  pub apply_kind-Reach : (b : Base) (k : Kind R) (s : Store R) → Reach s (apply_kind py now b k s).0
  unfolding apply_kind ingest_homework_submit ingest_homework_score
  apply_kind-Reach b (Kind.attendance a) s = ingest_attendance-Reach b a s
  apply_kind-Reach b (Kind.close d) s = ingest_end-Reach b d s
  apply_kind-Reach b (Kind.homework_submit w) s = submit_for-Reach b w w.student_info s
  apply_kind-Reach b (Kind.homework_score w) s = score_for-Reach b w w.student_info s
  apply_kind-Reach b (Kind.rating (some uid)) s = rating-Reach uid s
  apply_kind-Reach b k s = here

  store_and_apply-Reach :
      (raw : Json R) (e : Event R) (s : Store R) → Reach s (store_and_apply py now raw e s).0
  unfolding store_and_apply
  store_and_apply-Reach raw e s =
      let row = event_row py now raw e in
      elim (Bool-cases (insert_event row s).1) [
        | inl new ↦ rw new (Reach-trans (one (Step.event row)) (apply_kind-Reach e.base e.kind _))
        | inr seen ↦ rw seen (one (Step.event row))
      ]

  -- The store that a delivery leaves, whether ingest returns or raises, is reached from the one
  -- before by statements of the store.
  pub ingest-Reach :
      (validate : Model → Json R → Option (Event R)) (raw : Json R) (s : Store R)
      → Reach s (ingest py now validate raw s).0
  unfolding ingest
  ingest-Reach validate raw s = elim (Option-cases (parse_event py validate raw)) [
    | inl raised ↦ rw (raised, ingest) here
    | inr (e, parsed) ↦ rw (parsed, ingest) (store_and_apply-Reach raw e s)
  ]
