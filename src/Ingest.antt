-- ===== src/Ingest.antt =====
-- ingest.py: webhook event → store. A handler returns the store that it leaves. `now` is the
-- instant of `_now()`; the statements of one delivery are given one instant.
pub mod Columns
pub mod Delivery
pub mod Once
pub mod Label
pub mod Logged
pub mod HandedIn
pub mod Delivered
pub mod Reported
use Prim.Native.String.{◌++◌ as concat}
use api_dashboard.Prelude.{
  ℕ, ◌+◌, ◌*◌, String, Bool, true, false, ◌&&◌, Option, none, some, List, [], ◌∷◌, ◌++◌, find,
  get_or, truthy, ltb, leb, nonempty, elem, keys, lookup, map_option, cons_some, ◌==◌, nat_eq,
  string_eq, if◌then◌else◌,
}
use api_dashboard.Json
use api_dashboard.Json.{Json, null, obj, Fields}
use api_dashboard.Python.{Python}
use api_dashboard.Store.Rows
use api_dashboard.Store.Rows.{Store, Lesson}
use api_dashboard.Store.Columns.{
  Column, course_id, course_name, class_name, lesson_date, class_start, class_end, attendance,
  attendance_seconds, camera_minutes, hand_raise, trophy, poll, homework_submitted, homework_late,
  homework_score, homework_activity_id, teacher_uid, teacher_name,
}
use api_dashboard.Store.Records.{insert_event, upsert_lesson_record, patch_lesson_record}
use api_dashboard.Store.Masters.{ensure_student, upsert_course, upsert_lesson, upsert_teacher}
use api_dashboard.Classin.Schemas.{
  Base, Member, Party, Work, Attendance, Kind, Event, Model, is_student, is_teacher, parse_event,
  score_percent,
}
use api_dashboard.Classin.Ended.{
  camera_minutes_by_uid, hand_raise_by_uid, trophy_by_uid, poll_by_uid,
}
use api_dashboard.Ingest.Columns.{
  both, attendance_label, union, parties, end_columns, iso, lesson_key, attendance_columns,
  message_id,
}

module _ {R : Type 0} (py : Python R) (now : String) where
  -- The body of the loop over the members.
  unfoldable pub ingest_member : Base → Attendance → Option Member → Member → Store R → Store R
  ingest_member b a teacher m s =
      if is_student m
      then upsert_lesson_record now (lesson_key py b none) m.uid (course_id b.course_id)
          (attendance_columns py b a teacher m) (ensure_student m.uid m.name s)
      else if is_teacher m
      then upsert_teacher m.uid m.name s
      else s

  unfoldable pub ingest_members :
      Base → Attendance → Option Member → List Member → Store R → Store R
  ingest_members b a teacher [] s = s
  ingest_members b a teacher (m ∷ ms) s =
      ingest_members b a teacher ms (ingest_member b a teacher m s)

  -- The row that `upsert_lesson` is called with.
  abbrev attended_lesson : Base → Attendance → Lesson
  attended_lesson b a = record {
    lesson_id = lesson_key py b none;
    course_id = b.course_id;
    title = a.class_name;
    start_time = a.class_start_time;
    end_time = a.class_end_time;
    teacher_uid = none;
    homework_activity_id = none;
    created_via = some "webhook";
    created_at = some now;
  }

  -- upsert_course, if the event names a course.
  unfoldable pub attended_course : Option ℕ → Option String → Store R → Store R
  attended_course none name s = s
  attended_course (some id) name s =
      if id == 0 then s else upsert_course now id name none none "webhook" s

  unfoldable pub ingest_attendance : Base → Attendance → Store R → Store R
  ingest_attendance b a s =
      ingest_members b a (find is_teacher a.members) a.members
        (upsert_lesson (attended_lesson b a) (attended_course b.course_id b.course_name s))

  unfoldable pub patch_uids :
      Base → List (ℕ × R) → List (ℕ × R) → List (ℕ × R) → List (ℕ × ℕ) → List ℕ → Store R → Store R
  patch_uids b camera hands trophies polls [] s = s
  patch_uids b camera hands trophies polls (uid ∷ uids) s =
      patch_uids b camera hands trophies polls uids (
        patch_lesson_record now (lesson_key py b none) uid (course_id b.course_id)
          (end_columns (lookup uid camera) (lookup uid hands) (lookup uid trophies)
            (map_option py.float (lookup uid polls)))
          s)

  -- none, and the store as it was, where `poll_by_uid` raises.
  unfoldable pub ingest_end : Base → Fields R → Store R → Store R × Bool
  ingest_end b d s = elim (poll_by_uid py d) [
    | none ↦ (s, false)
    | some polls ↦
        let camera = camera_minutes_by_uid py d in
        let hands = hand_raise_by_uid py d in
        let trophies = trophy_by_uid py d in
        (
          patch_uids b camera hands trophies polls
              (union (union (union (keys camera) (keys hands)) (keys trophies)) (keys polls)) s,
          true,
        )
  ]

  -- The handlers return at once where the event names no student with a uid.
  unfoldable pub submit_for : Base → Work R → Option Party → Store R → Store R
  submit_for b w none s = s
  submit_for b w (some p) s = elim p.uid [
    | none ↦ s
    | some uid ↦
        patch_lesson_record now (lesson_key py b (some w.activity_id)) uid (course_id b.course_id)
          (homework_submitted (some 1)
            ∷ homework_late (some (if truthy w.is_submit_late then 1 else 0))
            ∷ homework_activity_id (some w.activity_id)
            ∷ [])
          (ensure_student uid p.name s)
  ]

  unfoldable pub ingest_homework_submit : Base → Work R → Store R → Store R
  unfolding submit_for
  ingest_homework_submit b w s = submit_for b w w.student_info s

  unfoldable pub score_for : Base → Work R → Option Party → Store R → Store R
  score_for b w none s = s
  score_for b w (some p) s = elim p.uid [
    | none ↦ s
    | some uid ↦
        patch_lesson_record now (lesson_key py b (some w.activity_id)) uid (course_id b.course_id)
          (homework_score (score_percent py w) ∷ []) s
  ]

  unfoldable pub ingest_homework_score : Base → Work R → Store R → Store R
  unfolding score_for
  ingest_homework_score b w s = score_for b w w.student_info s

  -- The dispatch on the class of the event, and whether it returned.
  unfoldable pub apply_kind : Base → Kind R → Store R → Store R × Bool
  apply_kind b (Kind.attendance a) s = (ingest_attendance b a s, true)
  apply_kind b (Kind.close d) s = ingest_end b d s
  apply_kind b (Kind.homework_submit w) s = (ingest_homework_submit b w s, true)
  apply_kind b (Kind.homework_score w) s = (ingest_homework_score b w s, true)
  apply_kind b (Kind.rating (some uid)) s =
      (if uid == 0 then s else upsert_teacher uid none s, true)
  apply_kind b k s = (s, true)

  abbrev pub event_row : Json R → Event R → Rows.Event R
  event_row raw e = record {
    received_at = now;
    cmd = if nonempty e.base.cmd then e.base.cmd else "unknown";
    msg_id = message_id py raw;
    course_id = e.base.course_id;
    class_id = e.base.class_id;
    student_uid = (parties e.kind).0;
    teacher_uid = (parties e.kind).1;
    payload = raw;
  }

  unfoldable pub store_and_apply : Json R → Event R → Store R → Store R × Bool
  store_and_apply raw e s =
      let (s', inserted) = insert_event (event_row raw e) s in
      if inserted then apply_kind e.base e.kind s' else (s', true)

  -- The store that is left, and whether `ingest` returned (false: it raised).
  unfoldable pub ingest : (Model → Json R → Option (Event R)) → Json R → Store R → Store R × Bool
  ingest validate raw s = elim (parse_event py validate raw) [
    | none ↦ (s, false)
    | some e ↦ store_and_apply raw e s
  ]
