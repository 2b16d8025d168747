-- ===== src/Store/Records.antt =====
-- store.py: the raw log, the events, the lesson records and the notification history. `now` is the
-- instant that `_now()` returned.
use api_dashboard.Prelude.{
  ℕ, String, Bool, true, false, ◌&&◌, Option, none, some, List, [], ◌∷◌, ◌++◌, any, upsert, ◌==◌,
  nat_eq, string_eq, option_eq, if◌then◌else◌,
}
use api_dashboard.Json.{Json}
use api_dashboard.Store.Rows.{Store, Event, LessonRecord, blank, Notification}
use api_dashboard.Store.Columns.{Column, assign_all}

module _ {R : Type 0} where
  unfoldable pub append_raw : String → Json R → Store R → Store R
  append_raw now payload s = record s { raw_log = s.raw_log ++ (now, payload) ∷ [] }

  -- INSERT OR IGNORE under the unique index on the msg_id that are not NULL.
  abbrev pub same_message : Option String → Event R → Bool
  same_message none e = false
  same_message (some m) e = e.msg_id == some m

  -- The new event, and whether it was new.
  unfoldable pub insert_event : Event R → Store R → Store R × Bool
  insert_event event s =
      if any (same_message event.msg_id) s.events
      then (s, false)
      else (record s { events = s.events ++ event ∷ [] }, true)

  abbrev pub has_key : String → ℕ → LessonRecord R → Bool
  has_key lesson_id student_uid r = (r.lesson_id == lesson_id) && (r.student_uid == student_uid)

  -- SET of the given columns, and of updated_at.
  unfoldable pub set_columns : String → List (Column R) → LessonRecord R → LessonRecord R
  unfolding assign_all
  set_columns now columns r = record (assign_all columns r) { updated_at = some now }

  -- Every call names a column; with none the statement would not parse.
  unfoldable pub upsert_lesson_record :
      String → String → ℕ → Column R → List (Column R) → Store R → Store R
  upsert_lesson_record now lesson_id student_uid column columns s = record s {
    lesson_records =
        upsert (has_key lesson_id student_uid) (set_columns now (column ∷ columns))
          (set_columns now (column ∷ columns) (blank lesson_id student_uid)) s.lesson_records;
  }

  unfoldable pub patch_lesson_record :
      String → String → ℕ → Column R → List (Column R) → Store R → Store R
  patch_lesson_record = upsert_lesson_record

  unfoldable pub append_notification : Notification → Store R → Store R
  append_notification n s = record s { notify_history = s.notify_history ++ n ∷ [] }
