-- ===== src/Ingest/Columns.antt =====
-- ingest.py: what an event says of its message, of its lesson and of the columns of a record, without
-- the store.
use Prim.Native.String.{◌++◌ as concat}
use api_dashboard.Prelude.{
  ℕ, ◌+◌, ◌*◌, String, Bool, false, ◌&&◌, Option, none, some, List, [], ◌∷◌, ◌++◌, get_or, truthy,
  ltb, leb, elem, map_option, cons_some, ◌==◌, nat_eq, string_eq, if◌then◌else◌,
}
use api_dashboard.Json
use api_dashboard.Json.{Json, null, obj, Fields}
use api_dashboard.Python.{Python}
use api_dashboard.Store.Columns.{
  Column, course_name, class_name, lesson_date, class_start, class_end, attendance,
  attendance_seconds, camera_minutes, hand_raise, trophy, poll, teacher_uid, teacher_name,
}
use api_dashboard.Classin.Schemas.{Base, Member, Party, Attendance, Kind}

abbrev pub late_grace_seconds : ℕ
late_grace_seconds = 300

-- x and y and test(x, y)
abbrev pub both : Option ℕ → Option ℕ → (ℕ → ℕ → Bool) → Bool
both none y test = false
both (some a) none test = false
both (some a) (some b) test = truthy (some a) && truthy (some b) && test a b

-- `first_in - class_start > grace` and `seconds < (class_end - class_start) * 0.5`, on numbers
-- whose difference may be negative.
unfoldable pub attendance_label : ℕ → Option ℕ → Option ℕ → Option ℕ → String
attendance_label seconds first_in start finish =
    if leb seconds 0
    then "결석"
    else if both first_in start (λ f c. ltb (c + late_grace_seconds) f)
    then "지각"
    else if both start finish (λ c d. ltb (c + 2 * seconds) d)
    then "지각"
    else "출석"

-- a or b
abbrev or_else : Option ℕ → Option ℕ → Option ℕ
or_else a b = if truthy a then a else b

-- set(a) | set(b), in the order of first occurrence. Nothing rests on the order of Python's set.
unfoldable pub union : List ℕ → List ℕ → List ℕ
union xs [] = xs
union xs (y ∷ ys) = union (if elem y xs then xs else xs ++ y ∷ []) ys

abbrev uid_of : Option Party → Option ℕ
uid_of none = none
uid_of (some p) = p.uid

module _ {R : Type 0} where
  -- student_uid and teacher_uid of the row in `events`.
  unfoldable pub parties : Kind R → Option ℕ × Option ℕ
  parties (Kind.homework_submit w) = (uid_of w.student_info, uid_of w.teacher_info)
  parties (Kind.homework_score w) = (uid_of w.student_info, uid_of w.teacher_info)
  parties (Kind.answer_sheet_score w) = (uid_of w.student_info, uid_of w.teacher_info)
  parties (Kind.rating tuid) = (none, tuid)
  parties k = (none, none)

  -- The columns that the close of a lesson gives, of those that are not None.
  unfoldable pub end_columns : Option R → Option R → Option R → Option R → List (Column R)
  end_columns camera hands trophies polls =
      cons_some (map_option (λ v. camera_minutes (some v)) camera) (
        cons_some (map_option (λ v. hand_raise (some v)) hands) (
          cons_some (map_option (λ v. trophy (some v)) trophies)
            (cons_some (map_option (λ v. poll (some v)) polls) [])))

module _ {R : Type 0} (py : Python R) where
  -- _iso
  unfoldable pub iso : Option ℕ → Option String
  iso none = none
  iso (some ts) = if ts == 0 then none else some (py.iso ts)

  -- _lesson_key
  unfoldable pub lesson_key : Base → Option ℕ → String
  lesson_key b activity_id =
      if truthy b.class_id
      then py.str (get_or b.class_id 0)
      else if truthy activity_id
      then concat "homework:" (py.str (get_or activity_id 0))
      else "unknown"

  -- The columns of a student's row that an attendance event gives.
  unfoldable pub attendance_columns : Base → Attendance → Option Member → Member → List (Column R)
  unfolding attendance_label iso
  attendance_columns b a teacher m =
      course_name b.course_name
      ∷ class_name a.class_name
      ∷ lesson_date (iso (or_else a.class_start_time b.action_time))
      ∷ class_start a.class_start_time
      ∷ class_end a.class_end_time
      ∷ attendance (
          some (
            attendance_label m.attendance_time m.first_in_time a.class_start_time a.class_end_time))
      ∷ attendance_seconds (some m.attendance_time)
      ∷ teacher_uid (map_option (λ (t : Member). t.uid) teacher)
      ∷ teacher_name (elim teacher [ none ↦ none | some t ↦ t.name ])
      ∷ []

  -- str(msg_id) if msg_id is not None else None
  unfoldable pub message_id : Json R → Option String
  message_id raw = elim (Json.get "_id" raw) [
    | none ↦ none
    | some null ↦ none
    | some v ↦ some (py.str_of v)
  ]
