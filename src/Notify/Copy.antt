-- ===== src/Notify/Copy.antt =====
-- intelligence/notify_copy.py: the text for each student. What Claude answers is a parameter.
use api_dashboard.Prelude.{
  ℕ, String, Option, none, some, List, [], ◌∷◌, map, put, length, get_or, nonempty, ◌==◌, nat_eq,
  string_eq, if◌then◌else◌,
}
use api_dashboard.Json
use api_dashboard.Json.{Json, null, bool, int, real, str, arr, obj, Items, nil, cons, Fields}
use api_dashboard.Python.{Python}
use api_dashboard.Metrics.Missing.{MissingRow}
use api_dashboard.Schedule.Names.{prefix}
use api_dashboard.Schedule.Resolve.{text_of}

-- The rows of each student, and the message for each.
abbrev pub Grouped : Type 0 → Type 0
Grouped R = List (ℕ × List (MissingRow R))

abbrev pub Messages : Type 0
Messages = List (ℕ × String)

-- What a template is filled with.
pub record Fills : Type 0 where
  pub student_name : String
  pub class_name : String
  pub date : String
  pub missing_count : ℕ
  pub academy_name : String

-- x or d
abbrev pub or_else : Option String → String → String
or_else none d = d
or_else (some t) d = if nonempty t then t else d

-- An item of what Claude is asked about.
pub record AskedStudent : Type 0 where
  pub student_uid : ℕ
  pub student_name : String
  pub class_name : Option String
  pub missing_lessons : List (String × String)

module _ {R : Type 0} (py : Python R) where
  abbrev pub soft : Fills → String
  soft f = text_of (
      "안녕하세요 학부모님 😊\n[" ∷ f.student_name ∷ "] 학생이 " ∷ f.class_name
      ∷ " 숙제를 아직 제출하지 않았어요.\n마감 전 한 번만 확인 부탁드려요.\n\n- " ∷ f.academy_name ∷ [])

  abbrev pub firm : Fills → String
  firm f = text_of (
      "["
      ∷ f.student_name
      ∷ "] 학생 학부모님께 안내드립니다.\n"
      ∷ f.class_name
      ∷ " ("
      ∷ f.date
      ∷ ") 숙제 미제출이 확인되었습니다. 최근 "
      ∷ py.str f.missing_count
      ∷ "회 누적되었으니 오늘 안에 제출 확인 부탁드립니다.\n\n- "
      ∷ f.academy_name
      ∷ [])

  abbrev pub brief : Fills → String
  brief f = text_of (
      "[" ∷ f.student_name ∷ "] " ∷ f.class_name ∷ " 숙제 미제출. " ∷ f.date ∷ " 안에 제출 확인 부탁드립니다.\n- "
      ∷ f.academy_name ∷ [])

  -- TONE_TEMPLATES.get(tone, TONE_TEMPLATES["soft"]).format
  unfoldable pub template : String → Fills → String
  template tone f = if tone == "firm" then firm f else if tone == "brief" then brief f else soft f

  abbrev pub fills : String → MissingRow R → ℕ → Fills
  fills academy_name first n = record {
    student_name = first.student_name;
    class_name = or_else first.row.class_name (or_else first.row.course_name "수업");
    date = prefix 10 (get_or first.row.lesson_date "");
    missing_count = n;
    academy_name = academy_name;
  }

  -- The loop; a student has a row wherever it is called.
  unfoldable pub compose_from : String → String → Grouped R → Messages → Messages
  unfolding template
  compose_from academy_name tone [] out = out
  compose_from academy_name tone ((uid, []) ∷ groups) out =
      compose_from academy_name tone groups out
  compose_from academy_name tone ((uid, first ∷ rows) ∷ groups) out =
      compose_from academy_name tone groups
        (put uid (template tone (fills academy_name first (length (first ∷ rows)))) out)

  unfoldable pub compose_template_messages : Grouped R → String → String → Messages
  unfolding compose_from
  compose_template_messages groups academy_name tone = compose_from academy_name tone groups []

  abbrev pub missing_lesson : MissingRow R → String × String
  missing_lesson r = (prefix 10 (get_or r.row.lesson_date ""), r.row.lesson_id)

  unfoldable pub asked : Grouped R → List AskedStudent
  asked [] = []
  asked ((uid, []) ∷ groups) = asked groups
  asked ((uid, first ∷ rows) ∷ groups) =
      record {
        student_uid = uid;
        student_name = first.student_name;
        class_name = first.row.class_name;
        missing_lessons = map missing_lesson (first ∷ rows);
      }
      ∷ asked groups

  abbrev pub put_message : Option ℕ → String → Messages → Messages
  put_message none text out = out
  put_message (some uid) text out = put uid text out

  abbrev pub uid_in : Option (Json R) → Option ℕ
  uid_in none = none
  uid_in (some v) = py.to_int v

  -- str(item.get("message", ""))
  abbrev pub message_in : Option (Json R) → String
  message_in none = ""
  message_in (some v) = py.str_of v

  -- An item that is no dict, or has no uid, is passed over.
  abbrev pub take_item : Json R → Messages → Messages
  take_item (obj fields) out =
      put_message (uid_in (Json.lookup "student_uid" fields))
        (message_in (Json.lookup "message" fields)) out
  take_item v out = out

  unfoldable pub take_items : Items R → Messages → Messages
  unfolding Json.lookup
  take_items nil out = out
  take_items (cons v vs) out = take_items vs (take_item v out)

  -- The answer of the model; none where it is no list, and where the call raises.
  abbrev pub answered_messages : Option (Json R) → Option Messages
  answered_messages (some (arr items)) = some (take_items items [])
  answered_messages answer = none

  -- `run_json` is asked of the students and the name of the academy.
  unfoldable pub compose_ai_messages :
      (List AskedStudent → String → Option (Json R)) → Grouped R → String → Option Messages
  unfolding take_items asked
  compose_ai_messages run_json groups academy_name =
      answered_messages (run_json (asked groups) academy_name)
