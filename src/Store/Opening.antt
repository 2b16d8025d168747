-- ===== src/Store/Opening.antt =====
-- store.py: _SCHEMA, which EventStore.__init__ runs before _migrate. A statement of the script is
-- told by its names; types, keys and constraints are left out.
use api_dashboard.Prelude.{
  String, Option, none, some, map_option, bind_option, is_some, List, [], ◌∷◌, elem, lookup, put,
  string_eq, if◌then◌else◌,
}
use api_dashboard.Store.Migration.{Database, table_info, migrate}

-- CREATE TABLE IF NOT EXISTS with the names of the columns, and CREATE INDEX IF NOT EXISTS with the
-- name of the index, its table and its column.
pub data Statement : Type 0 where
  create_table : String → List String → Statement
  create_index : String → String → String → Statement

-- A database with the names of its indices.
pub record Indexed : Type 0 where
  pub tables : Database
  pub indices : List String

-- An index of a column that is not there raises.
abbrev pub execute_statement : Statement → Indexed → Option Indexed
execute_statement (create_table table columns) db = some (
    if is_some (lookup table db.tables)
    then db
    else record db { tables = put table columns db.tables })
execute_statement (create_index index table column) db =
    if elem index db.indices
    then some db
    else if elem column (table_info table db.tables)
    then some (record db { indices = index ∷ db.indices })
    else none

unfoldable pub executescript : List Statement → Indexed → Option Indexed
executescript [] db = some db
executescript (statement ∷ script) db =
    bind_option (execute_statement statement db) (executescript script)

-- EventStore.__init__
unfoldable pub open_store : List Statement → List (String × String) → Indexed → Option Indexed
open_store script added db =
    bind_option (executescript script db)
      (λ made. map_option (λ t. record made { tables = t }) (migrate added made.tables))

-- _SCHEMA
abbrev pub schema : List Statement
schema =
    create_table "events" (
      "id" ∷ "received_at" ∷ "cmd" ∷ "msg_id" ∷ "course_id" ∷ "class_id" ∷ "student_uid"
      ∷ "teacher_uid" ∷ "payload" ∷ [])
    ∷ create_index "idx_events_msg" "events" "msg_id"
    ∷ create_index "idx_events_cmd" "events" "cmd"
    ∷ create_index "idx_events_course" "events" "course_id"
    ∷ create_index "idx_events_student" "events" "student_uid"
    ∷ create_index "idx_events_teacher" "events" "teacher_uid"
    ∷ create_table "lesson_records" (
        "lesson_id" ∷ "student_uid" ∷ "course_id" ∷ "course_name" ∷ "class_name" ∷ "lesson_date"
        ∷ "class_start" ∷ "class_end" ∷ "attendance" ∷ "attendance_seconds" ∷ "camera_minutes"
        ∷ "hand_raise" ∷ "trophy" ∷ "poll" ∷ "homework_submitted" ∷ "homework_late"
        ∷ "homework_score" ∷ "homework_activity_id" ∷ "teacher_uid" ∷ "teacher_name" ∷ "updated_at"
        ∷ [])
    ∷ create_index "idx_lr_course" "lesson_records" "course_id"
    ∷ create_index "idx_lr_student" "lesson_records" "student_uid"
    ∷ create_index "idx_lr_date" "lesson_records" "lesson_date"
    ∷ create_table "students" ("uid" ∷ "name" ∷ "class_name" ∷ "parent_phone" ∷ [])
    ∷ create_table "courses"
        ("course_id" ∷ "name" ∷ "teacher_uid" ∷ "teacher_name" ∷ "created_via" ∷ "created_at" ∷ [])
    ∷ create_table "lessons" (
        "lesson_id" ∷ "course_id" ∷ "title" ∷ "start_time" ∷ "end_time" ∷ "teacher_uid"
        ∷ "homework_activity_id" ∷ "created_via" ∷ "created_at" ∷ [])
    ∷ create_index "idx_lessons_course" "lessons" "course_id"
    ∷ create_table "teachers" ("uid" ∷ "name" ∷ [])
    ∷ create_table "notify_history" (
        "id" ∷ "created_at" ∷ "event_type" ∷ "provider" ∷ "status" ∷ "student_uid" ∷ "student_name"
        ∷ "message" ∷ "error" ∷ [])
    ∷ create_index "idx_nh_student" "notify_history" "student_uid"
    ∷ create_table "branches" ("id" ∷ "name" ∷ "sid" ∷ "secret" ∷ "created_at" ∷ [])
    ∷ create_table "users" (
        "id" ∷ "username" ∷ "password_hash" ∷ "role" ∷ "branch_id" ∷ "teacher_uid" ∷ "active"
        ∷ "created_at" ∷ [])
    ∷ []
