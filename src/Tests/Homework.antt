-- ===== src/Tests/Homework.antt =====
-- A push of a submission, with another push after it.
use api_dashboard.Prelude.{ℕ, ◌≡◌, refl, false, Option, none, some, [], ◌∷◌, any}
use api_dashboard.Json
use api_dashboard.Json.{Json, str, obj, field, end}
use api_dashboard.Scope.{all}
use api_dashboard.Store.Records.{same_message, has_key}
use api_dashboard.Store.Keys.{HasKeys}
use api_dashboard.Classin.Schemas.{Party, Work, Kind, Event, Model, parse_event}
use api_dashboard.Metrics.Missing.{MissingRow, missing_homework_rows}
use api_dashboard.Ingest.{ingest}
use api_dashboard.Ingest.Columns.{lesson_key, message_id}
use api_dashboard.Ingest.Reported.{ingest_all, missing_homework_rows-ingest_all}
use api_dashboard.Tests.{py, push, rating}
use api_dashboard.Tests.Reports.{num, term}

abbrev submission : Json ℕ
submission = obj (field "_id" (str "m2") (field "Cmd" (str "HomeworkSubmit") end))

abbrev student : Party
student = record { uid = some 5; name = some "민수" }

abbrev work : Work ℕ
work = record {
  activity_id = 4;
  student_info = some student;
  teacher_info = none;
  is_submit_late = none;
  score = none;
  student_scoring_rate = none;
}

abbrev submitted : Event ℕ
submitted = record {
  base = record rating.base { cmd = "HomeworkSubmit" };
  kind = Kind.homework_submit work;
}

abbrev validate : Model → Json ℕ → Option (Event ℕ)
validate model raw = elim model [ Model.homework_submit ↦ some submitted | _ ↦ some rating ]

submission_parsed : parse_event py validate submission ≡ some submitted
unfolding parse_event Json.lookup
submission_parsed = refl

submission_new : any (same_message (message_id py submission)) term.events ≡ false
submission_new = refl

term-HasKeys : HasKeys term
term-HasKeys = record {
  events = tt;
  lesson_records = (refl, (refl, tt));
  students = (refl, (refl, tt));
  courses = (refl, (refl, tt));
  lessons = (refl, (refl, tt));
  teachers = (refl, (refl, tt));
  branches = (refl, (refl, tt));
  branch_names = (refl, (refl, tt));
  users = tt;
  usernames = tt;
}

missing_homework_rows-ingest_all_example :
    any
      (λ (m : MissingRow ℕ). has_key (lesson_key py submitted.base (some 4)) 5 m.row)
      (missing_homework_rows num
        (ingest_all py validate (("t1", push) ∷ []) (ingest py "t0" validate submission term).0)
        all
        "2026-05-01")
    ≡ false
missing_homework_rows-ingest_all_example =
    missing_homework_rows-ingest_all py validate "t0" submission term submitted work student 5
      (("t1", push) ∷ []) term-HasKeys submission_parsed refl refl refl submission_new num all
      "2026-05-01"
