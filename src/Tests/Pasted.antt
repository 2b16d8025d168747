-- ===== src/Tests/Pasted.antt =====
-- A line that is pasted, and read by rules: three sessions on Tuesdays and Thursdays.
use api_dashboard.Prelude.{
  ℕ, String, ◌≡◌, refl, false, none, some, List, [], ◌∷◌, sort, insert_sorted,
}
use api_dashboard.Scope.{for_branch}
use api_dashboard.Store.Access.{teacher_uids_in_scope, all_teachers}
use api_dashboard.Store.Queries.{teachers}
use api_dashboard.Schedule.{ParsedLesson, ParsedCourse, ParsePlan}
use api_dashboard.Schedule.Dates.{value, anchor_monday, parse_date, strip_times}
use api_dashboard.Schedule.Lessons.{weekday_match, weekdays_in, weekdays_of, lesson_dates}
use api_dashboard.Schedule.Resolve.{resolve_entities, new_plan}
use api_dashboard.Schedule.Times.{Scanner, kst}
use api_dashboard.Schedule.Heuristic.{split_course_name, find_teacher, lessons_at}
use api_dashboard.Schedule.Smart.{Claude, smart_parse}
use api_dashboard.Schedule.Whole.{IsResolved, smart_parse-IsResolved}
use api_dashboard.Tests.{py, school}
use api_dashboard.Tests.Plans.{percents, branch_two}
use api_dashboard.Tests.Timetables.{reader, tuesday_thursday}

abbrev scanner : Scanner
scanner = record {
  reader = reader;
  fullmatch = λ p t. false;
  start = λ p t. none;
  hit = λ p t. none;
  replaced = λ p by t. t;
  splitlines = λ t. t ∷ [];
  split = λ d t. t ∷ [];
  strip_of = λ chars t. t;
  csv_rows = λ d lines. [];
}

abbrev claude : Claude ℕ
claude = record { key_set = false; run_json = λ t d. none; validate = λ v. none }

abbrev evening : String → ℕ → ParsedLesson
evening title day = record {
  title = title;
  start_at = kst day 1140;
  end_at = kst day 1260;
  homework = none;
}

abbrev found : ParsedCourse
found = record {
  course_name = "화/목";
  teacher_name = none;
  lessons = evening "화/목 n회차" 739748 ∷ evening "화/목 n회차" 739750 ∷ evening "화/목 n회차" 739755 ∷ [];
}

abbrev assumed : List String
assumed =
    "「화/목」 시간이 없어 19:00-21:00으로 가정" ∷ "시작 시점이 없어 다음 주(n/n)부터로 가정"
    ∷ "AI 없이 규칙 기반으로 해석했습니다 — 날짜/시간을 꼭 확인하세요." ∷ []

abbrev plan : ParsePlan
plan =
    resolve_entities percents (new_plan (found ∷ []) assumed "text-heuristic") (some school)
      branch_two

pasted :
    smart_parse py claude percents scanner (some school) tuesday_thursday branch_two 739741
    ≡ value plan
unfolding smart_parse weekdays_in weekdays_of weekday_match lesson_dates anchor_monday sort
    insert_sorted split_course_name find_teacher lessons_at parse_date strip_times teachers
    teacher_uids_in_scope for_branch all_teachers
pasted = refl

smart_parse-IsResolved_example : IsResolved py claude percents scanner school branch_two plan
smart_parse-IsResolved_example =
    smart_parse-IsResolved py claude percents scanner school branch_two tuesday_thursday 739741 plan
      pasted
