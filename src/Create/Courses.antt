-- ===== src/Create/Courses.antt =====
-- web/routes_create.py: the loop of create_execute over the courses of a plan.
use Prim.Native.String.{◌++◌ as concat}
use api_dashboard.Prelude.{
  ℕ, String, Option, none, some, List, [], ◌∷◌, truthy, nonempty, get_or, ◌==◌, nat_eq, string_eq,
  if◌then◌else◌,
}
use api_dashboard.Schedule.{DateTime, ParsedHomework, ParsedLesson, PlannedCourse}
use api_dashboard.Store.Rows.{Lesson}
use api_dashboard.Store.Masters.{upsert_course, upsert_lesson}
use api_dashboard.Create.{
  Call, add_course, create_unit, create_classroom, create_activity, Answer, id, no_id, raised,
  refused, Clock, Run, made, note_created, note_error, Flow, go, crash, ◌>>=◌,
}

-- What an upsert_lesson call of the handler names.
abbrev pub lesson_row :
    String → String → Option ℕ → Option String → Option ℕ → Option ℕ → Option ℕ → Option ℕ → Lesson
lesson_row now lesson_id course title start finish teacher activity = record {
  lesson_id = lesson_id;
  course_id = course;
  title = title;
  start_time = start;
  end_time = finish;
  teacher_uid = teacher;
  homework_activity_id = activity;
  created_via = some "api";
  created_at = some now;
}

-- course.teacher_name or '미지정'
abbrev pub named : Option String → String
named none = "미지정"
named (some t) = if nonempty t then t else "미지정"

abbrev pub words : List String → String
words [] = ""
words (t ∷ ts) = concat t (words ts)

-- The day of the last lesson.
abbrev pub last_day : ParsedLesson → List ParsedLesson → ℕ
last_day first [] = first.start_at.day
last_day first (lesson ∷ lessons) = last_day lesson lessons

module _ (clock : Clock) where
  abbrev pub due : Option DateTime → Option ℕ
  due none = none
  due (some at) = some (clock.timestamp at)

  abbrev pub shown_id : Option ℕ → String
  shown_id none = "None"
  shown_id (some n) = clock.str n

  abbrev pub span : ParsedLesson → List ParsedLesson → String
  span first lessons =
      if first.start_at.day == last_day first lessons
      then clock.day_text first.start_at.day
      else words
          (clock.day_text first.start_at.day ∷ "~" ∷ clock.day_text (last_day first lessons) ∷ [])

  abbrev pub first_start : List ParsedLesson → String
  first_start [] = ""
  first_start (lesson ∷ lessons) = clock.instant_text lesson.start_at

  abbrev pub identity : PlannedCourse → String
  identity course =
      clock.md5_32 (words ("dash:" ∷ course.course_name ∷ ":" ∷ first_start course.lessons ∷ []))

module _ {R : Type 0} (clock : Clock) (api : List Call → Call → Answer) (now : String)
    (course : PlannedCourse) (teacher : ℕ) where
  -- upsert_lesson(str(class_id), homework_activity_id=...), where there is a class.
  abbrev pub homework_saved : Option ℕ → ℕ → Run R → Run R
  homework_saved none activity r = r
  homework_saved (some class_id) activity r = if class_id == 0 then r else record r {
    store =
        upsert_lesson (lesson_row now (clock.str class_id) none none none none none (some activity))
          r.store;
  }

  abbrev pub activity_answered : ParsedHomework → Option ℕ → Answer → Run R → Flow (Run R)
  activity_answered h class_id (id activity) r = go (
      note_created
        (words (
          "숙제 「"
          ∷ h.title
          ∷ "」 (activity "
          ∷ clock.str activity
          ∷ ") — "
          ∷ "내용은 ClassIn에서 채운 뒤 출제하세요 (빈 숙제는 API 출제 불가)"
          ∷ []))
        (homework_saved class_id activity r))
  activity_answered h class_id (refused message) r =
      go (note_error (words (h.title ∷ ": 숙제 생성 실패 — " ∷ message ∷ [])) r)
  activity_answered h class_id no_id r = crash r
  activity_answered h class_id raised r = crash r

  -- `if lesson.homework and unit_id`
  unfoldable pub create_homework :
      ℕ → ParsedLesson → Option ParsedHomework → Option ℕ → Option ℕ → Run R → Flow (Run R)
  create_homework course_id lesson none unit class_id r = go r
  create_homework course_id lesson (some h) none class_id r = go r
  create_homework course_id lesson (some h) (some unit) class_id r =
      let call =
        create_activity course_id unit h.title teacher (clock.timestamp lesson.end_at)
          (due clock h.due_at) in
      if unit == 0 then go r else activity_answered h class_id (api r.calls call) (made call r)

  abbrev pub class_saved : ℕ → ParsedLesson → Option ℕ → Run R → Run R
  class_saved course_id lesson none r = r
  class_saved course_id lesson (some class_id) r = if class_id == 0 then r else record r {
    store =
        upsert_lesson
          (lesson_row now (clock.str class_id) (some course_id) (some lesson.title)
            (some (clock.timestamp lesson.start_at)) (some (clock.timestamp lesson.end_at))
            (some teacher) none)
          r.store;
  }

  -- A classroom was created.
  abbrev pub class_created : ℕ → Option ℕ → ParsedLesson → Option ℕ → Run R → Flow (Run R)
  class_created course_id unit lesson class_id r =
      create_homework course_id lesson lesson.homework unit class_id (
        note_created (words ("수업 「" ∷ lesson.title ∷ "」 (ID " ∷ shown_id clock class_id ∷ ")" ∷ []))
          (class_saved course_id lesson class_id r))

  abbrev pub classroom_answered : ℕ → Option ℕ → ParsedLesson → Answer → Run R → Flow (Run R)
  classroom_answered course_id unit lesson (id class_id) r =
      class_created course_id unit lesson (some class_id) r
  classroom_answered course_id unit lesson no_id r = class_created course_id unit lesson none r
  classroom_answered course_id unit lesson (refused message) r =
      go (note_error (words (lesson.title ∷ ": 수업 생성 실패 — " ∷ message ∷ [])) r)
  classroom_answered course_id unit lesson raised r = crash r

  -- The body of the loop over the lessons.
  unfoldable pub create_lesson : ℕ → Option ℕ → ParsedLesson → Run R → Flow (Run R)
  create_lesson course_id unit lesson r =
      let call =
        create_classroom course_id lesson.title teacher (clock.timestamp lesson.start_at)
          (clock.timestamp lesson.end_at) unit in
      classroom_answered course_id unit lesson (api r.calls call) (made call r)

  unfoldable pub create_lessons : ℕ → Option ℕ → List ParsedLesson → Run R → Flow (Run R)
  create_lessons course_id unit [] r = go r
  create_lessons course_id unit (lesson ∷ lessons) r =
      create_lesson course_id unit lesson r >>= create_lessons course_id unit lessons

  -- The lessons of the course, in the unit that was created, or in none.
  abbrev pub unit_answered : ℕ → Answer → Run R → Flow (Run R)
  unit_answered course_id (id unit) r = create_lessons course_id (some unit) course.lessons r
  unit_answered course_id (refused message) r =
      create_lessons course_id none course.lessons
        (note_error (words (course.course_name ∷ ": 단원 생성 실패 — " ∷ message ∷ [])) r)
  unit_answered course_id no_id r = crash r
  unit_answered course_id raised r = crash r

  unfoldable pub create_units : ℕ → List ParsedLesson → Run R → Flow (Run R)
  unfolding create_lessons
  create_units course_id [] r = go r
  create_units course_id (first ∷ lessons) r =
      let call = create_unit course_id (concat "대시보드 등록 - " (span clock first lessons)) in
      unit_answered course_id (api r.calls call) (made call r)

  -- The course is there: upsert_course, and what follows it.
  abbrev pub fill_course : ℕ → Run R → Flow (Run R)
  fill_course course_id r = create_units course_id course.lessons (record r {
    store = upsert_course now course_id (some course.course_name) (some teacher) none "api" r.store;
  })

  abbrev pub course_answered : Answer → Run R → Flow (Run R)
  course_answered (id course_id) r = fill_course course_id (
      note_created (words ("코스 「" ∷ course.course_name ∷ "」 (ID " ∷ clock.str course_id ∷ ")" ∷ []))
        r)
  course_answered (refused message) r =
      go (note_error (words (course.course_name ∷ ": addCourse 실패 — " ∷ message ∷ [])) r)
  course_answered no_id r = crash r
  course_answered raised r = crash r

  -- A course of a teacher that is known.
  unfoldable pub create_course : Option ℕ → Run R → Flow (Run R)
  unfolding create_units
  create_course existing r =
      let call = add_course course.course_name teacher (identity clock course) in
      if truthy existing
      then fill_course (get_or existing 0) (
          note_created
            (words (
              "기존 코스 「"
              ∷ course.course_name
              ∷ "」 (ID "
              ∷ clock.str (get_or existing 0)
              ∷ ") 재사용"
              ∷ []))
            r)
      else course_answered (api r.calls call) (made call r)

module _ {R : Type 0} (clock : Clock) (api : List Call → Call → Answer) (now : String) where
  abbrev pub with_teacher : PlannedCourse → Option ℕ → Run R → Flow (Run R)
  with_teacher c uid r =
      if truthy uid
      then create_course clock api now c (get_or uid 0) c.existing_course_id r
      else go (
          note_error
            (words (
              c.course_name
              ∷ ": 선생님을 확정하지 못했습니다"
              ∷ " ("
              ∷ named c.teacher_name
              ∷ ") — 미리보기에서 선택하세요."
              ∷ []))
            r)

  -- The body of the loop over the courses.
  unfoldable pub execute_course : PlannedCourse → Run R → Flow (Run R)
  execute_course c r = elim c.blocked_reason [
    | none ↦ with_teacher c c.teacher_uid r
    | some reason ↦
        if nonempty reason then go (note_error reason r) else with_teacher c c.teacher_uid r
  ]

  unfoldable pub execute : List PlannedCourse → Run R → Flow (Run R)
  unfolding execute_course
  execute [] r = go r
  execute (c ∷ courses) r = execute_course c r >>= execute courses
