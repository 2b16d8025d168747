-- ===== src/Schedule/Heuristic.antt =====
-- intelligence/schedule_parser.py: the reading of free text by rules.
use Prim.Native.String.{count}
use api_dashboard.Prelude.{
  ℕ, suc, ◌+◌, ◌-◌, String, Bool, true, ◌&&◌, not, Option, none, some, is_some, List, [], ◌∷◌, ◌++◌,
  map, keep, find, lookup, put, get_or, length, leb, ltb, nonempty, ◌==◌, nat_eq, string_eq,
  option_eq, if◌then◌else◌,
}
use api_dashboard.Schedule.{DateTime, ParsedHomework, ParsedLesson, ParsedCourse}
use api_dashboard.Schedule.Names.{prefix}
use api_dashboard.Schedule.Dates.{Raise, value, contains, group, parse_date}
use api_dashboard.Schedule.Lessons.{weekday_match, weekdays_in, lesson_dates}
use api_dashboard.Schedule.Resolve.{text_of}
use api_dashboard.Schedule.Times.{Scanner, kst, parse_time_range, ◌>>=◌}

abbrev pub teacher_token : String
teacher_token = "([가-힣]{1,4}(?:선생님|선생|쌤|샘)|[가-힣]{2,4}T)(?![가-힣])"

abbrev pub due_phrase : String
due_phrase = "(?:수업\\s*)?(\\d{1,2}|하루|이틀|사흘|나흘|당일)\\s*일?\\s*(?:뒤|후|후에)\\s*(?:까지|마감|제출)?"

-- _KO_COUNT_WORDS
abbrev pub count_words : List (String × ℕ)
count_words = ("하루", 1) ∷ ("이틀", 2) ∷ ("사흘", 3) ∷ ("나흘", 4) ∷ ("당일", 0) ∷ []

abbrev pub least : ℕ → List (Option ℕ) → ℕ
least n [] = n
least n (none ∷ cuts) = least n cuts
least n (some k ∷ cuts) = least (if ltb k n then k else n) cuts

-- The homework lines of the courses, by the places of the courses.
abbrev pub HomeworkLines : Type 0
HomeworkLines = List (ℕ × List String)

-- The loop over the lines: the courses, the assumptions and the homework lines so far.
pub record Reading : Type 0 where
  pub courses : List ParsedCourse
  pub assumptions : List String
  pub homework_lines : HomeworkLines

module _ (scanner : Scanner) where
  open scanner use {reader}

  -- The place of the token that _weekday_match finds.
  abbrev pub weekday_start : String → Option ℕ
  weekday_start line = elim (weekday_match reader line) [
    | none ↦ none
    | some token ↦ scanner.start token line
  ]

  unfoldable pub split_course_name : String → String
  split_course_name line =
      let cut = least (count line) (
        scanner.start teacher_token line
        ∷ weekday_start line
        ∷ scanner.start "(?:(\\d{1,2})\\s*월\\s*)?(첫|둘|셋|넷|다섯)\\s*째?\\s*주" line
        ∷ scanner.start "\\d{1,2}\\s*[:시]" line
        ∷ scanner.start "\\d{4}\\s*[-/.]\\s*\\d{1,2}" line
        ∷ []) in
      scanner.strip_of " \t,;·-–—" (prefix cut line)

  abbrev pub token_teacher : Option (List (Option String)) → Option String
  token_teacher none = none
  token_teacher (some hit) = group 1 hit

  -- _find_teacher
  unfoldable pub find_teacher : String → List String → Option String
  find_teacher line known = elim (find (λ name. nonempty name && contains line name) known) [
    | some name ↦ some name
    | none ↦ token_teacher (reader.search teacher_token line)
  ]

  -- The days of a due phrase.
  abbrev pub offset_of : Option String → ℕ
  offset_of token = elim (lookup (get_or token "") count_words) [
    | some n ↦ n
    | none ↦ reader.int token
  ]

  abbrev pub title_of : String → String
  title_of body =
      let title = reader.strip (reader.sub "\\s+" " " body) in
      if nonempty title then title else "숙제"

  abbrev pub homework_of : String → DateTime → Option (List (Option String)) → ParsedHomework
  homework_of body lesson_end none = record { title = title_of body; due_at = none }
  homework_of body lesson_end (some hit) = record {
    title = title_of (scanner.strip_of " ()[],·-" (scanner.replaced due_phrase " " body));
    due_at = some (kst (lesson_end.day + offset_of (group 1 hit)) 1439);
  }

  -- _homework_from
  unfoldable pub homework_from : String → DateTime → ParsedHomework
  homework_from line lesson_end =
      let body = reader.sub "^\\s*(숙제|과제)\\s*[:：\\-]?\\s*" "" (reader.strip line) in
      homework_of body lesson_end (reader.search due_phrase body)

  -- The lessons of a line, from the place of the first on.
  unfoldable pub lessons_at : String → ℕ × ℕ → ℕ → List ℕ → List ParsedLesson
  lessons_at name span i [] = []
  lessons_at name span i (d ∷ dates) =
      record {
        title = text_of (name ∷ " " ∷ reader.str (suc i) ∷ "회차" ∷ []);
        start_at = kst d span.0;
        end_at = kst d span.1;
        homework = none;
      }
      ∷ lessons_at name span (suc i) dates

  -- The times of a line, with the assumptions that they rest on.
  abbrev pub afternoon : String → ℕ × ℕ → Option String → List String
  afternoon name span none = []
  afternoon name span (some shorthand) =
      if leb 720 span.0
      then text_of ("「" ∷ name ∷ "」 '" ∷ shorthand ∷ "'를 오후 수업으로 해석" ∷ []) ∷ []
      else []

  abbrev pub span_or_evening : String → String → Option (ℕ × ℕ) → (ℕ × ℕ) × List String
  span_or_evening line name none =
      ((1140, 1260), text_of ("「" ∷ name ∷ "」 시간이 없어 19:00-21:00으로 가정" ∷ []) ∷ [])
  span_or_evening line name (some span) =
      (span, afternoon name span (scanner.hit "\\d{1,2}\\s*[-~–—]\\s*\\d{1,2}\\s*시" line))

  -- The course of a line, where it has a date.
  abbrev pub add_course :
      String → Option String → (ℕ × ℕ) × List String → List ℕ × List String → Reading → Reading
  add_course name teacher span ([], notes) r = r
  add_course name teacher (span, assumed) (d ∷ dates, notes) r = record r {
    courses =
        r.courses
        ++ record {
          course_name = name;
          teacher_name = teacher;
          lessons = lessons_at name span 0 (d ∷ dates);
        }
          ∷ [];
    assumptions = r.assumptions ++ (assumed ++ notes);
  }

  abbrev pub course_name_of : String → ℕ → String
  course_name_of line n =
      let name = split_course_name line in
      if nonempty name then name else text_of ("코스 " ∷ reader.str (suc n) ∷ [])

  abbrev pub course_line :
      List String → ℕ → String → List ℕ → Option (ℕ × ℕ) → Reading → Raise Reading
  course_line known day line weekdays span r =
      let name = course_name_of line (length r.courses) in
      lesson_dates reader line weekdays day >>= λ dates.
      value (add_course name (find_teacher line known) (span_or_evening line name span) dates r)

  -- A line with neither a weekday nor a time nor a date is passed over.
  abbrev pub has_schedule : ℕ → String → List ℕ → Option (ℕ × ℕ) → Bool
  has_schedule day line (w ∷ ws) span = true
  has_schedule day line [] (some span) = true
  has_schedule day line [] none = is_some (parse_date reader line (reader.year day))

  abbrev pub spanned_line :
      List String → ℕ → String → List ℕ → Reading → Option (ℕ × ℕ) → Raise Reading
  spanned_line known day line weekdays r span =
      if has_schedule day line weekdays span
      then course_line known day line weekdays span r
      else value r

  abbrev pub homework_line : String → Reading → Reading
  homework_line line r =
      let n = length r.courses in
      if n == 0 then r else record r {
        homework_lines =
            put (n - 1) (get_or (lookup (n - 1) r.homework_lines) [] ++ line ∷ []) r.homework_lines;
      }

  -- The body of the loop over the lines.
  abbrev pub read_line : List String → ℕ → String → Reading → Raise Reading
  read_line known day raw_line r =
      let line = reader.strip raw_line in
      if not (nonempty line)
      then value r
      else if is_some (scanner.hit "^(숙제|과제)(?![가-힣])" line)
      then value (homework_line line r)
      else parse_time_range scanner line true
        >>= spanned_line known day line (weekdays_in reader line) r

  unfoldable pub read_lines : List String → ℕ → List String → Reading → Raise Reading
  unfolding parse_time_range weekdays_in split_course_name find_teacher lesson_dates lessons_at
  read_lines known day [] r = value r
  read_lines known day (l ∷ ls) r = read_line known day l r >>= read_lines known day ls

  -- Every lesson of a course gets the homework of a line, the last line's in the end.
  abbrev pub give_homework : String → ParsedLesson → ParsedLesson
  give_homework line lesson = record lesson { homework = some (homework_from line lesson.end_at) }

  abbrev pub give_lines : List String → List ParsedLesson → List ParsedLesson
  give_lines [] lessons = lessons
  give_lines (line ∷ lines) lessons = give_lines lines (map (give_homework line) lessons)

  -- The courses, from a place on, with what the dict has for their places.
  unfoldable pub with_homework : HomeworkLines → ℕ → List ParsedCourse → List ParsedCourse
  unfolding homework_from
  with_homework lines i [] = []
  with_homework lines i (c ∷ cs) =
      record c { lessons = give_lines (get_or (lookup i lines) []) c.lessons }
      ∷ with_homework lines (suc i) cs

  abbrev pub rule_note : List ParsedCourse → List String
  rule_note [] = []
  rule_note (c ∷ cs) = "AI 없이 규칙 기반으로 해석했습니다 — 날짜/시간을 꼭 확인하세요." ∷ []

  abbrev pub reading_done : Reading → List ParsedCourse × List String
  reading_done r =
      (with_homework r.homework_lines 0 r.courses, r.assumptions ++ rule_note r.courses)

  unfoldable pub heuristic_parse :
      String → List String → ℕ → Raise (List ParsedCourse × List String)
  unfolding read_lines with_homework
  heuristic_parse raw_text known_teachers today =
      read_lines (keep nonempty known_teachers) today (scanner.splitlines raw_text)
        (record { courses = []; assumptions = []; homework_lines = [] })
      >>= λ r. value (reading_done r)
