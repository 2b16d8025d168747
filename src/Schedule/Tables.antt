-- ===== src/Schedule/Tables.antt =====
-- intelligence/schedule_parser.py: the reading of a table (CSV or TSV).
use api_dashboard.Prelude.{
  distinct, ℕ, suc, String, Bool, false, ◌&&◌, ◌||◌, not, Option, none, some, List, [], ◌∷◌, ◌++◌,
  map, keep, collect, lookup, put, elem, get_or, length, leb, nonempty, string_eq, option_eq,
  if◌then◌else◌,
}
use api_dashboard.Schedule.{DateTime, ParsedHomework, ParsedCourse}
use api_dashboard.Schedule.Dates.{Raise, value, error, contains, parse_date}
use api_dashboard.Schedule.Resolve.{text_of}
use api_dashboard.Schedule.Times.{Scanner, kst, later, parse_time_range, parse_clock, ◌>>=◌}

-- The names of a column.
abbrev pub column_names : List (String × List String)
column_names =
    (
      "course_name",
      "course_name" ∷ "course" ∷ "class" ∷ "코스" ∷ "코스명" ∷ "반" ∷ "반이름" ∷ "강좌" ∷ "강좌명" ∷ [],
    )
    ∷ ("teacher", "teacher" ∷ "teacher_name" ∷ "선생님" ∷ "선생" ∷ "강사" ∷ "강사명" ∷ "담당" ∷ "담당선생님" ∷ [])
    ∷ ("date", "date" ∷ "날짜" ∷ "일자" ∷ "수업일" ∷ "일정" ∷ [])
    ∷ ("start", "start" ∷ "start_at" ∷ "start_time" ∷ "시작" ∷ "시작시간" ∷ "시작시각" ∷ [])
    ∷ ("end", "end" ∷ "end_at" ∷ "end_time" ∷ "종료" ∷ "종료시간" ∷ "종료시각" ∷ "끝" ∷ [])
    ∷ ("lesson_title", "lesson_title" ∷ "lesson" ∷ "title" ∷ "수업" ∷ "수업명" ∷ "수업제목" ∷ "차시" ∷ [])
    ∷ ("homework_title", "homework_title" ∷ "homework" ∷ "숙제" ∷ "숙제명" ∷ "과제" ∷ "과제명" ∷ [])
    ∷ ("homework_due", "homework_due" ∷ "due" ∷ "due_at" ∷ "마감" ∷ "마감일" ∷ "숙제마감" ∷ "제출기한" ∷ [])
    ∷ []

module _ (scanner : Scanner) where
  open scanner use {reader}

  -- _canon
  unfoldable pub canon : String → String
  canon text = reader.lower (reader.sub "[\\s_\\-()]" "" text)

  abbrev pub add_names : String → List String → List (String × String) → List (String × String)
  add_names canonical [] d = d
  add_names canonical (n ∷ names) d = add_names canonical names (put (canon n) canonical d)

  abbrev pub add_columns :
      List (String × List String) → List (String × String) → List (String × String)
  add_columns [] d = d
  add_columns ((canonical, names) ∷ columns) d = add_columns columns (add_names canonical names d)

  -- _COLUMN_ALIASES
  abbrev pub column_aliases : List (String × String)
  column_aliases = add_columns column_names []

  -- _column_of
  unfoldable pub column_of : String → Option String
  unfolding canon
  column_of header_cell = lookup (canon header_cell) column_aliases

  -- [ln for ln in text.splitlines() if ln.strip()]
  abbrev pub lines_of : String → List String
  lines_of text = keep (λ l. nonempty (reader.strip l)) (scanner.splitlines text)

  abbrev pub is_header : List String → Bool
  is_header columns = leb 2 (length columns) && (elem "date" columns || elem "course_name" columns)

  abbrev pub header_format : String → String → String
  header_format header delimiter =
      if is_header (distinct (collect column_of (scanner.split delimiter header)))
      then "csv"
      else "text"

  abbrev pub lines_format : List String → String
  lines_format [] = "text"
  lines_format (l ∷ []) = "text"
  lines_format (header ∷ l ∷ ls) =
      if contains header "\t"
      then header_format header "\t"
      else if contains header ","
      then header_format header ","
      else "text"

  unfoldable pub detect_format : String → String
  unfolding column_of
  detect_format raw_text = lines_format (lines_of raw_text)

  -- The cells of a row, by their columns.
  abbrev pub Cells : Type 0
  Cells = List (String × String)

  abbrev pub add_cell : Option String → String → Cells → Cells
  add_cell none cell d = d
  add_cell (some column) cell d = if nonempty column then put column (reader.strip cell) d else d

  abbrev pub cells_of : List (Option String) → List String → Cells → Cells
  cells_of [] row d = d
  cells_of (column ∷ header) [] d = d
  cells_of (column ∷ header) (cell ∷ row) d = cells_of header row (add_cell column cell d)

  -- cells.get(column, "")
  abbrev pub cell : String → Cells → String
  cell column d = get_or (lookup column d) ""

  -- The times of a row, where it has a start, and the notes.
  abbrev pub Times : Type 0
  Times = Option (DateTime × DateTime) × List String

  abbrev pub end_given : ℕ → ℕ → Option ℕ → Times
  end_given day start none =
      (some (kst day start, later (kst day start) 120), "종료 시각이 없어 시작 +2시간으로 가정" ∷ [])
  end_given day start (some finish) = (some (kst day start, kst day finish), [])

  abbrev pub start_given : Cells → ℕ → Option ℕ → Raise Times
  start_given cells day none = value (none, [])
  start_given cells day (some start) =
      parse_clock scanner (cell "end" cells) false >>= λ finish. value (end_given day start finish)

  abbrev pub combined_given : Cells → ℕ → Option (ℕ × ℕ) → Raise Times
  combined_given cells day (some (start, finish)) = value (some (kst day start, kst day finish), [])
  combined_given cells day none =
      parse_clock scanner (cell "start" cells) false >>= start_given cells day

  -- a or b, of what the two cells hold.
  abbrev pub or_range : Cells → Option (ℕ × ℕ) → Raise (Option (ℕ × ℕ))
  or_range cells (some range) = value (some range)
  or_range cells none = parse_time_range scanner (cell "start" cells) false

  -- _row_times
  unfoldable pub row_times : Cells → ℕ → Raise Times
  unfolding parse_time_range parse_clock
  row_times cells lesson_day =
      parse_time_range scanner (cell "date" cells) false
      >>= or_range cells
      >>= combined_given cells lesson_day

  abbrev pub homework_at : String → Option ℕ → Option ℕ → ParsedHomework
  homework_at title none at = record { title = title; due_at = none }
  homework_at title (some day) at = record {
    title = title;
    due_at = some (kst day (get_or at 1439));
  }

  abbrev pub homework_due : String → String → Option ℕ → Raise (Option ParsedHomework)
  homework_due title raw_due none = value (some (homework_at title none none))
  homework_due title raw_due (some day) =
      parse_clock scanner raw_due false >>= λ at. value (some (homework_at title (some day) at))

  -- _row_homework; time(0, 0) is true in Python 3.
  unfoldable pub row_homework : Cells → ℕ → Raise (Option ParsedHomework)
  unfolding parse_clock
  row_homework cells year =
      let title = cell "homework_title" cells in
      if nonempty title
      then homework_due title (cell "homework_due" cells)
          (parse_date reader (cell "homework_due" cells) year)
      else value none

  -- The courses so far, by their names, and the assumptions.
  abbrev pub Table : Type 0
  Table = List (String × ParsedCourse) × List String

  abbrev pub note_once : List String → List String → List String
  note_once assumptions [] = assumptions
  note_once assumptions (n ∷ notes) =
      note_once (if elem n assumptions then assumptions else assumptions ++ n ∷ []) notes

  abbrev pub new_course : String → ParsedCourse
  new_course name = record { course_name = name; teacher_name = none; lessons = [] }

  -- `a or b` of a text that may be missing or empty.
  abbrev pub or_text : String → String → String
  or_text t d = if nonempty t then t else d

  abbrev pub with_teacher : Cells → ParsedCourse → ParsedCourse
  with_teacher cells course =
      if not (nonempty (get_or course.teacher_name "")) && nonempty (cell "teacher" cells)
      then record course { teacher_name = some (cell "teacher" cells) }
      else course

  abbrev pub with_lesson :
      Cells → String → DateTime × DateTime → Option ParsedHomework → ParsedCourse → ParsedCourse
  with_lesson cells name (start_at, end_at) homework course =
      let title = text_of (name ∷ " " ∷ reader.str (suc (length course.lessons)) ∷ "회차" ∷ []) in
      record course {
        lessons =
            course.lessons
            ++ record {
              title = or_text (cell "lesson_title" cells) title;
              start_at = start_at;
              end_at = end_at;
              homework = homework;
            }
              ∷ [];
      }

  abbrev pub add_lesson :
      Cells → DateTime × DateTime → List String → Option ParsedHomework → Table → Table
  add_lesson cells times notes homework (grouped, assumptions) =
      let name = or_text (cell "course_name" cells) "미지정 코스" in
      let course = with_teacher cells (get_or (lookup name grouped) (new_course name)) in
      (put name (with_lesson cells name times homework course) grouped, note_once assumptions notes)

  abbrev pub timed_row : Cells → ℕ → Table → Times → Raise Table
  timed_row cells year table (none, notes) = value table
  timed_row cells year table (some times, notes) =
      row_homework cells year >>= λ homework. value (add_lesson cells times notes homework table)

  abbrev pub dated_row : Cells → ℕ → Table → Option ℕ → Raise Table
  dated_row cells year table none = value table
  dated_row cells year table (some day) = row_times cells day >>= timed_row cells year table

  -- The body of the loop over the rows.
  abbrev pub table_row : List (Option String) → ℕ → List String → Table → Raise Table
  table_row header year row table =
      let cells = cells_of header row [] in
      dated_row cells year table (parse_date reader (cell "date" cells) year)

  unfoldable pub table_rows : List (Option String) → ℕ → List (List String) → Table → Raise Table
  unfolding row_times row_homework
  table_rows header year [] table = value table
  table_rows header year (row ∷ rows) table =
      table_row header year row table >>= table_rows header year rows

  -- list(grouped.values())
  abbrev pub courses_of : Table → List ParsedCourse × List String
  courses_of (grouped, assumptions) =
      (map (λ (e : String × ParsedCourse). e.1) grouped, assumptions)

  abbrev pub table_read : ℕ → List (List String) → Raise (List ParsedCourse × List String)
  table_read today [] = error
  table_read today (header ∷ rows) =
      table_rows (map column_of header) (reader.year today) rows ([], []) >>= λ table.
      value (courses_of table)

  abbrev pub table_lines : ℕ → List String → Raise (List ParsedCourse × List String)
  table_lines today [] = error
  table_lines today (header ∷ lines) =
      let delimiter = if contains header "\t" then "\t" else "," in
      table_read today (scanner.csv_rows delimiter (header ∷ lines))

  -- A course that is made for a row whose homework raises is lost with the exception.
  unfoldable pub parse_table : String → ℕ → Raise (List ParsedCourse × List String)
  unfolding table_rows column_of
  parse_table raw_text today = table_lines today (lines_of raw_text)
