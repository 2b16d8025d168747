-- ===== src/Schedule/Taught.antt =====
-- intelligence/schedule_parser.py: every course that is read from a table or by rules has a lesson.
use api_dashboard.Prelude.{
  ℕ, suc, String, ◌≢◌, refl, inl, inr, true, Bool-cases, Option, none, some, is_some, List, [], ◌∷◌,
  ◌++◌, map, keep, All, put, lookup, get_or, length, nonempty, ◌==◌, nat_eq, string_eq,
}
use api_dashboard.Schedule.{DateTime, ParsedHomework, ParsedLesson, ParsedCourse}
use api_dashboard.Schedule.Dates.{Raise, value, error}
use api_dashboard.Schedule.Lessons.{lesson_dates}
use api_dashboard.Schedule.Times.{Scanner, parse_time_range, ◌>>=◌}
use api_dashboard.Schedule.Tables.{
  Cells, cells_of, Times, Table, add_lesson, timed_row, dated_row, table_row, table_rows, row_times,
  row_homework, table_read, table_lines, lines_of, column_of, parse_table,
}
use api_dashboard.Schedule.Heuristic.{
  Reading, HomeworkLines, lessons_at, add_course, has_schedule, spanned_line, homework_line,
  read_line, read_lines, give_lines, with_homework, heuristic_parse,
}

-- What holds of the value, if there is one.
abbrev pub Gives : {A : Type 0} → (A → Type 0) → Raise A → Type 0
Gives P (value a) = P a
Gives P error = Unit

pub >>=-Gives :
    {A B : Type 0} (P : A → Type 0) (Q : B → Type 0) (m : Raise A) (f : A → Raise B)
    → Gives P m
    → ((a : A) → P a → Gives Q (f a))
    → Gives Q (m >>= f)
>>=-Gives P Q (value a) f h k = k a h
>>=-Gives P Q error f h k = tt

any-Gives : {A : Type 0} (m : Raise A) → Gives (λ _. Unit {0}) m
any-Gives (value a) = tt
any-Gives error = tt

abbrev pub HasLesson : ParsedCourse → Type 0
HasLesson c = c.lessons ≢ []

abbrev pub Taught : List ParsedCourse → Type 0
Taught = All HasLesson

All-snoc :
    {A : Type 0} (P : A → Type 0) (xs : List A) (a : A) → All P xs → P a → All P (xs ++ a ∷ [])
All-snoc P [] a h p = (p, tt)
All-snoc P (x ∷ xs) a h p = (h.0, All-snoc P xs a h.1 p)

snoc-ne-nil : {A : Type 0} (xs : List A) (a : A) → (xs ++ a ∷ []) ≢ []
snoc-ne-nil [] a e = cc
snoc-ne-nil (x ∷ xs) a e = cc

-- The values of a dict.
abbrev Valued : List (String × ParsedCourse) → Type 0
Valued = All (λ (e : String × ParsedCourse). HasLesson e.1)

put-Valued :
    (k : String) (c : ParsedCourse) (d : List (String × ParsedCourse))
    → Valued d
    → HasLesson c
    → Valued (put k c d)
put-Valued k c [] h p = (p, tt)
put-Valued k c ((j, e) ∷ d) h p = elim (Bool-cases (j == k)) [
  | inl same ↦ rw same (p, h.1)
  | inr other ↦ rw other (h.0, put-Valued k c d h.1 p)
]

values-Taught :
    (d : List (String × ParsedCourse))
    → Valued d
    → Taught (map (λ (e : String × ParsedCourse). e.1) d)
values-Taught [] h = tt
values-Taught (e ∷ d) h = (h.0, values-Taught d h.1)

module _ (scanner : Scanner) where
  -- The courses of a table so far.
  abbrev Filled : List (String × ParsedCourse) × List String → Type 0
  Filled table = Valued table.0

  add_lesson-Filled :
      (cells : Cells scanner) (times : DateTime × DateTime) (notes : List String)
      (homework : Option ParsedHomework) (table : Table scanner)
      → Filled table
      → Filled (add_lesson scanner cells times notes homework table)
  add_lesson-Filled cells (start, finish) notes homework (grouped, assumptions) h =
      put-Valued _ _ grouped h (snoc-ne-nil _ _)

  timed_row-Filled :
      (cells : Cells scanner) (year : ℕ) (table : Table scanner) (times : Times scanner)
      → Filled table
      → Gives Filled (timed_row scanner cells year table times)
  timed_row-Filled cells year table (none, notes) h = h
  timed_row-Filled cells year table (some times, notes) h =
      >>=-Gives (λ _. Unit) Filled (row_homework scanner cells year) _ (any-Gives _)
        λ homework _. add_lesson-Filled cells times notes homework table h

  dated_row-Filled :
      (cells : Cells scanner) (year : ℕ) (table : Table scanner) (day : Option ℕ)
      → Filled table
      → Gives Filled (dated_row scanner cells year table day)
  dated_row-Filled cells year table none h = h
  dated_row-Filled cells year table (some day) h =
      >>=-Gives (λ _. Unit) Filled (row_times scanner cells day) _ (any-Gives _)
        λ times _. timed_row-Filled cells year table times h

  table_rows-Filled :
      (header : List (Option String)) (year : ℕ) (rows : List (List String)) (table : Table scanner)
      → Filled table
      → Gives Filled (table_rows scanner header year rows table)
  unfolding table_rows
  table_rows-Filled header year [] table h = h
  table_rows-Filled header year (row ∷ rows) table h =
      >>=-Gives Filled Filled (table_row scanner header year row table) _
        (dated_row-Filled (cells_of scanner header row []) year table _ h)
        (table_rows-Filled header year rows)

  -- What is read has a lesson in each course.
  abbrev pub Read : List ParsedCourse × List String → Type 0
  Read parsed = Taught parsed.0

  table_read-Read :
      (today : ℕ) (rows : List (List String)) → Gives Read (table_read scanner today rows)
  table_read-Read today [] = tt
  table_read-Read today (header ∷ rows) =
      >>=-Gives Filled Read
        (table_rows scanner (map (column_of scanner) header) (scanner.reader.year today) rows
          ([], []))
        _ (table_rows-Filled _ _ rows ([], []) tt)
        λ (table : Table scanner) h. values-Taught table.0 h

  table_lines-Read :
      (today : ℕ) (lines : List String) → Gives Read (table_lines scanner today lines)
  table_lines-Read today [] = tt
  table_lines-Read today (header ∷ lines) = table_read-Read today _

  pub parse_table-Read :
      (raw_text : String) (today : ℕ) → Gives Read (parse_table scanner raw_text today)
  unfolding parse_table
  parse_table-Read raw_text today = table_lines-Read today (lines_of scanner raw_text)

  abbrev Begun : Reading → Type 0
  Begun r = Taught r.courses

  add_course-Begun :
      (name : String) (teacher : Option String) (span : (ℕ × ℕ) × List String)
      (dates : List ℕ × List String) (r : Reading)
      → Begun r
      → Begun (add_course scanner name teacher span dates r)
  unfolding lessons_at
  add_course-Begun name teacher span ([], notes) r h = h
  add_course-Begun name teacher (span, assumed) (d ∷ dates, notes) r h =
      All-snoc HasLesson r.courses _ h (λ e. cc)

  spanned_line-Begun :
      (known : List String) (day : ℕ) (line : String) (weekdays : List ℕ) (r : Reading)
      (span : Option (ℕ × ℕ))
      → Begun r
      → Gives Begun (spanned_line scanner known day line weekdays r span)
  spanned_line-Begun known day line weekdays r span h =
      elim (Bool-cases (has_schedule scanner day line weekdays span)) [
        | inl e ↦ rw e (
            >>=-Gives (λ _. Unit) Begun (lesson_dates scanner.reader line weekdays day) _
              (any-Gives _) λ (dates : List ℕ × List String) _. add_course-Begun _ _ _ dates r h)
        | inr e ↦ rw e h
      ]

  homework_line-Begun :
      (line : String) (r : Reading) → Begun r → Begun (homework_line scanner line r)
  homework_line-Begun line r h = elim (Bool-cases (length r.courses == 0)) [
    | inl e ↦ rw e h
    | inr e ↦ rw e h
  ]

  read_line-Begun :
      (known : List String) (day : ℕ) (raw_line : String) (r : Reading)
      → Begun r
      → Gives Begun (read_line scanner known day raw_line r)
  read_line-Begun known day raw_line r h =
      let line = scanner.reader.strip raw_line in
      elim (Bool-cases (nonempty line)) [
        | inr e ↦ rw e h
        | inl e ↦ rw e (elim (Bool-cases (is_some (scanner.hit "^(숙제|과제)(?![가-힣])" line))) [
          | inl homework ↦ rw homework (homework_line-Begun line r h)
          | inr other ↦ rw other (
              >>=-Gives (λ _. Unit) Begun (parse_time_range scanner line true) _ (any-Gives _)
                λ span _. spanned_line-Begun known day line _ r span h)
        ])
      ]

  read_lines-Begun :
      (known : List String) (day : ℕ) (lines : List String) (r : Reading)
      → Begun r
      → Gives Begun (read_lines scanner known day lines r)
  unfolding read_lines
  read_lines-Begun known day [] r h = h
  read_lines-Begun known day (l ∷ ls) r h =
      >>=-Gives Begun Begun (read_line scanner known day l r) _ (read_line-Begun known day l r h)
        (read_lines-Begun known day ls)

  give_lines-ne-nil :
      (lines : List String) (lessons : List ParsedLesson)
      → lessons ≢ []
      → give_lines scanner lines lessons ≢ []
  give_lines-ne-nil [] lessons h = h
  give_lines-ne-nil (line ∷ lines) [] h = absurd (h refl)
  give_lines-ne-nil (line ∷ lines) (l ∷ ls) h = give_lines-ne-nil lines _ (λ e. cc)

  with_homework-Taught :
      (lines : HomeworkLines) (i : ℕ) (cs : List ParsedCourse)
      → Taught cs
      → Taught (with_homework scanner lines i cs)
  unfolding with_homework
  with_homework-Taught lines i [] h = tt
  with_homework-Taught lines i (c ∷ cs) h = (
    give_lines-ne-nil (get_or (lookup i lines) []) c.lessons h.0,
    with_homework-Taught lines (suc i) cs h.1,
  )

  pub heuristic_parse-Read :
      (raw_text : String) (known : List String) (today : ℕ)
      → Gives Read (heuristic_parse scanner raw_text known today)
  unfolding heuristic_parse
  heuristic_parse-Read raw_text known today =
      let nothing : Reading = record { courses = []; assumptions = []; homework_lines = [] } in
      let lines = scanner.splitlines raw_text in
      >>=-Gives Begun Read (read_lines scanner (keep nonempty known) today lines nothing) _
        (read_lines-Begun (keep nonempty known) today lines nothing tt)
        λ (r : Reading) h. with_homework-Taught r.homework_lines 0 r.courses h
