-- ===== src/Metrics/Teachers.antt =====
-- metrics.py: teachers_summary.
use Prim.Native.String.{◌++◌ as concat}
use api_dashboard.Prelude.{
  ℕ, String, not, ◌&&◌, Option, none, some, List, [], ◌∷◌, map, keep, find, length, lookup, put,
  get_or, nonempty, truthy, sort, text_leb, ◌==◌, nat_eq, string_eq, option_eq, if◌then◌else◌,
}
use api_dashboard.Scope.{Scope}
use api_dashboard.Store.Rows.{Store, LessonRecord, Teacher}
use api_dashboard.Store.Access.{lesson_records}
use api_dashboard.Store.Queries.{teachers}
use api_dashboard.Metrics.{Numbers, attendance_rate, week_start}
use api_dashboard.Metrics.Trends.{dated, last_of}
use api_dashboard.Metrics.Summary.{since_filter}

-- A lesson of a teacher's log, and the minutes of a week. round(x) of one argument is an integer in
-- Python; here it is the float of the same value.
pub record TaughtLesson (R : Type 0) : Type 0 where
  pub lesson_id : String
  pub title : Option String
  pub course_name : Option String
  pub date : Option String
  pub minutes : Option R

pub record TeacherRow (R : Type 0) : Type 0 where
  pub uid : ℕ
  pub name : String
  pub lesson_count : ℕ
  pub taught_minutes : R
  pub attendance_rate : Option R
  pub weekly_minutes : List (String × R)
  pub lessons : List (TaughtLesson R)

-- {t["uid"]: t.get("name") for t in teachers}
abbrev pub teacher_names : List Teacher → List (ℕ × Option String) → List (ℕ × Option String)
teacher_names [] d = d
teacher_names (t ∷ ts) d = teacher_names ts (put t.uid t.name d)

-- The lessons of a teacher, by their ids, each with its first row.
abbrev pub Taught : Type 0 → Type 0
Taught R = List (String × LessonRecord R)

module _ {R : Type 0} where
  -- d.setdefault(k, r)
  abbrev pub setdefault : Option (LessonRecord R) → String → LessonRecord R → Taught R → Taught R
  setdefault none k r d = put k r d
  setdefault (some old) k r d = d

  abbrev pub taught_by : Option ℕ → LessonRecord R → List (ℕ × Taught R) → List (ℕ × Taught R)
  taught_by none r d = d
  taught_by (some uid) r d =
      let lessons = get_or (lookup uid d) [] in
      put uid (setdefault (lookup r.lesson_id lessons) r.lesson_id r lessons) d

  -- The loop that fills by_teacher.
  unfoldable pub by_teacher : List (LessonRecord R) → List (ℕ × Taught R) → List (ℕ × Taught R)
  by_teacher [] d = d
  by_teacher (r ∷ rows) d = by_teacher rows (taught_by r.teacher_uid r d)

-- `x or y` of texts that may be None
abbrev pub or_text : Option String → Option String → Option String
or_text none o = o
or_text (some t) o = if nonempty t then some t else o

module _ {R : Type 0} (num : Numbers R) where
  -- (end - start) / 60, where both are there and not zero.
  abbrev pub duration : Option ℕ → Option ℕ → Option R
  duration none finish = none
  duration (some start) none = none
  duration (some start) (some finish) =
      if truthy (some start) && truthy (some finish) then some (num.minutes start finish) else none

  -- The minutes so far, and those of each week.
  abbrev pub Minutes : Type 0
  Minutes = R × List (String × R)

  abbrev pub add_week : Option String → R → Minutes → Option Minutes
  add_week none dur m = none
  add_week (some week) dur (minutes, weekly) =
      some
        (minutes, put week (num.add (get_or (lookup week weekly) (num.python.float 0)) dur) weekly)

  abbrev pub add_date : Option String → R → Minutes → Option Minutes
  add_date none dur m = some m
  add_date (some date) dur m = add_week (week_start num date) dur m

  abbrev pub add_minutes : Option R → Option String → Minutes → Option Minutes
  add_minutes none date m = some m
  add_minutes (some dur) date (minutes, weekly) =
      add_date (dated date) dur (num.add minutes dur, weekly)

  -- The loop over the lessons of a teacher; none where a date raises.
  unfoldable pub minutes_of : Taught R → Minutes → Option Minutes
  unfolding week_start
  minutes_of [] m = some m
  minutes_of ((id, r) ∷ lessons) m =
      elim (add_minutes (duration r.class_start r.class_end) r.lesson_date m) [
        | none ↦ none
        | some m' ↦ minutes_of lessons m'
      ]

  abbrev pub rounded : R → R
  rounded x = num.python.round x 0

  abbrev pub rounded_option : Option R → Option R
  rounded_option none = none
  rounded_option (some x) = some (rounded x)

  abbrev pub taught_lesson : String × LessonRecord R → TaughtLesson R
  taught_lesson (id, r) = record {
    lesson_id = id;
    title = r.class_name;
    course_name = r.course_name;
    date = r.lesson_date;
    minutes = rounded_option (duration r.class_start r.class_end);
  }

  abbrev pub named_in : List (LessonRecord R) → Option String
  named_in rows = elim (find (λ (r : LessonRecord R). nonempty (get_or r.teacher_name "")) rows) [
    | none ↦ none
    | some r ↦ r.teacher_name
  ]

  abbrev pub teacher_row :
      List (LessonRecord R) → List (ℕ × Option String) → ℕ → Taught R → Minutes → TeacherRow R
  teacher_row rows names uid lessons (minutes, weekly) =
      let srows = keep (λ (r : LessonRecord R). r.teacher_uid == some uid) rows in
      record {
        uid = uid;
        name =
            get_or (or_text (or_text (get_or (lookup uid names) none) (named_in srows)) none)
              (concat "UID " (num.python.str uid));
        lesson_count = length lessons;
        taught_minutes = rounded minutes;
        attendance_rate = attendance_rate num srows;
        weekly_minutes =
            map (λ (w : String × R). (w.0, rounded w.1))
              (last_of 14 (sort (λ v w. text_leb v.0 w.0) weekly));
        lessons =
            sort (λ (l m : TaughtLesson R). text_leb (get_or m.date "") (get_or l.date ""))
              (map taught_lesson lessons);
      }

  abbrev pub add_teacher :
      TeacherRow R → Option (List (TeacherRow R)) → Option (List (TeacherRow R))
  add_teacher t none = none
  add_teacher t (some ts) = some (t ∷ ts)

  unfoldable pub teacher_rows :
      List (LessonRecord R)
      → List (ℕ × Option String)
      → List (ℕ × Taught R)
      → Option (List (TeacherRow R))
  unfolding minutes_of attendance_rate
  teacher_rows rows names [] = some []
  teacher_rows rows names ((uid, lessons) ∷ groups) =
      elim (minutes_of lessons (num.python.float 0, [])) [
        | none ↦ none
        | some m ↦
            add_teacher (teacher_row rows names uid lessons m) (teacher_rows rows names groups)
      ]

  abbrev pub by_minutes : Option (List (TeacherRow R)) → Option (List (TeacherRow R))
  by_minutes none = none
  by_minutes (some ts) =
      some (sort (λ (t u : TeacherRow R). not (num.lt t.taught_minutes u.taught_minutes)) ts)

  unfoldable pub teachers_summary : Store R → Scope → String → Option (List (TeacherRow R))
  unfolding teacher_rows by_teacher
  teachers_summary s scope since =
      let rows = lesson_records s scope (since_filter since) in
      by_minutes (teacher_rows rows (teacher_names (teachers s scope) []) (by_teacher rows []))
