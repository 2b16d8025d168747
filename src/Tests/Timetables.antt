-- ===== src/Tests/Timetables.antt =====
-- Lines of a timetable, of which the reader finds the weekdays, and three sessions.
use api_dashboard.Prelude.{
  ℕ, String, ◌≡◌, ◌≢◌, refl, none, some, List, [], ◌∷◌, In, length, sort, insert_sorted, ◌≤◌, ◌==◌,
  string_eq, arith, if◌then◌else◌,
}
use api_dashboard.Schedule.Dates.{Reader, value, anchor_monday}
use api_dashboard.Schedule.Lessons.{
  week_count, session_count, weekday_match, weekdays_in, weekdays_of, lesson_dates,
}
use api_dashboard.Schedule.Timetable.{asked, Timetable, lesson_dates-Timetable}
use api_dashboard.Schedule.Sundays.{sunday, weekdays_in-Sunday}

pub no_date : (y m d n : ℕ) → none ≡ some n → 1 ≤ n
no_date y m d n e = cc

abbrev pub reader : Reader
reader = record {
  search = λ pattern text. if pattern == "(\\d{1,3})\\s*회(?!차)" then some (some "3" ∷ []) else none;
  finditer = λ pattern text. text ∷ [];
  sub = λ pattern by text. text;
  int = λ g. 3;
  strip = λ t. t;
  lower = λ t. t;
  str = λ n. "n";
  date = λ y m d. none;
  year = λ d. 2026;
  month = λ d. 5;
  day = λ d. 1;
  date-positive = no_date;
}

abbrev pub tuesday_thursday : String
tuesday_thursday = "화/목"

some_days : weekdays_in reader tuesday_thursday ≢ []
unfolding weekdays_in weekdays_of weekday_match sort insert_sorted
some_days e = let e' : 1 ∷ 3 ∷ [] ≡ [] = e in cc

abbrev pub three : List ℕ
three = 739748 ∷ 739750 ∷ 739755 ∷ []

abbrev pub noted : List String
noted = "시작 시점이 없어 다음 주(n/n)부터로 가정" ∷ []

dated :
    lesson_dates reader tuesday_thursday (weekdays_in reader tuesday_thursday) 739741
    ≡ value (three, noted)
unfolding weekdays_in weekdays_of weekday_match lesson_dates anchor_monday sort insert_sorted
dated = refl

lesson_dates-Timetable_example :
    Timetable
      (weekdays_in reader tuesday_thursday)
      (asked
        (length (weekdays_in reader tuesday_thursday))
        (week_count reader tuesday_thursday)
        (session_count reader tuesday_thursday))
      three
lesson_dates-Timetable_example =
    lesson_dates-Timetable reader tuesday_thursday 739741 three noted (omega arith) some_days dated

abbrev tuesday : String
tuesday = "화요일"

found : weekday_match reader tuesday ≡ some tuesday
unfolding weekday_match
found = refl

weekdays_in-Sunday_example : In sunday (weekdays_in reader tuesday)
weekdays_in-Sunday_example = weekdays_in-Sunday reader tuesday tuesday found refl
