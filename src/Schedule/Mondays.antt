-- ===== src/Schedule/Mondays.antt =====
-- intelligence/schedule_parser.py: the week that a line begins in is one that begins on a Monday.
use api_dashboard.Prelude.{
  ℕ, ◌+◌, ◌-◌, ◌*◌, ◌%◌, ◌≤◌, String, ◌≡◌, refl, inl, inr, ◌&&◌, Option, none, some, List,
  Bool-cases, nonempty, get_or, arith,
}
use api_dashboard.Schedule.Dates.{
  Reader, Raise, value, error, contains, weekday, monday_of, group, nth_week_monday, number,
  short_date, date_without_year, parse_date, nth_of, month_of, assumed_week, monday_after,
  relative_week, explicit_week, any_week, full_date, anchor_monday,
}

pub monday_of-Monday : (day : ℕ) → 1 ≤ day → weekday (monday_of day) ≡ 0
unfolding weekday monday_of
monday_of-Monday day h = omega arith

later_week : (day n : ℕ) → weekday day ≡ 0 → weekday (day + 7 * n) ≡ 0
unfolding weekday
later_week day n h = omega arith

first_monday : (first n : ℕ) → 1 ≤ first → weekday (first + (7 - weekday first) % 7 + 7 * n) ≡ 0
unfolding weekday
first_monday first n h = omega arith

-- Where a date is given, it counts from 1.
abbrev pub Positive : Option ℕ → Type 0
Positive none = Unit
Positive (some d) = 1 ≤ d

module _ (reader : Reader) where
  date-Positive : (y m d : ℕ) → Positive (reader.date y m d)
  date-Positive y m d = positive (reader.date y m d) refl
    where
      positive : (o : Option ℕ) → reader.date y m d ≡ o → Positive o
      positive none e = tt
      positive (some n) e = reader.date-positive y m d n e

  short_date-Positive :
      (year : ℕ) (o : Option (List (Option String))) → Positive (short_date reader year o)
  short_date-Positive year none = tt
  short_date-Positive year (some hit) =
      date-Positive year (number reader 1 hit) (number reader 2 hit)

  date_without_year-Positive :
      (text : String) (year : ℕ) (o : Option (List (Option String)))
      → Positive (date_without_year reader text year o)
  date_without_year-Positive text year none = short_date-Positive year _
  date_without_year-Positive text year (some hit) =
      date-Positive year (number reader 1 hit) (number reader 2 hit)

  full_date-Positive :
      (text : String) (year : ℕ) (o : Option (List (Option String)))
      → Positive (full_date reader text year o)
  full_date-Positive text year none = date_without_year-Positive text year _
  full_date-Positive text year (some hit) =
      date-Positive (number reader 1 hit) (number reader 2 hit) (number reader 3 hit)

  parse_date-Positive : (raw : String) (year : ℕ) → Positive (parse_date reader raw year)
  unfolding parse_date
  parse_date-Positive raw year = elim (Bool-cases (nonempty (reader.strip raw))) [
    | inr b ↦ rw b tt
    | inl b ↦ rw b (full_date-Positive (reader.strip raw) year _)
  ]

  -- The value, where there is one, is a Monday.
  abbrev pub OnMonday : Raise (ℕ × List String) → Type 0
  OnMonday (value a) = weekday a.0 ≡ 0
  OnMonday error = Unit

  assumed_week-OnMonday :
      (month nth : ℕ) (word : String) (o : Option ℕ)
      → Positive o
      → OnMonday (assumed_week reader month word (monday_after nth o))
  assumed_week-OnMonday month nth word none h = tt
  assumed_week-OnMonday month nth word (some first) h = first_monday first (nth - 1) h

  relative_week-OnMonday :
      (text : String) (today : ℕ) → 1 ≤ today → OnMonday (value (relative_week reader text today))
  relative_week-OnMonday text today h =
      let this = monday_of-Monday today h in
      let next = later_week (monday_of today) 1 this in
      elim (Bool-cases (contains text "다음" && contains text "주")) [
        | inl b ↦ rw b next
        | inr b ↦ elim (Bool-cases (contains text "이번" && contains text "주")) [
          | inl c ↦ rw (b, c) this
          | inr c ↦ rw (b, c) next
        ]
      ]

  explicit_week-OnMonday :
      (text : String) (today : ℕ) (o : Option ℕ)
      → 1 ≤ today
      → Positive o
      → OnMonday (value (explicit_week reader text today o))
  explicit_week-OnMonday text today none h p = relative_week-OnMonday text today h
  explicit_week-OnMonday text today (some d) h p = monday_of-Monday d p

  any_week-OnMonday :
      (text : String) (today : ℕ) (o : Option (List (Option String)))
      → 1 ≤ today
      → OnMonday (any_week reader text today o)
  unfolding nth_week_monday
  any_week-OnMonday text today none h =
      explicit_week-OnMonday text today _ h (parse_date-Positive text (reader.year today))
  any_week-OnMonday text today (some hit) h =
      let month = month_of reader (group 1 hit) today in
      assumed_week-OnMonday month (nth_of (get_or (group 2 hit) "")) _ _
        (date-Positive (reader.year today) month 1)

  pub anchor_monday-OnMonday :
      (text : String) (today : ℕ) → 1 ≤ today → OnMonday (anchor_monday reader text today)
  unfolding anchor_monday
  anchor_monday-OnMonday text today h = any_week-OnMonday text today _ h
