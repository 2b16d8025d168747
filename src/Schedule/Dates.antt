-- ===== src/Schedule/Dates.antt =====
-- intelligence/schedule_parser.py: dates and times read from a text. Python's `re` and `datetime` are
-- parameters; a `date` is its ordinal, of which day 1 is a Monday, and a `time` the minute of the day.
use Prim.Native.String.{[] as empty_text, ◌∷◌ as char}
use api_dashboard.Prelude.{
  ℕ, zero, suc, ◌+◌, ◌-◌, ◌*◌, ◌%◌, ◌≤◌, ◌≡◌, String, Bool, ◌&&◌, ◌||◌, Option, none, some, List,
  [], ◌∷◌, get_or, nonempty, ◌==◌, nat_eq, string_eq, if◌then◌else◌,
}
use api_dashboard.Schedule.Names.{starts_with}
use api_dashboard.Schedule.Resolve.{text_of}

-- re.search(pattern, text): the groups of the first hit, each none where it took no part; the first group
-- of each hit of re.finditer; re.sub; int of a group of digits; str.strip and str.lower; str of a number. A ValueError of `date` is none.
pub record Reader : Type 0 where
  pub search : String → String → Option (List (Option String))
  pub finditer : String → String → List String
  pub sub : String → String → String → String
  pub int : Option String → ℕ
  pub strip : String → String
  pub lower : String → String
  pub str : ℕ → String
  pub date : ℕ → ℕ → ℕ → Option ℕ
  pub year : ℕ → ℕ
  pub month : ℕ → ℕ
  pub day : ℕ → ℕ
  -- Ordinals are counted from 1.
  pub date-positive : (y m d n : ℕ) → date y m d ≡ some n → 1 ≤ n

-- What a function gives, or the exception that leaves it.
pub data Raise (A : Type 0) : Type 0 where
  value : A → Raise A
  error : Raise A

-- `s in t`
abbrev pub contains : String → String → Bool
contains empty_text s = s == empty_text
contains (char c t) s = starts_with (char c t) s || contains t s

-- day.weekday()
unfoldable pub weekday : ℕ → ℕ
weekday day = (day + 6) % 7

-- _monday_of
unfoldable pub monday_of : ℕ → ℕ
unfolding weekday
monday_of day = day - weekday day

-- The index of the group that a hit has at a place, counted from 1.
abbrev pub group : ℕ → List (Option String) → Option String
group zero hit = none
group (suc n) [] = none
group (suc zero) (g ∷ gs) = g
group (suc (suc n)) (g ∷ gs) = group (suc n) gs

-- "첫둘셋넷다섯".index(letter) + 1, for a letter that begins a word of the pattern.
abbrev pub nth_of : String → ℕ
nth_of word =
    if starts_with word "첫"
    then 1
    else if starts_with word "둘"
    then 2
    else if starts_with word "셋"
    then 3
    else if starts_with word "넷"
    then 4
    else 5

-- The Monday of that number from the first of a month on.
abbrev pub monday_after : ℕ → Option ℕ → Raise ℕ
monday_after nth none = error
monday_after nth (some first) = value (first + (7 - weekday first) % 7 + 7 * (nth - 1))

module _ (reader : Reader) where
  -- _nth_week_monday, where nth counts from 1.
  unfoldable pub nth_week_monday : ℕ → ℕ → ℕ → Raise ℕ
  unfolding weekday
  nth_week_monday year month nth = monday_after nth (reader.date year month 1)

  -- _strip_times
  unfoldable pub strip_times : String → String
  strip_times text = reader.sub "\\d{1,2}\\s*[:시]\\s*\\d{2}\\s*분?" " " (
      reader.sub "\\d{1,2}\\s*[-~–—]\\s*\\d{1,2}\\s*시" " " (
        reader.sub "\\d{1,2}\\s*[:시]\\s*\\d{2}\\s*분?\\s*[-~–—]\\s*\\d{1,2}\\s*[:시]\\s*\\d{2}\\s*분?"
          " " text))

  abbrev pub number : ℕ → List (Option String) → ℕ
  number n hit = reader.int (group n hit)

  -- The month and the day of a hit in the year.
  abbrev pub month_and_day : ℕ → List (Option String) → Option ℕ
  month_and_day year hit = reader.date year (number 1 hit) (number 2 hit)

  abbrev pub short_date : ℕ → Option (List (Option String)) → Option ℕ
  short_date year none = none
  short_date year (some hit) = month_and_day year hit

  abbrev pub date_without_year : String → ℕ → Option (List (Option String)) → Option ℕ
  date_without_year text year none =
      short_date year
        (reader.search "(?<![\\d:])(\\d{1,2})\\s*[-/.]\\s*(\\d{1,2})(?![\\d:])" (strip_times text))
  date_without_year text year (some hit) = month_and_day year hit

  abbrev pub full_date : String → ℕ → Option (List (Option String)) → Option ℕ
  full_date text year none =
      date_without_year text year (reader.search "(\\d{1,2})\\s*월\\s*(\\d{1,2})\\s*일" text)
  full_date text year (some hit) = reader.date (number 1 hit) (number 2 hit) (number 3 hit)

  -- _parse_date
  unfoldable pub parse_date : String → ℕ → Option ℕ
  unfolding strip_times
  parse_date raw year =
      let text = reader.strip raw in
      if nonempty text
      then full_date text year
          (reader.search "(\\d{4})\\s*[-/.]\\s*(\\d{1,2})\\s*[-/.]\\s*(\\d{1,2})" text)
      else none

  abbrev pub month_of : Option String → ℕ → ℕ
  month_of none today = reader.month today
  month_of (some m) today = reader.int (some m)

  abbrev pub month_day : ℕ → String
  month_day d = text_of (reader.str (reader.month d) ∷ "/" ∷ reader.str (reader.day d) ∷ [])

  abbrev pub assumed_week : ℕ → String → Raise ℕ → Raise (ℕ × List String)
  assumed_week month word error = error
  assumed_week month word (value monday) = value (
    monday,
    text_of ("'" ∷ reader.str month ∷ "월 " ∷ word ∷ "째 주'를 " ∷ month_day monday ∷ " 주로 가정" ∷ [])
        ∷ [],
  )

  abbrev pub nth_week : List (Option String) → ℕ → Raise (ℕ × List String)
  nth_week hit today =
      let word = get_or (group 2 hit) "" in
      let month = month_of (group 1 hit) today in
      assumed_week month word (nth_week_monday (reader.year today) month (nth_of word))

  abbrev pub relative_week : String → ℕ → ℕ × List String
  relative_week text today =
      let next = monday_of today + 7 in
      if contains text "다음" && contains text "주"
      then (next, [])
      else if contains text "이번" && contains text "주"
      then (monday_of today, [])
      else (next, text_of ("시작 시점이 없어 다음 주(" ∷ month_day next ∷ ")부터로 가정" ∷ []) ∷ [])

  abbrev pub explicit_week : String → ℕ → Option ℕ → ℕ × List String
  explicit_week text today none = relative_week text today
  explicit_week text today (some explicit) = (monday_of explicit, [])

  abbrev pub any_week : String → ℕ → Option (List (Option String)) → Raise (ℕ × List String)
  any_week text today none = value (explicit_week text today (parse_date text (reader.year today)))
  any_week text today (some hit) = nth_week hit today

  -- _anchor_monday, with the assumptions that it adds.
  unfoldable pub anchor_monday : String → ℕ → Raise (ℕ × List String)
  unfolding nth_week_monday parse_date monday_of
  anchor_monday text today =
      any_week text today (reader.search "(?:(\\d{1,2})\\s*월\\s*)?(첫|둘|셋|넷|다섯)\\s*째?\\s*주" text)
