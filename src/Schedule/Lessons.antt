-- ===== src/Schedule/Lessons.antt =====
-- intelligence/schedule_parser.py: the weekdays of a line, and the dates of its lessons.
use Prim.Native.Char.{Char, code}
use Prim.Native.String.{[] as empty_text, ◌∷◌ as char}
use api_dashboard.Prelude.{
  ℕ, zero, suc, ◌+◌, ◌-◌, ◌*◌, ◌/◌, String, Bool, ◌&&◌, ◌||◌, Option, none, some, is_some, List, [],
  ◌∷◌, ◌++◌, map, take, length, find, cons_some, map_option, elem, sort, leb, ◌==◌, nat_eq,
  string_eq, if◌then◌else◌,
}
use api_dashboard.Schedule.Dates.{
  Reader, Raise, value, error, contains, number, parse_date, anchor_monday,
}

-- "월화수목금토일".index(letter), where the letter is there.
abbrev pub index_in : String → Char → Option ℕ
index_in empty_text c = none
index_in (char d t) c = if code c == code d then some 0 else map_option suc (index_in t c)

abbrev pub weekday_of : Char → Option ℕ
weekday_of = index_in "월화수목금토일"

-- The letters of the token that are weekdays.
abbrev pub letters : String → List ℕ
letters empty_text = []
letters (char c t) = cons_some (weekday_of c) (letters t)

abbrev pub add_new : List ℕ → ℕ → List ℕ
add_new seen n = if elem n seen then seen else seen ++ n ∷ []

abbrev pub unseen : List ℕ → List ℕ → List ℕ
unseen seen [] = seen
unseen seen (n ∷ ns) = unseen (add_new seen n) ns

-- sorted(seen), for the letters of a token
unfoldable pub weekdays_of : String → List ℕ
weekdays_of token = sort leb (unseen [] (letters token))

-- The token of the first hit that is a list of weekdays.
module _ (reader : Reader) where
  abbrev pub is_list : String → Bool
  is_list token =
      let separated = is_some (reader.search "[/,·、]" token) || contains token "요일" in
      leb 1 (length (letters token)) && (leb 2 (length (letters token)) || separated)

  -- _weekday_match, of which this module uses the group.
  unfoldable pub weekday_match : String → Option String
  weekday_match text = find is_list (
      reader.finditer
        "(?<![가-힣])((?:[월화수목금토일](?:요일)?)(?:\\s*[/,·、]?\\s*[월화수목금토일](?:요일)?)*)(?![가-힣])" text)

  unfoldable pub weekdays_in : String → List ℕ
  unfolding weekday_match weekdays_of
  weekdays_in text = elim (weekday_match text) [ none ↦ [] | some token ↦ weekdays_of token ]

-- The dates of so many weeks, from the one of a number on.
abbrev pub week_dates : ℕ → ℕ → List ℕ → List ℕ
week_dates monday week weekdays = map (λ d. monday + 7 * week + d) weekdays

unfoldable pub dates_from : ℕ → ℕ → ℕ → List ℕ → List ℕ
dates_from monday week zero weekdays = []
dates_from monday week (suc n) weekdays =
    week_dates monday week weekdays ++ dates_from monday (suc week) n weekdays

-- The dates for the count of weeks, the count of sessions, or neither.
unfoldable pub counted_dates : ℕ → List ℕ → Option ℕ → Option ℕ → List ℕ
unfolding dates_from
counted_dates monday weekdays (some weeks) sessions = dates_from monday 0 weeks weekdays
counted_dates monday weekdays none (some n) =
    take n (dates_from monday 0 ((n + length weekdays - 1) / length weekdays) weekdays)
counted_dates monday weekdays none none = dates_from monday 0 4 weekdays

abbrev pub four_weeks : Option ℕ → Option ℕ → List String
four_weeks none none = "기간이 없어 4주로 가정" ∷ []
four_weeks weeks sessions = []

module _ (reader : Reader) where
  abbrev pub counted : String → String → Option ℕ
  counted pattern line = elim (reader.search pattern line) [
    | none ↦ none
    | some hit ↦ some (number reader 1 hit)
  ]

  abbrev pub week_count : String → Option ℕ
  week_count = counted "(\\d{1,2})\\s*주(?:간|\\s*동안|\\s*간)?"

  abbrev pub session_count : String → Option ℕ
  session_count = counted "(\\d{1,3})\\s*회(?!차)"

  abbrev pub from_monday : String → List ℕ → Raise (ℕ × List String) → Raise (List ℕ × List String)
  from_monday line weekdays error = error
  from_monday line weekdays (value (monday, notes)) = value (
    counted_dates monday weekdays (week_count line) (session_count line),
    notes ++ four_weeks (week_count line) (session_count line),
  )

  -- _lesson_dates, with the assumptions that it adds.
  unfoldable pub lesson_dates : String → List ℕ → ℕ → Raise (List ℕ × List String)
  unfolding counted_dates
  lesson_dates line [] today = value (cons_some (parse_date reader line (reader.year today)) [], [])
  lesson_dates line (w ∷ ws) today = from_monday line (w ∷ ws) (anchor_monday reader line today)
