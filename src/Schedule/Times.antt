-- ===== src/Schedule/Times.antt =====
-- intelligence/schedule_parser.py: the times of a line or of a cell. A `time` is the minute of its day.
use api_dashboard.Prelude.{
  ℕ, ◌+◌, ◌*◌, ◌/◌, ◌%◌, String, Bool, ◌&&◌, ◌||◌, not, Option, none, some, List, leb, ltb,
  nonempty, if◌then◌else◌,
}
use api_dashboard.Schedule.{DateTime}
use api_dashboard.Schedule.Dates.{Reader, Raise, value, error, contains, number}

infixl 5 ◌>>=◌
abbrev pub ◌>>=◌ : {A B : Type 0} → Raise A → (A → Raise B) → Raise B
value a >>= f = f a
error >>= f = error

-- What else of the standard library the parser reads texts with: re.fullmatch; where the first hit of
-- re.search starts, the hit itself, and the text with another one in its place; splitlines, split,
-- strip of some characters, and the rows that csv.reader reads from lines.
pub record Scanner : Type 0 where
  pub reader : Reader
  pub fullmatch : String → String → Bool
  pub start : String → String → Option ℕ
  pub hit : String → String → Option String
  pub replaced : String → String → String → String
  pub splitlines : String → List String
  pub split : String → String → List String
  pub strip_of : String → String → String
  pub csv_rows : String → List String → List (List String)

-- _kst
abbrev pub kst : ℕ → ℕ → DateTime
kst day minute = record { day = day; minute = minute; zone = "+09:00" }

-- at + timedelta(minutes=n)
abbrev pub later : DateTime → ℕ → DateTime
later at n = record at { day = at.day + (at.minute + n) / 1440; minute = (at.minute + n) % 1440 }

-- time(hour % 24, minute), which raises past the 59th minute.
abbrev pub time_of : ℕ → ℕ → Raise ℕ
time_of hour minute = if ltb minute 60 then value (60 * (hour % 24) + minute) else error

unfoldable pub academy_time : ℕ → ℕ → Bool → Raise ℕ
academy_time hour minute shift =
    time_of (if shift && leb 1 hour && leb hour 9 then hour + 12 else hour) minute

module _ (scanner : Scanner) where
  open scanner use {reader}

  abbrev pub int_of : ℕ → List (Option String) → ℕ
  int_of = number reader

  unfoldable pub has_am_marker : String → Bool
  has_am_marker text = contains text "오전" || contains (reader.lower text) "am"

  abbrev pub span_of : Raise ℕ → Raise ℕ → Raise (Option (ℕ × ℕ))
  span_of start finish = start >>= λ a. finish >>= λ b. value (some (a, b))

  -- 7-9시 and 7시-9시
  abbrev pub short_range : String → Option (List (Option String)) → Option (Raise (Option (ℕ × ℕ)))
  short_range text none = none
  short_range text (some hit) =
      let shift = not (has_am_marker text) in
      some (span_of (academy_time (int_of 1 hit) 0 shift) (academy_time (int_of 2 hit) 0 shift))

  abbrev pub or_next :
      {A : Type 0} → Option (Raise (Option A)) → Option (Raise (Option A)) → Raise (Option A)
  or_next (some r) next = r
  or_next none (some r) = r
  or_next none none = value none

  abbrev pub long_range : Bool → String → Option (List (Option String)) → Raise (Option (ℕ × ℕ))
  long_range academy_shift text (some hit) =
      let shift = academy_shift && not (has_am_marker text) in
      span_of (academy_time (int_of 1 hit) (int_of 2 hit) shift)
        (academy_time (int_of 3 hit) (int_of 4 hit) shift)
  long_range academy_shift text none =
      or_next (short_range text (reader.search "(\\d{1,2})\\s*[-~–—]\\s*(\\d{1,2})\\s*시" text))
        (short_range text (reader.search "(\\d{1,2})\\s*시\\s*[-~–—]\\s*(\\d{1,2})\\s*시" text))

  -- _parse_time_range
  unfoldable pub parse_time_range : String → Bool → Raise (Option (ℕ × ℕ))
  unfolding has_am_marker academy_time
  parse_time_range text academy_shift = long_range academy_shift text (
      reader.search
        "(\\d{1,2})\\s*[:시]\\s*(\\d{2})\\s*분?\\s*[-~–—]\\s*(\\d{1,2})\\s*[:시]\\s*(\\d{2})\\s*분?"
        text)

  abbrev pub clocked : Raise ℕ → Raise (Option ℕ)
  clocked error = error
  clocked (value t) = value (some t)

  abbrev pub is_pm : String → Bool
  is_pm text = contains text "오후" || contains (reader.lower text) "pm"

  -- 7
  abbrev pub bare_clock : String → Bool → Raise (Option ℕ)
  bare_clock text academy_shift =
      if scanner.fullmatch "\\d{1,2}" text
      then clocked (academy_time (reader.int (some text)) 0 (is_pm text || academy_shift))
      else value none

  -- 7시
  abbrev pub hour_clock : String → Bool → Option (List (Option String)) → Raise (Option ℕ)
  hour_clock text academy_shift none = bare_clock text academy_shift
  hour_clock text academy_shift (some hit) =
      clocked (academy_time (int_of 1 hit) 0 (is_pm text || not (has_am_marker text)))

  -- 19:00
  abbrev pub full_clock : String → Bool → Option (List (Option String)) → Raise (Option ℕ)
  full_clock text academy_shift none =
      hour_clock text academy_shift (reader.search "(\\d{1,2})\\s*시" text)
  full_clock text academy_shift (some hit) = clocked (
      academy_time (int_of 1 hit) (int_of 2 hit)
        (is_pm text || (academy_shift && not (has_am_marker text))))

  -- _parse_clock
  unfoldable pub parse_clock : String → Bool → Raise (Option ℕ)
  unfolding has_am_marker academy_time
  parse_clock raw academy_shift =
      let text = reader.strip raw in
      if nonempty text
      then full_clock text academy_shift (reader.search "(\\d{1,2})\\s*[:시]\\s*(\\d{1,2})" text)
      else value none
