-- ===== src/Schedule/Timetable.antt =====
-- intelligence/schedule_parser.py: the dates of the lessons of a line.
use native.Mathlib.Nat.{div-add-mod, mul_comm, mod-lt}
use api_dashboard.Prelude.{
  ℕ, zero, suc, ◌+◌, ◌-◌, ◌*◌, ◌/◌, ◌≤◌, ◌<◌, String, ◌≡◌, ◌≢◌, refl, Option-cases, sym, subst, inl,
  inr, Option, none, some, List, [], ◌∷◌, take, length, length-append, length-map, In,
  In-append_iff, In-map_iff, In-take, All, All-of_In, In-All, arith,
}
use api_dashboard.Schedule.Dates.{Reader, Raise, value, error, weekday}
use api_dashboard.Schedule.Lessons.{
  week_dates, dates_from, counted_dates, from_monday, week_count, session_count, weekday_match,
  weekdays_in, lesson_dates,
}
use api_dashboard.Schedule.Ascending.{
  From, From-lower, From-append, From-take, weekdays_of-From, weekdays_of-days,
}
use api_dashboard.Schedule.Mondays.{OnMonday, anchor_monday-OnMonday}

module _ (monday : ℕ) where
  week_dates-From :
      (week low : ℕ) (ds : List ℕ)
      → From low ds
      → From (monday + 7 * week + low) (week_dates monday week ds)
  week_dates-From week low [] f = tt
  week_dates-From week low (d ∷ ds) (le, f) = (
    omega arith,
    From-lower _ (monday + 7 * week + suc d) _ (omega arith) (week_dates-From week (suc d) ds f),
  )

  week_dates-below :
      (week : ℕ) (ds : List ℕ)
      → All (λ d. d < 7) ds
      → All (λ x. x < monday + 7 * suc week) (week_dates monday week ds)
  week_dates-below week [] b = tt
  week_dates-below week (d ∷ ds) (lt, b) = (omega arith, week_dates-below week ds b)

  module _ (ds : List ℕ) (ascending : From 0 ds) (below : All (λ d. d < 7) ds) where
    dates_from-From : (n week : ℕ) → From (monday + 7 * week) (dates_from monday week n ds)
    unfolding dates_from
    dates_from-From zero week = tt
    dates_from-From (suc n) week =
        From-append (monday + 7 * week) (monday + 7 * suc week) (week_dates monday week ds) _
          (From-lower _ (monday + 7 * week + 0) _ (omega arith)
            (week_dates-From week 0 ds ascending))
          (week_dates-below week ds below) (omega arith) (dates_from-From n (suc week))

    weekday-on : (week d : ℕ) → weekday monday ≡ 0 → d < 7 → weekday (monday + 7 * week + d) ≡ d
    unfolding weekday
    weekday-on week d h lt = omega arith

    In-dates_from :
        (n week x : ℕ) → weekday monday ≡ 0 → In x (dates_from monday week n ds) → In (weekday x) ds
    unfolding dates_from
    In-dates_from zero week x h m = absurd m
    In-dates_from (suc n) week x h m = elim ((In-append_iff (week_dates monday week ds) _ x).0 m) [
      | inl here ↦
          let (d, listed, e) = (In-map_iff _ ds x).0 here in
          let on : weekday x ≡ d =
            subst (λ y. weekday y ≡ d) e
              (weekday-on week d h (In-All (λ k. k < 7) ds d below listed)) in
          subst (λ y. In y ds) (sym on) listed
      | inr later ↦ In-dates_from n (suc week) x h later
    ]

  length-dates_from :
      (n week : ℕ) (ds : List ℕ) → length (dates_from monday week n ds) ≡ n * length ds
  unfolding dates_from
  length-dates_from zero week ds = omega arith
  length-dates_from (suc n) week ds =
      rw (length-append (week_dates monday week ds), length-map)
        (omega (arith, length-dates_from n (suc week) ds))

-- As many sessions as are asked for fit in the weeks that are taken for them.
rounded_up : (n k : ℕ) → 1 ≤ k → n ≤ ((n + k - 1) / k) * k
rounded_up n k h =
    rw (mul_comm ((n + k - 1) / k) k)
      (omega (arith, div-add-mod (n + k - 1) k, mod-lt (n + k - 1) h))

length-take : {A : Type 0} (n : ℕ) (xs : List A) → n ≤ length xs → length (take n xs) ≡ n
length-take zero xs h = refl
length-take (suc n) [] h = omega arith
length-take (suc n) (x ∷ xs) h = omega (arith, length-take n xs)

-- How many dates a line asks for, of so many weekdays.
abbrev pub asked : ℕ → Option ℕ → Option ℕ → ℕ
asked k (some weeks) sessions = weeks * k
asked k none (some n) = n
asked k none none = 4 * k

-- Dates in order and each once, on the weekdays, as many as are asked for.
pub record Timetable (weekdays : List ℕ) (count : ℕ) (dates : List ℕ) : Type 0 where
  pub ascending : From 0 dates
  pub on_weekdays : All (λ d. In (weekday d) weekdays) dates
  pub exact : length dates ≡ count

module _ (monday : ℕ) (start : weekday monday ≡ 0) (w : ℕ) (ws : List ℕ)
    (ascending : From 0 (w ∷ ws)) (below : All (λ d. d < 7) (w ∷ ws)) where
  dates_from-Timetable :
      (n : ℕ) → Timetable (w ∷ ws) (n * length (w ∷ ws)) (dates_from monday 0 n (w ∷ ws))
  dates_from-Timetable n = record {
    ascending =
        From-lower 0 (monday + 7 * 0) _ (omega arith)
          (dates_from-From monday (w ∷ ws) ascending below n 0);
    on_weekdays = All-of_In _ (λ x m. In-dates_from monday (w ∷ ws) ascending below n 0 x start m);
    exact = length-dates_from monday n 0 (w ∷ ws);
  }

  take-Timetable :
      (n count : ℕ) (dates : List ℕ)
      → n ≤ count
      → Timetable (w ∷ ws) count dates
      → Timetable (w ∷ ws) n (take n dates)
  take-Timetable n count dates h t = record {
    ascending = From-take n 0 dates t.ascending;
    on_weekdays =
        All-of_In _ (λ x m.
          In-All (λ d. In (weekday d) (w ∷ ws)) dates x t.on_weekdays (In-take n dates x m));
    exact = length-take n dates (rw t.exact h);
  }

  counted_dates-Timetable :
      (weeks sessions : Option ℕ)
      → Timetable
          (w ∷ ws)
          (asked (length (w ∷ ws)) weeks sessions)
          (counted_dates monday (w ∷ ws) weeks sessions)
  unfolding counted_dates
  counted_dates-Timetable (some n) sessions = dates_from-Timetable n
  counted_dates-Timetable none (some n) =
      take-Timetable n _ _ (rounded_up n (length (w ∷ ws)) (omega arith)) (dates_from-Timetable _)
  counted_dates-Timetable none none = dates_from-Timetable 4

module _ (reader : Reader) where
  from_monday-Timetable :
      (line : String) (w : ℕ) (ws dates : List ℕ) (notes : List String)
      (a : Raise (ℕ × List String))
      → OnMonday reader a
      → From 0 (w ∷ ws)
      → All (λ d. d < 7) (w ∷ ws)
      → from_monday reader line (w ∷ ws) a ≡ value (dates, notes)
      → Timetable
          (w ∷ ws)
          (asked (length (w ∷ ws)) (week_count reader line) (session_count reader line))
          dates
  from_monday-Timetable line w ws dates notes error k f b e = cc
  from_monday-Timetable line w ws dates notes (value (monday, added)) k f b e =
      let same : counted_dates monday (w ∷ ws) (week_count reader line) (session_count reader line)
          ≡ dates =
        cc e in
      subst (Timetable (w ∷ ws) _) same (
        counted_dates-Timetable monday k w ws f b (week_count reader line)
          (session_count reader line))

  lesson_dates_lem :
      (line : String) (today : ℕ) (ds dates : List ℕ) (notes : List String)
      → 1 ≤ today
      → From 0 ds
      → All (λ d. d < 7) ds
      → ds ≢ []
      → lesson_dates reader line ds today ≡ value (dates, notes)
      → Timetable ds (asked (length ds) (week_count reader line) (session_count reader line)) dates
  unfolding lesson_dates
  lesson_dates_lem line today [] dates notes h f b e q = absurd (e refl)
  lesson_dates_lem line today (w ∷ ws) dates notes h f b e q =
      from_monday-Timetable line w ws dates notes _ (anchor_monday-OnMonday reader line today h) f b
        q

  weekdays_in-From : (line : String) → From 0 (weekdays_in reader line)
  unfolding weekdays_in
  weekdays_in-From line = elim (Option-cases (weekday_match reader line)) [
    | inl e ↦ rw (e, weekdays_in) tt
    | inr (token, e) ↦ rw (e, weekdays_in) (weekdays_of-From token)
  ]

  weekdays_in-days : (line : String) → All (λ d. d < 7) (weekdays_in reader line)
  unfolding weekdays_in
  weekdays_in-days line = elim (Option-cases (weekday_match reader line)) [
    | inl e ↦ rw (e, weekdays_in) tt
    | inr (token, e) ↦ rw (e, weekdays_in) (weekdays_of-days token)
  ]

  -- Where a line has weekdays and its dates are worked out, on a day that counts from 1, the
  -- dates are in order and each once, each is on one of the weekdays, and they are as many as
  -- the line asks for: its weeks times its weekdays, else exactly its sessions, else four weeks
  -- of them.
  pub lesson_dates-Timetable :
      (line : String) (today : ℕ) (dates : List ℕ) (notes : List String)
      → 1 ≤ today
      → weekdays_in reader line ≢ []
      → lesson_dates reader line (weekdays_in reader line) today ≡ value (dates, notes)
      → Timetable
          (weekdays_in reader line)
          (asked
            (length (weekdays_in reader line))
            (week_count reader line)
            (session_count reader line))
          dates
  lesson_dates-Timetable line today dates notes h =
      lesson_dates_lem line today (weekdays_in reader line) dates notes h (weekdays_in-From line)
        (weekdays_in-days line)
