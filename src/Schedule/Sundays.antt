-- ===== src/Schedule/Sundays.antt =====
-- intelligence/schedule_parser.py: a weekday that is written with 요일 brings Sunday with it, since its
-- last letter is the one of Sunday.
use Prim.Native.Char.{Char, code}
use Prim.Native.String.{[] as empty_text, ◌∷◌ as char}
use api_dashboard.Prelude.{
  ℕ, String, ◌≡◌, refl, sym, subst, inl, inr, Bool, true, false, ◌&&◌, some, List, [], ◌∷◌, ◌++◌,
  In, In-append_iff, In-sort_iff, elem, elem_iff, leb, Bool-cases, Option-cases, ◌==◌, ==_iff,
  nat_eq, string_eq,
}
use api_dashboard.Schedule.Names.{starts_with}
use api_dashboard.Schedule.Dates.{Reader, contains}
use api_dashboard.Schedule.Lessons.{
  weekday_of, letters, unseen, weekdays_of, weekday_match, weekdays_in,
}

abbrev pub sunday : ℕ
sunday = 6

Sunday-letter : (c : Char) → code c ≡ 51068 → weekday_of c ≡ some sunday
Sunday-letter c e = rw e refl

letters-later : (c : Char) (t : String) → In sunday (letters t) → In sunday (letters (char c t))
letters-later c t m = elim (Option-cases (weekday_of c)) [
  | inl e ↦ rw e m
  | inr (n, e) ↦ rw e (inr m)
]

both_true : (a b : Bool) → (a && b) ≡ true → (a ≡ true) × (b ≡ true)
both_true true b h = (refl, h)
both_true false b h = cc

begins-Sunday : (t : String) → starts_with t "요일" ≡ true → In sunday (letters t)
begins-Sunday empty_text h = cc
begins-Sunday (char c empty_text) h =
    let none_left : false ≡ true = (both_true (code c == 50836) false h).1 in cc
begins-Sunday (char c (char d t)) h =
    let last : ((code d == 51068) && starts_with t "") ≡ true = (both_true _ _ h).1 in
    letters-later c (char d t)
      (rw (Sunday-letter d ((==_iff (code d) 51068).0 (both_true _ _ last).0)) (inl refl))

In-seen : (ns seen : List ℕ) (x : ℕ) → In x seen → In x (unseen seen ns)
In-seen [] seen x m = m
In-seen (n ∷ ns) seen x m = elim (Bool-cases (elem n seen)) [
  | inl b ↦ rw b (In-seen ns seen x m)
  | inr b ↦ rw b (In-seen ns (seen ++ n ∷ []) x ((In-append_iff seen (n ∷ []) x).1 (inl m)))
]

In-of_letters : (ns seen : List ℕ) (x : ℕ) → In x ns → In x (unseen seen ns)
In-of_letters [] seen x m = absurd m
In-of_letters (n ∷ ns) seen x (inl e) = elim (Bool-cases (elem n seen)) [
  | inl b ↦ rw b (In-seen ns seen x (subst (λ y. In y seen) (sym e) ((elem_iff n seen).0 b)))
  | inr b ↦ rw b (In-seen ns (seen ++ n ∷ []) x ((In-append_iff seen (n ∷ []) x).1 (inr (inl e))))
]
In-of_letters (n ∷ ns) seen x (inr m) = elim (Bool-cases (elem n seen)) [
  | inl b ↦ rw b (In-of_letters ns seen x m)
  | inr b ↦ rw b (In-of_letters ns (seen ++ n ∷ []) x m)
]

contains-Sunday : (t : String) → contains t "요일" ≡ true → In sunday (letters t)
contains-Sunday empty_text h = cc
contains-Sunday (char c t) h = elim (Bool-cases (starts_with (char c t) "요일")) [
  | inl b ↦ begins-Sunday (char c t) b
  | inr b ↦ letters-later c t (contains-Sunday t (rw b at h))
]

-- Where the weekdays of a line are written with 요일, Sunday is one of them, whichever days are
-- written.
pub weekdays_in-Sunday :
    (reader : Reader) (line token : String)
    → weekday_match reader line ≡ some token
    → contains token "요일" ≡ true
    → In sunday (weekdays_in reader line)
unfolding weekdays_in weekdays_of
weekdays_in-Sunday reader line token e h =
    rw (e, weekdays_in)
      ((In-sort_iff leb _ sunday).1
        (In-of_letters (letters token) [] sunday (contains-Sunday token h)))
