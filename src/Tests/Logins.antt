-- ===== src/Tests/Logins.antt =====
-- A login, a logout, and an address that guesses.
use mathlib.Core.Bool.{false≢true}
use api_dashboard.Prelude.{
  ==_iff, ◌+◌, ◌*◌, ◌≤◌, ◌<◌, String, ◌≡◌, ◌≢◌, refl, ◌↔◌, none, some, [], ◌∷◌, ltb, arith, ◌==◌,
  string_eq, if◌then◌else◌,
}
use api_dashboard.Auth.Sessions.{Sessions, session_of, create, token_of, resolve, destroy}
use api_dashboard.Auth.Sessions.Lifetime.{resolve-create, resolve-destroy, resolve-resolve}
use api_dashboard.Auth.Throttle.{Throttle, fresh, locked_seconds}
use api_dashboard.Auth.Throttle.Lockout.{
  record_failures, locked_seconds-failures_iff, locked_seconds_enough,
}
use api_dashboard.Tests.{serializer, login}

abbrev first : String
first = "a"

abbrev second : String
second = "b"

abbrev two : Sessions
two = ("a", session_of 0 login) ∷ ("b", session_of 50 login) ∷ []

resolve-create_example :
    let (cookie, after) = create serializer 60 "c" login two in
    (resolve serializer 100 160 (some cookie) after).0
    ≡ (if ltb (60 + 100) 160 then none else some (session_of 60 login))
resolve-create_example = resolve-create serializer 100 60 160 "c" login two

cookie_of : (token : String) → token_of serializer (some (serializer.dumps token)) ≡ some token
unfolding token_of
cookie_of token = rw (serializer.dumps-nonempty token) refl

apart : "c" ≢ second
apart e = let same = (==_iff "c" second).1 e in absurd (false≢true same)

resolve-destroy_example :
    (resolve serializer 100 70
      (some (serializer.dumps "b"))
      (destroy serializer (some (serializer.dumps "a")) two)).0
    ≡ (if first == second
        then none
        else (resolve serializer 100 70 (some (serializer.dumps "b")) two).0)
resolve-destroy_example =
    resolve-destroy serializer 100 70 (some (serializer.dumps "a")) (some (serializer.dumps "b"))
      "a" "b" two (cookie_of "a") (cookie_of "b")

resolve-resolve_example :
    (resolve serializer 100 140
      (some (serializer.dumps "b"))
      (resolve serializer 100 120 (some (serializer.dumps "a")) two).1).0
    ≡ (resolve serializer 100 140 (some (serializer.dumps "b")) two).0
resolve-resolve_example =
    resolve-resolve serializer 100 120 140 (some (serializer.dumps "a"))
      (some (serializer.dumps "b")) two (omega arith)

-- Five failures, at a second each.
abbrev guessed : Throttle
guessed = record_failures "10.0.0.1" (10 ∷ 20 ∷ 30 ∷ 40 ∷ 50 ∷ []) fresh

locked_seconds-failures_iff_example :
    ((locked_seconds 10 300 "10.0.0.1" guessed).0 ≢ 0) ↔ ((5 ≤ 5) × (300 < 60 * 10 + 50))
locked_seconds-failures_iff_example =
    locked_seconds-failures_iff 10 300 10 (20 ∷ 30 ∷ 40 ∷ 50 ∷ []) "10.0.0.1" fresh refl

locked_seconds_enough_example :
    (locked_seconds 10
      (300 + (locked_seconds 10 300 "10.0.0.1" guessed).0 * 10)
      "10.0.0.1"
      guessed).0
    ≡ 0
locked_seconds_enough_example = locked_seconds_enough 10 300 "10.0.0.1" guessed (omega arith)
