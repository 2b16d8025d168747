-- ===== src/Tests/Logons.antt =====
-- Logins at the school, with a derivation that keeps a password of hex digits as it is.
use Prim.Native.String.{◌∷◌ as char}
use Prim.Native.Char.{nul}
use mathlib.Core.Option.{some-injective}
use api_dashboard.Prelude.{
  ℕ, ◌+◌, String, ◌≡◌, ◌↔◌, refl, inl, inr, subst, true, Option, none, some, List, [], ◌∷◌, ltb,
  Bool-cases, ◌&&◌, ◌==◌, nat_eq, string_eq, if◌then◌else◌, arith,
}
use api_dashboard.Json.{ℤ, pos, Fields, obj, field, end, int, str}
use api_dashboard.Classin.Client.{Sent, response, Api, verify_credentials}
use api_dashboard.Classin.Accepted.{good, Answered, probed, verify_credentials_iff}
use api_dashboard.Session.{Session}
use api_dashboard.Store.Rows.{User}
use api_dashboard.Store.Queries.{get_user_by_username}
use api_dashboard.Store.Passwords.{Pbkdf2, is_hex, hash_password, verify_password}
use api_dashboard.Store.Verified.{verify_password-hash_password}
use api_dashboard.Auth.Sessions.{Login, session_of, resolve, current, token_of, create}
use api_dashboard.Auth.Sessions.Lifetime.{live}
use api_dashboard.Auth.Throttle.{fresh, locked_seconds, locked_for}
use api_dashboard.Create.Plan.{Forms}
use api_dashboard.Logon.{
  Settings, AppState, LoginForm, Verifier, logged_in, login_error, rejected, bad_login, attempt,
  login_local_user, locked_message, login_submit, set_branch_scope,
}
use api_dashboard.Logon.Origin.{Entitled, submitted, login_submit-Entitled}
use api_dashboard.Logon.Counted.{Try, submit, submit_all, submit_all-submit}
use api_dashboard.Logon.Switch.{with_branch, set_branch_scope-resolve}
use api_dashboard.Tests.{py, school, serializer, login}

abbrev plain : String → String → ℕ → Option String
plain password salt n = if is_hex password then some password else none

pub is_hex-plain :
    (password salt : String) (n : ℕ) (digest : String)
    → plain password salt n ≡ some digest
    → is_hex digest ≡ true
is_hex-plain password salt n digest e = elim (Bool-cases (is_hex password)) [
  | inl h ↦ subst (λ t. is_hex t ≡ true) (some-injective _ _ (rw h at e)) h
  | inr h ↦ let e' = rw h at e in cc
]

abbrev pub pbkdf2 : Pbkdf2
pbkdf2 = record {
  derive = plain;
  int = λ t. some 200000;
  str = λ n. "200000";
  is_hex-derive = is_hex-plain;
  is_hex-str = refl;
  int-str = refl;
}

abbrev stored : String
stored = "pbkdf2$200000$ab$cd"

hashed : hash_password pbkdf2 "ab" "cd" ≡ some stored
unfolding hash_password
hashed = refl

verify_password-hash_password_example :
    (verify_password pbkdf2 (some stored) "cd" ≡ some true)
    × ((verify_password pbkdf2 (some stored) "ce" ≡ some true)
        ↔ (pbkdf2.derive "ce" "ab" 200000 ≡ pbkdf2.derive "cd" "ab" 200000))
verify_password-hash_password_example =
    verify_password-hash_password pbkdf2 "ab" refl "cd" "ce" stored hashed

abbrev pub kim : User
kim = record {
  id = 3;
  username = "kim";
  password_hash = stored;
  role = "manager";
  branch_id = some 1;
  teacher_uid = none;
  active = true;
  created_at = none;
}

abbrev pub settings : Settings
settings = record {
  auth_mode = "fixed";
  access_password = "가나";
  classin_sid = "1";
  classin_secret = "s";
}

abbrev pub forms : Forms
forms = record { strip = λ t. t; isdigit = λ t. t == "1"; int = λ t. some 1; str = λ n. "n" }

-- ClassIn rejects the probe for its parameters.
abbrev rejection : Fields ℕ
rejection =
    field "error_info" (obj (field "errno" (int (pos 100)) (field "error" (str "param") end))) end

abbrev answer : Sent ℕ
answer = response 200 "{}" (some (obj rejection))

abbrev pub classin : Api ℕ
classin = record {
  python = py;
  to_int = λ v. elim v as (λ _. Option ℤ) [ int n ↦ some n | _ ↦ none ];
  repr = λ v. "v";
  dumps = λ v. "v";
  shown = λ n. "n";
  md5 = λ t. t;
  lower = λ t. t;
  post = λ action form. answer;
}

verify_credentials_iff_example :
    (verify_credentials classin 7 "1" "s" ≡ good classin)
    ↔ Answered classin (probed classin 7 "1" "s")
verify_credentials_iff_example = verify_credentials_iff classin 7 "1" "s"

abbrev pub verify : Verifier
verify = verify_credentials classin 7

abbrev pub state : AppState ℕ
state = record { sessions = []; throttle = fresh; events = record school { users = kim ∷ [] } }

abbrev pub form_of : String → String → LoginForm
form_of username password = record {
  username = username;
  sid = "";
  secret = "";
  password = password;
}

abbrev cookie : String → String
cookie token = char nul token

kim_logged_in :
    (login_submit pbkdf2 settings serializer forms verify 10 50 51 "ip" "t"
      (form_of "kim" "cd")
      state).1
    ≡ logged_in (cookie "t")
unfolding login_submit attempt login_local_user verify_password locked_seconds locked_for
    get_user_by_username create
kim_logged_in = refl

login_submit-Entitled_example :
    (l : Login) × Entitled pbkdf2 settings forms verify (form_of "kim" "cd") state.events l
    × ((locked_seconds 10 50 "ip" fresh).0 ≡ 0)
    × ((resolve serializer 100 60
          (some (cookie "t"))
          (submitted pbkdf2 settings forms verify serializer 10 50 51 "ip" "t"
            (form_of "kim" "cd")
            state).0.sessions).0
        ≡ (if ltb (51 + 100) 60 then none else some (session_of 51 l)))
login_submit-Entitled_example =
    login_submit-Entitled pbkdf2 settings forms verify serializer 10 100 50 51 60 "ip" "t"
      (cookie "t") (form_of "kim" "cd") state kim_logged_in

abbrev pub guess : ℕ → Try
guess now = record { now = now; later = now + 1; token = "t"; form = form_of "kim" "ce" }

guess_rejected :
    attempt pbkdf2 settings forms verify (form_of "kim" "ce") state.events ≡ rejected bad_login
unfolding attempt login_local_user verify_password get_user_by_username
guess_rejected = refl

wrong :
    (message : String) × (attempt pbkdf2 settings forms verify (form_of "kim" "ce") state.events
      ≡ rejected message)
wrong = (bad_login, guess_rejected)

abbrev pub guesses : List Try
guesses = guess 20 ∷ guess 30 ∷ guess 40 ∷ guess 50 ∷ []

submit_all-submit_example :
    ((submit pbkdf2 settings serializer forms verify 1 "ip"
        (guess 60)
        (submit_all pbkdf2 settings serializer forms verify 1 "ip" (guess 10 ∷ guesses) state)).1
      ≡ login_error (
          locked_message forms
            (locked_seconds 1 60 "ip"
              (submit_all pbkdf2 settings serializer forms verify 1 "ip"
                (guess 10 ∷ guesses)
                state).throttle).0))
    × ((submit pbkdf2 settings serializer forms verify 1 "ip" (guess 60) (
          submit_all pbkdf2 settings serializer forms verify 1 "ip"
            (guess 10 ∷ guesses)
            state)).0.sessions
        ≡ [])
submit_all-submit_example =
    submit_all-submit pbkdf2 settings serializer forms verify 1 "ip" (guess 10) guesses (guess 60)
      state refl refl (wrong, (wrong, (wrong, (wrong, (wrong, tt))))) (omega arith)

abbrev letter : String
letter = "a"

abbrev owner : Session
owner = record (session_of 0 login) { role = "owner" }

abbrev running : AppState ℕ
running = record state { sessions = ("a", owner) ∷ [] }

cookie_of : (token : String) → token_of serializer (some (cookie token)) ≡ some token
unfolding token_of
cookie_of token = rw (serializer.dumps-nonempty token) refl

owner_found : (resolve serializer 100 10 (some (cookie "a")) running.sessions).0 ≡ some owner
unfolding resolve token_of current
owner_found = refl

set_branch_scope-resolve_example :
    (resolve serializer 100 20
      (some (cookie "a"))
      (set_branch_scope serializer forms 100 10
        (some (cookie "a"))
        "1"
        ""
        "/"
        "/home"
        running).0.sessions).0
    ≡ (if (owner.role == "owner") && (letter == letter)
        then live 100 20 (some (with_branch owner (some 1)))
        else (resolve serializer 100 20 (some (cookie "a")) running.sessions).0)
set_branch_scope-resolve_example =
    set_branch_scope-resolve serializer forms 100 10 20 (some (cookie "a")) (some (cookie "a")) "a"
      "a" "1" "" "/" "/home" owner (some 1) running (omega arith) (cookie_of "a") (cookie_of "a")
      owner_found refl
