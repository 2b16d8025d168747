-- ===== src/Tests/Lockouts.antt =====
-- The manager logs in with the right password, after five wrong ones and the lockout.
use api_dashboard.Prelude.{String, ◌≡◌, refl, true, some, ◌∷◌, inl, arith}
use api_dashboard.Store.Passwords.{verify_password}
use api_dashboard.Auth.Sessions.{session_of, resolve}
use api_dashboard.Logon.{logged_in}
use api_dashboard.Logon.Counted.{Try, submit, submit_all}
use api_dashboard.Logon.Opened.{values_of, submit_all-account}
use api_dashboard.Tests.{serializer}
use api_dashboard.Tests.Logons.{
  pbkdf2, settings, forms, verify, state, kim, form_of, guess, guesses,
}

abbrev retry : Try
retry = record { now = 120; later = 121; token = "t"; form = form_of "kim" "cd" }

right_password : verify_password pbkdf2 (some kim.password_hash) "cd" ≡ some true
unfolding verify_password
right_password = refl

submit_all-account_example :
    let after =
      submit_all pbkdf2 settings serializer forms verify 1 "ip" (guess 10 ∷ guesses) state in
    let (opened, page) = submit pbkdf2 settings serializer forms verify 1 "ip" retry after in
    (cookie : String) × (page ≡ logged_in cookie)
    × ((resolve serializer 100 200 (some cookie) opened.sessions).0
        ≡ some (
            session_of 121
              (values_of pbkdf2 settings serializer forms verify 1 "ip" kim state.events)))
submit_all-account_example =
    submit_all-account pbkdf2 settings serializer forms verify 1 "ip" state (guess 10 ∷ guesses)
      retry kim 100 200 (refl, tt) (inl refl) refl refl refl right_password (omega arith)
      (omega arith, (omega arith, (omega arith, (omega arith, (omega arith, tt))))) (omega arith)
