-- ===== src/Logon/Counted.antt =====
-- web/routes_auth.py with LoginThrottle: how many logins an address may try.
use api_dashboard.Prelude.{
  ℕ, ◌+◌, ◌*◌, ◌≤◌, ◌<◌, String, ◌≡◌, ◌≢◌, refl, inl, inr, true, none, List, [], ◌∷◌, map, All,
  length, length-map, lookup, ltb, Bool-cases, ◌==◌, ==_iff, arith, nat_eq, string_eq,
}
use api_dashboard.Store.Passwords.{Pbkdf2}
use api_dashboard.Auth.Sessions.{Serializer}
use api_dashboard.Auth.Throttle.{Throttle, locked_for, locked_seconds, record_failure}
use api_dashboard.Auth.Throttle.Lockout.{
  record_failures, last_of, tally, record_failure-tally, locked_seconds-failures_iff,
}
use api_dashboard.Create.Plan.{Forms}
use api_dashboard.Logon.{
  Settings, AppState, rejected, Page, login_error, LoginForm, Verifier, attempt, locked_message,
  login_submit,
}

-- A login that an address tries: the readings of the clock before and after, the token that would be
-- drawn, and the form.
pub record Try : Type 0 where
  pub now : ℕ
  pub later : ℕ
  pub token : String
  pub form : LoginForm

record_failure-limit :
    (now : ℕ) (ip : String) (throttle : Throttle)
    → (record_failure now ip throttle).max_failures ≡ throttle.max_failures
unfolding record_failure
record_failure-limit now ip throttle = refl

module _ {R : Type 0} (pbkdf2 : Pbkdf2) (settings : Settings) (serializer : Serializer)
    (forms : Forms) (verify : Verifier) (ticks : ℕ) (ip : String) where
  abbrev pub submit : Try → AppState R → AppState R × Page
  submit t state =
      login_submit pbkdf2 settings serializer forms verify ticks t.now t.later ip t.token t.form
        state

  -- The tries of the address, one after the other.
  unfoldable pub submit_all : List Try → AppState R → AppState R
  submit_all [] state = state
  submit_all (t ∷ ts) state = submit_all ts (submit t state).0

  -- No form of the tries is accepted.
  abbrev pub Rejected : AppState R → Try → Type 0
  Rejected state t =
      (message : String) × (attempt pbkdf2 settings forms verify t.form state.events
        ≡ rejected message)

  -- Below the limit, a try that is rejected adds a failure.
  submit-Rejected :
      (t : Try) (state : AppState R)
      → (tally ip state.throttle).0 < state.throttle.max_failures
      → Rejected state t
      → (submit t state).0 ≡ record state { throttle = record_failure t.later ip state.throttle }
  unfolding login_submit locked_seconds locked_for
  submit-Rejected t state below (message, e) =
      let open_yet : ltb (tally ip state.throttle).0 state.throttle.max_failures ≡ true =
        ground arith in
      rw (open_yet, e)

  submit_all-Rejected :
      (ts : List Try) (state : AppState R)
      → (tally ip state.throttle).0 + length ts ≤ state.throttle.max_failures
      → All (Rejected state) ts
      → submit_all ts state ≡ record state {
        throttle = record_failures ip (map (λ (t : Try). t.later) ts) state.throttle;
      }
  unfolding submit_all record_failures
  submit_all-Rejected [] state room h = refl
  submit_all-Rejected (t ∷ ts) state room (first, rest) =
      let counted = record_failure-tally t.later ip state.throttle in
      let room' : (tally ip (record_failure t.later ip state.throttle)).0 + length ts
          ≤ state.throttle.max_failures =
        rw counted (omega arith) in
      rw (submit-Rejected t state (omega arith) first) (
        submit_all-Rejected ts
          (record state { throttle = record_failure t.later ip state.throttle })
          (rw (record_failure-limit t.later ip state.throttle) room') rest)

  submit-locked :
      (t : Try) (state : AppState R)
      → (locked_seconds ticks t.now ip state.throttle).0 ≢ 0
      → ((submit t state).1
          ≡ login_error (locked_message forms (locked_seconds ticks t.now ip state.throttle).0))
        × ((submit t state).0.sessions ≡ state.sessions)
  unfolding login_submit
  submit-locked t state busy =
      elim (Bool-cases ((locked_seconds ticks t.now ip state.throttle).0 == 0)) [
        | inl e ↦ absurd (busy ((==_iff _ 0).0 e))
        | inr e ↦ rw e (refl, refl)
      ]

  -- After as many rejected logins in a row as max_failures allows, of an address with no
  -- failures before, every further one within lockout_seconds of the last is answered by the
  -- lockout message, whatever its form, and leaves the sessions as they are.
  pub submit_all-submit :
      (first : Try) (ts : List Try) (t : Try) (state : AppState R)
      → lookup ip state.throttle.failures ≡ none
      → length (first ∷ ts) ≡ state.throttle.max_failures
      → All (Rejected state) (first ∷ ts)
      → t.now
        < state.throttle.lockout_seconds * ticks
          + last_of first.later (map (λ (r : Try). r.later) ts)
      → ((submit t (submit_all (first ∷ ts) state)).1
          ≡ login_error (
              locked_message forms
                (locked_seconds ticks t.now ip (submit_all (first ∷ ts) state).throttle).0))
        × ((submit t (submit_all (first ∷ ts) state)).0.sessions ≡ state.sessions)
  submit_all-submit first ts t state fresh enough h soon =
      let after = submit_all-Rejected (first ∷ ts) state (rw fresh (omega arith)) h in
      let locked =
        locked_seconds-failures_iff ticks t.now first.later (map (λ (r : Try). r.later) ts) ip
          state.throttle fresh in
      let counted : length (map (λ (r : Try). r.later) ts) ≡ length ts = length-map _ ts in
      rw after (submit-locked t _ (locked.1 (omega arith, soon)))
