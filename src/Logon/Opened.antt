-- ===== src/Logon/Opened.antt =====
-- web/routes_auth.py: the logins of an account after its lockout.
use api_dashboard.Prelude.{
  ℕ, ◌+◌, ◌*◌, ◌≤◌, String, ◌≡◌, refl, sym, subst, ◌∙◌, inl, inr, Bool, true, false, none, some,
  List, [], ◌∷◌, All, lookup-put, lookup-erase, erase, find, find-In, find-passes, In, Distinct,
  Distinct-same, nonempty, ltb, leb, Bool-cases, Option-cases, ◌==◌, ==_iff, ==_refl, arith, nat_eq,
  string_eq,
}
use api_dashboard.Store.Rows.{Store, User}
use api_dashboard.Store.Queries.{get_user_by_username, get_branch}
use api_dashboard.Store.Passwords.{Pbkdf2, verify_password}
use api_dashboard.Auth.Sessions.{Serializer, Login, session_of, create, resolve}
use api_dashboard.Auth.Sessions.Lifetime.{resolve-create}
use api_dashboard.Auth.Throttle.{Throttle, locked_for, locked_seconds, record_failure, reset}
use api_dashboard.Auth.Throttle.Lockout.{tally, locked_iff}
use api_dashboard.Create.Plan.{Forms}
use api_dashboard.Logon.{
  Settings, AppState, Attempt, accepted, rejected, raised, logged_in, LoginForm, Verifier, attempt,
  attempted, login_local_user, login_of, credentials, login_submit,
}
use api_dashboard.Logon.Counted.{Try, submit, submit_all}

-- The last failure of an address is long enough ago at a reading of the clock.
abbrev Over : ℕ → ℕ → String → Throttle → Type 0
Over ticks now ip t = t.lockout_seconds * ticks + (tally ip t).1 ≤ now

find-none :
    {A : Type 0} (p : A → Bool) (xs : List A) (a : A) → find p xs ≡ none → In a xs → ¬ (p a ≡ true)
find-none p [] a e m h = m
find-none p (x ∷ xs) a e (inl same) h = ground (arith, e, same, h)
find-none p (x ∷ xs) a e (inr m) h = elim (Bool-cases (p x)) [
  | inl b ↦ let e' = rw b at e in cc
  | inr b ↦ find-none p xs a (rw b at e) m h
]

module _ (ticks : ℕ) (now : ℕ) (ip : String) where
  erased_Over :
      (t : Throttle)
      → t.lockout_seconds * ticks ≤ now
      → Over ticks now ip (record t { failures = erase ip t.failures })
  erased_Over t h = rw (lookup-erase ip ip t.failures, ==_refl ip) (omega arith)

  locked_seconds-Over :
      (at : ℕ) (t : Throttle)
      → t.lockout_seconds * ticks ≤ now
      → Over ticks now ip t
      → Over ticks now ip (locked_seconds ticks at ip t).1
        × ((locked_seconds ticks at ip t).1.lockout_seconds ≡ t.lockout_seconds)
  unfolding locked_seconds locked_for
  locked_seconds-Over at t h o =
      let erased = erased_Over t h in
      elim (Bool-cases (ltb (tally ip t).0 t.max_failures)) [
        | inl below ↦ rw below (o, refl)
        | inr above ↦ elim (Bool-cases (leb (t.lockout_seconds * ticks + (tally ip t).1) at)) [
          | inl past ↦ rw (above, past) (erased, refl)
          | inr soon ↦ rw (above, soon) (o, refl)
        ]
      ]

module _ {R : Type 0} (pbkdf2 : Pbkdf2) (settings : Settings) (serializer : Serializer)
    (forms : Forms) (verify : Verifier) (ticks : ℕ) (ip : String) where
  module _ (s : Store R) (lockout now : ℕ) where
    -- The tables are these, and no failure of the address counts any more.
    abbrev Ready : AppState R → Type 0
    Ready state =
        (state.events ≡ s)
        × (state.throttle.lockout_seconds ≡ lockout)
        × Over ticks now ip state.throttle

    attempted-Ready :
        (a : Attempt) (later : ℕ) (token : String) (state : AppState R)
        → lockout * ticks + later ≤ now
        → Ready state
        → Ready (attempted serializer later ip token a state).0
    unfolding reset record_failure
    attempted-Ready (accepted l) later token state early (e, same, o) = (
      e,
      same,
      rw (lookup-erase ip ip state.throttle.failures, ==_refl ip) (rw same (omega arith)),
    )
    attempted-Ready (rejected message) later token state early (e, same, o) =
        (e, same, rw (lookup-put ip ip, ==_refl ip) (rw same early))
    attempted-Ready raised later token state early h = h

    submit-Ready :
        (t : Try) (state : AppState R)
        → lockout * ticks + t.later ≤ now
        → Ready state
        → Ready (submit pbkdf2 settings serializer forms verify ticks ip t state).0
    unfolding login_submit
    submit-Ready t state early (e, same, o) =
        let (kept, limit) =
          locked_seconds-Over ticks now ip t.now state.throttle (rw same (omega arith)) o in
        let checked : AppState R = record state {
          throttle = (locked_seconds ticks t.now ip state.throttle).1;
        } in
        let ready : Ready checked = (e, limit ∙ same, kept) in
        elim (Bool-cases ((locked_seconds ticks t.now ip state.throttle).0 == 0)) [
          | inl free ↦ rw free (attempted-Ready _ t.later t.token checked early ready)
          | inr busy ↦ rw busy ready
        ]

    submit_all-Ready :
        (ts : List Try) (state : AppState R)
        → All (λ (t : Try). lockout * ticks + t.later ≤ now) ts
        → Ready state
        → Ready (submit_all pbkdf2 settings serializer forms verify ticks ip ts state)
    unfolding submit_all
    submit_all-Ready [] state early h = h
    submit_all-Ready (t ∷ ts) state (first, rest) h =
        submit_all-Ready ts _ rest (submit-Ready t state first h)

  -- The session values of an account.
  abbrev pub values_of : User → Store R → Login
  values_of u s =
      login_of u
        (credentials (get_branch s u.branch_id) (settings.classin_sid, settings.classin_secret))

  login_local_user-found :
      (s : Store R) (u : User) (username password : String)
      → get_user_by_username s username ≡ some u
      → u.active ≡ true
      → verify_password pbkdf2 (some u.password_hash) password ≡ some true
      → login_local_user pbkdf2 settings username password s ≡ accepted (values_of u s)
  unfolding login_local_user
  login_local_user-found s u username password found active good =
      rw (found, login_local_user) (rw active (rw good refl))

  attempt-account :
      (s : Store R) (u : User) (form : LoginForm)
      → Distinct (λ (v : User). v.username) s.users
      → In u s.users
      → u.username ≡ forms.strip form.username
      → nonempty u.username ≡ true
      → u.active ≡ true
      → verify_password pbkdf2 (some u.password_hash) form.password ≡ some true
      → attempt pbkdf2 settings forms verify form s ≡ accepted (values_of u s)
  unfolding attempt login_local_user get_user_by_username
  attempt-account s u form keys here name named active good =
      let name_test = λ (v : User). v.username == forms.strip form.username in
      elim (Option-cases (find name_test s.users)) [
        | inl missing ↦
            absurd (find-none name_test s.users u missing here ((==_iff u.username _).1 name))
        | inr (v, found) ↦
            let same : v ≡ u =
              Distinct-same (λ (w : User). w.username) s.users keys v u
                (find-In name_test s.users v found) here
                ((==_iff v.username _).0 (find-passes name_test s.users found) ∙ sym name) in
            let stripped : nonempty (forms.strip form.username) ≡ true = rw name at named in
            rw stripped (login_local_user-found s u _ _ (found ∙ rw same refl) active good)
      ]

  -- An accepted login of an address that is not locked.
  submit-accepted :
      (t : Try) (state : AppState R) (l : Login) (life reading : ℕ)
      → (locked_seconds ticks t.now ip state.throttle).0 ≡ 0
      → attempt pbkdf2 settings forms verify t.form state.events ≡ accepted l
      → reading ≤ t.later + life
      → let (opened, page) = submit pbkdf2 settings serializer forms verify ticks ip t state in
        (cookie : String) × (page ≡ logged_in cookie)
        × ((resolve serializer life reading (some cookie) opened.sessions).0
            ≡ some (session_of t.later l))
  unfolding login_submit create
  submit-accepted t state l life reading free e within =
      let fresh : ltb (t.later + life) reading ≡ false = ground arith in
      let zero_test : ((locked_seconds ticks t.now ip state.throttle).0 == 0) ≡ true =
        (==_iff _ 0).1 free in
      rw (zero_test, e)
        (
          serializer.dumps t.token,
          refl,
          resolve-create serializer life t.later reading t.token l state.sessions ∙ rw fresh refl,
        )

  -- Where the usernames are distinct, an active account with a username can log in with its
  -- password whatever its address has tried before, as soon as lockout_seconds have passed
  -- since the tries and since the last failure that was kept: the login sets a cookie, and up
  -- to the time to live the cookie gives the session of the account.
  pub submit_all-account :
      (state : AppState R) (ts : List Try) (t : Try) (u : User) (life reading : ℕ)
      → Distinct (λ (v : User). v.username) state.events.users
      → In u state.events.users
      → u.username ≡ forms.strip t.form.username
      → nonempty u.username ≡ true
      → u.active ≡ true
      → verify_password pbkdf2 (some u.password_hash) t.form.password ≡ some true
      → state.throttle.lockout_seconds * ticks + (tally ip state.throttle).1 ≤ t.now
      → All (λ (r : Try). state.throttle.lockout_seconds * ticks + r.later ≤ t.now) ts
      → reading ≤ t.later + life
      → let after = submit_all pbkdf2 settings serializer forms verify ticks ip ts state in
        let (opened, page) = submit pbkdf2 settings serializer forms verify ticks ip t after in
        (cookie : String) × (page ≡ logged_in cookie)
        × ((resolve serializer life reading (some cookie) opened.sessions).0
            ≡ some (session_of t.later (values_of u state.events)))
  submit_all-account state ts t u life reading keys here name named active good first early within =
      let (e, limit, o) =
        submit_all-Ready state.events state.throttle.lockout_seconds t.now ts state early
          (refl, refl, first) in
      let after = submit_all pbkdf2 settings serializer forms verify ticks ip ts state in
      let held = locked_iff ticks t.now ip after.throttle in
      submit-accepted t after (values_of u state.events) life reading (ground (arith, held, o))
        (subst
          (λ s. attempt pbkdf2 settings forms verify t.form s ≡ accepted (values_of u state.events))
          (sym e) (attempt-account state.events u t.form keys here name named active good))
        within
