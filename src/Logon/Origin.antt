-- ===== src/Logon/Origin.antt =====
-- web/routes_auth.py: who is logged in, and as what.
use api_dashboard.Prelude.{
  ℕ, ◌+◌, String, ◌≡◌, ◌≢◌, refl, sym, subst, inl, inr, Bool, true, false, ◌&&◌, Option, none, some,
  nonempty, ltb, In, find-In, find-passes, Bool-cases, Option-cases, ◌==◌, ==_iff, nat_eq,
  string_eq, if◌then◌else◌,
}
use Prim.Native.String.{◌++◌ as concat}
use mathlib.Core.Option.{some-injective}
use api_dashboard.Store.Rows.{Store, User}
use api_dashboard.Store.Queries.{get_branch, get_user_by_username}
use api_dashboard.Store.Passwords.{Pbkdf2, verify_password, compare_digest, is_ascii}
use api_dashboard.Auth.Sessions.{Serializer, Login, session_of, create, resolve}
use api_dashboard.Auth.Sessions.Lifetime.{resolve-create}
use api_dashboard.Auth.Throttle.{locked_seconds}
use api_dashboard.Create.Plan.{Forms}
use api_dashboard.Logon.{
  Settings, AppState, Attempt, accepted, rejected, raised, Page, logged_in, LoginForm, Verifier,
  login_of, owner_login, credentials, credentials_checked, account_checked, login_local_user,
  password_compared, login_fixed, login_credentials, credentials_checked, attempt, attempted,
  login_submit,
}

compared-same : (a b : String) → compare_digest a b ≡ some true → a ≡ b
unfolding compare_digest
compared-same a b h = elim (Bool-cases (is_ascii a && is_ascii b)) [
  | inl plain ↦ (==_iff a b).0 (some-injective _ _ (rw (compare_digest, plain) at h))
  | inr other ↦ let h' = rw (compare_digest, other) at h in cc
]

password_compared-accepted :
    (settings : Settings) (o : Option Bool) (l : Login)
    → password_compared settings o ≡ accepted l
    → (o ≡ some true) × (owner_login settings.classin_sid settings.classin_secret "owner" ≡ l)
password_compared-accepted settings none l e = cc
password_compared-accepted settings (some false) l e = cc
password_compared-accepted settings (some true) l e =
    elim (Bool-cases (nonempty settings.classin_sid && nonempty settings.classin_secret)) [
      | inl set ↦ (refl, cc (rw set at e))
      | inr unset ↦ let e' = rw unset at e in cc
    ]

module _ {R : Type 0} (pbkdf2 : Pbkdf2) (settings : Settings) (forms : Forms)
    (verify : Verifier) where
  -- What entitles a form to the values of a session: an active account whose password it has, the
  -- access password of the server, or credentials that ClassIn takes.
  pub data Entitled (form : LoginForm) (s : Store R) : Login → Type 0 where
    account :
        (u : User) (keys : String × String)
        → In u s.users
        → u.username ≡ forms.strip form.username
        → u.active ≡ true
        → verify_password pbkdf2 (some u.password_hash) form.password ≡ some true
        → Entitled form s (login_of u keys)
    shared :
        nonempty (forms.strip form.username) ≡ false
        → settings.auth_mode ≡ "fixed"
        → nonempty settings.access_password ≡ true
        → form.password ≡ settings.access_password
        → Entitled form s (owner_login settings.classin_sid settings.classin_secret "owner")
    verified :
        (name reason : String)
        → nonempty (forms.strip form.username) ≡ false
        → settings.auth_mode ≢ "fixed"
        → verify (forms.strip form.sid) (forms.strip form.secret) ≡ some (true, reason)
        → Entitled form s (owner_login (forms.strip form.sid) (forms.strip form.secret) name)

  account_checked-accepted :
      (s : Store R) (u : User) (o : Option Bool) (l : Login)
      → account_checked pbkdf2 settings s u o ≡ accepted l
      → (keys : String × String) × (o ≡ some true) × (login_of u keys ≡ l)
  account_checked-accepted s u none l e = cc
  account_checked-accepted s u (some false) l e = cc
  account_checked-accepted s u (some true) l e = (
    credentials (get_branch s u.branch_id) (settings.classin_sid, settings.classin_secret),
    refl,
    cc e,
  )

  local-Entitled :
      (form : LoginForm) (s : Store R) (l : Login)
      → login_local_user pbkdf2 settings (forms.strip form.username) form.password s ≡ accepted l
      → Entitled form s l
  unfolding login_local_user get_user_by_username
  local-Entitled form s l e =
      elim (Option-cases (get_user_by_username s (forms.strip form.username))) [
        | inl missing ↦ let e' = rw (login_local_user, missing) at e in cc
        | inr (u, found) ↦ elim (Bool-cases u.active) [
          | inr off ↦ let e' = rw (login_local_user, found, off) at e in cc
          | inl active ↦
              let e' = rw (login_local_user, found, active) at e in
              let (keys, good, same) = account_checked-accepted s u _ l e' in
              subst (Entitled form s) same (
                account u keys (find-In _ s.users u found)
                  ((==_iff u.username _).0 (
                    find-passes (λ (v : User). v.username == forms.strip form.username) s.users
                      found))
                  active good)
        ]
      ]

  fixed-Entitled :
      (form : LoginForm) (s : Store R) (l : Login)
      → nonempty (forms.strip form.username) ≡ false
      → settings.auth_mode ≡ "fixed"
      → login_fixed settings form.password ≡ accepted l
      → Entitled form s l
  unfolding login_fixed
  fixed-Entitled form s l blank mode e = elim (Bool-cases (nonempty settings.access_password)) [
    | inl set ↦
        let (same, owner) = password_compared-accepted settings _ l (rw (login_fixed, set) at e) in
        subst (Entitled form s) owner (shared blank mode set (compared-same _ _ same))
    | inr unset ↦ let e' = rw (login_fixed, unset) at e in cc
  ]

  credentials_checked-accepted :
      (form : LoginForm) (s : Store R) (l : Login) (o : Option (Bool × String))
      → nonempty (forms.strip form.username) ≡ false
      → settings.auth_mode ≢ "fixed"
      → verify (forms.strip form.sid) (forms.strip form.secret) ≡ o
      → credentials_checked (forms.strip form.sid) (forms.strip form.secret) o ≡ accepted l
      → Entitled form s l
  credentials_checked-accepted form s l none blank mode q e = cc
  credentials_checked-accepted form s l (some (false, reason)) blank mode q e = cc
  credentials_checked-accepted form s l (some (true, reason)) blank mode q e =
      let sid = forms.strip form.sid in
      let same : owner_login sid (forms.strip form.secret) (concat "SID " sid) ≡ l = cc e in
      subst (Entitled form s) same (verified (concat "SID " sid) reason blank mode q)

  credentials-Entitled :
      (form : LoginForm) (s : Store R) (l : Login)
      → nonempty (forms.strip form.username) ≡ false
      → settings.auth_mode ≢ "fixed"
      → login_credentials verify (forms.strip form.sid) (forms.strip form.secret) ≡ accepted l
      → Entitled form s l
  unfolding login_credentials
  credentials-Entitled form s l blank mode e =
      elim (Bool-cases (nonempty (forms.strip form.sid) && nonempty (forms.strip form.secret))) [
        | inl given ↦
            credentials_checked-accepted form s l _ blank mode refl
              (rw (login_credentials, given) at e)
        | inr missing ↦ let e' = rw (login_credentials, missing) at e in cc
      ]

  attempt-Entitled :
      (form : LoginForm) (s : Store R) (l : Login)
      → attempt pbkdf2 settings forms verify form s ≡ accepted l
      → Entitled form s l
  unfolding attempt
  attempt-Entitled form s l e = elim (Bool-cases (nonempty (forms.strip form.username))) [
    | inl named ↦ local-Entitled form s l (rw (attempt, named) at e)
    | inr blank ↦ elim (Bool-cases (settings.auth_mode == "fixed")) [
      | inl mode ↦
          fixed-Entitled form s l blank ((==_iff settings.auth_mode "fixed").0 mode)
            (rw (attempt, blank, mode) at e)
      | inr mode ↦
          credentials-Entitled form s l blank (λ f. cc ((==_iff settings.auth_mode "fixed").1 f))
            (rw (attempt, blank, mode) at e)
    ]
  ]

  module _ (serializer : Serializer) (ticks : ℕ) where
    attempted-logged_in :
        (life now later : ℕ) (ip token cookie : String) (a : Attempt) (state : AppState R)
        → (attempted serializer now ip token a state).1 ≡ logged_in cookie
        → (l : Login) × (a ≡ accepted l)
          × ((resolve serializer life later
                (some cookie)
                (attempted serializer now ip token a state).0.sessions).0
              ≡ (if ltb (now + life) later then none else some (session_of now l)))
    unfolding create
    attempted-logged_in life now later ip token cookie (accepted l) state e =
        let same : serializer.dumps token ≡ cookie = cc e in
        (l, refl, rw (sym same) (resolve-create serializer life now later token l state.sessions))
    attempted-logged_in life now later ip token cookie (rejected m) state e = cc
    attempted-logged_in life now later ip token cookie raised state e = cc

    abbrev pub submitted : ℕ → ℕ → String → String → LoginForm → AppState R → AppState R × Page
    submitted = login_submit pbkdf2 settings serializer forms verify ticks

    -- A login that sets a cookie was not locked out, and at every later reading up to the time
    -- to live the cookie gives the session of values that the form is entitled to: those of an
    -- active account of that username whose password hash the password verifies, or, without a
    -- username, an owner's by the server's access password in fixed mode or by credentials that
    -- ClassIn accepts in the other.
    pub login_submit-Entitled :
        (life now later later' : ℕ) (ip token cookie : String) (form : LoginForm)
        (state : AppState R)
        → (submitted now later ip token form state).1 ≡ logged_in cookie
        → (l : Login) × Entitled form state.events l
          × ((locked_seconds ticks now ip state.throttle).0 ≡ 0)
          × ((resolve serializer life later'
                (some cookie)
                (submitted now later ip token form state).0.sessions).0
              ≡ (if ltb (later + life) later' then none else some (session_of later l)))
    unfolding login_submit
    login_submit-Entitled life now later later' ip token cookie form state e =
        let (locked, throttle) = locked_seconds ticks now ip state.throttle in
        elim (Bool-cases (locked == 0)) [
          | inl free ↦
              let (l, by, given) =
                attempted-logged_in life later later' ip token cookie _
                  (record state { throttle = throttle }) (rw free at e) in
              (l, attempt-Entitled form state.events l by, (==_iff locked 0).0 free, rw free given)
          | inr busy ↦ let e' = rw busy at e in cc
        ]
