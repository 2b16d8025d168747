-- ===== src/Logon.antt =====
-- web/routes_auth.py: login, logout and the owner's choice of a branch, with client_for of
-- web/app.py. What ClassIn says of credentials is a parameter.
pub mod Origin
pub mod Counted
pub mod Switch
pub mod Opened
use Prim.Native.String.{[] as empty_text, ◌∷◌ as char, ◌++◌ as concat}
use api_dashboard.Prelude.{
  ℕ, String, Bool, true, false, ◌&&◌, ◌||◌, not, Option, none, some, List, nonempty, get_or, put,
  ◌==◌, nat_eq, string_eq, if◌then◌else◌,
}
use api_dashboard.Session.{Session}
use api_dashboard.Store.Rows.{Store, Branch, User}
use api_dashboard.Store.Queries.{get_branch, get_user_by_username}
use api_dashboard.Store.Passwords.{Pbkdf2, verify_password, compare_digest}
use api_dashboard.Auth.Sessions.{Serializer, Sessions, Login, create, token_of, resolve, destroy}
use api_dashboard.Auth.Throttle.{Throttle, locked_seconds, record_failure, reset}
use api_dashboard.Schedule.Names.{starts_with}
use api_dashboard.Create.Plan.{Forms}

-- What is read of Settings.
pub record Settings : Type 0 where
  pub auth_mode : String
  pub access_password : String
  pub classin_sid : String
  pub classin_secret : String

-- AppState, what the routes change of it.
pub record AppState (R : Type 0) : Type 0 where
  pub sessions : Sessions
  pub throttle : Throttle
  pub events : Store R

-- A dict of session values, an error message, or an exception.
pub data Attempt : Type 0 where
  accepted : Login → Attempt
  rejected : String → Attempt
  raised : Attempt

pub data Page : Type 0 where
  -- The redirect to the dashboard that sets the cookie.
  logged_in : String → Page
  login_error : String → Page
  login_page server_error : Page
  redirect : String → Page

-- The form of the login page.
pub record LoginForm : Type 0 where
  pub username : String
  pub sid : String
  pub secret : String
  pub password : String

abbrev pub bad_login : String
bad_login = "아이디 또는 비밀번호가 올바르지 않습니다."

abbrev pub no_server_creds : String
no_server_creds = "서버에 ClassIn 자격증명이 설정되지 않았습니다 (.env 확인)."

-- The SID and the secret of a branch, where it has both; else those given.
abbrev pub credentials : Option Branch → String × String → String × String
credentials none given = given
credentials (some b) given =
    let sid = get_or b.sid "" in
    let secret = get_or b.secret "" in
    if nonempty sid && nonempty secret then (sid, secret) else given

-- The credentials that client_for gives to the client.
unfoldable pub client_for : {R : Type 0} → Session → Option ℕ → AppState R → String × String
client_for session branch_id state =
    credentials (get_branch state.events branch_id) (session.sid, session.secret)

abbrev pub login_of : User → String × String → Login
login_of user (sid, secret) = record {
  sid = sid;
  secret = secret;
  role = user.role;
  user_id = some user.id;
  username = user.username;
  branch_id = user.branch_id;
  teacher_uid = user.teacher_uid;
}

module _ {R : Type 0} (pbkdf2 : Pbkdf2) (settings : Settings) where
  abbrev pub account_checked : Store R → User → Option Bool → Attempt
  account_checked s user none = raised
  account_checked s user (some false) = rejected bad_login
  account_checked s user (some true) = accepted (
      login_of user
        (credentials (get_branch s user.branch_id) (settings.classin_sid, settings.classin_secret)))

  -- _login_local_user
  unfoldable pub login_local_user : String → String → Store R → Attempt
  login_local_user username password s = elim (get_user_by_username s username) [
    | none ↦ rejected bad_login
    | some user ↦
        if user.active
        then account_checked s user (verify_password pbkdf2 (some user.password_hash) password)
        else rejected bad_login
  ]

-- An owner's session values; no account is theirs.
abbrev pub owner_login : String → String → String → Login
owner_login sid secret username = record {
  sid = sid;
  secret = secret;
  role = "owner";
  user_id = none;
  username = username;
  branch_id = none;
  teacher_uid = none;
}

module _ (settings : Settings) where
  abbrev pub password_compared : Option Bool → Attempt
  password_compared none = raised
  password_compared (some false) = rejected "접속 비밀번호가 올바르지 않습니다."
  password_compared (some true) =
      if nonempty settings.classin_sid && nonempty settings.classin_secret
      then accepted (owner_login settings.classin_sid settings.classin_secret "owner")
      else rejected no_server_creds

  -- _login_fixed
  unfoldable pub login_fixed : String → Attempt
  login_fixed password =
      if nonempty settings.access_password
      then password_compared (compare_digest password settings.access_password)
      else rejected "접속 비밀번호가 올바르지 않습니다."

-- client.verify_credentials() for a SID and a secret: accepted, or the reason; none where an exception
-- leaves it.
abbrev pub Verifier : Type 0
Verifier = String → String → Option (Bool × String)

abbrev pub credentials_checked : String → String → Option (Bool × String) → Attempt
credentials_checked sid secret none = raised
credentials_checked sid secret (some (passed, reason)) =
    if passed then accepted (owner_login sid secret (concat "SID " sid)) else rejected reason

-- _login_credentials
unfoldable pub login_credentials : Verifier → String → String → Attempt
login_credentials verify sid secret =
    if nonempty sid && nonempty secret
    then credentials_checked sid secret (verify sid secret)
    else rejected "SID와 secret을 입력해 주세요."

abbrev pub locked_message : Forms → ℕ → String
locked_message forms locked = concat "로그인 시도가 많습니다. " (concat (forms.str locked) "초 후 다시 시도하세요.")

module _ {R : Type 0} (pbkdf2 : Pbkdf2) (settings : Settings) (forms : Forms)
    (verify : Verifier) where
  -- Which of the three ways a form takes.
  unfoldable pub attempt : LoginForm → Store R → Attempt
  attempt form s =
      let username = forms.strip form.username in
      if nonempty username
      then login_local_user pbkdf2 settings username form.password s
      else if settings.auth_mode == "fixed"
      then login_fixed settings form.password
      else login_credentials verify (forms.strip form.sid) (forms.strip form.secret)

module _ {R : Type 0} (serializer : Serializer) where
  -- What follows the attempt; `token` is drawn for the session.
  abbrev pub attempted : ℕ → String → String → Attempt → AppState R → AppState R × Page
  attempted now ip token (accepted l) state =
      let (cookie, sessions) = create serializer now token l state.sessions in
      (record state { throttle = reset ip state.throttle; sessions = sessions }, logged_in cookie)
  attempted now ip token (rejected message) state =
      (record state { throttle = record_failure now ip state.throttle }, login_error message)
  attempted now ip token raised state = (state, server_error)

module _ {R : Type 0} (pbkdf2 : Pbkdf2) (settings : Settings) (serializer : Serializer)
    (forms : Forms) (verify : Verifier) (ticks : ℕ) where
  -- `now` and `later` are the readings of the clock before the attempt and after it.
  unfoldable pub login_submit : ℕ → ℕ → String → String → LoginForm → AppState R → AppState R × Page
  unfolding attempt
  login_submit now later ip token form state =
      let (locked, throttle) = locked_seconds ticks now ip state.throttle in
      let checked = record state { throttle = throttle } in
      if locked == 0
      then attempted serializer later ip token
          (attempt pbkdf2 settings forms verify form state.events) checked
      else (checked, login_error (locked_message forms locked))

-- The choice of a branch in the form; none where int raises.
abbrev pub picked : Forms → String → Option (Option ℕ)
picked forms branch_id =
    if forms.isdigit (forms.strip branch_id)
    then elim (forms.int branch_id) [ none ↦ none | some b ↦ some (some b) ]
    else some none

-- The session is an object of the dict: the change is one of the entry of its token.
abbrev pub switched : Option String → Session → Option ℕ → Sessions → Sessions
switched none session branch sessions = sessions
switched (some token) session branch sessions =
    put token (record session { branch_filter = branch }) sessions

-- Back to the page that the request came from, where that is of this site.
abbrev pub back_to : String → String → String → Page
back_to referer base fallback = redirect (if starts_with referer base then referer else fallback)

module _ {R : Type 0} (serializer : Serializer) (forms : Forms) (life : ℕ) where
  abbrev pub branch_set :
      Option String → Session → Option (Option ℕ) → Page → AppState R → AppState R × Page
  branch_set cookie session none page state = (state, server_error)
  branch_set cookie session (some branch) page state = (
    record state { sessions = switched (token_of serializer cookie) session branch state.sessions },
    page,
  )

  abbrev pub scope_chosen :
      Option String → Option Session → String → Page → AppState R → AppState R × Page
  scope_chosen cookie none branch_id page state = (state, login_page)
  scope_chosen cookie (some session) branch_id page state =
      if session.role == "owner"
      then branch_set cookie session (picked forms branch_id) page state
      else (state, page)

  unfoldable pub set_branch_scope :
      ℕ → Option String → String → String → String → String → AppState R → AppState R × Page
  set_branch_scope now cookie branch_id referer base fallback state =
      let (session, sessions) = resolve serializer life now cookie state.sessions in
      scope_chosen cookie session branch_id (back_to referer base fallback)
        (record state { sessions = sessions })

  unfoldable pub logout : Option String → AppState R → AppState R × Page
  logout cookie state =
      (record state { sessions = destroy serializer cookie state.sessions }, login_page)
