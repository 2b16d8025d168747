-- ===== src/Auth/Sessions.antt =====
-- SessionStore of auth.py. `URLSafeSerializer` is a parameter: it reads back what it has signed.
pub mod Lifetime
use api_dashboard.Prelude.{
  ℕ, ◌+◌, ◌*◌, String, ◌≡◌, true, Option, none, some, List, ltb, nonempty, lookup, put, erase,
  string_eq, if◌then◌else◌,
}
use api_dashboard.Session.{Session}

pub record Serializer : Type 0 where
  pub dumps : String → String
  -- none stands for BadSignature.
  pub loads : String → Option String
  -- What is signed has a separator in it.
  pub dumps-nonempty : (token : String) → nonempty (dumps token) ≡ true
  pub loads-dumps : (token : String) → loads (dumps token) ≡ some token

-- The dict of the sessions by token.
abbrev pub Sessions : Type 0
Sessions = List (String × Session)

-- What `create` is given.
pub record Login : Type 0 where
  pub sid : String
  pub secret : String
  pub role : String
  pub user_id : Option ℕ
  pub username : String
  pub branch_id : Option ℕ
  pub teacher_uid : Option ℕ

abbrev pub session_of : ℕ → Login → Session
session_of now l = record {
  sid = l.sid;
  secret = l.secret;
  role = l.role;
  user_id = l.user_id;
  username = l.username;
  branch_id = l.branch_id;
  teacher_uid = l.teacher_uid;
  branch_filter = none;
  created_at = now;
}

-- self._ttl, in ticks
unfoldable pub ttl : ℕ → ℕ → ℕ
ttl ticks ttl_hours = ttl_hours * 3600 * ticks

-- The session of a token, where it is there and not too old; an old one is dropped.
unfoldable pub current : ℕ → ℕ → String → Option Session → Sessions → Option Session × Sessions
current life now token none sessions = (none, sessions)
current life now token (some session) sessions =
    if ltb (session.created_at + life) now
    then (none, erase token sessions)
    else (some session, sessions)

module _ (serializer : Serializer) where
  -- `token` is what `secrets.token_urlsafe` drew; the cookie comes first.
  unfoldable pub create : ℕ → String → Login → Sessions → String × Sessions
  create now token l sessions = (serializer.dumps token, put token (session_of now l) sessions)

  -- The token of a cookie, if there is one and its signature is good.
  unfoldable pub token_of : Option String → Option String
  token_of none = none
  token_of (some cookie) = if nonempty cookie then serializer.loads cookie else none

  unfoldable pub resolve : ℕ → ℕ → Option String → Sessions → Option Session × Sessions
  resolve life now cookie sessions = elim (token_of cookie) [
    | none ↦ (none, sessions)
    | some token ↦ current life now token (lookup token sessions) sessions
  ]

  unfoldable pub destroy : Option String → Sessions → Sessions
  destroy cookie sessions = elim (token_of cookie) [
    | none ↦ sessions
    | some token ↦ erase token sessions
  ]
