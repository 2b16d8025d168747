-- ===== src/Auth/Sessions/Lifetime.antt =====
-- SessionStore of auth.py: how long a cookie is good for.
use api_dashboard.Prelude.{
  ℕ, ◌+◌, ◌≤◌, String, ◌≡◌, ◌≢◌, refl, true, inl, inr, Option, none, some, ltb, lookup, erase,
  lookup-put, lookup-erase, Bool-cases, Option-cases, ==_iff, ==_refl, ◌==◌, arith, string_eq,
  if◌then◌else◌,
}
use api_dashboard.Session.{Session}
use api_dashboard.Auth.Sessions.{
  Serializer, Sessions, Login, session_of, create, token_of, current, resolve, destroy,
}

-- The session that a token is good for at a clock reading.
abbrev pub live : ℕ → ℕ → Option Session → Option Session
live life now none = none
live life now (some session) = if ltb (session.created_at + life) now then none else some session

-- What a cookie is good for: its token's session, while that is not too old.
abbrev pub good : ℕ → ℕ → Sessions → Option String → Option Session
good life now sessions none = none
good life now sessions (some token) = live life now (lookup token sessions)

current-live :
    (life now : ℕ) (token : String) (o : Option Session) (sessions : Sessions)
    → (current life now token o sessions).0 ≡ live life now o
unfolding current
current-live life now token none sessions = refl
current-live life now token (some session) sessions = ground arith

erased-old :
    (life now now' : ℕ) (token other : String) (session : Session) (sessions : Sessions)
    → now ≤ now'
    → lookup token sessions ≡ some session
    → ltb (session.created_at + life) now ≡ true
    → live life now' (lookup other (erase token sessions)) ≡ live life now' (lookup other sessions)
erased-old life now now' token other session sessions later e old =
    rw (lookup-erase token other sessions) (elim (Bool-cases (token == other)) [
      | inl same ↦
          let here : token ≡ other = (==_iff token other).0 same in
          let found : lookup other sessions ≡ some session = (rw here at e) in
          let still : ltb (session.created_at + life) now' ≡ true = ground arith in
          rw (same, found) (rw still)
      | inr apart ↦ rw apart
    ])

-- Of a later reading, nothing is lost by dropping a session that is too old.
current-later :
    (life now now' : ℕ) (token other : String) (sessions : Sessions)
    → now ≤ now'
    → live life now' (lookup other (current life now token (lookup token sessions) sessions).1)
      ≡ live life now' (lookup other sessions)
unfolding current
current-later life now now' token other sessions later =
    elim (Option-cases (lookup token sessions)) [
      | inl e ↦ rw (e, current)
      | inr (session, e) ↦ elim (Bool-cases (ltb (session.created_at + life) now)) [
        | inl old ↦
            rw (e, current, old) (erased-old life now now' token other session sessions later e old)
        | inr young ↦ rw (e, current, young)
      ]
    ]

good-later :
    (life now now' : ℕ) (token : String) (sessions : Sessions)
    → now ≤ now'
    → (o : Option String)
    → good life now' (current life now token (lookup token sessions) sessions).1 o
      ≡ good life now' sessions o
good-later life now now' token sessions later none = refl
good-later life now now' token sessions later (some other) =
    current-later life now now' token other sessions later

module _ (serializer : Serializer) (life : ℕ) where
  pub resolve-good :
      (now : ℕ) (cookie : Option String) (sessions : Sessions)
      → (resolve serializer life now cookie sessions).0
        ≡ good life now sessions (token_of serializer cookie)
  unfolding resolve
  resolve-good now cookie sessions = elim (Option-cases (token_of serializer cookie)) [
    | inl e ↦ rw (e, resolve)
    | inr (token, e) ↦
        rw (e, resolve) (current-live life now token (lookup token sessions) sessions)
  ]

  token-dumps : (token : String) → token_of serializer (some (serializer.dumps token)) ≡ some token
  unfolding token_of
  token-dumps token = rw (serializer.dumps-nonempty token) (serializer.loads-dumps token)

  -- The cookie that create returned gives its session at every reading up to the time to live,
  -- and none after it.
  pub resolve-create :
      (now now' : ℕ) (token : String) (l : Login) (sessions : Sessions)
      → let (cookie, after) = create serializer now token l sessions in
        (resolve serializer life now' (some cookie) after).0
        ≡ (if ltb (now + life) now' then none else some (session_of now l))
  unfolding create
  resolve-create now now' token l sessions =
      rw (resolve-good, token-dumps, lookup-put, ==_refl token)

  -- A login under a token leaves what the cookies of every other token give as it was.
  pub resolve-create_other :
      (now now' : ℕ) (token other : String) (l : Login) (cookie : Option String)
      (sessions : Sessions)
      → token_of serializer cookie ≡ some other
      → token ≢ other
      → (resolve serializer life now' cookie (create serializer now token l sessions).1).0
        ≡ (resolve serializer life now' cookie sessions).0
  unfolding create
  resolve-create_other now now' token other l cookie sessions e ne =
      rw (resolve-good, resolve-good, e, lookup-put) (ground (arith, ==_iff token other))

  -- After destroy, a cookie of the same token gives no session, and a cookie of another token
  -- gives what it gave before.
  pub resolve-destroy :
      (now : ℕ) (cookie other : Option String) (token token' : String) (sessions : Sessions)
      → token_of serializer cookie ≡ some token
      → token_of serializer other ≡ some token'
      → (resolve serializer life now other (destroy serializer cookie sessions)).0
        ≡ (if token == token' then none else (resolve serializer life now other sessions).0)
  unfolding destroy
  resolve-destroy now cookie other token token' sessions e e' =
      rw (resolve-good, resolve-good, e', e, destroy, lookup-erase)
        (elim (Bool-cases (token == token')) [ inl same ↦ rw same | inr apart ↦ rw apart ])

  -- To resolve a cookie, which may drop a session that is too old, changes nothing that any
  -- cookie gives at that reading or a later one.
  pub resolve-resolve :
      (now now' : ℕ) (cookie other : Option String) (sessions : Sessions)
      → now ≤ now'
      → (resolve serializer life now' other (resolve serializer life now cookie sessions).1).0
        ≡ (resolve serializer life now' other sessions).0
  unfolding resolve
  resolve-resolve now now' cookie other sessions later =
      rw (resolve-good now' other, resolve-good now' other sessions)
        (elim (Option-cases (token_of serializer cookie)) [
          | inl e ↦ rw (e, resolve)
          | inr (token, e) ↦
              rw (e, resolve)
                (good-later life now now' token sessions later (token_of serializer other))
        ])
