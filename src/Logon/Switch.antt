-- ===== src/Logon/Switch.antt =====
-- web/routes_auth.py: what the owner's choice of a branch does to the sessions.
use api_dashboard.Prelude.{
  ℕ, ◌≤◌, String, ◌≡◌, sym, inl, inr, ◌&&◌, Option, some, lookup-put, Bool-cases, ◌==◌, nat_eq,
  string_eq, if◌then◌else◌,
}
use api_dashboard.Session.{Session}
use api_dashboard.Auth.Sessions.{Serializer, Sessions, token_of, resolve}
use api_dashboard.Auth.Sessions.Lifetime.{live, resolve-good, resolve-resolve}
use api_dashboard.Create.Plan.{Forms}
use api_dashboard.Logon.{AppState, picked, switched, set_branch_scope}

-- The session with the branch that was picked.
abbrev pub with_branch : Session → Option ℕ → Session
with_branch session branch = record session { branch_filter = branch }

module _ (serializer : Serializer) (life : ℕ) where
  switched-resolve :
      (now' : ℕ) (token token' : String) (cookie other : Option String) (session : Session)
      (branch : Option ℕ) (sessions : Sessions)
      → token_of serializer cookie ≡ some token
      → token_of serializer other ≡ some token'
      → (resolve serializer life now' other
          (switched (token_of serializer cookie) session branch sessions)).0
        ≡ (if token == token'
            then live life now' (some (with_branch session branch))
            else (resolve serializer life now' other sessions).0)
  switched-resolve now' token token' cookie other session branch sessions e e' =
      rw (resolve-good, resolve-good, e, e', lookup-put)
        (elim (Bool-cases (token == token')) [ inl same ↦ rw same | inr apart ↦ rw apart ])

module _ {R : Type 0} (serializer : Serializer) (forms : Forms) (life : ℕ) where
  -- Where a cookie gives a session and the field reads as a choice of branch, a later cookie of
  -- the same token gives that session with the branch picked if its role is owner, while it is
  -- not too old; any other cookie, and any cookie if it is not an owner's, gives what it gave
  -- before.
  pub set_branch_scope-resolve :
      (now now' : ℕ) (cookie other : Option String)
      (token token' branch_id referer base fallback : String) (session : Session)
      (branch : Option ℕ) (state : AppState R)
      → now ≤ now'
      → token_of serializer cookie ≡ some token
      → token_of serializer other ≡ some token'
      → (resolve serializer life now cookie state.sessions).0 ≡ some session
      → picked forms branch_id ≡ some branch
      → (resolve serializer life now' other
          (set_branch_scope serializer forms life now cookie branch_id referer base fallback
            state).0.sessions).0
        ≡ (if (session.role == "owner") && (token == token')
            then live life now' (some (with_branch session branch))
            else (resolve serializer life now' other state.sessions).0)
  unfolding set_branch_scope
  set_branch_scope-resolve now now' cookie other token token' branch_id referer base fallback
        session branch state later e e' found chosen =
      let unchanged = resolve-resolve serializer life now now' cookie other state.sessions later in
      rw (found, set_branch_scope, sym unchanged)
        (elim (Bool-cases (session.role == "owner")) [
          | inr o ↦ rw o
          | inl o ↦
              rw (o, chosen)
                (switched-resolve serializer life now' token token' cookie other session branch _ e
                  e')
        ])
