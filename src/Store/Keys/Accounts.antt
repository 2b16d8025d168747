-- ===== src/Store/Keys/Accounts.antt =====
-- store.py: the statements on branches and users keep the keys distinct.
use api_dashboard.Prelude.{
  ℕ, String, ◌≡◌, refl, Bool, false, not, ◌&&◌, Option, List, [], ◌∷◌, inl, inr, any, Distinct,
  upsert-Distinct, update-Distinct, append-Distinct, upsert_other-Distinct, subst, keep-Distinct,
  update, arith, ◌==◌, ==_iff, ==_comm, Bool-cases, nat_eq, string_eq, option_eq, pair_eq,
}
use api_dashboard.Store.Rows.{Store, Branch, User}
use api_dashboard.Store.Accounts.{
  ok, put_branch, rename_branch, renamed, branch_in_use, delete_branch, create_user, add_user,
  set_user_active, set_user_password,
}
use api_dashboard.Store.Keys.{HasKeys, branches-HasKeys, users-HasKeys}

any-renamed :
    (id : ℕ) (k name : String) (sid secret : Option String) (rows : List Branch)
    → (name == k) ≡ false
    → any (λ (b : Branch). b.name == k) rows ≡ false
    → any
        (λ (b : Branch). b.name == k)
        (update (λ (b : Branch). b.id == id) (renamed name sid secret) rows)
      ≡ false
any-renamed id k name sid secret [] n h = h
any-renamed id k name sid secret (b ∷ rows) n h =
    ground (arith, any-renamed id k name sid secret rows n)

no_namesake :
    (id : ℕ) (name : String) (sid secret : Option String) (rows : List Branch)
    → any (λ (b : Branch). b.id == id) rows ≡ false
    → any (λ (b : Branch). (b.name == name) && not (b.id == id)) rows ≡ false
    → any
        (λ (b : Branch). b.name == name)
        (update (λ (b : Branch). b.id == id) (renamed name sid secret) rows)
      ≡ false
no_namesake id name sid secret [] h f = refl
no_namesake id name sid secret (b ∷ rows) h f = ground (arith, no_namesake id name sid secret rows)

-- No other branch has the name, so the names stay distinct.
renamed-Distinct :
    (id : ℕ) (name : String) (sid secret : Option String) (rows : List Branch)
    → Distinct (λ (b : Branch). b.id) rows
    → Distinct (λ (b : Branch). b.name) rows
    → any (λ (b : Branch). (b.name == name) && not (b.id == id)) rows ≡ false
    → Distinct
        (λ (b : Branch). b.name)
        (update (λ (b : Branch). b.id == id) (renamed name sid secret) rows)
renamed-Distinct id name sid secret [] d e f = tt
renamed-Distinct id name sid secret (b ∷ rows) d e f = elim (Bool-cases (b.id == id)) [
  | inl here ↦
      let same : b.id ≡ id = (==_iff b.id id).0 here in
      rw here (
        no_namesake id name sid secret rows (rw same at d.0) (ground arith),
        renamed-Distinct id name sid secret rows d.1 e.1 (ground arith),
      )
  | inr other ↦ rw other (
    any-renamed id b.name name sid secret rows (ground (arith, ==_comm name b.name)) e.0,
    renamed-Distinct id name sid secret rows d.1 e.1 (ground arith),
  )
]

module _ {R : Type 0} where
  pub delete_branch-HasKeys : (id : ℕ) (s : Store R) → HasKeys s → HasKeys (delete_branch id s).0
  unfolding delete_branch
  delete_branch-HasKeys id s h = elim (Bool-cases (branch_in_use id s)) [
    | inl used ↦ rw used h
    | inr free ↦ rw free (
        branches-HasKeys s _ (keep-Distinct (λ (b : Branch). b.id) _ s.branches h.branches)
          (keep-Distinct (λ (b : Branch). b.name) _ s.branches h.branch_names) h)
  ]

  -- A new row has an id that no row of the table has: AUTOINCREMENT.
  pub upsert_branch_new-HasKeys :
      (now : String) (new_id : ℕ) (name : String) (sid secret : Option String) (s : Store R)
      → any (λ (b : Branch). b.id == new_id) s.branches ≡ false
      → HasKeys s
      → HasKeys (put_branch now new_id name sid secret s).0
  upsert_branch_new-HasKeys now new_id name sid secret s fresh h =
      branches-HasKeys s _
        (upsert_other-Distinct (λ (b : Branch). b.id) _ _ _ (λ b. refl) s.branches fresh h.branches)
        (upsert-Distinct (λ (b : Branch). b.name) name _ _ (λ b. refl) refl s.branches
          h.branch_names)
        h

  pub create_user-HasKeys :
      (now : String) (new_id : ℕ) (username hash role : String) (b t : Option ℕ) (s s' : Store R)
      (id : ℕ)
      → any (λ (u : User). u.id == new_id) s.users ≡ false
      → HasKeys s
      → create_user now new_id username hash role b t s ≡ ok (s', id)
      → HasKeys s'
  unfolding create_user
  create_user-HasKeys now new_id username hash role b t s s' id fresh h e =
      elim (Bool-cases (any (λ (u : User). u.username == username) s.users)) [
        | inl taken ↦ cc (rw taken at e)
        | inr new ↦
            let made : add_user now new_id username hash role b t s ≡ s' = cc (rw new at e) in
            subst HasKeys made (
              users-HasKeys s _ (append-Distinct (λ (u : User). u.id) _ s.users h.users fresh)
                (append-Distinct (λ (u : User). u.username) _ s.users h.usernames new) h)
      ]

  pub set_user_active-HasKeys :
      (id : ℕ) (active : Bool) (s : Store R) → HasKeys s → HasKeys (set_user_active id active s)
  unfolding set_user_active
  set_user_active-HasKeys id active s h =
      users-HasKeys s _
        (update-Distinct (λ (u : User). u.id) (λ (u : User). u.id == id)
          (λ (u : User). record u { active = active }) (λ u. refl) s.users h.users)
        (update-Distinct (λ (u : User). u.username) (λ (u : User). u.id == id)
          (λ (u : User). record u { active = active }) (λ u. refl) s.users h.usernames)
        h

  pub set_user_password-HasKeys :
      (id : ℕ) (hash : String) (s : Store R) → HasKeys s → HasKeys (set_user_password id hash s)
  unfolding set_user_password
  set_user_password-HasKeys id hash s h =
      users-HasKeys s _
        (update-Distinct (λ (u : User). u.id) (λ (u : User). u.id == id)
          (λ (u : User). record u { password_hash = hash }) (λ u. refl) s.users h.users)
        (update-Distinct (λ (u : User). u.username) (λ (u : User). u.id == id)
          (λ (u : User). record u { password_hash = hash }) (λ u. refl) s.users h.usernames)
        h

  pub rename_branch-HasKeys :
      (id : ℕ) (name : String) (sid secret : Option String) (s s' : Store R) (n : ℕ)
      → HasKeys s
      → rename_branch id name sid secret s ≡ ok (s', n)
      → HasKeys s'
  rename_branch-HasKeys id name sid secret s s' n h e =
      elim (Bool-cases (any (λ (b : Branch). (b.name == name) && not (b.id == id)) s.branches)) [
        | inl taken ↦ subst HasKeys (ground arith) h
        | inr free ↦
            let rows = update (λ (b : Branch). b.id == id) (renamed name sid secret) s.branches in
            let made : record s { branches = rows } ≡ s' = cc (rw free at e) in
            subst HasKeys made (
              branches-HasKeys s rows
                (update-Distinct (λ (b : Branch). b.id) (λ (b : Branch). b.id == id)
                  (renamed name sid secret) (λ b. refl) s.branches h.branches)
                (renamed-Distinct id name sid secret s.branches h.branches h.branch_names free) h)
      ]
