-- ===== src/Store/Accounts.antt =====
-- store.py: branches and users. `now` is the instant that `_now()` returned, and `new_id` the row
-- id that SQLite allots to a new row.
use api_dashboard.Prelude.{
  ℕ, String, Bool, true, false, ◌&&◌, ◌||◌, not, Option, none, some, [], ◌∷◌, ◌++◌, any, find, keep,
  update, upsert, coalesce, nonempty, ◌==◌, nat_eq, string_eq, option_eq, if◌then◌else◌,
}
use api_dashboard.Store.Rows.{Store, Course, Teacher, Branch, User}

-- What a statement raises: sqlite3.IntegrityError, on a UNIQUE column.
pub data Result {ℓ} (A : Type ℓ) : Type ℓ where
  ok : A → Result A
  integrity_error : Result A

-- sid or None
abbrev pub or_none : Option String → Option String
or_none none = none
or_none (some t) = if nonempty t then some t else none

-- SET name = ?, sid = ?, secret = ?
abbrev pub renamed : String → Option String → Option String → Branch → Branch
renamed name sid secret b = record b { name = name; sid = sid; secret = secret }

module _ {R : Type 0} where
  -- UPDATE branches, on a name that no other branch may have.
  abbrev pub rename_branch :
      ℕ → String → Option String → Option String → Store R → Result (Store R × ℕ)
  rename_branch id name sid secret s =
      if any (λ (b : Branch). (b.name == name) && not (b.id == id)) s.branches
      then (if any (λ (b : Branch). b.id == id) s.branches then integrity_error else ok (s, id))
      else ok (
        record s {
          branches = update (λ (b : Branch). b.id == id) (renamed name sid secret) s.branches;
        },
        id,
      )

  -- INSERT ... ON CONFLICT(name), and the id of the branch of that name.
  abbrev pub put_branch :
      String → ℕ → String → Option String → Option String → Store R → Store R × ℕ
  put_branch now new_id name sid secret s = (
    record s {
      branches =
          upsert (λ (b : Branch). b.name == name)
            (λ (b : Branch). record b {
              sid = coalesce (or_none sid) b.sid;
              secret = coalesce (or_none secret) b.secret;
            })
            (record {
              id = new_id;
              name = name;
              sid = or_none sid;
              secret = or_none secret;
              created_at = some now;
            })
            s.branches;
    },
    elim (find (λ (b : Branch). b.name == name) s.branches) [ none ↦ new_id | some b ↦ b.id ],
  )

  unfoldable pub upsert_branch :
      String
      → ℕ
      → String
      → Option ℕ
      → Option String
      → Option String
      → Store R
      → Result (Store R × ℕ)
  upsert_branch now new_id name none sid secret s = ok (put_branch now new_id name sid secret s)
  upsert_branch now new_id name (some id) sid secret s = rename_branch id name sid secret s

  abbrev pub branch_in_use : ℕ → Store R → Bool
  branch_in_use id s =
      any (λ (c : Course). c.branch_id == some id) s.courses
      || any (λ (t : Teacher). t.branch_id == some id) s.teachers
      || any (λ (u : User). u.branch_id == some id) s.users

  unfoldable pub delete_branch : ℕ → Store R → Store R × Bool
  delete_branch id s =
      if branch_in_use id s
      then (s, false)
      else (record s { branches = keep (λ (b : Branch). not (b.id == id)) s.branches }, true)

  -- The new row; `password_hash` is what `hash_password(password)` returned.
  abbrev pub add_user :
      String → ℕ → String → String → String → Option ℕ → Option ℕ → Store R → Store R
  add_user now new_id username password_hash role branch_id teacher_uid s = record s {
    users =
        s.users
        ++ record {
          id = new_id;
          username = username;
          password_hash = password_hash;
          role = role;
          branch_id = branch_id;
          teacher_uid = teacher_uid;
          active = true;
          created_at = some now;
        }
          ∷ [];
  }

  unfoldable pub create_user :
      String → ℕ → String → String → String → Option ℕ → Option ℕ → Store R → Result (Store R × ℕ)
  create_user now new_id username password_hash role branch_id teacher_uid s =
      if any (λ (u : User). u.username == username) s.users
      then integrity_error
      else ok (add_user now new_id username password_hash role branch_id teacher_uid s, new_id)

  unfoldable pub set_user_active : ℕ → Bool → Store R → Store R
  set_user_active user_id active s = record s {
    users =
        update (λ (u : User). u.id == user_id) (λ (u : User). record u { active = active }) s.users;
  }

  unfoldable pub set_user_password : ℕ → String → Store R → Store R
  set_user_password user_id password_hash s = record s {
    users =
        update (λ (u : User). u.id == user_id)
          (λ (u : User). record u { password_hash = password_hash }) s.users;
  }
