-- ===== src/Tests/Admins.antt =====
-- A manager who switches an account off, and a teacher who tries to.
use api_dashboard.Prelude.{
  In, ◌⊎◌, ◌↔◌, true, if◌then◌else◌, ℕ, String, ◌≡◌, ◌≢◌, refl, true, Option, none, some, [], ◌∷◌,
  Distinct, ◌==◌, nonempty, nat_eq, string_eq,
}
use api_dashboard.Session.{Session}
use api_dashboard.Store.Accounts.{delete_branch}
use api_dashboard.Store.Deletion.{InUse, delete_branch_iff}
use api_dashboard.Store.Rows.{Branch, Store, User}
use api_dashboard.Auth.Sessions.{session_of}
use api_dashboard.Admin.{Texts, user_active, admin}
use api_dashboard.Admin.Owned.{OwnOnly}
use api_dashboard.Admin.Managers.{admin-manager}
use api_dashboard.Tests.{school, login}

abbrev texts : Texts
texts = record {
  strip = λ t. t;
  digits = λ t. nonempty t;
  int = λ t. if t == "4" then some 4 else none;
  after_prefix = λ p k. none;
  str = λ n. "n";
  hash_password = λ p. p;
}

abbrev user_of : ℕ → String → String → Option ℕ → User
user_of id name role branch = record {
  id = id;
  username = name;
  password_hash = "h";
  role = role;
  branch_id = branch;
  teacher_uid = none;
  active = true;
  created_at = none;
}

abbrev staffed : Store ℕ
staffed = record school {
  users = user_of 4 "lee" "teacher" (some 1) ∷ user_of 5 "park" "owner" none ∷ [];
}

abbrev manager : Session
manager = session_of 0 login

staffed-Distinct : Distinct (λ (u : User). u.id) staffed.users
staffed-Distinct = (refl, (refl, tt))

admin-manager_example :
    OwnOnly manager staffed (admin texts "t0" 9 (user_active 4 0) (some manager) staffed).0
admin-manager_example =
    admin-manager texts "t0" 9 (user_active 4 0) manager staffed refl staffed-Distinct

-- Branch 2 is the branch of teacher 8.
delete_branch_iff_example :
    let (t, deleted) = delete_branch 2 staffed in
    ((deleted ≡ true) ↔ ¬ InUse 2 staffed)
    × ((b : Branch) → In b t.branches ↔ (In b staffed.branches × (InUse 2 staffed ⊎ (b.id ≢ 2))))
delete_branch_iff_example = delete_branch_iff 2 staffed
