-- ===== src/Admin/Managers.antt =====
-- web/routes_admin.py: what a manager, and a session of any other role, may change.
use api_dashboard.Prelude.{
  ℕ, String, ◌≡◌, refl, sym, subst, inl, inr, not, Option, none, some, elem, Distinct, Bool-cases,
  Option-cases, ◌==◌, ==_iff, nat_eq, string_eq, option_eq, nonempty, is_some, any, ◌||◌, ==_refl,
}
use api_dashboard.Session.{Session}
use api_dashboard.Store.Rows.{Store, User}
use api_dashboard.Store.Accounts.{create_user, set_user_active, set_user_password}
use api_dashboard.Store.Queries.{get_user_by_username}
use api_dashboard.Admin.{
  Texts, Request, guard, managed_user, admin, saved, create_account, checked_account, roles,
  int_or_none, admin_user_create, admin_user_active, admin_user_password, branch_add, branch_delete,
  course_branch, teacher_branch, user_create, user_active, user_password,
}
use api_dashboard.Admin.Owned.{manager-tests, OwnOnly, OwnOnly-refl, changed-OwnOnly, added-OwnOnly}

module _ {R : Type 0} (texts : Texts) (now : String) (new_id : ℕ) where
  create_user-OwnOnly :
      (what username hash : String) (t : Option ℕ) (session : Session) (s : Store R)
      → OwnOnly session s
          (saved texts now new_id what
            (create_user now new_id username hash "teacher" session.branch_id t s)
            s).0
  unfolding create_user
  create_user-OwnOnly what username hash t session s =
      elim (Bool-cases (any (λ (u : User). u.username == username) s.users)) [
        | inl used ↦ rw used (OwnOnly-refl session s)
        | inr fresh ↦ rw fresh (added-OwnOnly session s _ (rw (==_refl session.branch_id) refl))
      ]

  create_account-OwnOnly :
      (username password teacher_uid : String) (session : Session) (s : Store R)
      → OwnOnly session s
          (create_account texts now new_id username password "teacher" session.branch_id teacher_uid
            session s).0
  create_account-OwnOnly username password teacher_uid session s =
      elim (Bool-cases (is_some (get_user_by_username s username))) [
        | inl used ↦ rw used (OwnOnly-refl session s)
        | inr fresh ↦ elim (Option-cases (int_or_none texts teacher_uid)) [
          | inl raised ↦ rw (fresh, raised) (OwnOnly-refl session s)
          | inr (uid, e) ↦
              rw (fresh, e)
                (create_user-OwnOnly _ username (texts.hash_password password) uid session s)
        ]
      ]

  checked_account-OwnOnly :
      (username password role teacher_uid : String) (branch : Option (Option ℕ)) (session : Session)
      (s : Store R)
      → session.role ≡ "manager"
      → OwnOnly session s
          (checked_account texts now new_id username password role branch teacher_uid session s).0
  checked_account-OwnOnly username password role teacher_uid none session s manager =
      OwnOnly-refl session s
  checked_account-OwnOnly username password role teacher_uid (some branch) session s manager =
      elim (Bool-cases (role == "teacher")) [
        | inl e ↦
            let teacher = (==_iff role "teacher").0 e in
            rw ((manager-tests session.role manager).1, e)
              (subst
                (λ r.
                  OwnOnly session s
                    (create_account texts now new_id username password r session.branch_id
                      teacher_uid session s).0)
                (sym teacher) (create_account-OwnOnly username password teacher_uid session s))
        | inr e ↦ rw ((manager-tests session.role manager).1, e) (OwnOnly-refl session s)
      ]

  admin_user_create-OwnOnly :
      (username password role branch_id teacher_uid : String) (session : Session) (s : Store R)
      → session.role ≡ "manager"
      → OwnOnly session s
          (admin_user_create texts now new_id username password role branch_id teacher_uid session
            s).0
  unfolding admin_user_create
  admin_user_create-OwnOnly username password role branch_id teacher_uid session s manager =
      let none_given =
        not (nonempty (texts.strip username)) || not (nonempty (texts.strip password)) in
      elim (Bool-cases none_given) [
        | inl e ↦ rw e (OwnOnly-refl session s)
        | inr e ↦ elim (Bool-cases (elem role roles)) [
          | inr unknown ↦ rw (e, unknown) (OwnOnly-refl session s)
          | inl known ↦
              rw (e, known)
                (checked_account-OwnOnly (texts.strip username) (texts.strip password) role
                  teacher_uid (int_or_none texts branch_id) session s manager)
        ]
      ]

  admin_user_active-OwnOnly :
      (id active : ℕ) (session : Session) (s : Store R)
      → session.role ≡ "manager"
      → Distinct (λ (u : User). u.id) s.users
      → OwnOnly session s (admin_user_active texts now new_id id active session s).0
  unfolding admin_user_active set_user_active
  admin_user_active-OwnOnly id active session s manager d =
      elim (Option-cases (managed_user session id s)) [
        | inl e ↦ rw (admin_user_active, e) (OwnOnly-refl session s)
        | inr (t, e) ↦
            rw (admin_user_active, e) (changed-OwnOnly session id s t _ (λ u. refl) manager d e)
      ]

  admin_user_password-OwnOnly :
      (id : ℕ) (password : String) (session : Session) (s : Store R)
      → session.role ≡ "manager"
      → Distinct (λ (u : User). u.id) s.users
      → OwnOnly session s (admin_user_password texts now new_id id password session s).0
  unfolding admin_user_password set_user_password
  admin_user_password-OwnOnly id password session s manager d =
      elim (Bool-cases (nonempty (texts.strip password))) [
        | inr empty ↦ rw (admin_user_password, empty) (OwnOnly-refl session s)
        | inl given ↦ elim (Option-cases (managed_user session id s)) [
          | inl e ↦ rw (admin_user_password, given, e) (OwnOnly-refl session s)
          | inr (t, e) ↦
              rw (admin_user_password, given, e)
                (changed-OwnOnly session id s t _ (λ u. refl) manager d e)
        ]
      ]

  -- Where the ids of the users are distinct, a request of a manager to /admin leaves courses,
  -- teachers and branches as they are, and every account that is not of a teacher of the own
  -- branch is there after it exactly if it was there before.
  pub admin-manager :
      (request : Request) (session : Session) (s : Store R)
      → session.role ≡ "manager"
      → Distinct (λ (u : User). u.id) s.users
      → OwnOnly session s (admin texts now new_id request (some session) s).0
  unfolding admin guard
  admin-manager (branch_add name sid secret) session s manager d =
      rw ((manager-tests session.role manager).2) (OwnOnly-refl session s)
  admin-manager (branch_delete id) session s manager d =
      rw ((manager-tests session.role manager).2) (OwnOnly-refl session s)
  admin-manager (course_branch items) session s manager d =
      rw ((manager-tests session.role manager).2) (OwnOnly-refl session s)
  admin-manager (teacher_branch items) session s manager d =
      rw ((manager-tests session.role manager).2) (OwnOnly-refl session s)
  admin-manager (user_create username password role branch_id teacher_uid) session s manager d =
      rw ((manager-tests session.role manager).3)
        (admin_user_create-OwnOnly username password role branch_id teacher_uid session s manager)
  admin-manager (user_active id active) session s manager d =
      rw ((manager-tests session.role manager).3)
        (admin_user_active-OwnOnly id active session s manager d)
  admin-manager (user_password id password) session s manager d =
      rw ((manager-tests session.role manager).3)
        (admin_user_password-OwnOnly id password session s manager d)
