-- ===== src/Admin/Outsiders.antt =====
-- web/routes_admin.py: requests without a session, or with one that is no owner's or manager's.
use api_dashboard.Prelude.{
  ℕ, String, ◌≡◌, ◌≢◌, refl, false, some, [], ◌∷◌, elem, ==_iff, string_eq, arith,
}
use api_dashboard.Session.{Session}
use api_dashboard.Store.Rows.{Store}
use api_dashboard.Admin.{
  Texts, forbidden, Request, guard, admin, branch_add, branch_delete, course_branch, teacher_branch,
  user_create, user_active, user_password,
}

outsider-tests :
    (role : String)
    → role ≢ "owner"
    → role ≢ "manager"
    → (elem role ("owner" ∷ []) ≡ false) × (elem role ("owner" ∷ "manager" ∷ []) ≡ false)
outsider-tests role o m = (
  ground (arith, ==_iff role "owner"),
  ground (arith, ==_iff role "owner", ==_iff role "manager"),
)

module _ {R : Type 0} (texts : Texts) (now : String) (new_id : ℕ) where
  -- A request to /admin of a session whose role is neither owner nor manager is answered by the
  -- 403 page and changes nothing.
  pub admin_forbidden :
      (request : Request) (session : Session) (s : Store R)
      → session.role ≢ "owner"
      → session.role ≢ "manager"
      → admin texts now new_id request (some session) s ≡ (s, forbidden)
  unfolding admin guard
  admin_forbidden (branch_add name sid secret) session s o m =
      rw (outsider-tests session.role o m).0 refl
  admin_forbidden (branch_delete id) session s o m = rw (outsider-tests session.role o m).0 refl
  admin_forbidden (course_branch items) session s o m = rw (outsider-tests session.role o m).0 refl
  admin_forbidden (teacher_branch items) session s o m = rw (outsider-tests session.role o m).0 refl
  admin_forbidden (user_create username password role b t) session s o m =
      rw (outsider-tests session.role o m).1 refl
  admin_forbidden (user_active id active) session s o m =
      rw (outsider-tests session.role o m).1 refl
  admin_forbidden (user_password id password) session s o m =
      rw (outsider-tests session.role o m).1 refl
