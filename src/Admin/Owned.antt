-- ===== src/Admin/Owned.antt =====
-- web/routes_admin.py: changes to the accounts of the teachers of one branch.
use api_dashboard.Prelude.{
  ◌∙◌, ℕ, String, ◌≡◌, refl, sym, subst, ◌↔◌, inl, inr, Bool, true, false, none, some, [], ◌∷◌,
  ◌++◌, elem, find, In, In-append_iff, In-sort_iff, find-In, find-passes, update, update-In_iff,
  Distinct, Distinct-same, Option-cases, ◌==◌, ==_iff, nat_eq, string_eq, option_eq, if◌then◌else◌,
}
use api_dashboard.Session.{Session}
use api_dashboard.Store.Rows.{Store, User}
use api_dashboard.Store.Queries.{users}
use api_dashboard.Admin.{own_teacher, managed_user}

-- What the guards and the handlers ask of a manager's role.
pub manager-tests :
    (role : String)
    → role ≡ "manager"
    → ((role == "owner") ≡ false)
      × ((role == "manager") ≡ true)
      × (elem role ("owner" ∷ []) ≡ false)
      × (elem role ("owner" ∷ "manager" ∷ []) ≡ true)
manager-tests role h = rw h (refl, refl, refl, refl)

pub some-own :
    (own : Bool) (u t : User) → (if own then some u else none) ≡ some t → (u ≡ t) × (own ≡ true)
some-own true u t h = (cc h, refl)
some-own false u t h = cc

module _ {R : Type 0} where
  -- The two stores differ at most in accounts of teachers of the session's branch.
  pub record OwnOnly (session : Session) (s t : Store R) : Type 0 where
    pub courses : t.courses ≡ s.courses
    pub teachers : t.teachers ≡ s.teachers
    pub branches : t.branches ≡ s.branches
    pub others : (u : User) → own_teacher session u ≡ false → In u t.users ↔ In u s.users

  pub OwnOnly-refl : (session : Session) (s : Store R) → OwnOnly session s s
  OwnOnly-refl session s = record {
    courses = refl;
    teachers = refl;
    branches = refl;
    others = λ u h. (λ m. m, λ m. m);
  }

  -- The account that a manager may manage is the one of that id, and one of the own teachers.
  pub managed_user-own :
      (session : Session) (id : ℕ) (s : Store R) (t : User)
      → session.role ≡ "manager"
      → managed_user session id s ≡ some t
      → In t s.users × (t.id ≡ id) × (own_teacher session t ≡ true)
  unfolding managed_user users
  managed_user-own session id s t manager h =
      elim (Option-cases (find (λ (u : User). u.id == id) (users s))) [
        | inl e ↦ let gone : none ≡ some t = (rw (managed_user, e) at h) in cc
        | inr (u, e) ↦
            let (same, own) =
              some-own (own_teacher session u) u t
                (rw (managed_user, e, (manager-tests session.role manager).0) at h) in
            let listed = find-In (λ (v : User). v.id == id) (users s) u e in
            let found = (==_iff u.id id).0 (find-passes (λ (v : User). v.id == id) (users s) e) in
            subst (λ v. In v s.users × (v.id ≡ id) × (own_teacher session v ≡ true)) same
              ((In-sort_iff _ s.users u).0 listed, found, own)
      ]

  -- A change of the rows of that id is one of an own teacher.
  pub changed-OwnOnly :
      (session : Session) (id : ℕ) (s : Store R) (t : User) (change : User → User)
      → ((u : User) → own_teacher session (change u) ≡ own_teacher session u)
      → session.role ≡ "manager"
      → Distinct (λ (u : User). u.id) s.users
      → managed_user session id s ≡ some t
      → OwnOnly session s (record s { users = update (λ (u : User). u.id == id) change s.users })
  changed-OwnOnly session id s t change same manager d h =
      let (m, e, own) = managed_user-own session id s t manager h in
      record {
        courses = refl;
        teachers = refl;
        branches = refl;
        others =
            update-In_iff (λ (u : User). u.id == id) (own_teacher session) change same s.users
              (λ u n q.
                let one =
                  Distinct-same (λ (v : User). v.id) s.users d t u m n
                    (e ∙ sym ((==_iff u.id id).0 q)) in
                subst (λ v. own_teacher session v ≡ true) one own);
      }

  -- A new row that is an own teacher.
  pub added-OwnOnly :
      (session : Session) (s : Store R) (u : User)
      → own_teacher session u ≡ true
      → OwnOnly session s (record s { users = s.users ++ u ∷ [] })
  added-OwnOnly session s u own = record {
    courses = refl;
    teachers = refl;
    branches = refl;
    others = λ v h.
        let split = In-append_iff s.users (u ∷ []) v in
        (
          λ m. elim (split.0 m) [
            | inl x ↦ x
            | inr (inl e) ↦ let own' : own_teacher session v ≡ true = (rw e own) in cc
            | inr (inr x) ↦ absurd x
          ],
          λ m. split.1 (inl m),
        );
  }
