-- ===== src/Admin/Home.antt =====
-- web/routes_admin.py: the page of /admin, and whom it shows to whom.
use api_dashboard.Prelude.{
  ℕ, String, ◌≡◌, ◌≢◌, ◌↔◌, ◌⊎◌, sym, ◌∙◌, inl, inr, Bool, Option, none, some, List, [], ◌∷◌, map,
  keep, elem, In, In-keep_iff, In-sort_iff, Bool-cases, ◌==◌, ==_iff, nat_eq, string_eq, option_eq,
  if◌then◌else◌, arith,
}
use mathlib.Core.Bool.{true≢false}
use api_dashboard.Session.{Session}
use api_dashboard.Store.Rows.{Store, Branch, Course, Teacher, User}
use api_dashboard.Store.Access.{all_courses, all_teachers}
use api_dashboard.Store.Queries.{branches, users}
use api_dashboard.Dashboard.{Page, login_page, forbidden, server_error, redirected, shown}

-- What the page is given.
pub record AdminHome : Type 0 where
  pub is_owner : Bool
  pub branches : List Branch
  pub branch_names : List (ℕ × String)
  pub courses : List Course
  pub teachers : List Teacher
  pub users : List User

-- What an owner sees, and what a manager sees of it.
abbrev pub Sees : Session → Option ℕ → Type 0
Sees session branch_id = (session.role ≡ "owner") ⊎ (branch_id ≡ session.branch_id)

-- All rows for an owner, those of the branch for anyone else.
own_rows-In_iff :
    {A : Type 0} (session : Session) (branch_of : A → Option ℕ) (rows table : List A)
    → ((a : A) → In a rows ↔ In a table)
    → (a : A)
    → In a (
        if session.role == "owner" then rows else keep (λ x. branch_of x == session.branch_id) rows)
      ↔ (In a table × Sees session (branch_of a))
own_rows-In_iff session branch_of rows table same a =
    let owner = ==_iff session.role "owner" in
    let kept = In-keep_iff (λ x. branch_of x == session.branch_id) rows a in
    let branch = ==_iff (branch_of a) session.branch_id in
    elim (Bool-cases (session.role == "owner")) [
      | inl o ↦ rw o (λ m. ((same a).0 m, inl (owner.0 o)), λ (m, seen). (same a).1 m)
      | inr n ↦ rw n (
        λ m. let (here, b) = kept.0 m in ((same a).0 here, inr (branch.0 b)),
        λ (m, seen). elim seen [
          | inl o ↦ absurd (true≢false (sym (owner.1 o) ∙ n))
          | inr b ↦ kept.1 ((same a).1 m, branch.1 b)
        ],
      )
    ]

module _ {R : Type 0} where
  -- _branch_users
  unfoldable pub branch_users : Store R → Option ℕ → List User
  branch_users s branch_id = keep (λ (u : User). u.branch_id == branch_id) (users s)

  abbrev pub teachers_of_branch : Store R → Option ℕ → List Teacher
  teachers_of_branch s branch_id = keep (λ (t : Teacher). t.branch_id == branch_id) (all_teachers s)

  abbrev pub home_in : Session → Store R → AdminHome
  home_in session s =
      let owner = session.role == "owner" in
      record {
        is_owner = owner;
        branches = branches s;
        branch_names = map (λ (b : Branch). (b.id, b.name)) (branches s);
        courses = if owner then all_courses s else [];
        teachers = if owner then all_teachers s else teachers_of_branch s session.branch_id;
        users = if owner then users s else branch_users s session.branch_id;
      }

  unfoldable pub admin_home : Option Session → Store R → Page AdminHome
  unfolding branch_users
  admin_home none s = login_page
  admin_home (some session) s =
      if elem session.role ("owner" ∷ "manager" ∷ []) then shown (home_in session s) else forbidden

  -- What the answer says of the tables, whichever it is.
  abbrev pub Shows : Session → Store R → Page AdminHome → Type 0
  Shows session s (shown v) =
      ((session.role ≡ "owner") ⊎ (session.role ≡ "manager"))
      × ((t : Teacher) → In t v.teachers ↔ (In t s.teachers × Sees session t.branch_id))
      × ((u : User) → In u v.users ↔ (In u s.users × Sees session u.branch_id))
      × ((c : Course) → In c v.courses ↔ (In c s.courses × (session.role ≡ "owner")))
  Shows session s forbidden = (session.role ≢ "owner") × (session.role ≢ "manager")
  Shows session s login_page = ⊥
  Shows session s server_error = ⊥
  Shows session s (redirected n) = ⊥

  own_courses-In_iff :
      (session : Session) (s : Store R) (c : Course)
      → In c (if session.role == "owner" then all_courses s else [])
        ↔ (In c s.courses × (session.role ≡ "owner"))
  unfolding all_courses
  own_courses-In_iff session s c =
      let owner = ==_iff session.role "owner" in
      let sorted = In-sort_iff _ s.courses c in
      elim (Bool-cases (session.role == "owner")) [
        | inl o ↦ rw o (λ m. (sorted.0 m, owner.0 o), λ (m, _). sorted.1 m)
        | inr n ↦ rw n (λ m. absurd m, λ (m, o). absurd (true≢false (sym (owner.1 o) ∙ n)))
      ]

  -- Whatever the session, the page of /admin is answered in one of two ways: with the 403 page,
  -- for a session whose role is neither owner nor manager; or, for one of these, with a page
  -- that has exactly those teachers and accounts of the tables, and of the courses all or none,
  -- that the session sees: an owner all of them, a manager the teachers and accounts of the
  -- session's own branch (those without a branch, where the session has none) and no course.
  pub admin_home-Shows :
      (session : Session) (s : Store R) → Shows session s (admin_home (some session) s)
  unfolding admin_home branch_users all_teachers users
  admin_home-Shows session s =
      let owner = ==_iff session.role "owner" in
      let manager = ==_iff session.role "manager" in
      elim (Bool-cases (elem session.role ("owner" ∷ "manager" ∷ []))) [
        | inl may ↦ rw may (
          ground (arith, may, owner, manager),
          own_rows-In_iff session (λ t. t.branch_id) (all_teachers s) s.teachers
              (In-sort_iff _ s.teachers),
          own_rows-In_iff session (λ u. u.branch_id) (users s) s.users (In-sort_iff _ s.users),
          own_courses-In_iff session s,
        )
        | inr not ↦ rw not (ground (arith, not, owner), ground (arith, not, manager))
      ]
