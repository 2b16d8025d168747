-- ===== src/Store/Deletion.antt =====
-- delete_branch of store.py.
use api_dashboard.Prelude.{
  ℕ, ◌≡◌, ◌≢◌, refl, ◌↔◌, ◌⊎◌, inl, inr, Bool, true, false, ◌||◌, not, Option, some, List, any, In,
  any-In, In-any, In-keep_iff, ◌==◌, ==_iff, nat_eq, option_eq, Bool-cases, arith,
}
use api_dashboard.Store.Rows.{Store, Course, Teacher, Branch, User}
use api_dashboard.Store.Accounts.{branch_in_use, delete_branch}

-- A row of the table is assigned to the branch.
abbrev pub AssignedTo : {A : Type 0} → ℕ → (A → Option ℕ) → List A → Type 0
AssignedTo {A} id branch_id rows = (a : A) × In a rows × (branch_id a ≡ some id)

any-AssignedTo_iff :
    {A : Type 0} (id : ℕ) (branch_id : A → Option ℕ) (rows : List A)
    → (any (λ a. branch_id a == some id) rows ≡ true) ↔ AssignedTo id branch_id rows
any-AssignedTo_iff id branch_id rows = (
  λ h.
      let (a, m, e) = any-In (λ a. branch_id a == some id) rows h in
      (a, m, (==_iff (branch_id a) (some id)).0 e),
  λ (a, m, e). In-any (λ a. branch_id a == some id) rows a m ((==_iff (branch_id a) (some id)).1 e),
)

or_iff : (a b : Bool) (P Q : Type 0) → (a ≡ true) ↔ P → (b ≡ true) ↔ Q → ((a || b) ≡ true) ↔ (P ⊎ Q)
or_iff true b P Q f g = (λ h. inl (f.0 refl), λ h. refl)
or_iff false b P Q f g =
    (λ h. inr (g.0 h), λ h. elim h [ inl p ↦ (let impossible = f.1 p in cc) | inr q ↦ g.1 q ])

module _ {R : Type 0} (id : ℕ) (s : Store R) where
  -- A course, a teacher or an account is assigned to the branch.
  abbrev pub InUse : Type 0
  InUse =
      AssignedTo id (λ (c : Course). c.branch_id) s.courses
      ⊎ AssignedTo id (λ (t : Teacher). t.branch_id) s.teachers
      ⊎ AssignedTo id (λ (u : User). u.branch_id) s.users

  branch_in_use_iff : (branch_in_use id s ≡ true) ↔ InUse
  branch_in_use_iff =
      let c = any-AssignedTo_iff id (λ (c : Course). c.branch_id) s.courses in
      let t = any-AssignedTo_iff id (λ (t : Teacher). t.branch_id) s.teachers in
      let u = any-AssignedTo_iff id (λ (u : User). u.branch_id) s.users in
      (
        λ h. elim ((or_iff _ _ _ _ (or_iff _ _ _ _ c t) u).0 h) [
          | inl (inl x) ↦ inl x
          | inl (inr y) ↦ inr (inl y)
          | inr z ↦ inr (inr z)
        ],
        λ v.
            (or_iff _ _ _ _ (or_iff _ _ _ _ c t) u).1
              (elim v [ inl x ↦ inl (inl x) | inr (inl y) ↦ inl (inr y) | inr (inr z) ↦ inr z ]),
      )

  -- delete_branch succeeds exactly if no course, teacher or account is assigned to the branch,
  -- and the branches after it are those that were there before and, where it succeeds, have
  -- another id.
  pub delete_branch_iff :
      let (t, deleted) = delete_branch id s in
      ((deleted ≡ true) ↔ ¬ InUse)
      × ((b : Branch) → In b t.branches ↔ (In b s.branches × (InUse ⊎ (b.id ≢ id))))
  unfolding delete_branch
  delete_branch_iff =
      let used = branch_in_use_iff in
      elim (Bool-cases (branch_in_use id s)) [
        | inl e ↦
            rw e ((λ h. cc, λ h. absurd (h (used.0 e))), λ b. (λ m. (m, inl (used.0 e)), λ h. h.0))
        | inr e ↦ rw e (
            let free : ¬ InUse = (λ u. let clash = used.1 u in cc) in
            (
              (λ h. free, λ h. refl),
              λ b.
                  let kept = In-keep_iff (λ (c : Branch). not (c.id == id)) s.branches b in
                  let same = ==_iff b.id id in
                  (
                    λ m. let (n, p) = kept.0 m in (n, inr (λ q. let r = same.1 q in cc)),
                    λ (n, v). kept.1 (
                      n,
                      elim v [ inl u ↦ absurd (free u) | inr apart ↦ ground (arith, same, apart) ],
                    ),
                  ),
            ))
      ]
