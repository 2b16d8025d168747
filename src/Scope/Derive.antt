-- ===== src/Scope/Derive.antt =====
-- scope_for and _branch_exists of scope.py.
use api_dashboard.Prelude.{
  ℕ, Bool, not, Option, none, some, any, ◌==◌, if◌then◌else◌, nat_eq, string_eq,
}
use api_dashboard.Scope.{Scope, all, for_branch, for_teacher}
use api_dashboard.Session.{Session}
use api_dashboard.Store.Rows.{Store, Branch}
use api_dashboard.Store.Queries.{branches}

unfoldable pub branch_exists : {R : Type 0} → Store R → ℕ → Bool
branch_exists store branch_id = any (λ (b : Branch). b.id == branch_id) (branches store)

-- The owner's case: the branch picked in the topbar, where it is still there.
unfoldable pub owner_scope : {R : Type 0} → Option ℕ → Option (Store R) → Scope
owner_scope none store = all
owner_scope (some branch_id) none = for_branch (some branch_id)
owner_scope (some branch_id) (some store) =
    if not (branch_exists store branch_id) then all else for_branch (some branch_id)

unfoldable pub scope_for : {R : Type 0} → Session → Option (Store R) → Scope
scope_for session store =
    if session.role == "owner"
    then owner_scope session.branch_filter store
    else if session.role == "manager"
    then for_branch session.branch_id
    else if session.role == "teacher"
    then for_teacher session.teacher_uid
    else for_branch none
