-- ===== src/Scope.antt =====
-- scope.py: the part of the school that a request may read. A frozenset is the list of its
-- members, of which only membership is ever asked.
pub mod Derive
pub mod Roles
use api_dashboard.Prelude.{ℕ, Bool, ◌&&◌, not, Option, none, some, List, [], ◌∷◌, is_some}

pub record Scope : Type 0 where
  pub branch_ids : Option (List ℕ)
  pub teacher_uids : Option (List ℕ)

-- Scope.ALL
abbrev pub all : Scope
all = record { branch_ids = none; teacher_uids = none }

-- Scope.unrestricted
unfoldable pub unrestricted : Scope → Bool
unrestricted s = not (is_some s.branch_ids) && not (is_some s.teacher_uids)

-- frozenset({x} if x is not None else ())
abbrev pub singleton : Option ℕ → List ℕ
singleton none = []
singleton (some x) = x ∷ []

-- Scope.for_branch
unfoldable pub for_branch : Option ℕ → Scope
for_branch branch_id = record { branch_ids = some (singleton branch_id); teacher_uids = none }

-- Scope.for_teacher
unfoldable pub for_teacher : Option ℕ → Scope
for_teacher teacher_uid = record { branch_ids = none; teacher_uids = some (singleton teacher_uid) }
