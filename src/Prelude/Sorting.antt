-- ===== src/Prelude/Sorting.antt =====
-- ORDER BY and `sorted`: a stable insertion sort, and the order of texts.
use Prim.Native.Nat.{suc, Ordering}
use Prim.Native.String.{String, compare}
use mathlib.Core.Path.{◌≡◌, refl, ◌∙◌, ap}
use mathlib.Core.Logic.{◌↔◌, ◌⊎◌}
use mathlib.Core.Bool.{Bool, true, false}
use mathlib.Core.List.{List, [], ◌∷◌}
use mathlib.Core.Option.{Option, none, some}
use native.Mathlib.Omega.{arith}
use api_dashboard.Prelude.Tests.{if◌then◌else◌}
use api_dashboard.Prelude.Lists.{In, length}

-- `s <= t` by code points, which is SQLite's order of texts too.
unfoldable pub text_leb : String → String → Bool
text_leb s t = elim (compare s t) [ Ordering.gt ↦ false | _ ↦ true ]

-- NULL comes first in SQLite's order.
unfoldable pub nullable_leb {ℓ} : {A : Type ℓ} → (A → A → Bool) → Option A → Option A → Bool
nullable_leb le none p = true
nullable_leb le (some a) none = false
nullable_leb le (some a) (some b) = le a b

module _ {ℓ} {A : Type ℓ} (le : A → A → Bool) where
  unfoldable pub insert_sorted : A → List A → List A
  insert_sorted a [] = a ∷ []
  insert_sorted a (x ∷ xs) = if le a x then a ∷ x ∷ xs else x ∷ insert_sorted a xs

  unfoldable pub sort : List A → List A
  unfolding insert_sorted
  sort [] = []
  sort (x ∷ xs) = insert_sorted x (sort xs)

  length-insert_sorted : (a : A) (xs : List A) → length (insert_sorted a xs) ≡ suc (length xs)
  unfolding insert_sorted
  length-insert_sorted a [] = refl
  length-insert_sorted a (x ∷ xs) = ground (arith, length-insert_sorted a xs)

  pub length-sort : (xs : List A) → length (sort xs) ≡ length xs
  unfolding sort
  length-sort [] = refl
  length-sort (x ∷ xs) = length-insert_sorted x (sort xs) ∙ ap suc (length-sort xs)

module _ {A : Type 0} (le : A → A → Bool) where
  In-insert_sorted_iff :
      (a : A) (xs : List A) (b : A) → In b (insert_sorted le a xs) ↔ ((b ≡ a) ⊎ In b xs)
  unfolding insert_sorted
  In-insert_sorted_iff a [] b = (λ h. h, λ h. h)
  In-insert_sorted_iff a (x ∷ xs) b =
      let ih = In-insert_sorted_iff a xs b in (λ h. ground arith, λ h. ground arith)

  -- Sorting keeps the rows.
  pub In-sort_iff : (xs : List A) (b : A) → In b (sort le xs) ↔ In b xs
  unfolding sort
  In-sort_iff [] b = (λ h. h, λ h. h)
  In-sort_iff (x ∷ xs) b =
      let ih = In-sort_iff xs b in
      let placed = In-insert_sorted_iff x (sort le xs) b in (λ h. ground arith, λ h. ground arith)
