-- ===== src/Prelude/Dicts.antt =====
-- A Python dict, as the list of its items in the order of insertion.
use mathlib.Core.Path.{◌≡◌, refl}
use mathlib.Core.List.{List, [], ◌∷◌}
use mathlib.Core.Option.{Option, none, some}
use native.Mathlib.Omega.{arith}
use api_dashboard.Prelude.Tests.{HasEquality, ◌==◌, if◌then◌else◌}

module _ {ℓ} {K V : Type ℓ} ⦃e : HasEquality K⦄ where
  -- d.get(k)
  abbrev pub lookup : K → List (K × V) → Option V
  lookup k [] = none
  lookup k ((j, v) ∷ d) = if j == k then some v else lookup k d

  -- d[k] = v
  abbrev pub put : K → V → List (K × V) → List (K × V)
  put k v [] = (k, v) ∷ []
  put k v ((j, w) ∷ d) = if j == k then (j, v) ∷ d else (j, w) ∷ put k v d

  -- d.pop(k, None)
  abbrev pub erase : K → List (K × V) → List (K × V)
  erase k [] = []
  erase k ((j, w) ∷ d) = let rest = erase k d in if j == k then rest else (j, w) ∷ rest

  pub lookup-put :
      (k i : K) (v : V) (d : List (K × V))
      → lookup i (put k v d) ≡ (if k == i then some v else lookup i d)
  lookup-put k i v [] = refl
  lookup-put k i v ((j, w) ∷ d) =
      ground (arith, e.same_iff k i, e.same_iff j k, e.same_iff j i, lookup-put k i v d)

  pub lookup-erase :
      (k i : K) (d : List (K × V)) → lookup i (erase k d) ≡ (if k == i then none else lookup i d)
  lookup-erase k i [] = ground arith
  lookup-erase k i ((j, w) ∷ d) =
      ground (arith, e.same_iff k i, e.same_iff j k, e.same_iff j i, lookup-erase k i d)

  -- The keys, in order.
  abbrev pub keys : List (K × V) → List K
  keys [] = []
  keys ((j, _) ∷ d) = j ∷ keys d
