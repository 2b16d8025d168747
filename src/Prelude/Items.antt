-- ===== src/Prelude/Items.antt =====
-- A dict in which each key stands once: its items are what its keys give.
use mathlib.Core.Path.{◌≡◌, refl}
use mathlib.Core.Logic.{inl, inr}
use mathlib.Core.List.{List, [], ◌∷◌}
use mathlib.Core.Option.{none, some, some-injective}
use native.Mathlib.Omega.{arith}
use api_dashboard.Prelude.Tests.{HasEquality, ◌==◌, Bool-cases}
use api_dashboard.Prelude.Lists.{In}
use api_dashboard.Prelude.Dicts.{lookup, put, lookup-put}

module _ {K V : Type 0} ⦃e : HasEquality K⦄ where
  -- No key occurs twice.
  abbrev pub Once : List (K × V) → Type 0
  Once [] = Unit
  Once ((j, _) ∷ d) = (lookup j d ≡ none) × Once d

  pub put-Once : (k : K) (v : V) (d : List (K × V)) → Once d → Once (put k v d)
  put-Once k v [] o = (refl, tt)
  put-Once k v ((j, w) ∷ d) o = elim (Bool-cases (j == k)) [
    | inl b ↦ rw b o
    | inr b ↦ rw b (
      ground (arith, o.0, lookup-put k j v d, e.same_iff k j, e.same_iff j k),
      put-Once k v d o.1,
    )
  ]

  -- An item is what its key gives.
  pub lookup-In : (d : List (K × V)) → Once d → (g : K × V) → In g d → lookup g.0 d ≡ some g.1
  lookup-In [] o g m = absurd m
  lookup-In ((j, w) ∷ d) o g (inl m) = rw m (ground (arith, e.same_iff j j))
  lookup-In ((j, w) ∷ d) o g (inr m) = ground (arith, e.same_iff j g.0, lookup-In d o.1 g m, o.0)

  pub In-lookup : (d : List (K × V)) (k : K) (v : V) → lookup k d ≡ some v → In (k, v) d
  In-lookup [] k v h = ground (arith, h)
  In-lookup ((j, w) ∷ d) k v h = elim (Bool-cases (j == k)) [
    | inl b ↦ inl (ground (arith, h, e.same_iff j k, some-injective w v))
    | inr b ↦ inr (In-lookup d k v (ground (arith, h)))
  ]
