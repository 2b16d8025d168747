-- ===== src/Prelude/Keyed.antt =====
-- Rows that are found, and rows of one key, in a table whose keys are distinct.
use mathlib.Core.Path.{◌≡◌, refl, sym, ap, ◌∙◌}
use mathlib.Core.Logic.{◌≢◌, ◌↔◌, inl, inr}
use mathlib.Core.Bool.{Bool, true, false}
use mathlib.Core.Option.{some}
use mathlib.Core.List.{List, [], ◌∷◌}
use native.Mathlib.Omega.{arith}
use api_dashboard.Prelude.Tests.{HasEquality, ◌==◌, ==_iff, Bool-cases}
use api_dashboard.Prelude.Lists.{find, any, In}
use api_dashboard.Prelude.Members.{In-any}
use api_dashboard.Prelude.Tables.{update, Distinct}

module _ {A : Type 0} where
  pub find-In : (p : A → Bool) (xs : List A) (a : A) → find p xs ≡ some a → In a xs
  find-In p [] a h = cc
  find-In p (x ∷ xs) a h = elim (Bool-cases (p x)) [
    | inl e ↦ inl (ground (arith, h, e))
    | inr e ↦ inr (find-In p xs a (ground (arith, h, e)))
  ]

  -- Of the rows that keep a test false, an update leaves exactly those that were there, if it
  -- changes only rows with the test true, and keeps it true.
  pub update-In_iff :
      (test own : A → Bool) (change : A → A)
      → ((x : A) → own (change x) ≡ own x)
      → (xs : List A) → ((x : A) → In x xs → test x ≡ true → own x ≡ true)
      → (a : A) → own a ≡ false
      → In a (update test change xs) ↔ In a xs
  update-In_iff test own change same [] h a o = (λ m. m, λ m. m)
  update-In_iff test own change same (x ∷ xs) h a o =
      let rest = update-In_iff test own change same xs (λ y m. h y (inr m)) a o in
      elim (Bool-cases (test x)) [
        | inl e ↦ rw e (ground (arith, rest, same x, h x (inl refl) e, o))
        | inr e ↦ rw e (ground (arith, rest))
      ]

module _ {A K : Type 0} ⦃e : HasEquality K⦄ (key : A → K) where
  clash : (x b : A) (xs : List A) → any (λ y. key y == key x) xs ≡ false → In b xs → key x ≢ key b
  clash x b xs d n same =
      let found = In-any (λ y. key y == key x) xs b n ((==_iff (key b) (key x)).1 (sym same)) in cc

  pub Distinct-same :
      (xs : List A) → Distinct key xs → (a b : A) → In a xs → In b xs → key a ≡ key b → a ≡ b
  Distinct-same [] d a b m n same = absurd m
  Distinct-same (x ∷ xs) d a b (inl p) (inl q) same = ground (arith, p, q)
  Distinct-same (x ∷ xs) d a b (inl p) (inr n) same =
      absurd (clash x b xs d.0 n (sym (ap key p) ∙ same))
  Distinct-same (x ∷ xs) d a b (inr m) (inl q) same =
      absurd (clash x a xs d.0 m (sym (ap key q) ∙ sym same))
  Distinct-same (x ∷ xs) d a b (inr m) (inr n) same = Distinct-same xs d.1 a b m n same
