-- ===== src/Prelude/Tables.antt =====
-- A database table as a list of rows, oldest first: what the SQL statements of store.py do to it.
use mathlib.Core.Path.{◌≡◌, refl, ◌∙◌}
use mathlib.Core.Logic.{inl, inr}
use mathlib.Core.Bool.{Bool, true, false}
use mathlib.Core.List.{List, [], ◌∷◌, ◌++◌}
use mathlib.Core.Option.{none, some}
use native.Mathlib.Omega.{arith}
use api_dashboard.Prelude.Tests.{HasEquality, ◌==◌, if◌then◌else◌, Bool-cases, ==_comm}
use api_dashboard.Prelude.Lists.{any, find, keep, any-append}

module _ {ℓ} {A : Type ℓ} where
  -- UPDATE ... WHERE test
  abbrev pub update : (A → Bool) → (A → A) → List A → List A
  update test change [] = []
  update test change (x ∷ xs) = (if test x then change x else x) ∷ update test change xs

  -- INSERT ... ON CONFLICT DO UPDATE: the test is true of a row that has the new row's key.
  abbrev pub upsert : (A → Bool) → (A → A) → A → List A → List A
  upsert test change new [] = new ∷ []
  upsert test change new (x ∷ xs) =
      let rest = upsert test change new xs in if test x then change x ∷ xs else x ∷ rest

  -- The row that a lookup by the key finds after an upsert: the changed row, or else the new one.
  pub find-upsert :
      (test : A → Bool) (change : A → A) (new : A)
      → ((x : A) → test x ≡ true → test (change x) ≡ true)
      → test new ≡ true
      → (xs : List A)
      → find test (upsert test change new xs)
        ≡ some (elim (find test xs) [ none ↦ new | some x ↦ change x ])
  find-upsert test change new kept fits [] = ground arith
  find-upsert test change new kept fits (x ∷ xs) =
      ground (arith, kept x, find-upsert test change new kept fits xs)

  -- A lookup by another key is not affected.
  pub find-upsert_other :
      (other test : A → Bool) (change : A → A) (new : A)
      → ((x : A) → test x ≡ true → other x ≡ false)
      → ((x : A) → test x ≡ true → other (change x) ≡ false)
      → other new ≡ false
      → (xs : List A) → find other (upsert test change new xs) ≡ find other xs
  find-upsert_other other test change new apart apart' fresh [] = ground arith
  find-upsert_other other test change new apart apart' fresh (x ∷ xs) =
      ground
        (arith, apart x, apart' x, find-upsert_other other test change new apart apart' fresh xs)

module _ {ℓ} {A K : Type ℓ} ⦃e : HasEquality K⦄ (key : A → K) where
  -- No two rows share a key: PRIMARY KEY, UNIQUE.
  abbrev pub Distinct : List A → Type ℓ
  Distinct [] = Unit
  Distinct (x ∷ xs) = (any (λ y. key y == key x) xs ≡ false) × Distinct xs

  pub any-upsert_key :
      (k : K) (test : A → Bool) (change : A → A) (new : A)
      → ((x : A) → key (change x) ≡ key x)
      → (xs : List A) → any (λ y. key y == k) xs ≡ false
      → (key new == k) ≡ false
      → any (λ y. key y == k) (upsert test change new xs) ≡ false
  any-upsert_key k test change new same [] h fresh = ground arith
  any-upsert_key k test change new same (x ∷ xs) h fresh =
      ground (arith, same x, any-upsert_key k test change new same xs)

  -- An upsert by the key keeps the keys distinct.
  pub upsert-Distinct :
      (k : K) (change : A → A) (new : A)
      → ((x : A) → key (change x) ≡ key x)
      → key new ≡ k
      → (xs : List A) → Distinct xs
      → Distinct (upsert (λ x. key x == k) change new xs)
  upsert-Distinct k change new same fits [] h = (refl, tt)
  upsert-Distinct k change new same fits (x ∷ xs) h = elim (Bool-cases (key x == k)) [
    | inl found ↦ rw found (rw (same x) h.0, h.1)
    | inr other ↦
        let fresh : (key new == key x) ≡ false = rw fits (==_comm k (key x) ∙ other) in
        rw other (
          any-upsert_key (key x) (λ y. key y == k) change new same xs h.0 fresh,
          upsert-Distinct k change new same fits xs h.1,
        )
  ]

  -- So does an upsert by another column of a row whose key is new.
  pub upsert_other-Distinct :
      (test : A → Bool) (change : A → A) (new : A)
      → ((x : A) → key (change x) ≡ key x)
      → (xs : List A) → any (λ y. key y == key new) xs ≡ false
      → Distinct xs
      → Distinct (upsert test change new xs)
  upsert_other-Distinct test change new same [] fresh h = (refl, tt)
  upsert_other-Distinct test change new same (x ∷ xs) fresh h = ground (
    arith,
    same x,
    ==_comm (key new) (key x),
    any-upsert_key (key x) test change new same xs h.0,
    upsert_other-Distinct test change new same xs,
  )

  pub any-update_key :
      (k : K) (test : A → Bool) (change : A → A)
      → ((x : A) → key (change x) ≡ key x)
      → (xs : List A) → any (λ y. key y == k) (update test change xs) ≡ any (λ y. key y == k) xs
  any-update_key k test change same [] = refl
  any-update_key k test change same (x ∷ xs) =
      ground (arith, same x, any-update_key k test change same xs)

  pub update-Distinct :
      (test : A → Bool) (change : A → A)
      → ((x : A) → key (change x) ≡ key x)
      → (xs : List A) → Distinct xs
      → Distinct (update test change xs)
  update-Distinct test change same [] h = tt
  update-Distinct test change same (x ∷ xs) h = ground (
    arith,
    same x,
    any-update_key (key x) test change same xs,
    update-Distinct test change same xs h.1,
  )

  pub append-Distinct :
      (new : A) (xs : List A)
      → Distinct xs
      → any (λ y. key y == key new) xs ≡ false
      → Distinct (xs ++ new ∷ [])
  append-Distinct new [] h fresh = (refl, tt)
  append-Distinct new (x ∷ xs) h fresh = ground (
    arith,
    any-append (λ y. key y == key x) xs (new ∷ []),
    ==_comm (key new) (key x),
    append-Distinct new xs h.1,
  )

  any-keep_key :
      (k : K) (p : A → Bool) (xs : List A)
      → any (λ y. key y == k) xs ≡ false
      → any (λ y. key y == k) (keep p xs) ≡ false
  any-keep_key k p [] h = h
  any-keep_key k p (x ∷ xs) h = ground (arith, any-keep_key k p xs)

  pub keep-Distinct : (p : A → Bool) (xs : List A) → Distinct xs → Distinct (keep p xs)
  keep-Distinct p [] h = h
  keep-Distinct p (x ∷ xs) h = ground (arith, any-keep_key (key x) p xs, keep-Distinct p xs h.1)
