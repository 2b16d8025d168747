-- ===== src/Reads/Assigned.antt =====
-- classin/reads.py: a column that is kept, or set, in the rows of a key.
use api_dashboard.Prelude.{
  ℕ, ◌≡◌, refl, inl, inr, true, false, Option, none, List, [], ◌∷◌, any, update, upsert, ◌==◌,
  ==_iff, Bool-cases, nat_eq, if◌then◌else◌, subst, arith,
}

-- A column of the first row of a key, or NULL.
module _ {A : Type 0} (key : A → ℕ) (col : A → Option ℕ) where
  abbrev pub assigned : ℕ → List A → Option ℕ
  assigned k [] = none
  assigned k (x ∷ xs) = if key x == k then col x else assigned k xs

  -- An upsert that keeps the column, and inserts a NULL, does not change it.
  pub assigned-upsert :
      (k i : ℕ) (change : A → A) (new : A)
      → ((x : A) → key (change x) ≡ key x)
      → ((x : A) → col (change x) ≡ col x)
      → key new ≡ k
      → col new ≡ none
      → (xs : List A) → assigned i (upsert (λ x. key x == k) change new xs) ≡ assigned i xs
  assigned-upsert k i change new same kept fits fresh [] = ground (arith, fits, fresh)
  assigned-upsert k i change new same kept fits fresh (x ∷ xs) =
      ground (arith, same x, kept x, assigned-upsert k i change new same kept fits fresh xs)

  pub any-upsert :
      (k : ℕ) (change : A → A) (new : A)
      → ((x : A) → key (change x) ≡ key x)
      → key new ≡ k
      → (xs : List A) → any (λ x. key x == k) (upsert (λ x. key x == k) change new xs) ≡ true
  any-upsert k change new same fits [] = ground (arith, fits)
  any-upsert k change new same fits (x ∷ xs) =
      ground (arith, same x, any-upsert k change new same fits xs)

  assigned-update_other :
      (k i : ℕ) (change : A → A)
      → ((x : A) → key (change x) ≡ key x)
      → (k == i) ≡ false
      → (xs : List A) → assigned i (update (λ x. key x == k) change xs) ≡ assigned i xs
  assigned-update_other k i change same apart [] = refl
  assigned-update_other k i change same apart (x ∷ xs) =
      ground (arith, same x, assigned-update_other k i change same apart xs)

  assigned-update_same :
      (k : ℕ) (v : Option ℕ) (change : A → A)
      → ((x : A) → key (change x) ≡ key x)
      → ((x : A) → col (change x) ≡ v)
      → (xs : List A) → any (λ x. key x == k) xs ≡ true
      → assigned k (update (λ x. key x == k) change xs) ≡ v
  assigned-update_same k v change same sets [] h = cc
  assigned-update_same k v change same sets (x ∷ xs) h =
      ground (arith, same x, sets x, assigned-update_same k v change same sets xs)

  -- A row of the key that is there has the new value after an update by the key.
  pub assigned-update :
      (k i : ℕ) (v : Option ℕ) (change : A → A)
      → ((x : A) → key (change x) ≡ key x)
      → ((x : A) → col (change x) ≡ v)
      → (xs : List A) → any (λ x. key x == k) xs ≡ true
      → assigned i (update (λ x. key x == k) change xs) ≡ (if k == i then v else assigned i xs)
  assigned-update k i v change same sets xs h = elim (Bool-cases (k == i)) [
    | inl e ↦
        let there = assigned-update_same k v change same sets xs h in
        rw e (
          subst (λ j. assigned j (update (λ x. key x == k) change xs) ≡ v) ((==_iff k i).0 e) there)
    | inr e ↦ rw e (assigned-update_other k i change same e xs)
  ]
