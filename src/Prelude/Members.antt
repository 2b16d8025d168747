-- ===== src/Prelude/Members.antt =====
-- Membership in the lists that the program builds.
use Prim.Native.Nat.{ℕ, zero, suc}
use mathlib.Core.Path.{◌≡◌, refl, sym, ap, subst, ◌∙◌}
use mathlib.Core.Logic.{◌↔◌, ◌⊎◌, inl, inr}
use mathlib.Core.Bool.{Bool, true}
use mathlib.Core.List.{List, [], ◌∷◌, ◌++◌, map, reverse, reverse-append}
use mathlib.Core.Option.{Option, none, some, some-injective}
use native.Mathlib.Omega.{arith}
use api_dashboard.Prelude.Tests.{HasEquality, ◌==◌, Bool-cases}
use api_dashboard.Prelude.Lists.{In, keep, any, take, collect, cons_some, elem, elem_opt, All}

module _ {A : Type 0} where
  In-of_In-keep : (p : A → Bool) (xs : List A) (a : A) → In a (keep p xs) → In a xs × (p a ≡ true)
  In-of_In-keep p [] a h = absurd h
  In-of_In-keep p (x ∷ xs) a h = ground (arith, In-of_In-keep p xs a)

  In-keep : (p : A → Bool) (xs : List A) (a : A) → In a xs → p a ≡ true → In a (keep p xs)
  In-keep p [] a h q = h
  In-keep p (x ∷ xs) a h q = ground (arith, In-keep p xs a)

  -- Exactly the elements of the list that pass the test are kept.
  pub In-keep_iff :
      (p : A → Bool) (xs : List A) (a : A) → In a (keep p xs) ↔ (In a xs × (p a ≡ true))
  In-keep_iff p xs a = (In-of_In-keep p xs a, λ h. In-keep p xs a h.0 h.1)

  pub In-append_iff : (xs ys : List A) (a : A) → In a (xs ++ ys) ↔ (In a xs ⊎ In a ys)
  In-append_iff [] ys a = (inr, λ h. ground arith)
  In-append_iff (x ∷ xs) ys a =
      let ih = In-append_iff xs ys a in (λ h. ground arith, λ h. ground arith)

  -- `any` is "there is an element".
  pub any-In : (p : A → Bool) (xs : List A) → any p xs ≡ true → (a : A) × In a xs × (p a ≡ true)
  any-In p [] h = cc
  any-In p (x ∷ xs) h = elim (Bool-cases (p x)) [
    | inl e ↦ (x, inl refl, e)
    | inr e ↦ let (a, m, q) = any-In p xs (rw e at h) in (a, inr m, q)
  ]

  pub In-any : (p : A → Bool) (xs : List A) (a : A) → In a xs → p a ≡ true → any p xs ≡ true
  In-any p [] a m h = absurd m
  In-any p (x ∷ xs) a (inl e) h = ground arith
  In-any p (x ∷ xs) a (inr m) h = ground (arith, In-any p xs a m h)

module _ {A : Type 0} ⦃e : HasEquality A⦄ where
  -- `a in xs` as a test and as a proposition.
  pub elem_iff : (a : A) (xs : List A) → (elem a xs ≡ true) ↔ In a xs
  elem_iff a xs = (
    λ h.
        let (b, m, q) = any-In (λ x. a == x) xs h in
        subst (λ c. In c xs) (sym ((e.same_iff a b).0 q)) m,
    λ m. In-any (λ x. a == x) xs a m ((e.same_iff a a).1 refl),
  )

  pub elem_opt_iff :
      (o : Option A) (xs : List A) → (elem_opt o xs ≡ true) ↔ ((a : A) × (o ≡ some a) × In a xs)
  elem_opt_iff none xs = (λ h. cc, λ h. cc)
  elem_opt_iff (some a) xs = (
    λ h. (a, refl, (elem_iff a xs).0 h),
    λ h. (elem_iff a xs).1 (subst (λ c. In c xs) (some-injective _ _ (sym h.1)) h.2),
  )

module _ {A B : Type 0} where
  pub In-map : (f : A → B) (xs : List A) (a : A) → In a xs → In (f a) (map f xs)
  In-map f [] a h = h
  In-map f (x ∷ xs) a (inl e) = inl (ap f e)
  In-map f (x ∷ xs) a (inr h) = inr (In-map f xs a h)

  -- The members of a mapped list are the images of the members.
  pub In-map_iff :
      (f : A → B) (xs : List A) (b : B) → In b (map f xs) ↔ ((a : A) × In a xs × (f a ≡ b))
  In-map_iff f xs b = (image xs, λ h. subst (λ c. In c (map f xs)) h.2 (In-map f xs h.0 h.1))
    where
      image : (ys : List A) → In b (map f ys) → (a : A) × In a ys × (f a ≡ b)
      image [] h = absurd h
      image (y ∷ ys) (inl e) = (y, inl refl, sym e)
      image (y ∷ ys) (inr h) = let (a, m, e) = image ys h in (a, inr m, e)

  In-of_In-collect :
      (f : A → Option B) (xs : List A) (b : B)
      → In b (collect f xs)
      → (a : A) × In a xs × (f a ≡ some b)
  In-of_In-collect f [] b h = absurd h
  In-of_In-collect f (x ∷ xs) b h = pick (In-of_In-collect f xs b) (f x) refl h
    where
      pick :
          (In b (collect f xs) → (a : A) × In a xs × (f a ≡ some b))
          → (o : Option B) → f x ≡ o
          → In b (cons_some o (collect f xs))
          → (a : A) × In a (x ∷ xs) × (f a ≡ some b)
      pick ih none e m = let (a, n, q) = ih m in (a, inr n, q)
      pick ih (some c) e (inl m) = (x, inl refl, e ∙ ap some (sym m))
      pick ih (some c) e (inr m) = let (a, n, q) = ih m in (a, inr n, q)

  In-collect :
      (f : A → Option B) (xs : List A) (a : A) (b : B)
      → In a xs
      → f a ≡ some b
      → In b (collect f xs)
  In-collect f [] a b h e = h
  In-collect f (x ∷ xs) a b (inl m) e =
      subst (λ o. In b (cons_some o (collect f xs))) (sym (ap f (sym m) ∙ e)) (inl refl)
  In-collect f (x ∷ xs) a b (inr m) e = later (f x) (In-collect f xs a b m e)
    where
      later : (o : Option B) → In b (collect f xs) → In b (cons_some o (collect f xs))
      later none h = h
      later (some c) h = inr h

  -- The members of a collected set are the values of the members that have one.
  pub In-collect_iff :
      (f : A → Option B) (xs : List A) (b : B)
      → In b (collect f xs) ↔ ((a : A) × In a xs × (f a ≡ some b))
  In-collect_iff f xs b = (In-of_In-collect f xs b, λ h. In-collect f xs h.0 b h.1 h.2)

module _ {A : Type 0} where
  pub In-reverse_iff : (xs : List A) (a : A) → In a (reverse xs) ↔ In a xs
  In-reverse_iff [] a = (λ h. h, λ h. h)
  In-reverse_iff (x ∷ xs) a =
      let ih = In-reverse_iff xs a in
      let split = In-append_iff (reverse xs) (x ∷ []) a in
      rw (reverse-append (x ∷ []) xs) (λ h. ground arith, λ h. ground arith)

  pub In-take : (n : ℕ) (xs : List A) (a : A) → In a (take n xs) → In a xs
  In-take zero xs a h = absurd h
  In-take (suc n) [] a h = h
  In-take (suc n) (x ∷ xs) a (inl e) = inl e
  In-take (suc n) (x ∷ xs) a (inr h) = inr (In-take n xs a h)

  -- What holds of the members holds of all of them.
  pub All-of_In : {P : A → Type 0} (xs : List A) → ((a : A) → In a xs → P a) → All P xs
  All-of_In [] h = tt
  All-of_In (x ∷ xs) h = (h x (inl refl), All-of_In xs (λ a m. h a (inr m)))

  pub In-All : (P : A → Type 0) (xs : List A) (a : A) → All P xs → In a xs → P a
  In-All P [] a h m = absurd m
  In-All P (x ∷ xs) a (p, h) (inl e) = subst P (sym e) p
  In-All P (x ∷ xs) a (p, h) (inr m) = In-All P xs a h m
