-- ===== src/Metrics/Groups.antt =====
-- metrics.py: the rows that are grouped under a student, or under a week, are that one's, in order.
use api_dashboard.Prelude.{
  ℕ, ◌≡◌, ◌↔◌, ◌⊎◌, refl, sym, ap, ◌∙◌, inl, inr, List, [], ◌∷◌, ◌++◌, keep, lookup, put,
  lookup-put, keys, Once, put-Once, In, get_or, HasEquality, ◌==◌, ==_iff, nat_eq, Bool-cases,
  if◌then◌else◌,
}
use api_dashboard.Store.Rows.{LessonRecord}
use api_dashboard.Metrics.Trends.{append_to, append_all, per_student}

append_assoc : {A : Type 0} (xs ys zs : List A) → (xs ++ ys) ++ zs ≡ xs ++ (ys ++ zs)
append_assoc [] ys zs = refl
append_assoc (x ∷ xs) ys zs = ap (λ t. x ∷ t) (append_assoc xs ys zs)

append_nil : {A : Type 0} (xs : List A) → xs ++ [] ≡ xs
append_nil [] = refl
append_nil (x ∷ xs) = ap (λ t. x ∷ t) (append_nil xs)

-- What is listed under a key, or nothing.
abbrev pub under : {K A : Type 0} ⦃e : HasEquality K⦄ → K → List (K × List A) → List A
under k d = get_or (lookup k d) []

module _ {K A : Type 0} ⦃e : HasEquality K⦄ where
  under-append_to :
      (k i : K) (a : A) (d : List (K × List A))
      → under i (append_to k a d) ≡ (if k == i then under i d ++ a ∷ [] else under i d)
  under-append_to k i a d = rw (lookup-put k i) (elim (Bool-cases (k == i)) [
    | inl b ↦ let same : k ≡ i = (==_iff k i).0 b in rw (b, same)
    | inr b ↦ rw b
  ])

module _ {K V : Type 0} ⦃e : HasEquality K⦄ where
  pub In-keys_iff : (k : K) (d : List (K × V)) → In k (keys d) ↔ ((g : K × V) × In g d × (g.0 ≡ k))
  In-keys_iff k [] = (λ m. absurd m, λ (g, m, same). m)
  In-keys_iff k ((j, v) ∷ d) =
      let ih = In-keys_iff k d in
      (
        λ m. elim m [
          | inl here ↦ ((j, v), inl refl, sym here)
          | inr there ↦ let (g, n, same) = ih.0 there in (g, inr n, same)
        ],
        λ (g, m, same). elim m [
          | inl here ↦ inl (sym same ∙ ap (λ (p : K × V). p.0) here)
          | inr there ↦ inr (ih.1 (g, there, same))
        ],
      )

  pub In-keys-put :
      (k i : K) (v : V) (d : List (K × V)) → In i (keys (put k v d)) ↔ ((i ≡ k) ⊎ In i (keys d))
  In-keys-put k i v [] = (
    λ m. elim m [ inl here ↦ inl here | inr x ↦ absurd x ],
    λ m. elim m [ inl here ↦ inl here | inr x ↦ absurd x ],
  )
  In-keys-put k i v ((j, w) ∷ d) =
      let ih = In-keys-put k i v d in
      elim (Bool-cases (j == k)) [
        | inl same ↦ rw same (
          λ m. inr m,
          λ m. elim m [ inl here ↦ inl (here ∙ sym ((==_iff j k).0 same)) | inr n ↦ n ],
        )
        | inr other ↦ rw other (
          λ m. elim m [
            | inl here ↦ inr (inl here)
            | inr n ↦ elim (ih.0 n) [ inl p ↦ inl p | inr q ↦ inr (inr q) ]
          ],
          λ m. elim m [
            | inl p ↦ inr (ih.1 (inl p))
            | inr n ↦ elim n [ inl here ↦ inl here | inr q ↦ inr (ih.1 (inr q)) ]
          ],
        )
      ]

module _ {K A : Type 0} ⦃e : HasEquality K⦄ (key : A → K) where
  abbrev under_key : K → List A → List A
  under_key k = keep (λ a. key a == k)

  under-append_all_from :
      (k : K) (xs : List A) (d : List (K × List A))
      → under k (append_all key xs d) ≡ under k d ++ under_key k xs
  under-append_all_from k [] d = sym (append_nil (under k d))
  under-append_all_from k (x ∷ xs) d =
      rw (under-append_all_from k xs (append_to (key x) x d), under-append_to (key x) k x d)
        (elim (Bool-cases (key x == k)) [
          | inl b ↦ rw b (append_assoc (under k d) (x ∷ []) (under_key k xs))
          | inr b ↦ rw b
        ])

  pub under-append_all :
      (k : K) (xs : List A) → under k (append_all key xs []) ≡ keep (λ a. key a == k) xs
  under-append_all k xs = under-append_all_from k xs []

  append_all-Once_from : (xs : List A) (d : List (K × List A)) → Once d → Once (append_all key xs d)
  append_all-Once_from [] d o = o
  append_all-Once_from (x ∷ xs) d o = append_all-Once_from xs _ (put-Once (key x) _ d o)

  -- No key is there twice, and each has what it gives.
  pub append_all-Once : (xs : List A) → Once (append_all key xs [])
  append_all-Once xs = append_all-Once_from xs [] tt

  abbrev HasKey : K → List A → Type 0
  HasKey k xs = (a : A) × In a xs × (key a ≡ k)

  In-keys-append_all_from :
      (k : K) (xs : List A) (d : List (K × List A))
      → In k (keys (append_all key xs d)) ↔ (In k (keys d) ⊎ HasKey k xs)
  In-keys-append_all_from k [] d =
      (λ m. inl m, λ m. elim m [ inl n ↦ n | inr (r, n, same) ↦ absurd n ])
  In-keys-append_all_from k (x ∷ xs) d =
      let ih = In-keys-append_all_from k xs (append_to (key x) x d) in
      let added = In-keys-put (key x) k _ d in
      (
        λ m. elim (ih.0 m) [
          | inl n ↦ elim (added.0 n) [ inl same ↦ inr (x, inl refl, sym same) | inr old ↦ inl old ]
          | inr (q, n, same) ↦ inr (q, inr n, same)
        ],
        λ m. elim m [
          | inl old ↦ ih.1 (inl (added.1 (inr old)))
          | inr (q, inl here, same) ↦ ih.1 (inl (added.1 (inl (sym same ∙ ap key here))))
          | inr (q, inr n, same) ↦ ih.1 (inr (q, n, same))
        ],
      )

  -- The keys are those of the elements.
  pub In-keys-append_all :
      (k : K) (xs : List A) → In k (keys (append_all key xs [])) ↔ ((a : A) × In a xs × (key a ≡ k))
  In-keys-append_all k xs =
      let all = In-keys-append_all_from k xs [] in
      (λ m. elim (all.0 m) [ inl none_yet ↦ absurd none_yet | inr row ↦ row ], λ h. all.1 (inr h))

module _ {R : Type 0} where
  abbrev pub rows_of : ℕ → List (LessonRecord R) → List (LessonRecord R)
  rows_of uid = keep (λ r. r.student_uid == uid)

  -- The rows that are grouped under a student are the rows of that student, all of them and in
  -- their order.
  pub per_student-rows :
      (uid : ℕ) (rows : List (LessonRecord R)) → under uid (per_student rows []) ≡ rows_of uid rows
  unfolding per_student
  per_student-rows uid rows = under-append_all (λ r. r.student_uid) uid rows
