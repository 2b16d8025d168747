-- ===== src/Classin/Sorted.antt =====
-- classin/signing.py: items in the order of their keys, which their values under each key give.
use mathlib.Core.Option.{none-ne-some}
use api_dashboard.Prelude.{
  String, ◌≡◌, ◌≢◌, ◌⊎◌, refl, sym, subst, ◌∙◌, inl, inr, true, false, none, some, [], ◌∷◌, lookup,
  In, Once, lookup-In, In-lookup, sort, insert_sorted, ◌==◌, ==_iff, string_eq, Bool-cases,
  if◌then◌else◌, arith,
}
use api_dashboard.Classin.Order.{text_leb_total, text_leb_antisym, text_leb_trans}
use api_dashboard.Classin.V2.{Headers, key_leb}

-- Each item's key is at most those of the items after it.
abbrev Ordered : Headers → Type 0
Ordered [] = Unit
Ordered (p ∷ ps) = ((q : String × String) → In q ps → key_leb p q ≡ true) × Ordered ps

In-insert :
    (p q : String × String) (ps : Headers) → In q (insert_sorted key_leb p ps) → (q ≡ p) ⊎ In q ps
unfolding insert_sorted
In-insert p q [] m = m
In-insert p q (x ∷ ps) m = elim (Bool-cases (key_leb p x)) [
  | inl b ↦ ground (arith, b, m)
  | inr b ↦ ground (arith, b, m, In-insert p q ps)
]

insert-Ordered :
    (p : String × String) (ps : Headers) → Ordered ps → Ordered (insert_sorted key_leb p ps)
unfolding insert_sorted
insert-Ordered p [] o = (λ q m. absurd m, tt)
insert-Ordered p (x ∷ ps) o = elim (Bool-cases (key_leb p x)) [
  | inl b ↦
      rw b
        (λ q m. elim m [ inl here ↦ rw here b | inr n ↦ text_leb_trans p.0 x.0 q.0 b (o.0 q n) ], o)
  | inr b ↦ rw b (
    λ q m. elim (In-insert p q ps m) [
      | inl here ↦ rw here (ground (arith, b, text_leb_total p.0 x.0))
      | inr n ↦ o.0 q n
    ],
    insert-Ordered p ps o.1,
  )
]

sort-Ordered : (ps : Headers) → Ordered (sort key_leb ps)
unfolding sort
sort-Ordered [] = tt
sort-Ordered (p ∷ ps) = insert-Ordered p (sort key_leb ps) (sort-Ordered ps)

lookup-insert :
    (p : String × String) (ps : Headers) (k : String)
    → lookup p.0 ps ≡ none
    → lookup k (insert_sorted key_leb p ps) ≡ (if p.0 == k then some p.1 else lookup k ps)
unfolding insert_sorted
lookup-insert p [] k fresh = refl
lookup-insert p (x ∷ ps) k fresh =
    ground (arith, ==_iff x.0 p.0, ==_iff x.0 k, ==_iff p.0 k, lookup-insert p ps k)

insert-Once :
    (p : String × String) (ps : Headers)
    → lookup p.0 ps ≡ none
    → Once ps
    → Once (insert_sorted key_leb p ps)
unfolding insert_sorted
insert-Once p [] fresh o = (refl, tt)
insert-Once p (x ∷ ps) fresh o = elim (Bool-cases (key_leb p x)) [
  | inl b ↦ rw b (fresh, o)
  | inr b ↦ rw b (
    ground (arith, fresh, o.0, ==_iff x.0 p.0, ==_iff p.0 x.0, lookup-insert p ps x.0),
    insert-Once p ps (ground (arith, fresh, ==_iff x.0 p.0)) o.1,
  )
]

sort-Once :
    (ps : Headers)
    → Once ps
    → Once (sort key_leb ps) × ((k : String) → lookup k (sort key_leb ps) ≡ lookup k ps)
unfolding sort
sort-Once [] o = (tt, λ k. refl)
sort-Once (p ∷ ps) o =
    let (once, same) = sort-Once ps o.1 in
    let fresh = same p.0 ∙ o.0 in
    (
      insert-Once p (sort key_leb ps) fresh once,
      λ k. lookup-insert p (sort key_leb ps) k fresh ∙ rw (same k) refl,
    )

-- An item of one is an item of the other.
In-same :
    (xs ys : Headers)
    → Once xs
    → ((k : String) → lookup k xs ≡ lookup k ys)
    → (p : String × String) → In p xs
    → In p ys
In-same xs ys o h p m = In-lookup ys p.0 p.1 (sym (h p.0) ∙ lookup-In xs o p m)

fresh-not_In :
    (k : String) (d : Headers)
    → Once d
    → lookup k d ≡ none
    → (p : String × String) → In p d
    → p.0 ≢ k
fresh-not_In k d o fresh p m e =
    none-ne-some _ (sym fresh ∙ subst (λ j. lookup j d ≡ some p.1) e (lookup-In d o p m))

-- Items in order are given by what their keys give.
Ordered-unique :
    (xs ys : Headers)
    → Ordered xs
    → Ordered ys
    → Once xs
    → Once ys
    → ((k : String) → lookup k xs ≡ lookup k ys)
    → xs ≡ ys
Ordered-unique [] [] ox oy dx dy h = refl
Ordered-unique [] (y ∷ ys) ox oy dx dy h =
    absurd (In-same (y ∷ ys) [] dy (λ k. sym (h k)) y (inl refl))
Ordered-unique (x ∷ xs) [] ox oy dx dy h = absurd (In-same (x ∷ xs) [] dx h x (inl refl))
Ordered-unique (x ∷ xs) (y ∷ ys) ox oy dx dy h =
    let same : x ≡ y = elim (In-same (x ∷ xs) (y ∷ ys) dx h x (inl refl)) [
      | inl e ↦ e
      | inr m ↦ elim (In-same (y ∷ ys) (x ∷ xs) dy (λ k. sym (h k)) y (inl refl)) [
        | inl e ↦ sym e
        | inr n ↦
            absurd
              (fresh-not_In x.0 xs dx.1 dx.0 y n (text_leb_antisym y.0 x.0 (oy.0 x m) (ox.0 y n)))
      ]
    ] in
    let rest : (k : String) → lookup k xs ≡ lookup k ys = λ k. elim (Bool-cases (x.0 == k)) [
      | inl b ↦
          let e : x.0 ≡ k = (==_iff x.0 k).0 b in
          let f : y.0 ≡ k = subst (λ p. p.0 ≡ k) same e in
          subst (λ j. lookup j xs ≡ none) e dx.0 ∙ sym (subst (λ j. lookup j ys ≡ none) f dy.0)
      | inr b ↦
          let c : (y.0 == k) ≡ false = subst (λ p. (p.0 == k) ≡ false) same b in
          ground (arith, h k, b, c)
    ] in
    λ i. same i ∷ Ordered-unique xs ys ox.1 oy.1 dx.1 dy.1 rest i

pub sort-same :
    (xs ys : Headers)
    → Once xs
    → Once ys
    → ((k : String) → lookup k xs ≡ lookup k ys)
    → sort key_leb xs ≡ sort key_leb ys
sort-same xs ys ox oy h =
    let (dx, here) = sort-Once xs ox in
    let (dy, there) = sort-Once ys oy in
    Ordered-unique (sort key_leb xs) (sort key_leb ys) (sort-Ordered xs) (sort-Ordered ys) dx dy
      (λ k. here k ∙ h k ∙ sym (there k))
