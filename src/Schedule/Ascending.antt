-- ===== src/Schedule/Ascending.antt =====
-- intelligence/schedule_parser.py: the weekdays of a line are weekdays, in order and each once.
use Prim.Native.Char.{Char, code}
use Prim.Native.String.{[] as empty_text, ◌∷◌ as char}
use api_dashboard.Prelude.{
  ℕ, zero, suc, ◌≤◌, ◌<◌, String, ◌≡◌, sym, inl, inr, some, List, [], ◌∷◌, ◌++◌, ◌⊎◌, Option-cases,
  All, All-of_In, In, In-append_iff, In-sort_iff, elem, elem_iff, sort, insert_sorted, take, leb,
  Bool-cases, ◌==◌, nat_eq, arith,
}
use mathlib.Core.Option.{some-injective}
use api_dashboard.Schedule.Lessons.{index_in, weekday_of, letters, unseen, weekdays_of}

-- Strictly ascending numbers, the first of which is at least the bound.
abbrev pub From : ℕ → List ℕ → Type 0
From low [] = Unit
From low (x ∷ xs) = (low ≤ x) × From (suc x) xs

abbrev pub Unique : List ℕ → Type 0
Unique [] = Unit
Unique (x ∷ xs) = (¬ In x xs) × Unique xs

pub From-lower : (low high : ℕ) (xs : List ℕ) → low ≤ high → From high xs → From low xs
From-lower low high [] h f = tt
From-lower low high (x ∷ xs) h (le, f) = (omega arith, f)

pub From-append :
    (low high : ℕ) (xs ys : List ℕ)
    → From low xs
    → All (λ x. x < high) xs
    → low ≤ high
    → From high ys
    → From low (xs ++ ys)
From-append low high [] ys f b h g = From-lower low high ys h g
From-append low high (x ∷ xs) ys (le, f) (lt, b) h g =
    (le, From-append (suc x) high xs ys f b (omega arith) g)

pub From-take : (n low : ℕ) (xs : List ℕ) → From low xs → From low (take n xs)
From-take zero low xs f = tt
From-take (suc n) low [] f = tt
From-take (suc n) low (x ∷ xs) (le, f) = (le, From-take n (suc x) xs f)

insert_sorted-From :
    (x low : ℕ) (xs : List ℕ)
    → low ≤ x
    → ¬ In x xs
    → From low xs
    → From low (insert_sorted leb x xs)
unfolding insert_sorted
insert_sorted-From x low [] h new f = (h, tt)
insert_sorted-From x low (y ∷ ys) h new (le, f) = elim (Bool-cases (leb x y)) [
  | inl b ↦ let apart : ¬ (x ≡ y) = (λ e. new (inl e)) in rw b (h, (ground arith, f))
  | inr b ↦ rw b (le, insert_sorted-From x (suc y) ys (ground arith) (λ m. new (inr m)) f)
]

sort-From : (xs : List ℕ) → Unique xs → From 0 (sort leb xs)
unfolding sort
sort-From [] u = tt
sort-From (x ∷ xs) (new, u) =
    insert_sorted-From x 0 (sort leb xs) (omega arith) (λ m. new ((In-sort_iff leb xs x).0 m))
      (sort-From xs u)

Unique-append : (xs : List ℕ) (n : ℕ) → Unique xs → ¬ In n xs → Unique (xs ++ n ∷ [])
Unique-append [] n u new = ((λ m. m), tt)
Unique-append (x ∷ xs) n (u, rest) new = (
  λ m. elim ((In-append_iff xs (n ∷ []) x).0 m) [
    | inl old ↦ u old
    | inr (inl e) ↦ new (inl (sym e))
    | inr (inr a) ↦ a
  ],
  Unique-append xs n rest (λ m. new (inr m)),
)

unseen-Unique : (ns seen : List ℕ) → Unique seen → Unique (unseen seen ns)
unseen-Unique [] seen u = u
unseen-Unique (n ∷ ns) seen u = elim (Bool-cases (elem n seen)) [
  | inl b ↦ rw b (unseen-Unique ns seen u)
  | inr b ↦
      rw b (
        unseen-Unique ns (seen ++ n ∷ [])
          (Unique-append seen n u (λ m. cc ((elem_iff n seen).1 m))))
]

In-unseen : (ns seen : List ℕ) (x : ℕ) → In x (unseen seen ns) → In x seen ⊎ In x ns
In-unseen [] seen x m = inl m
In-unseen (n ∷ ns) seen x m = elim (Bool-cases (elem n seen)) [
  | inl b ↦ elim (In-unseen ns seen x (rw b at m)) [ inl old ↦ inl old | inr new ↦ inr (inr new) ]
  | inr b ↦ elim (In-unseen ns (seen ++ n ∷ []) x (rw b at m)) [
    | inl old ↦ elim ((In-append_iff seen (n ∷ []) x).0 old) [
      | inl before ↦ inl before
      | inr (inl e) ↦ inr (inl e)
      | inr (inr a) ↦ absurd a
    ]
    | inr new ↦ inr (inr new)
  ]
]

abbrev size : String → ℕ
size empty_text = 0
size (char c t) = suc (size t)

index_in-lt : (t : String) (c : Char) (n : ℕ) → index_in t c ≡ some n → n < size t
index_in-lt empty_text c n e = cc
index_in-lt (char d t) c n e = elim (Bool-cases (code c == code d)) [
  | inl b ↦ let zero_here : 0 ≡ n = some-injective _ _ (rw b at e) in omega arith
  | inr b ↦ elim (Option-cases (index_in t c)) [
    | inl f ↦ let e' = rw (b, f) at e in cc
    | inr (k, f) ↦
        let below = index_in-lt t c k f in
        let next : suc k ≡ n = some-injective _ _ (rw (b, f) at e) in omega arith
  ]
]

letters-days : (token : String) (x : ℕ) → In x (letters token) → x < 7
letters-days empty_text x m = absurd m
letters-days (char c t) x m = elim (Option-cases (weekday_of c)) [
  | inl e ↦ letters-days t x (rw e at m)
  | inr (n, e) ↦
      let placed : In x (n ∷ letters t) = (rw e at m) in
      elim placed [
        | inl here ↦ let below : n < 7 = index_in-lt "월화수목금토일" c n e in omega arith
        | inr there ↦ letters-days t x there
      ]
]

-- What weekdays_of gives.
pub weekdays_of-From : (token : String) → From 0 (weekdays_of token)
unfolding weekdays_of
weekdays_of-From token = sort-From _ (unseen-Unique (letters token) [] tt)

pub weekdays_of-days : (token : String) → All (λ x. x < 7) (weekdays_of token)
unfolding weekdays_of
weekdays_of-days token = All-of_In _ (λ x m.
    elim (In-unseen (letters token) [] x ((In-sort_iff leb _ x).0 m)) [
      | inl a ↦ absurd a
      | inr k ↦ letters-days token x k
    ])
