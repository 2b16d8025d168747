-- ===== src/Classin/Signed.antt =====
-- classin/signing.py: what the signature of a v2 request depends on.
use api_dashboard.Prelude.{
  ℕ, String, ◌≡◌, ◌≢◌, refl, sym, ap, subst, ◌∙◌, inl, inr, false, Option, none, some, [], ◌∷◌,
  lookup, put, lookup-put, Once, put-Once, sort, ◌==◌, ==_iff, string_eq, Bool-cases, if◌then◌else◌,
  arith,
}
use api_dashboard.Json.{Json}
use api_dashboard.Classin.Sorted.{sort-same}
use api_dashboard.Classin.V2.{
  JsonApi, Body, Headers, should_include, stringify, signed_pairs, key_leb, sign_v2,
}

apart : (x k : String) → (x == k) ≡ false → k ≢ x
apart x k b e = ground (arith, b, ==_iff x k, sym e)

module _ {R : Type 0} (net : JsonApi R) where
  -- What is signed of the value under a key.
  abbrev pub signed_value : Option (Json R) → Option String
  signed_value none = none
  signed_value (some v) = if should_include net v then some (stringify net v) else none

  lookup-signed_pairs :
      (k : String) (body : Body R)
      → Once body
      → lookup k (signed_pairs net body) ≡ signed_value (lookup k body)
  lookup-signed_pairs k [] o = refl
  lookup-signed_pairs k ((j, v) ∷ body) o =
      let ih = lookup-signed_pairs k body o.1 in
      elim (Bool-cases (should_include net v)) [
        | inl b ↦ elim (Bool-cases (j == k)) [
          | inl c ↦ rw (b, c) (rw b refl)
          | inr c ↦ rw (b, c) ih
        ]
        | inr b ↦ elim (Bool-cases (j == k)) [
          | inl c ↦
              let gone = subst (λ i. lookup i body ≡ none) ((==_iff j k).0 c) o.0 in
              rw (b, c) (rw b (ih ∙ ap signed_value gone))
          | inr c ↦ rw (b, c) ih
        ]
      ]

  signed_pairs-Once : (body : Body R) → Once body → Once (signed_pairs net body)
  signed_pairs-Once [] o = tt
  signed_pairs-Once ((j, v) ∷ body) o =
      let rest = signed_pairs-Once body o.1 in
      elim (Bool-cases (should_include net v)) [
        | inl b ↦ rw b (lookup-signed_pairs j body o.1 ∙ ap signed_value o.0, rest)
        | inr b ↦ rw b rest
      ]

  -- Items under two keys are the same where the rest are.
  put-same :
      (x y v w : String) (d f : Headers)
      → ((k : String) → k ≢ x → k ≢ y → lookup k d ≡ lookup k f)
      → (k : String) → lookup k (put x v (put y w d)) ≡ lookup k (put x v (put y w f))
  put-same x y v w d f h k =
      rw
        (
          lookup-put x k v (put y w d),
          lookup-put x k v (put y w f),
          lookup-put y k w d,
          lookup-put y k w f,
        )
        (elim (Bool-cases (x == k)) [
          | inl b ↦ rw b refl
          | inr b ↦ rw b (elim (Bool-cases (y == k)) [
            | inl c ↦ rw c refl
            | inr c ↦ rw c (h k (apart x k b) (apart y k c))
          ])
        ])

  -- The items that are signed.
  abbrev all_pairs : Body R → String → ℕ → Headers
  all_pairs body sid ts =
      put "timeStamp" (net.api.python.str ts) (put "sid" sid (signed_pairs net body))

  all_pairs-Once :
      (body : Body R) (sid : String) (ts : ℕ) → Once body → Once (all_pairs body sid ts)
  all_pairs-Once body sid ts o = put-Once _ _ _ (put-Once _ _ _ (signed_pairs-Once body o))

  -- The signed headers of a v2 request depend only on what is signed of its body: two bodies,
  -- each without a key twice, have the same headers under the same SID, secret and instant, in
  -- whatever order their items stand, if what is signed of the value of each key other than
  -- timeStamp and sid is the same, where lists, objects and texts of more than 1024 bytes are
  -- signed as nothing and every other value as its text.
  pub sign_v2-signed :
      (b c : Body R)
      → Once b
      → Once c
      → ((k : String)
          → k ≢ "timeStamp"
          → k ≢ "sid"
          → signed_value (lookup k b) ≡ signed_value (lookup k c))
      → (sid secret : String) (ts : ℕ) → sign_v2 net b sid secret ts ≡ sign_v2 net c sid secret ts
  unfolding sign_v2
  sign_v2-signed b c ob oc h sid secret ts =
      let same : sort key_leb (all_pairs b sid ts) ≡ sort key_leb (all_pairs c sid ts) =
        sort-same _ _ (all_pairs-Once b sid ts ob) (all_pairs-Once c sid ts oc) (
          put-same "timeStamp" "sid" (net.api.python.str ts) sid (signed_pairs net b)
            (signed_pairs net c)
            (λ k p q. rw (lookup-signed_pairs k b ob, lookup-signed_pairs k c oc) (h k p q))) in
      rw same refl
