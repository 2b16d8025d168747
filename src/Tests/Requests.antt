-- ===== src/Tests/Requests.antt =====
-- Two bodies of a v2 request, and what is signed of them.
use api_dashboard.Prelude.{
  ℕ, String, ◌≡◌, ◌≢◌, refl, sym, subst, [], ◌∷◌, lookup, Bool-cases, inl, inr, ◌==◌, ==_iff,
  string_eq, sort, text_leb,
}
use api_dashboard.Json.{str, arr, nil}
use api_dashboard.Classin.Client.{unreachable}
use api_dashboard.Classin.V2.{
  JsonApi, Body, should_include, stringify, build_signing_string, sign_v2,
}
use api_dashboard.Classin.Signed.{signed_value, sign_v2-signed}
use api_dashboard.Tests.Logons.{classin}

abbrev net : JsonApi ℕ
net = record { api = classin; bytes = λ t. 5; post = λ path headers body. unreachable }

abbrev body : Body ℕ
body = ("name", str "수학") ∷ ("sid", str "1") ∷ ("content", str "") ∷ []

abbrev reordered : Body ℕ
reordered = ("content", str "") ∷ ("studentUids", arr nil) ∷ ("name", str "수학") ∷ []

-- Sorted by key, without the list, and with the SID that was given.
signing_string :
    build_signing_string net reordered "7" 100 "secret"
    ≡ "content=&name=수학&sid=7&timeStamp=n&key=secret"
unfolding build_signing_string should_include stringify sort text_leb
signing_string = refl

same_values :
    (k : String)
    → k ≢ "timeStamp"
    → k ≢ "sid"
    → signed_value net (lookup k body) ≡ signed_value net (lookup k reordered)
unfolding should_include stringify
same_values k p q = elim (Bool-cases ("name" == k)) [
  | inl b ↦
      subst (λ j. signed_value net (lookup j body) ≡ signed_value net (lookup j reordered))
        ((==_iff "name" k).0 b) refl
  | inr b ↦ elim (Bool-cases ("sid" == k)) [
    | inl c ↦ absurd (q (sym ((==_iff "sid" k).0 c)))
    | inr c ↦ elim (Bool-cases ("content" == k)) [
      | inl d ↦
          subst (λ j. signed_value net (lookup j body) ≡ signed_value net (lookup j reordered))
            ((==_iff "content" k).0 d) refl
      | inr d ↦ elim (Bool-cases ("studentUids" == k)) [
        | inl f ↦ rw (b, c, d, f) refl
        | inr f ↦ rw (b, c, d, f) refl
      ]
    ]
  ]
]

sign_v2-signed_example : sign_v2 net body "7" "secret" 100 ≡ sign_v2 net reordered "7" "secret" 100
sign_v2-signed_example =
    sign_v2-signed net body reordered (refl, (refl, (refl, tt))) (refl, (refl, (refl, tt)))
      same_values "7" "secret" 100
