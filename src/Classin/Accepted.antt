-- ===== src/Classin/Accepted.antt =====
-- classin/client.py: on which answers of ClassIn verify_credentials takes the credentials as good.
use api_dashboard.Prelude.{
  ℕ, ◌<◌, String, ◌≡◌, ◌↔◌, ◌⊎◌, refl, sym, subst, ◌∙◌, inl, inr, Bool, true, false, Option, none,
  some, [], ◌∷◌, any, leb, get_or, Bool-cases, arith,
}
use mathlib.Core.Bool.{true≢false}
use mathlib.Core.Option.{some-injective}
use api_dashboard.Json.{Json, ℤ, pos, Fields, obj, str, lookup, null, bool, int, real, arr}
use api_dashboard.Classin.Client.{
  Sent, unreachable, response, failed, Api, int_eq, transport, encode_v1_form, update,
  sign_v1_safekey, envelope, enveloped, error_fields, errno_of, judged, opened, received, probe,
  of_signature, judged_credentials, verify_credentials,
}

module _ {R : Type 0} (api : Api R) where
  -- The message of a rejection.
  abbrev pub message_of : Fields R → String
  message_of err = api.python.str_of (get_or (lookup "error" err) (str "unknown"))

  -- Success, or a rejection that is neither of the signature nor -1.
  abbrev pub Passing : Fields R → Type 0
  Passing err =
      (any (int_eq (errno_of api err)) (pos 1 ∷ []) ≡ true)
      ⊎ ((of_signature api (errno_of api err) (message_of err) ≡ false)
          × (int_eq (errno_of api err) transport ≡ false))

  abbrev pub good : Option (Bool × String)
  good = some (true, "ok")

  failed-good_iff :
      (errno : ℤ) (message : String)
      → (judged_credentials api (failed errno message) ≡ good)
        ↔ ((of_signature api errno message ≡ false) × (int_eq errno transport ≡ false))
  failed-good_iff errno message = elim (Bool-cases (of_signature api errno message)) [
    | inl b ↦ rw b (λ e. cc, λ (h, k). cc)
    | inr b ↦ elim (Bool-cases (int_eq errno transport)) [
      | inl c ↦ rw (b, c) (λ e. cc, λ (h, k). cc)
      | inr c ↦ rw (b, c) (λ e. (refl, refl), λ h. refl)
    ]
  ]

  judged-good_iff :
      (fields : Fields R) (o : Option (Fields R))
      → (judged_credentials api (judged api (pos 1 ∷ []) fields o) ≡ good)
        ↔ ((err : Fields R) × (o ≡ some err) × Passing err)
  judged-good_iff fields none = (λ e. cc, λ (err, e, p). cc)
  judged-good_iff fields (some err) =
      let rejected = failed-good_iff (errno_of api err) (message_of err) in
      elim (Bool-cases (any (int_eq (errno_of api err)) (pos 1 ∷ []))) [
        | inl b ↦ rw b (λ e. (err, refl, inl b), λ h. refl)
        | inr b ↦ rw b (
          λ e. (err, refl, inr (rejected.0 e)),
          λ (other, e, p).
              rejected.1 (not_success err b (subst Passing (sym (some-injective _ _ e)) p)),
        )
      ]
    where
      not_success :
          (x : Fields R)
          → any (int_eq (errno_of api x)) (pos 1 ∷ []) ≡ false
          → Passing x
          → (of_signature api (errno_of api x) (message_of x) ≡ false)
            × (int_eq (errno_of api x) transport ≡ false)
      not_success x b (inl e) = absurd (true≢false (sym e ∙ b))
      not_success x b (inr h) = h

  -- A JSON object in an answer below 400, of which the error passes.
  abbrev pub Answered : Sent R → Type 0
  Answered sent =
      (status : ℕ) × (text : String) × (fields : Fields R) × (err : Fields R) × (sent
        ≡ response status text (some (obj fields)))
      × (status < 400)
      × (error_fields api (lookup "error_info" fields) ≡ some err)
      × Passing err

  not_returned : (message : String) → ¬ (judged_credentials api (failed transport message) ≡ good)
  not_returned message e = absurd (true≢false ((failed-good_iff transport message).0 e).1)

  enveloped-good_iff :
      (status : ℕ) (text : String) (json : Option (Json R))
      → leb 400 status ≡ false
      → (judged_credentials api (opened api (pos 1 ∷ []) (enveloped api text json)) ≡ good)
        ↔ Answered (response status text json)
  enveloped-good_iff status text none h =
      (λ e. absurd (not_returned _ e), λ (st, tx, fields, err, e, lt, x, p). cc)
  enveloped-good_iff status text (some (obj fields)) h =
      let judged_so = judged-good_iff fields (error_fields api (lookup "error_info" fields)) in
      (
        λ e.
            let (err, x, p) = judged_so.0 e in
            (status, text, fields, err, refl, ground arith, x, p),
        λ (st, tx, other, err, e, lt, x, p).
            let same : other ≡ fields = cc e in
            judged_so.1
              (err, subst (λ fs. error_fields api (lookup "error_info" fs) ≡ some err) same x, p),
      )
  enveloped-good_iff status text (some null) h =
      (λ e. absurd (not_returned _ e), λ (st, tx, fields, err, e, lt, x, p). cc)
  enveloped-good_iff status text (some (bool b)) h =
      (λ e. absurd (not_returned _ e), λ (st, tx, fields, err, e, lt, x, p). cc)
  enveloped-good_iff status text (some (int n)) h =
      (λ e. absurd (not_returned _ e), λ (st, tx, fields, err, e, lt, x, p). cc)
  enveloped-good_iff status text (some (real x)) h =
      (λ e. absurd (not_returned _ e), λ (st, tx, fields, err, e, lt, x, p). cc)
  enveloped-good_iff status text (some (str t)) h =
      (λ e. absurd (not_returned _ e), λ (st, tx, fields, err, e, lt, x, p). cc)
  enveloped-good_iff status text (some (arr vs)) h =
      (λ e. absurd (not_returned _ e), λ (st, tx, fields, err, e, lt, x, p). cc)

  received-good_iff :
      (sent : Sent R)
      → (judged_credentials api (received api (pos 1 ∷ []) sent) ≡ good) ↔ Answered sent
  unfolding envelope
  received-good_iff unreachable = (λ e. cc, λ (st, tx, fields, err, e, lt, x, p). cc)
  received-good_iff (response status text json) = elim (Bool-cases (leb 400 status)) [
    | inl b ↦ rw b (
      λ e. absurd (not_returned _ e),
      λ (st, tx, fields, err, e, lt, x, p). let same : st ≡ status = cc e in absurd (ground arith),
    )
    | inr b ↦ rw b (enveloped-good_iff status text json b)
  ]

  -- The answer to the probe of those credentials.
  abbrev pub probed : ℕ → String → String → Sent R
  probed ts sid secret = api.post "getLoginLinked" (
      encode_v1_form api (
        update api
          (("SID", str sid)
            ∷ ("safeKey", str (sign_v1_safekey api secret ts))
            ∷ ("timeStamp", int (pos ts))
            ∷ [])
          (probe api)))

  -- The client takes a SID and a secret as good exactly if the signed probe was answered, with
  -- a status below 400, by a JSON object whose error_info is a dict, or is missing or false and
  -- counts as an empty one, and its number is 1, or is not -1 and is with its message no
  -- rejection of the signature.
  pub verify_credentials_iff :
      (ts : ℕ) (sid secret : String)
      → (verify_credentials api ts sid secret ≡ good) ↔ Answered (probed ts sid secret)
  unfolding verify_credentials
  verify_credentials_iff ts sid secret = received-good_iff (probed ts sid secret)
