-- ===== src/Webhook/Received.antt =====
-- web/routes_webhook.py: a run of the receiver, and the deliveries of it that are ingested.
use api_dashboard.Prelude.{
  String, ◌≡◌, refl, sym, ap, ◌∙◌, inl, inr, Bool, false, ◌&&◌, ◌||◌, not, Option, nonempty, List,
  [], ◌∷◌, ◌++◌, Bool-cases, if◌then◌else◌, arith,
}
use mathlib.Core.List.{append-nil, append_assoc}
use api_dashboard.Json.{Json, obj, null, bool, int, real, str, arr}
use api_dashboard.Python.{Python}
use api_dashboard.Store.Rows.{Store}
use api_dashboard.Store.Records.{append_raw}
use api_dashboard.Classin.Schemas.{Event, Model, parse_event}
use api_dashboard.Classin.Signing.{Digest, verify_webhook_safekey}
use api_dashboard.Ingest.{ingest}
use api_dashboard.Ingest.Logged.{with_log, ingest-with_log}
use api_dashboard.Ingest.Reported.{ingest_all}
use api_dashboard.Webhook.{
  Body, parsed, not_json, unusable, is_dict, ingested, receive, classin_webhook,
}

-- What the raw log is given of the bodies.
abbrev pub logged : {R : Type 0} → List (String × Body R) → List (String × Json R)
logged [] = []
logged ((now, parsed raw) ∷ bodies) = (now, raw) ∷ logged bodies
logged ((now, not_json) ∷ bodies) = logged bodies
logged ((now, unusable) ∷ bodies) = logged bodies

module _ {R : Type 0} (py : Python R) (digest : Digest) (safekey : String) where
  -- A JSON object that passes the check of the SafeKey, where one is configured.
  abbrev pub genuine : Json R → Bool
  genuine raw =
      is_dict raw && (not (nonempty safekey) || verify_webhook_safekey py digest raw safekey)

  abbrev pub deliveries : List (String × Body R) → List (String × Json R)
  deliveries [] = []
  deliveries ((now, parsed raw) ∷ bodies) =
      if genuine raw then (now, raw) ∷ deliveries bodies else deliveries bodies
  deliveries ((now, not_json) ∷ bodies) = deliveries bodies
  deliveries ((now, unusable) ∷ bodies) = deliveries bodies

  module _ (validate : Model → Json R → Option (Event R)) where
    -- The receiver on bodies, each with the instant of its arrival.
    unfoldable pub receive_all : List (String × Body R) → Store R → Store R
    receive_all [] s = s
    receive_all ((now, body) ∷ bodies) s =
        receive_all bodies (classin_webhook py digest validate safekey now body s).0

    ingest_no_dict :
        (now : String) (raw : Json R) (s : Store R)
        → is_dict raw ≡ false
        → (ingest py now validate raw s).0 ≡ s
    unfolding ingest parse_event is_dict
    ingest_no_dict now null s h = refl
    ingest_no_dict now (bool b) s h = refl
    ingest_no_dict now (int n) s h = refl
    ingest_no_dict now (real x) s h = refl
    ingest_no_dict now (str t) s h = refl
    ingest_no_dict now (arr vs) s h = refl
    ingest_no_dict now (obj fs) s h = ground (arith, h)

    -- One body: whatever the log is, its pushes that are not genuine change nothing.
    receive-genuine :
        (now : String) (raw : Json R) (s : Store R)
        → (receive py digest validate safekey now raw s).0
          ≡ (if genuine raw then (ingest py now validate raw s).0 else s)
    unfolding receive ingested
    receive-genuine now raw s = elim (Bool-cases (is_dict raw)) [
      | inl dict ↦ elim (Bool-cases (nonempty safekey)) [
        | inl keyed ↦ elim (Bool-cases (verify_webhook_safekey py digest raw safekey)) [
          | inl good ↦ rw (keyed, dict, good) refl
          | inr bad ↦ rw (keyed, dict, bad) refl
        ]
        | inr unkeyed ↦ rw (unkeyed, dict) refl
      ]
      | inr no_dict ↦ elim (Bool-cases (nonempty safekey)) [
        | inl keyed ↦ rw (keyed, no_dict) refl
        | inr unkeyed ↦ rw (unkeyed, no_dict) (ingest_no_dict now raw s no_dict)
      ]
    ]

    ingest_all-with_log :
        (log pushes : List (String × Json R)) (s : Store R)
        → ingest_all py validate pushes (with_log log s)
          ≡ with_log log (ingest_all py validate pushes s)
    unfolding ingest_all
    ingest_all-with_log log [] s = refl
    ingest_all-with_log log ((now, raw) ∷ pushes) s =
        rw (ingest-with_log log py now validate raw s)
          (ingest_all-with_log log pushes (ingest py now validate raw s).0)

    -- The rest of a run, once a value was logged.
    receive_all-logged :
        (bodies : List (String × Body R)) (log : List (String × Json R)) (s : Store R)
        → receive_all bodies (with_log log s)
          ≡ with_log (log ++ logged bodies) (ingest_all py validate (deliveries bodies) s)
    unfolding receive_all classin_webhook append_raw ingest_all
    receive_all-logged [] log s = ap (λ l. with_log l s) (sym (append-nil log))
    receive_all-logged ((now, parsed raw) ∷ bodies) log s =
        let longer = log ++ (now, raw) ∷ [] in
        let same = λ (u : Store R).
          ap (λ l. with_log l u) (append_assoc log ((now, raw) ∷ []) (logged bodies)) in
        let rest = λ (u : Store R).
          receive_all-logged bodies longer u
          ∙ same (ingest_all py validate (deliveries bodies) u) in
        rw (receive-genuine now raw (with_log longer s)) (elim (Bool-cases (genuine raw)) [
          | inl good ↦
              rw (good, ingest-with_log longer py now validate raw s)
                (rest (ingest py now validate raw s).0)
          | inr bad ↦ rw bad (rest s)
        ])
    receive_all-logged ((now, not_json) ∷ bodies) log s = receive_all-logged bodies log s
    receive_all-logged ((now, unusable) ∷ bodies) log s = receive_all-logged bodies log s

    -- Whatever bodies the receiver is given, in whatever order, the store that it leaves is the
    -- one that ingest alone leaves of the JSON objects among them, in order: of those that pass
    -- the check of the SafeKey where one is configured, and of all of them where none is; but
    -- the raw log is the one before followed by every JSON value among the bodies, in order.
    pub receive_all-ingest_all :
        (bodies : List (String × Body R)) (s : Store R)
        → receive_all bodies s
          ≡ with_log (s.raw_log ++ logged bodies) (ingest_all py validate (deliveries bodies) s)
    receive_all-ingest_all bodies s = receive_all-logged bodies s.raw_log s
