-- ===== src/Webhook/Acknowledge.antt =====
-- web/routes_webhook.py: what is acknowledged, and the statements that it runs.
use api_dashboard.Prelude.{
  String, ◌≡◌, refl, ◌↔◌, inl, inr, true, false, Option, nonempty, arith, Bool-cases,
}
use api_dashboard.Json.{Json, obj, null, bool, int, real, str, arr}
use api_dashboard.Python.{Python}
use api_dashboard.Store.Rows.{Store}
use api_dashboard.Store.Records.{append_raw}
use api_dashboard.Classin.Schemas.{Event, Model, parse_event}
use api_dashboard.Classin.Signing.{Digest, verify_webhook_safekey}
use api_dashboard.Store.Keys.Reach.{Reach, here}
use api_dashboard.Ingest.{ingest}
use api_dashboard.Ingest.Delivery.{ingest-Reach}
use api_dashboard.Webhook.{
  Body, parsed, not_json, unusable, ack, is_dict, ingested, receive, classin_webhook,
}

-- The body is no JSON at all, or a JSON object.
abbrev pub Acked : {R : Type 0} → Body R → Type 0
Acked (parsed raw) = is_dict raw ≡ true
Acked not_json = Unit
Acked unusable = ⊥

module _ {R : Type 0} (py : Python R) (digest : Digest)
    (validate : Model → Json R → Option (Event R)) (safekey : String) where
  -- `ingest` raises on what is no dict.
  ingest-raises :
      (now : String) (raw : Json R) (s : Store R)
      → is_dict raw ≡ false
      → (ingest py now validate raw s).1 ≡ false
  unfolding ingest parse_event is_dict
  ingest-raises now null s h = refl
  ingest-raises now (bool b) s h = refl
  ingest-raises now (int n) s h = refl
  ingest-raises now (real x) s h = refl
  ingest-raises now (str t) s h = refl
  ingest-raises now (arr vs) s h = refl
  ingest-raises now (obj fs) s h = ground (arith, h)

  -- The receiver answers ACK exactly if the body is no JSON or is a JSON object, whatever the
  -- event is, whether its SafeKey is good and whether ingest raises; every other body ends in a
  -- server error.
  pub classin_webhook-ack_iff :
      (now : String) (body : Body R) (s : Store R)
      → ((classin_webhook py digest validate safekey now body s).1 ≡ ack) ↔ Acked body
  unfolding classin_webhook receive ingested
  classin_webhook-ack_iff now (parsed raw) s =
      let t = append_raw now raw s in
      elim (Bool-cases (is_dict raw)) [
        | inl dict ↦ ground (arith, dict)
        | inr no_dict ↦ ground (arith, no_dict, ingest-raises now raw t no_dict)
      ]
  classin_webhook-ack_iff now not_json s = ground arith
  classin_webhook-ack_iff now unusable s = ground arith

  -- A handler's run is a history of statements.
  pub receive-Reach :
      (now : String) (raw : Json R) (s : Store R)
      → Reach s (receive py digest validate safekey now raw s).0
  unfolding receive ingested
  receive-Reach now raw s =
      let r = ingest-Reach py now validate raw s in
      elim (Bool-cases (nonempty safekey)) [
        | inl keyed ↦ elim (Bool-cases (is_dict raw)) [
          | inl dict ↦ elim (Bool-cases (verify_webhook_safekey py digest raw safekey)) [
            | inl good ↦ rw (keyed, dict, good) r
            | inr bad ↦ rw (keyed, dict, bad) here
          ]
          | inr no_dict ↦ rw (keyed, no_dict) here
        ]
        | inr unkeyed ↦ rw unkeyed r
      ]
