-- ===== src/Webhook.antt =====
-- web/routes_webhook.py: the receiver of ClassIn's pushes.
pub mod Acknowledge
pub mod Log
pub mod Received
use api_dashboard.Prelude.{String, Bool, true, false, ◌&&◌, not, Option, nonempty, if◌then◌else◌}
use api_dashboard.Json.{Json, obj}
use api_dashboard.Python.{Python}
use api_dashboard.Store.Rows.{Store}
use api_dashboard.Store.Records.{append_raw}
use api_dashboard.Classin.Schemas.{Event, Model}
use api_dashboard.Classin.Signing.{Digest, verify_webhook_safekey}
use api_dashboard.Ingest.{ingest}

-- What a body is to `json.loads` and `append_raw`: a value; no JSON (JSONDecodeError); or one at
-- which another exception leaves the handler, as bytes that are no UTF-8, a nesting too deep, or a
-- lone surrogate, which the log cannot be written with.
pub data Body (R : Type 0) : Type 0 where
  parsed : Json R → Body R
  not_json unusable : Body R

-- ACK, or the 500 of an exception that leaves the handler.
pub data Response : Type 0 where
  ack server_error : Response

-- `raw.get(...)` raises on what is no dict.
unfoldable pub is_dict : {R : Type 0} → Json R → Bool
is_dict (obj fs) = true
is_dict v = false

module _ {R : Type 0} (py : Python R) (digest : Digest)
    (validate : Model → Json R → Option (Event R)) (safekey : String) where
  -- The `try` around `ingest`; the message of its `except` reads `raw`.
  unfoldable pub ingested : String → Json R → Store R → Store R × Response
  ingested now raw s =
      let (s', returned) = ingest py now validate raw s in
      (s', if returned then ack else if is_dict raw then ack else server_error)

  unfoldable pub receive : String → Json R → Store R → Store R × Response
  receive now raw s =
      if not (nonempty safekey)
      then ingested now raw s
      else if not (is_dict raw)
      then (s, server_error)
      else if verify_webhook_safekey py digest raw safekey
      then ingested now raw s
      else (s, ack)

  unfoldable pub classin_webhook : String → Body R → Store R → Store R × Response
  classin_webhook now (parsed raw) s = receive now raw (append_raw now raw s)
  classin_webhook now not_json s = (s, ack)
  classin_webhook now unusable s = (s, server_error)
