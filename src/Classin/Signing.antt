-- ===== src/Classin/Signing.antt =====
-- verify_webhook_safekey of classin/signing.py. The MD5 hex digest of a text and `str.lower` are
-- parameters.
use Prim.Native.String.{◌++◌ as concat}
use api_dashboard.Prelude.{String, Bool, false, ◌||◌, not, ◌==◌, string_eq, if◌then◌else◌}
use api_dashboard.Json
use api_dashboard.Json.{Json, null, str}
use api_dashboard.Python.{Python}
use api_dashboard.Classin.Schemas.{truth, first_true}

pub record Digest : Type 0 where
  pub md5 : String → String
  pub lower : String → String

module _ {R : Type 0} (py : Python R) (digest : Digest) where
  -- What the payload says its SafeKey is, and the instant that it was made for.
  abbrev pub sent_key : Json R → Json R
  sent_key body = first_true py (Json.get "SafeKey" body) (Json.get "safeKey" body) null

  abbrev pub sent_time : Json R → Json R
  sent_time body = first_true py (Json.get "TimeStamp" body) (Json.get "timeStamp" body) (str "")

  unfoldable pub expected_key : String → Json R → String
  expected_key secret ts = digest.md5 (concat secret (py.str_of ts))

  unfoldable pub verify_webhook_safekey : Json R → String → Bool
  unfolding truth first_true expected_key
  verify_webhook_safekey body secret =
      let sent = sent_key body in
      let ts = sent_time body in
      if not (truth py sent) || not (truth py ts)
      then false
      else digest.lower (py.str_of sent) == expected_key secret ts
