-- ===== src/Classin/Client.antt =====
-- classin/client.py: call_v1 and verify_credentials, with sign_v1_safekey of classin/signing.py. The
-- HTTP client is a parameter.
use Prim.Native.String.{◌++◌ as concat}
use api_dashboard.Prelude.{
  ℕ, String, Bool, true, false, ◌||◌, Option, none, some, List, [], ◌∷◌, any, leb, put, get_or,
  ◌==◌, nat_eq, string_eq, if◌then◌else◌,
}
use api_dashboard.Json.{Json, ℤ, pos, negsuc, null, bool, int, str, arr, obj, Fields, lookup, end}
use api_dashboard.Python.{Python}
use api_dashboard.Classin.Schemas.{truth}
use api_dashboard.Schedule.Names.{prefix}
use api_dashboard.Schedule.Dates.{contains}

-- What becomes of a request: httpx raises, or there is a status, a text, and the JSON of it, if it is JSON.
pub data Sent (R : Type 0) : Type 0 where
  unreachable : Sent R
  response : (status : ℕ) (text : String) (json : Option (Json R)) → Sent R

-- The value, a ClassInError with its number and message, or another exception.
pub data Called (A : Type 0) : Type 0 where
  returned : A → Called A
  failed : (errno : ℤ) (message : String) → Called A
  raised : Called A

-- A v1 request: its action and its form.
abbrev pub FormBody : Type 0
FormBody = List (String × String)

-- Of the libraries: int(v), none where it raises TypeError or ValueError; repr of a JSON value, and its
-- compact text; str of an integer; the MD5 digest and str.lower; and the HTTP client.
pub record Api (R : Type 0) : Type 0 where
  pub python : Python R
  pub to_int : Json R → Option ℤ
  pub repr : Json R → String
  pub dumps : Json R → String
  pub shown : ℤ → String
  pub md5 : String → String
  pub lower : String → String
  pub post : String → FormBody → Sent R

abbrev pub int_eq : ℤ → ℤ → Bool
int_eq (pos m) (pos n) = m == n
int_eq (pos m) (negsuc n) = false
int_eq (negsuc m) (pos n) = false
int_eq (negsuc m) (negsuc n) = m == n

-- -1
abbrev pub transport : ℤ
transport = negsuc 0

module _ {R : Type 0} (api : Api R) where
  -- A field of a form; none where it is left out.
  abbrev pub form_text : Json R → Option String
  form_text null = none
  form_text (arr items) = some (api.dumps (arr items))
  form_text (obj fields) = some (api.dumps (obj fields))
  form_text (bool true) = some "1"
  form_text (bool false) = some "0"
  form_text v = some (api.python.str_of v)

  abbrev pub add_field : String → Option String → FormBody → FormBody
  add_field key none form = form
  add_field key (some text) form = (key, text) ∷ form

  -- _encode_v1_form
  unfoldable pub encode_v1_form : List (String × Json R) → FormBody
  encode_v1_form [] = []
  encode_v1_form ((key, v) ∷ body) = add_field key (form_text v) (encode_v1_form body)

  -- sign_v1_safekey, at an instant
  unfoldable pub sign_v1_safekey : String → ℕ → String
  sign_v1_safekey secret ts = api.md5 (concat secret (api.python.str ts))

  -- {"SID": ..., **body}
  abbrev pub update : List (String × Json R) → List (String × Json R) → List (String × Json R)
  update body [] = body
  update body ((key, v) ∷ more) = update (put key v body) more

  -- _int_value
  abbrev pub int_value : Json R → ℤ
  int_value v = get_or (api.to_int v) transport

  -- resp.json(), which has to be a dict.
  abbrev pub enveloped : String → Option (Json R) → Called (Fields R)
  enveloped text none = failed transport (concat "non-JSON response: " (prefix 400 text))
  enveloped text (some (obj fields)) = returned fields
  enveloped text (some v) = failed transport (concat "unexpected response shape: " (api.repr v))

  -- _envelope
  unfoldable pub envelope : ℕ → String → Option (Json R) → Called (Fields R)
  envelope status text json =
      if leb 400 status
      then failed transport
          (concat "HTTP " (concat (api.python.str status) (concat ": " (prefix 400 text))))
      else enveloped text json

  -- envelope.get("error_info") or {}, none where it is neither a dict nor false.
  abbrev pub error_fields : Option (Json R) → Option (Fields R)
  error_fields none = some end
  error_fields (some (obj fields)) = some fields
  error_fields (some v) = if truth api.python v then none else some end

  abbrev pub errno_of : Fields R → ℤ
  errno_of err = int_value (get_or (lookup "errno" err) (int transport))

  -- The test of the number, and the data or the error.
  abbrev pub judged : List ℤ → Fields R → Option (Fields R) → Called (Option (Json R))
  judged success_codes fields none = raised
  judged success_codes fields (some err) =
      if any (int_eq (errno_of err)) success_codes
      then returned (lookup "data" fields)
      else failed (errno_of err) (api.python.str_of (get_or (lookup "error" err) (str "unknown")))

  abbrev pub opened : List ℤ → Called (Fields R) → Called (Option (Json R))
  opened success_codes (returned fields) =
      judged success_codes fields (error_fields (lookup "error_info" fields))
  opened success_codes (failed errno message) = failed errno message
  opened success_codes raised = raised

  abbrev pub received : List ℤ → Sent R → Called (Option (Json R))
  received success_codes unreachable = raised
  received success_codes (response status text json) =
      opened success_codes (envelope status text json)

  unfoldable pub call_v1 :
      String → String → ℕ → String → List (String × Json R) → List ℤ → Called (Option (Json R))
  unfolding encode_v1_form sign_v1_safekey envelope
  call_v1 sid secret ts action body success_codes = received success_codes (
      api.post action (
        encode_v1_form (
          update
            (("SID", str sid)
              ∷ ("safeKey", str (sign_v1_safekey secret ts))
              ∷ ("timeStamp", int (pos ts))
              ∷ [])
            body)))

  abbrev pub probe : List (String × Json R)
  probe =
      ("courseId", int (pos 0))
      ∷ ("classId", int (pos 0))
      ∷ ("uid", str "0")
      ∷ ("telephone", str "0")
      ∷ ("deviceType", int (pos 1))
      ∷ ("lifeTime", int (pos 60))
      ∷ []

  abbrev pub markers : List String
  markers = "sign" ∷ "signature" ∷ "签名" ∷ "서명" ∷ []

  -- A rejection that is one of the signature.
  abbrev pub of_signature : ℤ → String → Bool
  of_signature errno message =
      int_eq errno (pos 101002005)
      || any (contains (api.lower (concat (api.shown errno) (concat " " message)))) markers

  -- What the answer says of the credentials; none where an exception leaves it.
  abbrev pub judged_credentials : Called (Option (Json R)) → Option (Bool × String)
  judged_credentials (returned d) = some (true, "ok")
  judged_credentials raised = none
  judged_credentials (failed errno message) =
      if of_signature errno message
      then some (false, concat "서명 오류 (SID/secret 확인, 서버 시계 ±5분): " message)
      else if int_eq errno transport
      then some (false, concat "ClassIn API 연결 실패: " message)
      else some (true, "ok")

  -- verify_credentials of the client of that SID and secret
  unfoldable pub verify_credentials : ℕ → String → String → Option (Bool × String)
  unfolding call_v1
  verify_credentials ts sid secret =
      judged_credentials (call_v1 sid secret ts "getLoginLinked" probe (pos 1 ∷ []))
