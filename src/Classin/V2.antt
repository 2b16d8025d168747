-- ===== src/Classin/V2.antt =====
-- classin/signing.py and classin/client.py: the signature of a v2 request, and call_v2. The HTTP client
-- and the length of a text in UTF-8 are parameters.
use Prim.Native.String.{◌++◌ as concat}
use api_dashboard.Prelude.{
  ℕ, String, Bool, true, false, Option, List, [], ◌∷◌, map, keep, any, put, get_or, ltb, sort,
  text_leb, nat_eq, string_eq, if◌then◌else◌,
}
use api_dashboard.Json.{Json, ℤ, null, bool, int, str, arr, obj, Fields, lookup}
use api_dashboard.Classin.Schemas.{first_true}
use api_dashboard.Classin.Client.{
  Sent, unreachable, response, Called, returned, failed, raised, Api, int_eq, transport, envelope,
  int_value,
}
use api_dashboard.Schedule.Names.{starts_with}

-- A body: the items of a dict, a key once.
abbrev pub Body : Type 0 → Type 0
Body R = List (String × Json R)

abbrev pub Headers : Type 0
Headers = List (String × String)

pub record JsonApi (R : Type 0) : Type 0 where
  pub api : Api R
  -- len(value.encode())
  pub bytes : String → ℕ
  pub post : String → Headers → Body R → Sent R

abbrev pub pair_text : String × String → String
pair_text (k, v) = concat k (concat "=" v)

-- "&".join
abbrev pub joined : Headers → String
joined [] = ""
joined (p ∷ []) = pair_text p
joined (p ∷ q ∷ ps) = concat (pair_text p) (concat "&" (joined (q ∷ ps)))

abbrev pub key_leb : String × String → String × String → Bool
key_leb p q = text_leb p.0 q.0

module _ {R : Type 0} (net : JsonApi R) where
  -- _should_include
  unfoldable pub should_include : Json R → Bool
  should_include (arr items) = false
  should_include (obj fields) = false
  should_include (str t) = if ltb 1024 (net.bytes t) then false else true
  should_include v = true

  -- _stringify
  unfoldable pub stringify : Json R → String
  stringify (bool true) = "true"
  stringify (bool false) = "false"
  stringify null = ""
  stringify v = net.api.python.str_of v

  -- {k: _stringify(v) for k, v in body.items() if _should_include(v)}
  abbrev pub signed_pairs : Body R → Headers
  signed_pairs body =
      map (λ (f : String × Json R). (f.0, stringify f.1))
        (keep (λ (f : String × Json R). should_include f.1) body)

  unfoldable pub build_signing_string : Body R → String → ℕ → String → String
  unfolding should_include stringify
  build_signing_string body sid timestamp secret =
      let pairs =
        put "timeStamp" (net.api.python.str timestamp) (put "sid" sid (signed_pairs body)) in
      concat (joined (sort key_leb pairs)) (concat "&key=" secret)

  -- The headers of a request, at an instant.
  unfoldable pub sign_v2 : Body R → String → String → ℕ → Headers
  unfolding build_signing_string
  sign_v2 body sid secret ts =
      ("X-EEO-UID", sid)
      ∷ ("X-EEO-TS", net.api.python.str ts)
      ∷ ("X-EEO-SIGN", net.api.md5 (build_signing_string body sid ts secret))
      ∷ ("Content-Type", "application/json")
      ∷ []

  abbrev pub normalized : String → String
  normalized path = if starts_with path "/" then path else concat "/" path

  -- The test of the code, and the data or the error.
  abbrev pub coded : List ℤ → Fields R → Called (Option (Json R))
  coded success_codes fields =
      let code = int_value net.api (get_or (lookup "code" fields) (int transport)) in
      if any (int_eq code) success_codes
      then returned (lookup "data" fields)
      else failed code (
          net.api.python.str_of (
            first_true net.api.python (lookup "msg" fields) (lookup "message" fields)
              (str "unknown")))

  abbrev pub decoded : List ℤ → Called (Fields R) → Called (Option (Json R))
  decoded success_codes (returned fields) = coded success_codes fields
  decoded success_codes (failed errno message) = failed errno message
  decoded success_codes raised = raised

  abbrev pub answered : List ℤ → Sent R → Called (Option (Json R))
  answered success_codes unreachable = raised
  answered success_codes (response status text json) =
      decoded success_codes (envelope net.api status text json)

  unfoldable pub call_v2 : String → String → ℕ → String → Body R → List ℤ → Called (Option (Json R))
  unfolding sign_v2 envelope first_true
  call_v2 sid secret ts path body success_codes =
      answered success_codes (net.post (normalized path) (sign_v2 body sid secret ts) body)
