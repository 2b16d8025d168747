-- ===== src/Tests/Deliveries.antt =====
-- A push that is delivered twice, and a run of the receiver with a SafeKey.
use api_dashboard.Prelude.{String, List, [], ◌∷◌, ◌++◌, ℕ, ◌≡◌, refl, ◌↔◌, true, none, some, In}
use api_dashboard.Json
use api_dashboard.Json.{Json, null, obj, str, field, end}
use api_dashboard.Store.Rows.{Store}
use api_dashboard.Store.Keys.{HasKeys}
use api_dashboard.Store.Keys.Reach.{Step, here, next, empty, empty-HasKeys, Reach-HasKeys}
use api_dashboard.Store.Masters.{ensure_student}
use api_dashboard.Classin.Schemas.{parse_event}
use api_dashboard.Classin.Signing.{verify_webhook_safekey}
use api_dashboard.Ingest.{ingest}
use api_dashboard.Ingest.Columns.{message_id}
use api_dashboard.Ingest.Once.{ingest_again}
use api_dashboard.Webhook.{Body, parsed, not_json, ack, is_dict, classin_webhook}
use api_dashboard.Webhook.Acknowledge.{classin_webhook-ack_iff}
use api_dashboard.Ingest.Logged.{with_log}
use api_dashboard.Ingest.Reported.{ingest_all}
use api_dashboard.Webhook.Received.{deliveries, receive_all, receive_all-ingest_all}
use api_dashboard.Webhook.Log.{classin_webhook-raw_log}
use api_dashboard.Tests.{py, digest, school, push, rating, validate}

Reach-HasKeys_example : HasKeys (ensure_student 5 (some "민수") (empty {R = ℕ}))
Reach-HasKeys_example = Reach-HasKeys empty-HasKeys (next here (Step.student 5 (some "민수")))

push_named : message_id py push ≡ some "m1"
unfolding message_id Json.get
push_named = refl

push_parsed : parse_event py validate push ≡ some rating
unfolding parse_event Json.lookup
push_parsed = refl

abbrev delivered : Store ℕ
delivered = (ingest py "t0" validate push school).0

-- Between the two deliveries a student is entered.
ingest_again_example :
    ingest py "t1" validate push (ensure_student 9 none delivered)
    ≡ (ensure_student 9 none delivered, true)
ingest_again_example =
    ingest_again py validate push "m1" push_named "t0" "t1" rating school
      (ensure_student 9 none delivered) push_parsed (next here (Step.student 9 none))

classin_webhook-ack_iff_example :
    ((classin_webhook py digest validate "key" "t0" (parsed push) school).1 ≡ ack)
    ↔ (is_dict push ≡ true)
classin_webhook-ack_iff_example =
    classin_webhook-ack_iff py digest validate "key" "t0" (parsed push) school

-- A push with the key that the digest gives.
abbrev signed_push : Json ℕ
signed_push = obj (
    field "_id" (str "m2") (
      field "Cmd" (str "Rating")
        (field "SafeKey" (str "md5-key1") (field "TimeStamp" (str "1") end))))

abbrev bodies : List (String × Body ℕ)
bodies = ("t0", parsed push) ∷ ("t1", not_json) ∷ ("t2", parsed signed_push) ∷ []

-- Only the second push is genuine.
delivered_bodies : deliveries py digest "key" bodies ≡ ("t2", signed_push) ∷ []
unfolding verify_webhook_safekey is_dict Json.get
delivered_bodies = refl

receive_all-ingest_all_example :
    receive_all py digest "key" validate bodies school
    ≡ with_log
        (school.raw_log ++ ("t0", push) ∷ ("t2", signed_push) ∷ [])
        (ingest_all py validate (deliveries py digest "key" bodies) school)
receive_all-ingest_all_example = receive_all-ingest_all py digest "key" validate bodies school

classin_webhook-raw_log_example :
    In ("t0", push) (classin_webhook py digest validate "key" "t0" (parsed push) school).0.raw_log
classin_webhook-raw_log_example =
    classin_webhook-raw_log py digest validate "key" "t0" push school
      (classin_webhook py digest validate "key" "t0" (parsed push) school).0 here

abbrev stayed : ℕ
stayed = 3180
