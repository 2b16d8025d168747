-- ===== src/Tests/Batches.antt =====
-- A batch of two messages, of which the first fails.
use api_dashboard.Prelude.{zero, suc, ℕ, ◌+◌, ◌≡◌, false, none, some, List, [], ◌∷◌, ◌++◌, length}
use api_dashboard.Notify.{OutgoingMessage, Sender, dispatch}
use api_dashboard.Notify.Batch.{outcomes, failures, told_all, dispatch-outcomes}
use api_dashboard.Tests.{school}

abbrev message_to : ℕ → OutgoingMessage
message_to uid = record { student_uid = uid; student_name = "민수"; message = "과제 미제출" }

abbrev batch : List OutgoingMessage
batch = message_to 5 ∷ message_to 6 ∷ []

abbrev send : Sender
send zero m = some "timeout"
send (suc k) m = none

dispatch-outcomes_example :
    let (t, counts) =
      dispatch (λ e. e) "t0" "missing_homework" batch false (some send) "sms" school in
    let os = outcomes false (some send) 0 batch in
    (t ≡ record school {
      notify_history = school.notify_history ++ told_all (λ e. e) "t0" "missing_homework" "sms" os;
    })
    × (counts.failed ≡ failures os)
    × (counts.sent + counts.failed ≡ length batch)
dispatch-outcomes_example =
    dispatch-outcomes (λ e. e) "t0" "missing_homework" "sms" false (some send) batch school
