-- ===== src/Notify.antt =====
-- notify/dispatcher.py: the messages of a batch, and what the history says of them.
pub mod Batch
pub mod Copy
pub mod Requests
pub mod Groups
pub mod Told
pub mod Previewed
use api_dashboard.Prelude.{
  ℕ, suc, true, false, ◌+◌, String, Bool, Option, none, some, List, [], ◌∷◌,
}
use api_dashboard.Store.Rows.{Store, Notification}
use api_dashboard.Store.Records.{append_notification}

pub record OutgoingMessage : Type 0 where
  pub student_uid : ℕ
  pub student_name : String
  pub message : String

-- What the call of the sender for the k-th message does: none, or `str(exc)` of what it raised.
abbrev pub Sender : Type 0
Sender = ℕ → OutgoingMessage → Option String

-- {"sent": sent, "failed": failed}
pub record Counts : Type 0 where
  pub sent : ℕ
  pub failed : ℕ

-- The store, and the counts so far.
abbrev pub Progress : Type 0 → Type 0
Progress R = Store R × Counts

-- append_notification, and `sent += 1` or `failed += 1`.
abbrev pub count_sent : {R : Type 0} → Notification → Progress R → Progress R
count_sent n (s, c) = (append_notification n s, record c { sent = c.sent + 1 })

abbrev pub count_failed : {R : Type 0} → Notification → Progress R → Progress R
count_failed n (s, c) = (append_notification n s, record c { failed = c.failed + 1 })

-- `shorten` is str(exc)[:500]; `now` is the instant of the rows.
module _ (shorten : String → String) (now event_type : String) where
  abbrev pub row : String → String → Option String → OutgoingMessage → Notification
  row provider status error m = record {
    created_at = now;
    event_type = event_type;
    provider = provider;
    status = status;
    student_uid = some m.student_uid;
    student_name = some m.student_name;
    message = some m.message;
    error = error;
  }

  module _ {R : Type 0} where
    -- The body of the loop, on the k-th message.
    unfoldable pub dispatch_one :
        Bool → Option Sender → String → ℕ → OutgoingMessage → Progress R → Progress R
    dispatch_one true sender provider k m p = count_sent (row "dry_run" "dry_run" none m) p
    dispatch_one false none provider k m p = count_sent (row "dry_run" "dry_run" none m) p
    dispatch_one false (some send) provider k m p = elim (send k m) [
      | none ↦ count_sent (row provider "sent" none m) p
      | some exc ↦ count_failed (row provider "failed" (some (shorten exc)) m) p
    ]

    unfoldable pub dispatch_all :
        Bool → Option Sender → String → ℕ → List OutgoingMessage → Progress R → Progress R
    unfolding dispatch_one
    dispatch_all dry_run sender provider k [] p = p
    dispatch_all dry_run sender provider k (m ∷ ms) p =
        dispatch_all dry_run sender provider (suc k) ms (dispatch_one dry_run sender provider k m p)

    unfoldable pub dispatch :
        List OutgoingMessage → Bool → Option Sender → String → Store R → Store R × Counts
    unfolding dispatch_all
    dispatch messages dry_run sender provider s =
        dispatch_all dry_run sender provider 0 messages (s, record { sent = 0; failed = 0 })
