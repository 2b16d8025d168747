-- ===== src/Notify/Batch.antt =====
-- notify/dispatcher.py: a batch is recorded message by message, and no failure ends it.
use mathlib.Core.List.{append-nil, append_assoc}
use api_dashboard.Prelude.{
  inl, inr, ℕ, suc, ◌+◌, String, ◌≡◌, refl, ◌∙◌, sym, ap, Bool, true, false, Option, none, some,
  List, [], ◌∷◌, ◌++◌, length, arith, Option-cases,
}
use api_dashboard.Store.Rows.{Store, Notification}
use api_dashboard.Store.Records.{append_notification}
use api_dashboard.Notify.{
  OutgoingMessage, Sender, Counts, row, dispatch_one, dispatch_all, dispatch,
}

-- What became of a message: it was not meant to go out, it went out, or it did not.
pub data Outcome : Type 0 where
  dry sent : Outcome
  failed : String → Outcome

abbrev pub outcome : Bool → Option Sender → ℕ → OutgoingMessage → Outcome
outcome true sender k m = Outcome.dry
outcome false none k m = Outcome.dry
outcome false (some send) k m = elim (send k m) [
  | none ↦ Outcome.sent
  | some exc ↦ Outcome.failed exc
]

abbrev pub outcomes :
    Bool → Option Sender → ℕ → List OutgoingMessage → List (OutgoingMessage × Outcome)
outcomes dry_run sender k [] = []
outcomes dry_run sender k (m ∷ ms) =
    (m, outcome dry_run sender k m) ∷ outcomes dry_run sender (suc k) ms

-- How many of the outcomes are failures.
abbrev pub failures : List (OutgoingMessage × Outcome) → ℕ
failures [] = 0
failures ((m, Outcome.dry) ∷ os) = failures os
failures ((m, Outcome.sent) ∷ os) = failures os
failures ((m, Outcome.failed exc) ∷ os) = suc (failures os)

abbrev counted : Outcome → Counts → Counts
counted Outcome.dry c = record c { sent = c.sent + 1 }
counted Outcome.sent c = record c { sent = c.sent + 1 }
counted (Outcome.failed exc) c = record c { failed = c.failed + 1 }

-- The counts `d` are those of `c` and of the outcomes.
Tallied : Counts → List (OutgoingMessage × Outcome) → ℕ → Counts → Type 0
Tallied c os n d = (d.failed ≡ c.failed + failures os) × (d.sent + failures os ≡ c.sent + n)

Tallied-counted :
    (o : Outcome) (m : OutgoingMessage) (c d : Counts) (os : List (OutgoingMessage × Outcome))
    (n : ℕ)
    → Tallied (counted o c) os n d
    → Tallied c ((m, o) ∷ os) (suc n) d
unfolding Tallied
Tallied-counted Outcome.dry m c d os n (f, t) = (f, omega arith)
Tallied-counted Outcome.sent m c d os n (f, t) = (f, omega arith)
Tallied-counted (Outcome.failed exc) m c d os n (f, t) = (omega arith, omega arith)

module _ (shorten : String → String) (now event_type provider : String) where
  -- The row that tells of an outcome.
  abbrev pub told : OutgoingMessage × Outcome → Notification
  told (m, Outcome.dry) = row shorten now event_type "dry_run" "dry_run" none m
  told (m, Outcome.sent) = row shorten now event_type provider "sent" none m
  told (m, Outcome.failed exc) = row shorten now event_type provider "failed" (some (shorten exc)) m

  abbrev pub told_all : List (OutgoingMessage × Outcome) → List Notification
  told_all [] = []
  told_all (o ∷ os) = told o ∷ told_all os

  module _ {R : Type 0} where
    dispatch_one-outcome :
        (dry_run : Bool) (sender : Option Sender) (k : ℕ) (m : OutgoingMessage) (s : Store R)
        (c : Counts)
        → dispatch_one shorten now event_type dry_run sender provider k m (s, c) ≡ (
          append_notification (told (m, outcome dry_run sender k m)) s,
          counted (outcome dry_run sender k m) c,
        )
    unfolding dispatch_one
    dispatch_one-outcome true sender k m s c = refl
    dispatch_one-outcome false none k m s c = refl
    dispatch_one-outcome false (some send) k m s c = elim (Option-cases (send k m)) [
      | inl e ↦ rw e refl
      | inr (exc, e) ↦ rw e refl
    ]

  module _ {R : Type 0} (dry_run : Bool) (sender : Option Sender) where
    -- What is left after the k-th message and those that follow it.
    dispatch_all-outcomes :
        (k : ℕ) (ms : List OutgoingMessage) (s : Store R) (c : Counts)
        → let (t, d) = dispatch_all shorten now event_type dry_run sender provider k ms (s, c) in
          let os = outcomes dry_run sender k ms in
          (t ≡ record s { notify_history = s.notify_history ++ told_all os })
          × Tallied c os (length ms) d
    unfolding Tallied dispatch_all append_notification
    dispatch_all-outcomes k [] s c = (
      sym (ap (λ h. record s { notify_history = h }) (append-nil s.notify_history)),
      (omega arith, omega arith),
    )
    dispatch_all-outcomes k (m ∷ ms) s c =
        let o = outcome dry_run sender k m in
        let n = told (m, o) in
        let os = outcomes dry_run sender (suc k) ms in
        let (t, tallied) =
          dispatch_all-outcomes (suc k) ms (append_notification n s) (counted o c) in
        let told_after = append_assoc s.notify_history (n ∷ []) (told_all os) in
        rw (dispatch_all, dispatch_one-outcome dry_run sender k m s c)
          (
            t ∙ ap (λ h. record s { notify_history = h }) told_after,
            Tallied-counted o m c _ os (length ms) tallied,
          )

    -- Of a batch, one row for each message is added to the history, in order, that tells what
    -- became of it, also after a failure; the failed ones are the messages whose sending
    -- raised, and sent and failed together are as many as the messages.
    pub dispatch-outcomes :
        (ms : List OutgoingMessage) (s : Store R)
        → let (t, counts) = dispatch shorten now event_type ms dry_run sender provider s in
          let os = outcomes dry_run sender 0 ms in
          (t ≡ record s { notify_history = s.notify_history ++ told_all os })
          × (counts.failed ≡ failures os)
          × (counts.sent + counts.failed ≡ length ms)
    unfolding dispatch Tallied
    dispatch-outcomes ms s =
        let (t, (f, n)) = dispatch_all-outcomes 0 ms s (record { sent = 0; failed = 0 }) in
        (t, omega (arith, f), omega (arith, f, n))
