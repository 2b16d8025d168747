-- ===== src/Ingest/Once.antt =====
-- ingest.py and store.py: delivery is at least once, and a message is applied once.
use api_dashboard.Prelude.{
  ℕ, String, ◌≡◌, refl, inl, inr, Bool, true, ◌||◌, Option, none, some, [], ◌∷◌, any, any-append,
  arith, Bool-cases, ==_refl, option_eq, string_eq, nat_eq,
}
use api_dashboard.Json.{Json}
use api_dashboard.Python.{Python}
use api_dashboard.Store.Rows
use api_dashboard.Store.Rows.{Store, Branch, User}
use api_dashboard.Store.Records.{
  append_raw, same_message, insert_event, upsert_lesson_record, append_notification,
}
use api_dashboard.Store.Masters.{
  ensure_student, upsert_course, upsert_lesson, upsert_teacher, set_course_branch,
  set_teacher_branch,
}
use api_dashboard.Store.Accounts.{
  ok, upsert_branch, delete_branch, create_user, set_user_active, set_user_password,
}
use api_dashboard.Store.Keys.Reach.{Step, Reach, here, next}
use api_dashboard.Classin.Schemas.{Event, Model, parse_event}
use api_dashboard.Ingest.{event_row, store_and_apply, ingest}
use api_dashboard.Ingest.Columns.{message_id}
use api_dashboard.Ingest.Delivery.{apply_kind-Reach}

or-true : (a : Bool) → (a || true) ≡ true
or-true a = ground arith

module _ {R : Type 0} where
  -- The message has been stored.
  abbrev pub Seen : String → Store R → Type 0
  Seen m s = any (same_message (some m)) s.events ≡ true

  insert_event-Seen :
      (m : String) (e : Rows.Event R) (s : Store R) → Seen m s → Seen m (insert_event e s).0
  unfolding insert_event
  insert_event-Seen m e s h = elim (Bool-cases (any (same_message e.msg_id) s.events)) [
    | inl old ↦ rw old h
    | inr new ↦ rw (new, any-append (same_message (some m)) s.events (e ∷ []), h) refl
  ]

  insert_event-Seen_self :
      (m : String) (e : Rows.Event R) (s : Store R)
      → e.msg_id ≡ some m
      → Seen m (insert_event e s).0
  unfolding insert_event
  insert_event-Seen_self m e s h = elim (Bool-cases (any (same_message e.msg_id) s.events)) [
    | inl old ↦ rw old (rw h at old)
    | inr new ↦
        rw (new, any-append (same_message (some m)) s.events (e ∷ []), h, ==_refl m)
          (or-true (any (same_message (some m)) s.events))
  ]

  delete_branch-events : (id : ℕ) (s : Store R) → (delete_branch id s).0.events ≡ s.events
  unfolding delete_branch
  delete_branch-events id s = ground arith

  upsert_branch-events :
      (now : String) (new_id : ℕ) (name : String) (id : Option ℕ) (sid secret : Option String)
      (s s' : Store R) (n : ℕ)
      → upsert_branch now new_id name id sid secret s ≡ ok (s', n)
      → s'.events ≡ s.events
  unfolding upsert_branch
  upsert_branch-events now new_id name none sid secret s s' n e = ground arith
  upsert_branch-events now new_id name (some id) sid secret s s' n e = ground arith

  create_user-events :
      (now : String) (new_id : ℕ) (username hash role : String) (b t : Option ℕ) (s s' : Store R)
      (n : ℕ)
      → create_user now new_id username hash role b t s ≡ ok (s', n)
      → s'.events ≡ s.events
  unfolding create_user
  create_user-events now new_id username hash role b t s s' n e = ground arith

  Step-Seen : {s t : Store R} (m : String) → Step s t → Seen m s → Seen m t
  unfolding append_raw append_notification upsert_lesson_record ensure_student upsert_course
      upsert_lesson upsert_teacher set_course_branch set_teacher_branch set_user_active
      set_user_password
  Step-Seen m (Step.raw now payload) h = h
  Step-Seen {s} m (Step.event e) h = insert_event-Seen m e s h
  Step-Seen m (Step.lesson_record now id uid c cs) h = h
  Step-Seen m (Step.student uid name) h = h
  Step-Seen m (Step.course now id name t tn via) h = h
  Step-Seen m (Step.lesson new) h = h
  Step-Seen m (Step.teacher uid name) h = h
  Step-Seen m (Step.course_branch id b) h = h
  Step-Seen m (Step.teacher_branch uid b) h = h
  Step-Seen {s} m (Step.branch now new_id name id sid secret s' n fresh e) h =
      rw (upsert_branch-events now new_id name id sid secret s s' n e) h
  Step-Seen {s} m (Step.branch_gone id) h = rw (delete_branch-events id s) h
  Step-Seen {s} m (Step.user now new_id name hash role b t s' n fresh e) h =
      rw (create_user-events now new_id name hash role b t s s' n e) h
  Step-Seen m (Step.user_active id active) h = h
  Step-Seen m (Step.user_password id hash) h = h
  Step-Seen m (Step.notification n) h = h

  -- No statement removes an event.
  pub Reach-Seen : {s t : Store R} (m : String) → Reach s t → Seen m s → Seen m t
  Reach-Seen m here h = h
  Reach-Seen m (next r st) h = Step-Seen m st (Reach-Seen m r h)

module _ {R : Type 0} (py : Python R) (validate : Model → Json R → Option (Event R)) (raw : Json R)
    (m : String) (named : message_id py raw ≡ some m) where
  store_and_apply-Seen :
      (now : String) (e : Event R) (s : Store R) → Seen m (store_and_apply py now raw e s).0
  unfolding store_and_apply
  store_and_apply-Seen now e s =
      let row = event_row py now raw e in
      let stored = insert_event-Seen_self m row s named in
      elim (Bool-cases (insert_event row s).1) [
        | inl new ↦ rw new (Reach-Seen m (apply_kind-Reach py now e.base e.kind _) stored)
        | inr old ↦ rw old stored
      ]

  store_and_apply-again :
      (now : String) (e : Event R) (s : Store R)
      → Seen m s
      → store_and_apply py now raw e s ≡ (s, true)
  unfolding store_and_apply insert_event
  store_and_apply-again now e s seen = rw (named, seen)

  -- Once a push that has a message id has been parsed and ingested, any further delivery of it
  -- leaves the store as it is and returns, whatever statements have run between the two.
  pub ingest_again :
      (now now' : String) (e : Event R) (s t : Store R)
      → parse_event py validate raw ≡ some e
      → Reach (ingest py now validate raw s).0 t
      → ingest py now' validate raw t ≡ (t, true)
  unfolding ingest
  ingest_again now now' e s t parsed r =
      rw (parsed, ingest)
        (store_and_apply-again now' e t
          (Reach-Seen m r (rw (parsed, ingest) (store_and_apply-Seen now e s))))
