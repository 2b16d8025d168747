-- ===== src/Webhook/Log.antt =====
-- web/routes_webhook.py and store.py: the raw log keeps every payload that was received.
use api_dashboard.Prelude.{
  ℕ, String, ◌≡◌, refl, inl, inr, Option, none, some, [], ◌∷◌, arith, In, In-append_iff, nat_eq,
}
use api_dashboard.Json.{Json}
use api_dashboard.Python.{Python}
use api_dashboard.Store.Rows
use api_dashboard.Store.Rows.{Store, Branch}
use api_dashboard.Store.Records.{
  append_raw, insert_event, upsert_lesson_record, append_notification,
}
use api_dashboard.Store.Masters.{
  ensure_student, upsert_course, upsert_lesson, upsert_teacher, set_course_branch,
  set_teacher_branch,
}
use api_dashboard.Store.Accounts.{
  ok, upsert_branch, delete_branch, create_user, set_user_active, set_user_password,
}
use api_dashboard.Store.Keys.Reach.{Step, Reach, here, next}
use api_dashboard.Classin.Schemas.{Event, Model}
use api_dashboard.Classin.Signing.{Digest}
use api_dashboard.Webhook.{parsed, classin_webhook}
use api_dashboard.Webhook.Acknowledge.{receive-Reach}

module _ {R : Type 0} where
  insert_event-raw_log : (e : Rows.Event R) (s : Store R) → (insert_event e s).0.raw_log ≡ s.raw_log
  unfolding insert_event
  insert_event-raw_log e s = ground arith

  delete_branch-raw_log : (id : ℕ) (s : Store R) → (delete_branch id s).0.raw_log ≡ s.raw_log
  unfolding delete_branch
  delete_branch-raw_log id s = ground arith

  upsert_branch-raw_log :
      (now : String) (new_id : ℕ) (name : String) (id : Option ℕ) (sid secret : Option String)
      (s s' : Store R) (n : ℕ)
      → upsert_branch now new_id name id sid secret s ≡ ok (s', n)
      → s'.raw_log ≡ s.raw_log
  unfolding upsert_branch
  upsert_branch-raw_log now new_id name none sid secret s s' n e = ground arith
  upsert_branch-raw_log now new_id name (some id) sid secret s s' n e = ground arith

  create_user-raw_log :
      (now : String) (new_id : ℕ) (username hash role : String) (b t : Option ℕ) (s s' : Store R)
      (n : ℕ)
      → create_user now new_id username hash role b t s ≡ ok (s', n)
      → s'.raw_log ≡ s.raw_log
  unfolding create_user
  create_user-raw_log now new_id username hash role b t s s' n e = ground arith

  Step-raw : {s t : Store R} (x : String × Json R) → Step s t → In x s.raw_log → In x t.raw_log
  unfolding append_raw append_notification upsert_lesson_record ensure_student upsert_course
      upsert_lesson upsert_teacher set_course_branch set_teacher_branch set_user_active
      set_user_password
  Step-raw {s} x (Step.raw now payload) h =
      (In-append_iff s.raw_log ((now, payload) ∷ []) x).1 (inl h)
  Step-raw {s} x (Step.event e) h = rw (insert_event-raw_log e s) h
  Step-raw x (Step.lesson_record now id uid c cs) h = h
  Step-raw x (Step.student uid name) h = h
  Step-raw x (Step.course now id name t tn via) h = h
  Step-raw x (Step.lesson new) h = h
  Step-raw x (Step.teacher uid name) h = h
  Step-raw x (Step.course_branch id b) h = h
  Step-raw x (Step.teacher_branch uid b) h = h
  Step-raw {s} x (Step.branch now new_id name id sid secret s' n fresh e) h =
      rw (upsert_branch-raw_log now new_id name id sid secret s s' n e) h
  Step-raw {s} x (Step.branch_gone id) h = rw (delete_branch-raw_log id s) h
  Step-raw {s} x (Step.user now new_id name hash role b t s' n fresh e) h =
      rw (create_user-raw_log now new_id name hash role b t s s' n e) h
  Step-raw x (Step.user_active id active) h = h
  Step-raw x (Step.user_password id hash) h = h
  Step-raw x (Step.notification n) h = h

  append_raw-In :
      (now : String) (raw : Json R) (s : Store R) → In (now, raw) (append_raw now raw s).raw_log
  unfolding append_raw
  append_raw-In now raw s =
      (In-append_iff s.raw_log ((now, raw) ∷ []) (now, raw)).1 (inr (inl refl))

  pub Reach-raw :
      {s t : Store R} (x : String × Json R) → Reach s t → In x s.raw_log → In x t.raw_log
  Reach-raw x here h = h
  Reach-raw x (next r st) h = Step-raw x st (Reach-raw x r h)

  -- Every JSON value that the receiver was given is in the raw log, whatever the answer was and
  -- whatever statements have run since.
  pub classin_webhook-raw_log :
      (py : Python R) (digest : Digest) (validate : Model → Json R → Option (Event R))
      (safekey now : String) (raw : Json R) (s t : Store R)
      → Reach (classin_webhook py digest validate safekey now (parsed raw) s).0 t
      → In (now, raw) t.raw_log
  unfolding classin_webhook
  classin_webhook-raw_log py digest validate safekey now raw s t r =
      let logged = append_raw-In now raw s in
      Reach-raw (now, raw) r
        (Reach-raw (now, raw)
          (receive-Reach py digest validate safekey now raw (append_raw now raw s)) logged)
