-- ===== src/Ingest/Reported.antt =====
-- ingest.py with metrics.py: the rows of homework that was handed in, and the list of the missing.
use api_dashboard.Prelude.{
  ℕ, String, ◌≡◌, subst, true, false, Option, some, List, [], ◌∷◌, find-In, find-passes, In, In-map,
  any, any-In, Bool-cases, inl, inr, Distinct-same, ==_iff, arith, nat_eq, string_eq, pair_eq,
}
use api_dashboard.Json.{Json}
use api_dashboard.Python.{Python}
use api_dashboard.Scope.{Scope}
use api_dashboard.Store.Rows.{Store, LessonRecord}
use api_dashboard.Store.Records.{has_key, same_message, insert_event, patch_lesson_record}
use api_dashboard.Store.Keys.{HasKeys, record_key}
use api_dashboard.Store.Keys.Reach.{Reach-HasKeys}
use api_dashboard.Classin.Schemas.{Base, Party, Work, Kind, Event, Model, parse_event}
use api_dashboard.Metrics.{Numbers}
use api_dashboard.Metrics.Missing.{MissingRow, missing_homework_rows}
use api_dashboard.Metrics.Homework.{missing_homework_rows_iff}
use api_dashboard.Ingest.{submit_for, ingest_homework_submit, apply_kind, store_and_apply, ingest}
use api_dashboard.Ingest.Columns.{lesson_key, message_id}
use api_dashboard.Ingest.HandedIn.{HandedIn, upsert_lesson_record-hands_in}
use api_dashboard.Ingest.Delivered.{ingest-HandedIn}
use api_dashboard.Ingest.Delivery.{ingest-Reach}

module _ {R : Type 0} (py : Python R) (validate : Model → Json R → Option (Event R)) where
  -- Deliveries, each with the instant of it.
  unfoldable pub ingest_all : List (String × Json R) → Store R → Store R
  ingest_all [] s = s
  ingest_all ((now, raw) ∷ pushes) s = ingest_all pushes (ingest py now validate raw s).0

  ingest_all-HandedIn :
      (id : String) (uid : ℕ) (pushes : List (String × Json R)) (s : Store R)
      → HandedIn id uid s
      → HandedIn id uid (ingest_all pushes s)
  unfolding ingest_all
  ingest_all-HandedIn id uid [] s h = h
  ingest_all-HandedIn id uid ((now, raw) ∷ pushes) s h =
      ingest_all-HandedIn id uid pushes _ (ingest-HandedIn id uid py now validate raw s h)

  ingest_all-HasKeys :
      (pushes : List (String × Json R)) (s : Store R) → HasKeys s → HasKeys (ingest_all pushes s)
  unfolding ingest_all
  ingest_all-HasKeys [] s h = h
  ingest_all-HasKeys ((now, raw) ∷ pushes) s h =
      ingest_all-HasKeys pushes _ (Reach-HasKeys h (ingest-Reach py now validate raw s))

  submit_for-hands_in :
      (now : String) (b : Base) (w : Work R) (p : Party) (uid : ℕ) (s : Store R)
      → p.uid ≡ some uid
      → HandedIn (lesson_key py b (some w.activity_id)) uid (submit_for py now b w (some p) s)
  unfolding submit_for patch_lesson_record
  submit_for-hands_in now b w p uid s e =
      rw (e, submit_for) (upsert_lesson_record-hands_in _ uid now _ _ _ (tt, (tt, tt)))

  -- A new push of a submission hands the homework in.
  submission-HandedIn :
      (now : String) (raw : Json R) (s : Store R) (e : Event R) (w : Work R) (p : Party) (uid : ℕ)
      → parse_event py validate raw ≡ some e
      → e.kind ≡ Kind.homework_submit w
      → w.student_info ≡ some p
      → p.uid ≡ some uid
      → any (same_message (message_id py raw)) s.events ≡ false
      → HandedIn (lesson_key py e.base (some w.activity_id)) uid (ingest py now validate raw s).0
  unfolding ingest store_and_apply insert_event apply_kind ingest_homework_submit
  submission-HandedIn now raw s e w p uid parsed kind student has_uid new =
      let applied : (t : Store R)
          → HandedIn (lesson_key py e.base (some w.activity_id)) uid
              (apply_kind py now e.base e.kind t).0 =
        λ t. rw (kind, student) (submit_for-hands_in now e.base w p uid t has_uid) in
      rw (parsed, ingest) (rw new (applied _))

same_key :
    {R : Type 0} (id : String) (uid : ℕ) (r q : LessonRecord R)
    → has_key id uid r ≡ true
    → has_key id uid q ≡ true
    → record_key r ≡ record_key q
same_key id uid r q h k =
    let a : r.lesson_id ≡ q.lesson_id =
      ground (arith, h, k, ==_iff r.lesson_id id, ==_iff q.lesson_id id) in
    let b : r.student_uid ≡ q.student_uid =
      ground (arith, h, k, ==_iff r.student_uid uid, ==_iff q.student_uid uid) in
    λ i. (a i, b i)

HandedIn-reported :
    {R : Type 0} (num : Numbers R) (id : String) (uid : ℕ) (s : Store R) (scope : Scope)
    (since : String) (m : MissingRow R)
    → HandedIn id uid s
    → HasKeys s
    → In m (missing_homework_rows num s scope since)
    → ¬ (has_key id uid m.row ≡ true)
HandedIn-reported num id uid s scope since m (r, found, h) k listed there =
    let (here, _, _, _, open_yet) =
      (missing_homework_rows_iff s scope num since m.row).0
        (In-map (λ (x : MissingRow _). x.row) _ m listed) in
    let passes : has_key id uid r ≡ true = find-passes (has_key id uid) s.lesson_records found in
    let same : r ≡ m.row =
      Distinct-same record_key s.lesson_records k.lesson_records r m.row
        (find-In (has_key id uid) s.lesson_records r found) here
        (same_key id uid r m.row passes there) in
    open_yet (subst (λ (x : LessonRecord _). x.homework_submitted ≡ some 1) same h)

HandedIn-not_missing :
    {R : Type 0} (num : Numbers R) (id : String) (uid : ℕ) (s : Store R) (scope : Scope)
    (since : String)
    → HandedIn id uid s
    → HasKeys s
    → any (λ (m : MissingRow R). has_key id uid m.row) (missing_homework_rows num s scope since)
      ≡ false
HandedIn-not_missing num id uid s scope since h k =
    let test = λ (m : MissingRow _). has_key id uid m.row in
    elim (Bool-cases (any test (missing_homework_rows num s scope since))) [
      | inl some_row ↦
          let (m, listed, there) = any-In test _ some_row in
          absurd (HandedIn-reported num id uid s scope since m h k listed there)
      | inr no_row ↦ no_row
    ]

module _ {R : Type 0} (py : Python R) (validate : Model → Json R → Option (Event R)) where
  -- In a store with distinct keys, once a push that is parsed as the submission of a homework
  -- by a student with a uid, and whose message was not seen before, has been ingested, the
  -- report of missing homework has no row of that student and lesson, under any scope and for
  -- any window, whatever pushes are ingested afterwards.
  pub missing_homework_rows-ingest_all :
      (now : String) (raw : Json R) (s : Store R) (e : Event R) (w : Work R) (p : Party) (uid : ℕ)
      (pushes : List (String × Json R))
      → HasKeys s
      → parse_event py validate raw ≡ some e
      → e.kind ≡ Kind.homework_submit w
      → w.student_info ≡ some p
      → p.uid ≡ some uid
      → any (same_message (message_id py raw)) s.events ≡ false
      → (num : Numbers R) (scope : Scope) (since : String)
      → any
          (λ (m : MissingRow R). has_key (lesson_key py e.base (some w.activity_id)) uid m.row)
          (missing_homework_rows num
            (ingest_all py validate pushes (ingest py now validate raw s).0)
            scope
            since)
        ≡ false
  missing_homework_rows-ingest_all now raw s e w p uid pushes keys parsed kind student has_uid new
        num scope since =
      HandedIn-not_missing num (lesson_key py e.base (some w.activity_id)) uid _ scope since
        (ingest_all-HandedIn py validate _ uid pushes _
          (submission-HandedIn py validate now raw s e w p uid parsed kind student has_uid new))
        (ingest_all-HasKeys py validate pushes _
          (Reach-HasKeys keys (ingest-Reach py now validate raw s)))
