-- ===== src/Reads/Kept.antt =====
-- classin/reads.py: what the loops over classes, students and teachers leave as it is.
use api_dashboard.Prelude.{
  ℕ, ◌+◌, String, ◌≡◌, refl, ◌∙◌, false, Option, none, some, List, [], ◌∷◌, elem, collect, nat_eq,
  string_eq,
}
use api_dashboard.Prelude.Flow.{Flow, Ends, >>=-Ends}
use api_dashboard.Json.{Json, Fields}
use api_dashboard.Store.Rows.{Store, Lesson}
use api_dashboard.Store.Masters.{ensure_student, upsert_lesson, upsert_teacher}
use api_dashboard.Classin.Client.{Called, returned, failed, raised}
use api_dashboard.Reads.{Network, Sync, rows_answered, answer, tried, read}
use api_dashboard.Reads.Masters.{
  and_then, save_class, sync_class, sync_classes, course_id_of, save_student, sync_student,
  sync_students, save_teacher, sync_teacher, sync_teachers,
}
use api_dashboard.Reads.Tagged.{branch_of, Framed, tagged, Framed-upsert_teacher}

module _ {R : Type 0} where
  -- A sync whose store satisfies a predicate.
  abbrev pub On : (Store R → Type 0) → Sync R → Type 0
  On P r = P r.store

  tried-Ends :
      (P P' Q : Store R → Type 0) (net : Network R) (sid secret action : String)
      (keys : List String) (a : Called (Option (Json R)))
      (then_do : List (Fields R) → Sync R → Flow (Sync R)) (r : Sync R)
      → P r.store
      → ((t : Store R) → P t → Q t)
      → ((q : Sync R) → P q.store → Ends (On P') (On Q) (then_do (rows_answered keys a) q))
      → Ends (On P') (On Q) (tried net sid secret action keys a then_do r)
  tried-Ends P P' Q net sid secret action keys (returned d) then_do r p pq f = f r p
  tried-Ends P P' Q net sid secret action keys (failed e m) then_do r p pq f = f _ p
  tried-Ends P P' Q net sid secret action keys raised then_do r p pq f = pq r.store p

  pub read-Ends :
      (P P' Q : Store R → Type 0) (net : Network R) (sid secret action : String)
      (body : List (String × Json R)) (keys : List String)
      (then_do : List (Fields R) → Sync R → Flow (Sync R)) (r : Sync R)
      → P r.store
      → ((t : Store R) → P t → Q t)
      → ((q : Sync R)
          → P q.store
          → Ends
              (On P')
              (On Q)
              (then_do (rows_answered keys (answer net sid secret r.calls action body)) q))
      → Ends (On P') (On Q) (read net sid secret action body keys then_do r)
  read-Ends P P' Q net sid secret action body keys then_do r =
      tried-Ends P P' Q net sid secret action keys (answer net sid secret r.calls action body)
        then_do (record r { calls = r.calls + 1 })

module _ {R : Type 0} (net : Network R) (sid secret : String) (now : ℕ → String)
    (branch_id : Option ℕ) where
  -- The ids that the rows of courses hold.
  abbrev pub id_of : Fields R → Option ℕ
  id_of c =
      and_then (course_id_of net sid secret now branch_id c)
        (λ (v : Json R). net.api.python.to_int v)

  abbrev pub ids_of : List (Fields R) → List ℕ
  ids_of = collect id_of

  module _ (s : Store R) where
    -- The rest is as it was, and the branches of the courses are the given ones.
    abbrev pub Now : (ℕ → Option ℕ) → Store R → Type 0
    Now g t = Framed s t × ((id : ℕ) → branch_of t id ≡ g id)

    -- So are the branches of all courses but the named.
    abbrev pub Off : (ℕ → Option ℕ) → List ℕ → Store R → Type 0
    Off g ids t = Framed s t × ((id : ℕ) → elem id ids ≡ false → branch_of t id ≡ g id)

    pub Now-Off : (g : ℕ → Option ℕ) (ids : List ℕ) (t : Store R) → Now g t → Off g ids t
    Now-Off g ids t (f, b) = (f, λ id _. b id)

    pub tagged-Off :
        (g : ℕ → Option ℕ) (ids : List ℕ) (t : Store R)
        → Now (tagged branch_id ids g) t
        → Off g ids t
    tagged-Off g ids t (f, b) = (f, λ id e. b id ∙ rw e refl)

    module _ (g : ℕ → Option ℕ) where
      save_class-Ends :
          (new : Option Lesson) (r : Sync R)
          → Now g r.store
          → Ends (On (Now g)) (On (Now g)) (save_class net sid secret now branch_id new r)
      unfolding upsert_lesson
      save_class-Ends none r h = h
      save_class-Ends (some new) r h = h

      sync_class-Ends :
          (id : ℕ) (cl : Fields R) (lid : Option (Json R)) (r : Sync R)
          → Now g r.store
          → Ends (On (Now g)) (On (Now g)) (sync_class net sid secret now branch_id id cl lid r)
      sync_class-Ends id cl none r h = h
      sync_class-Ends id cl (some lid) r h = save_class-Ends _ r h

      pub sync_classes-Ends :
          (id : ℕ) (classes : List (Fields R)) (r : Sync R)
          → Now g r.store
          → Ends (On (Now g)) (On (Now g)) (sync_classes net sid secret now branch_id id classes r)
      unfolding sync_classes
      sync_classes-Ends id [] r h = h
      sync_classes-Ends id (cl ∷ classes) r h =
          >>=-Ends (On (Now g)) (On (Now g)) (On (Now g)) _ _ (sync_class-Ends id cl _ r h)
            (sync_classes-Ends id classes)

      save_student-Ends :
          (uid : Option ℕ) (name : Option (Option String)) (r : Sync R)
          → Now g r.store
          → Ends (On (Now g)) (On (Now g)) (save_student net sid secret now branch_id uid name r)
      unfolding ensure_student
      save_student-Ends none name r h = h
      save_student-Ends (some uid) none r h = h
      save_student-Ends (some uid) (some name) r h = h

      sync_student-Ends :
          (x : Fields R) (uid : Option (Json R)) (r : Sync R)
          → Now g r.store
          → Ends (On (Now g)) (On (Now g)) (sync_student net sid secret now branch_id x uid r)
      sync_student-Ends x none r h = h
      sync_student-Ends x (some uid) r h = save_student-Ends _ _ r h

      pub sync_students-Ends :
          (xs : List (Fields R)) (r : Sync R)
          → Now g r.store
          → Ends (On (Now g)) (On (Now g)) (sync_students net sid secret now branch_id xs r)
      unfolding sync_students
      sync_students-Ends [] r h = h
      sync_students-Ends (x ∷ xs) r h =
          >>=-Ends (On (Now g)) (On (Now g)) (On (Now g)) _ _ (sync_student-Ends x _ r h)
            (sync_students-Ends xs)

      save_teacher-Ends :
          (uid : Option ℕ) (name : Option (Option String)) (r : Sync R)
          → Now g r.store
          → Ends (On (Now g)) (On (Now g)) (save_teacher net sid secret now branch_id uid name r)
      save_teacher-Ends none name r h = h
      save_teacher-Ends (some uid) none r h = h
      save_teacher-Ends (some uid) (some name) r (frame, g') =
          (Framed-upsert_teacher s r.store uid name frame, unfold upsert_teacher in g')

      sync_teacher-Ends :
          (x : Fields R) (uid : Option (Json R)) (r : Sync R)
          → Now g r.store
          → Ends (On (Now g)) (On (Now g)) (sync_teacher net sid secret now branch_id x uid r)
      sync_teacher-Ends x none r h = h
      sync_teacher-Ends x (some uid) r h = save_teacher-Ends _ _ r h

      pub sync_teachers-Ends :
          (xs : List (Fields R)) (r : Sync R)
          → Now g r.store
          → Ends (On (Now g)) (On (Now g)) (sync_teachers net sid secret now branch_id xs r)
      unfolding sync_teachers
      sync_teachers-Ends [] r h = h
      sync_teachers-Ends (x ∷ xs) r h =
          >>=-Ends (On (Now g)) (On (Now g)) (On (Now g)) _ _ (sync_teacher-Ends x _ r h)
            (sync_teachers-Ends xs)
