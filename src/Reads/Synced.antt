-- ===== src/Reads/Synced.antt =====
-- classin/reads.py: a sync, whatever ClassIn answers.
use api_dashboard.Prelude.{
  ℕ, String, refl, ◌∙◌, Option, none, some, List, [], ◌∷◌, coalesce, cons_some, ◌++◌, ◌==◌, ==_comm,
  nat_eq, string_eq, if◌then◌else◌, arith,
}
use api_dashboard.Prelude.Flow.{Flow, Ends, ◌>>=◌, >>=-Ends, Ends-weaken}
use api_dashboard.Json.{Json, Fields}
use api_dashboard.Store.Rows.{Store}
use api_dashboard.Reads.{
  Network, Sync, rows_answered, answer, course_list, course_classes, student_list, teacher_list,
  page_of, status_field, course_keys, class_body, class_keys, student_keys, teacher_keys,
}
use api_dashboard.Reads.Masters.{
  and_then, course_columns, save_course, sync_course_id, sync_course, course_id_of, sync_courses,
  sync_classes, sync_students, sync_teachers, begun, sync_masters,
}
use api_dashboard.Reads.Tagged.{branch_of, tagged, tagged-cons, branch_of-tag, Framed-tag}
use api_dashboard.Reads.Kept.{
  On, read-Ends, id_of, ids_of, Now, Off, Now-Off, tagged-Off, sync_classes-Ends,
  sync_students-Ends, sync_teachers-Ends,
}

module _ {R : Type 0} (net : Network R) (sid secret : String) (now : ℕ → String)
    (branch_id : Option ℕ) (s : Store R) where
  -- The branches after a course of the id was saved, if there was one.
  abbrev after : (ℕ → Option ℕ) → Option ℕ → ℕ → Option ℕ
  after g none i = g i
  after g (some k) i = if k == i then coalesce branch_id (g i) else g i

  after-Off :
      (g : ℕ → Option ℕ) (k : ℕ) (t : Store R)
      → Now net sid secret now branch_id s (after g (some k)) t
      → Off net sid secret now branch_id s g (k ∷ []) t
  after-Off g k t (f, b) = (f, λ id e. ground (arith, b id, ==_comm k id))

  save_course-Ends :
      (g : ℕ → Option ℕ) (k : ℕ) (columns : Option (Option String × Option ℕ)) (r : Sync R)
      → Now net sid secret now branch_id s g r.store
      → Ends
          (On (Now net sid secret now branch_id s (after g (some k))))
          (On (Off net sid secret now branch_id s g (k ∷ [])))
          (save_course net sid secret now branch_id k columns r)
  save_course-Ends g k none r h = Now-Off net sid secret now branch_id s g (k ∷ []) r.store h
  save_course-Ends g k (some (name, teacher)) r (f, b) = (
    Framed-tag s r.store (now r.calls) k name teacher none "api" branch_id f,
    λ id.
        branch_of-tag (now r.calls) k name teacher none "api" branch_id r.store id ∙ rw (b id) refl,
  )

  classes-Ends :
      (g : ℕ → Option ℕ) (k : ℕ) (r : Sync R)
      → Now net sid secret now branch_id s (after g (some k)) r.store
      → Ends
          (On (Now net sid secret now branch_id s (after g (some k))))
          (On (Off net sid secret now branch_id s g (k ∷ [])))
          (course_classes net sid secret k 100 (sync_classes net sid secret now branch_id k) r)
  unfolding course_classes
  classes-Ends g k r h =
      let P : Store R → Type 0 = Now net sid secret now branch_id s (after g (some k)) in
      let Q : Store R → Type 0 = Off net sid secret now branch_id s g (k ∷ []) in
      read-Ends P P Q net sid secret "getCourseClass" (class_body net sid secret k 100)
        (class_keys net sid secret) (sync_classes net sid secret now branch_id k) r h
        (after-Off g k)
        λ q h'.
          Ends-weaken (On P) (On P) (On P) (On Q) (sync_classes net sid secret now branch_id k _ q)
            (λ a x. x) (λ (a : Sync R) x. after-Off g k a.store x)
            (sync_classes-Ends net sid secret now branch_id s (after g (some k)) k _ q h')

  sync_course_id-Ends :
      (g : ℕ → Option ℕ) (c : Fields R) (id : Option ℕ) (r : Sync R)
      → Now net sid secret now branch_id s g r.store
      → Ends
          (On (Now net sid secret now branch_id s (after g id)))
          (On (Off net sid secret now branch_id s g (cons_some id [])))
          (sync_course_id net sid secret now branch_id c id r)
  sync_course_id-Ends g c none r h = Now-Off net sid secret now branch_id s g [] r.store h
  sync_course_id-Ends g c (some k) r h =
      let columns = course_columns net sid secret now branch_id c in
      >>=-Ends (On (Now net sid secret now branch_id s (after g (some k))))
        (On (Off net sid secret now branch_id s g (k ∷ [])))
        (On (Now net sid secret now branch_id s (after g (some k))))
        (save_course net sid secret now branch_id k columns r)
        (course_classes net sid secret k 100 (sync_classes net sid secret now branch_id k))
        (save_course-Ends g k columns r h) (classes-Ends g k)

  sync_course-Ends :
      (g : ℕ → Option ℕ) (c : Fields R) (v : Option (Json R)) (r : Sync R)
      → Now net sid secret now branch_id s g r.store
      → let id = and_then v (λ (j : Json R). net.api.python.to_int j) in
        Ends
          (On (Now net sid secret now branch_id s (after g id)))
          (On (Off net sid secret now branch_id s g (cons_some id [])))
          (sync_course net sid secret now branch_id c v r)
  sync_course-Ends g c none r h = h
  sync_course-Ends g c (some v) r h = sync_course_id-Ends g c _ r h

  Off-first :
      (g : ℕ → Option ℕ) (id : Option ℕ) (ids : List ℕ) (t : Store R)
      → Off net sid secret now branch_id s g (cons_some id []) t
      → Off net sid secret now branch_id s g (cons_some id ids) t
  Off-first g none ids t (f, b) = (f, λ i _. b i refl)
  Off-first g (some k) ids t (f, b) = (f, λ i e. b i (ground arith))

  Off-rest :
      (g : ℕ → Option ℕ) (id : Option ℕ) (ids : List ℕ) (t : Store R)
      → Off net sid secret now branch_id s (after g id) ids t
      → Off net sid secret now branch_id s g (cons_some id ids) t
  Off-rest g none ids t h = h
  Off-rest g (some k) ids t (f, b) = (f, λ i e. ground (arith, b i, ==_comm k i))

  Now-rest :
      (g : ℕ → Option ℕ) (id : Option ℕ) (ids : List ℕ) (t : Store R)
      → Now net sid secret now branch_id s (tagged branch_id ids (after g id)) t
      → Now net sid secret now branch_id s (tagged branch_id (cons_some id ids) g) t
  Now-rest g none ids t h = h
  Now-rest g (some k) ids t (f, b) = (f, λ i. b i ∙ tagged-cons branch_id k ids g i)

  abbrev ids : List (Fields R) → List ℕ
  ids = ids_of net sid secret now branch_id

  sync_courses-Ends :
      (cs : List (Fields R)) (g : ℕ → Option ℕ) (r : Sync R)
      → Now net sid secret now branch_id s g r.store
      → Ends
          (On (Now net sid secret now branch_id s (tagged branch_id (ids cs) g)))
          (On (Off net sid secret now branch_id s g (ids cs)))
          (sync_courses net sid secret now branch_id cs r)
  unfolding sync_courses
  sync_courses-Ends [] g r h = h
  sync_courses-Ends (c ∷ cs) g r h =
      let id = id_of net sid secret now branch_id c in
      let P : Sync R → Type 0 = On (Now net sid secret now branch_id s (after g id)) in
      let P' : Sync R → Type 0 =
        On (Now net sid secret now branch_id s (tagged branch_id (ids (c ∷ cs)) g)) in
      let Q : Sync R → Type 0 = On (Off net sid secret now branch_id s g (ids (c ∷ cs))) in
      let first =
        sync_course net sid secret now branch_id c (course_id_of net sid secret now branch_id c)
          r in
      >>=-Ends P Q P' first (sync_courses net sid secret now branch_id cs)
        (Ends-weaken P (On (Off net sid secret now branch_id s g (cons_some id []))) P Q first
          (λ a x. x) (λ (a : Sync R) x. Off-first g id (ids cs) a.store x)
          (sync_course-Ends g c (course_id_of net sid secret now branch_id c) r h))
        λ q h'.
          Ends-weaken
            (On (Now net sid secret now branch_id s (tagged branch_id (ids cs) (after g id))))
            (On (Off net sid secret now branch_id s (after g id) (ids cs))) P' Q
            (sync_courses net sid secret now branch_id cs q)
            (λ (a : Sync R) x. Now-rest g id (ids cs) a.store x)
            (λ (a : Sync R) x. Off-rest g id (ids cs) a.store x)
            (sync_courses-Ends cs (after g id) q h')

  -- The rows of the courses that ClassIn answers with, at the first call.
  abbrev pub listed : List (Fields R)
  listed = rows_answered (course_keys net sid secret) (
      answer net sid secret 0 "getCourseList"
        (page_of net sid secret 100 [] ++ status_field net sid secret none))

  pub sync_masters-Ends :
      Ends
        (On (Now net sid secret now branch_id s (tagged branch_id (ids listed) (branch_of s))))
        (On (Off net sid secret now branch_id s (branch_of s) (ids listed)))
        (sync_masters net sid secret now branch_id s)
  unfolding sync_masters course_list student_list teacher_list
  sync_masters-Ends =
      let g = branch_of s in
      let P : Store R → Type 0 =
        Now net sid secret now branch_id s (tagged branch_id (ids listed) g) in
      let Q : Store R → Type 0 = Off net sid secret now branch_id s g (ids listed) in
      let kept = tagged-Off net sid secret now branch_id s g (ids listed) in
      let weak = λ (m : Flow (Sync R)) (h : Ends (On P) (On P) m).
        Ends-weaken (On P) (On P) (On P) (On Q) m (λ a x. x) (λ (a : Sync R) x. kept a.store x) h in
      let courses =
        course_list net sid secret none 100 (sync_courses net sid secret now branch_id)
          (begun net sid secret now branch_id s) in
      let students = student_list net sid secret 100 (sync_students net sid secret now branch_id) in
      let teachers = teacher_list net sid secret 100 (sync_teachers net sid secret now branch_id) in
      >>=-Ends (On P) (On Q) (On P) (courses >>= students) teachers
        (>>=-Ends (On P) (On Q) (On P) courses students
          (read-Ends (Now net sid secret now branch_id s g) P Q net sid secret "getCourseList"
            (page_of net sid secret 100 [] ++ status_field net sid secret none)
            (course_keys net sid secret) (sync_courses net sid secret now branch_id)
            (begun net sid secret now branch_id s)
            ((refl, refl, refl, refl, refl, refl, λ _. refl), λ _. refl)
            (Now-Off net sid secret now branch_id s g (ids listed)) (sync_courses-Ends listed g))
          λ q h.
            read-Ends P P Q net sid secret "getStudentList" (page_of net sid secret 100 [])
              (student_keys net sid secret) (sync_students net sid secret now branch_id) q h kept
              λ p h'. weak _ (sync_students-Ends net sid secret now branch_id s _ _ p h'))
        λ q h.
          read-Ends P P Q net sid secret "getTeacherList" (page_of net sid secret 100 [])
            (teacher_keys net sid secret) (sync_teachers net sid secret now branch_id) q h kept
            λ p h'. weak _ (sync_teachers-Ends net sid secret now branch_id s _ _ p h')
