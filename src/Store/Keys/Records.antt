-- ===== src/Store/Keys/Records.antt =====
-- store.py: the statements on events, lesson records and masters keep the keys distinct.
use api_dashboard.Prelude.{
  ℕ, String, ◌≡◌, refl, false, Option, none, some, List, [], ◌∷◌, ◌++◌, inl, inr, ◌∙◌, nonempty,
  any, any-append, Distinct, upsert-Distinct, update-Distinct, arith, ==_comm, Bool-cases, nat_eq,
  string_eq, option_eq, pair_eq,
}
use api_dashboard.Store.Rows.{Store, Event, LessonRecord, blank, Student, Course, Lesson, Teacher}
use api_dashboard.Store.Columns.{Column, assign, assign_all}
use api_dashboard.Store.Records.{insert_event, same_message, set_columns, upsert_lesson_record}
use api_dashboard.Store.Masters.{
  ensure_student, backfill, upsert_course, upsert_lesson, upsert_teacher, set_course_branch,
  set_teacher_branch,
}
use api_dashboard.Store.Keys.{
  HasKeys, DistinctMessages, record_key, lesson_records-HasKeys, students-HasKeys, courses-HasKeys,
  lessons-HasKeys, teachers-HasKeys,
}

backfill-Distinct :
    (uid : ℕ) (name : Option String) (xs : List Student)
    → Distinct (λ (x : Student). x.uid) xs
    → Distinct (λ (x : Student). x.uid) (backfill uid name xs)
backfill-Distinct uid none xs h = h
backfill-Distinct uid (some name) xs h = elim (Bool-cases (nonempty name)) [
  | inl e ↦ rw e (update-Distinct (λ (x : Student). x.uid) _ _ (λ x. refl) xs h)
  | inr e ↦ rw e h
]

module _ {R : Type 0} where
  append-DistinctMessages :
      (new : Event R) (es : List (Event R))
      → DistinctMessages es
      → any (same_message new.msg_id) es ≡ false
      → DistinctMessages (es ++ new ∷ [])
  append-DistinctMessages new [] h fresh = (refl, tt)
  append-DistinctMessages new (e ∷ es) h fresh = ground (
    arith,
    any-append (same_message e.msg_id) es (new ∷ []),
    append-DistinctMessages new es h.1,
    ==_comm new.msg_id e.msg_id,
  )

  pub insert_event-HasKeys : (e : Event R) (s : Store R) → HasKeys s → HasKeys (insert_event e s).0
  unfolding insert_event
  insert_event-HasKeys e s h = elim (Bool-cases (any (same_message e.msg_id) s.events)) [
    | inl seen ↦ rw seen h
    | inr new ↦ rw new (assumption (append-DistinctMessages e s.events h.events new))
  ]

  assign-key : (c : Column R) (r : LessonRecord R) → record_key (assign c r) ≡ record_key r
  unfolding assign
  assign-key (Column.course_id v) r = refl
  assign-key _ r = refl

  assign_all-key :
      (cs : List (Column R)) (r : LessonRecord R) → record_key (assign_all cs r) ≡ record_key r
  unfolding assign_all
  assign_all-key [] r = refl
  assign_all-key (c ∷ cs) r = assign_all-key cs (assign c r) ∙ assign-key c r

  pub set_columns-key :
      (now : String) (cs : List (Column R)) (r : LessonRecord R)
      → record_key (set_columns now cs r) ≡ record_key r
  unfolding set_columns
  set_columns-key now cs r = assign_all-key cs r

  pub upsert_lesson_record-HasKeys :
      (now lesson_id : String) (student_uid : ℕ) (c : Column R) (cs : List (Column R)) (s : Store R)
      → HasKeys s
      → HasKeys (upsert_lesson_record now lesson_id student_uid c cs s)
  unfolding upsert_lesson_record
  upsert_lesson_record-HasKeys now lesson_id student_uid c cs s h =
      lesson_records-HasKeys s _
        (upsert-Distinct record_key (lesson_id, student_uid) _ _ (set_columns-key now (c ∷ cs))
          (set_columns-key now (c ∷ cs) (blank lesson_id student_uid)) s.lesson_records
          h.lesson_records)
        h

  pub ensure_student-HasKeys :
      (uid : ℕ) (name : Option String) (s : Store R)
      → HasKeys s
      → HasKeys (ensure_student uid name s)
  unfolding ensure_student
  ensure_student-HasKeys uid name s h =
      students-HasKeys s _
        (backfill-Distinct uid name _
          (upsert-Distinct (λ (x : Student). x.uid) uid _ _ (λ x. refl) refl s.students h.students))
        h

  pub upsert_course-HasKeys :
      (now : String) (id : ℕ) (name : Option String) (t : Option ℕ) (tn : Option String)
      (via : String) (s : Store R)
      → HasKeys s
      → HasKeys (upsert_course now id name t tn via s)
  unfolding upsert_course
  upsert_course-HasKeys now id name t tn via s h =
      courses-HasKeys s _
        (upsert-Distinct (λ (c : Course). c.course_id) id _ _ (λ c. refl) refl s.courses h.courses)
        h

  pub upsert_lesson-HasKeys :
      (new : Lesson) (s : Store R) → HasKeys s → HasKeys (upsert_lesson new s)
  unfolding upsert_lesson
  upsert_lesson-HasKeys new s h =
      lessons-HasKeys s _
        (upsert-Distinct (λ (l : Lesson). l.lesson_id) new.lesson_id _ new (λ l. refl) refl
          s.lessons h.lessons)
        h

  pub upsert_teacher-HasKeys :
      (uid : ℕ) (name : Option String) (s : Store R)
      → HasKeys s
      → HasKeys (upsert_teacher uid name s)
  unfolding upsert_teacher
  upsert_teacher-HasKeys uid name s h =
      teachers-HasKeys s _
        (upsert-Distinct (λ (t : Teacher). t.uid) uid _ _ (λ t. refl) refl s.teachers h.teachers) h

  pub set_course_branch-HasKeys :
      (id : ℕ) (b : Option ℕ) (s : Store R) → HasKeys s → HasKeys (set_course_branch id b s)
  unfolding set_course_branch
  set_course_branch-HasKeys id b s h =
      courses-HasKeys s _
        (update-Distinct (λ (c : Course). c.course_id) _ _ (λ c. refl) s.courses h.courses) h

  pub set_teacher_branch-HasKeys :
      (uid : ℕ) (b : Option ℕ) (s : Store R) → HasKeys s → HasKeys (set_teacher_branch uid b s)
  unfolding set_teacher_branch
  set_teacher_branch-HasKeys uid b s h =
      teachers-HasKeys s _
        (update-Distinct (λ (t : Teacher). t.uid) _ _ (λ t. refl) s.teachers h.teachers) h
