-- ===== src/Reads/Masters.antt =====
-- classin/reads.py: sync_masters, and the request of web/routes_dashboard.py that runs it.
use api_dashboard.Prelude.{
  ℕ, ◌+◌, String, Option, none, some, List, [], ◌∷◌, ◌==◌, nat_eq, string_eq, if◌then◌else◌,
}
use api_dashboard.Prelude.Flow.{Flow, go, crash, ◌>>=◌}
use api_dashboard.Json.{Json, null, Fields, lookup}
use api_dashboard.Session.{Session}
use api_dashboard.Store.Rows.{Store, Lesson}
use api_dashboard.Store.Masters.{
  ensure_student, upsert_course, upsert_lesson, upsert_teacher, set_course_branch,
}
use api_dashboard.Logon.{AppState, client_for}
use api_dashboard.Reads.{Network, Sync, course_list, course_classes, student_list, teacher_list}

module _ {R : Type 0} where
  -- A value that is not None.
  abbrev pub not_none : Option (Json R) → Option (Json R)
  not_none none = none
  not_none (some null) = none
  not_none (some v) = some v

  -- _pick
  unfoldable pub pick : List String → Fields R → Option (Json R)
  pick [] row = none
  pick (k ∷ keys) row = elim (not_none (lookup k row)) [ none ↦ pick keys row | some v ↦ some v ]

-- Of a value that was picked, what is bound; none where the binding raises.
abbrev pub bound : {A B : Type 0} → (A → Option B) → Option A → Option (Option B)
bound f none = some none
bound f (some v) = elim (f v) [ none ↦ none | some x ↦ some (some x) ]

abbrev pub and_then : {A B : Type 0} → Option A → (A → Option B) → Option B
and_then none f = none
and_then (some a) f = f a

-- set_course_branch, where a branch is given.
abbrev pub tag : {R : Type 0} → ℕ → Option ℕ → Store R → Store R
tag course_id none s = s
tag course_id (some b) s = set_course_branch course_id (some b) s

module _ {R : Type 0} (net : Network R) (sid secret : String) (now : ℕ → String)
    (branch_id : Option ℕ) where
  -- The row of the upsert_lesson call, where every value can be bound.
  abbrev pub class_row : String → ℕ → Json R → Fields R → Option Lesson
  class_row at course_id lid cl =
      and_then (bound net.bind_text (pick ("className" ∷ "class_name" ∷ "name" ∷ []) cl)) λ title.
        and_then (bound net.bind_int (pick ("beginTime" ∷ "begin_time" ∷ "startTime" ∷ []) cl))
          λ start. and_then (bound net.bind_int (pick ("endTime" ∷ "end_time" ∷ []) cl)) λ finish.
            and_then (bound net.bind_int (pick ("teacherUid" ∷ "teacher_uid" ∷ []) cl)) λ teacher.
              some (record {
                lesson_id = net.api.python.str_of lid;
                course_id = some course_id;
                title = title;
                start_time = start;
                end_time = finish;
                teacher_uid = teacher;
                homework_activity_id = none;
                created_via = some "api";
                created_at = some at;
              })

  abbrev pub save_class : Option Lesson → Sync R → Flow (Sync R)
  save_class none r = crash r
  save_class (some new) r =
      go (record r { store = upsert_lesson new r.store; lessons = r.lessons + 1 })

  abbrev pub sync_class : ℕ → Fields R → Option (Json R) → Sync R → Flow (Sync R)
  sync_class course_id cl none r = go r
  sync_class course_id cl (some lid) r = save_class (class_row (now r.calls) course_id lid cl) r

  unfoldable pub sync_classes : ℕ → List (Fields R) → Sync R → Flow (Sync R)
  unfolding pick
  sync_classes course_id [] r = go r
  sync_classes course_id (cl ∷ classes) r =
      sync_class course_id cl (pick ("classId" ∷ "class_id" ∷ "id" ∷ []) cl) r
      >>= sync_classes course_id classes

  -- The name and the teacher of a course, where both can be bound.
  abbrev pub course_columns : Fields R → Option (Option String × Option ℕ)
  course_columns c =
      and_then (bound net.bind_text (pick ("courseName" ∷ "course_name" ∷ "name" ∷ []) c)) λ name.
        and_then (bound net.bind_int (pick ("mainTeacherUid" ∷ "teacherUid" ∷ []) c))
          λ teacher. some (name, teacher)

  abbrev pub save_course : ℕ → Option (Option String × Option ℕ) → Sync R → Flow (Sync R)
  save_course course_id none r = crash r
  save_course course_id (some (name, teacher)) r = go (record r {
    store =
        tag course_id branch_id
          (upsert_course (now r.calls) course_id name teacher none "api" r.store);
    courses = r.courses + 1;
  })

  -- `int(cid)`, and the rest of the body of the loop.
  abbrev pub sync_course_id : Fields R → Option ℕ → Sync R → Flow (Sync R)
  sync_course_id c none r = crash r
  sync_course_id c (some course_id) r =
      save_course course_id (course_columns c) r
      >>= course_classes net sid secret course_id 100 (sync_classes course_id)

  abbrev pub sync_course : Fields R → Option (Json R) → Sync R → Flow (Sync R)
  sync_course c none r = go r
  sync_course c (some cid) r = sync_course_id c (net.api.python.to_int cid) r

  abbrev pub course_id_of : Fields R → Option (Json R)
  course_id_of = pick ("courseId" ∷ "course_id" ∷ "id" ∷ [])

  unfoldable pub sync_courses : List (Fields R) → Sync R → Flow (Sync R)
  unfolding pick sync_classes course_classes
  sync_courses [] r = go r
  sync_courses (c ∷ courses) r = sync_course c (course_id_of c) r >>= sync_courses courses

  abbrev pub save_student : Option ℕ → Option (Option String) → Sync R → Flow (Sync R)
  save_student none name r = crash r
  save_student (some uid) none r = crash r
  save_student (some uid) (some name) r =
      go (record r { store = ensure_student uid name r.store; students = r.students + 1 })

  abbrev pub sync_student : Fields R → Option (Json R) → Sync R → Flow (Sync R)
  sync_student x none r = go r
  sync_student x (some uid) r =
      save_student (net.api.python.to_int uid)
        (bound net.bind_text (pick ("studentName" ∷ "student_name" ∷ "name" ∷ []) x)) r

  unfoldable pub sync_students : List (Fields R) → Sync R → Flow (Sync R)
  unfolding pick
  sync_students [] r = go r
  sync_students (x ∷ students) r =
      sync_student x (pick ("studentUid" ∷ "student_uid" ∷ "uid" ∷ "id" ∷ []) x) r
      >>= sync_students students

  abbrev pub save_teacher : Option ℕ → Option (Option String) → Sync R → Flow (Sync R)
  save_teacher none name r = crash r
  save_teacher (some uid) none r = crash r
  save_teacher (some uid) (some name) r =
      go (record r { store = upsert_teacher uid name r.store; teachers = r.teachers + 1 })

  abbrev pub sync_teacher : Fields R → Option (Json R) → Sync R → Flow (Sync R)
  sync_teacher t none r = go r
  sync_teacher t (some uid) r =
      save_teacher (net.api.python.to_int uid)
        (bound net.bind_text (pick ("teacherName" ∷ "teacher_name" ∷ "name" ∷ []) t)) r

  unfoldable pub sync_teachers : List (Fields R) → Sync R → Flow (Sync R)
  unfolding pick
  sync_teachers [] r = go r
  sync_teachers (t ∷ teachers) r =
      sync_teacher t (pick ("teacherUid" ∷ "teacher_uid" ∷ "uid" ∷ "id" ∷ []) t) r
      >>= sync_teachers teachers

  -- A sync before its first call.
  abbrev pub begun : Store R → Sync R
  begun s = record {
    store = s;
    calls = 0;
    last_errors = [];
    courses = 0;
    lessons = 0;
    students = 0;
    teachers = 0;
  }

  unfoldable pub sync_masters : Store R → Flow (Sync R)
  unfolding course_list student_list teacher_list sync_courses sync_students sync_teachers
  sync_masters s =
      course_list net sid secret none 100 sync_courses (begun s)
      >>= student_list net sid secret 100 sync_students
      >>= teacher_list net sid secret 100 sync_teachers

-- What the request is answered by.
pub data SyncPage : Type 0 where
  login_page forbidden unavailable server_error : SyncPage
  synced : ℕ → SyncPage

abbrev pub sync_page : ℕ → SyncPage
sync_page n = if n == 0 then unavailable else synced n

module _ {R : Type 0} where
  abbrev pub sync_done : AppState R → Flow (Sync R) → AppState R × SyncPage
  sync_done state (go r) = (
    record state { events = r.store },
    sync_page (r.courses + r.lessons + r.students + r.teachers),
  )
  sync_done state (crash r) = (record state { events = r.store }, server_error)

module _ {R : Type 0} (net : Network R) (now : ℕ → String) where
  abbrev pub sync_by : Session → String × String → AppState R → AppState R × SyncPage
  sync_by session (sid, secret) state =
      sync_done state (sync_masters net sid secret now session.branch_filter state.events)

  unfoldable pub dashboard_sync : Option Session → AppState R → AppState R × SyncPage
  unfolding sync_masters client_for
  dashboard_sync none state = (state, login_page)
  dashboard_sync (some session) state =
      if session.role == "owner"
      then sync_by session (client_for session session.branch_filter state) state
      else (state, forbidden)
