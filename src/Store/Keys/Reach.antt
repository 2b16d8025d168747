-- ===== src/Store/Keys/Reach.antt =====
-- store.py: every history of statements, from the empty database, keeps the keys distinct.
use api_dashboard.Prelude.{
  ℕ, String, ◌≡◌, subst, Bool, false, Option, none, some, List, [], any, ◌==◌, nat_eq,
}
use api_dashboard.Json.{Json}
use api_dashboard.Store.Rows.{Store, Event, Lesson, Notification, Branch, User}
use api_dashboard.Store.Columns.{Column}
use api_dashboard.Store.Records.{
  append_raw, insert_event, upsert_lesson_record, append_notification,
}
use api_dashboard.Store.Masters.{
  ensure_student, upsert_course, upsert_lesson, upsert_teacher, set_course_branch,
  set_teacher_branch,
}
use api_dashboard.Store.Accounts.{
  ok, upsert_branch, put_branch, delete_branch, create_user, set_user_active, set_user_password,
}
use api_dashboard.Store.Keys.{HasKeys}
use api_dashboard.Store.Keys.Records.{
  insert_event-HasKeys, upsert_lesson_record-HasKeys, ensure_student-HasKeys, upsert_course-HasKeys,
  upsert_lesson-HasKeys, upsert_teacher-HasKeys, set_course_branch-HasKeys,
  set_teacher_branch-HasKeys,
}
use api_dashboard.Store.Keys.Accounts.{
  delete_branch-HasKeys, upsert_branch_new-HasKeys, rename_branch-HasKeys, create_user-HasKeys,
  set_user_active-HasKeys, set_user_password-HasKeys,
}

module _ {R : Type 0} where
  -- One statement. An id that SQLite allots is none that the table holds.
  pub data Step (s : Store R) : Store R → Type 0 where
    raw : (now : String) (payload : Json R) → Step s (append_raw now payload s)
    event : (e : Event R) → Step s (insert_event e s).0
    lesson_record :
        (now lesson_id : String) (uid : ℕ) (c : Column R) (cs : List (Column R))
        → Step s (upsert_lesson_record now lesson_id uid c cs s)
    student : (uid : ℕ) (name : Option String) → Step s (ensure_student uid name s)
    course :
        (now : String) (id : ℕ) (name : Option String) (t : Option ℕ) (tn : Option String)
        (via : String)
        → Step s (upsert_course now id name t tn via s)
    lesson : (new : Lesson) → Step s (upsert_lesson new s)
    teacher : (uid : ℕ) (name : Option String) → Step s (upsert_teacher uid name s)
    course_branch : (id : ℕ) (b : Option ℕ) → Step s (set_course_branch id b s)
    teacher_branch : (uid : ℕ) (b : Option ℕ) → Step s (set_teacher_branch uid b s)
    branch :
        (now : String) (new_id : ℕ) (name : String) (id : Option ℕ) (sid secret : Option String)
        (s' : Store R) (n : ℕ)
        → any (λ (b : Branch). b.id == new_id) s.branches ≡ false
        → upsert_branch now new_id name id sid secret s ≡ ok (s', n)
        → Step s s'
    branch_gone : (id : ℕ) → Step s (delete_branch id s).0
    user :
        (now : String) (new_id : ℕ) (username hash role : String) (b t : Option ℕ) (s' : Store R)
        (n : ℕ)
        → any (λ (u : User). u.id == new_id) s.users ≡ false
        → create_user now new_id username hash role b t s ≡ ok (s', n)
        → Step s s'
    user_active : (id : ℕ) (active : Bool) → Step s (set_user_active id active s)
    user_password : (id : ℕ) (hash : String) → Step s (set_user_password id hash s)
    notification : (n : Notification) → Step s (append_notification n s)

  pub data Reach (s : Store R) : Store R → Type 0 where
    here : Reach s s
    next : {t u : Store R} → Reach s t → Step t u → Reach s u

  abbrev pub empty : Store R
  empty = record {
    raw_log = [];
    events = [];
    lesson_records = [];
    students = [];
    courses = [];
    lessons = [];
    teachers = [];
    notify_history = [];
    branches = [];
    users = [];
  }

  pub empty-HasKeys : HasKeys empty
  empty-HasKeys = record {
    events = tt;
    lesson_records = tt;
    students = tt;
    courses = tt;
    lessons = tt;
    teachers = tt;
    branches = tt;
    branch_names = tt;
    users = tt;
    usernames = tt;
  }

  upsert_branch-HasKeys :
      (now : String) (new_id : ℕ) (name : String) (id : Option ℕ) (sid secret : Option String)
      (s s' : Store R) (n : ℕ)
      → any (λ (b : Branch). b.id == new_id) s.branches ≡ false
      → HasKeys s
      → upsert_branch now new_id name id sid secret s ≡ ok (s', n)
      → HasKeys s'
  unfolding upsert_branch
  upsert_branch-HasKeys now new_id name none sid secret s s' n fresh h e =
      let made : (put_branch now new_id name sid secret s).0 ≡ s' = cc e in
      subst HasKeys made (upsert_branch_new-HasKeys now new_id name sid secret s fresh h)
  upsert_branch-HasKeys now new_id name (some id) sid secret s s' n fresh h e =
      rename_branch-HasKeys id name sid secret s s' n h e

  Step-HasKeys : {s t : Store R} → Step s t → HasKeys s → HasKeys t
  unfolding append_raw append_notification
  Step-HasKeys (raw now payload) h = assumption
  Step-HasKeys {s} (event e) h = insert_event-HasKeys e s h
  Step-HasKeys {s} (lesson_record now id uid c cs) h =
      upsert_lesson_record-HasKeys now id uid c cs s h
  Step-HasKeys {s} (student uid name) h = ensure_student-HasKeys uid name s h
  Step-HasKeys {s} (course now id name t tn via) h = upsert_course-HasKeys now id name t tn via s h
  Step-HasKeys {s} (lesson new) h = upsert_lesson-HasKeys new s h
  Step-HasKeys {s} (teacher uid name) h = upsert_teacher-HasKeys uid name s h
  Step-HasKeys {s} (course_branch id b) h = set_course_branch-HasKeys id b s h
  Step-HasKeys {s} (teacher_branch uid b) h = set_teacher_branch-HasKeys uid b s h
  Step-HasKeys {s} (branch now new_id name id sid secret s' n fresh e) h =
      upsert_branch-HasKeys now new_id name id sid secret s s' n fresh h e
  Step-HasKeys {s} (branch_gone id) h = delete_branch-HasKeys id s h
  Step-HasKeys {s} (user now new_id name hash role b t s' n fresh e) h =
      create_user-HasKeys now new_id name hash role b t s s' n fresh h e
  Step-HasKeys {s} (user_active id active) h = set_user_active-HasKeys id active s h
  Step-HasKeys {s} (user_password id hash) h = set_user_password-HasKeys id hash s h
  Step-HasKeys (notification n) h = assumption

  -- Whatever statements of the store run, in whatever order, the declared keys stay distinct:
  -- message ids, lesson and student, uids, course and lesson ids, branch ids and names, user
  -- ids and names.
  pub Reach-HasKeys : {s t : Store R} → HasKeys s → Reach s t → HasKeys t
  Reach-HasKeys h here = h
  Reach-HasKeys h (next r st) = Step-HasKeys st (Reach-HasKeys h r)
