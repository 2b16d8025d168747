-- ===== src/Store/Queries.antt =====
-- store.py: the reads of the other tables.
use Prim.Native.Nat.{max}
use mathlib.Core.List.{reverse}
use api_dashboard.Prelude.{
  ℕ, suc, ◌*◌, String, Bool, true, ◌&&◌, Option, none, some, List, [], ◌∷◌, keep, find, take, elem,
  elem_opt, sort, text_leb, nullable_leb, leb, ◌==◌, nat_eq, string_eq, option_eq, if◌then◌else◌,
}
use api_dashboard.Scope.{Scope, unrestricted}
use api_dashboard.Store.Rows.{
  Store, Event, Student, Course, Lesson, Teacher, Notification, Branch, User,
}
use api_dashboard.Store.Access.{
  equals, all_courses, all_teachers, course_ids_in_scope, teacher_uids_in_scope, scope_keys,
  row_in_scope, student_uids_in_scope,
}

-- The keyword arguments of `EventStore.events` but its scope and its limit.
pub record EventFilter : Type 0 where
  pub cmd : Option String
  pub course_id : Option ℕ
  pub class_id : Option ℕ
  pub student_uid : Option ℕ
  pub teacher_uid : Option ℕ

abbrev of_cmd : Option String → String → Bool
of_cmd none c = true
of_cmd (some cmd) c = c == cmd

abbrev student_leb : Student → Student → Bool
student_leb x y = if x.name == y.name then leb x.uid y.uid else nullable_leb text_leb x.name y.name

-- rows if ids is None else [r for r in rows if key(r) in ids]
abbrev pub allowed : {A : Type 0} → (A → ℕ) → Option (List ℕ) → List A → List A
allowed key none rows = rows
allowed key (some ids) rows = keep (λ r. elem (key r) ids) rows

abbrev start_leb : Option ℕ → Option ℕ → Bool
start_leb = nullable_leb leb

abbrev user_leb : User → User → Bool
user_leb u v = if u.role == v.role then text_leb u.username v.username else text_leb u.role v.role

abbrev within : ℕ → Option (List ℕ) → List Notification → List Notification
within limit none rows = take limit rows
within limit (some uids) rows =
    take limit
      (keep (λ (n : Notification). elem_opt n.student_uid uids) (take (max (limit * 10) 1000) rows))

module _ {R : Type 0} where
  unfoldable pub event_selected : EventFilter → Event R → Bool
  event_selected f e =
      of_cmd f.cmd e.cmd
      && equals f.course_id e.course_id
      && equals f.class_id e.class_id
      && equals f.student_uid e.student_uid
      && equals f.teacher_uid e.teacher_uid

  -- The limit is the statement's, and the scope is applied to what the statement returned.
  unfoldable pub events : Store R → Scope → EventFilter → ℕ → List (Event R)
  events s scope f limit =
      keep (λ (e : Event R). row_in_scope e.course_id e.teacher_uid (scope_keys s scope))
        (take limit (reverse (keep (event_selected f) s.events)))

  unfoldable pub all_students : Store R → List Student
  all_students s = sort student_leb s.students

  unfoldable pub students : Store R → Scope → List Student
  students s scope =
      allowed (λ (x : Student). x.uid) (student_uids_in_scope s scope) (all_students s)

  unfoldable pub courses : Store R → Scope → List Course
  courses s scope =
      allowed (λ (c : Course). c.course_id) (course_ids_in_scope s scope) (all_courses s)

  unfoldable pub teachers : Store R → Scope → List Teacher
  teachers s scope =
      allowed (λ (t : Teacher). t.uid) (teacher_uids_in_scope s scope) (all_teachers s)

  unfoldable pub lessons : Store R → Scope → Option ℕ → List Lesson
  lessons s scope course_id =
      keep (λ (l : Lesson). row_in_scope l.course_id l.teacher_uid (scope_keys s scope))
        (sort (λ (l m : Lesson). start_leb m.start_time l.start_time)
          (keep (λ (l : Lesson). equals course_id l.course_id) s.lessons))

  unfoldable pub get_teacher : Store R → Option ℕ → Option Teacher
  get_teacher s none = none
  get_teacher s (some uid) = find (λ (t : Teacher). t.uid == uid) s.teachers

  unfoldable pub branches : Store R → List Branch
  branches s = sort (λ (b c : Branch). text_leb b.name c.name) s.branches

  unfoldable pub get_branch : Store R → Option ℕ → Option Branch
  get_branch s none = none
  get_branch s (some id) = find (λ (b : Branch). b.id == id) s.branches

  unfoldable pub users : Store R → List User
  users s = sort user_leb s.users

  unfoldable pub get_user_by_username : Store R → String → Option User
  get_user_by_username s username = find (λ (u : User). u.username == username) s.users

  unfoldable pub notification_history : Store R → Scope → ℕ → List Notification
  notification_history s scope limit =
      within limit (student_uids_in_scope s scope) (reverse s.notify_history)

-- counts[cmd] = counts.get(cmd, 0) + 1
abbrev pub bump : String → List (String × ℕ) → List (String × ℕ)
bump cmd [] = (cmd, 1) ∷ []
bump cmd ((c, n) ∷ counts) = if c == cmd then (c, suc n) ∷ counts else (c, n) ∷ bump cmd counts

module _ {R : Type 0} where
  unfoldable pub tally : List (Event R) → List (String × ℕ) → List (String × ℕ)
  tally [] counts = counts
  tally (e ∷ es) counts = tally es (bump e.cmd counts)

  -- GROUP BY cmd counts as the loop does; the order of the groups is not read.
  unfoldable pub counts_by_cmd : Store R → Scope → List (String × ℕ)
  unfolding tally
  counts_by_cmd s scope =
      if unrestricted scope
      then tally s.events []
      else tally
          (keep (λ (e : Event R). row_in_scope e.course_id e.teacher_uid (scope_keys s scope))
            s.events)
          []
