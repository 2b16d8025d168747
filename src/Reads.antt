-- ===== src/Reads.antt =====
-- classin/reads.py: the reads of ClassIn's API. What the HTTP client gives may differ from call to call.
pub mod Masters
pub mod Assigned
pub mod Tagged
pub mod Kept
pub mod Synced
pub mod Owned
use Prim.Native.String.{◌++◌ as concat}
use api_dashboard.Prelude.{ℕ, ◌+◌, String, Option, none, some, List, [], ◌∷◌, ◌++◌, if◌then◌else◌}
use api_dashboard.Prelude.Flow.{Flow, go, crash}
use api_dashboard.Json.{
  Json, pos, null, bool, int, real, str, arr, obj, Items, nil, cons, Fields, end, field, lookup,
}
use api_dashboard.Store.Rows.{Store}
use api_dashboard.Classin.Client.{Sent, Called, returned, failed, raised, FormBody, Api, call_v1}

-- The HTTP client at its k-th call, the epoch seconds of that call, and of sqlite3 the value that a
-- JSON value is bound as, none where the binding raises. That a text in an INTEGER column may stay a
-- text is not modelled.
pub record Network (R : Type 0) : Type 0 where
  pub api : Api R
  pub post : ℕ → String → FormBody → Sent R
  pub time : ℕ → ℕ
  pub bind_text : Json R → Option String
  pub bind_int : Json R → Option ℕ

-- The store, the calls so far, last_errors, and the counts of the result.
pub record Sync (R : Type 0) : Type 0 where
  pub store : Store R
  pub calls : ℕ
  pub last_errors : List String
  pub courses : ℕ
  pub lessons : ℕ
  pub students : ℕ
  pub teachers : ℕ

module _ {R : Type 0} where
  -- [r for r in data if isinstance(r, dict)]
  unfoldable pub dict_rows : Items R → List (Fields R)
  dict_rows nil = []
  dict_rows (cons (obj fields) items) = fields ∷ dict_rows items
  dict_rows (cons null items) = dict_rows items
  dict_rows (cons (bool b) items) = dict_rows items
  dict_rows (cons (int n) items) = dict_rows items
  dict_rows (cons (real x) items) = dict_rows items
  dict_rows (cons (str t) items) = dict_rows items
  dict_rows (cons (arr xs) items) = dict_rows items

  -- The loop over the keys, and what follows it.
  unfoldable pub inner_rows : Fields R → List String → List (Fields R)
  inner_rows end [] = []
  inner_rows (field k v fields) [] = field k v fields ∷ []
  inner_rows fields (key ∷ keys) = elim (lookup key fields) [
    | some (arr items) ↦ dict_rows items
    | _ ↦ inner_rows fields keys
  ]

  -- _rows
  unfoldable pub rows : Json R → List String → List (Fields R)
  unfolding dict_rows inner_rows
  rows (arr items) keys = dict_rows items
  rows (obj fields) keys = inner_rows fields keys
  rows v keys = []

  -- `data is None` of what call_v1 returned: no rows are read then.
  abbrev pub answered_rows : List String → Option (Json R) → List (Fields R)
  answered_rows keys none = []
  answered_rows keys (some v) = rows v keys

  -- The rows of an answer; none for an error, and where an exception leaves the call.
  abbrev pub rows_answered : List String → Called (Option (Json R)) → List (Fields R)
  rows_answered keys (returned d) = answered_rows keys d
  rows_answered keys (failed errno message) = []
  rows_answered keys raised = []

module _ {R : Type 0} (net : Network R) (sid secret : String) where
  -- The k-th call.
  abbrev pub answer : ℕ → String → List (String × Json R) → Called (Option (Json R))
  answer k action body =
      call_v1 (record net.api { post = net.post k }) sid secret (net.time k) action body
        (pos 1 ∷ [])

  -- _try, and what is done with the rows of its answer.
  abbrev pub tried :
      String
      → List String
      → Called (Option (Json R))
      → (List (Fields R) → Sync R → Flow (Sync R))
      → Sync R
      → Flow (Sync R)
  tried action keys (returned d) then_do r = then_do (answered_rows keys d) r
  tried action keys (failed errno message) then_do r = then_do [] (record r {
    last_errors =
        r.last_errors
        ++ concat action (concat ": errno=" (concat (net.api.shown errno) (concat " " message)))
          ∷ [];
  })
  tried action keys raised then_do r = crash r

  abbrev pub read :
      String
      → List (String × Json R)
      → List String
      → (List (Fields R) → Sync R → Flow (Sync R))
      → Sync R
      → Flow (Sync R)
  read action body keys then_do r =
      tried action keys (answer r.calls action body) then_do (record r { calls = r.calls + 1 })

  abbrev pub page_of : ℕ → List (String × Json R) → List (String × Json R)
  page_of perpage more = more ++ ("perpage", int (pos perpage)) ∷ ("page", int (pos 1)) ∷ []

  abbrev pub status_field : Option ℕ → List (String × Json R)
  status_field none = []
  status_field (some n) = ("courseStatus", int (pos n)) ∷ []

  abbrev pub course_keys : List String
  course_keys = "courseList" ∷ "course_list" ∷ "list" ∷ "courses" ∷ []

  abbrev pub class_keys : List String
  class_keys = "classList" ∷ "class_list" ∷ "list" ∷ "classes" ∷ []

  abbrev pub student_keys : List String
  student_keys = "studentList" ∷ "student_list" ∷ "list" ∷ "students" ∷ []

  abbrev pub teacher_keys : List String
  teacher_keys = "teacherList" ∷ "teacher_list" ∷ "list" ∷ "teachers" ∷ []

  unfoldable pub course_list :
      Option ℕ → ℕ → (List (Fields R) → Sync R → Flow (Sync R)) → Sync R → Flow (Sync R)
  course_list course_status perpage =
      read "getCourseList" (page_of perpage [] ++ status_field course_status) course_keys

  abbrev pub class_body : ℕ → ℕ → List (String × Json R)
  class_body course_id perpage = page_of perpage (("courseId", int (pos course_id)) ∷ [])

  unfoldable pub course_classes :
      ℕ → ℕ → (List (Fields R) → Sync R → Flow (Sync R)) → Sync R → Flow (Sync R)
  course_classes course_id perpage = read "getCourseClass" (class_body course_id perpage) class_keys

  unfoldable pub student_list :
      ℕ → (List (Fields R) → Sync R → Flow (Sync R)) → Sync R → Flow (Sync R)
  student_list perpage = read "getStudentList" (page_of perpage []) student_keys

  unfoldable pub teacher_list :
      ℕ → (List (Fields R) → Sync R → Flow (Sync R)) → Sync R → Flow (Sync R)
  teacher_list perpage = read "getTeacherList" (page_of perpage []) teacher_keys
