-- ===== src/Classin/Actions.antt =====
-- classin/actions.py: each action, as one call of the client of a SID at an instant.
use api_dashboard.Prelude.{
  ℕ, String, Option, none, some, List, [], ◌∷◌, ◌++◌, nonempty, ◌==◌, nat_eq, string_eq,
  if◌then◌else◌,
}
use api_dashboard.Json.{
  Json, ℤ, pos, null, int, str, arr, obj, Items, nil, cons, end, field, lookup,
}
use api_dashboard.Classin.Schemas.{truth}
use api_dashboard.Classin.Client.{Called, returned, failed, raised, call_v1}
use api_dashboard.Classin.V2.{JsonApi, Body, call_v2}
use api_dashboard.Schedule.Names.{prefix}

-- ALREADY_MEMBER and ALREADY_REGISTERED
abbrev pub already_member : List ℤ
already_member = pos 1 ∷ pos 133 ∷ []

abbrev pub already_registered : List ℤ
already_registered = pos 1 ∷ pos 135 ∷ pos 461 ∷ []

abbrev pub success : List ℤ
success = pos 1 ∷ []

module _ {R : Type 0} where
  -- An item of a body that is there only for a true value.
  abbrev pub text_item : String → Option String → Body R
  text_item key none = []
  text_item key (some t) = if nonempty t then (key, str t) ∷ [] else []

  abbrev pub number_item : String → Option ℕ → Body R
  number_item key none = []
  number_item key (some n) = if n == 0 then [] else (key, int (pos n)) ∷ []

  -- unique_identity[:32]
  abbrev pub identity_item : String → Option String → Body R
  identity_item key none = []
  identity_item key (some t) = if nonempty t then (key, str (prefix 32 t)) ∷ [] else []

module _ {R : Type 0} (net : JsonApi R) (sid secret : String) (ts : ℕ) where
  abbrev pub v1 : String → Body R → List ℤ → Called (Option (Json R))
  v1 action body success_codes = call_v1 net.api sid secret ts action body success_codes

  abbrev pub v2 : String → Body R → Called (Option (Json R))
  v2 path body = call_v2 net sid secret ts path body success

  -- int(v), which raises of None.
  abbrev pub int_of : Option (Json R) → Called ℤ
  int_of none = raised
  int_of (some v) = elim (net.api.to_int v) [ none ↦ raised | some n ↦ returned n ]

  -- What is made of the data of an answer.
  abbrev pub then_do :
      {B : Type 0} → Called (Option (Json R)) → (Option (Json R) → Called B) → Called B
  then_do (returned d) f = f d
  then_do (failed errno message) f = failed errno message
  then_do raised f = raised

  -- int(data[key])
  abbrev pub int_at : String → Option (Json R) → Called ℤ
  int_at key (some (obj fields)) = int_of (lookup key fields)
  int_at key d = raised

  unfoldable pub register_user : Option String → Option String → String → String → Called ℤ
  unfolding call_v1
  register_user telephone email password nickname =
      then_do
        (v1 "register"
          ((("password", str password)
              ∷ ("nickname", str nickname)
              ∷ ("addToSchoolMember", int (pos 1))
              ∷ [])
            ++ (text_item "telephone" telephone ++ text_item "email" email))
          already_registered)
        int_of

  unfoldable pub add_school_student : ℕ → String → Called (Option (Json R))
  unfolding call_v1
  add_school_student student_uid student_name =
      v1 "addSchoolStudent"
        (("studentUid", int (pos student_uid)) ∷ ("studentName", str student_name) ∷ [])
        already_member

  unfoldable pub add_teacher : ℕ → String → Called (Option (Json R))
  unfolding call_v1
  add_teacher teacher_uid teacher_name =
      v1 "addTeacher"
        (("teacherUid", int (pos teacher_uid)) ∷ ("teacherName", str teacher_name) ∷ [])
        already_member

  -- data.get("courseId") or data.get("course_id")
  abbrev pub either_id : Option (Json R) → Option (Json R) → Option (Json R)
  either_id none w = w
  either_id (some v) w = if truth net.api.python v then some v else w

  abbrev pub course_id_in : Option (Json R) → Called ℤ
  course_id_in (some (obj fields)) =
      int_of (either_id (lookup "courseId" fields) (lookup "course_id" fields))
  course_id_in d = int_of d

  unfoldable pub add_course : String → Option ℕ → Option String → Called ℤ
  unfolding call_v1
  add_course course_name main_teacher_uid unique_identity =
      then_do
        (v1 "addCourse"
          ((("courseName", str course_name) ∷ [])
            ++ (number_item "mainTeacherUid" main_teacher_uid
                ++ identity_item "courseUniqueIdentity" unique_identity))
          success)
        course_id_in

  unfoldable pub create_unit : ℕ → String → String → ℕ → Called ℤ
  unfolding call_v2
  create_unit course_id name content publish =
      then_do
        (v2 "/lms/unit/create" (
          ("courseId", int (pos course_id))
          ∷ ("name", str name)
          ∷ ("content", str content)
          ∷ ("publishFlag", int (pos publish))
          ∷ []))
        (int_at "unitId")

  unfoldable pub create_classroom :
      ℕ → String → ℕ → ℕ → ℕ → Option ℕ → Option String → Called (Option (Json R))
  unfolding call_v2
  create_classroom course_id name teacher_uid start_time end_time unit_id unique_identity =
      v2 "/lms/activity/createClass" (
        (("courseId", int (pos course_id))
          ∷ ("name", str (prefix 50 name))
          ∷ ("teacherUid", int (pos teacher_uid))
          ∷ ("startTime", int (pos start_time))
          ∷ ("endTime", int (pos end_time))
          ∷ [])
        ++ (number_item "unitId" unit_id ++ identity_item "uniqueIdentity" unique_identity))

  unfoldable pub create_activity : ℕ → ℕ → ℕ → String → ℕ → Option ℕ → Option ℕ → Called ℤ
  unfolding call_v2
  create_activity course_id unit_id activity_type name teacher_uid start_time end_time =
      then_do
        (v2 "/lms/activity/createActivityNoClass" (
          (("courseId", int (pos course_id))
            ∷ ("unitId", int (pos unit_id))
            ∷ ("activityType", int (pos activity_type))
            ∷ ("name", str name)
            ∷ ("teacherUid", int (pos teacher_uid))
            ∷ [])
          ++ (number_item "startTime" start_time ++ number_item "endTime" end_time)))
        (int_at "activityId")

  unfoldable pub release_activity : ℕ → ℕ → Called (Option (Json R))
  unfolding call_v2
  release_activity course_id activity_id =
      v2 "/lms/activity/release"
        (("courseId", int (pos course_id)) ∷ ("activityId", int (pos activity_id)) ∷ [])

  -- [{"uid": str(uid)} for uid in student_uids]
  unfoldable pub uid_items : List ℕ → Items R
  uid_items [] = nil
  uid_items (uid ∷ uids) =
      cons (obj (field "uid" (str (net.api.python.str uid)) end)) (uid_items uids)

  unfoldable pub number_items : List ℕ → Items R
  number_items [] = nil
  number_items (uid ∷ uids) = cons (int (pos uid)) (number_items uids)

  unfoldable pub add_course_students : ℕ → List ℕ → Called (Option (Json R))
  unfolding call_v1 uid_items
  add_course_students course_id student_uids =
      v1 "addCourseStudentMultiple"
        (("courseId", int (pos course_id))
          ∷ ("identity", int (pos 1))
          ∷ ("studentJson", arr (uid_items student_uids))
          ∷ [])
        success

  unfoldable pub add_class_students : ℕ → ℕ → List ℕ → Called (Option (Json R))
  unfolding call_v1 uid_items
  add_class_students course_id class_id student_uids =
      v1 "addClassStudentMultiple"
        (("courseId", int (pos course_id))
          ∷ ("classId", int (pos class_id))
          ∷ ("identity", int (pos 1))
          ∷ ("studentJson", arr (uid_items student_uids))
          ∷ [])
        success

  unfoldable pub add_activity_students : ℕ → ℕ → List ℕ → Called (Option (Json R))
  unfolding call_v2 number_items
  add_activity_students course_id activity_id student_uids = v2 "/lms/activity/addStudent" (
      ("courseId", int (pos course_id))
      ∷ ("activityId", int (pos activity_id))
      ∷ ("studentUids", arr (number_items student_uids))
      ∷ [])

  -- str(data)
  abbrev pub text_of_data : Option (Json R) → Called String
  text_of_data none = returned (net.api.python.str_of null)
  text_of_data (some v) = returned (net.api.python.str_of v)

  unfoldable pub get_login_link : String → ℕ → ℕ → String → ℕ → ℕ → Called String
  unfolding call_v1
  get_login_link uid course_id class_id telephone device_type life_time =
      then_do
        (v1 "getLoginLinked"
          (("courseId", int (pos course_id))
            ∷ ("classId", int (pos class_id))
            ∷ ("uid", str uid)
            ∷ ("telephone", str telephone)
            ∷ ("deviceType", int (pos device_type))
            ∷ ("lifeTime", int (pos life_time))
            ∷ [])
          success)
        text_of_data
