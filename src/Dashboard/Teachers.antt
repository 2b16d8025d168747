-- ===== src/Dashboard/Teachers.antt =====
-- web/routes_dashboard.py: the page of the teachers, with the ratings of one. What pydantic makes of
-- the payload of a rating is a parameter.
use api_dashboard.Prelude.{
  ℕ, String, ◌&&◌, not, Option, none, some, List, [], ◌∷◌, ◌++◌, find, length, ◌==◌, nat_eq,
  string_eq, option_eq, if◌then◌else◌,
}
use api_dashboard.Json
use api_dashboard.Json.{Json, null, bool, int, real, str, arr, obj, Fields, end, field}
use api_dashboard.Session.{Session}
use api_dashboard.Scope.{Scope}
use api_dashboard.Store.Rows.{Store, Event}
use api_dashboard.Store.Queries.{EventFilter, events}
use api_dashboard.Metrics.{Numbers, total}
use api_dashboard.Metrics.Teachers.{TeacherRow, teachers_summary}
use api_dashboard.Dashboard.{
  Page, login_page, server_error, redirected, shown, scope_of, clamp_days,
}

-- A score that a student gave to the teacher.
pub record Rating (R : Type 0) : Type 0 where
  pub student_uid : String
  pub score : Option (Json R)
  pub comment : Option (Json R)
  pub received_at : String

module _ {R : Type 0} where
  abbrev pub student_score : String → String → Option (Json R) → List (Rating R)
  student_score received_at uid (some (obj s2t)) =
      record {
        student_uid = uid;
        score = Json.lookup "Score" s2t;
        comment = Json.lookup "Comment" s2t;
        received_at = received_at;
      }
      ∷ []
  student_score received_at uid v = []

  abbrev pub entry_scores : String → String → Json R → List (Rating R)
  entry_scores received_at uid (obj entry) = student_score received_at uid (Json.lookup "S2T" entry)
  entry_scores received_at uid v = []

  -- student_to_teacher_scores, of the comments of a rating
  unfoldable pub student_to_teacher_scores : String → Fields R → List (Rating R)
  unfolding Json.lookup
  student_to_teacher_scores received_at end = []
  student_to_teacher_scores received_at (field uid entry comments) =
      entry_scores received_at uid entry ++ student_to_teacher_scores received_at comments

  -- RatingEvent.model_validate(payload).Comments; a payload that it refuses is passed over.
  abbrev pub rated : Option (Fields R) → String → List (Rating R)
  rated none received_at = []
  rated (some comments) received_at = student_to_teacher_scores received_at comments

  unfoldable pub ratings_of : (Json R → Option (Fields R)) → List (Event R) → List (Rating R)
  unfolding student_to_teacher_scores
  ratings_of comments_of [] = []
  ratings_of comments_of (e ∷ es) =
      rated (comments_of e.payload) e.received_at ++ ratings_of comments_of es

-- What the page is given.
pub record TeachersView (R : Type 0) : Type 0 where
  pub teachers : List (TeacherRow R)
  pub detail : Option (TeacherRow R)
  pub ratings : List (Rating R)
  pub rating_avg : Option R
  pub days : ℕ

module _ {R : Type 0} (num : Numbers R) (since : ℕ → String)
    (comments_of : Json R → Option (Fields R)) where
  abbrev pub add_score : Option R → Option (List R) → Option (List R)
  add_score none scores = none
  add_score (some x) none = none
  add_score (some x) (some scores) = some (x ∷ scores)

  abbrev pub score_of : Option (Json R) → Option (List R) → Option (List R)
  score_of none scores = scores
  score_of (some null) scores = scores
  score_of (some v) scores = add_score (num.python.to_float v) scores

  -- The scores that are not None; none where float() raises.
  unfoldable pub scores_of : List (Rating R) → Option (List R)
  scores_of [] = some []
  scores_of (r ∷ ratings) = score_of r.score (scores_of ratings)

  -- round(sum(scores) / len(scores), 2), where there is one.
  abbrev pub rating_average : List R → Option R
  rating_average [] = none
  rating_average (x ∷ xs) = some (
      num.python.round
        (num.python.div (total num (num.python.float 0) (x ∷ xs))
          (num.python.float (length (x ∷ xs))))
        2)

  abbrev pub rating_filter : ℕ → EventFilter
  rating_filter uid = record {
    cmd = some "Rating";
    course_id = none;
    class_id = none;
    student_uid = none;
    teacher_uid = some uid;
  }

  abbrev pub ratings_in : Store R → Scope → Option ℕ → List (Rating R)
  ratings_in s scope none = []
  ratings_in s scope (some uid) =
      if uid == 0 then [] else ratings_of comments_of (events s scope (rating_filter uid) 100)

  abbrev pub teacher_detail : List (TeacherRow R) → Option ℕ → Option (TeacherRow R)
  teacher_detail teachers none = none
  teacher_detail teachers (some uid) =
      if uid == 0 then none else find (λ (t : TeacherRow R). t.uid == uid) teachers

  abbrev pub teachers_page :
      Option (List (TeacherRow R))
      → Option ℕ
      → List (Rating R)
      → Option (List R)
      → ℕ
      → Page (TeachersView R)
  teachers_page none uid ratings scores days = server_error
  teachers_page (some teachers) uid ratings none days = server_error
  teachers_page (some teachers) uid ratings (some scores) days = shown (record {
    teachers = teachers;
    detail = teacher_detail teachers uid;
    ratings = ratings;
    rating_avg = rating_average scores;
    days = days;
  })

  unfoldable pub teachers_view : Option Session → Store R → Option ℕ → ℕ → Page (TeachersView R)
  unfolding teachers_summary scores_of ratings_of
  teachers_view none s uid days = login_page
  teachers_view (some session) s uid days =
      if (session.role == "teacher") && not (uid == session.teacher_uid)
      then redirected session.teacher_uid
      else let scope = scope_of session s in
        let ratings = ratings_in s scope uid in
        teachers_page (teachers_summary num s scope (since (clamp_days days))) uid ratings
          (scores_of ratings) (clamp_days days)
