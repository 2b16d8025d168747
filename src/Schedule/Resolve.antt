-- ===== src/Schedule/Resolve.antt =====
-- intelligence/schedule_parser.py: resolve_entities. The plan is passed from step to step; its
-- courses are put back when all of them are resolved.
use Prim.Native.String.{◌++◌ as concat}
use api_dashboard.Prelude.{
  ℕ, String, Bool, ◌&&◌, Option, none, some, List, [], ◌∷◌, ◌++◌, map, truthy, nonempty, get_or,
  cons_some, length, keep, ◌==◌, nat_eq, string_eq, if◌then◌else◌,
}
use api_dashboard.Scope.{Scope}
use api_dashboard.Store.Rows.{Store, Course, Teacher}
use api_dashboard.Store.Queries.{courses, teachers}
use api_dashboard.Schedule.{Candidate, ParsedCourse, PlannedCourse, ParsePlan, planned}
use api_dashboard.Schedule.Names.{
  Similarity, normalize_teacher_name, normalize_course_name, teacher_score,
}

-- An f-string.
abbrev pub text_of : List String → String
text_of [] = ""
text_of (t ∷ ts) = concat t (text_of ts)

abbrev pub assume : List String → ParsePlan → ParsePlan
assume words plan = record plan { assumptions = plan.assumptions ++ text_of words ∷ [] }

abbrev pub ask : String → List Candidate → String → ParsePlan → ParsePlan
ask subject candidates message plan = record plan {
  needs_confirm =
      plan.needs_confirm
      ++ record { kind = "teacher"; subject = subject; candidates = candidates; message = message }
        ∷ [];
}

module _ {F : Type 0} (sim : Similarity F) where
  -- row.get("name") or str(row["uid"])
  abbrev pub candidate_of : Teacher → Candidate
  candidate_of t =
      let name = get_or t.name "" in
      record { uid = t.uid; name = if nonempty name then name else sim.str t.uid }

  unfoldable pub store_teachers : {R : Type 0} → Option (Store R) → Scope → List Candidate
  store_teachers none scope = []
  store_teachers (some s) scope = map candidate_of (teachers s scope)

  -- Both names are there, and the score is not zero.
  abbrev pub counts : String → Candidate → Bool
  counts target teacher =
      let candidate = normalize_teacher_name sim (some teacher.name) in
      nonempty candidate && nonempty target && sim.nonzero (teacher_score sim candidate target)

  -- The entry of a teacher in the list of scores, if any.
  abbrev pub scored : String → Candidate → Option (F × Candidate)
  scored target teacher =
      let score = teacher_score sim (normalize_teacher_name sim (some teacher.name)) target in
      if counts target teacher then some (score, teacher) else none

  unfoldable pub teacher_scores : String → List Candidate → List (F × Candidate)
  teacher_scores name [] = []
  teacher_scores name (t ∷ ts) =
      cons_some (scored (normalize_teacher_name sim (some name)) t) (teacher_scores name ts)

  -- max(score for score, _ in scored), the first score given apart.
  abbrev pub best_of : F → List (F × Candidate) → F
  best_of best [] = best
  best_of best ((score, t) ∷ scores) = best_of (if sim.gt score best then score else best) scores

  -- The teachers whose score is at least best - 1e-9.
  abbrev pub winners : F → List (F × Candidate) → List Candidate
  winners best scores =
      map (λ (e : F × Candidate). e.1)
        (keep (λ (e : F × Candidate). sim.ge e.0 (sim.minus best (sim.decimal 1 9))) scores)

  -- A course without the name of a teacher.
  abbrev pub only_teacher : PlannedCourse → List Candidate → ParsePlan → PlannedCourse × ParsePlan
  only_teacher course (t ∷ []) plan = (
    record course { teacher_uid = some t.uid; teacher_name = some t.name },
    assume
        ("「"
          ∷ course.course_name
          ∷ "」 선생님이 없어 등록된 유일한 선생님"
          ∷ " "
          ∷ t.name
          ∷ "(UID "
          ∷ sim.str t.uid
          ∷ ")에게 배정"
          ∷ [])
        plan,
  )
  only_teacher course teachers plan = (
    record course { teacher_candidates = teachers },
    ask course.course_name teachers (text_of ("「" ∷ course.course_name ∷ "」의 선생님을 지정하세요." ∷ []))
        plan,
  )

  abbrev pub unnamed_teacher :
      PlannedCourse → List Candidate → Option ℕ → ParsePlan → PlannedCourse × ParsePlan
  unnamed_teacher course teachers course_teacher_uid plan =
      let uid = get_or course_teacher_uid 0 in
      if truthy course_teacher_uid
      then (
        record course { teacher_uid = some uid },
        assume
            ("「"
              ∷ course.course_name
              ∷ "」 선생님이 없어 기존 코스의 담당 선생님"
              ∷ "(UID "
              ∷ sim.str uid
              ∷ ")에게 배정"
              ∷ [])
            plan,
      )
      else only_teacher course teachers plan

  -- What becomes of the winners.
  abbrev pub decided :
      PlannedCourse → String → F → List Candidate → ParsePlan → PlannedCourse × ParsePlan
  decided course name best (t ∷ []) plan = (
    record course { teacher_candidates = t ∷ []; teacher_uid = some t.uid },
    if sim.gt (sim.decimal 1 0) best
        then assume ("선생님 「" ∷ name ∷ "」 → " ∷ t.name ∷ "(UID " ∷ sim.str t.uid ∷ ")로 추정 매칭" ∷ [])
            plan
        else plan,
  )
  decided course name best ts plan = (
    record course { teacher_candidates = ts },
    ask name ts
        (text_of ("「" ∷ name ∷ "」에 해당하는 선생님 후보가 " ∷ sim.str (length ts) ∷ "명입니다 — 선택하세요." ∷ []))
        plan,
  )

  abbrev pub named_teacher :
      PlannedCourse
      → String
      → List Candidate
      → List (F × Candidate)
      → ParsePlan
      → PlannedCourse × ParsePlan
  named_teacher course name teachers [] plan = (
    record course { teacher_candidates = teachers },
    ask name teachers (text_of ("「" ∷ name ∷ "」과(와) 일치하는 선생님이 없습니다 — 선택하거나 UID를 입력하세요." ∷ [])) plan,
  )
  named_teacher course name teachers ((score, t) ∷ scores) plan =
      let best = best_of score scores in
      decided course name best (winners best ((score, t) ∷ scores)) plan

  unfoldable pub resolve_teacher :
      PlannedCourse → List Candidate → Option ℕ → ParsePlan → PlannedCourse × ParsePlan
  unfolding teacher_scores
  resolve_teacher course teachers course_teacher_uid plan =
      let name = sim.strip (get_or course.teacher_name "") in
      if nonempty name
      then named_teacher course name teachers (teacher_scores name teachers) plan
      else unnamed_teacher course teachers course_teacher_uid plan

  -- The loop of _resolve_course, with the best row so far and its score.
  abbrev pub course_ratio : String → String → F
  course_ratio candidate target =
      if candidate == target then sim.decimal 1 0 else sim.ratio candidate target

  unfoldable pub best_row : String → List Course → Option Course → F → Option Course × F
  best_row target [] best score = (best, score)
  best_row target (row ∷ rows) best score =
      let candidate = normalize_course_name sim row.name in
      let ratio = course_ratio candidate target in
      let better = best_row target rows (some row) ratio in
      let rest = best_row target rows best score in
      if nonempty candidate && sim.gt ratio score then better else rest

  -- The best row is the course, and its teacher is returned.
  abbrev pub reused : PlannedCourse → Course → ParsePlan → (PlannedCourse × ParsePlan) × Option ℕ
  reused course row plan = (
    (
      record course { existing_course_id = some row.course_id },
      assume
          ("「"
            ∷ course.course_name
            ∷ "」은 기존 코스 「"
            ∷ get_or row.name "None"
            ∷ "」"
            ∷ "(ID "
            ∷ sim.str row.course_id
            ∷ ")로 판단해 재사용합니다."
            ∷ [])
          plan,
    ),
    if truthy row.teacher_uid then row.teacher_uid else none,
  )

  abbrev pub matched :
      PlannedCourse → Option Course × F → ParsePlan → (PlannedCourse × ParsePlan) × Option ℕ
  matched course (none, score) plan = ((course, plan), none)
  matched course (some row, score) plan =
      if sim.gt (sim.decimal 85 2) score then ((course, plan), none) else reused course row plan

  unfoldable pub resolve_course :
      PlannedCourse → List Course → ParsePlan → (PlannedCourse × ParsePlan) × Option ℕ
  unfolding best_row
  resolve_course course rows plan =
      let target = normalize_course_name sim (some course.course_name) in
      if nonempty target
      then matched course (best_row target rows none (sim.decimal 0 0)) plan
      else ((course, plan), none)

  -- The body of the loop over the courses.
  abbrev pub resolve_one :
      List Course → List Candidate → PlannedCourse → ParsePlan → PlannedCourse × ParsePlan
  resolve_one rows teachers course plan =
      let ((found, noted), teacher) = resolve_course course rows plan in
      resolve_teacher found teachers teacher noted

  unfoldable pub resolve_all :
      List Course → List Candidate → List PlannedCourse → ParsePlan → List PlannedCourse × ParsePlan
  unfolding resolve_course resolve_teacher
  resolve_all rows teachers [] plan = ([], plan)
  resolve_all rows teachers (c ∷ cs) plan =
      let (course, noted) = resolve_one rows teachers c plan in
      let (rest, last) = resolve_all rows teachers cs noted in (course ∷ rest, last)

  abbrev pub course_rows : {R : Type 0} → Option (Store R) → Scope → List Course
  course_rows none scope = []
  course_rows (some s) scope = courses s scope

  unfoldable pub resolve_entities : {R : Type 0} → ParsePlan → Option (Store R) → Scope → ParsePlan
  unfolding resolve_all store_teachers
  resolve_entities plan store scope =
      let (resolved, last) =
        resolve_all (course_rows store scope) (store_teachers store scope) plan.courses plan in
      record last { courses = resolved }

-- The plan that smart_parse makes of the parsed courses.
unfoldable pub new_plan : List ParsedCourse → List String → String → ParsePlan
unfolding planned
new_plan courses assumptions source = record {
  courses = map planned courses;
  assumptions = assumptions;
  needs_confirm = [];
  source_format = source;
}
