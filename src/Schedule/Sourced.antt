-- ===== src/Schedule/Sourced.antt =====
-- intelligence/schedule_parser.py: resolving a plan keeps the lessons of its courses and its source.
use api_dashboard.Prelude.{
  ℕ, String, ◌≡◌, refl, ◌∙◌, inl, inr, Bool-cases, Option, none, some, List, [], ◌∷◌, map, nonempty,
  truthy, get_or, ap,
}
use api_dashboard.Scope.{Scope}
use api_dashboard.Store.Rows.{Store, Course}
use api_dashboard.Schedule.{
  Candidate, ParsedCourse, ParsedLesson, PlannedCourse, ParsePlan, planned,
}
use api_dashboard.Schedule.Names.{Similarity, normalize_course_name}
use api_dashboard.Schedule.Resolve.{
  only_teacher, unnamed_teacher, decided, named_teacher, resolve_teacher, matched, resolve_course,
  resolve_one, resolve_all, course_rows, store_teachers, resolve_entities, new_plan,
}

-- The lessons and the source are those of before.
abbrev Same : PlannedCourse → ParsePlan → PlannedCourse → ParsePlan → Type 0
Same c p d q = (d.lessons ≡ c.lessons) × (q.source_format ≡ p.source_format)

module _ {F : Type 0} (sim : Similarity F) where
  only_teacher-Same :
      (c : PlannedCourse) (ts : List Candidate) (p : ParsePlan)
      → let (d, q) = only_teacher sim c ts p in Same c p d q
  only_teacher-Same c [] p = (refl, refl)
  only_teacher-Same c (t ∷ []) p = (refl, refl)
  only_teacher-Same c (t ∷ u ∷ ts) p = (refl, refl)

  unnamed_teacher-Same :
      (c : PlannedCourse) (ts : List Candidate) (u : Option ℕ) (p : ParsePlan)
      → let (d, q) = unnamed_teacher sim c ts u p in Same c p d q
  unnamed_teacher-Same c ts u p = elim (Bool-cases (truthy u)) [
    | inl e ↦ rw e (refl, refl)
    | inr e ↦ rw e (only_teacher-Same c ts p)
  ]

  decided-Same :
      (c : PlannedCourse) (name : String) (best : F) (ts : List Candidate) (p : ParsePlan)
      → let (d, q) = decided sim c name best ts p in Same c p d q
  decided-Same c name best [] p = (refl, refl)
  decided-Same c name best (t ∷ []) p = elim (Bool-cases (sim.gt (sim.decimal 1 0) best)) [
    | inl e ↦ rw e (refl, refl)
    | inr e ↦ rw e (refl, refl)
  ]
  decided-Same c name best (t ∷ u ∷ ts) p = (refl, refl)

  named_teacher-Same :
      (c : PlannedCourse) (name : String) (ts : List Candidate) (scores : List (F × Candidate))
      (p : ParsePlan)
      → let (d, q) = named_teacher sim c name ts scores p in Same c p d q
  named_teacher-Same c name ts [] p = (refl, refl)
  named_teacher-Same c name ts ((score, t) ∷ scores) p = decided-Same c name _ _ p

  resolve_teacher-Same :
      (c : PlannedCourse) (ts : List Candidate) (u : Option ℕ) (p : ParsePlan)
      → let (d, q) = resolve_teacher sim c ts u p in Same c p d q
  unfolding resolve_teacher
  resolve_teacher-Same c ts u p =
      elim (Bool-cases (nonempty (sim.strip (get_or c.teacher_name "")))) [
        | inl e ↦ rw e (named_teacher-Same c _ ts _ p)
        | inr e ↦ rw e (unnamed_teacher-Same c ts u p)
      ]

  matched-Same :
      (c : PlannedCourse) (best : Option Course × F) (p : ParsePlan)
      → let ((d, q), u) = matched sim c best p in Same c p d q
  matched-Same c (none, score) p = (refl, refl)
  matched-Same c (some row, score) p = elim (Bool-cases (sim.gt (sim.decimal 85 2) score)) [
    | inl e ↦ rw e (refl, refl)
    | inr e ↦ rw e (refl, refl)
  ]

  resolve_course-Same :
      (c : PlannedCourse) (rows : List Course) (p : ParsePlan)
      → let ((d, q), u) = resolve_course sim c rows p in Same c p d q
  unfolding resolve_course
  resolve_course-Same c rows p =
      elim (Bool-cases (nonempty (normalize_course_name sim (some c.course_name)))) [
        | inl e ↦ rw e (matched-Same c _ p)
        | inr e ↦ rw e (refl, refl)
      ]

  resolve_one-Same :
      (rows : List Course) (ts : List Candidate) (c : PlannedCourse) (p : ParsePlan)
      → let (d, q) = resolve_one sim rows ts c p in Same c p d q
  resolve_one-Same rows ts c p =
      let found = resolve_course sim c rows p in
      let (lessons, source) = resolve_course-Same c rows p in
      let (lessons', source') = resolve_teacher-Same found.0.0 ts found.1 found.0.1 in
      (lessons' ∙ lessons, source' ∙ source)

  abbrev lessons_of : PlannedCourse → List ParsedLesson
  lessons_of c = c.lessons

  resolve_all-Same :
      (rows : List Course) (ts : List Candidate) (cs : List PlannedCourse) (p : ParsePlan)
      → let (ds, q) = resolve_all sim rows ts cs p in
        (map lessons_of ds ≡ map lessons_of cs) × (q.source_format ≡ p.source_format)
  unfolding resolve_all
  resolve_all-Same rows ts [] p = (refl, refl)
  resolve_all-Same rows ts (c ∷ cs) p =
      let one = resolve_one sim rows ts c p in
      let (lessons, source) = resolve_one-Same rows ts c p in
      let (rest, last) = resolve_all-Same rows ts cs one.1 in
      (λ i. lessons i ∷ rest i, last ∙ source)

  lessons_of-planned :
      (cs : List ParsedCourse)
      → map lessons_of (map planned cs) ≡ map (λ (c : ParsedCourse). c.lessons) cs
  unfolding planned
  lessons_of-planned [] = refl
  lessons_of-planned (c ∷ cs) = ap (λ t. c.lessons ∷ t) (lessons_of-planned cs)

  pub resolve_entities-Same :
      {R : Type 0} (cs : List ParsedCourse) (notes : List String) (source : String)
      (store : Option (Store R)) (scope : Scope)
      → let plan = resolve_entities sim (new_plan cs notes source) store scope in
        (map (λ (c : PlannedCourse). c.lessons) plan.courses
          ≡ map (λ (c : ParsedCourse). c.lessons) cs)
        × (plan.source_format ≡ source)
  unfolding resolve_entities new_plan
  resolve_entities-Same cs notes source store scope =
      let (lessons, same) =
        resolve_all-Same (course_rows sim store scope) (store_teachers sim store scope)
          (map planned cs) (new_plan cs notes source) in
      (lessons ∙ lessons_of-planned cs, same)
