-- ===== src/Schedule/Whole.antt =====
-- intelligence/schedule_parser.py: the plan of smart_parse, whichever way the text was read.
use api_dashboard.Prelude.{
  ℕ, String, ◌≡◌, ◌≢◌, ◌⊎◌, refl, sym, subst, inl, inr, Bool-cases, Option, none, some, List, [],
  ◌∷◌, map, All, nonempty, ◌==◌, string_eq,
}
use api_dashboard.Python.{Python}
use api_dashboard.Scope.{Scope}
use api_dashboard.Store.Rows.{Store}
use api_dashboard.Schedule.{Candidate, ParsedLesson, ParsedCourse, PlannedCourse, ParsePlan}
use api_dashboard.Schedule.Names.{Similarity}
use api_dashboard.Schedule.Dates.{Raise, value, error}
use api_dashboard.Schedule.Resolve.{store_teachers, resolve_entities, new_plan}
use api_dashboard.Schedule.Resolved.{Answered}
use api_dashboard.Schedule.Scoped.{InScope, resolve_entities-InScope, resolve_entities-Answered}
use api_dashboard.Schedule.Sourced.{resolve_entities-Same}
use api_dashboard.Schedule.Times.{Scanner}
use api_dashboard.Schedule.Tables.{detect_format, parse_table}
use api_dashboard.Schedule.Heuristic.{heuristic_parse}
use api_dashboard.Schedule.Taught.{
  Gives, >>=-Gives, Taught, Read, parse_table-Read, heuristic_parse-Read,
}
use api_dashboard.Schedule.Smart.{
  Claude, Parsed, Sourced, sourced, or_rules, parse_with_ai, free_text_courses, planned_courses,
  courses_read, smart_parse,
}

-- Each of the lists holds a lesson.
abbrev AllTaught : List (List ParsedLesson) → Type 0
AllTaught = All (λ l. l ≢ [])

parsed-AllTaught :
    (cs : List ParsedCourse) → Taught cs → AllTaught (map (λ (c : ParsedCourse). c.lessons) cs)
parsed-AllTaught [] h = tt
parsed-AllTaught (c ∷ cs) h = (h.0, parsed-AllTaught cs h.1)

planned-Taught :
    (cs : List PlannedCourse)
    → AllTaught (map (λ (c : PlannedCourse). c.lessons) cs)
    → All (λ (c : PlannedCourse). c.lessons ≢ []) cs
planned-Taught [] h = tt
planned-Taught (c ∷ cs) h = (h.0, planned-Taught cs h.1)

module _ {R F : Type 0} (py : Python R) (claude : Claude R) (sim : Similarity F) (scanner : Scanner)
    (s : Store R) (scope : Scope) where
  -- The courses are the model's, or each has a lesson.
  abbrev Sound : Sourced py claude → Type 0
  Sound ((cs, notes), source) = (source ≡ "text-ai") ⊎ Taught cs

  -- A plan whose courses name what the scope may see, and for each of which there is a teacher or
  -- a question; there is a course, and each has a lesson if the model did not make it.
  abbrev pub IsResolved : ParsePlan → Type 0
  IsResolved plan =
      All (InScope s scope sim) plan.courses
      × All (λ c. Answered c plan) plan.courses
      × (plan.courses ≢ [])
      × ((plan.source_format ≡ "text-ai")
          ⊎ All (λ (c : PlannedCourse). c.lessons ≢ []) plan.courses)

  map-ne-nil :
      {A B : Type 0} (f : A → B) (xs : List A) (y : B) (ys : List B) → map f xs ≡ y ∷ ys → xs ≢ []
  map-ne-nil f [] y ys e n = cc
  map-ne-nil f (x ∷ xs) y ys e n = cc

  source-or-Taught :
      (c : ParsedCourse) (cs : List ParsedCourse) (notes : List String) (source : String)
      → (source ≡ "text-ai") ⊎ Taught (c ∷ cs)
      → let plan = resolve_entities sim (new_plan (c ∷ cs) notes source) (some s) scope in
        (plan.courses ≢ [])
        × ((plan.source_format ≡ "text-ai")
            ⊎ All (λ (d : PlannedCourse). d.lessons ≢ []) plan.courses)
  source-or-Taught c cs notes source h =
      let plan = resolve_entities sim (new_plan (c ∷ cs) notes source) (some s) scope in
      let (lessons, same) = resolve_entities-Same sim (c ∷ cs) notes source (some s) scope in
      (
        map-ne-nil (λ (d : PlannedCourse). d.lessons) plan.courses _ _ lessons,
        elim h [
          | inl ai ↦ inl (subst (λ t. t ≡ "text-ai") (sym same) ai)
          | inr taught ↦ inr (
              planned-Taught plan.courses
                (subst AllTaught (sym lessons) (parsed-AllTaught (c ∷ cs) taught)))
        ],
      )

  planned_courses-IsResolved :
      (read : Sourced py claude)
      → Sound read
      → Gives IsResolved (planned_courses py claude sim scanner (some s) scope read)
  planned_courses-IsResolved (([], notes), source) h = tt
  planned_courses-IsResolved ((c ∷ cs, notes), source) h =
      let (some_course, taught) = source-or-Taught c cs notes source h in
      (
        resolve_entities-InScope s scope sim (c ∷ cs) notes source,
        resolve_entities-Answered s scope sim (c ∷ cs) notes source,
        some_course,
        taught,
      )

  sourced-Sound :
      (source : String) (m : Raise Parsed)
      → Gives (Read scanner) m
      → Gives Sound (sourced py claude source m)
  sourced-Sound source error h = tt
  sourced-Sound source (value parsed) h = inr h

  or_rules-Sound :
      (parsed : Option Parsed) (rules : Raise (Sourced py claude))
      → Gives Sound rules
      → Gives Sound (or_rules py claude parsed rules)
  or_rules-Sound none rules h = h
  or_rules-Sound (some ([], notes)) rules h = h
  or_rules-Sound (some (c ∷ cs, notes)) rules h = inl refl

  free_text_courses-Sound :
      (text : String) (day : ℕ)
      → Gives Sound (free_text_courses py claude sim scanner (some s) text day scope)
  unfolding free_text_courses
  free_text_courses-Sound text day =
      let known = map (λ (t : Candidate). t.name) (store_teachers sim (some s) scope) in
      let rules =
        sourced-Sound "text-heuristic" (heuristic_parse scanner text known day)
          (heuristic_parse-Read scanner text known day) in
      elim (Bool-cases claude.key_set) [
        | inl e ↦ rw e (or_rules-Sound (parse_with_ai py claude text day) _ rules)
        | inr e ↦ rw e rules
      ]

  courses_read-Sound :
      (text : String) (day : ℕ)
      → Gives Sound (courses_read py claude sim scanner (some s) text day scope)
  courses_read-Sound text day = elim (Bool-cases (detect_format scanner text == "csv")) [
    | inl e ↦
        rw e
          (sourced-Sound "csv" (parse_table scanner text day) (parse_table-Read scanner text day))
    | inr e ↦ rw e (free_text_courses-Sound text day)
  ]

  smart_parse-Gives :
      (raw_text : String) (today : ℕ)
      → Gives IsResolved (smart_parse py claude sim scanner (some s) raw_text scope today)
  unfolding smart_parse
  smart_parse-Gives raw_text today =
      let text = scanner.reader.strip raw_text in
      elim (Bool-cases (nonempty text)) [
        | inl e ↦ rw e (
            >>=-Gives Sound IsResolved
              (courses_read py claude sim scanner (some s) text today scope) _
              (courses_read-Sound text today) planned_courses-IsResolved)
        | inr e ↦ rw e tt
      ]

  -- Where smart_parse returns a plan, read from a table, by the model or by rules, the plan has
  -- a course; the teacher and the existing course of each of its courses are ones that the
  -- scope may see, the teacher also through such a course; each course has a teacher, or has
  -- none and a question of kind teacher offers its candidates; and each has a lesson, unless
  -- the model made the courses.
  pub smart_parse-IsResolved :
      (raw_text : String) (today : ℕ) (plan : ParsePlan)
      → smart_parse py claude sim scanner (some s) raw_text scope today ≡ value plan
      → IsResolved plan
  smart_parse-IsResolved raw_text today plan e =
      subst (Gives IsResolved) e (smart_parse-Gives raw_text today)
