-- ===== src/Schedule/Pointed.antt =====
-- intelligence/schedule_parser.py: the existing course that a course is pointed at.
use api_dashboard.Prelude.{
  ℕ, String, ◌≡◌, refl, ◌⊎◌, inl, inr, ◌&&◌, Option, none, some, List, [], ◌∷◌, In, Bool-cases,
  truthy, nonempty,
}
use api_dashboard.Store.Rows.{Course}
use api_dashboard.Schedule.{PlannedCourse, ParsePlan}
use api_dashboard.Schedule.Names.{Similarity, normalize_course_name}
use api_dashboard.Schedule.Resolve.{best_row, course_ratio, matched, reused, resolve_course}

module _ {F : Type 0} (sim : Similarity F) (rows : List Course) where
  -- What resolve_course leaves: the course is one of the rows, and so is the teacher returned.
  abbrev pub Pointed : PlannedCourse → ParsePlan → (PlannedCourse × ParsePlan) × Option ℕ → Type 0
  Pointed course plan ((found, noted), uid) =
      ((id : ℕ)
        → found.existing_course_id ≡ some id
        → (row : Course) × In row rows × (row.course_id ≡ id))
      × ((u : ℕ) → uid ≡ some u → (row : Course) × In row rows × (row.teacher_uid ≡ some u))
      × (found.teacher_uid ≡ course.teacher_uid)
      × (noted.needs_confirm ≡ plan.needs_confirm)

  In-best_row :
      (target : String) (some_rows : List Course) (best : Option Course) (score : F) (row : Course)
      → (best_row sim target some_rows best score).0 ≡ some row
      → (best ≡ some row) ⊎ In row some_rows
  unfolding best_row
  In-best_row target [] best score row h = inl h
  In-best_row target (r ∷ rs) best score row h =
      let candidate = normalize_course_name sim r.name in
      let ratio = course_ratio sim candidate target in
      elim (Bool-cases (nonempty candidate && sim.gt ratio score)) [
        | inl b ↦ elim (In-best_row target rs (some r) ratio row (rw b at h)) [
          | inl e ↦ inr (inl (cc e))
          | inr m ↦ inr (inr m)
        ]
        | inr b ↦ elim (In-best_row target rs best score row (rw b at h)) [
          | inl e ↦ inl e
          | inr m ↦ inr (inr m)
        ]
      ]

  nothing-Pointed :
      (course : PlannedCourse) (plan : ParsePlan)
      → course.existing_course_id ≡ none
      → Pointed course plan ((course, plan), none)
  nothing-Pointed course plan e = (λ id h. cc, λ u h. cc, refl, refl)

  reused-Pointed :
      (course : PlannedCourse) (row : Course) (plan : ParsePlan)
      → In row rows
      → Pointed course plan (reused sim course row plan)
  reused-Pointed course row plan m = (
    λ id h. (row, m, cc h),
    λ u h. elim (Bool-cases (truthy row.teacher_uid)) [
      | inl b ↦ (row, m, rw b at h)
      | inr b ↦ let h' = rw b at h in cc
    ],
    refl,
    refl,
  )

  matched-Pointed :
      (course : PlannedCourse) (best : Option Course × F) (plan : ParsePlan)
      → course.existing_course_id ≡ none
      → ((row : Course) → best.0 ≡ some row → In row rows)
      → Pointed course plan (matched sim course best plan)
  matched-Pointed course (none, score) plan e h = nothing-Pointed course plan e
  matched-Pointed course (some row, score) plan e h =
      elim (Bool-cases (sim.gt (sim.decimal 85 2) score)) [
        | inl b ↦ rw b (nothing-Pointed course plan e)
        | inr b ↦ rw b (reused-Pointed course row plan (h row refl))
      ]

  pub resolve_course-Pointed :
      (course : PlannedCourse) (plan : ParsePlan)
      → course.existing_course_id ≡ none
      → Pointed course plan (resolve_course sim course rows plan)
  unfolding resolve_course
  resolve_course-Pointed course plan e =
      let target = normalize_course_name sim (some course.course_name) in
      elim (Bool-cases (nonempty target)) [
        | inl b ↦ rw b (
            matched-Pointed course _ plan e (λ row h.
              elim (In-best_row target rows none (sim.decimal 0 0) row h) [
                | inl x ↦ cc
                | inr m ↦ m
              ]))
        | inr b ↦ rw b (nothing-Pointed course plan e)
      ]
