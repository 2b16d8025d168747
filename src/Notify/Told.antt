-- ===== src/Notify/Told.antt =====
-- web/routes_notify.py: who misses homework, and what the templates say.
use api_dashboard.Prelude.{
  Once, ℕ, String, ◌≡◌, ◌≢◌, ◌↔◌, refl, ap, subst, ◌∙◌, inl, inr, true, Option, none, some, List,
  [], ◌∷◌, lookup, lookup-put, length, In, In-map, In-map_iff, Bool-cases, ◌==◌, ==_iff, nat_eq,
  string_eq,
}
use api_dashboard.Scope.{Scope}
use api_dashboard.Store.Rows.{Store, LessonRecord}
use api_dashboard.Store.Access.{selected}
use api_dashboard.Store.Isolation.{RowVisible}
use api_dashboard.Metrics.{Numbers}
use api_dashboard.Metrics.Missing.{MissingRow, missing_homework_rows}
use api_dashboard.Metrics.Homework.{HasHomework, missing_homework_rows_iff}
use api_dashboard.Metrics.Summary.{since_filter}
use api_dashboard.Notify.Copy.{Grouped, Messages, template, fills, compose_from}
use api_dashboard.Notify.Groups.{HasRow}

-- A visible record of the student since an instant, of a lesson with homework, not handed in.
abbrev pub Misses : {R : Type 0} → Store R → Scope → String → ℕ → Type 0
Misses {R} s scope since uid =
    (r : LessonRecord R) × (r.student_uid ≡ uid)
    × In r s.lesson_records
    × (selected (since_filter since) r ≡ true)
    × RowVisible s scope r.course_id r.teacher_uid
    × HasHomework s scope r.lesson_id
    × (r.homework_submitted ≢ some 1)

module _ {R : Type 0} (num : Numbers R) where
  -- The message of the template for a group.
  abbrev pub told : String → String → List (MissingRow R) → Option String → Option String
  told academy tone [] o = o
  told academy tone (first ∷ rows) o =
      some (template num.python tone (fills num.python academy first (length (first ∷ rows))))

  abbrev pub told_of :
      String → String → Option (List (MissingRow R)) → Option String → Option String
  told_of academy tone none o = o
  told_of academy tone (some group) o = told academy tone group o

  pub lookup-compose_from :
      (academy tone : String) (uid : ℕ) (groups : Grouped R)
      → Once groups
      → (out : Messages)
      → lookup uid (compose_from num.python academy tone groups out)
        ≡ told_of academy tone (lookup uid groups) (lookup uid out)
  unfolding compose_from
  lookup-compose_from academy tone uid [] o out = refl
  lookup-compose_from academy tone uid ((j, []) ∷ groups) o out =
      rw (lookup-compose_from academy tone uid groups o.1 out) (elim (Bool-cases (j == uid)) [
        | inl b ↦ rw (b, subst (λ k. lookup k groups ≡ none) ((==_iff j uid).0 b) o.0) refl
        | inr b ↦ rw b refl
      ])
  lookup-compose_from academy tone uid ((j, first ∷ rows) ∷ groups) o out =
      rw (lookup-compose_from academy tone uid groups o.1 _, lookup-put j uid _ out)
        (elim (Bool-cases (j == uid)) [
          | inl b ↦ rw (b, subst (λ k. lookup k groups ≡ none) ((==_iff j uid).0 b) o.0) refl
          | inr b ↦ rw b refl
        ])

  module _ (s : Store R) (scope : Scope) (since : String) where
    abbrev pub rows_since : List (MissingRow R)
    rows_since = missing_homework_rows num s scope since

    pub HasRow-Misses : (uid : ℕ) → HasRow uid rows_since ↔ Misses s scope since uid
    HasRow-Misses uid = (
      λ (r, m, same).
          let (here, at, seen, hw, open_yet) =
            (missing_homework_rows_iff s scope num since r.row).0
              (In-map (λ (x : MissingRow R). x.row) rows_since r m) in
          (r.row, same, here, at, seen, hw, open_yet),
      λ (r, same, here, at, seen, hw, open_yet).
          let (row, m, of) =
            (In-map_iff (λ (x : MissingRow R). x.row) rows_since r).0
              ((missing_homework_rows_iff s scope num since r).1 (here, at, seen, hw, open_yet)) in
          (row, m, ap (λ (x : LessonRecord R). x.student_uid) of ∙ same),
    )
