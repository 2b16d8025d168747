-- ===== src/Notify/Groups.antt =====
-- web/routes_notify.py: what is grouped under a student.
use api_dashboard.Prelude.{
  ℕ, ◌≡◌, ◌↔◌, sym, ap, ◌∙◌, Once, lookup-In, List, [], keep, get_or, In, ◌==◌, nat_eq,
}
use api_dashboard.Metrics.Groups.{
  In-keys_iff, under-append_all, append_all-Once, In-keys-append_all,
}
use api_dashboard.Metrics.Missing.{MissingRow}
use api_dashboard.Notify.Requests.{group_rows}

module _ {R : Type 0} where
  -- The rows of a student, in order.
  abbrev pub of_student : ℕ → List (MissingRow R) → List (MissingRow R)
  of_student uid = keep (λ r. r.row.student_uid == uid)

  pub group_rows-Once : (rows : List (MissingRow R)) → Once (group_rows rows [])
  unfolding group_rows
  group_rows-Once rows = append_all-Once (λ r. r.row.student_uid) rows

  -- What a group has is what the rows have of its student.
  pub In-group_rows :
      (rows : List (MissingRow R)) (uid : ℕ) (group : List (MissingRow R))
      → In (uid, group) (group_rows rows [])
      → group ≡ of_student uid rows
  unfolding group_rows
  In-group_rows rows uid group m =
      let found = lookup-In (group_rows rows []) (group_rows-Once rows) (uid, group) m in
      sym (ap (λ o. get_or o []) found) ∙ under-append_all (λ r. r.row.student_uid) uid rows

  abbrev pub HasRow : ℕ → List (MissingRow R) → Type 0
  HasRow uid rows = (r : MissingRow R) × In r rows × (r.row.student_uid ≡ uid)

  -- The students that have a group are those that have a row.
  pub In-group_rows_iff :
      (rows : List (MissingRow R)) (uid : ℕ)
      → ((g : ℕ × List (MissingRow R)) × In g (group_rows rows []) × (g.0 ≡ uid)) ↔ HasRow uid rows
  unfolding group_rows
  In-group_rows_iff rows uid =
      let known = In-keys_iff uid (group_rows rows []) in
      let grouped = In-keys-append_all (λ r. r.row.student_uid) uid rows in
      (λ g. grouped.0 (known.1 g), λ h. known.0 (grouped.1 h))
