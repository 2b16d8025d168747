-- ===== src/Reads/Tagged.antt =====
-- classin/reads.py: what a sync leaves as it is, and the branch of each course after it.
use api_dashboard.Prelude.{
  ℕ, String, ◌≡◌, refl, ◌∙◌, inl, inr, true, Option, none, some, List, ◌∷◌, any, elem, coalesce,
  ◌==◌, ==_comm, Bool-cases, nat_eq, if◌then◌else◌, arith,
}
use api_dashboard.Store.Rows.{Store, Course, Teacher}
use api_dashboard.Store.Masters.{upsert_course, upsert_teacher, set_course_branch}
use api_dashboard.Reads.Masters.{tag}
use api_dashboard.Reads.Assigned.{assigned, assigned-upsert, any-upsert, assigned-update}

abbrev pub branch_of : {R : Type 0} → Store R → ℕ → Option ℕ
branch_of s id = assigned (λ (c : Course). c.course_id) (λ (c : Course). c.branch_id) id s.courses

abbrev pub home_of : {R : Type 0} → Store R → ℕ → Option ℕ
home_of s uid = assigned (λ (t : Teacher). t.uid) (λ (t : Teacher). t.branch_id) uid s.teachers

-- What a sync leaves as it is: all but the master tables, and the branch of each teacher.
abbrev pub Framed : {R : Type 0} → Store R → Store R → Type 0
Framed s t =
    (t.raw_log ≡ s.raw_log)
    × (t.events ≡ s.events)
    × (t.lesson_records ≡ s.lesson_records)
    × (t.notify_history ≡ s.notify_history)
    × (t.branches ≡ s.branches)
    × (t.users ≡ s.users)
    × ((uid : ℕ) → home_of t uid ≡ home_of s uid)

-- The branch of a course, where it is tagged with one.
abbrev pub tagged : Option ℕ → List ℕ → (ℕ → Option ℕ) → ℕ → Option ℕ
tagged branch ids g id = if elem id ids then coalesce branch (g id) else g id

pub tagged-cons :
    (branch : Option ℕ) (k : ℕ) (ids : List ℕ) (g : ℕ → Option ℕ) (id : ℕ)
    → tagged branch ids (λ i. if k == i then coalesce branch (g i) else g i) id
      ≡ tagged branch (k ∷ ids) g id
tagged-cons none k ids g id = ground (arith, ==_comm k id)
tagged-cons (some b) k ids g id = ground (arith, ==_comm k id)

module _ {R : Type 0} where
  branch_of-upsert_course :
      (now : String) (k : ℕ) (name : Option String) (t : Option ℕ) (tn : Option String)
      (via : String) (s : Store R) (id : ℕ)
      → branch_of (upsert_course now k name t tn via s) id ≡ branch_of s id
  unfolding upsert_course
  branch_of-upsert_course now k name t tn via s id =
      assigned-upsert _ _ k id _ _ (λ x. refl) (λ x. refl) refl refl s.courses

  listed-upsert_course :
      (now : String) (k : ℕ) (name : Option String) (t : Option ℕ) (tn : Option String)
      (via : String) (s : Store R)
      → any (λ (c : Course). c.course_id == k) (upsert_course now k name t tn via s).courses ≡ true
  unfolding upsert_course
  listed-upsert_course now k name t tn via s =
      any-upsert (λ (c : Course). c.course_id) (λ (c : Course). c.branch_id) k _ _ (λ x. refl) refl
        s.courses

  pub branch_of-tag :
      (now : String) (k : ℕ) (name : Option String) (t : Option ℕ) (tn : Option String)
      (via : String) (branch : Option ℕ) (s : Store R) (id : ℕ)
      → branch_of (tag k branch (upsert_course now k name t tn via s)) id
        ≡ (if k == id then coalesce branch (branch_of s id) else branch_of s id)
  unfolding set_course_branch
  branch_of-tag now k name t tn via none s id =
      let same = branch_of-upsert_course now k name t tn via s id in
      elim (Bool-cases (k == id)) [ inl e ↦ rw e same | inr e ↦ rw e same ]
  branch_of-tag now k name t tn via (some b) s id =
      let same = branch_of-upsert_course now k name t tn via s id in
      assigned-update _ _ k id (some b) _ (λ x. refl) (λ x. refl) _
        (listed-upsert_course now k name t tn via s)
      ∙ elim (Bool-cases (k == id)) [ inl e ↦ rw e refl | inr e ↦ rw e same ]

  home_of-upsert_teacher :
      (k : ℕ) (name : Option String) (s : Store R) (uid : ℕ)
      → home_of (upsert_teacher k name s) uid ≡ home_of s uid
  unfolding upsert_teacher
  home_of-upsert_teacher k name s uid =
      assigned-upsert _ _ k uid _ _ (λ x. refl) (λ x. refl) refl refl s.teachers

  pub Framed-upsert_teacher :
      (s t : Store R) (k : ℕ) (name : Option String)
      → Framed s t
      → Framed s (upsert_teacher k name t)
  unfolding upsert_teacher
  Framed-upsert_teacher s t k name (a, b, c, d, e, f, homes) =
      (a, b, c, d, e, f, λ uid. home_of-upsert_teacher k name t uid ∙ homes uid)

  pub Framed-tag :
      (s t : Store R) (now : String) (k : ℕ) (name : Option String) (u : Option ℕ)
      (tn : Option String) (via : String) (branch : Option ℕ)
      → Framed s t
      → Framed s (tag k branch (upsert_course now k name u tn via t))
  unfolding upsert_course set_course_branch
  Framed-tag s t now k name u tn via none h = h
  Framed-tag s t now k name u tn via (some b) h = h
