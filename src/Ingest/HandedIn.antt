-- ===== src/Ingest/HandedIn.antt =====
-- ingest.py: the rows of homework that was handed in, over later deliveries.
use api_dashboard.Prelude.{
  ℕ, String, ◌≡◌, refl, sym, ap, subst, ◌∙◌, inl, inr, true, false, ◌&&◌, none, some, List, [], ◌∷◌,
  find, find-upsert, find-upsert_other, All, Bool-cases, Option-cases, ◌==◌, ==_iff, arith, nat_eq,
  string_eq, option_eq,
}
use api_dashboard.Store.Rows.{Store, LessonRecord, blank}
use api_dashboard.Store.Columns.{Column, assign, assign_all}
use api_dashboard.Store.Records.{has_key, set_columns, upsert_lesson_record}
use api_dashboard.Store.Keys.Records.{set_columns-key}

module _ {R : Type 0} where
  -- A column that no push takes the mark of a submission away with.
  abbrev pub Keeps : Column R → Type 0
  Keeps (Column.homework_submitted v) = v ≡ some 1
  Keeps _ = Unit

  assign-Keeps :
      (c : Column R) (r : LessonRecord R)
      → Keeps c
      → r.homework_submitted ≡ some 1
      → (assign c r).homework_submitted ≡ some 1
  unfolding assign
  assign-Keeps (Column.homework_submitted v) r k h = k
  assign-Keeps _ r k h = h

  assign_all-Keeps :
      (cs : List (Column R)) (r : LessonRecord R)
      → All Keeps cs
      → r.homework_submitted ≡ some 1
      → (assign_all cs r).homework_submitted ≡ some 1
  unfolding assign_all
  assign_all-Keeps [] r k h = h
  assign_all-Keeps (c ∷ cs) r (k, ks) h = assign_all-Keeps cs (assign c r) ks (assign-Keeps c r k h)

  set_columns-Keeps :
      (now : String) (cs : List (Column R)) (r : LessonRecord R)
      → All Keeps cs
      → r.homework_submitted ≡ some 1
      → (set_columns now cs r).homework_submitted ≡ some 1
  unfolding set_columns
  set_columns-Keeps now cs r = assign_all-Keeps cs r

  has_key-set_columns :
      (id : String) (uid : ℕ) (now : String) (cs : List (Column R)) (r : LessonRecord R)
      → has_key id uid (set_columns now cs r) ≡ has_key id uid r
  has_key-set_columns id uid now cs r =
      ap (λ (k : String × ℕ). (k.0 == id) && (k.1 == uid)) (set_columns-key now cs r)

  -- The record of a student and a lesson is there, and marked as submitted.
  abbrev pub HandedIn : String → ℕ → Store R → Type 0
  HandedIn id uid s =
      (r : LessonRecord R) × (find (has_key id uid) s.lesson_records ≡ some r)
      × (r.homework_submitted ≡ some 1)

  module _ (id : String) (uid : ℕ) (now : String) (c : Column R) (cs : List (Column R)) where
    -- What a statement on the record of a key leaves under it.
    find-upsert_lesson_record :
        (s : Store R)
        → find (has_key id uid) (upsert_lesson_record now id uid c cs s).lesson_records
          ≡ some (elim (find (has_key id uid) s.lesson_records) [
            | none ↦ set_columns now (c ∷ cs) (blank id uid)
            | some x ↦ set_columns now (c ∷ cs) x
          ])
    unfolding upsert_lesson_record
    find-upsert_lesson_record s =
        find-upsert (has_key id uid) (set_columns now (c ∷ cs)) _
          (λ x e. has_key-set_columns id uid now (c ∷ cs) x ∙ e)
          (has_key-set_columns id uid now (c ∷ cs) (blank id uid)
            ∙ ground (arith, ==_iff id id, ==_iff uid uid))
          s.lesson_records

    find-upsert_lesson_record_other :
        (id' : String) (uid' : ℕ) (s : Store R)
        → ((id == id') && (uid == uid')) ≡ false
        → find (has_key id' uid') (upsert_lesson_record now id uid c cs s).lesson_records
          ≡ find (has_key id' uid') s.lesson_records
    unfolding upsert_lesson_record
    find-upsert_lesson_record_other id' uid' s e =
        let apart : (x : LessonRecord R) → has_key id uid x ≡ true → has_key id' uid' x ≡ false =
          λ x h. ground (
            arith,
            e,
            h,
            ==_iff x.lesson_id id,
            ==_iff x.lesson_id id',
            ==_iff id id',
            ==_iff x.student_uid uid,
            ==_iff x.student_uid uid',
            ==_iff uid uid',
          ) in
        find-upsert_other (has_key id' uid') (has_key id uid) (set_columns now (c ∷ cs)) _ apart
          (λ x h.
            apart (set_columns now (c ∷ cs) x) (has_key-set_columns id uid now (c ∷ cs) x ∙ h))
          (apart (set_columns now (c ∷ cs) (blank id uid)) (
            has_key-set_columns id uid now (c ∷ cs) (blank id uid)
            ∙ ground (arith, ==_iff id id, ==_iff uid uid)))
          s.lesson_records

  submitted :
      (now : String) (c : Column R) (cs : List (Column R)) (r : LessonRecord R)
      → All Keeps cs
      → (set_columns now (c ∷ Column.homework_submitted (some 1) ∷ cs) r).homework_submitted
        ≡ some 1
  unfolding set_columns assign_all assign
  submitted now c cs r ks = assign_all-Keeps cs _ ks refl

  -- A statement whose second column says so hands it in.
  pub upsert_lesson_record-hands_in :
      (id : String) (uid : ℕ) (now : String) (c : Column R) (cs : List (Column R)) (s : Store R)
      → All Keeps cs
      → HandedIn id uid
          (upsert_lesson_record now id uid c (Column.homework_submitted (some 1) ∷ cs) s)
  upsert_lesson_record-hands_in id uid now c cs s ks =
      let all : List (Column R) = Column.homework_submitted (some 1) ∷ cs in
      let found = find-upsert_lesson_record id uid now c all s in
      elim (Option-cases (find (has_key id uid) s.lesson_records)) [
        | inl missing ↦ (
          set_columns now (c ∷ all) (blank id uid),
          found ∙ rw missing refl,
          submitted now c cs (blank id uid) ks,
        )
        | inr (x, e) ↦ (set_columns now (c ∷ all) x, found ∙ rw e refl, submitted now c cs x ks)
      ]

  -- No statement whose columns keep it takes it back.
  pub upsert_lesson_record-HandedIn :
      (id id' : String) (uid uid' : ℕ) (now : String) (c : Column R) (cs : List (Column R))
      (s : Store R)
      → All Keeps (c ∷ cs)
      → HandedIn id uid s
      → HandedIn id uid (upsert_lesson_record now id' uid' c cs s)
  upsert_lesson_record-HandedIn id id' uid uid' now c cs s ks (r, found, h) =
      elim (Bool-cases ((id' == id) && (uid' == uid))) [
        | inl same ↦
            let e : id' ≡ id = (==_iff id' id).0 (ground (arith, same)) in
            let f : uid' ≡ uid = (==_iff uid' uid).0 (ground (arith, same)) in
            (
              set_columns now (c ∷ cs) r,
              subst
                  (λ k.
                    find (has_key id uid) (upsert_lesson_record now k uid' c cs s).lesson_records
                    ≡ some (set_columns now (c ∷ cs) r))
                  (sym e)
                  (subst
                    (λ k.
                      find (has_key id uid) (upsert_lesson_record now id k c cs s).lesson_records
                      ≡ some (set_columns now (c ∷ cs) r))
                    (sym f) (find-upsert_lesson_record id uid now c cs s ∙ rw found refl)),
              set_columns-Keeps now (c ∷ cs) r ks h,
            )
        | inr other ↦
            (r, find-upsert_lesson_record_other id' uid' now c cs id uid s other ∙ found, h)
      ]
