-- ===== src/Store/Created.antt =====
-- store.py: what a statement of _SCHEMA leaves of a database.
use api_dashboard.Prelude.{
  String, ◌≡◌, ◌↔◌, ◌⊎◌, refl, sym, subst, ◌∙◌, inl, inr, true, false, none, some, List, [], ◌∷◌,
  elem, elem_iff, In, lookup, put, lookup-put, Bool-cases, ◌==◌, ==_iff, ==_refl, string_eq, arith,
}
use mathlib.Core.Option.{some-ne-none}
use mathlib.Core.Bool.{true≢false}
use api_dashboard.Store.Migration.{Database, HasTable, table_info}
use api_dashboard.Store.Opening.{
  Statement, create_table, create_index, Indexed, execute_statement, executescript,
}

-- The script declares the column.
abbrev pub Declares : List Statement → String → String → Type 0
Declares [] t c = ⊥
Declares (create_table table columns ∷ script) t c =
    ((table ≡ t) × In c columns) ⊎ Declares script t c
Declares (create_index index table column ∷ script) t c = Declares script t c

-- A table of the script that is there already has the columns that the script declares of it.
abbrev pub Fits : List Statement → Database → Type 0
Fits [] db = Unit
Fits (create_table table columns ∷ script) db =
    ((lookup table db ≡ none)
      ⊎ (HasTable db table × ((c : String) → In c columns → In c (table_info table db))))
    × Fits script db
Fits (create_index index table column ∷ script) db = Fits script db

-- A script creates each table once, and an index on a column of a table that it has created.
abbrev pub Formed : List Statement → Database → Type 0
Formed [] made = Unit
Formed (create_table table columns ∷ script) made =
    (lookup table made ≡ none) × Formed script ((table, columns) ∷ made)
Formed (create_index index table column ∷ script) made =
    (elem column (table_info table made) ≡ true) × Formed script made

-- Everything that the script makes is there.
abbrev pub IsDone : List Statement → Indexed → Type 0
IsDone [] db = Unit
IsDone (create_table table columns ∷ script) db = HasTable db.tables table × IsDone script db
IsDone (create_index index table column ∷ script) db = In index db.indices × IsDone script db

-- Nothing is lost.
abbrev pub Grows : Indexed → Indexed → Type 0
Grows db after =
    ((t : String) → HasTable db.tables t → HasTable after.tables t)
    × ((i : String) → In i db.indices → In i after.indices)

-- What one run of the script leaves.
abbrev pub Ran : List Statement → Indexed → Indexed → Type 0
Ran script db after =
    ((t c : String)
      → In c (table_info t after.tables) ↔ (In c (table_info t db.tables) ⊎ Declares script t c))
    × Grows db after
    × IsDone script after

pub IsDone-Grows :
    (script : List Statement) (db after : Indexed)
    → Grows db after
    → IsDone script db
    → IsDone script after
IsDone-Grows [] db after grows done = done
IsDone-Grows (create_table table columns ∷ script) db after grows done =
    (grows.0 table done.0, IsDone-Grows script db after grows done.1)
IsDone-Grows (create_index index table column ∷ script) db after grows done =
    (grows.1 index done.0, IsDone-Grows script db after grows done.1)

-- Where everything is there, the script does nothing.
pub executescript_done :
    (script : List Statement) (db : Indexed) → IsDone script db → executescript script db ≡ some db
unfolding executescript
executescript_done [] db done = refl
executescript_done (create_table table columns ∷ script) db ((old, found), done) =
    rw found (executescript_done script db done)
executescript_done (create_index index table column ∷ script) db (there, done) =
    let here = (elem_iff index db.indices).1 there in rw here (executescript_done script db done)

-- A table that was made before the script is none of the script's.
pub Fits-other :
    (script : List Statement) (made db after : Database) (t : String) (columns : List String)
    → Formed script made
    → lookup t made ≡ some columns
    → ((k : String) → (t == k) ≡ false → lookup k after ≡ lookup k db)
    → Fits script db
    → Fits script after
Fits-other [] made db after t columns formed earlier same fits = fits
Fits-other (create_table k own ∷ script) made db after t columns formed earlier same fits =
    elim (Bool-cases (t == k)) [
      | inl e ↦
          let gone : lookup t made ≡ none =
            subst (λ x. lookup x made ≡ none) (sym ((==_iff t k).0 e)) formed.0 in
          absurd (some-ne-none columns (sym earlier ∙ gone))
      | inr other ↦
          let here = same k other in
          let later : lookup t ((k, own) ∷ made) ≡ some columns =
            ground (arith, ==_iff k t, ==_iff t k, other, earlier) in
          (
            rw here fits.0,
            Fits-other script ((k, own) ∷ made) db after t columns formed.1 later same fits.1,
          )
    ]
Fits-other (create_index index k column ∷ script) made db after t columns formed earlier same fits =
    Fits-other script made db after t columns formed.1 earlier same fits

-- A statement that creates a table: the table is there afterwards, with what it declares.
pub create_table-Ran :
    (table : String) (columns : List String) (db : Indexed)
    → Fits (create_table table columns ∷ []) db.tables
    → (after : Indexed) × (execute_statement (create_table table columns) db ≡ some after)
      × Ran (create_table table columns ∷ []) db after
      × ((k : String) → (table == k) ≡ false → lookup k after.tables ≡ lookup k db.tables)
create_table-Ran table columns db (inl missing, _) = (
  record db { tables = put table columns db.tables },
  rw missing refl,
  (
    λ t c. elim (Bool-cases (table == t)) [
      | inl same ↦
          let e : table ≡ t = (==_iff table t).0 same in
          let gone : lookup t db.tables ≡ none = subst (λ k. lookup k db.tables ≡ none) e missing in
          rw (lookup-put table t, same, gone)
            (
              λ m. inr (inl (e, m)),
              λ m. elim m [
                | inl old ↦ absurd old
                | inr (inl new) ↦ new.1
                | inr (inr none_left) ↦ absurd none_left
              ],
            )
      | inr other ↦
          rw (lookup-put table t, other)
            (
              λ m. inl m,
              λ m. elim m [
                | inl old ↦ old
                | inr (inl new) ↦ absurd (true≢false (sym ((==_iff table t).1 new.0) ∙ other))
                | inr (inr none_left) ↦ absurd none_left
              ],
            )
    ],
    (
      λ t has. elim (Bool-cases (table == t)) [
        | inl same ↦ rw (lookup-put table t, same) (columns, refl)
        | inr other ↦ rw (lookup-put table t, other) has
      ],
      λ i m. m,
    ),
    ((columns, lookup-put table table columns db.tables ∙ ground (arith, ==_refl table)), tt),
  ),
  λ k other. lookup-put table k columns db.tables ∙ ground (arith, other),
)
create_table-Ran table columns db (inr ((old, found), has), _) = (
  db,
  rw found refl,
  (
    λ t c. (
      λ m. inl m,
      λ m. elim m [
        | inl here ↦ here
        | inr (inl new) ↦ subst (λ k. In c (table_info k db.tables)) new.0 (has c new.1)
        | inr (inr none_left) ↦ absurd none_left
      ],
    ),
    (λ t there. there, λ i m. m),
    ((old, found), tt),
  ),
  λ k other. refl,
)

-- A statement that creates an index on a column that is there.
pub create_index-Ran :
    (index table column : String) (db : Indexed)
    → In column (table_info table db.tables)
    → (after : Indexed) × (execute_statement (create_index index table column) db ≡ some after)
      × Ran (create_index index table column ∷ []) db after
      × (after.tables ≡ db.tables)
create_index-Ran index table column db has =
    let nothing_new : (t c : String)
        → In c (table_info t db.tables) ↔ (In c (table_info t db.tables) ⊎ ⊥) =
      λ t c. (λ m. inl m, λ m. elim m [ inl old ↦ old | inr none_left ↦ absurd none_left ]) in
    elim (Bool-cases (elem index db.indices)) [
      | inl there ↦ (
        db,
        rw there refl,
        (nothing_new, (λ t here. here, λ i m. m), ((elem_iff index db.indices).0 there, tt)),
        refl,
      )
      | inr missing ↦ (
        record db { indices = index ∷ db.indices },
        rw (missing, (elem_iff column (table_info table db.tables)).1 has) refl,
        (nothing_new, (λ t here. here, λ i m. inr m), (inl refl, tt)),
        refl,
      )
    ]
