-- ===== src/Store/Migration.antt =====
-- store.py: _migrate, which adds the columns that came after the first release. A database is the
-- columns of each of its tables, a table that is not there having none.
use mathlib.Core.Bool.{true≢false}
use api_dashboard.Prelude.{
  String, Option, some, map_option, bind_option, ◌≡◌, ◌↔◌, ◌⊎◌, refl, sym, ap, subst, ◌∙◌, inl, inr,
  List, [], ◌∷◌, ◌++◌, elem, elem_iff, In, In-append_iff, lookup, put, lookup-put, get_or,
  Bool-cases, ◌==◌, ==_iff, string_eq, if◌then◌else◌,
}

-- _ADDED_COLUMNS, less the types
abbrev pub added_columns : List (String × String)
added_columns = ("courses", "branch_id") ∷ ("teachers", "branch_id") ∷ []

abbrev pub Database : Type 0
Database = List (String × List String)

-- PRAGMA table_info
abbrev pub table_info : String → Database → List String
table_info table db = get_or (lookup table db) []

-- ALTER TABLE ... ADD COLUMN, which raises where the table is not there.
abbrev pub add_column : String → String → Database → Option Database
add_column table column db =
    map_option (λ columns. put table (columns ++ column ∷ []) db) (lookup table db)

abbrev pub migrate_one : String → String → Database → Option Database
migrate_one table column db =
    if elem column (table_info table db) then some db else add_column table column db

-- The loop of _migrate.
unfoldable pub migrate : List (String × String) → Database → Option Database
migrate [] db = some db
migrate ((table, column) ∷ added) db = bind_option (migrate_one table column db) (migrate added)

abbrev pub HasTable : Database → String → Type 0
HasTable db table = (columns : List String) × (lookup table db ≡ some columns)

-- What a statement, or all of them, leave of a database: its tables with their columns, and the
-- columns that were added.
abbrev pub Adds : List (String × String) → Database → Database → Type 0
Adds added db after =
    ((t c : String) → In c (table_info t after) ↔ (In c (table_info t db) ⊎ In (t, c) added))
    × ((t : String) → HasTable db t → HasTable after t)

-- The table has the column already.
there-Adds :
    (table column : String) (db : Database)
    → In column (table_info table db)
    → Adds ((table, column) ∷ []) db db
there-Adds table column db there = (
  λ t c. (
    λ m. inl m,
    λ m. elim m [
      | inl old ↦ old
      | inr (inl new) ↦ subst (λ (p : String × String). In p.1 (table_info p.0 db)) (sym new) there
      | inr (inr none_left) ↦ absurd none_left
    ],
  ),
  λ t has. has,
)

put-Adds :
    (table column : String) (columns : List String) (db : Database)
    → lookup table db ≡ some columns
    → Adds ((table, column) ∷ []) db (put table (columns ++ column ∷ []) db)
put-Adds table column columns db found = (
  λ t c. elim (Bool-cases (table == t)) [
    | inl same ↦
        let e : table ≡ t = (==_iff table t).0 same in
        let here : lookup t db ≡ some columns = subst (λ k. lookup k db ≡ some columns) e found in
        let split = In-append_iff columns (column ∷ []) c in
        rw (lookup-put table t, same, here)
          (
            λ m. elim (split.0 m) [
              | inl old ↦ inl old
              | inr (inl new) ↦ inr (inl (λ i. (sym e i, new i)))
              | inr (inr none_left) ↦ absurd none_left
            ],
            λ m. elim m [
              | inl old ↦ split.1 (inl old)
              | inr (inl new) ↦ split.1 (inr (inl (ap (λ (p : String × String). p.1) new)))
              | inr (inr none_left) ↦ absurd none_left
            ],
          )
    | inr other ↦
        rw (lookup-put table t, other)
          (
            λ m. inl m,
            λ m. elim m [
              | inl old ↦ old
              | inr (inl new) ↦
                  let e = (==_iff table t).1 (sym (ap (λ (p : String × String). p.0) new)) in
                  absurd (true≢false (sym e ∙ other))
              | inr (inr none_left) ↦ absurd none_left
            ],
          )
  ],
  λ t has. elim (Bool-cases (table == t)) [
    | inl same ↦ rw (lookup-put table t, same) (columns ++ column ∷ [], refl)
    | inr other ↦ rw (lookup-put table t, other) has
  ],
)

migrate_one-Adds :
    (table column : String) (db : Database)
    → HasTable db table
    → (after : Database) × (migrate_one table column db ≡ some after)
      × Adds ((table, column) ∷ []) db after
migrate_one-Adds table column db (columns, found) =
    elim (Bool-cases (elem column (table_info table db))) [
      | inl there ↦ (
        db,
        rw there refl,
        there-Adds table column db ((elem_iff column (table_info table db)).0 there),
      )
      | inr missing ↦ (
        put table (columns ++ column ∷ []) db,
        rw (missing, found) refl,
        put-Adds table column columns db found,
      )
    ]

-- One addition and the rest.
Adds-trans :
    (first : String × String) (rest : List (String × String)) (db middle after : Database)
    → Adds (first ∷ []) db middle
    → Adds rest middle after
    → Adds (first ∷ rest) db after
Adds-trans first rest db middle after a b = (
  λ t c. (
    λ m. elim ((b.0 t c).0 m) [
      | inl n ↦ elim ((a.0 t c).0 n) [
        | inl old ↦ inl old
        | inr (inl new) ↦ inr (inl new)
        | inr (inr none_left) ↦ absurd none_left
      ]
      | inr later ↦ inr (inr later)
    ],
    λ m. elim m [
      | inl old ↦ (b.0 t c).1 (inl ((a.0 t c).1 (inl old)))
      | inr (inl new) ↦ (b.0 t c).1 (inl ((a.0 t c).1 (inr (inl new))))
      | inr (inr later) ↦ (b.0 t c).1 (inr later)
    ],
  ),
  λ t has. b.1 t (a.1 t has),
)

-- Where every column is there already, nothing is done.
pub migrate_done :
    (added : List (String × String)) (db : Database)
    → ((t c : String) → In (t, c) added → In c (table_info t db))
    → migrate added db ≡ some db
unfolding migrate
migrate_done [] db h = refl
migrate_done ((table, column) ∷ added) db h =
    let there = (elem_iff column (table_info table db)).1 (h table column (inl refl)) in
    rw there (migrate_done added db (λ t c m. h t c (inr m)))

pub migrate-Adds :
    (added : List (String × String)) (db : Database)
    → ((t c : String) → In (t, c) added → HasTable db t)
    → (after : Database) × (migrate added db ≡ some after) × Adds added db after
unfolding migrate
migrate-Adds [] db tables = (
  db,
  refl,
  (λ t c. (λ m. inl m, λ m. elim m [ inl old ↦ old | inr new ↦ absurd new ]), λ t has. has),
)
migrate-Adds ((table, column) ∷ added) db tables =
    let (middle, one, first) = migrate_one-Adds table column db (tables table column (inl refl)) in
    let (after, all, rest) = migrate-Adds added middle (λ t c m. first.1 t (tables t c (inr m))) in
    (after, rw one all, Adds-trans (table, column) added db middle after first rest)

-- If the tables to be migrated are there, the migration of a database succeeds, and leaves each
-- table with the columns it had and those that are to be added to it, and no other; a second run
-- succeeds too, and changes nothing.
pub migrate_iff :
    (added : List (String × String)) (db : Database)
    → ((t c : String) → In (t, c) added → HasTable db t)
    → (after : Database) × (migrate added db ≡ some after)
      × ((t c : String) → In c (table_info t after) ↔ (In c (table_info t db) ⊎ In (t, c) added))
      × (migrate added after ≡ some after)
migrate_iff added db tables =
    let (after, once, adds) = migrate-Adds added db tables in
    (after, once, adds.0, migrate_done added after (λ t c m. (adds.0 t c).1 (inr m)))
