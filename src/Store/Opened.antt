-- ===== src/Store/Opened.antt =====
-- store.py: what the start of the store leaves of a database, and a second start of it.
use api_dashboard.Prelude.{
  String, ◌≡◌, ◌↔◌, ◌⊎◌, Bool, true, false, some, List, [], ◌∷◌, In, ◌==◌, string_eq, if◌then◌else◌,
}
use api_dashboard.Store.Migration.{Database, table_info}
use api_dashboard.Store.Opening.{Statement, create_table, create_index, Indexed, open_store}
use api_dashboard.Store.Created.{Declares}

-- The columns of what the script has made so far are there.
abbrev pub Covers : Database → Database → Type 0
Covers made db = (t c : String) → In c (table_info t made) → In c (table_info t db)

-- Whether the script creates the table.
abbrev pub creates : String → List Statement → Bool
creates t [] = false
creates t (create_table table columns ∷ script) = if table == t then true else creates t script
creates t (create_index index table column ∷ script) = creates t script

-- What a start leaves, as it is told by the columns, and that a second one changes nothing.
abbrev pub Opens : List Statement → List (String × String) → Indexed → Indexed → Type 0
Opens script added db after =
    ((t c : String)
      → In c (table_info t after.tables)
        ↔ (In c (table_info t db.tables) ⊎ (Declares script t c ⊎ In (t, c) added)))
    × (open_store script added after ≡ some after)
