-- ===== src/Schedule/Smart.antt =====
-- intelligence/schedule_parser.py: smart_parse, from a pasted text to a resolved plan. What Claude answers
-- (run_json), and what pydantic makes of a course in it, are parameters.
use Prim.Native.String.{[] as empty_text, ◌∷◌ as char}
use api_dashboard.Prelude.{
  ℕ, String, Bool, Option, none, some, List, [], ◌∷◌, map, nonempty, ◌==◌, string_eq, if◌then◌else◌,
}
use api_dashboard.Json
use api_dashboard.Json.{
  Json, null, bool, int, real, str, arr, obj, Items, nil, cons, Fields, end, field,
}
use api_dashboard.Python.{Python}
use api_dashboard.Scope.{Scope}
use api_dashboard.Store.Rows.{Store}
use api_dashboard.Classin.Schemas.{truth}
use api_dashboard.Schedule.{ParsedCourse, ParsePlan, Candidate}
use api_dashboard.Schedule.Names.{Similarity}
use api_dashboard.Schedule.Dates.{Raise, value, error}
use api_dashboard.Schedule.Resolve.{store_teachers, resolve_entities, new_plan}
use api_dashboard.Schedule.Times.{Scanner, ◌>>=◌}
use api_dashboard.Schedule.Tables.{detect_format, parse_table}
use api_dashboard.Schedule.Heuristic.{heuristic_parse}

-- run_json for the text on a day, none where it raises; ParsedCourse.model_validate, likewise; whether
-- an API key is set.
pub record Claude (R : Type 0) : Type 0 where
  pub key_set : Bool
  pub run_json : String → ℕ → Option (Json R)
  pub validate : Json R → Option ParsedCourse

abbrev pub Parsed : Type 0
Parsed = List ParsedCourse × List String

module _ {R : Type 0} (py : Python R) (claude : Claude R) where
  abbrev pub add_valid :
      Option ParsedCourse → Option (List ParsedCourse) → Option (List ParsedCourse)
  add_valid none rest = none
  add_valid (some c) none = none
  add_valid (some c) (some cs) = some (c ∷ cs)

  unfoldable pub validated : Items R → Option (List ParsedCourse)
  validated nil = some []
  validated (cons v vs) = add_valid (claude.validate v) (validated vs)

  -- The items of a text are its characters, those of a dict its keys.
  abbrev pub letters : String → Items R
  letters empty_text = nil
  letters (char c t) = cons (str (char c empty_text)) (letters t)

  abbrev pub keys_of : Fields R → Items R
  keys_of end = nil
  keys_of (field k v fields) = cons (str k) (keys_of fields)

  -- x or [], iterated; none where that raises.
  abbrev pub listed : Option (Json R) → Option (Items R)
  listed none = some nil
  listed (some (arr items)) = some items
  listed (some (str t)) = some (letters t)
  listed (some (obj fields)) = some (keys_of fields)
  listed (some v) = if truth py v then none else some nil

  unfoldable pub texts : Items R → List String
  texts nil = []
  texts (cons v vs) = py.str_of v ∷ texts vs

  abbrev pub both_listed : Option (Items R) → Option (Items R) → Option Parsed
  both_listed none notes = none
  both_listed (some items) none = none
  both_listed (some items) (some notes) = elim (validated items) [
    | none ↦ none
    | some cs ↦ some (cs, texts notes)
  ]

  -- _coerce_ai_payload; none where it raises.
  unfoldable pub coerce_ai_payload : Json R → Option Parsed
  unfolding truth validated texts Json.lookup
  coerce_ai_payload (obj fields) =
      both_listed (listed (Json.lookup "courses" fields))
        (listed (Json.lookup "assumptions" fields))
  coerce_ai_payload (arr items) = both_listed (some items) (some nil)
  coerce_ai_payload v = none

  -- _parse_with_ai
  unfoldable pub parse_with_ai : String → ℕ → Option Parsed
  unfolding coerce_ai_payload
  parse_with_ai raw_text today = elim (claude.run_json raw_text today) [
    | none ↦ none
    | some v ↦ coerce_ai_payload v
  ]

  -- Courses and assumptions, with the name of the way they were read.
  abbrev pub Sourced : Type 0
  Sourced = Parsed × String

  abbrev pub sourced : String → Raise Parsed → Raise Sourced
  sourced source error = error
  sourced source (value parsed) = value (parsed, source)

  -- The courses of the model, if there are any; else those of the rules.
  abbrev pub or_rules : Option Parsed → Raise Sourced → Raise Sourced
  or_rules none rules = rules
  or_rules (some ([], notes)) rules = rules
  or_rules (some (c ∷ cs, notes)) rules = value ((c ∷ cs, notes), "text-ai")

  module _ {F : Type 0} (sim : Similarity F) (scanner : Scanner) where
    -- _free_text_courses
    unfoldable pub free_text_courses : Option (Store R) → String → ℕ → Scope → Raise Sourced
    unfolding parse_with_ai heuristic_parse store_teachers
    free_text_courses store text day scope =
        let known = map (λ (t : Candidate). t.name) (store_teachers sim store scope) in
        let rules = sourced "text-heuristic" (heuristic_parse scanner text known day) in
        if claude.key_set then or_rules (parse_with_ai text day) rules else rules

    abbrev pub planned_courses : Option (Store R) → Scope → Sourced → Raise ParsePlan
    planned_courses store scope (([], notes), source) = error
    planned_courses store scope ((c ∷ cs, notes), source) =
        value (resolve_entities sim (new_plan (c ∷ cs) notes source) store scope)

    abbrev pub courses_read : Option (Store R) → String → ℕ → Scope → Raise Sourced
    courses_read store text day scope =
        if detect_format scanner text == "csv"
        then sourced "csv" (parse_table scanner text day)
        else free_text_courses store text day scope

    -- `today` is the day that _as_date gives.
    unfoldable pub smart_parse : Option (Store R) → String → Scope → ℕ → Raise ParsePlan
    unfolding detect_format parse_table free_text_courses resolve_entities new_plan
    smart_parse store raw_text scope today =
        let text = scanner.reader.strip raw_text in
        if nonempty text
        then courses_read store text today scope >>= planned_courses store scope
        else error
