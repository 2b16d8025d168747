-- ===== src/Classin/Ended.antt =====
-- classin/webhook_schemas.py: what is read, by student, out of the close of a lesson (EndEvent).
use api_dashboard.Prelude.{
  ℕ, suc, String, Option, none, some, List, [], ◌∷◌, map, get_or, put, lookup, nat_eq, string_eq,
  option_eq, if◌then◌else◌,
}
use api_dashboard.Json
use api_dashboard.Json.{
  Json, ℤ, null, bool, int, real, str, arr, obj, Items, nil, cons, Fields, end, field, pos, negsuc,
}
use api_dashboard.Python.{Python}
use api_dashboard.Classin.Schemas.{truth}

module _ {R : Type 0} (py : Python R) where
  -- The walk of _uid_map_totals along `path`; none is None.
  unfoldable pub walk : List String → Option (Json R) → Option (Json R)
  walk [] v = v
  walk (k ∷ path) (some (obj fs)) = walk path (Json.lookup k fs)
  walk (k ∷ path) v = none

  -- value, or the entry itself where the value is None and the entry is a number.
  unfoldable pub or_entry : Option (Json R) → Json R → Option (Json R)
  or_entry none (int n) = some (int n)
  or_entry none (real x) = some (real x)
  or_entry none (bool b) = some (bool b)
  or_entry none v = none
  or_entry (some null) (int n) = some (int n)
  or_entry (some null) (real x) = some (real x)
  or_entry (some null) (bool b) = some (bool b)
  or_entry (some v) entry = some v

  -- float(value), where there is one.
  abbrev float_of : Option (Json R) → Option R
  float_of none = none
  float_of (some v) = py.to_float v

  -- out[uid] = value, where both conversions succeed.
  abbrev record_total : Option ℕ → Option R → List (ℕ × R) → List (ℕ × R)
  record_total none x out = out
  record_total (some uid) none out = out
  record_total (some uid) (some x) out = put uid x out

  unfoldable pub totals : List String → Fields R → List (ℕ × R) → List (ℕ × R)
  unfolding walk or_entry
  totals path end out = out
  totals path (field k entry fs) out =
      totals path fs
        (record_total (py.to_int (str k)) (float_of (or_entry (walk path (some entry)) entry)) out)

  unfoldable pub uid_map_totals : Option (Json R) → List String → List (ℕ × R)
  unfolding totals
  uid_map_totals (some (obj fs)) path = totals path fs []
  uid_map_totals section path = []

  unfoldable pub hand_raise_by_uid : Fields R → List (ℕ × R)
  unfolding uid_map_totals
  hand_raise_by_uid d = uid_map_totals (Json.lookup "handsupEnd" d) ("Total" ∷ [])

  unfoldable pub trophy_by_uid : Fields R → List (ℕ × R)
  unfolding uid_map_totals
  trophy_by_uid d = uid_map_totals (Json.lookup "awardEnd" d) ("Total" ∷ [])

  unfoldable pub camera_minutes_by_uid : Fields R → List (ℕ × R)
  unfolding uid_map_totals
  camera_minutes_by_uid d =
      map (λ (uid, v). (uid, py.round (py.div v (py.float 60)) 1))
        (uid_map_totals (Json.lookup "equipmentsEnd" d) ("Camera" ∷ "Total" ∷ []))

  -- The values that a `for` takes from `v or []`, but for texts, which are no dicts; none where the
  -- value cannot be iterated.
  unfoldable pub iterated : Option (Json R) → Option (Items R)
  unfolding truth
  iterated none = some nil
  iterated (some (arr vs)) = some vs
  iterated (some (obj fs)) = some nil
  iterated (some (str s)) = some nil
  iterated (some v) = if truth py v then none else some nil

  -- out[uid] = out.get(uid, 0) + 1
  abbrev count_uid : Option ℕ → List (ℕ × ℕ) → List (ℕ × ℕ)
  count_uid none out = out
  count_uid (some uid) out = put uid (suc (get_or (lookup uid out) 0)) out

  -- int(uid), where the participant is a dict with a Uid that is not None.
  abbrev participant : Json R → Option ℕ
  participant (obj fs) = elim (Json.lookup "Uid" fs) [
    | none ↦ none
    | some null ↦ none
    | some v ↦ py.to_int v
  ]
  participant v = none

  unfoldable pub count_participants : Items R → List (ℕ × ℕ) → List (ℕ × ℕ)
  count_participants nil out = out
  count_participants (cons p ps) out = count_participants ps (count_uid (participant p) out)

  unfoldable pub count_answers : Items R → List (ℕ × ℕ) → Option (List (ℕ × ℕ))
  unfolding count_participants iterated
  count_answers nil out = some out
  count_answers (cons (obj fs) answers) out = elim (iterated (Json.lookup "Participants" fs)) [
    | none ↦ none
    | some ps ↦ count_answers answers (count_participants ps out)
  ]
  count_answers (cons v answers) out = count_answers answers out

  -- poll_by_uid; none where it raises.
  unfoldable pub poll_by_uid : Fields R → Option (List (ℕ × ℕ))
  unfolding count_answers iterated
  poll_by_uid d = elim (Json.lookup "answerEnd" d) [
    | some (obj fs) ↦ elim (iterated (Json.lookup "Answers" fs)) [
      | none ↦ none
      | some answers ↦ count_answers answers []
    ]
    | _ ↦ some []
  ]
