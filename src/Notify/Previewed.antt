-- ===== src/Notify/Previewed.antt =====
-- web/routes_notify.py: what a preview shows, stated of the tables.
use api_dashboard.Prelude.{
  ℕ, String, ◌≡◌, ◌↔◌, ◌⊎◌, Bool, true, Option, some, List, [], ◌∷◌, map, lookup, get_or, length,
  In, nat_eq, string_eq,
}
use api_dashboard.Json.{Json}
use api_dashboard.Scope.{Scope}
use api_dashboard.Session.{Session}
use api_dashboard.Store.Rows.{Store}
use api_dashboard.Metrics.{Numbers}
use api_dashboard.Metrics.Missing.{MissingRow, missing_homework_rows}
use api_dashboard.Dashboard.{Page, login_page, forbidden, server_error, redirected, shown}
use api_dashboard.Notify.Copy.{
  Grouped, Messages, AskedStudent, template, fills, compose_ai_messages,
}
use api_dashboard.Notify.Requests.{Preview, group_rows}
use api_dashboard.Notify.Told.{Misses}
use api_dashboard.Notify.Groups.{of_student}

module _ {R : Type 0} (num : Numbers R) (key_set : Bool)
    (run_json : List AskedStudent → String → Option (Json R)) (mode tone academy : String) where
  -- The model was to be asked, and answered with these messages.
  abbrev pub Answered : Grouped R → Messages → Type 0
  Answered groups messages =
      (mode ≡ "ai")
      × (key_set ≡ true)
      × (compose_ai_messages num.python run_json groups academy ≡ some messages)

  -- A message is the model's, if it was asked and answered; if it was not, the one of the template.
  abbrev pub MessageFor : ℕ → MissingRow R → List (MissingRow R) → Grouped R → String → Type 0
  MessageFor uid first rows groups text =
      ((messages : Messages) × Answered groups messages × (text ≡ get_or (lookup uid messages) ""))
      ⊎ ((¬ ((messages : Messages) × Answered groups messages))
          × (text
              ≡ template num.python tone (fills num.python academy first (length (first ∷ rows)))))

  -- An entry is about all rows of its student, of which there is one at least.
  abbrev pub EntryFor : List (MissingRow R) → Preview → Type 0
  EntryFor all p =
      (first : MissingRow R) × (rows : List (MissingRow R)) × (of_student p.uid all ≡ first ∷ rows)
      × (p.name ≡ first.student_name)
      × (p.missing_count ≡ length (first ∷ rows))
      × MessageFor p.uid first rows (group_rows all []) p.message

  -- What the answer says of the rows, whichever it is.
  abbrev pub Previews : Store R → Scope → String → ℕ → Page (List Preview) → Type 0
  Previews s scope since hours (shown ps) =
      ((uid : ℕ) → In uid (map (λ (p : Preview). p.uid) ps) ↔ Misses s scope since uid)
      × ((p : Preview) → In p ps → EntryFor (missing_homework_rows num s scope since) p)
  Previews s scope since hours (redirected w) =
      (w ≡ some hours) × ((uid : ℕ) → ¬ Misses s scope since uid)
  Previews s scope since hours login_page = ⊥
  Previews s scope since hours forbidden = ⊥
  Previews s scope since hours server_error = ⊥
