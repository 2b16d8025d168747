-- ===== src/Notify/Requests.antt =====
-- web/routes_notify.py: the page of missing homework, the composed messages, and what is sent. `since`
-- gives the instant that some hours before now began at.
use Prim.Native.String.{◌++◌ as concat}
use api_dashboard.Prelude.{
  ℕ, String, Bool, true, ◌&&◌, Option, none, some, List, [], ◌∷◌, map, lookup, get_or, length, ltb,
  nonempty, ◌==◌, nat_eq, string_eq, if◌then◌else◌,
}
use api_dashboard.Json.{Json}
use api_dashboard.Session.{Session}
use api_dashboard.Store.Rows.{Store, Notification}
use api_dashboard.Store.Queries.{notification_history}
use api_dashboard.Admin.{Texts}
use api_dashboard.Metrics.{Numbers}
use api_dashboard.Metrics.Trends.{append_all}
use api_dashboard.Metrics.Missing.{MissingRow, missing_homework_rows}
use api_dashboard.Dashboard.{Page, login_page, server_error, redirected, shown, scope_of}
use api_dashboard.Notify.{OutgoingMessage, dispatch}
use api_dashboard.Notify.Copy.{
  Grouped, Messages, AskedStudent, compose_template_messages, compose_ai_messages,
}

-- What the page is given.
pub record NotifyHome (R : Type 0) : Type 0 where
  pub rows : List (MissingRow R)
  pub history : List Notification
  pub window_hours : ℕ

-- An entry of the preview.
pub record Preview : Type 0 where
  pub uid : ℕ
  pub name : String
  pub missing_count : ℕ
  pub message : String

-- max(1, min(window_hours, 24 * 14))
abbrev pub clamp_window : ℕ → ℕ
clamp_window hours = if ltb hours 1 then 1 else if ltb 336 hours then 336 else hours

-- The messages of the model, or else those of the templates.
abbrev pub or_templates : Option Messages → Messages → Messages
or_templates none templates = templates
or_templates (some messages) templates = messages

module _ {R : Type 0} where
  -- by_student
  unfoldable pub group_rows : List (MissingRow R) → Grouped R → Grouped R
  group_rows rows d = append_all (λ r. r.row.student_uid) rows d

  abbrev pub first_name : List (MissingRow R) → String
  first_name [] = ""
  first_name (r ∷ rows) = r.student_name

  abbrev pub preview_of : Messages → ℕ × List (MissingRow R) → Preview
  preview_of messages (uid, rows) = record {
    uid = uid;
    name = first_name rows;
    missing_count = length rows;
    message = get_or (lookup uid messages) "";
  }

module _ {R : Type 0} (num : Numbers R) (key_set : Bool)
    (run_json : List AskedStudent → String → Option (Json R)) where
  abbrev pub composed : String → String → String → Grouped R → Messages
  composed mode tone academy_name groups =
      let templates = compose_template_messages num.python groups academy_name tone in
      let ai = compose_ai_messages num.python run_json groups academy_name in
      if (mode == "ai") && key_set then or_templates ai templates else templates

  abbrev pub previewed : List (MissingRow R) → ℕ → String → String → String → Page (List Preview)
  previewed [] window_hours mode tone academy_name = redirected (some window_hours)
  previewed (r ∷ rows) window_hours mode tone academy_name =
      let groups = group_rows (r ∷ rows) [] in
      shown (map (preview_of (composed mode tone academy_name groups)) groups)

module _ {R : Type 0} (num : Numbers R) (since : ℕ → String) where
  unfoldable pub notify_home : Option Session → Store R → ℕ → Page (NotifyHome R)
  unfolding missing_homework_rows
  notify_home none s window_hours = login_page
  notify_home (some session) s window_hours =
      let hours = clamp_window window_hours in
      let scope = scope_of session s in
      shown (record {
        rows = missing_homework_rows num s scope (since hours);
        history = notification_history s scope 50;
        window_hours = hours;
      })

  module _ (key_set : Bool) (run_json : List AskedStudent → String → Option (Json R)) where
    unfoldable pub notify_compose :
        Option Session → Store R → ℕ → String → String → String → Page (List Preview)
    unfolding group_rows compose_template_messages compose_ai_messages missing_homework_rows
    notify_compose none s window_hours mode tone academy_name = login_page
    notify_compose (some session) s window_hours mode tone academy_name =
        previewed num key_set run_json
          (missing_homework_rows num s (scope_of session s) (since window_hours)) window_hours mode
          tone academy_name

-- form.multi_items()
abbrev pub FormItems : Type 0
FormItems = List (String × String)

-- form.get(key, ""), the last of the values of a key.
abbrev pub form_get : String → String → FormItems → String
form_get key last [] = last
form_get key last ((k, v) ∷ items) = form_get key (if k == key then v else last) items

module _ (texts : Texts) where
  -- int(key.removeprefix("message_")); none where it raises.
  abbrev pub add_message :
      FormItems → Option ℕ → String → Option (List OutgoingMessage) → Option (List OutgoingMessage)
  add_message form none value rest = none
  add_message form (some uid) value none = none
  add_message form (some uid) value (some messages) =
      let text = texts.strip value in
      some (
        if nonempty text
        then record {
          student_uid = uid;
          student_name = form_get (concat "name_" (texts.str uid)) "" form;
          message = text;
        }
          ∷ messages
        else messages)

  abbrev pub message_item :
      FormItems
      → Option String
      → String
      → Option (List OutgoingMessage)
      → Option (List OutgoingMessage)
  message_item form none value rest = rest
  message_item form (some id) value rest = add_message form (texts.int id) value rest

  -- The messages of a form; none where a uid raises.
  unfoldable pub messages_of : FormItems → FormItems → Option (List OutgoingMessage)
  messages_of form [] = some []
  messages_of form ((key, value) ∷ items) =
      message_item form (texts.after_prefix "message_" key) value (messages_of form items)

  module _ {R : Type 0} (now : String) where
    abbrev pub dispatched : Option (List OutgoingMessage) → Store R → Store R × Page ℕ
    dispatched none s = (s, server_error)
    dispatched (some messages) s =
        let (t, counts) = dispatch (λ e. e) now "missing_homework" messages true none "dry_run" s in
        (t, redirected (some counts.sent))

    unfoldable pub notify_send : Option Session → FormItems → Store R → Store R × Page ℕ
    unfolding messages_of dispatch
    notify_send none form s = (s, login_page)
    notify_send (some session) form s = dispatched (messages_of form form) s
