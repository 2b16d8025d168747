-- ===== src/Shell.antt =====
-- web/app.py: the session of a request, the topbar of a page, and the filters of the templates. The
-- clock of the server and the formats of dates are parameters.
use Prim.Native.String.{◌++◌ as concat}
use api_dashboard.Prelude.{
  ℕ, String, Bool, Option, none, some, List, [], ◌∷◌, elem, get_or, nonempty, ◌==◌, nat_eq,
  string_eq, if◌then◌else◌,
}
use api_dashboard.Session.{Session}
use api_dashboard.Store.Rows.{Store, Branch, Teacher}
use api_dashboard.Store.Queries.{branches, get_branch, get_teacher}
use api_dashboard.Auth.Sessions.{Serializer, Sessions, resolve}
use api_dashboard.Dashboard.{Page, login_page}

-- datetime.fromtimestamp and datetime.fromisoformat, in KST; none where they raise what the filters
-- catch. A date at the ends of the calendar, whose conversion overflows, is outside the model.
pub record Dates : Type 0 where
  pub minute_of : ℕ → Option String
  pub day_of : String → Option String
  -- value[:10]
  pub first_ten : String → String

abbrev pub dash : String
dash = "—"

module _ (dates : Dates) where
  -- _ts_kst
  unfoldable pub ts_kst : Option ℕ → String
  ts_kst none = dash
  ts_kst (some n) = if n == 0 then dash else get_or (dates.minute_of n) dash

  -- _date_kst
  unfoldable pub date_kst : Option String → String
  date_kst none = dash
  date_kst (some t) = if nonempty t then get_or (dates.day_of t) (dates.first_ten t) else dash

-- ROLE_LABELS.get(role, role)
abbrev pub role_label : String → String
role_label role =
    if role == "owner"
    then "원장/대표"
    else if role == "manager"
    then "관장"
    else if role == "teacher"
    then "선생님"
    else role

module _ (serializer : Serializer) (life : ℕ) where
  -- current_session, with what a session that is too old leaves.
  unfoldable pub current_session : ℕ → Option String → Sessions → Option Session × Sessions
  unfolding resolve
  current_session now cookie sessions = resolve serializer life now cookie sessions

-- require_session: the login page, or the session for the rest of the handler.
unfoldable pub require_session : {A : Type 0} → Option Session → (Session → Page A) → Page A
require_session none handler = login_page
require_session (some session) handler = handler session

-- What the topbar is given.
pub record SessionView : Type 0 where
  pub sid : String
  pub role : String
  pub username : String
  pub role_label : String
  pub scope_label : String
  pub branches : List Branch
  pub branch_filter : Option ℕ
  pub is_owner : Bool
  pub is_admin : Bool

abbrev pub name_of_branch : Option Branch → String
name_of_branch none = "미지정 관"
name_of_branch (some b) = b.name

-- (teacher or {}).get('name') or session.username
abbrev pub name_of_teacher : Option Teacher → String → String
name_of_teacher none username = username
name_of_teacher (some t) username =
    let name = get_or t.name "" in if nonempty name then name else username

module _ {R : Type 0} where
  abbrev pub scope_label_of : Session → Store R → String
  scope_label_of session s =
      if session.role == "manager"
      then concat (name_of_branch (get_branch s session.branch_id)) " · 관장"
      else if session.role == "teacher"
      then concat (name_of_teacher (get_teacher s session.teacher_uid) session.username) " 선생님"
      else role_label session.role

  -- _session_view
  unfoldable pub session_view : Option Session → Store R → Option SessionView
  session_view none s = none
  session_view (some session) s =
      let admin = elem session.role ("owner" ∷ "manager" ∷ []) in
      some (record {
        sid = session.sid;
        role = session.role;
        username = session.username;
        role_label = role_label session.role;
        scope_label = scope_label_of session s;
        branches = if admin then branches s else [];
        branch_filter = session.branch_filter;
        is_owner = session.role == "owner";
        is_admin = admin;
      })
