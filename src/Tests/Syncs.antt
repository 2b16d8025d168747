-- ===== src/Tests/Syncs.antt =====
-- A sync of the owner's at the school, under a branch that has no credentials of its own.
use api_dashboard.Prelude.{ℕ, String, ◌≡◌, refl, none, some, [], ◌==◌, string_eq, if◌then◌else◌}
use api_dashboard.Json.{Json, pos, int, str, arr, obj, nil, cons, field, end, lookup}
use api_dashboard.Session.{Session}
use api_dashboard.Store.Masters.{set_course_branch, upsert_course}
use api_dashboard.Auth.Throttle.{fresh}
use api_dashboard.Classin.Client.{Sent, response, FormBody, call_v1}
use api_dashboard.Logon.{AppState, client_for}
use api_dashboard.Reads.{Network, rows}
use api_dashboard.Reads.Masters.{SyncPage, synced, dashboard_sync}
use api_dashboard.Reads.Tagged.{branch_of}
use api_dashboard.Reads.Owned.{Synced, listed_ids, dashboard_sync-Synced}
use api_dashboard.Tests.{py, school}
use api_dashboard.Tests.Logons.{classin}

abbrev answered : Json ℕ → Sent ℕ
answered rows = response 200 "{}" (
    some (obj (field "error_info" (obj (field "errno" (int (pos 1)) end)) (field "data" rows end))))

-- ClassIn lists course 20, and a row that has no id; nothing else.
abbrev course_rows : Json ℕ
course_rows =
    arr (
      cons (obj (field "courseId" (int (pos 20)) end))
        (cons (obj (field "name" (str "x") end)) nil))

abbrev posted : ℕ → String → FormBody → Sent ℕ
posted k action form =
    if action == "getCourseList" then answered course_rows else answered (arr nil)

abbrev network : Network ℕ
network = record {
  api = classin;
  post = posted;
  time = λ k. 7;
  bind_text = λ v. some "t";
  bind_int = py.to_int;
}

abbrev owner : Session
owner = record {
  sid = "1";
  secret = "s";
  role = "owner";
  user_id = none;
  username = "";
  branch_id = none;
  teacher_uid = none;
  branch_filter = some 1;
  created_at = 0;
}

abbrev state : AppState ℕ
state = record { sessions = []; throttle = fresh; events = school }

abbrev done : AppState ℕ × SyncPage
done = dashboard_sync network (λ k. "t") (some owner) state

done_page : (done.1 ≡ synced 1) × (branch_of done.0.events 20 ≡ some 1)
unfolding dashboard_sync call_v1 lookup rows set_course_branch upsert_course
done_page = (refl, refl)

dashboard_sync-Synced_example :
    Synced
      (some 1)
      (listed_ids network (λ k. "t") (client_for owner (some 1) state) (some 1) school)
      school
      done.0.events
      done.1
dashboard_sync-Synced_example = dashboard_sync-Synced network (λ k. "t") owner state refl
