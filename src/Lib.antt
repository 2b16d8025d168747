-- ===== src/Lib.antt =====
-- The ClassIn dashboard: a web application that receives ClassIn's pushes (Data Sub), keeps them in
-- SQLite, and shows a school's owner, branch managers and teachers the part of it that is theirs.
--
-- How the parts interact. A push goes to the receiver
-- (src/classin_dashboard/web/routes_webhook.py), which logs it, checks its SafeKey
-- (classin/signing.py) and hands it to `ingest` (ingest.py); `ingest` parses it
-- (classin/webhook_schemas.py), and its handlers run statements of the store (store.py). A reader
-- logs in and holds a session (auth.py); a request derives a scope from the session (scope.py),
-- and every query of the store is answered under that scope. The pages of /admin
-- (web/routes_admin.py) change branches, assignments and accounts; reminders to students go out
-- through the dispatcher (notify/dispatcher.py). A timetable that a teacher pastes becomes a plan
-- (intelligence/schedule_parser.py), which ClassIn's API then executes (web/routes_create.py). An
-- owner's sync reads the school's courses, lessons, students and teachers from that API into the
-- store (classin/reads.py).
--
-- Which file models which part (paths below src/classin_dashboard/ of the repository):
--   Prelude          tests, lists, tables with keys, sorting, dicts and loops that may end early,
--                    shared by all
--   Json, Python     JSON values; floats and conversions of Python, as a parameter
--   Store            store.py: Rows are the tables, Columns the SET of a lesson record; Records,
--                    Masters and Accounts are the statements, Access and Queries the reads,
--                    Migration is _migrate, Opening what __init__ does to a
--                    database; Created and Opened have the tables that it leaves.
--                    Visible says what a scope may see; Isolation compares the reads with it;
--                    Deletion is delete_branch; Keys has the statements keep the keys,
--                    and Keys.Reach any history of them
--   Session, Scope   auth.py's Session, and scope.py; Scope.Roles has the roles
--   Classin.Schemas  classin/webhook_schemas.py, with Classin.Ended for what is read of the close of a
--                    lesson; Classin.Signing is verify_webhook_safekey;
--                    Classin.Client is call_v1 and verify_credentials of classin/client.py, and
--                    Classin.Accepted has what verify_credentials accepts; Classin.V2 is sign_v2
--                    and call_v2, Classin.Signed has what its signature depends on, by the order of
--                    texts (Order) and of items by their keys (Sorted); Classin.Actions is
--                    classin/actions.py
--   Reads            classin/reads.py: the reads of ClassIn's API, and sync_masters (Masters);
--                    Synced and Owned have what a sync does to the store, by the steps that Assigned,
--                    Tagged and Kept follow
--   Ingest           ingest.py; Columns is what an event says of a record, Delivery and Once have
--                    what a delivery does to the store, Logged has it apart from the raw log, Label
--                    what the labels of attendance mean; HandedIn, Delivered and Reported follow
--                    homework that was handed in to the list of the missing
--   Auth             auth.py: Sessions is SessionStore, Throttle is LoginThrottle
--   Webhook          web/routes_webhook.py; Acknowledge has its answers, Log its log, Received its runs
--   Admin            web/routes_admin.py: the requests of /admin that change something, with their
--                    guards; Managers (by Owned) and Outsiders have what each role may change, Home is the
--                    page of /admin and whom it shows
--   Metrics          metrics.py: the figures of a student; Trends, Summary and Missing have the
--                    weekly trends, the overview and the missing homework; Students and Teachers
--                    the summaries; Groups, Counts, Homework and Listed what they count and list
--   Dashboard        web/routes_dashboard.py: the pages and the sync; Dashboard.Teachers is the page
--                    of the teachers, Visible has what the page of the students shows
--   Notify           notify/dispatcher.py; Batch has what becomes of a batch. Copy is
--                    intelligence/notify_copy.py, Requests web/routes_notify.py; Previewed has whom
--                    a preview is about, by what is grouped (Groups) and filled in (Told)
--   Logon            web/routes_auth.py: login_submit, set_branch_scope and logout, with client_for
--                    of web/app.py; Origin has who is logged in as what, Counted the lockout over
--                    a run of logins, Opened the logins after a lockout, Switch the owner's choice
--                    of a branch. Store.Passwords and
--                    Store.Verified are hash_password and verify_password of store.py
--   Schedule         intelligence/schedule_parser.py: the models; Names compares names, Resolve has
--                    resolve_entities; Resolved, Pointed and Scoped what a resolved plan names;
--                    Dates and Lessons have the weekdays and the dates of a line, and Ascending,
--                    Mondays, Timetable and Sundays what they are. Times reads clocks, Tables a
--                    table, Heuristic free text by rules; Smart is smart_parse, and Sourced, Taught
--                    and Whole have what it gives
--   Create           web/routes_create.py: Courses is the loop over a plan, Plan whom it may name,
--                    and create_execute; Calls and Teachers what the calls of the API name;
--                    Pages the page of the form and the preview
--   Shell            web/app.py: the session of a request, the topbar, the filters of templates
--   Tests            a small school, and the theorems at work on it
--
-- How state and operations correspond. A database is a record of tables, a table the list of its
-- rows in the order of insertion, a row a record of its columns, NULL is `none`. A statement is a
-- function of the store under the method's name; ON CONFLICT is `upsert` by the key. An exception
-- is `none` or a Boolean beside the store that was left, since each statement commits by itself.
-- A dict is an association list, a set the list of its members. The instants that `_now()` and
-- `time.time()` give are arguments; clock readings are counted in ticks, `ticks` to the second.
--
-- Bounds. Nothing runs on fuel: loops are structural over lists and JSON values. Ids, counts and
-- clock readings are natural numbers, as Python's integers do not overflow; ids are only compared
-- and tested for zero. The lockout is computed on whole ticks.
--
-- Parameters. The arithmetic of floats and the conversions of Python (Python), the signing of
-- cookies (Serializer, which reads back what it signed), MD5 and lower case (Digest), and
-- pydantic's validation of a payload (`validate`); the texts of forms, with int() and the password
-- hash (Admin.Texts, Create.Plan.Forms); what the calls of a notification's sender do
-- (Notify.Sender); what ClassIn's API answers (`api`, a function of the calls so far), and the
-- times and digests that are shown or sent (Create.Clock); how alike two names are
-- (Schedule.Names.Similarity); PBKDF2 (Store.Passwords.Pbkdf2); the searches of regular
-- expressions and the calendar (Schedule.Dates.Reader); the sums and the order of floats
-- (Metrics.Numbers); the HTTP client (Classin.Client.Api, Classin.V2.JsonApi); what sqlite binds a
-- JSON value as (Reads); csv and the scanning of a text by patterns (Schedule.Times.Scanner); the
-- answers of Claude; the instants that a window of hours begins at (Notify.Requests); and
-- the formats of dates (Shell).
--
-- Not modelled: HTTP, the templates and the rendering of pages (a page is the context that its
-- template is given), charts, which only lay out SVG; the call of Claude and its prompts; the
-- settings of the environment and the start of the server; concurrent requests, but as histories
-- of whole statements. course_students and
-- parse_schedule, which nothing calls, are left out. create_execute takes the answers of the
-- actions as `api`, whose cases are those of Classin.Actions.
pub mod Prelude
pub mod Json
pub mod Python
pub mod Session
pub mod Scope
pub mod Store
pub mod Classin
pub mod Ingest
pub mod Webhook
pub mod Schedule
pub mod Shell
pub mod Create
pub mod Logon
pub mod Metrics
pub mod Admin
pub mod Notify
pub mod Reads
pub mod Dashboard
pub mod Tests
pub mod Auth
