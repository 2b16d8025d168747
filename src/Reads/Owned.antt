-- ===== src/Reads/Owned.antt =====
-- The sync of web/routes_dashboard.py: which branch each course has after it.
use api_dashboard.Prelude.{
  ℕ, String, ◌≡◌, ◌⊎◌, inl, inr, refl, Bool, true, false, Option, some, List, elem, ◌==◌, ==_iff,
  string_eq, nat_eq, if◌then◌else◌,
}
use api_dashboard.Prelude.Flow.{Flow, go, crash, Ends}
use api_dashboard.Session.{Session}
use api_dashboard.Store.Rows.{Store}
use api_dashboard.Logon.{AppState, client_for}
use api_dashboard.Reads.{Network, Sync}
use api_dashboard.Reads.Masters.{
  sync_masters, SyncPage, forbidden, server_error, sync_done, sync_by, dashboard_sync,
}
use api_dashboard.Reads.Tagged.{branch_of, Framed, tagged}
use api_dashboard.Reads.Kept.{ids_of}
use api_dashboard.Reads.Synced.{listed, sync_masters-Ends}

-- What a sync under a branch has done, where ClassIn listed courses of these ids.
abbrev pub Synced : {R : Type 0} → Option ℕ → List ℕ → Store R → Store R → SyncPage → Type 0
Synced branch ids s t page =
    Framed s t
    × (((page ≡ server_error) × ((id : ℕ) → elem id ids ≡ false → branch_of t id ≡ branch_of s id))
        ⊎ ((id : ℕ) → branch_of t id ≡ tagged branch ids (branch_of s) id))

if_true :
    {A : Type 0} (P : A → Type 0) (b : Bool) (x y : A) → b ≡ true → P x → P (if b then x else y)
if_true P true x y e p = p
if_true P false x y e p = cc

module _ {R : Type 0} (net : Network R) (now : ℕ → String) where
  -- The ids of the courses that ClassIn lists to these credentials.
  abbrev pub listed_ids : String × String → Option ℕ → Store R → List ℕ
  listed_ids (sid, secret) branch s =
      ids_of net sid secret now branch (listed net sid secret now branch s)

  sync_done-Synced :
      (branch : Option ℕ) (ids : List ℕ) (state : AppState R) (m : Flow (Sync R))
      → Ends
          (λ (r : Sync R).
            Framed state.events r.store
            × ((id : ℕ) → branch_of r.store id ≡ tagged branch ids (branch_of state.events) id))
          (λ (r : Sync R).
            Framed state.events r.store
            × ((id : ℕ) → elem id ids ≡ false → branch_of r.store id ≡ branch_of state.events id))
          m
      → let (t, page) = sync_done state m in Synced branch ids state.events t.events page
  sync_done-Synced branch ids state (go r) (f, b) = (f, inr b)
  sync_done-Synced branch ids state (crash r) (f, b) = (f, inl (refl, b))

  sync_by-Synced :
      (session : Session) (creds : String × String) (state : AppState R)
      → let (t, page) = sync_by net now session creds state in
        Synced session.branch_filter
          (listed_ids creds session.branch_filter state.events)
          state.events
          t.events
          page
  sync_by-Synced session (sid, secret) state =
      sync_done-Synced session.branch_filter
        (listed_ids (sid, secret) session.branch_filter state.events) state
        (sync_masters net sid secret now session.branch_filter state.events)
        (sync_masters-Ends net sid secret now session.branch_filter state.events)

  -- Whatever ClassIn answers to the sync of an owner, the raw log, the events, the lesson
  -- records, the history, the branches, the accounts and the branch of every teacher are as
  -- before. Either it ends in a server error, and no course but those that ClassIn listed has
  -- another branch; or each listed course is in the picked branch afterwards, where one is
  -- picked, and every other course in the branch that it was in.
  pub dashboard_sync-Synced :
      (session : Session) (state : AppState R)
      → session.role ≡ "owner"
      → let branch = session.branch_filter in
        let (t, page) = dashboard_sync net now (some session) state in
        Synced branch
          (listed_ids (client_for session branch state) branch state.events)
          state.events
          t.events
          page
  unfolding dashboard_sync
  dashboard_sync-Synced session state h =
      let branch = session.branch_filter in
      let creds = client_for session branch state in
      if_true
        (λ (done : AppState R × SyncPage).
          Synced branch (listed_ids creds branch state.events) state.events done.0.events done.1)
        (session.role == "owner") (sync_by net now session creds state) (state, forbidden)
        ((==_iff session.role "owner").1 h) (sync_by-Synced session creds state)
