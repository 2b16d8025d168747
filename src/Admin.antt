-- ===== src/Admin.antt =====
-- web/routes_admin.py: the requests of /admin, with require_session and require_role of web/app.py.
pub mod Owned
pub mod Managers
pub mod Outsiders
pub mod Home
use Prim.Native.String.{◌++◌ as concat}
use api_dashboard.Prelude.{
  ℕ, ◌+◌, String, ◌≡◌, Bool, true, false, ◌&&◌, ◌||◌, not, Option, none, some, List, [], ◌∷◌, elem,
  find, is_some, nonempty, ◌==◌, nat_eq, string_eq, option_eq, if◌then◌else◌,
}
use api_dashboard.Session.{Session}
use api_dashboard.Store.Rows.{Store, User}
use api_dashboard.Store.Masters.{set_course_branch, set_teacher_branch}
use api_dashboard.Store.Accounts.{
  Result, ok, integrity_error, upsert_branch, delete_branch, create_user, set_user_active,
  set_user_password,
}
use api_dashboard.Store.Queries.{users, get_user_by_username}

-- What the forms use of Python's texts. Ids are natural numbers: a field that writes a negative
-- number is outside the model.
pub record Texts : Type 0 where
  pub strip : String → String
  -- value.lstrip("-").isdigit()
  pub digits : String → Bool
  -- int(value); none where it raises ValueError
  pub int : String → Option ℕ
  -- key.removeprefix(prefix), where the key starts with the prefix
  pub after_prefix : String → String → Option String
  -- str(n)
  pub str : ℕ → String
  -- hash_password(password), with the salt that it drew
  pub hash_password : String → String

pub data Reply : Type 0 where
  login_page forbidden server_error : Reply
  msg err : String → Reply

abbrev pub roles : List String
roles = "owner" ∷ "manager" ∷ "teacher" ∷ []

abbrev pub own_teacher : Session → User → Bool
own_teacher session u = (u.role == "teacher") && (u.branch_id == session.branch_id)

-- A handler, from the session that its guard has passed.
abbrev pub Handler : Type 0 → Type 0
Handler R = Session → Store R → Store R × Reply

module _ {R : Type 0} where
  -- _guard, and the rest of the handler.
  unfoldable pub guard : List String → Handler R → Option Session → Store R → Store R × Reply
  guard allowed handler none s = (s, login_page)
  guard allowed handler (some session) s =
      if elem session.role allowed then handler session s else (s, forbidden)

  -- _managed_user
  unfoldable pub managed_user : Session → ℕ → Store R → Option User
  managed_user session user_id s = elim (find (λ (u : User). u.id == user_id) (users s)) [
    | none ↦ none
    | some target ↦
        if session.role == "owner"
        then some target
        else if own_teacher session target
        then some target
        else none
  ]

module _ (texts : Texts) where
  -- _int_or_none; none where it raises.
  unfoldable pub int_or_none : String → Option (Option ℕ)
  int_or_none value =
      if texts.digits (texts.strip value)
      then elim (texts.int (texts.strip value)) [ none ↦ none | some n ↦ some (some n) ]
      else some none

module _ {R : Type 0} (texts : Texts) where
  -- The body of the loop of _assign: the store, and whether a row was set; none where it raises.
  abbrev assign_item :
      (ℕ → Option ℕ → Store R → Store R) → Option String → String → Store R → Option (Store R × ℕ)
  assign_item setter none value s = some (s, 0)
  assign_item setter (some id) value s = elim (int_or_none texts id) [
    | none ↦ none
    | some none ↦ some (s, 0)
    | some (some target) ↦ elim (int_or_none texts value) [
      | none ↦ none
      | some branch ↦ some (setter target branch s, 1)
    ]
  ]

  -- _assign on the items of the form: the store, and how many were set, or none where it raised.
  unfoldable pub assign :
      String
      → (ℕ → Option ℕ → Store R → Store R)
      → List (String × String)
      → Store R
      → ℕ
      → Store R × Option ℕ
  assign prefix setter [] s changed = (s, some changed)
  assign prefix setter ((key, value) ∷ items) s changed =
      elim (assign_item setter (texts.after_prefix prefix key) value s) [
        | none ↦ (s, none)
        | some (s', n) ↦ assign prefix setter items s' (changed + n)
      ]

  abbrev assigned : String → Store R × Option ℕ → Store R × Reply
  assigned what (s, none) = (s, server_error)
  assigned what (s, some n) = (s, msg (concat what (texts.str n)))

-- The requests that change something, with the fields of their forms.
pub data Request : Type 0 where
  branch_add : (name sid secret : String) → Request
  branch_delete : (branch_id : ℕ) → Request
  course_branch teacher_branch : (items : List (String × String)) → Request
  user_create : (username password role branch_id teacher_uid : String) → Request
  user_active : (user_id active : ℕ) → Request
  user_password : (user_id : ℕ) (password : String) → Request

module _ {R : Type 0} (texts : Texts) (now : String) (new_id : ℕ) where
  -- What a statement raises leaves the handler.
  abbrev pub saved : String → Result (Store R × ℕ) → Store R → Store R × Reply
  saved what (ok (s', n)) s = (s', msg what)
  saved what integrity_error s = (s, server_error)

  unfoldable pub admin_branch_add : String → String → String → Handler R
  admin_branch_add name sid secret session s =
      let name = texts.strip name in
      if not (nonempty name)
      then (s, err "관 이름을 입력하세요.")
      else saved (concat (concat "관 「" name) "」 저장됨")
          (upsert_branch now new_id name none (some (texts.strip sid)) (some (texts.strip secret))
            s)
          s

  unfoldable pub admin_branch_delete : ℕ → Handler R
  admin_branch_delete branch_id session s =
      let (s', deleted) = delete_branch branch_id s in
      if deleted then (s', msg "관을 삭제했습니다.") else (s', err "코스·선생님·계정이 배정된 관은 삭제할 수 없습니다.")

  unfoldable pub admin_course_branch : List (String × String) → Handler R
  admin_course_branch items session s =
      assigned texts "코스" (assign texts "course_branch_" set_course_branch items s 0)

  unfoldable pub admin_teacher_branch : List (String × String) → Handler R
  admin_teacher_branch items session s =
      assigned texts "선생님" (assign texts "teacher_branch_" set_teacher_branch items s 0)

  -- The branch of the new account is known, and its role is allowed.
  abbrev pub create_account : String → String → String → Option ℕ → String → Handler R
  create_account username password role branch teacher_uid session s =
      if is_some (get_user_by_username s username)
      then (s, err "이미 있는 아이디입니다.")
      else elim (int_or_none texts teacher_uid) [
        | none ↦ (s, server_error)
        | some uid ↦
            saved (concat (concat "계정 「" username) "」을 만들었습니다.")
              (create_user now new_id username (texts.hash_password password) role branch uid s) s
      ]

  -- The role and the branch of the new account, by the role of the session.
  abbrev pub checked_account : String → String → String → Option (Option ℕ) → String → Handler R
  checked_account username password role none teacher_uid session s = (s, server_error)
  checked_account username password role (some branch) teacher_uid session s =
      if session.role == "manager"
      then (if not (role == "teacher")
          then (s, err "관장은 선생님 계정만 생성할 수 있습니다.")
          else create_account username password role session.branch_id teacher_uid session s)
      else create_account username password role branch teacher_uid session s

  unfoldable pub admin_user_create : String → String → String → String → String → Handler R
  admin_user_create username password role branch_id teacher_uid session s =
      let username = texts.strip username in
      let password = texts.strip password in
      if not (nonempty username) || not (nonempty password)
      then (s, err "아이디와 비밀번호를 입력하세요.")
      else if not (elem role roles)
      then (s, err "알 수 없는 역할입니다.")
      else checked_account username password role (int_or_none texts branch_id) teacher_uid session
          s

  unfoldable pub admin_user_active : ℕ → ℕ → Handler R
  admin_user_active user_id active session s = elim (managed_user session user_id s) [
    | none ↦ (s, err "권한 범위 밖의 계정입니다.")
    | some target ↦ (set_user_active user_id (not (active == 0)) s, msg "계정 상태를 변경했습니다.")
  ]

  unfoldable pub admin_user_password : ℕ → String → Handler R
  admin_user_password user_id password session s =
      if not (nonempty (texts.strip password))
      then (s, err "새 비밀번호를 입력하세요.")
      else elim (managed_user session user_id s) [
        | none ↦ (s, err "권한 범위 밖의 계정입니다.")
        | some target ↦ (
          set_user_password user_id (texts.hash_password (texts.strip password)) s,
          msg "비밀번호를 재설정했습니다.",
        )
      ]

  -- The handler of a request, behind its guard.
  unfoldable pub admin : Request → Option Session → Store R → Store R × Reply
  admin (branch_add name sid secret) = guard ("owner" ∷ []) (admin_branch_add name sid secret)
  admin (branch_delete id) = guard ("owner" ∷ []) (admin_branch_delete id)
  admin (course_branch items) = guard ("owner" ∷ []) (admin_course_branch items)
  admin (teacher_branch items) = guard ("owner" ∷ []) (admin_teacher_branch items)
  admin (user_create username password role branch_id teacher_uid) =
      guard ("owner" ∷ "manager" ∷ [])
        (admin_user_create username password role branch_id teacher_uid)
  admin (user_active id active) = guard ("owner" ∷ "manager" ∷ []) (admin_user_active id active)
  admin (user_password id password) =
      guard ("owner" ∷ "manager" ∷ []) (admin_user_password id password)
