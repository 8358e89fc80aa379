-- ===== src/Admin.antt =====
-- apps/api/src/services/admin-user.service.ts: the tables of administrators and of their sessions.
-- The parameters are scrypt and SHA-256; salts, tokens, ids and times are arguments, and the clock
-- readings of one call are one time. Texts are lists of UTF-16 units. Auth is the request hook,
-- Lockout bounds the guesses of a password, Sessions follows a session, Roles the number of
-- administrators.
pub mod Lockout
pub mod Race
pub mod Sessions
pub mod Roles
pub mod Auth
use freellm_gateway.Base.{
  ℕ, ◌+◌, ◌*◌, String, Bool, true, false, not, ◌&&◌, Option, none, some, List, [], ◌∷◌, ◌++◌, map,
  filter, find, length, ◌==◌, eq_nat, eq_string, eq_units, if◌then◌else◌, ltb, leb, is_some,
  or_else, ◌⊎◌, inl, inr,
}
use freellm_gateway.Keys.Secret.{trim}

abbrev pub failed_login_limit : ℕ
failed_login_limit = 5

abbrev pub lockout_ms : ℕ
lockout_ms = 10 * 60000

abbrev pub session_ttl_ms : ℕ
session_ttl_ms = 7 * 24 * 60 * 60000

-- `scrypt$<salt>$<hash>`, as its parts.
pub record Stored : Type 0 where
  pub scheme : String
  pub salt : String
  pub digest : String

pub record Crypto : Type 0 where
  -- The digest of a text with a salt, both in hex.
  pub scrypt : List ℕ → String → String
  pub sha256 : List ℕ → String

pub data Role : Type 0 where
  admin user : Role

abbrev pub is_admin : Role → Bool
is_admin admin = true
is_admin user = false

pub record AdminUser : Type 0 where
  pub id : String
  pub username : List ℕ
  pub password_hash : Stored
  pub role : Role
  pub enabled : Bool
  pub failed_logins : ℕ
  pub locked_until : Option ℕ
  pub last_login_at : Option ℕ
  pub last_login_ip : Option String

pub record Session : Type 0 where
  pub id : String
  pub user_id : String
  pub token_hash : String
  pub user_agent : Option String
  pub ip : Option String
  pub expires_at : ℕ
  pub revoked_at : Option ℕ

pub record Tables : Type 0 where
  pub users : List AdminUser
  pub sessions : List Session

pub data Reason : Type 0 where
  unknown_user locked bad_password disabled : Reason

pub data LoginAnswer : Type 0 where
  -- The user, the token and its expiry.
  logged_in : String → List ℕ → ℕ → LoginAnswer
  refused : Reason → Option ℕ → LoginAnswer

pub record Meta : Type 0 where
  pub ip : Option String
  pub user_agent : Option String

abbrev pub by_name : List ℕ → List AdminUser → Option AdminUser
by_name username users = find (λ (u : AdminUser). u.username == username) users

abbrev pub by_id : String → List AdminUser → Option AdminUser
by_id id users = find (λ (u : AdminUser). u.id == id) users

-- `adminUser.update({ where: { id } })`
abbrev pub edit_if : String → (AdminUser → AdminUser) → AdminUser → AdminUser
edit_if id f u = if u.id == id then f u else u

abbrev pub edit : String → (AdminUser → AdminUser) → Tables → Tables
edit id f t = record t { users = map (edit_if id f) t.users }

-- `user.lockedUntil && user.lockedUntil.getTime() > Date.now()`
abbrev pub is_locked : ℕ → AdminUser → Bool
is_locked now u = elim u.locked_until [ none ↦ false | some until ↦ ltb now until ]

-- What a wrong password writes into a row, computed from the row u that `login` found: the count, and
-- the lock from the fifth on.
abbrev pub count_failure : ℕ → AdminUser → AdminUser → AdminUser
count_failure now u row = record row {
  failed_logins = u.failed_logins + 1;
  locked_until =
      if leb failed_login_limit (u.failed_logins + 1) then some (now + lockout_ms) else none;
}

abbrev pub succeed : ℕ → Meta → AdminUser → AdminUser
succeed now about u = record u {
  failed_logins = 0;
  locked_until = none;
  last_login_at = some now;
  last_login_ip = if is_some about.ip then about.ip else u.last_login_ip;
}

abbrev pub unlocked : AdminUser → AdminUser
unlocked u = record u { failed_logins = 0; locked_until = none }

module _ (C : Crypto) where
  unfoldable pub hash_password : String → List ℕ → Stored
  hash_password salt plain = record { scheme = "scrypt"; salt = salt; digest = C.scrypt plain salt }

  unfoldable pub verify_password : List ℕ → Stored → Bool
  verify_password plain stored =
      stored.scheme == "scrypt"
      && not (stored.salt == "")
      && not (stored.digest == "")
      && C.scrypt plain stored.salt == stored.digest

  abbrev pub new_session : ℕ → String → List ℕ → Meta → AdminUser → Session
  new_session now id token about u = record {
    id = id;
    user_id = u.id;
    token_hash = C.sha256 token;
    user_agent = about.user_agent;
    ip = about.ip;
    expires_at = now + session_ttl_ms;
    revoked_at = none;
  }

  -- `login` from the answer of `findUnique` on, with the id and the token that a success takes: the
  -- user as found, and the tables at the time of the updates, which other requests may have changed
  -- since.
  unfoldable pub login_as :
      ℕ → String → List ℕ → List ℕ → Meta → AdminUser → Tables → LoginAnswer × Tables
  unfolding verify_password
  login_as now session_id token password about u t =
      if not u.enabled
      then (refused disabled none, t)
      else if is_locked now u
      then (refused locked u.locked_until, t)
      else if not (verify_password password u.password_hash)
      then (
        refused bad_password (count_failure now u u).locked_until,
        edit u.id (count_failure now u) t,
      )
      else (
        logged_in u.id token (now + session_ttl_ms),
        edit u.id (succeed now about)
            (record t { sessions = t.sessions ++ new_session now session_id token about u ∷ [] }),
      )

  -- With nothing else between the finding and the updates.
  unfoldable pub login :
      ℕ → String → List ℕ → List ℕ → List ℕ → Meta → Tables → LoginAnswer × Tables
  unfolding login_as
  login now session_id token username password about t = elim (by_name username t.users) [
    | none ↦ (refused unknown_user none, t)
    | some u ↦ login_as now session_id token password about u t
  ]

  -- `session.findUnique({ where: { tokenHash } })`
  abbrev pub by_token : List ℕ → List Session → Option Session
  by_token token sessions = find (λ (s : Session). s.token_hash == C.sha256 token) sessions

  -- The session with its user.
  unfoldable pub resolve_session : ℕ → List ℕ → Tables → Option (Session × AdminUser)
  resolve_session now token t = elim (by_token token t.sessions) [
    | none ↦ none
    | some s ↦
        if is_some s.revoked_at
        then none
        else if leb s.expires_at now
        then none
        else elim (by_id s.user_id t.users) [ none ↦ none | some u ↦ some (s, u) ]
  ]

  abbrev pub revoke_if : (Session → Bool) → ℕ → Session → Session
  revoke_if p now s = if p s then record s { revoked_at = some now } else s

  unfoldable pub logout : ℕ → List ℕ → Tables → Tables
  logout now token t = record t {
    sessions = map (revoke_if (λ s. s.token_hash == C.sha256 token) now) t.sessions;
  }

  unfoldable pub revoke_session : ℕ → String → Tables → Bool × Tables
  revoke_session now id t = elim (find (λ (s : Session). s.id == id) t.sessions) [
    | none ↦ (false, t)
    | some _ ↦ (true, record t { sessions = map (revoke_if (λ s. s.id == id) now) t.sessions })
  ]

  unfoldable pub change_password : String → String → List ℕ → List ℕ → Tables → Bool × Tables
  unfolding verify_password hash_password
  change_password salt id old_password new_password t = elim (by_id id t.users) [
    | none ↦ (false, t)
    | some u ↦ if not (verify_password old_password u.password_hash) then (false, t) else (
      true,
      edit id (λ v. record (unlocked v) { password_hash = hash_password salt new_password }) t,
    )
  ]

  unfoldable pub create_user :
      String → String → List ℕ → List ℕ → Role → Tables → (String ⊎ String) × Tables
  unfolding hash_password trim
  create_user id salt username password role t =
      let trimmed = trim username in
      if ltb (length trimmed) 3
      then (inl "用户名至少 3 个字符", t)
      else if ltb 32 (length trimmed)
      then (inl "用户名最多 32 个字符", t)
      else if ltb (length password) 8
      then (inl "密码至少 8 个字符", t)
      else if is_some (by_name trimmed t.users)
      then (inl "用户名已存在", t)
      else (
        inr id,
        record t {
          users =
              t.users
              ++ record {
                id = id;
                username = trimmed;
                password_hash = hash_password salt password;
                role = role;
                enabled = true;
                failed_logins = 0;
                locked_until = none;
                last_login_at = none;
                last_login_ip = none;
              }
                ∷ [];
        },
      )

  -- None where it succeeds, or the error.
  unfoldable pub reset_password : String → String → List ℕ → Tables → Option String × Tables
  unfolding hash_password
  reset_password salt id new_password t =
      if ltb (length new_password) 8 then (some "新密码至少 8 个字符", t) else elim (by_id id t.users) [
        | none ↦ (some "用户不存在", t)
        | some _ ↦ (
          none,
          edit id (λ v. record (unlocked v) { password_hash = hash_password salt new_password }) t,
        )
      ]

abbrev pub is_enabled : AdminUser → Bool
is_enabled u = u.enabled

abbrev pub is_active_admin : AdminUser → Bool
is_active_admin u = is_admin u.role && u.enabled

unfoldable pub set_role : String → Role → Tables → Option String × Tables
set_role id role t = elim (by_id id t.users) [
  | none ↦ (some "用户不存在", t)
  | some u ↦
      if is_admin u.role && not (is_admin role) && leb (length (filter is_active_admin t.users)) 1
      then (some "系统至少需要保留 1 个 admin 角色", t)
      else (none, edit id (λ v. record v { role = role }) t)
]

unfoldable pub set_enabled : String → Bool → Tables → Bool × Tables
set_enabled id enabled t = elim (by_id id t.users) [
  | none ↦ (false, t)
  | some _ ↦ (true, edit id (λ v. record v { enabled = enabled }) t)
]

unfoldable pub unlock : String → Tables → Bool × Tables
unlock id t = elim (by_id id t.users) [ none ↦ (false, t) | some _ ↦ (true, edit id unlocked t) ]

-- The sessions of the user go with the row.
unfoldable pub delete_user : String → String → Tables → Option String × Tables
delete_user id current t =
    if id == current
    then (some "不能删除当前登录账号", t)
    else if leb (length (filter is_enabled t.users)) 1
    then (some "系统至少需要保留 1 个启用的管理员", t)
    else elim (by_id id t.users) [
      | none ↦ (some "用户不存在", t)
      | some _ ↦ (
        none,
        record {
          users = filter (λ (u : AdminUser). not (u.id == id)) t.users;
          sessions = filter (λ (s : Session). not (s.user_id == id)) t.sessions;
        },
      )
    ]
