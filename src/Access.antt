-- ===== src/Access.antt =====
-- src/lib/auth.ts, lines 9 to 142: roles and permissions, sessions, and the limit on failed
-- logins. The hash of a token is a parameter. Times are milliseconds.
pub mod Sessions
pub mod Logins
use wireguard_panel.Base.{
  ℕ, ◌+◌, ◌-◌, ◌*◌, ◌/◌, max, Bool, true, false, not, ◌&&◌, ◌||◌, List, [], ◌∷◌, Option, none, some,
  Result, ok, err, ltb, leb, if◌then◌else◌, find,
}
use wireguard_panel.Base.Text.{Text, text_eq}

pub data Role : Type 0 where
  super_admin administrator read_only admin operator viewer : Role

pub data Permission : Type 0 where
  read write delete settings : Permission
  router_view peer_view traffic_view traffic_reset settings_manage : Permission
  peer_create peer_update peer_disable peer_delete peer_bulk peer_rotate_keys : Permission
  peer_view_config peer_download_config : Permission
  router_manage pool_manage profile_manage bandwidth_manage drift_resolve : Permission
  audit_read operations_read user_manage : Permission

-- `administratorPermissions.has`: the set lists every permission but one.
unfoldable pub administrator_permissions : Permission → Bool
administrator_permissions user_manage = false
administrator_permissions _ = true

unfoldable pub read_only_permissions : Permission → Bool
read_only_permissions read = true
read_only_permissions router_view = true
read_only_permissions peer_view = true
read_only_permissions traffic_view = true
read_only_permissions audit_read = true
read_only_permissions operations_read = true
read_only_permissions _ = false

-- `permission === "read" || permission === "write" || permission.startsWith("peer:")`.
unfoldable pub operator_permissions : Permission → Bool
operator_permissions read = true
operator_permissions write = true
operator_permissions peer_view = true
operator_permissions peer_create = true
operator_permissions peer_update = true
operator_permissions peer_disable = true
operator_permissions peer_delete = true
operator_permissions peer_bulk = true
operator_permissions peer_rotate_keys = true
operator_permissions peer_view_config = true
operator_permissions peer_download_config = true
operator_permissions _ = false

unfoldable pub can : Role → Permission → Bool
can super_admin permission = true
can admin permission = true
can administrator permission = administrator_permissions permission
can operator permission = operator_permissions permission
can read_only permission = read_only_permissions permission
can viewer permission = read_only_permissions permission

pub record User : Type 0 where
  pub id : Text
  pub username : Text
  pub role : Role
  pub enabled : Bool

pub record Session : Type 0 where
  pub user_id : Text
  pub token_hash : Text
  pub expires_at : ℕ

abbrev pub is_live : ℕ → Text → Session → Bool
is_live now hash s = text_eq s.token_hash hash && ltb now s.expires_at

abbrev pub is_user_of : Session → User → Bool
is_user_of s u = text_eq u.id s.user_id && u.enabled

-- The first row of the join of lines 80 to 83.
unfoldable pub session_user : ℕ → Text → List Session → List User → Option User
session_user now hash [] users = none
session_user now hash (s ∷ sessions) users =
    let rest = session_user now hash sessions users in
    if is_live now hash s
    then (elim (find (is_user_of s) users) [ none ↦ rest | some u ↦ some u ])
    else rest

unfoldable pub get_session :
    (Text → Text) → ℕ → List Session → List User → Option Text → Option User
get_session hash_token now sessions users none = none
get_session hash_token now sessions users (some []) = none
get_session hash_token now sessions users (some (c ∷ token)) =
    session_user now (hash_token (c ∷ token)) sessions users

-- `DELETE FROM sessions WHERE token_hash = $1`.
unfoldable pub delete_sessions : Text → List Session → List Session
delete_sessions hash [] = []
delete_sessions hash (s ∷ sessions) =
    let rest = delete_sessions hash sessions in if text_eq s.token_hash hash then rest else s ∷ rest

unfoldable pub destroy_session : (Text → Text) → List Session → Option Text → List Session
destroy_session hash_token sessions none = sessions
destroy_session hash_token sessions (some []) = sessions
destroy_session hash_token sessions (some (c ∷ token)) =
    delete_sessions (hash_token (c ∷ token)) sessions

-- `createSession`, for the token that was drawn.
unfoldable pub create_session : (Text → Text) → ℕ → ℕ → Text → Text → List Session → List Session
create_session hash_token now ttl_hours user_id token sessions =
    record {
      user_id = user_id;
      token_hash = hash_token token;
      expires_at = now + ttl_hours * 60 * 60 * 1000;
    }
    ∷ sessions

pub data Refusal : Type 0 where
  -- status 401 and status 403
  unauthenticated forbidden : Refusal

unfoldable pub check_user : Permission → Option User → Result Refusal User
check_user permission none = err unauthenticated
check_user permission (some user) = if can user.role permission then ok user else err forbidden

unfoldable pub require_user :
    (Text → Text) → ℕ → List Session → List User → Option Text → Permission → Result Refusal User
require_user hash_token now sessions users token permission =
    check_user permission (get_session hash_token now sessions users token)

-- A row of `login_attempts`.
pub record Attempts : Type 0 where
  pub attempt_count : ℕ
  pub window_started_at : ℕ
  pub blocked_until : Option ℕ

-- 15 minutes.
abbrev pub window : ℕ
window = 900_000

abbrev pub is_stale : ℕ → Attempts → Bool
is_stale now a = ltb (a.window_started_at + window) now

abbrev pub next_count : ℕ → Attempts → ℕ
next_count now a = if is_stale now a then 1 else a.attempt_count + 1

-- The row after `recordLoginFailure`; the right sides of the update read the old row.
unfoldable pub record_login_failure : ℕ → Option Attempts → Attempts
record_login_failure now none = record {
  attempt_count = 1;
  window_started_at = now;
  blocked_until = none;
}
record_login_failure now (some a) = record {
  attempt_count = next_count now a;
  window_started_at = if is_stale now a then now else a.window_started_at;
  blocked_until = if leb 5 (next_count now a) then some (now + window) else a.blocked_until;
}

unfoldable pub is_blocked : ℕ → Option Attempts → Bool
is_blocked now none = false
is_blocked now (some a) = elim a.blocked_until [ none ↦ false | some until ↦ ltb now until ]

-- `Math.max(1, Math.ceil((blocked_until - now) / 1000))`.
unfoldable pub retry_after : ℕ → Option Attempts → ℕ
retry_after now none = 0
retry_after now (some a) = elim a.blocked_until [
  | none ↦ 0
  | some until ↦ max 1 ((until - now + 999) / 1000)
]
