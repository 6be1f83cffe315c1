-- ===== src/Access/Sessions.antt =====
-- src/lib/auth.ts, lines 73 to 111: the check of a request against the sessions.
use mathlib.Core.List.{Mem, mem-cons_self, mem-cons_of_mem}
use wireguard_panel.Base.{
  ℕ, ◌<◌, subst, ◌≡◌, ◌⊎◌, refl, ap, ◌∙◌, inl, inr, Bool, true, false, List, [], ◌∷◌, Option, none,
  some, ok, err, arith, Bool-cases, find, if◌then◌else◌,
}
use wireguard_panel.Base.Text.{Text, text_eq→eq}
use wireguard_panel.Access.{
  read, write, delete, settings, router_view, peer_view, traffic_view, traffic_reset,
  settings_manage, peer_create, peer_update, peer_disable, peer_delete, peer_bulk, peer_rotate_keys,
  peer_view_config, peer_download_config, router_manage, pool_manage, profile_manage,
  bandwidth_manage, drift_resolve, audit_read, operations_read, user_manage, Role, super_admin,
  administrator, read_only, admin, operator, viewer, Permission, can, administrator_permissions,
  read_only_permissions, operator_permissions, User, Session, is_live, is_user_of, session_user,
  get_session, delete_sessions, destroy_session, unauthenticated, check_user, require_user,
}

session_user-delete_sessions :
    (now : ℕ) (hash : Text) (sessions : List Session) (users : List User)
    → session_user now hash (delete_sessions hash sessions) users ≡ none
unfolding session_user delete_sessions
session_user-delete_sessions now hash [] users = refl
session_user-delete_sessions now hash (s ∷ sessions) users =
    ground (arith, session_user-delete_sessions now hash sessions users)

-- After the end of a session its token, which is not empty, is refused as not logged in, for every
-- permission and whoever else has a session.
pub require_user-destroy_session :
    (hash_token : Text → Text) (now : ℕ) (sessions : List Session) (users : List User) (c : ℕ)
    (token : Text) (permission : Permission)
    → require_user hash_token now
        (destroy_session hash_token sessions (some (c ∷ token)))
        users
        (some (c ∷ token))
        permission
      ≡ err unauthenticated
unfolding require_user destroy_session get_session check_user
require_user-destroy_session hash_token now sessions users c token permission =
    ap (check_user permission)
      (session_user-delete_sessions now (hash_token (c ∷ token)) sessions users)
    ∙ refused
  where
    refused : check_user permission none ≡ err unauthenticated
    refused = refl

-- A session under this hash that has not expired, of an enabled user with the session's identifier.
abbrev pub IsAdmitted : ℕ → Text → List User → User → Session → Type 0
IsAdmitted now hash users u s =
    (s.token_hash ≡ hash)
    × (now < s.expires_at)
    × (u.id ≡ s.user_id)
    × (u.enabled ≡ true)
    × Mem u users

-- One of the sessions admits the user.
abbrev pub Admits : ℕ → Text → List Session → List User → User → Type 0
Admits now hash [] users u = ⊥
Admits now hash (s ∷ sessions) users u =
    IsAdmitted now hash users u s ⊎ Admits now hash sessions users u

-- What a reader may do.
pub data IsReading : Permission → Type 0 where
  reads : IsReading read
  views_routers : IsReading router_view
  views_peers : IsReading peer_view
  views_traffic : IsReading traffic_view
  reads_audit : IsReading audit_read
  reads_operations : IsReading operations_read

-- The role has the permission: readers only read, and only super administrators manage users.
pub record IsEntitled (role : Role) (permission : Permission) : Type 0 where
  pub allowed : can role permission ≡ true
  pub reader : (role ≡ read_only) ⊎ (role ≡ viewer) → IsReading permission
  pub manager : permission ≡ user_manage → (role ≡ super_admin) ⊎ (role ≡ admin)

find-found :
    (s : Session) (users : List User) (u : User)
    → find (is_user_of s) users ≡ some u
    → (u.id ≡ s.user_id) × (u.enabled ≡ true) × Mem u users
find-found s [] u h = cc
find-found s (v ∷ users) u h = elim (Bool-cases (is_user_of s v)) [
  | inl e ↦
      let same : v ≡ u = ground (arith, h, e) in
      subst (λ x. (x.id ≡ s.user_id) × (x.enabled ≡ true) × Mem x (v ∷ users)) same
        (text_eq→eq v.id s.user_id (ground (arith, e)), ground (arith, e), mem-cons_self)
  | inr e ↦ let (a, b, c) = find-found s users u (rw e at h) in (a, b, mem-cons_of_mem v c)
]

is_live-values :
    (now : ℕ) (hash : Text) (s : Session)
    → is_live now hash s ≡ true
    → (s.token_hash ≡ hash) × (now < s.expires_at)
is_live-values now hash s h = (text_eq→eq s.token_hash hash (ground (arith, h)), ground (arith, h))

pick :
    (live : Bool) (found rest : Option User) (u : User)
    → (if live then (elim found [ none ↦ rest | some v ↦ some v ]) else rest) ≡ some u
    → ((live ≡ true) × (found ≡ some u)) ⊎ (rest ≡ some u)
pick true none rest u h = inr h
pick true (some v) rest u h = inl (refl, h)
pick false found rest u h = inr h

session_user-Admits :
    (now : ℕ) (hash : Text) (sessions : List Session) (users : List User) (u : User)
    → session_user now hash sessions users ≡ some u
    → Admits now hash sessions users u
unfolding session_user
session_user-Admits now hash [] users u h = absurd (ground arith)
session_user-Admits now hash (s ∷ sessions) users u h =
    elim (pick (is_live now hash s) (find (is_user_of s) users) _ u h) [
      | inl (live, found) ↦
          let (a, b) = is_live-values now hash s live in
          let (c, d, e) = find-found s users u found in inl (a, b, c, d, e)
      | inr later ↦ inr (session_user-Admits now hash sessions users u later)
    ]

check_user-eq-ok :
    (permission : Permission) (found : Option User) (u : User)
    → check_user permission found ≡ ok u
    → (found ≡ some u) × (can u.role permission ≡ true)
unfolding check_user
check_user-eq-ok permission none u h = absurd (ground arith)
check_user-eq-ok permission (some v) u h = elim (Bool-cases (can v.role permission)) [
  | inl e ↦ ground arith
  | inr e ↦ absurd (ground arith)
]

manages_users : (role : Role) → can role user_manage ≡ true → (role ≡ super_admin) ⊎ (role ≡ admin)
unfolding can administrator_permissions read_only_permissions operator_permissions
manages_users super_admin h = inl refl
manages_users admin h = inr refl
manages_users administrator h = ground arith
manages_users operator h = ground arith
manages_users read_only h = ground arith
manages_users viewer h = ground arith

reads_only : (permission : Permission) → can read_only permission ≡ true → IsReading permission
unfolding can read_only_permissions
reads_only read h = reads
reads_only write h = cc
reads_only delete h = cc
reads_only settings h = cc
reads_only router_view h = views_routers
reads_only peer_view h = views_peers
reads_only traffic_view h = views_traffic
reads_only traffic_reset h = cc
reads_only settings_manage h = cc
reads_only peer_create h = cc
reads_only peer_update h = cc
reads_only peer_disable h = cc
reads_only peer_delete h = cc
reads_only peer_bulk h = cc
reads_only peer_rotate_keys h = cc
reads_only peer_view_config h = cc
reads_only peer_download_config h = cc
reads_only router_manage h = cc
reads_only pool_manage h = cc
reads_only profile_manage h = cc
reads_only bandwidth_manage h = cc
reads_only drift_resolve h = cc
reads_only audit_read h = reads_audit
reads_only operations_read h = reads_operations
reads_only user_manage h = cc

viewer_reads_only : (permission : Permission) → can viewer permission ≡ true → IsReading permission
unfolding can read_only_permissions
viewer_reads_only permission h = reads_only permission h

can-IsEntitled :
    (role : Role) (permission : Permission)
    → can role permission ≡ true
    → IsEntitled role permission
can-IsEntitled role permission h = record {
  allowed = h;
  reader = λ r. elim r [
    | inl e ↦ reads_only permission (rw e at h)
    | inr e ↦ viewer_reads_only permission (rw e at h)
  ];
  manager = λ e. manages_users role (rw e at h);
}

-- A request passes the check only with a session under the hash of the token it carries that has not
-- expired, of an enabled user, whose role has the permission; and then a reader's permission is one
-- of the six to read, and only the super administrators, under either name of the role, manage users.
pub require_user-Admits :
    (hash_token : Text → Text) (now : ℕ) (sessions : List Session) (users : List User)
    (token : Text) (permission : Permission) (u : User)
    → require_user hash_token now sessions users (some token) permission ≡ ok u
    → Admits now (hash_token token) sessions users u × IsEntitled u.role permission
unfolding require_user get_session
require_user-Admits hash_token now sessions users [] permission u h =
    absurd (ground (arith, check_user-eq-ok permission none u h))
require_user-Admits hash_token now sessions users (c ∷ token) permission u h =
    let (e, allowed) = check_user-eq-ok permission _ u h in
    (
      session_user-Admits now (hash_token (c ∷ token)) sessions users u e,
      can-IsEntitled u.role permission allowed,
    )

-- Every permission of a reader is one of an administrator, and every one of an administrator is
-- one of a super administrator; and only the super administrators, under either name of the role,
-- manage users.
pub can_monotone :
    (permission : Permission) (role : Role)
    → (can read_only permission ≡ true → can administrator permission ≡ true)
      × (can administrator permission ≡ true → can super_admin permission ≡ true)
      × (can role user_manage ≡ true → (role ≡ super_admin) ⊎ (role ≡ admin))
unfolding can administrator_permissions read_only_permissions
can_monotone permission role = (ground arith, ground arith, manages_users role)
