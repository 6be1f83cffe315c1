-- ===== src/Users.antt =====
-- src/server/user-service.ts: the creation and the change of an account. The hash of a password, which
-- draws its salt, is an argument, and so is the identifier of a new row. An error rolls the
-- transaction back.
pub mod Admins
use wireguard_panel.Base.{
  ℕ, Bool, true, false, not, ◌&&◌, ◌||◌, List, [], ◌∷◌, ◌++◌, map, Option, none, some, Result, ok,
  err, ◌>>=◌, ◌>>◌, guard, leb, ◌==◌, if◌then◌else◌, any, all, find, keep, length,
}
use wireguard_panel.Base.Text.{Text, text_eq, trim}
use wireguard_panel.Base.Decimal.{nonempty}
use wireguard_panel.Access.{Role, User, Session}

pub data ManagedRole : Type 0 where
  super_admin administrator read_only : ManagedRole

abbrev pub as_role : ManagedRole → Role
as_role super_admin = Role.super_admin
as_role administrator = Role.administrator
as_role read_only = Role.read_only

-- A row of `users`, with the hash of its password.
pub record Account : Type 0 where
  pub user : User
  pub password_hash : Text

pub record Accounts : Type 0 where
  pub users : List Account
  pub sessions : List Session

pub data UserError : Type 0 where
  own_account own_role last_super_admin user_not_found bad_username username_taken : UserError

pub record UpdateUserInput : Type 0 where
  pub role : ManagedRole
  pub enabled : Bool
  pub password : Option Text

-- `[a-zA-Z0-9._-]`.
abbrev pub is_username_code : ℕ → Bool
is_username_code c =
    (leb 97 c && leb c 122)
    || (leb 65 c && leb c 90)
    || (leb 48 c && leb c 57)
    || c == 46
    || c == 95
    || c == 45

unfoldable pub normalize_username : Text → Result UserError Text
normalize_username value = do
  let username = trim value
  guard (leb 3 (length username) && leb (length username) 64 && all is_username_code username)
      bad_username
  ok username

abbrev pub has_username : Text → Account → Bool
has_username username a = text_eq a.user.username username

abbrev pub has_user_id : Text → Account → Bool
has_user_id id a = text_eq a.user.id id

unfoldable pub create_managed_user :
    (Text → Text) → Text → Text → Text → ManagedRole → Accounts → Result UserError Accounts
create_managed_user hash_password id username password role db = do
  name ← normalize_username username
  guard (not (any (has_username name) db.users)) username_taken
  ok (record db {
    users =
        db.users
        ++ record {
          user = record { id = id; username = name; role = as_role role; enabled = true };
          password_hash = hash_password password;
        }
          ∷ [];
  })

abbrev pub is_super_admin : Role → Bool
is_super_admin Role.super_admin = true
is_super_admin _ = false

-- `enabled=true AND role='super_admin'`.
abbrev pub is_enabled_super : Account → Bool
is_enabled_super a = a.user.enabled && is_super_admin a.user.role

abbrev pub is_other_super : Text → Account → Bool
is_other_super id a = not (has_user_id id a) && is_enabled_super a

abbrev pub same_role : Role → Role → Bool
same_role Role.super_admin Role.super_admin = true
same_role Role.administrator Role.administrator = true
same_role Role.read_only Role.read_only = true
same_role Role.admin Role.admin = true
same_role Role.operator Role.operator = true
same_role Role.viewer Role.viewer = true
same_role _ _ = false

abbrev pub same_flag : Bool → Bool → Bool
same_flag true b = b
same_flag false b = not b

-- `input.password?.trim() ? await hashPassword(input.password) : null`.
abbrev pub new_hash : (Text → Text) → Option Text → Option Text
new_hash hash_password none = none
new_hash hash_password (some password) =
    if nonempty (trim password) then some (hash_password password) else none

abbrev pub or_hash : Option Text → Text → Text
or_hash none old = old
or_hash (some new) old = new

abbrev pub is_given : Option Text → Bool
is_given none = false
is_given (some hash) = true

-- `UPDATE users SET role=$2,enabled=$3,password_hash=COALESCE($4,password_hash) WHERE id=$1`.
abbrev pub changed_account : Role → Bool → Option Text → Account → Account
changed_account role enabled hash a = record {
  user = record (a.user) { role = role; enabled = enabled };
  password_hash = or_hash hash a.password_hash;
}

abbrev pub on_account : Text → (Account → Account) → Account → Account
on_account id f a = if has_user_id id a then f a else a

abbrev pub or_no_user : Option Account → Result UserError Account
or_no_user none = err user_not_found
or_no_user (some a) = ok a

unfoldable pub update_managed_user :
    (Text → Text) → Text → UpdateUserInput → Text → Accounts → Result UserError Accounts
update_managed_user hash_password id input actor_id db = do
  let is_own = text_eq id actor_id
  let role = as_role input.role
  let hash = new_hash hash_password input.password
  guard (not (is_own && not input.enabled)) own_account
  target ← or_no_user (find (has_user_id id) db.users)
  guard (not (is_own && not (same_role role target.user.role))) own_role
  guard
      (not (
        is_enabled_super target
        && (not input.enabled || not (is_super_admin role))
        && not (any (is_other_super id) db.users)))
      last_super_admin
  ok (record {
    users = map (on_account id (changed_account role input.enabled hash)) db.users;
    sessions =
        if is_given hash
          || not (same_role target.user.role role)
          || not (same_flag target.user.enabled input.enabled)
        then keep (λ (s : Session). not (text_eq s.user_id id)) db.sessions
        else db.sessions;
  })
