-- ===== src/Tests/Users.antt =====
-- Runs of the change of an account: one of two super administrators becomes a reader.
use wireguard_panel.Base.{◌≡◌, refl, true, [], ◌∷◌, none, ok, any, arith}
use wireguard_panel.Base.Text.{Text, codes, text_eq}
use wireguard_panel.Access.{Role}
use wireguard_panel.Users.{
  Account, Accounts, ManagedRole, UpdateUserInput, is_enabled_super, update_managed_user,
}
use wireguard_panel.Users.Admins.{IsKey, update_managed_user-KeepsAdmin}

-- A stand-in for the hash.
abbrev hash : Text → Text
hash password = 35 ∷ password

abbrev account : Text → Role → Account
account id role = record {
  user = record { id = id; username = id; role = role; enabled = true };
  password_hash = codes "#";
}

abbrev two_admins : Accounts
two_admins = record {
  users = account (codes "ann") Role.super_admin ∷ account (codes "bob") Role.super_admin ∷ [];
  sessions = record { user_id = codes "ann"; token_hash = codes "t"; expires_at = 9 } ∷ [];
}

abbrev demoted : UpdateUserInput
demoted = record { role = ManagedRole.read_only; enabled = true; password = none }

abbrev one_admin : Accounts
one_admin = record {
  users = account (codes "ann") Role.read_only ∷ account (codes "bob") Role.super_admin ∷ [];
  sessions = [];
}

ann-demoted : update_managed_user hash (codes "ann") demoted (codes "bob") two_admins ≡ ok one_admin
unfolding update_managed_user text_eq
ann-demoted = refl

ann-IsKey : IsKey (codes "ann") two_admins.users
unfolding text_eq
ann-IsKey = ((λ _. refl), ((λ e. ground (arith, e)), tt))

update_managed_user-KeepsAdmin_example : any is_enabled_super one_admin.users ≡ true
update_managed_user-KeepsAdmin_example =
    update_managed_user-KeepsAdmin hash (codes "ann") demoted (codes "bob") two_admins one_admin
      ann-IsKey ann-demoted refl
