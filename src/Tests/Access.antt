-- ===== src/Tests/Access.antt =====
-- Runs of the access checks: a reader's session that ends at 1000, and a guessed password.
use wireguard_panel.Base.{◌≡◌, refl, true, [], ◌∷◌, none, some, ok, err, arith}
use wireguard_panel.Base.Text.{Text, codes, text_eq}
use wireguard_panel.Access.{
  read_only, peer_view, can, read_only_permissions, User, Session, session_user, get_session,
  destroy_session, unauthenticated, check_user, require_user, record_login_failure, is_blocked,
}
use wireguard_panel.Access.Sessions.{
  Admits, IsEntitled, require_user-destroy_session, require_user-Admits,
}
use wireguard_panel.Access.Logins.{failures, record_login_failure-is_blocked}

-- A stand-in for the hash.
abbrev hash : Text → Text
hash token = 35 ∷ token

abbrev reader : User
reader = record { id = codes "u1"; username = codes "ann"; role = read_only; enabled = true }

abbrev session : Session
session = record { user_id = codes "u1"; token_hash = codes "#t"; expires_at = 1000 }

reader_passes :
    require_user hash 10 (session ∷ []) (reader ∷ []) (some (codes "t")) peer_view ≡ ok reader
unfolding require_user get_session session_user check_user can read_only_permissions text_eq
reader_passes = refl

require_user-Admits_example :
    Admits 10 (codes "#t") (session ∷ []) (reader ∷ []) reader × IsEntitled read_only peer_view
require_user-Admits_example =
    require_user-Admits hash 10 (session ∷ []) (reader ∷ []) (codes "t") peer_view reader
      reader_passes

require_user-destroy_session_example :
    require_user hash 10
      (destroy_session hash (session ∷ []) (some (codes "t")))
      (reader ∷ [])
      (some (codes "t"))
      peer_view
    ≡ err unauthenticated
require_user-destroy_session_example =
    require_user-destroy_session hash 10 (session ∷ []) (reader ∷ []) 116 [] peer_view

record_login_failure-is_blocked_example :
    is_blocked 900000 (
      some (
        record_login_failure 4000
          (some (failures (1000 ∷ 2000 ∷ 3000 ∷ []) (record_login_failure 0 none)))))
    ≡ true
record_login_failure-is_blocked_example =
    record_login_failure-is_blocked 0 (1000 ∷ 2000 ∷ 3000 ∷ []) 4000 900000
      (omega arith, (omega arith, (omega arith, tt))) (omega arith) (omega arith) (omega arith)
