-- ===== src/Traffic/Polling.antt =====
-- src/server/traffic-accounting.ts, lines 59 to 76: the loop of one poll over the rows of a router.
pub mod Books
use wireguard_panel.Base.{
  ℕ, ◌+◌, ◌≡◌, Bool, true, false, ◌&&◌, ◌||◌, List, [], ◌∷◌, ◌++◌, Option, none, some, Result, ok,
  err, if◌then◌else◌, find,
}
use wireguard_panel.Base.Text.{Text, text_eq}
use wireguard_panel.Quota.{QuotaPeriod}
use wireguard_panel.Traffic.Rows.{AccountingPeer, RemotePeer, Account, Window}
use wireguard_panel.Traffic.Observe.{Observation, record_observation}
use wireguard_panel.Traffic.Enforce.{
  Action, Enforcing, disabled_by_quota, enforce_observation, to_disabled, reenabled, nothing,
}

-- A peer as the router lists it.
pub record Listed : Type 0 where
  pub id : Text
  pub public_key : Text
  pub peer : RemotePeer

-- A row, the times at which its turn reads the clock, and what the router answers its calls.
pub record Turn : Type 0 where
  pub remote_id : Option Text
  pub public_key : Text
  pub account : Account
  pub now : ℕ
  pub later : ℕ
  pub answers : List Bool

pub record Policy : Type 0 where
  pub online_seconds : ℕ
  pub sample_seconds : ℕ
  pub window : ℕ → QuotaPeriod → Result Text Window

pub record Tally : Type 0 where
  pub observed : ℕ
  pub disabled : ℕ
  pub reenabled : ℕ
  pub failed : ℕ

abbrev pub same_id : Text → Option Text → Bool
same_id id none = false
same_id id (some remote_id) = text_eq id remote_id

abbrev pub is_remote_of : Turn → Listed → Bool
is_remote_of local item =
    same_id item.id local.remote_id || text_eq item.public_key local.public_key

abbrev pub count_action : Tally → Option Action → Tally
count_action t (some to_disabled) = record t { disabled = t.disabled + 1 }
count_action t (some reenabled) = record t { reenabled = t.reenabled + 1 }
count_action t (some nothing) = t
count_action t none = record t { failed = t.failed + 1 }

-- `remote.disabled = false` of line 177, which later rows that match the same peer see.
abbrev pub is_cleared : Bool → List Bool → Bool
is_cleared due [] = false
is_cleared due (answer ∷ answers) = due && answer

unfoldable pub clear_disabled : Bool → Turn → List Listed → List Listed
clear_disabled cleared local [] = []
clear_disabled cleared local (item ∷ remotes) =
    if is_remote_of local item
    then record item {
      peer = if cleared then record (item.peer) { disabled = false } else item.peer;
    }
      ∷ remotes
    else item ∷ clear_disabled cleared local remotes

pub record Polled : Type 0 where
  pub rows : List Turn
  pub remotes : List Listed
  pub tally : Tally

-- The body of the loop after the recording, with `catch`: a result is counted and enforced.
unfoldable pub visit :
    Turn
    → RemotePeer
    → List Listed
    → Tally
    → Result Text (Account × Observation)
    → Turn × List Listed × Tally
visit local remote remotes t (err error) = (local, remotes, record t { failed = t.failed + 1 })
visit local remote remotes t (ok (written, result)) =
    let (e, action) =
      enforce_observation local.later
        (record { account = written; remote = remote; answers = local.answers }) result in
    let cleared = is_cleared (result.rolled && disabled_by_quota result.peer) local.answers in
    (
      record local { account = e.account },
      clear_disabled cleared local remotes,
      count_action (record t { observed = t.observed + 1 }) action,
    )

-- `if (!remote) continue;`
unfoldable pub turn :
    Policy → Turn → List Listed → Tally → Option Listed → Turn × List Listed × Tally
turn policy local remotes t none = (local, remotes, t)
turn policy local remotes t (some item) = visit local item.peer remotes t (
    record_observation local.now policy.online_seconds policy.sample_seconds policy.window
      local.account item.peer)

unfoldable pub poll : Policy → List Turn → List Listed → Tally → Polled
poll policy [] remotes t = record { rows = []; remotes = remotes; tally = t }
poll policy (local ∷ locals) remotes t =
    let (row, remotes', t') = turn policy local remotes t (find (is_remote_of local) remotes) in
    let rest = poll policy locals remotes' t' in record rest { rows = row ∷ rest.rows }
