-- ===== src/Traffic/Enforce.antt =====
-- src/server/traffic-accounting.ts, lines 172 to 216: the enforcement of a peer's limit.
use wireguard_panel.Base.{
  ℕ, Bool, true, false, not, ◌&&◌, ◌||◌, List, [], ◌∷◌, ◌++◌, Option, none, some, ltb,
  if◌then◌else◌,
}
use wireguard_panel.Base.Int.{ℤ}
use wireguard_panel.Traffic.Rows.{
  DisabledReason, AccountingPeer, RemotePeer, Audit, Account, quota, auto_reenabled, quota_reached,
}
use wireguard_panel.Traffic.Observe.{is_reached, Observation}

pub data Action : Type 0 where
  to_disabled reenabled nothing : Action

-- The state of an enforcement: the rows, the router's peer and what the calls of the router
-- still to come answer. A call that is not listed fails.
pub record Enforcing : Type 0 where
  pub account : Account
  pub remote : RemotePeer
  pub answers : List Bool

-- `setRemoteQuotaState`: the router first, and the row only if the router accepts.
unfoldable pub set_row : Bool → Option ℤ → AccountingPeer → AccountingPeer
set_row true used peer = record peer {
  disabled = true;
  disabled_reason = some quota;
  quota_usage_when_disabled = used;
  quota_bypass_until = none;
}
set_row false used peer = record peer {
  disabled = false;
  disabled_reason = none;
  quota_usage_when_disabled = none;
}

-- `setRemoteQuotaState`: the next answer is the router's to `setPeerDisabled`. A call that takes
-- effect though its answer is lost is not modelled here.
unfoldable pub set_remote_quota_state : Bool → Option ℤ → Audit → Enforcing → Option Enforcing
set_remote_quota_state disabled used audit e = elim e.answers [
  | [] ↦ none
  | answer ∷ answers ↦
      if answer
      then some (record {
        account = record (e.account) {
          peer = set_row disabled used e.account.peer;
          audits = e.account.audits ++ audit ∷ [];
        };
        remote = record (e.remote) { disabled = disabled };
        answers = answers;
      })
      else none
]

abbrev pub is_quota : Option DisabledReason → Bool
is_quota (some quota) = true
is_quota _ = false

-- `peer.quota_bypass_until && new Date(peer.quota_bypass_until) > new Date()`.
abbrev pub bypass_active : ℕ → Option ℕ → Bool
bypass_active now none = false
bypass_active now (some until) = ltb now until

-- What a call of `setRemoteQuotaState` leads to; with no answer it throws.
abbrev pub acted : Enforcing → Action → Option Enforcing → Enforcing × Option Action
acted e action none = (e, none)
acted e action (some e') = (e', some action)

abbrev pub disabled_by_quota : AccountingPeer → Bool
disabled_by_quota peer = peer.disabled && is_quota peer.disabled_reason

-- Lines 182 to 201, with the peer as line 174 to 181 left it.
unfoldable pub decide :
    ℕ → Enforcing → AccountingPeer → ℤ → Option ℤ → Bool → Enforcing × Option Action
decide now e peer used limit did_reenable =
    if not (is_reached used limit)
    then (if disabled_by_quota peer
        then acted e reenabled (set_remote_quota_state false none auto_reenabled e)
        else (e, some (if did_reenable then reenabled else nothing)))
    else if bypass_active now peer.quota_bypass_until
        || (peer.expired || (peer.disabled && not (is_quota peer.disabled_reason)))
    then (e, some nothing)
    else if disabled_by_quota peer
    then (e, some nothing)
    else if e.remote.disabled && not peer.disabled
    then (e, some nothing)
    else acted e to_disabled (set_remote_quota_state true (some used) quota_reached e)

-- `enforceObservation`: the state at its end, and its action unless it throws.
unfoldable pub enforce_observation : ℕ → Enforcing → Observation → Enforcing × Option Action
enforce_observation now e o =
    if o.rolled && disabled_by_quota o.peer
    then (elim (set_remote_quota_state false none auto_reenabled e) [
      | none ↦ (e, none)
      | some e' ↦
          decide now e' (record (o.peer) { disabled = false; disabled_reason = none }) o.used
            o.limit true
    ])
    else decide now e o.peer o.used o.limit false
