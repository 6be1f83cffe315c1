-- ===== src/Traffic/Polling/Books.antt =====
-- src/server/traffic-accounting.ts, lines 59 to 76: the books of the rows and the tally of a poll.
use wireguard_panel.Base.{
  ℕ, ◌+◌, ◌≤◌, ◌≡◌, refl, List, [], ◌∷◌, Option, none, some, Result, ok, err, arith, find, All,
  length,
}
use wireguard_panel.Base.Text.{Text}
use wireguard_panel.Traffic.Rows.{RemotePeer, Account}
use wireguard_panel.Traffic.Observe.{Observation, record_observation}
use wireguard_panel.Traffic.Enforce.{
  Action, Enforcing, set_row, set_remote_quota_state, decide, enforce_observation, to_disabled,
  reenabled, nothing,
}
use wireguard_panel.Traffic.Recording.{IsAccounted, record_observation-IsAccounted}
use wireguard_panel.Traffic.Polling.{
  Listed, Turn, Policy, Tally, is_remote_of, count_action, visit, turn, poll,
}

-- The columns that the books are about.
record Same (a b : Account) : Type 0 where
  history : b.history ≡ a.history
  period_rx : b.peer.period_rx_bytes ≡ a.peer.period_rx_bytes
  period_tx : b.peer.period_tx_bytes ≡ a.peer.period_tx_bytes
  lifetime_rx : b.peer.lifetime_rx_bytes ≡ a.peer.lifetime_rx_bytes
  lifetime_tx : b.peer.lifetime_tx_bytes ≡ a.peer.lifetime_tx_bytes
  limit : b.peer.quota_limit_bytes ≡ a.peer.quota_limit_bytes
  started : b.peer.quota_period_started_at ≡ a.peer.quota_period_started_at

Same-IsAccounted : (a b : Account) → Same a b → IsAccounted a → IsAccounted b
Same-IsAccounted a b s h = record {
  balanced = record {
    rx = rw (s.history, s.period_rx, s.lifetime_rx) h.balanced.rx;
    tx = rw (s.history, s.period_tx, s.lifetime_tx) h.balanced.tx;
  };
  counted = record {
    rx = rw s.period_rx h.counted.rx;
    tx = rw s.period_tx h.counted.tx;
    rx_le = rw (s.period_rx, s.lifetime_rx) h.counted.rx_le;
    tx_le = rw (s.period_tx, s.lifetime_tx) h.counted.tx_le;
  };
  opened = rw (s.limit, s.started) h.opened;
}

enforce_observation-Same :
    (now : ℕ) (e : Enforcing) (o : Observation)
    → Same e.account (enforce_observation now e o).0.account
unfolding enforce_observation decide set_remote_quota_state set_row
enforce_observation-Same now e o = record {
  history = ground arith;
  period_rx = ground arith;
  period_tx = ground arith;
  lifetime_rx = ground arith;
  lifetime_tx = ground arith;
  limit = ground arith;
  started = ground arith;
}

-- What a turn adds to the tally: at most one action or failure, and an action only for a row
-- that was observed.
pub record Adds (t t' : Tally) : Type 0 where
  pub once : t'.disabled + t'.reenabled + t'.failed ≤ t.disabled + t.reenabled + t.failed + 1
  pub seen : t'.disabled + t'.reenabled + t.observed ≤ t.disabled + t.reenabled + t'.observed
  pub visited : t'.observed ≤ t.observed + 1

count_action-Adds :
    (t : Tally) (action : Option Action)
    → Adds t (count_action (record t { observed = t.observed + 1 }) action)
count_action-Adds t none = record { once = omega arith; seen = omega arith; visited = omega arith }
count_action-Adds t (some to_disabled) = record {
  once = omega arith;
  seen = omega arith;
  visited = omega arith;
}
count_action-Adds t (some reenabled) = record {
  once = omega arith;
  seen = omega arith;
  visited = omega arith;
}
count_action-Adds t (some nothing) = record {
  once = omega arith;
  seen = omega arith;
  visited = omega arith;
}

visit-IsAccounted :
    (policy : Policy) (local : Turn) (remote : RemotePeer) (remotes : List Listed) (t : Tally)
    (recorded : Result Text (Account × Observation))
    → IsAccounted local.account
    → record_observation local.now policy.online_seconds policy.sample_seconds policy.window
        local.account remote
      ≡ recorded
    → IsAccounted (visit local remote remotes t recorded).0.account
unfolding visit
visit-IsAccounted policy local remote remotes t (err error) h e = h
visit-IsAccounted policy local remote remotes t (ok (written, result)) h e =
    Same-IsAccounted written _ (enforce_observation-Same local.later _ result)
      (record_observation-IsAccounted local.now policy.online_seconds policy.sample_seconds
        policy.window local.account remote written result h e).0

turn-IsAccounted :
    (policy : Policy) (local : Turn) (remotes : List Listed) (t : Tally) (item : Option Listed)
    → IsAccounted local.account
    → IsAccounted (turn policy local remotes t item).0.account
unfolding turn
turn-IsAccounted policy local remotes t none h = h
turn-IsAccounted policy local remotes t (some item) h =
    visit-IsAccounted policy local item.peer remotes t _ h refl

-- A poll of a router keeps the books of every row it goes through, whichever observations and
-- calls of the router fail on the way, if they were in order before.
pub poll-IsAccounted :
    (policy : Policy) (locals : List Turn) (remotes : List Listed) (t : Tally)
    → All (λ local. IsAccounted local.account) locals
    → All (λ local. IsAccounted local.account) (poll policy locals remotes t).rows
unfolding poll
poll-IsAccounted policy [] remotes t h = tt
poll-IsAccounted policy (local ∷ locals) remotes t (h, k) =
    (turn-IsAccounted policy local remotes t _ h, poll-IsAccounted policy locals _ _ k)

visit-Adds :
    (local : Turn) (remote : RemotePeer) (remotes : List Listed) (t : Tally)
    (recorded : Result Text (Account × Observation))
    → Adds t (visit local remote remotes t recorded).2
unfolding visit
visit-Adds local remote remotes t (err error) = record {
  once = omega arith;
  seen = omega arith;
  visited = omega arith;
}
visit-Adds local remote remotes t (ok (written, result)) = count_action-Adds t _

turn-Adds :
    (policy : Policy) (local : Turn) (remotes : List Listed) (t : Tally) (item : Option Listed)
    → Adds t (turn policy local remotes t item).2
unfolding turn
turn-Adds policy local remotes t none = record {
  once = omega arith;
  seen = omega arith;
  visited = omega arith;
}
turn-Adds policy local remotes t (some item) = visit-Adds local item.peer remotes t _

-- The tally of a poll: every action was of an observed row, at most one action or failure is
-- counted for each row, and no more rows are observed than there are.
pub poll_tally :
    (policy : Policy) (locals : List Turn) (remotes : List Listed) (t : Tally)
    → let t' = (poll policy locals remotes t).tally in
      (t'.disabled + t'.reenabled + t.observed ≤ t.disabled + t.reenabled + t'.observed)
      × (t'.disabled + t'.reenabled + t'.failed
          ≤ t.disabled + t.reenabled + t.failed + length locals)
      × (t'.observed ≤ t.observed + length locals)
unfolding poll
poll_tally policy [] remotes t = (omega arith, omega arith, omega arith)
poll_tally policy (local ∷ locals) remotes t =
    let first = turn-Adds policy local remotes t (find (is_remote_of local) remotes) in
    let (seen, once, visited) =
      poll_tally policy locals (turn policy local remotes t (find (is_remote_of local) remotes)).1
        (turn policy local remotes t (find (is_remote_of local) remotes)).2 in
    (omega (arith, first.seen), omega (arith, first.once), omega (arith, first.visited))
