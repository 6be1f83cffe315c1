-- ===== src/Bandwidth/Observe.antt =====
-- src/server/bandwidth-service.ts, lines 233 to 278: the queue of a peer is compared with its policy,
-- and a drift is opened or closed. The differences of a drift, which follow from its states, are
-- left out.
use wireguard_panel.Base.{
  ℕ, Bool, true, false, not, List, [], ◌∷◌, ◌++◌, Option, none, some, ok, ◌==◌, if◌then◌else◌, find,
  keep,
}
use wireguard_panel.Base.Text.{Text}
use wireguard_panel.Routeros.Types.{RemoteSimpleQueue}
use wireguard_panel.Routeros.Exchange.{Row}
use wireguard_panel.Bandwidth.Queues.{
  EffectiveBandwidthPolicy, SimpleQueue, BandwidthPeer, desired_simple_queue, simple_queue_state,
  as_simple, queue_matches_desired,
}
use wireguard_panel.Bandwidth.Conflicts.{
  ConflictSummary, enabled_fast_track_rules, advanced_shaping_conflicts,
}
use wireguard_panel.Bandwidth.Apply.{
  conflicting, is_object_of, state_row, sync_state_row, get_queue_trees, get_mangle_rules,
  get_filter_rules, load_peer, get_effective_peer_bandwidth,
}
use wireguard_panel.Peers.World.{
  BandwidthState, ManagedObject, ObservedState, conflicts, queue, nothing, Drift, World, Handler,
  ◌>>=◌, rethrown, get_simple_queues, update_record,
}
use wireguard_panel.Peers.Handlers.{is_owned}

-- The conflicts that matter only where there is a desired queue.
abbrev pub shaping_conflicts :
    Text → Option SimpleQueue → List Row → List Row → List Row → List ConflictSummary
shaping_conflicts ip none trees mangle_rules filter_rules = []
shaping_conflicts ip (some desired) trees mangle_rules filter_rules =
    advanced_shaping_conflicts ip trees mangle_rules ++ enabled_fast_track_rules filter_rules

-- `conflicts.length ? {conflicts} : owned[0] ? simpleQueueState(owned[0]) : {}`.
unfoldable pub router_state : List ConflictSummary → List RemoteSimpleQueue → ObservedState
router_state (c ∷ found) owned = conflicts (c ∷ found)
router_state [] (q ∷ owned) = queue (simple_queue_state (as_simple q))
router_state [] [] = nothing

abbrev pub is_synced : BandwidthState → Bool
is_synced BandwidthState.synced = true
is_synced _ = false

-- `state === "changed_externally" ? "changed_externally" : "conflict"`.
abbrev pub is_conflict_state : BandwidthState → Bool
is_conflict_state BandwidthState.changed_externally = false
is_conflict_state _ = true

abbrev pub normal_form : Option SimpleQueue → Option SimpleQueue
normal_form none = none
normal_form (some q) = some (simple_queue_state q)

unfoldable pub expected_of : ℕ → List ManagedObject → Option SimpleQueue
expected_of peer_id objects = elim (find (is_object_of peer_id) objects) [
  | none ↦ none
  | some o ↦ some o.expected_state
]

abbrev pub is_drift_of : ℕ → Drift → Bool
is_drift_of peer_id d = d.peer_id == peer_id

-- `INSERT … ON CONFLICT(object_type,object_id) DO UPDATE …`.
unfoldable pub open_drift : Drift → List Drift → List Drift
open_drift drift drifts = drift ∷ keep (λ d. not (is_drift_of drift.peer_id d)) drifts

-- `UPDATE … SET resolved_at=now() … WHERE … AND resolved_at IS NULL`.
unfoldable pub resolve_drift : ℕ → List Drift → List Drift
resolve_drift peer_id [] = []
resolve_drift peer_id (d ∷ drifts) =
    let rest = resolve_drift peer_id drifts in
    if is_drift_of peer_id d then record d { resolved = true } ∷ rest else d ∷ rest

abbrev pub drift_of :
    ℕ
    → BandwidthState
    → Option SimpleQueue
    → List ConflictSummary
    → List RemoteSimpleQueue
    → World
    → Drift
drift_of peer_id state desired found owned w = record {
  peer_id = peer_id;
  is_conflict = is_conflict_state state;
  application_state = normal_form desired;
  synchronized_state = expected_of peer_id w.managed_objects;
  router_state = router_state found owned;
  resolved = false;
}

-- The state goes into the row, and the drift of the peer is opened or closed.
unfoldable pub write_observation :
    BandwidthPeer
    → EffectiveBandwidthPolicy
    → BandwidthState
    → List ConflictSummary
    → List RemoteSimpleQueue
    → World
    → World
write_observation p policy state found owned w =
    let w' = update_record p.id (state_row policy state) w in
    let drift = drift_of p.id state (desired_simple_queue p policy) found owned w' in
    record w' {
      drifts = if is_synced state then resolve_drift p.id w'.drifts else open_drift drift w'.drifts;
    }

module _ (digest : SimpleQueue → Text) where
  -- `desired && owned[0] && !queueMatchesDesired(owned[0], desired)`, and the cases before it.
  unfoldable pub compared_state : Option SimpleQueue → List RemoteSimpleQueue → BandwidthState
  compared_state desired (q ∷ r ∷ owned) = BandwidthState.duplicate
  compared_state none [] = BandwidthState.synced
  compared_state (some desired) [] = BandwidthState.missing
  compared_state none (q ∷ []) = BandwidthState.changed_externally
  compared_state (some desired) (q ∷ []) =
      if queue_matches_desired digest q desired
      then BandwidthState.synced
      else BandwidthState.changed_externally

  unfoldable pub observed_state :
      List ConflictSummary → Option SimpleQueue → List RemoteSimpleQueue → BandwidthState
  unfolding compared_state
  observed_state [] desired owned = compared_state desired owned
  observed_state (c ∷ found) desired owned = BandwidthState.conflict

  unfoldable pub observe_peer_with_queues :
      BandwidthPeer
      → EffectiveBandwidthPolicy
      → List RemoteSimpleQueue
      → List Row
      → List Row
      → List Row
      → Handler BandwidthState
  observe_peer_with_queues p policy queues trees mangle_rules filter_rules w =
      let desired = desired_simple_queue p policy in
      let owned = keep (is_owned p.id) queues in
      let found =
        conflicting p queues
        ++ shaping_conflicts p.client_ip desired trees mangle_rules filter_rules in
      let state = observed_state found desired owned in
      (ok state, write_observation p policy state found owned w)

  unfoldable pub observe_on_router : BandwidthPeer → Handler BandwidthState
  observe_on_router p = do
    policy ← get_effective_peer_bandwidth p.id
    queues ← get_simple_queues
    trees ← get_queue_trees
    mangle_rules ← get_mangle_rules
    filter_rules ← get_filter_rules
    observe_peer_with_queues p policy queues trees mangle_rules filter_rules

  unfoldable pub observe_at : ℕ → Text → Option Text → Handler BandwidthState
  observe_at peer_id name none w = (ok BandwidthState.not_configured, w)
  observe_at peer_id name (some ip) w =
      rethrown (update_record peer_id (sync_state_row BandwidthState.router_unreachable))
        (observe_on_router (record { id = peer_id; name = name; client_ip = ip }) w)

  unfoldable pub observe_peer_bandwidth : ℕ → Handler BandwidthState
  observe_peer_bandwidth peer_id = do p ← load_peer peer_id; observe_at peer_id p.name p.client_ip
