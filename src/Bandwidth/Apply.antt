-- ===== src/Bandwidth/Apply.antt =====
-- src/server/bandwidth-service.ts, lines 119 to 196 and 207 to 231: the queue of a peer is brought to
-- its policy. The four lists of the router are read one after the other. The connection and the row
-- of the router are at hand.
use wireguard_panel.Base.{
  ℕ, Bool, not, ◌&&◌, ◌||◌, List, [], ◌∷◌, ◌++◌, map, Option, none, some, Result, ok, err, ◌==◌,
  if◌then◌else◌, any, find, keep,
}
use wireguard_panel.Base.Text.{Text, text_eq}
use wireguard_panel.Routeros.Types.{RemoteSimpleQueue}
use wireguard_panel.Routeros.Exchange.{Row}
use wireguard_panel.Pools.Rows.{PoolPeer}
use wireguard_panel.Bandwidth.Queues.{
  EffectiveBandwidthPolicy, SimpleQueue, BandwidthPeer, desired_simple_queue, simple_queue_state,
  simple_queue_fingerprint, as_simple, queue_matches_desired, queue_targets_ip,
}
use wireguard_panel.Bandwidth.Conflicts.{
  ConflictSummary, conflict_summary, enabled_fast_track_rules, advanced_shaping_conflicts,
}
use wireguard_panel.Bandwidth.Policy.{effective_bandwidth}
use wireguard_panel.Peers.World.{
  PeerRecord, BandwidthState, ManagedObject, World, Failure, Handler, ◌>>=◌, ◌>>◌, pure, modify,
  check, call, unchanged, get_simple_queues, without_queue, update_record, peer_not_found,
  client_ip_required, multiple_owned, conflicting_queue, advanced_conflict, fast_track,
  changed_on_router, queue_still_exists, queue_not_applied,
}
use wireguard_panel.Peers.Handlers.{is_owned, mutable_peer}

pub data QueueAction : Type 0 where
  nothing_done created updated deleted : QueueAction

-- The state is `synced` where there is a desired queue, and `not_configured` where there is none.
pub record BandwidthApplyResult : Type 0 where
  pub state : BandwidthState
  pub desired : Option SimpleQueue
  pub remote : Option RemoteSimpleQueue
  pub action : QueueAction

abbrev pub not_configured : QueueAction → BandwidthApplyResult
not_configured action = record {
  state = BandwidthState.not_configured;
  desired = none;
  remote = none;
  action = action;
}

abbrev pub synced : SimpleQueue → RemoteSimpleQueue → QueueAction → BandwidthApplyResult
synced desired remote action = record {
  state = BandwidthState.synced;
  desired = some desired;
  remote = some remote;
  action = action;
}

abbrev pub get_queue_trees : Handler (List Row)
get_queue_trees = call unchanged >>= λ _ w. (ok w.queue_trees, w)

abbrev pub get_mangle_rules : Handler (List Row)
get_mangle_rules = call unchanged >>= λ _ w. (ok w.mangle_rules, w)

abbrev pub get_filter_rules : Handler (List Row)
get_filter_rules = call unchanged >>= λ _ w. (ok w.filter_rules, w)

-- `client.createSimpleQueue(desired)`, with the identifier that the router gives, and
-- `client.updateSimpleQueue(id, desired)`.
abbrev pub with_queue : ℕ → SimpleQueue → World → World
with_queue number desired w = record w { queues = w.queues ++ w.created_queue number desired ∷ [] }

abbrev pub create_simple_queue : SimpleQueue → Handler Text
create_simple_queue desired w =
    let number = w.calls in
    (call (with_queue number desired) >>= λ _ w'. (ok (w'.created_queue number desired).id, w')) w

abbrev pub change_queue : World → Text → SimpleQueue → RemoteSimpleQueue → RemoteSimpleQueue
change_queue w id desired q = if text_eq q.id id then w.updated_queue desired q else q

abbrev pub with_updated_queue : Text → SimpleQueue → World → World
with_updated_queue id desired w = record w { queues = map (change_queue w id desired) w.queues }

-- `throw new BandwidthConflictError(message, conflicts)` where there are some.
abbrev pub refuse : (List ConflictSummary → Failure) → List ConflictSummary → Handler (Unit {0})
refuse failure [] w = (ok tt, w)
refuse failure (conflict ∷ conflicts) w = (err (failure (conflict ∷ conflicts)), w)

-- `if (owned.length > 1)`.
abbrev pub refuse_multiple : List RemoteSimpleQueue → Handler (Unit {0})
refuse_multiple [] w = (ok tt, w)
refuse_multiple (q ∷ []) w = (ok tt, w)
refuse_multiple (q ∷ r ∷ owned) w = (err (multiple_owned (map conflict_summary (q ∷ r ∷ owned))), w)

abbrev pub is_conflicting : BandwidthPeer → RemoteSimpleQueue → Bool
is_conflicting p queue = not (is_owned p.id queue) && queue_targets_ip queue p.client_ip

abbrev pub conflicting : BandwidthPeer → List RemoteSimpleQueue → List ConflictSummary
conflicting p queues = map conflict_summary (keep (is_conflicting p) queues)

-- `if (desired) { … }`, with the lists of the router.
unfoldable pub refuse_shaped :
    Text → Option SimpleQueue → List Row → List Row → List Row → Handler (Unit {0})
refuse_shaped ip none trees mangle_rules filter_rules w = (ok tt, w)
refuse_shaped ip (some desired) trees mangle_rules filter_rules w =
    (refuse advanced_conflict (advanced_shaping_conflicts ip trees mangle_rules)
        >> refuse fast_track (enabled_fast_track_rules filter_rules))
      w

abbrev pub head_of {ℓ} : {A : Type ℓ} → List A → Option A
head_of [] = none
head_of (a ∷ xs) = some a

-- `queue.id === remoteId || queue.comment.trim() === owner`.
abbrev pub is_verified : ℕ → Text → RemoteSimpleQueue → Bool
is_verified peer_id remote_id queue = text_eq queue.id remote_id || is_owned peer_id queue

-- `if (!desired) { … }`.
unfoldable pub remove_queue : ℕ → Option RemoteSimpleQueue → Handler BandwidthApplyResult
remove_queue peer_id none = pure (not_configured nothing_done)
remove_queue peer_id (some current) = do
  call (without_queue current.id)
  remaining ← get_simple_queues
  check (not (any (is_owned peer_id) remaining)) queue_still_exists
  pure (not_configured deleted)

abbrev pub state_row : EffectiveBandwidthPolicy → BandwidthState → PeerRecord → PeerRecord
state_row policy state p = record p {
  bandwidth_source = some policy.source;
  bandwidth_sync_state = state;
}

abbrev pub is_object_of : ℕ → ManagedObject → Bool
is_object_of peer_id o = o.owner == peer_id

abbrev pub other_objects : ℕ → List ManagedObject → List ManagedObject
other_objects peer_id objects = keep (λ o. not (is_object_of peer_id o)) objects

-- `error instanceof BandwidthConflictError ? "conflict" : "error"`.
abbrev pub failed_state : Failure → BandwidthState
failed_state (multiple_owned conflicts) = BandwidthState.conflict
failed_state (conflicting_queue conflicts) = BandwidthState.conflict
failed_state (advanced_conflict conflicts) = BandwidthState.conflict
failed_state (fast_track conflicts) = BandwidthState.conflict
failed_state (changed_on_router conflicts) = BandwidthState.conflict
failed_state _ = BandwidthState.error

abbrev pub sync_state_row : BandwidthState → PeerRecord → PeerRecord
sync_state_row state p = record p { bandwidth_sync_state = state }

unfoldable pub written_failure :
    ℕ → Result Failure BandwidthApplyResult × World → Result Failure BandwidthApplyResult × World
written_failure peer_id (ok result, w) = (ok result, w)
written_failure peer_id (err e, w) =
    (err e, update_record peer_id (sync_state_row (failed_state e)) w)

-- `loadPeer`, whose name and address stand in the tables of the pools.
unfoldable pub load_peer : ℕ → Handler PoolPeer
load_peer peer_id w = elim (find (λ (p : PoolPeer). p.id == peer_id) w.tables.peers) [
  | none ↦ (err peer_not_found, w)
  | some p ↦ (ok p, w)
]

abbrev pub required_ip : Option Text → Handler Text
required_ip none w = (err client_ip_required, w)
required_ip (some ip) w = (ok ip, w)

abbrev pub get_effective_peer_bandwidth : ℕ → Handler EffectiveBandwidthPolicy
get_effective_peer_bandwidth peer_id =
    mutable_peer peer_id >>= λ row w. (ok (effective_bandwidth w.bandwidth_tables row.bandwidth), w)

module _ (digest : SimpleQueue → Text) where
  -- `if (!verified || !queueMatchesDesired(verified, desired)) throw …`.
  unfoldable pub verified :
      SimpleQueue → QueueAction → Option RemoteSimpleQueue → Handler BandwidthApplyResult
  verified desired action none w = (err queue_not_applied, w)
  verified desired action (some remote) w = (
    if queue_matches_desired digest remote desired
        then ok (synced desired remote action)
        else err queue_not_applied,
    w,
  )

  unfoldable pub verify_queue : ℕ → SimpleQueue → QueueAction → Text → Handler BandwidthApplyResult
  verify_queue peer_id desired action remote_id = do
    queues ← get_simple_queues
    verified desired action (find (is_verified peer_id remote_id) queues)

  unfoldable pub overwrite_queue :
      ℕ → SimpleQueue → RemoteSimpleQueue → Handler BandwidthApplyResult
  overwrite_queue peer_id desired current = do
    call (with_updated_queue current.id desired)
    verify_queue peer_id desired updated current.id

  unfoldable pub add_queue : ℕ → SimpleQueue → Handler BandwidthApplyResult
  add_queue peer_id desired = do
    remote_id ← create_simple_queue desired
    verify_queue peer_id desired created remote_id

  unfoldable pub bring_queue :
      ℕ → Bool → Option SimpleQueue → Option RemoteSimpleQueue → Handler BandwidthApplyResult
  bring_queue peer_id force none current w = remove_queue peer_id current w
  bring_queue peer_id force (some desired) none w = add_queue peer_id desired w
  bring_queue peer_id force (some desired) (some current) w =
      if queue_matches_desired digest current desired
      then (ok (synced desired current nothing_done), w)
      else if force
      then overwrite_queue peer_id desired current w
      else (err (changed_on_router (conflict_summary current ∷ [])), w)

  unfoldable pub apply_peer_bandwidth_remote :
      BandwidthPeer → EffectiveBandwidthPolicy → Bool → Handler BandwidthApplyResult
  apply_peer_bandwidth_remote p policy force = do
    queues ← get_simple_queues
    trees ← get_queue_trees
    mangle_rules ← get_mangle_rules
    filter_rules ← get_filter_rules
    refuse_multiple (keep (is_owned p.id) queues)
    refuse conflicting_queue (conflicting p queues)
    refuse_shaped p.client_ip (desired_simple_queue p policy) trees mangle_rules filter_rules
    bring_queue p.id force (desired_simple_queue p policy) (head_of (keep (is_owned p.id) queues))

  -- The row that is inserted, or takes the place of the one with its ownership comment.
  abbrev pub managed_object : ℕ → SimpleQueue → Option RemoteSimpleQueue → ManagedObject
  managed_object peer_id desired remote = record {
    owner = peer_id;
    remote_id = elim remote [ none ↦ none | some q ↦ some q.id ];
    expected_state = simple_queue_state desired;
    last_observed_state = elim remote [
      | none ↦ none
      | some q ↦ some (simple_queue_state (as_simple q))
    ];
    fingerprint = elim remote [
      | none ↦ none
      | some q ↦ some (simple_queue_fingerprint digest (as_simple q))
    ];
  }

  unfoldable pub objects_with :
      ℕ → Option SimpleQueue → Option RemoteSimpleQueue → List ManagedObject → List ManagedObject
  objects_with peer_id none remote objects = other_objects peer_id objects
  objects_with peer_id (some desired) remote objects =
      managed_object peer_id desired remote ∷ other_objects peer_id objects

  unfoldable pub persist_bandwidth_result :
      ℕ → EffectiveBandwidthPolicy → BandwidthApplyResult → World → World
  persist_bandwidth_result peer_id policy result w =
      let w' = update_record peer_id (state_row policy result.state) w in
      record w' {
        managed_objects = objects_with peer_id result.desired result.remote w'.managed_objects;
      }

  unfoldable pub apply_and_persist : BandwidthPeer → Bool → Handler BandwidthApplyResult
  apply_and_persist p force = do
    policy ← get_effective_peer_bandwidth p.id
    result ← apply_peer_bandwidth_remote p policy force
    modify (persist_bandwidth_result p.id policy result)
    pure result

  unfoldable pub apply_peer_bandwidth : ℕ → Bool → Handler BandwidthApplyResult
  apply_peer_bandwidth peer_id force = do
    p ← load_peer peer_id
    ip ← required_ip p.client_ip
    λ w.
        written_failure peer_id
          (apply_and_persist (record { id = peer_id; name = p.name; client_ip = ip }) force w)
