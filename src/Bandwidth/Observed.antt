-- ===== src/Bandwidth/Observed.antt =====
-- src/server/bandwidth-service.ts, lines 260 to 277: what the observation of a peer's queue says,
-- and what it writes.
use wireguard_panel.Base.{
  ℕ, ◌≡◌, sym, ◌∙◌, refl, ◌↔◌, Bool, true, false, not, ◌&&◌, List, [], ◌∷◌, ◌++◌, Option, none,
  some, ok, any, find, keep, arith, Bool-cases, inl, inr,
}
use wireguard_panel.Base.Text.{Text}
use wireguard_panel.Routeros.Types.{RemoteSimpleQueue}
use wireguard_panel.Routeros.Exchange.{Row}
use wireguard_panel.Bandwidth.Queues.{
  EffectiveBandwidthPolicy, SimpleQueue, BandwidthPeer, desired_simple_queue, queue_matches_desired,
}
use wireguard_panel.Bandwidth.Conflicts.{ConflictSummary}
use wireguard_panel.Bandwidth.Apply.{conflicting, state_row}
use wireguard_panel.Bandwidth.Observe.{
  shaping_conflicts, compared_state, observed_state, is_synced, is_drift_of, open_drift,
  resolve_drift, drift_of, write_observation, observe_peer_with_queues,
}
use wireguard_panel.Bandwidth.Obstacles.{Unobstructed, Unobstructed-iff}
use wireguard_panel.Peers.World.{BandwidthState, PeerRecord, Drift, World, is_record, update_record}
use wireguard_panel.Peers.Handlers.{is_owned}
use wireguard_panel.Peers.Left.{find-on_record}

abbrev pub is_open_of : ℕ → Drift → Bool
is_open_of peer_id d = is_drift_of peer_id d && not d.resolved

any-resolve_drift :
    (peer_id : ℕ) (drifts : List Drift)
    → any (is_open_of peer_id) (resolve_drift peer_id drifts) ≡ false
unfolding resolve_drift
any-resolve_drift peer_id [] = refl
any-resolve_drift peer_id (d ∷ drifts) = elim (Bool-cases (is_drift_of peer_id d)) [
  | inl e ↦ rw e (rw e (any-resolve_drift peer_id drifts))
  | inr e ↦ rw e (rw e (any-resolve_drift peer_id drifts))
]

any-open_drift :
    (drift : Drift) (drifts : List Drift)
    → drift.resolved ≡ false
    → any (is_open_of drift.peer_id) (open_drift drift drifts) ≡ true
unfolding open_drift
any-open_drift drift drifts h = ground (arith, h)

module _ (digest : SimpleQueue → Text) where
  -- The queues of the peer are what its policy asks for.
  abbrev pub InAgreement : Option SimpleQueue → List RemoteSimpleQueue → Type 0
  InAgreement none owned = owned ≡ []
  InAgreement (some desired) owned =
      (q : RemoteSimpleQueue) × (owned ≡ q ∷ []) × (queue_matches_desired digest q desired ≡ true)

  compared_state-synced_iff :
      (desired : Option SimpleQueue) (owned : List RemoteSimpleQueue)
      → (compared_state digest desired owned ≡ BandwidthState.synced) ↔ InAgreement desired owned
  unfolding compared_state
  compared_state-synced_iff none [] = ((λ h. refl), (λ a. refl))
  compared_state-synced_iff none (q ∷ []) = ((λ h. cc), (λ a. cc))
  compared_state-synced_iff none (q ∷ r ∷ owned) = ((λ h. cc), (λ a. cc))
  compared_state-synced_iff (some desired) [] = ((λ h. cc), (λ a. cc (a.1)))
  compared_state-synced_iff (some desired) (q ∷ []) = (
    (λ h. (q, refl, ground (arith, h))),
    (λ a. let same : (q ∷ []) ≡ (a.0 ∷ []) = a.1 in ground (arith, same, a.2)),
  )
  compared_state-synced_iff (some desired) (q ∷ r ∷ owned) = ((λ h. cc), (λ a. cc (a.1)))

  observed_state-synced_iff :
      (found : List ConflictSummary) (desired : Option SimpleQueue) (owned : List RemoteSimpleQueue)
      → (observed_state digest found desired owned ≡ BandwidthState.synced)
        ↔ ((found ≡ []) × InAgreement desired owned)
  unfolding observed_state
  observed_state-synced_iff [] desired owned =
      let same = compared_state-synced_iff desired owned in
      ((λ h. (refl, same.0 h)), (λ a. same.1 a.1))
  observed_state-synced_iff (c ∷ found) desired owned = ((λ h. cc), (λ a. cc (a.0)))

  open_iff :
      (p : BandwidthPeer) (policy : EffectiveBandwidthPolicy) (state : BandwidthState)
      (found : List ConflictSummary) (owned : List RemoteSimpleQueue) (w : World)
      → any (is_open_of p.id) (write_observation p policy state found owned w).drifts
        ≡ not (is_synced state)
  unfolding write_observation
  open_iff p policy state found owned w = elim (Bool-cases (is_synced state)) [
    | inl e ↦ rw e (any-resolve_drift p.id w.drifts)
    | inr e ↦ rw e (
        any-open_drift
          (drift_of p.id state (desired_simple_queue p policy) found owned
            (update_record p.id (state_row policy state) w))
          w.drifts refl)
  ]

  -- The row has the state and the policy's source, and is otherwise as it was.
  pub record RowIsObserved (policy : EffectiveBandwidthPolicy) (state : BandwidthState)
      (row after : PeerRecord) : Type 0 where
    pub state_written : after.bandwidth_sync_state ≡ state
    pub source_written : after.bandwidth_source ≡ some policy.source
    pub others :
        after ≡ record row { bandwidth_sync_state = state; bandwidth_source = some policy.source }

  not-synced :
      (state : BandwidthState) → (not (is_synced state) ≡ false) ↔ (state ≡ BandwidthState.synced)
  not-synced state = ((λ h. ground (arith, h)), (λ e. rw e refl))

  closed_iff :
      {b : Bool} (state : BandwidthState)
      → b ≡ not (is_synced state)
      → (b ≡ false) ↔ (state ≡ BandwidthState.synced)
  closed_iff state e =
      let same = not-synced state in ((λ h. same.0 (sym e ∙ h)), (λ h. e ∙ same.1 h))

  -- The observation of a peer answers with a state, which is `synced` exactly when nothing is in the
  -- way and the queues of the peer are what the policy asks for: none, or a single one that matches.
  -- In the way are another queue that targets the peer's address and, where a queue is asked for, an
  -- enabled tree that uses a packet mark of an enabled rule on the address, and an enabled FastTrack
  -- rule. The peer has no open drift afterwards exactly when the state is `synced`, and its row, if it
  -- has one, has the state and the policy's source, and is otherwise as it was.
  pub observe_peer_with_queues-synced_iff :
      (p : BandwidthPeer) (policy : EffectiveBandwidthPolicy) (queues : List RemoteSimpleQueue)
      (trees mangle_rules filter_rules : List Row) (w : World)
      → let (answer, w') =
          observe_peer_with_queues digest p policy queues trees mangle_rules filter_rules w in
        let desired = desired_simple_queue p policy in
        (state : BandwidthState) × (answer ≡ ok state)
        × ((state ≡ BandwidthState.synced) ↔ (
            Unobstructed p desired queues trees mangle_rules filter_rules
            × InAgreement desired (keep (is_owned p.id) queues)))
        × ((any (is_open_of p.id) w'.drifts ≡ false) ↔ (state ≡ BandwidthState.synced))
        × ((row : PeerRecord)
            → find (is_record p.id) w.records ≡ some row
            → (after : PeerRecord) × (find (is_record p.id) w'.records ≡ some after)
              × RowIsObserved policy state row after)
  unfolding observe_peer_with_queues write_observation
  observe_peer_with_queues-synced_iff p policy queues trees mangle_rules filter_rules w =
      let desired = desired_simple_queue p policy in
      let owned = keep (is_owned p.id) queues in
      let found =
        conflicting p queues
        ++ shaping_conflicts p.client_ip desired trees mangle_rules filter_rules in
      let state = observed_state digest found desired owned in
      let synced = observed_state-synced_iff found desired owned in
      let clear = Unobstructed-iff p desired queues trees mangle_rules filter_rules in
      (
        state,
        refl,
        ((λ h. (clear.0 (synced.0 h).0, (synced.0 h).1)), (λ h. synced.1 (clear.1 h.0, h.1))),
        closed_iff state (open_iff p policy state found owned w),
        λ row h. (
          state_row policy state row,
          find-on_record p.id (state_row policy state) w.records row (λ r. refl) h,
          record { state_written = refl; source_written = refl; others = refl },
        ),
      )
