-- ===== src/Bandwidth/Applied.antt =====
-- src/server/bandwidth-service.ts, lines 137 to 196: what bringing a queue to its policy leaves on
-- the router.
use wireguard_panel.Base.{
  ℕ, ◌≡◌, refl, sym, subst, Bool, true, false, not, List, [], ◌∷◌, Option, none, some, ok, any,
  find, keep, arith, Bool-cases, Option-cases, inl, inr,
}
use wireguard_panel.Base.Text.{Text}
use wireguard_panel.Routeros.Types.{RemoteSimpleQueue}
use wireguard_panel.Bandwidth.Queues.{
  EffectiveBandwidthPolicy, SimpleQueue, BandwidthPeer, desired_simple_queue, queue_matches_desired,
}
use wireguard_panel.Bandwidth.Conflicts.{
  ConflictSummary, enabled_fast_track_rules, advanced_shaping_conflicts,
}
use wireguard_panel.Bandwidth.Apply.{
  QueueAction, nothing_done, created, updated, deleted, BandwidthApplyResult, not_configured,
  synced, with_queue, with_updated_queue, refuse, refuse_multiple, conflicting, refuse_shaped,
  head_of, is_verified, remove_queue, verified, verify_queue, overwrite_queue, add_queue,
  bring_queue, apply_peer_bandwidth_remote,
}
use wireguard_panel.Peers.World.{
  World, Failure, Handler, ◌>>=◌, ◌>>◌, call, unchanged, without_queue, conflicting_queue,
  advanced_conflict, fast_track, queue_still_exists,
}
use wireguard_panel.Peers.Handlers.{is_owned}
use wireguard_panel.Peers.Logic.{
  Ends, and_then-Ends, Ends-weaken, call-Ends, check-Ends, get_simple_queues-Ends, counted,
  OnlyQueues, OnlyQueues-refl, changed_queues,
}

-- The world as it was, but for the count of calls.
record AsRead (w w' : World) : Type 0 where
  only : OnlyQueues w w'
  queues : w'.queues ≡ w.queues
  queue_trees : w'.queue_trees ≡ w.queue_trees
  mangle_rules : w'.mangle_rules ≡ w.mangle_rules
  filter_rules : w'.filter_rules ≡ w.filter_rules

AsRead-counted : {w w' : World} → AsRead w w' → AsRead w (counted w')
AsRead-counted h = record {
  only = changed_queues _ _ h.only;
  queues = h.queues;
  queue_trees = h.queue_trees;
  mangle_rules = h.mangle_rules;
  filter_rules = h.filter_rules;
}

-- A list of the router is read, which is the one that it has.
read-Ends :
    {A : Type 0} (w : World) (get_list : World → A) (w1 : World)
    → AsRead w w1
    → get_list (counted w1) ≡ get_list w
    → Ends
        (λ a w'. AsRead w w' × (a ≡ get_list w))
        (λ w'. OnlyQueues w w')
        ((call unchanged >>= λ _ w'. (ok (get_list w'), w')) w1)
read-Ends w get_list w1 h same =
    and_then-Ends (call unchanged w1)
      (call-Ends {P = λ _ w'. w' ≡ counted w1} {E = λ w'. OnlyQueues w w'} unchanged w1 refl
        (AsRead-counted h).only (AsRead-counted h).only)
      (λ _ w' e. rw e (record { ends = (AsRead-counted h, same) }))

refuse-Ends :
    {P : Unit {0} → World → Type 0} {E : World → Type 0} (failure : List ConflictSummary → Failure)
    (conflicts : List ConflictSummary) (w : World)
    → (conflicts ≡ [] → P tt w)
    → E w
    → Ends P E (refuse failure conflicts w)
refuse-Ends failure [] w p e = record { ends = p refl }
refuse-Ends failure (c ∷ conflicts) w p e = record { ends = e }

-- At most one.
abbrev AtMostOne : List RemoteSimpleQueue → Type 0
AtMostOne [] = Unit
AtMostOne (q ∷ []) = Unit
AtMostOne (q ∷ r ∷ queues) = ⊥

refuse_multiple-Ends :
    {P : Unit {0} → World → Type 0} {E : World → Type 0} (owned : List RemoteSimpleQueue)
    (w : World)
    → P tt w
    → E w
    → Ends P E (refuse_multiple owned w)
refuse_multiple-Ends [] w p e = record { ends = p }
refuse_multiple-Ends (q ∷ []) w p e = record { ends = p }
refuse_multiple-Ends (q ∷ r ∷ owned) w p e = record { ends = e }

-- What a limit asks of the rest of the router's configuration.
abbrev pub IsUnshaped : Text → Option SimpleQueue → World → Type 0
IsUnshaped ip none w = Unit
IsUnshaped ip (some desired) w =
    (advanced_shaping_conflicts ip w.queue_trees w.mangle_rules ≡ [])
    × (enabled_fast_track_rules w.filter_rules ≡ [])

refuse_shaped-Ends :
    (ip : Text) (desired : Option SimpleQueue) (w w1 : World)
    → AsRead w w1
    → Ends
        (λ _ w'. (w' ≡ w1) × IsUnshaped ip desired w)
        (λ w'. OnlyQueues w w')
        (refuse_shaped ip desired w.queue_trees w.mangle_rules w.filter_rules w1)
unfolding refuse_shaped
refuse_shaped-Ends ip none w w1 h = record { ends = (refl, tt) }
refuse_shaped-Ends ip (some desired) w w1 h =
    and_then-Ends _
      (refuse-Ends
        {P = λ _ w'. (w' ≡ w1) × (advanced_shaping_conflicts ip w.queue_trees w.mangle_rules ≡ [])}
        {E = λ w'. OnlyQueues w w'} advanced_conflict _ w1 (λ e. (refl, e)) h.only)
      (λ _ w2 h2. rw h2.0 (
        refuse-Ends {P = λ _ w'. (w' ≡ w1) × IsUnshaped ip (some desired) w}
          {E = λ w'. OnlyQueues w w'} fast_track _ w1 (λ e. (refl, (h2.1, e))) h.only))

keep-head :
    (p : RemoteSimpleQueue → Bool) (queues : List RemoteSimpleQueue)
    → head_of (keep p queues) ≡ none
    → any p queues ≡ false
keep-head p [] h = refl
keep-head p (q ∷ queues) h = elim (Bool-cases (p q)) [
  | inl e ↦ cc (rw e at h)
  | inr e ↦ rw e (keep-head p queues (rw e at h))
]

head-any :
    (p f : RemoteSimpleQueue → Bool) (queues : List RemoteSimpleQueue) (q : RemoteSimpleQueue)
    → head_of (keep p queues) ≡ some q
    → f q ≡ true
    → any f queues ≡ true
head-any p f [] q h e = cc
head-any p f (r ∷ queues) q h e = elim (Bool-cases (p r)) [
  | inl mine ↦ let same : some r ≡ some q = rw mine at h in ground (arith, same, e)
  | inr other ↦ ground (arith, head-any p f queues q (rw other at h) e)
]

find-any_of :
    (p f : RemoteSimpleQueue → Bool) (queues : List RemoteSimpleQueue) (q : RemoteSimpleQueue)
    → find p queues ≡ some q
    → f q ≡ true
    → any f queues ≡ true
find-any_of p f [] q h e = cc
find-any_of p f (r ∷ queues) q h e = ground (arith, h, e, find-any_of p f queues q)

module _ (digest : SimpleQueue → Text) where
  -- The queue that the policy asks for is on the router, or no queue of the peer, if it asks for none.
  abbrev pub HasQueue : ℕ → Option SimpleQueue → BandwidthApplyResult → World → Type 0
  HasQueue peer_id none result w =
      (any (is_owned peer_id) w.queues ≡ false)
      × ((action : QueueAction) × (result ≡ not_configured action))
  HasQueue peer_id (some desired) result w =
      (any (λ q. queue_matches_desired digest q desired) w.queues ≡ true)
      × ((q : RemoteSimpleQueue) × (action : QueueAction) × (result ≡ synced desired q action)
          × (queue_matches_desired digest q desired ≡ true))

  verify_queue-Ends :
      (peer_id : ℕ) (desired : SimpleQueue) (action : QueueAction) (remote_id : Text) (w w1 : World)
      → OnlyQueues w w1
      → Ends
          (λ result w'. OnlyQueues w w' × HasQueue peer_id (some desired) result w')
          (λ w'. OnlyQueues w w')
          (verify_queue digest peer_id desired action remote_id w1)
  unfolding verify_queue verified
  verify_queue-Ends peer_id desired action remote_id w w1 h =
      and_then-Ends _
        (get_simple_queues-Ends {P = λ queues w'. OnlyQueues w w' × (queues ≡ w'.queues)}
          {E = λ w'. OnlyQueues w w'} w1 (changed_queues _ _ h, refl) (changed_queues _ _ h))
        (λ queues w2 h2. elim (Option-cases (find (is_verified peer_id remote_id) queues)) [
          | inl e ↦ rw (e, verified) (record { ends = h2.0 })
          | inr (q, e) ↦ elim (Bool-cases (queue_matches_desired digest q desired)) [
            | inl m ↦
                rw (e, verified)
                  (rw m (record {
                    ends = (
                      h2.0,
                      (rw (sym h2.1) (find-any_of _ _ queues q e m), (q, action, refl, m)),
                    );
                  }))
            | inr m ↦ rw (e, verified) (rw m (record { ends = h2.0 }))
          ]
        ])

  remove_queue-Ends :
      (peer_id : ℕ) (current : Option RemoteSimpleQueue) (w w1 : World)
      → OnlyQueues w w1
      → (current ≡ none → any (is_owned peer_id) w1.queues ≡ false)
      → Ends
          (λ result w'. OnlyQueues w w' × HasQueue peer_id none result w')
          (λ w'. OnlyQueues w w')
          (remove_queue peer_id current w1)
  unfolding remove_queue
  remove_queue-Ends peer_id none w w1 h none_left = record {
    ends = (h, (none_left refl, (nothing_done, refl)));
  }
  remove_queue-Ends peer_id (some current) w w1 h none_left =
      and_then-Ends _
        (call-Ends {P = λ _ w'. OnlyQueues w w'} {E = λ w'. OnlyQueues w w'}
          (without_queue current.id) w1 (changed_queues _ _ h) (changed_queues _ _ h)
          (changed_queues _ _ h))
        (λ _ w2 h2.
          and_then-Ends _
            (get_simple_queues-Ends {P = λ queues w'. OnlyQueues w w' × (queues ≡ w'.queues)}
              {E = λ w'. OnlyQueues w w'} w2 (changed_queues _ _ h2, refl) (changed_queues _ _ h2))
            (λ queues w3 h3.
              and_then-Ends _
                (check-Ends
                  {P = λ _ w'. OnlyQueues w w' × (any (is_owned peer_id) w'.queues ≡ false)}
                  {E = λ w'. OnlyQueues w w'} (not (any (is_owned peer_id) queues))
                  queue_still_exists w3 (λ gone. (h3.0, ground (arith, gone, h3.1))) h3.0)
                (λ _ w4 h4. record { ends = (h4.0, (h4.1, (deleted, refl))) })))

  overwrite_queue-Ends :
      (peer_id : ℕ) (desired : SimpleQueue) (current : RemoteSimpleQueue) (w w1 : World)
      → OnlyQueues w w1
      → Ends
          (λ result w'. OnlyQueues w w' × HasQueue peer_id (some desired) result w')
          (λ w'. OnlyQueues w w')
          (overwrite_queue digest peer_id desired current w1)
  unfolding overwrite_queue
  overwrite_queue-Ends peer_id desired current w w1 h =
      and_then-Ends _
        (call-Ends {P = λ _ w'. OnlyQueues w w'} {E = λ w'. OnlyQueues w w'}
          (with_updated_queue current.id desired) w1 (changed_queues _ _ h) (changed_queues _ _ h)
          (changed_queues _ _ h))
        (λ _ w2 h2. verify_queue-Ends peer_id desired updated current.id w w2 h2)

  add_queue-Ends :
      (peer_id : ℕ) (desired : SimpleQueue) (w w1 : World)
      → OnlyQueues w w1
      → Ends
          (λ result w'. OnlyQueues w w' × HasQueue peer_id (some desired) result w')
          (λ w'. OnlyQueues w w')
          (add_queue digest peer_id desired w1)
  unfolding add_queue
  add_queue-Ends peer_id desired w w1 h =
      and_then-Ends _
        (and_then-Ends {P = λ _ w'. OnlyQueues w w'} _
          (call-Ends {P = λ _ w'. OnlyQueues w w'} {E = λ w'. OnlyQueues w w'}
            (with_queue w1.calls desired) w1 (changed_queues _ _ h) (changed_queues _ _ h)
            (changed_queues _ _ h))
          (λ _ w2 h2. record { ends = h2 }))
        (λ remote_id w2 h2. verify_queue-Ends peer_id desired created remote_id w w2 h2)

  bring_queue-Ends :
      (peer_id : ℕ) (force : Bool) (desired : Option SimpleQueue) (w w1 : World)
      → OnlyQueues w w1
      → Ends
          (λ result w'. OnlyQueues w w' × HasQueue peer_id desired result w')
          (λ w'. OnlyQueues w w')
          (bring_queue digest peer_id force desired
            (head_of (keep (is_owned peer_id) w1.queues))
            w1)
  unfolding bring_queue
  bring_queue-Ends peer_id force none w w1 h =
      remove_queue-Ends peer_id _ w w1 h (keep-head (is_owned peer_id) w1.queues)
  bring_queue-Ends peer_id force (some desired) w w1 h =
      elim (Option-cases (head_of (keep (is_owned peer_id) w1.queues))) [
        | inl e ↦ rw (e, bring_queue) (add_queue-Ends peer_id desired w w1 h)
        | inr (current, e) ↦ elim (Bool-cases (queue_matches_desired digest current desired)) [
          | inl m ↦
              rw (e, bring_queue)
                (rw m (record {
                  ends = (
                    h,
                    (
                      head-any (is_owned peer_id) _ w1.queues current e m,
                      (current, nothing_done, refl, m),
                    ),
                  );
                }))
          | inr m ↦ elim (Bool-cases force) [
            | inl f ↦
                rw (e, bring_queue)
                  (rw (m, f) (overwrite_queue-Ends peer_id desired current w w1 h))
            | inr f ↦ rw (e, bring_queue) (rw (m, f) (record { ends = h }))
          ]
        ]
      ]

  -- What follows the four lists.
  abbrev act_on_lists :
      BandwidthPeer → EffectiveBandwidthPolicy → Bool → World → Handler BandwidthApplyResult
  act_on_lists p policy force w =
      refuse_multiple (keep (is_owned p.id) w.queues)
      >> (refuse conflicting_queue (conflicting p w.queues)
          >> (refuse_shaped p.client_ip (desired_simple_queue p policy) w.queue_trees w.mangle_rules
                w.filter_rules
              >> bring_queue digest p.id force (desired_simple_queue p policy)
                  (head_of (keep (is_owned p.id) w.queues))))

  decided :
      (p : BandwidthPeer) (policy : EffectiveBandwidthPolicy) (force : Bool) (w w1 : World)
      → AsRead w w1
      → Ends
          (λ result w'.
            OnlyQueues w w'
            × (conflicting p w.queues ≡ [])
            × IsUnshaped p.client_ip (desired_simple_queue p policy) w
            × HasQueue p.id (desired_simple_queue p policy) result w')
          (λ w'. OnlyQueues w w')
          (act_on_lists p policy force w w1)
  decided p policy force w w1 h =
      and_then-Ends _
        (refuse_multiple-Ends {P = λ _ w'. w' ≡ w1} {E = λ w'. OnlyQueues w w'} _ w1 refl h.only)
        (λ _ w2 e2. rw e2 (
          and_then-Ends _
            (refuse-Ends {P = λ _ w'. (w' ≡ w1) × (conflicting p w.queues ≡ [])}
              {E = λ w'. OnlyQueues w w'} conflicting_queue (conflicting p w.queues) w1
              (λ none. (refl, none)) h.only)
            (λ _ w3 h3. rw h3.0 (
              and_then-Ends _
                (refuse_shaped-Ends p.client_ip (desired_simple_queue p policy) w w1 h)
                (λ _ w4 h4. rw h4.0 (
                  Ends-weaken
                    {P = λ result w'.
                      OnlyQueues w w' × HasQueue p.id (desired_simple_queue p policy) result w'}
                    {E = λ w'. OnlyQueues w w'}
                    (subst
                      (λ queues.
                        Ends
                          (λ result w'.
                            OnlyQueues w w'
                            × HasQueue p.id (desired_simple_queue p policy) result w')
                          (λ w'. OnlyQueues w w')
                          (bring_queue digest p.id force (desired_simple_queue p policy)
                            (head_of (keep (is_owned p.id) queues)) w1))
                      h.queues
                      (bring_queue-Ends p.id force (desired_simple_queue p policy) w w1 h.only))
                    (λ result w5 h5. (h5.0, h3.1, h4.1, h5.1)) (λ w5 h5. h5)))))))

  -- A policy that is applied, whatever the router answers, leaves the peers of the router and the
  -- database as they were. When it succeeds, no other queue shaped the peer's address; and where
  -- the policy asks for a queue, neither a marked queue tree nor FastTrack stood in its way, and a
  -- queue of the router matches it; where it asks for none, no queue of the peer is left.
  pub apply_peer_bandwidth_remote-HasQueue :
      (p : BandwidthPeer) (policy : EffectiveBandwidthPolicy) (force : Bool) (w : World)
      → Ends
          (λ result w'.
            OnlyQueues w w'
            × (conflicting p w.queues ≡ [])
            × IsUnshaped p.client_ip (desired_simple_queue p policy) w
            × HasQueue p.id (desired_simple_queue p policy) result w')
          (λ w'. OnlyQueues w w')
          (apply_peer_bandwidth_remote digest p policy force w)
  unfolding apply_peer_bandwidth_remote
  apply_peer_bandwidth_remote-HasQueue p policy force w =
      let desired = desired_simple_queue p policy in
      let start : AsRead w w = record {
        only = OnlyQueues-refl w;
        queues = refl;
        queue_trees = refl;
        mangle_rules = refl;
        filter_rules = refl;
      } in
      and_then-Ends _ (read-Ends w (λ u. u.queues) w start refl) (λ queues w1 h1.
        and_then-Ends _ (read-Ends w (λ u. u.queue_trees) w1 h1.0 h1.0.queue_trees) (λ trees w2 h2.
          and_then-Ends _ (read-Ends w (λ u. u.mangle_rules) w2 h2.0 h2.0.mangle_rules)
            (λ mangle_rules w3 h3.
              and_then-Ends _ (read-Ends w (λ u. u.filter_rules) w3 h3.0 h3.0.filter_rules)
                (λ filter_rules w4 h4.
                  rw (h1.1, h2.1, h3.1, h4.1) (decided p policy force w w4 h4.0)))))
