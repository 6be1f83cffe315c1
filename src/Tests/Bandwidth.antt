-- ===== src/Tests/Bandwidth.antt =====
-- Runs of the queue of one peer, on the router of the runs of the peers.
use wireguard_panel.Base.{false, ◌≡◌, ◌↔◌, refl, true, [], ◌++◌, some, ok, any, find, keep}
use wireguard_panel.Base.Text.{Text, codes, trim, split, join}
use wireguard_panel.Base.Decimal.{decimal}
use wireguard_panel.Bandwidth.Rates.{normalize_rate_pair, normalize_queue_target}
use wireguard_panel.Bandwidth.Queues.{
  SimpleQueue, BandwidthPeer, EffectiveBandwidthPolicy, desired_simple_queue, queue_name,
}
use wireguard_panel.Bandwidth.Policy.{effective_bandwidth}
use wireguard_panel.Bandwidth.Apply.{conflicting, apply_peer_bandwidth_remote}
use wireguard_panel.Bandwidth.Applied.{HasQueue, IsUnshaped, apply_peer_bandwidth_remote-HasQueue}
use wireguard_panel.Bandwidth.Observe.{observe_peer_with_queues}
use wireguard_panel.Bandwidth.Observed.{
  InAgreement, RowIsObserved, is_open_of, observe_peer_with_queues-synced_iff,
}
use wireguard_panel.Bandwidth.Obstacles.{Unobstructed}
use wireguard_panel.Peers.World.{BandwidthState, PeerRecord, is_record}
use wireguard_panel.Peers.Handlers.{is_owned}
use wireguard_panel.Peers.Logic.{Ends, OnlyQueues}
use wireguard_panel.Tests.Peers.{up, laptop}

abbrev digest : SimpleQueue → Text
digest q = q.name ++ q.max_limit

abbrev laptop_peer : BandwidthPeer
laptop_peer = record { id = 7; name = codes "My Laptop!"; client_ip = codes "10.8.0.2" }

abbrev policy : EffectiveBandwidthPolicy
policy = effective_bandwidth up.bandwidth_tables laptop.bandwidth

queue_name_test : queue_name 7 (codes "My Laptop!") ≡ codes "wgc-7-my-laptop"
unfolding queue_name decimal
queue_name_test = refl

normalize_rate_pair_test : normalize_rate_pair (codes " 1.5M/10k ") ≡ codes "1500000/10000"
unfolding normalize_rate_pair split decimal trim
normalize_rate_pair_test = refl

normalize_queue_target_test :
    normalize_queue_target (codes "10.8.0.3/32; 10.8.0.2/32") ≡ codes "10.8.0.2/32,10.8.0.3/32"
unfolding normalize_queue_target split join trim
normalize_queue_target_test = refl

apply_peer_bandwidth_remote-HasQueue_example :
    Ends
      (λ result w'.
        OnlyQueues up w'
        × (conflicting laptop_peer up.queues ≡ [])
        × IsUnshaped laptop_peer.client_ip (desired_simple_queue laptop_peer policy) up
        × HasQueue digest laptop_peer.id (desired_simple_queue laptop_peer policy) result w')
      (λ w'. OnlyQueues up w')
      (apply_peer_bandwidth_remote digest laptop_peer policy true up)
apply_peer_bandwidth_remote-HasQueue_example =
    apply_peer_bandwidth_remote-HasQueue digest laptop_peer policy true up

observe_peer_with_queues-synced_iff_example :
    let (answer, w') = observe_peer_with_queues digest laptop_peer policy [] [] [] [] up in
    let desired = desired_simple_queue laptop_peer policy in
    (state : BandwidthState) × (answer ≡ ok state)
    × ((state ≡ BandwidthState.synced) ↔ (
        Unobstructed laptop_peer desired [] [] [] []
        × InAgreement digest desired (keep (is_owned laptop_peer.id) [])))
    × ((any (is_open_of laptop_peer.id) w'.drifts ≡ false) ↔ (state ≡ BandwidthState.synced))
    × ((row : PeerRecord)
        → find (is_record laptop_peer.id) up.records ≡ some row
        → (after : PeerRecord) × (find (is_record laptop_peer.id) w'.records ≡ some after)
          × RowIsObserved digest policy state row after)
observe_peer_with_queues-synced_iff_example =
    observe_peer_with_queues-synced_iff digest laptop_peer policy [] [] [] [] up
