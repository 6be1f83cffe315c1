-- ===== src/Bandwidth/Obstacles.antt =====
-- src/server/bandwidth-service.ts, lines 260 to 277 and 308 to 325: what it means that nothing stands
-- in the way of a peer's queue.
use wireguard_panel.Base.{
  ◌≡◌, refl, ◌↔◌, Bool, true, false, not, ◌&&◌, List, [], ◌∷◌, ◌++◌, map, Option, none, some, keep,
  All, arith, Bool-cases, inl, inr,
}
use wireguard_panel.Base.Text.{Text, codes, text_eq}
use wireguard_panel.Routeros.Types.{RemoteSimpleQueue}
use wireguard_panel.Routeros.Exchange.{Row}
use wireguard_panel.Bandwidth.Rates.{to_lower_case}
use wireguard_panel.Bandwidth.Queues.{SimpleQueue, BandwidthPeer, queue_targets_ip}
use wireguard_panel.Bandwidth.Conflicts.{
  field_or, record_disabled, is_fast_track, is_relevant, packet_marks, uses_mark,
  enabled_fast_track_rules, advanced_shaping_conflicts,
}
use wireguard_panel.Bandwidth.Apply.{is_conflicting, conflicting}
use wireguard_panel.Bandwidth.Observe.{shaping_conflicts}
use wireguard_panel.Peers.Handlers.{is_owned}

-- A queue that targets the peer's address is the peer's own.
abbrev pub NoOtherQueue : BandwidthPeer → List RemoteSimpleQueue → Type 0
NoOtherQueue p = All (λ q. queue_targets_ip q p.client_ip ≡ true → is_owned p.id q ≡ true)

-- An enabled rule has another action than FastTrack.
abbrev pub NoFastTrack : List Row → Type 0
NoFastTrack = All (λ rule.
    record_disabled rule ≡ false
    → text_eq (to_lower_case (field_or (codes "action") [] rule)) (codes "fasttrack-connection")
      ≡ false)

-- An enabled tree has another packet mark than the enabled rules that concern the address.
abbrev pub NoMarkedTree : Text → List Row → List Row → Type 0
NoMarkedTree ip mangle_rules = All (λ tree.
    record_disabled tree ≡ false
    → uses_mark (packet_marks (keep (is_relevant ip) mangle_rules)) tree ≡ false)

-- The trees and the rules matter only where there is a desired queue.
abbrev pub Unobstructed :
    BandwidthPeer
    → Option SimpleQueue
    → List RemoteSimpleQueue
    → List Row
    → List Row
    → List Row
    → Type 0
Unobstructed p none queues trees mangle_rules filter_rules = NoOtherQueue p queues
Unobstructed p (some desired) queues trees mangle_rules filter_rules =
    NoOtherQueue p queues × NoMarkedTree p.client_ip mangle_rules trees × NoFastTrack filter_rules

map-keep-nil_iff :
    {A B : Type 0} {P : A → Type 0} (f : A → B) (q : A → Bool) (xs : List A)
    → ((x : A) → (q x ≡ false) ↔ P x)
    → (map f (keep q xs) ≡ []) ↔ All P xs
map-keep-nil_iff f q [] same = ((λ _. tt), (λ _. refl))
map-keep-nil_iff f q (x ∷ xs) same =
    let rest = map-keep-nil_iff f q xs same in
    elim (Bool-cases (q x)) [
      | inl e ↦ ((λ h. cc (rw e at h)), (λ (p, ps). cc ((same x).1 p)))
      | inr e ↦ rw e ((λ h. ((same x).0 e, rest.0 h)), (λ (p, ps). rest.1 ps))
    ]

append-nil_iff : {A : Type 0} (xs ys : List A) → (xs ++ ys ≡ []) ↔ ((xs ≡ []) × (ys ≡ []))
append-nil_iff [] ys = ((λ h. (refl, h)), (λ h. h.1))
append-nil_iff (x ∷ xs) ys = ((λ h. cc), (λ h. cc (h.0)))

conflicting-nil_iff :
    (p : BandwidthPeer) (queues : List RemoteSimpleQueue)
    → (conflicting p queues ≡ []) ↔ NoOtherQueue p queues
conflicting-nil_iff p queues =
    map-keep-nil_iff _ (is_conflicting p) queues
      (λ q. ((λ h t. ground (arith, h, t)), (λ h. other p q h)))
  where
    other :
        (p : BandwidthPeer) (q : RemoteSimpleQueue)
        → (queue_targets_ip q p.client_ip ≡ true → is_owned p.id q ≡ true)
        → is_conflicting p q ≡ false
    other p q h = elim (Bool-cases (queue_targets_ip q p.client_ip)) [
      | inl t ↦ ground (arith, h t, t)
      | inr t ↦ ground (arith, t)
    ]

-- `b && c` is false exactly when `c` is false wherever `b` holds.
not_both : (b c : Bool) → (not b && c ≡ false) ↔ (b ≡ false → c ≡ false)
not_both true c = ((λ h e. ground (arith, e)), (λ h. refl))
not_both false c = ((λ h e. h), (λ h. h refl))

enabled_fast_track_rules-nil_iff :
    (rules : List Row) → (enabled_fast_track_rules rules ≡ []) ↔ NoFastTrack rules
unfolding enabled_fast_track_rules
enabled_fast_track_rules-nil_iff rules =
    map-keep-nil_iff _ is_fast_track rules (λ rule. not_both (record_disabled rule) _)

advanced_shaping_conflicts-nil_iff :
    (ip : Text) (trees mangle_rules : List Row)
    → (advanced_shaping_conflicts ip trees mangle_rules ≡ []) ↔ NoMarkedTree ip mangle_rules trees
unfolding advanced_shaping_conflicts
advanced_shaping_conflicts-nil_iff ip trees mangle_rules =
    map-keep-nil_iff _ _ trees (λ tree. not_both (record_disabled tree) _)

pub Unobstructed-iff :
    (p : BandwidthPeer) (desired : Option SimpleQueue) (queues : List RemoteSimpleQueue)
    (trees mangle_rules filter_rules : List Row)
    → (conflicting p queues ++ shaping_conflicts p.client_ip desired trees mangle_rules filter_rules
        ≡ [])
      ↔ Unobstructed p desired queues trees mangle_rules filter_rules
Unobstructed-iff p none queues trees mangle_rules filter_rules =
    let both = append-nil_iff (conflicting p queues) [] in
    let other = conflicting-nil_iff p queues in
    ((λ h. other.0 (both.0 h).0), (λ h. both.1 (other.1 h, refl)))
Unobstructed-iff p (some desired) queues trees mangle_rules filter_rules =
    let both = append-nil_iff (conflicting p queues) _ in
    let other = conflicting-nil_iff p queues in
    let two = append-nil_iff (advanced_shaping_conflicts p.client_ip trees mangle_rules) _ in
    let marked = advanced_shaping_conflicts-nil_iff p.client_ip trees mangle_rules in
    let fast = enabled_fast_track_rules-nil_iff filter_rules in
    (
      (λ h. let (a, bc) = both.0 h in let (b, c) = two.0 bc in (other.0 a, marked.0 b, fast.0 c)),
      (λ (a, b, c). both.1 (other.1 a, two.1 (marked.1 b, fast.1 c))),
    )
