-- ===== src/Pools/Free.antt =====
-- src/server/pool-service.ts, lines 138 to 149: what it means for the choice of an address that
-- nobody has it, on the numbers of the entries and of the networks, and on the texts of the peers.
use wireguard_panel.Base.{
  ℕ, ◌≤◌, ◌<◌, ◌≡◌, ◌≢◌, refl, ap, inl, inr, Bool, true, false, List, [], ◌∷◌, Option, none, some,
  ok, arith, Bool-cases, any, ltb, All,
}
use wireguard_panel.Base.Text.{Text, text_eq_refl, split, trim}
use wireguard_panel.Base.Decimal.{nonempty}
use wireguard_panel.Ip.Address.{max_ipv4, dotted, normalize_client_ip}
use wireguard_panel.Ip.Address.Laws.{ipv4_to_number-dotted, normalize_client_ip-dotted}
use wireguard_panel.Ip.Cidr.{Ipv4Network, parse_ipv4_cidr, cidr_contains_ip}
use wireguard_panel.Ip.Cidr.Overlap.{cidr_contains_ip_iff}
use wireguard_panel.Ip.Allowed.{includes, entry_owns_ip, allowed_address_owns_ip}
use wireguard_panel.Routeros.Types.{RemoteWireGuardPeer}
use wireguard_panel.Pools.Rows.{
  EntryState, available, reserved, allocated, router, is_blocking, is_id, PoolAddress, PoolPeer,
  Tables,
}
use wireguard_panel.Pools.Choose.{is_owner, is_distinct, is_blocked_by, is_remote_owner, explain}
use wireguard_panel.Pools.Kept.{find-eq-none}

-- Another peer of the router does not have the address, in its dotted form.
abbrev pub IsNotOwner : ℕ → Option ℕ → ℕ → PoolPeer → Type 0
IsNotOwner router_id exclude v p =
    p.router_id ≡ router_id
    → exclude ≢ some p.id
    → (client_ip : Text) → p.client_ip ≡ some client_ip
    → normalize_client_ip client_ip ≢ dotted v

-- An entry of the router that is not available, and not the excluded peer's, has another address.
abbrev pub IsNotBlocking : ℕ → Option ℕ → ℕ → PoolAddress → Type 0
IsNotBlocking router_id exclude v a =
    a.router_id ≡ router_id
    → a.state ≢ available
    → ((id : ℕ) → exclude ≡ some id → a.peer_id ≢ some id)
    → a.ip_address ≢ v

-- One of the addresses that a peer on the router is allowed: a network without the address, or
-- another text than its dotted form.
pub record IsElsewhere (v : ℕ) (item : Text) : Type 0 where
  pub outside :
      (n : Ipv4Network)
      → includes b'/' (trim item) ≡ true
      → parse_ipv4_cidr (trim item) ≡ ok n
      → n.network_number ≤ v
      → n.broadcast_number < v
  pub differs :
      trim item ≢ []
      → includes b'/' (trim item) ≡ false
      → normalize_client_ip (trim item) ≢ dotted v

-- Nobody has the address with the number: no other peer of the router, no entry of the router but
-- the excluded peer's, and no peer that the router itself knows.
pub record IsFree (db : Tables) (router_id : ℕ) (remote_peers : List RemoteWireGuardPeer)
    (exclude : Option ℕ) (v : ℕ) : Type 0 where
  pub no_owner : All (IsNotOwner router_id exclude v) db.peers
  pub no_entry : All (IsNotBlocking router_id exclude v) db.addresses
  pub no_remote : All (λ peer. All (IsElsewhere v) (split b',' peer.allowed_address)) remote_peers

any-false-All {ℓ κ} :
    {A : Type ℓ} (p : A → Bool) (P : A → Type κ)
    → ((a : A) → p a ≡ false → P a)
    → (xs : List A) → any p xs ≡ false
    → All P xs
any-false-All p P f [] h = tt
any-false-All p P f (x ∷ xs) h =
    (f x (ground (arith, h)), any-false-All p P f xs (ground (arith, h)))

is_blocking_held : (s : EntryState) → s ≢ available → is_blocking s ≡ true
is_blocking_held available h = absurd (h refl)
is_blocking_held reserved h = refl
is_blocking_held allocated h = refl
is_blocking_held router h = refl

is_id-some : (id : ℕ) (o : Option ℕ) → is_id id o ≡ true → o ≡ some id
is_id-some id none h = cc
is_id-some id (some other) h = ap some (ground (arith, h))

is_id-other : (id : ℕ) (o : Option ℕ) → o ≢ some id → is_id id o ≡ false
is_id-other id o h = elim (Bool-cases (is_id id o)) [
  | inl same ↦ absurd (h (is_id-some id o same))
  | inr other ↦ other
]

is_distinct_others :
    (exclude holder : Option ℕ)
    → ((id : ℕ) → exclude ≡ some id → holder ≢ some id)
    → is_distinct exclude holder ≡ true
is_distinct_others none holder h = refl
is_distinct_others (some id) holder h = rw (is_id-other id holder (h id refl)) refl

module _ (router_id : ℕ) (exclude : Option ℕ) (v : ℕ) where
  is_owner-IsNotOwner :
      (p : PoolPeer)
      → is_owner router_id exclude (dotted v) p ≡ false
      → IsNotOwner router_id exclude v p
  is_owner-IsNotOwner p h here others client_ip e same =
      let other = is_id-other p.id exclude others in
      let equal = text_eq_refl (dotted v) in
      absurd (ground (arith, rw e at h, here, other, equal, same))

  is_blocked_by-IsNotBlocking :
      (a : PoolAddress)
      → is_blocked_by router_id exclude (dotted v) a ≡ false
      → IsNotBlocking router_id exclude v a
  is_blocked_by-IsNotBlocking a h here held others same =
      let blocking = is_blocking_held a.state held in
      let distinct = is_distinct_others exclude a.peer_id others in
      let equal = text_eq_refl (dotted v) in
      absurd (ground (arith, rw same at h, here, blocking, distinct, equal))

nonempty-true : (s : Text) → s ≢ [] → nonempty s ≡ true
nonempty-true [] h = absurd (h refl)
nonempty-true (c ∷ s) h = refl

nonempty-includes : (c : ℕ) (s : Text) → includes c s ≡ true → nonempty s ≡ true
nonempty-includes c [] h = cc
nonempty-includes c (d ∷ s) h = refl

module _ (v : ℕ) (bound : v ≤ max_ipv4) where
  cidr_contains_dotted :
      (cidr : Text) (n : Ipv4Network)
      → parse_ipv4_cidr cidr ≡ ok n
      → n.network_number ≤ v
      → v ≤ n.broadcast_number
      → cidr_contains_ip cidr (dotted v) ≡ true
  cidr_contains_dotted cidr n p lo hi =
      (cidr_contains_ip_iff cidr (dotted v)).1
        (n, v, p, rw (normalize_client_ip-dotted v) (ipv4_to_number-dotted v bound), (lo, hi))

  entry_owns_ip-IsElsewhere :
      (item : Text) → entry_owns_ip (dotted v) item ≡ false → IsElsewhere v item
  unfolding entry_owns_ip
  entry_owns_ip-IsElsewhere item h = record {
    outside = λ n slash reads lo. elim (Bool-cases (ltb n.broadcast_number v)) [
      | inl above ↦ ground (arith, above)
      | inr below ↦
          let named = nonempty-includes b'/' (trim item) slash in
          let inside = cidr_contains_dotted (trim item) n reads lo (ground (arith, below)) in
          absurd (ground (arith, rw slash at (rw named at h), inside))
    ];
    differs = λ named plain same.
        let canonical = normalize_client_ip-dotted v in
        let equal = text_eq_refl (dotted v) in
        absurd (
          ground (
            arith,
            rw canonical at (rw same at (rw plain at (rw (nonempty-true (trim item) named) at h))),
            equal,
          ));
  }

  is_remote_owner-IsElsewhere :
      (peer : RemoteWireGuardPeer)
      → is_remote_owner (dotted v) peer ≡ false
      → All (IsElsewhere v) (split b',' peer.allowed_address)
  unfolding allowed_address_owns_ip
  is_remote_owner-IsElsewhere peer =
      any-false-All (entry_owns_ip (dotted v)) (IsElsewhere v) entry_owns_ip-IsElsewhere
        (split b',' peer.allowed_address)

  -- An address with no conflict is free.
  pub explain-IsFree :
      (db : Tables) (router_id : ℕ) (remote_peers : List RemoteWireGuardPeer) (exclude : Option ℕ)
      → explain db router_id remote_peers exclude (dotted v) ≡ none
      → IsFree db router_id remote_peers exclude v
  unfolding explain
  explain-IsFree db router_id remote_peers exclude h = record {
    no_owner =
        any-false-All (is_owner router_id exclude (dotted v)) _
          (is_owner-IsNotOwner router_id exclude v) db.peers
          (find-eq-none (is_owner router_id exclude (dotted v)) db.peers (ground arith));
    no_entry =
        any-false-All (is_blocked_by router_id exclude (dotted v)) _
          (is_blocked_by-IsNotBlocking router_id exclude v) db.addresses
          (find-eq-none (is_blocked_by router_id exclude (dotted v)) db.addresses (ground arith));
    no_remote =
        any-false-All (is_remote_owner (dotted v)) _ is_remote_owner-IsElsewhere remote_peers
          (find-eq-none (is_remote_owner (dotted v)) remote_peers (ground arith));
  }
