-- ===== src/Ip/Range/Validation.antt =====
-- src/lib/ip-cidr.ts, lines 33 to 50: ranges and the check of a pool's range.
use native.Mathlib.Decide.{dec_le, ℕ_discrete}
use wireguard_panel.Base.{
  max, ℕ, ◌+◌, ◌-◌, ◌^◌, ◌≤◌, ◌<◌, ◌≡◌, ◌≢◌, refl, ap, ◌∙◌, ◌↔◌, true, ok, >>=-eq-ok, arith,
}
use wireguard_panel.Base.Text.{Text}
use wireguard_panel.Ip.Address.{ipv4_to_number, max_ipv4, normalize_client_ip, dotted}
use wireguard_panel.Ip.Address.Laws.{ipv4_to_number_bound, number_to_ipv4_ok}
use wireguard_panel.Ip.Cidr.{Ipv4Network, parse_ipv4_cidr}
use wireguard_panel.Ip.Cidr.Laws.{IsNetwork, parse_ipv4_cidr-IsNetwork}
use wireguard_panel.Ip.Range.{
  IpRange, PoolRange, ipv4_range, ranges_overlap, check_range, validate_pool_range,
}

-- The numbers of a range that `ipv4Range` accepts.
pub record IsRange (r : IpRange) : Type 0 where
  pub ordered : r.start ≤ r.end
  pub end_le : r.end ≤ max_ipv4
  pub counted : r.start + r.total ≡ r.end + 1

pub ipv4_range-IsRange : (start end : Text) (r : IpRange) → ipv4_range start end ≡ ok r → IsRange r
unfolding ipv4_range
ipv4_range-IsRange start end r h =
    let (first, p, h') = >>=-eq-ok (ipv4_to_number (normalize_client_ip start)) _ h in
    let (last, q, h'') = >>=-eq-ok (ipv4_to_number (normalize_client_ip end)) _ h' in
    let bound = ipv4_to_number_bound _ last q in ground arith

-- Two ranges that are read overlap exactly when some address lies in both.
pub ranges_overlap_iff :
    (a_start a_end b_start b_end : Text) (a b : IpRange)
    → (ipv4_range a_start a_end ≡ ok a) × (ipv4_range b_start b_end ≡ ok b)
    → (ranges_overlap a_start a_end b_start b_end ≡ ok true)
      ↔ ((v : ℕ) × ((a.start ≤ v) × (v ≤ a.end)) × ((b.start ≤ v) × (v ≤ b.end)))
unfolding ranges_overlap
ranges_overlap_iff a_start a_end b_start b_end a b (p, q) =
    let ra = ipv4_range-IsRange a_start a_end a p in
    let rb = ipv4_range-IsRange b_start b_end b q in
    (
      λ h. (max a.start b.start, ground (arith, p, q), ground (arith, p, q)),
      λ (v, x, y). rw p (rw q (ground arith)),
    )

-- A client address of the pool: a host of the network that is not the gateway.
pub record IsHost (n : Ipv4Network) (gateway v : ℕ) : Type 0 where
  pub above_network : n.network_number < v
  pub below_broadcast : v < n.broadcast_number
  pub not_gateway : v ≢ gateway

size_at : (n : Ipv4Network) (k : ℕ) → IsNetwork n → n.prefix ≡ k → n.size ≡ 2 ^ (32 - k)
size_at n k net e = net.size_eq ∙ ap (λ p. 2 ^ (32 - p)) e

-- What the tests of lines 45 to 48 leave, as numbers.
record Checked (n : Ipv4Network) (gateway : ℕ) (r : IpRange) : Type 0 where
  above : n.network_number < r.start
  below : r.end ≤ n.broadcast_number
  off_broadcast : n.prefix < 32 → r.end < n.broadcast_number
  off_gateway : (v : ℕ) → r.start ≤ v → v ≤ r.end → v ≢ gateway

check_range-Checked :
    (n : Ipv4Network) (gateway : ℕ) (r : IpRange)
    → check_range n gateway r ≡ ok tt
    → Checked n gateway r
unfolding check_range
check_range-Checked n gateway r h = record {
  above = ground arith;
  below = ground arith;
  off_broadcast = λ p. ground arith;
  off_gateway = λ v lo hi e. ground arith;
}

prefix_usable :
    (n : Ipv4Network) (gateway : ℕ) (r : IpRange)
    → IsNetwork n
    → IsRange r
    → Checked n gateway r
    → n.prefix ≤ 30
prefix_usable n gateway r net range c = elim (dec_le n.prefix 30) [
  | yes le ↦ le
  | no gt ↦ elim (ℕ_discrete n.prefix 31) [
    | yes e ↦ absurd (
        omega (
          arith,
          size_at n 31 net e,
          c.off_broadcast (omega arith),
          c.above,
          range.ordered,
          net.broadcast_eq,
        ))
    | no ne ↦ absurd (
        omega (
          arith,
          size_at n 32 net (omega (arith, net.prefix_le)),
          c.below,
          c.above,
          range.ordered,
          net.broadcast_eq,
        ))
  ]
]

-- A pool range that is accepted holds hosts of the network only: neither the network address nor
-- the broadcast address nor the gateway. So the network has a prefix of at most 30 bits.
pub validate_pool_range-IsHost :
    (cidr gateway start end : Text) (p : PoolRange)
    → validate_pool_range cidr gateway start end ≡ ok p
    → (p.network.prefix ≤ 30)
      × (p.range.start ≤ p.range.end)
      × ((g : ℕ) × (ipv4_to_number gateway ≡ ok g)
          × (p.gateway ≡ dotted g)
          × ((v : ℕ) → p.range.start ≤ v → v ≤ p.range.end → IsHost p.network g v))
unfolding validate_pool_range
validate_pool_range-IsHost cidr gateway start end p h =
    let (n, en, h1) = >>=-eq-ok (parse_ipv4_cidr cidr) _ h in
    let (g, eg, h2) = >>=-eq-ok (ipv4_to_number gateway) _ h1 in
    let (r, er, h3) = >>=-eq-ok (ipv4_range start end) _ h2 in
    let (u, ec, h4) = >>=-eq-ok (check_range n g r) _ h3 in
    let bound = ipv4_to_number_bound gateway g eg in
    let made : p ≡ record { network = n; range = r; gateway = dotted g } =
      cc (number_to_ipv4_ok g bound, h4) in
    let net = parse_ipv4_cidr-IsNetwork cidr n en in
    let range = ipv4_range-IsRange start end r er in
    let c = check_range-Checked n g r ec in
    let usable = prefix_usable n g r net range c in
    rw made (
      usable,
      range.ordered,
      (
        g,
        eg,
        refl,
        λ v lo hi. record {
          above_network = omega (arith, c.above);
          below_broadcast = omega (arith, c.off_broadcast (omega arith));
          not_gateway = c.off_gateway v lo hi;
        },
      ),
    )
