-- ===== src/Ip/Range/Suggested.antt =====
-- src/lib/ip-cidr.ts, lines 43 to 65: the suggested range under the check of a pool's range.
use mathlib.Core.Path.{ap₂}
use wireguard_panel.Base.{
  ℕ, ◌+◌, ◌-◌, ◌*◌, ◌^◌, ◌≤◌, ◌<◌, ◌≡◌, refl, ap, ◌∙◌, inl, inr, Bool, true, false, ◌&&◌, ◌||◌,
  some, Result, ok, err, >>=-eq-ok, leb, ltb, arith, Bool-cases, not, ◌>>=◌, ◌>>◌, if◌then◌else◌,
}
use wireguard_panel.Base.Text.{Text}
use wireguard_panel.Ip.Address.{
  gateway_in_range, ipv4_to_number, max_ipv4, normalize_client_ip, dotted,
}
use wireguard_panel.Ip.Address.Laws.{
  ipv4_to_number_bound, number_to_ipv4_ok, ipv4_to_number-dotted, normalize_client_ip-dotted,
}
use wireguard_panel.Ip.Cidr.{Ipv4Network, parse_ipv4_cidr}
use wireguard_panel.Ip.Cidr.Blocks.{pow_pos, pow-add}
use wireguard_panel.Ip.Cidr.Laws.{
  IsNetwork, parse_ipv4_cidr-IsNetwork, parse_ipv4_cidr-cidr, parse_ipv4_cidr-Parsed,
  make_network_contains,
}
use wireguard_panel.Ip.Range.{
  IpRange, PoolRange, Suggestion, first_host, last_host, ipv4_range, check_range,
  validate_pool_range, suggest_in, suggest_pool_from_interface_address,
}

-- How a suggestion was made: from the network `n` of the address and its own number `g`.
pub record Suggested (address : Text) (s : Suggestion) : Type 0 where
  pub n : Ipv4Network
  pub g : ℕ
  pub parsed : parse_ipv4_cidr address ≡ ok n
  pub reads : ipv4_to_number (normalize_client_ip address) ≡ ok g
  pub prefix_le : n.prefix ≤ 30
  pub ordered : first_host n g ≤ last_host n g
  pub network_eq : s.network ≡ n.cidr
  pub gateway_eq : s.gateway ≡ normalize_client_ip address
  pub start_eq : s.start_ip ≡ dotted (first_host n g)
  pub end_eq : s.end_ip ≡ dotted (last_host n g)

hosts_fit :
    (n : Ipv4Network) (g : ℕ)
    → IsNetwork n
    → first_host n g ≤ last_host n g
    → last_host n g ≤ max_ipv4
hosts_fit n g net h = ground arith

suggest_in_lem :
    (gateway : Text) (n : Ipv4Network) (g : ℕ) (s : Suggestion)
    → IsNetwork n
    → suggest_in gateway n g ≡ ok (some s)
    → (first_host n g ≤ last_host n g)
      × (s ≡ record {
        network = n.cidr;
        gateway = gateway;
        start_ip = dotted (first_host n g);
        end_ip = dotted (last_host n g);
      })
unfolding suggest_in
suggest_in_lem gateway n g s net h = elim (Bool-cases (ltb (last_host n g) (first_host n g))) [
  | inl e ↦ absurd (ground arith)
  | inr e ↦
      let le : first_host n g ≤ last_host n g = ground arith in
      let fit = hosts_fit n g net le in
      (
        le,
        cc (
          e,
          number_to_ipv4_ok (first_host n g) (omega arith),
          number_to_ipv4_ok (last_host n g) fit,
          h,
        ),
      )
]

suggest_pool-Suggested :
    (address : Text) (s : Suggestion)
    → suggest_pool_from_interface_address address ≡ ok (some s)
    → Suggested address s
unfolding suggest_pool_from_interface_address
suggest_pool-Suggested address s h =
    let (n, p, h1) = >>=-eq-ok (parse_ipv4_cidr address) _ h in
    elim (Bool-cases (ltb 30 n.prefix)) [
      | inl e ↦ absurd (ground arith)
      | inr e ↦
          let read : (ipv4_to_number (normalize_client_ip address) >>= λ g.
          suggest_in (normalize_client_ip address) n g)
              ≡ ok (some s) =
            ground arith in
          let (g, q, h2) = >>=-eq-ok (ipv4_to_number (normalize_client_ip address)) _ read in
          let (le, made) =
            suggest_in_lem (normalize_client_ip address) n g s
              (parse_ipv4_cidr-IsNetwork address n p) h2 in
          record {
            n = n;
            g = g;
            parsed = p;
            reads = q;
            prefix_le = ground arith;
            ordered = le;
            network_eq = ap (λ t. t.network) made;
            gateway_eq = ap (λ t. t.gateway) made;
            start_eq = ap (λ t. t.start_ip) made;
            end_eq = ap (λ t. t.end_ip) made;
          }
    ]

size_ge_four : (n : Ipv4Network) → IsNetwork n → n.prefix ≤ 30 → 4 ≤ n.size
size_ge_four n net le =
    let e : 32 - n.prefix ≡ (30 - n.prefix) + 2 = omega arith in
    let pos = pow_pos (30 - n.prefix) in
    let f : 2 ^ (32 - n.prefix) ≡ 2 ^ (30 - n.prefix) * 4 =
      ap (λ t. 2 ^ t) e ∙ pow-add (30 - n.prefix) 2 in
    omega (arith, net.size_eq, f, pos)

gateway_inside :
    (address : Text) (n : Ipv4Network) (g : ℕ)
    → parse_ipv4_cidr address ≡ ok n
    → ipv4_to_number (normalize_client_ip address) ≡ ok g
    → (n.network_number ≤ g) × (g ≤ n.broadcast_number)
gateway_inside address n g p q =
    let d = parse_ipv4_cidr-Parsed address n p in
    let same : d.ip ≡ g = cc (d.reads, d.address_eq, q) in
    let inside = make_network_contains d.ip d.prefix in rw (d.made, ← same) inside

pub host_range : Ipv4Network → ℕ → IpRange
host_range n g = record {
  start = first_host n g;
  end = last_host n g;
  total = last_host n g - first_host n g + 1;
}

range_printed :
    (v w : ℕ)
    → v ≤ w
    → w ≤ max_ipv4
    → ipv4_range (dotted v) (dotted w) ≡ ok (record { start = v; end = w; total = w - v + 1 })
unfolding ipv4_range
range_printed v w h k =
    rw (normalize_client_ip-dotted v, normalize_client_ip-dotted w)
      (rw (ipv4_to_number-dotted v (omega arith), ipv4_to_number-dotted w k) (ground arith))

-- Whether the address stands apart from the hosts between which the range is stretched.
abbrev pub at_edge : Ipv4Network → ℕ → Bool
at_edge n g = leb g (n.network_number + 1) || leb (n.broadcast_number - 1) g

-- With all numbers inside the network only the last test of the check can fail.
check_hosts :
    (n : Ipv4Network) (g : ℕ) (r : IpRange)
    → (n.network_number ≤ g) × (g ≤ n.broadcast_number)
    → n.network_number < r.start
    → r.start ≤ r.end
    → r.end < n.broadcast_number
    → check_range n g r ≡ (if leb r.start g && leb g r.end then err gateway_in_range else ok tt)
unfolding check_range
check_hosts n g r inside a b c = ground arith

host_bounds :
    (n : Ipv4Network) (g : ℕ)
    → IsNetwork n
    → 4 ≤ n.size
    → (n.network_number < first_host n g) × (last_host n g < n.broadcast_number)
host_bounds n g net four = ground arith

stretch_edge :
    (n : Ipv4Network) (g : ℕ)
    → IsNetwork n
    → 4 ≤ n.size
    → (leb (first_host n g) g && leb g (last_host n g)) ≡ not (at_edge n g)
stretch_edge n g net four = ground arith

check_suggested :
    (n : Ipv4Network) (g : ℕ)
    → IsNetwork n
    → 4 ≤ n.size
    → (n.network_number ≤ g) × (g ≤ n.broadcast_number)
    → first_host n g ≤ last_host n g
    → check_range n g (host_range n g) ≡ (if not (at_edge n g) then err gateway_in_range else ok tt)
unfolding host_range
check_suggested n g net four inside h =
    let b = host_bounds n g net four in
    check_hosts n g (host_range n g) inside b.0 h b.1
    ∙ ap (λ t. if t then err gateway_in_range else ok tt) (stretch_edge n g net four)

validate_lem :
    (cidr gateway start end : Text) (n : Ipv4Network) (g : ℕ) (r : IpRange)
    → parse_ipv4_cidr cidr ≡ ok n
    → ipv4_to_number gateway ≡ ok g
    → ipv4_range start end ≡ ok r
    → validate_pool_range cidr gateway start end
      ≡ (check_range n g r >> ok (record { network = n; range = r; gateway = dotted g }))
unfolding validate_pool_range
validate_lem cidr gateway start end n g r p q t =
    rw p (rw q (rw t (rw (number_to_ipv4_ok g (ipv4_to_number_bound gateway g q)) refl)))

pull_if {ℓ κ} :
    {E : Type ℓ} {B : Type κ} (b : Bool) (e : E) (m : Result E B)
    → ((if b then err e else ok tt) >> m) ≡ (if b then err e else m)
pull_if true e m = refl
pull_if false e m = refl

Suggested-check :
    {address : Text} {s : Suggestion} (d : Suggested address s)
    → validate_pool_range s.network s.gateway s.start_ip s.end_ip ≡ (
        if not (at_edge d.n d.g)
        then err gateway_in_range
        else ok (record { network = d.n; range = host_range d.n d.g; gateway = dotted d.g }))
unfolding host_range
Suggested-check {address} {s} d =
    let net = parse_ipv4_cidr-IsNetwork address d.n d.parsed in
    let inside = gateway_inside address d.n d.g d.parsed d.reads in
    let check = check_suggested d.n d.g net (size_ge_four d.n net d.prefix_le) inside d.ordered in
    let network : parse_ipv4_cidr s.network ≡ ok d.n =
      ap parse_ipv4_cidr d.network_eq ∙ parse_ipv4_cidr-cidr address d.n d.parsed in
    let gateway : ipv4_to_number s.gateway ≡ ok d.g = ap ipv4_to_number d.gateway_eq ∙ d.reads in
    let range : ipv4_range s.start_ip s.end_ip ≡ ok (host_range d.n d.g) =
      ap₂ ipv4_range d.start_eq d.end_eq
      ∙ range_printed (first_host d.n d.g) (last_host d.n d.g) d.ordered
          (hosts_fit d.n d.g net d.ordered) in
    let made : PoolRange = record {
      network = d.n;
      range = host_range d.n d.g;
      gateway = dotted d.g;
    } in
    validate_lem s.network s.gateway s.start_ip s.end_ip d.n d.g (host_range d.n d.g) network
      gateway range
    ∙ ap (λ t. t >> ok made) check
    ∙ pull_if (not (at_edge d.n d.g)) gateway_in_range (ok made)

-- The check of the pool service, applied to the suggestion made for an interface address, where
-- one is made. It passes exactly when the address is at the edge of its network, that is, at most one above the
-- network address or at most one below the broadcast address. A suggestion for any other address
-- is refused, since the range between the first and the last host then holds the gateway itself.
pub validate_pool_range-suggest_pool :
    (address : Text) (s : Suggestion) (n : Ipv4Network) (g : ℕ)
    → suggest_pool_from_interface_address address ≡ ok (some s)
    → parse_ipv4_cidr address ≡ ok n
    → ipv4_to_number (normalize_client_ip address) ≡ ok g
    → validate_pool_range s.network s.gateway s.start_ip s.end_ip ≡ (
        if not (at_edge n g)
        then err gateway_in_range
        else ok (record { network = n; range = host_range n g; gateway = dotted g }))
validate_pool_range-suggest_pool address s n g h p q =
    let d = suggest_pool-Suggested address s h in
    let same_network : n ≡ d.n = cc (d.parsed, p) in
    let same_number : g ≡ d.g = cc (d.reads, q) in
    rw (same_network, same_number) (Suggested-check d)
