-- ===== src/Ip/Cidr/Overlap.antt =====
-- src/lib/ip-cidr.ts, lines 29 to 31: membership and overlap against the sets of addresses that
-- the networks stand for.
use native.Mathlib.Decide.{dec_le}
use wireguard_panel.Base.{
  max, ℕ, ◌+◌, ◌-◌, ◌*◌, ◌/◌, ◌^◌, ◌≤◌, ◌<◌, ◌≡◌, refl, ap, ◌∙◌, ◌⊎◌, inl, inr, ◌↔◌, Bool, true,
  Result, ok, err, >>=-eq-ok, arith,
}
use wireguard_panel.Base.Text.{Text}
use wireguard_panel.Ip.Address.{IpError, ipv4_to_number, normalize_client_ip}
use wireguard_panel.Ip.Cidr.{
  Ipv4Network, parse_ipv4_cidr, ipv4_in_cidr, cidr_contains_ip, overlap, cidrs_overlap, or_false,
}
use wireguard_panel.Ip.Cidr.Blocks.{pow-add, pow_pos, block_nested}
use wireguard_panel.Ip.Cidr.Laws.{IsNetwork, parse_ipv4_cidr-IsNetwork}

-- The address number lies in the network.
abbrev pub Contains : Ipv4Network → ℕ → Type 0
Contains n v = (n.network_number ≤ v) × (v ≤ n.broadcast_number)

-- Every address of the first lies in the second.
abbrev pub Within : Ipv4Network → Ipv4Network → Type 0
Within a b = (b.network_number ≤ a.network_number) × (a.broadcast_number ≤ b.broadcast_number)

-- Both texts are networks, and these are `a` and `b`.
abbrev pub Parse2 : Text → Text → Ipv4Network → Ipv4Network → Type 0
Parse2 left right a b = (parse_ipv4_cidr left ≡ ok a) × (parse_ipv4_cidr right ≡ ok b)

cidrs_overlap_lem :
    (left right : Text) (a b : Ipv4Network)
    → Parse2 left right a b
    → cidrs_overlap left right ≡ ok (overlap a b)
unfolding cidrs_overlap
cidrs_overlap_lem left right a b (p, q) = rw p (rw q refl)

size_pos : {a : Ipv4Network} → IsNetwork a → 0 < a.size
size_pos {a} h = rw h.size_eq (pow_pos (32 - a.prefix))

overlap_iff :
    {a b : Ipv4Network}
    → IsNetwork a
    → IsNetwork b
    → (overlap a b ≡ true) ↔ ((v : ℕ) × Contains a v × Contains b v)
overlap_iff {a} {b} h k =
    let p = size_pos h in
    let q = size_pos k in
    (
      λ e. (max a.network_number b.network_number, ground arith, ground arith),
      λ (v, x, y). ground arith,
    )

-- For two parsed networks, `cidrsOverlap` answers true exactly when some address lies in both.
pub cidrs_overlap_iff :
    (left right : Text) (a b : Ipv4Network)
    → Parse2 left right a b
    → (cidrs_overlap left right ≡ ok true) ↔ ((v : ℕ) × Contains a v × Contains b v)
cidrs_overlap_iff left right a b p =
    let e = cidrs_overlap_lem left right a b p in
    let iff =
      overlap_iff (parse_ipv4_cidr-IsNetwork left a p.0) (parse_ipv4_cidr-IsNetwork right b p.1) in
    (λ h. iff.0 (ground (arith, e)), λ w. rw e (ap ok (iff.1 w)))

wider_size :
    {a b : Ipv4Network}
    → IsNetwork a
    → IsNetwork b
    → b.prefix ≤ a.prefix
    → b.size ≡ 2 ^ (a.prefix - b.prefix) * a.size
wider_size {a} {b} h k le =
    let e : 32 - b.prefix ≡ a.prefix - b.prefix + (32 - a.prefix) = omega (arith, h.prefix_le) in
    rw (h.size_eq, k.size_eq) (rw e (pow-add (a.prefix - b.prefix) (32 - a.prefix)))

nested_le :
    {a b : Ipv4Network}
    → IsNetwork a
    → IsNetwork b
    → b.prefix ≤ a.prefix
    → overlap a b ≡ true
    → Within a b
nested_le {a} {b} h k le e =
    let w = wider_size h k le in
    let p = size_pos h in
    let q = size_pos k in
    let r : ℕ = 2 ^ (a.prefix - b.prefix) in
    let x : ℕ = a.network_number / a.size in
    let y : ℕ = b.network_number / b.size in
    let base : b.network_number ≡ y * (r * a.size) = k.aligned ∙ ap (λ t. y * t) w in
    let lower : a.network_number ≤ b.broadcast_number = ground arith in
    let upper : b.network_number ≤ a.broadcast_number = ground arith in
    let both =
      block_nested x y a.size r (omega (arith, h.aligned, k.broadcast_eq))
        (omega (arith, h.aligned, h.broadcast_eq)) in
    omega (arith, both, h.aligned, h.broadcast_eq, k.broadcast_eq)

-- Networks never overlap in part: where two of them overlap, one contains the other.
pub cidrs_overlap_nested :
    (left right : Text) (a b : Ipv4Network)
    → Parse2 left right a b
    → cidrs_overlap left right ≡ ok true
    → Within a b ⊎ Within b a
cidrs_overlap_nested left right a b p h =
    let e = cidrs_overlap_lem left right a b p in
    let na = parse_ipv4_cidr-IsNetwork left a p.0 in
    let nb = parse_ipv4_cidr-IsNetwork right b p.1 in
    elim (dec_le b.prefix a.prefix) [
      | yes le ↦ inl (nested_le na nb le (ground (arith, e)))
      | no gt ↦ inr (nested_le nb na (omega arith) (ground (arith, e)))
    ]

or_false-true : (r : Result IpError Bool) → or_false r ≡ true → r ≡ ok true
or_false-true (ok b) h = ap ok h
or_false-true (err e) h = absurd (ground arith)

-- What `cidrContainsIp` decides.
abbrev pub Member : Text → Text → Type 0
Member cidr ip =
    (n : Ipv4Network) × (v : ℕ) × (parse_ipv4_cidr cidr ≡ ok n)
    × (ipv4_to_number (normalize_client_ip ip) ≡ ok v)
    × Contains n v

ipv4_in_cidr-Member : (cidr ip : Text) → ipv4_in_cidr ip cidr ≡ ok true → Member cidr ip
unfolding ipv4_in_cidr
ipv4_in_cidr-Member cidr ip h =
    let (v, q, h') = >>=-eq-ok (ipv4_to_number (normalize_client_ip ip)) _ h in
    let (n, p, h'') = >>=-eq-ok (parse_ipv4_cidr cidr) _ h' in (n, v, p, q, ground arith)

-- `cidrContainsIp` answers true exactly when both texts are accepted and the address lies in the
-- network; so it answers false on every text that is refused.
pub cidr_contains_ip_iff : (cidr ip : Text) → (cidr_contains_ip cidr ip ≡ true) ↔ Member cidr ip
unfolding cidr_contains_ip ipv4_in_cidr
cidr_contains_ip_iff cidr ip = (
  λ h. ipv4_in_cidr-Member cidr ip (or_false-true (ipv4_in_cidr ip cidr) h),
  λ (n, v, p, q, c). rw q (rw p (ground arith)),
)
