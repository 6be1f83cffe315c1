-- ===== src/Ip/Cidr/Laws.antt =====
-- src/lib/ip-cidr.ts, lines 18 to 27: what a parsed network is.
use wireguard_panel.Base.{
  ℕ, zero, suc, ◌+◌, ◌-◌, ◌*◌, ◌/◌, ◌^◌, ◌≤◌, ◌<◌, ◌≡◌, refl, sym, ap, ◌∙◌, Bool, true, false, ◌&&◌,
  List, [], ◌∷◌, ◌++◌, none, some, ok, >>=-eq-ok, ◌==◌, inl, inr, Option-cases, All-append, arith,
}
use wireguard_panel.Base.Text.{
  Text, NoSpace, split, split_plain, split_append, trim, trim_plain, is_space,
}
use wireguard_panel.Base.Decimal.{decimal, IsDigits-NoSpace, IsDigits-Without, decimal-IsDigits}
use wireguard_panel.Ip.Address.{ipv4_to_number, dotted, max_ipv4, normalize_client_ip, first_part}
use wireguard_panel.Ip.Address.Laws.{
  ipv4_to_number-dotted, ipv4_to_number_bound, number_to_ipv4_ok, dotted-NoSpace,
  dotted-Without_slash,
}
use wireguard_panel.Ip.Cidr.{Ipv4Network, prefix_of, cidr_parts, network_of, parse_ipv4_cidr}
use wireguard_panel.Ip.Cidr.Blocks.{
  pow-add, pow_pos, block_end, block_lower, block_upper, block_self,
}

-- `network` prints as an aligned block of `2 ^ (32 - prefix)` addresses of the 32-bit space.
pub record IsNetwork (n : Ipv4Network) : Type 0 where
  pub prefix_le : n.prefix ≤ 32
  pub size_eq : n.size ≡ 2 ^ (32 - n.prefix)
  pub aligned : n.network_number ≡ n.network_number / n.size * n.size
  pub broadcast_eq : n.broadcast_number + 1 ≡ n.network_number + n.size
  pub broadcast_le : n.broadcast_number ≤ max_ipv4
  pub network_text : n.network ≡ dotted n.network_number
  pub broadcast_text : n.broadcast ≡ dotted n.broadcast_number
  pub cidr_text : n.cidr ≡ dotted n.network_number ++ b'/' ∷ decimal n.prefix

prefix_of_bound : (raw : Text) (p : ℕ) → prefix_of raw ≡ some p → p ≤ 32
unfolding prefix_of
prefix_of_bound [] p h = absurd (ground arith)
prefix_of_bound (a ∷ []) p h = ground arith
prefix_of_bound (a ∷ b ∷ []) p h = ground arith
prefix_of_bound (a ∷ b ∷ c ∷ s) p h = absurd (ground arith)

-- The network that the constructor of line 26 builds.
pub make_network : ℕ → ℕ → Ipv4Network
make_network ip prefix = record {
  cidr = dotted (base ip) ++ b'/' ∷ decimal prefix;
  prefix = prefix;
  network = dotted (base ip);
  broadcast = dotted (base ip + size - 1);
  network_number = base ip;
  broadcast_number = base ip + size - 1;
  size = size;
}
  where
    size : ℕ
    size = 2 ^ (32 - prefix)

    base : ℕ → ℕ
    base ip = ip / size * size

space_split : (p : ℕ) → p ≤ 32 → 2 ^ p * 2 ^ (32 - p) ≡ 4294967296
space_split p h = let e : p + (32 - p) ≡ 32 = omega arith in sym (pow-add p (32 - p)) ∙ rw e refl

block_fits :
    (ip p : ℕ)
    → p ≤ 32
    → ip ≤ max_ipv4
    → ip / 2 ^ (32 - p) * 2 ^ (32 - p) + 2 ^ (32 - p) ≤ 4294967296
block_fits ip p hp h =
    rw (← space_split p hp)
      (block_end ip (2 ^ (32 - p)) (2 ^ p) (pow_pos (32 - p)) (rw (space_split p hp) (omega arith)))

make_network-IsNetwork :
    (ip prefix : ℕ) → prefix ≤ 32 → ip ≤ max_ipv4 → IsNetwork (make_network ip prefix)
unfolding make_network
make_network-IsNetwork ip prefix hp h = record {
  prefix_le = hp;
  size_eq = refl;
  aligned = ap (λ k. k * 2 ^ (32 - prefix)) (sym (block_self _ _ (pow_pos (32 - prefix))));
  broadcast_eq = omega (arith, pow_pos (32 - prefix));
  broadcast_le = omega (arith, block_fits ip prefix hp h);
  network_text = refl;
  broadcast_text = refl;
  cidr_text = refl;
}

network_of_lem :
    (address : Text) (ip prefix : ℕ)
    → prefix ≤ 32
    → ipv4_to_number address ≡ ok ip
    → network_of address prefix ≡ ok (make_network ip prefix)
unfolding network_of make_network
network_of_lem address ip prefix hp e =
    let h : ip ≤ max_ipv4 = ipv4_to_number_bound address ip e in
    let fits = block_fits ip prefix hp h in
    rw (e, network_of)
      (rw
        (number_to_ipv4_ok (ip / 2 ^ (32 - prefix) * 2 ^ (32 - prefix))
          (omega (arith, pow_pos (32 - prefix))))
        (rw
          (number_to_ipv4_ok (ip / 2 ^ (32 - prefix) * 2 ^ (32 - prefix) + 2 ^ (32 - prefix) - 1)
            (omega arith))
          refl))

-- A successful parse comes from an address and a prefix.
pub record Parsed (value : Text) (n : Ipv4Network) : Type 0 where
  pub address : Text
  pub ip : ℕ
  pub prefix : ℕ
  pub prefix_le : prefix ≤ 32
  pub ip_le : ip ≤ max_ipv4
  pub address_eq : address ≡ normalize_client_ip value
  pub reads : ipv4_to_number address ≡ ok ip
  pub made : n ≡ make_network ip prefix

cidr_parts_bound :
    (parts : List Text) (address : Text) (p : ℕ) → cidr_parts parts ≡ some (address, p) → p ≤ 32
unfolding cidr_parts
cidr_parts_bound [] address p h = absurd (ground arith)
cidr_parts_bound (a ∷ []) address p h = absurd (ground arith)
cidr_parts_bound (a ∷ b ∷ []) address p h = prefix_of_bound b p (ground arith)
cidr_parts_bound (a ∷ b ∷ c ∷ s) address p h = absurd (ground arith)

cidr_parts_first :
    (parts : List Text) (address : Text) (p : ℕ)
    → cidr_parts parts ≡ some (address, p)
    → address ≡ first_part parts
unfolding cidr_parts
cidr_parts_first [] address p h = absurd (ground arith)
cidr_parts_first (a ∷ []) address p h = absurd (ground arith)
cidr_parts_first (a ∷ b ∷ []) address p h = ground arith
cidr_parts_first (a ∷ b ∷ c ∷ s) address p h = absurd (ground arith)

cidr_parts_address :
    (value address : Text) (p : ℕ)
    → cidr_parts (split b'/' (trim value)) ≡ some (address, p)
    → address ≡ normalize_client_ip value
unfolding normalize_client_ip
cidr_parts_address value address p h = cidr_parts_first (split b'/' (trim value)) address p h

network_of-Parsed :
    (value address : Text) (p : ℕ) (n : Ipv4Network)
    → p ≤ 32
    → address ≡ normalize_client_ip value
    → network_of address p ≡ ok n
    → Parsed value n
unfolding network_of
network_of-Parsed value address p n hp q h =
    let (ip, reads, _) = >>=-eq-ok (ipv4_to_number address) _ h in
    record {
      address = address;
      ip = ip;
      prefix = p;
      prefix_le = hp;
      ip_le = ipv4_to_number_bound address ip reads;
      address_eq = q;
      reads = reads;
      made = cc (network_of_lem address ip p hp reads);
    }

pub parse_ipv4_cidr-Parsed :
    (value : Text) (n : Ipv4Network) → parse_ipv4_cidr value ≡ ok n → Parsed value n
unfolding parse_ipv4_cidr
parse_ipv4_cidr-Parsed value n h = elim (Option-cases (cidr_parts (split b'/' (trim value)))) [
  | inl e ↦ absurd (ground arith)
  | inr (r, e) ↦
      network_of-Parsed value r.0 r.1 n (cidr_parts_bound (split b'/' (trim value)) r.0 r.1 e)
        (cidr_parts_address value r.0 r.1 e) (rw (e, parse_ipv4_cidr) at h)
]

-- Whatever text is accepted as a network, the result is an aligned block of the address space,
-- and its texts are the printed forms of its numbers.
pub parse_ipv4_cidr-IsNetwork :
    (value : Text) (n : Ipv4Network) → parse_ipv4_cidr value ≡ ok n → IsNetwork n
parse_ipv4_cidr-IsNetwork value n h =
    let p = parse_ipv4_cidr-Parsed value n h in
    rw p.made (make_network-IsNetwork p.ip p.prefix p.prefix_le p.ip_le)

-- The address of the text lies in the network.
pub make_network_contains :
    (ip prefix : ℕ)
    → ((make_network ip prefix).network_number ≤ ip)
      × (ip ≤ (make_network ip prefix).broadcast_number)
unfolding make_network
make_network_contains ip prefix = omega (
  arith,
  block_lower ip (2 ^ (32 - prefix)) (pow_pos (32 - prefix)),
  block_upper ip (2 ^ (32 - prefix)) (pow_pos (32 - prefix)),
)

prefix_printed : ℕ → Bool
prefix_printed p = elim (prefix_of (decimal p)) [ none ↦ false | some q ↦ q == p ]

printed_below : ℕ → Bool
printed_below zero = true
printed_below (suc k) = prefix_printed k && printed_below k

printed_below_sound : (k p : ℕ) → printed_below k ≡ true → p < k → prefix_printed p ≡ true
unfolding printed_below
printed_below_sound zero p h lt = absurd (omega arith)
printed_below_sound (suc k) p h lt = ground (arith, printed_below_sound k p)

printed_table : printed_below 33 ≡ true
unfolding printed_below prefix_printed prefix_of decimal
printed_table = refl

prefix_of-decimal : (p : ℕ) → p ≤ 32 → prefix_of (decimal p) ≡ some p
prefix_of-decimal p h =
    let printed = printed_below_sound 33 p printed_table (omega arith) in
    unfold prefix_printed in ground (arith, printed)

slash-NoSpace : (s : Text) → NoSpace s → NoSpace (b'/' ∷ s)
unfolding is_space
slash-NoSpace s h = (refl, h)

parse_ipv4_cidr_lem :
    (value address : Text) (p : ℕ)
    → cidr_parts (split b'/' (trim value)) ≡ some (address, p)
    → parse_ipv4_cidr value ≡ network_of address p
unfolding parse_ipv4_cidr
parse_ipv4_cidr_lem value address p e = rw (e, parse_ipv4_cidr) refl

cidr_parts_printed :
    (v p : ℕ)
    → p ≤ 32
    → cidr_parts (split b'/' (trim (dotted v ++ b'/' ∷ decimal p))) ≡ some (dotted v, p)
unfolding cidr_parts
cidr_parts_printed v p hp =
    let digits = decimal-IsDigits p in
    rw
      (trim_plain (dotted v ++ b'/' ∷ decimal p)
        (All-append _ _ _ (dotted-NoSpace v) (slash-NoSpace _ (IsDigits-NoSpace _ digits))))
      (rw (split_append b'/' (dotted v) (decimal p) (dotted-Without_slash v)) (
        rw (split_plain b'/' (decimal p) (IsDigits-Without b'/' _ (omega arith) digits))
          (rw (prefix_of-decimal p hp) refl)))

-- An address and a prefix, printed and read again.
pub parse_ipv4_cidr_printed :
    (v p : ℕ)
    → p ≤ 32
    → v ≤ max_ipv4
    → parse_ipv4_cidr (dotted v ++ b'/' ∷ decimal p) ≡ ok (make_network v p)
parse_ipv4_cidr_printed v p hp h =
    parse_ipv4_cidr_lem _ (dotted v) p (cidr_parts_printed v p hp)
    ∙ network_of_lem (dotted v) v p hp (ipv4_to_number-dotted v h)

make_network_base :
    (ip p : ℕ) → make_network (make_network ip p).network_number p ≡ make_network ip p
unfolding make_network
make_network_base ip p = rw (block_self (ip / 2 ^ (32 - p)) (2 ^ (32 - p)) (pow_pos (32 - p))) refl

make_network_reparse :
    (ip p : ℕ)
    → p ≤ 32
    → ip ≤ max_ipv4
    → parse_ipv4_cidr (make_network ip p).cidr ≡ ok (make_network ip p)
unfolding make_network
make_network_reparse ip p hp h =
    let bound = make_network_contains ip p in
    rw ((make_network-IsNetwork ip p hp h).cidr_text) (
      parse_ipv4_cidr_printed (make_network ip p).network_number p hp (omega arith)
      ∙ ap ok (make_network_base ip p))

-- The printed form of a parsed network is read as that network again: `cidr` is canonical.
pub parse_ipv4_cidr-cidr :
    (value : Text) (n : Ipv4Network) → parse_ipv4_cidr value ≡ ok n → parse_ipv4_cidr n.cidr ≡ ok n
parse_ipv4_cidr-cidr value n h =
    let p = parse_ipv4_cidr-Parsed value n h in
    rw p.made (make_network_reparse p.ip p.prefix p.prefix_le p.ip_le)
