-- ===== src/Ip/Address/Laws.antt =====
-- src/lib/ip-cidr.ts, lines 5 to 16: reading and printing addresses.
use mathlib.Core.Option
use wireguard_panel.Base.{
  ℕ, suc, ◌/◌, ◌%◌, ◌^◌, ◌≤◌, ◌<◌, ◌≡◌, refl, ap, ◌∙◌, List, [], ◌∷◌, inl, inr, Option, none, some,
  Result, ok, ◌==◌, length, All, All-append, arith, Option-cases, Bool-cases,
}
use wireguard_panel.Base.Text.{
  Text, Without, NoSpace, split, split_plain, split_append, join, trim, trim_plain, is_space,
}
use wireguard_panel.Base.Decimal.{
  decimal, parse_digits-decimal, decimal-IsDigits, IsDigits-Without, IsDigits-NoSpace,
}
use wireguard_panel.Ip.Address.{
  IpError, octet, octets, combine, or_invalid, ipv4_to_number, max_ipv4, dotted, number_to_ipv4,
  normalize_client_ip,
}

octet-decimal : (n : ℕ) → n < 256 → octet (decimal n) ≡ some n
unfolding octet
octet-decimal n h = rw (parse_digits-decimal n, octet) (ground arith)

dot-NoSpace : (s : Text) → NoSpace s → NoSpace (b'.' ∷ s)
unfolding is_space
dot-NoSpace s h = (refl, h)

decimal-NoSpace : (n : ℕ) → NoSpace (decimal n)
decimal-NoSpace n = IsDigits-NoSpace _ (decimal-IsDigits n)

pub dotted-NoSpace : (v : ℕ) → NoSpace (dotted v)
unfolding dotted join
dotted-NoSpace v = All-append _ _ _ (decimal-NoSpace _) (
    dot-NoSpace _ (
      All-append _ _ _ (decimal-NoSpace _)
        (dot-NoSpace _ (All-append _ _ _ (decimal-NoSpace _) (dot-NoSpace _ (decimal-NoSpace _))))))

pub trim-dotted : (v : ℕ) → trim (dotted v) ≡ dotted v
trim-dotted v = trim_plain (dotted v) (dotted-NoSpace v)

decimal-Without : (sep n : ℕ) → sep < 48 → Without sep (decimal n)
decimal-Without sep n h = IsDigits-Without sep _ h (decimal-IsDigits n)

slash-dot : (s : Text) → Without b'/' s → Without b'/' (b'.' ∷ s)
slash-dot s h = (omega arith, h)

pub dotted-Without_slash : (v : ℕ) → Without b'/' (dotted v)
unfolding dotted join
dotted-Without_slash v = All-append _ _ _ (decimal-Without _ _ (omega arith)) (
    slash-dot _ (
      All-append _ _ _ (decimal-Without _ _ (omega arith)) (
        slash-dot _ (
          All-append _ _ _ (decimal-Without _ _ (omega arith))
            (slash-dot _ (decimal-Without _ _ (omega arith)))))))

split_four :
    (a b c d : ℕ)
    → split b'.' (join (b'.' ∷ []) (decimal a ∷ decimal b ∷ decimal c ∷ decimal d ∷ []))
      ≡ decimal a ∷ decimal b ∷ decimal c ∷ decimal d ∷ []
unfolding join
split_four a b c d = rw (split_append b'.' (decimal a) _ (decimal-Without _ _ (omega arith))) (
    rw (split_append b'.' (decimal b) _ (decimal-Without _ _ (omega arith))) (
      rw (split_append b'.' (decimal c) _ (decimal-Without _ _ (omega arith)))
        (rw (split_plain b'.' (decimal d) (decimal-Without _ _ (omega arith))) refl)))

octets_four :
    (a b c d : ℕ)
    → a < 256
    → b < 256
    → c < 256
    → d < 256
    → octets (decimal a ∷ decimal b ∷ decimal c ∷ decimal d ∷ []) ≡ some (a ∷ b ∷ c ∷ d ∷ [])
unfolding octets
octets_four a b c d ha hb hc hd =
    ground (arith, octet-decimal a ha, octet-decimal b hb, octet-decimal c hc, octet-decimal d hd)

combine_four :
    (v : ℕ)
    → v ≤ max_ipv4
    → combine 0 (v / 2 ^ 24 % 256 ∷ v / 2 ^ 16 % 256 ∷ v / 2 ^ 8 % 256 ∷ v / 2 ^ 0 % 256 ∷ []) ≡ v
unfolding combine
combine_four v h = omega arith

-- A printed address is read back as the number that it was printed from.
pub ipv4_to_number-dotted : (v : ℕ) → v ≤ max_ipv4 → ipv4_to_number (dotted v) ≡ ok v
unfolding ipv4_to_number
ipv4_to_number-dotted v h = rw (trim-dotted v) (
    unfold dotted in
    rw (split_four (v / 2 ^ 24 % 256) (v / 2 ^ 16 % 256) (v / 2 ^ 8 % 256) (v / 2 ^ 0 % 256)) (
      rw
        (octets_four (v / 2 ^ 24 % 256) (v / 2 ^ 16 % 256) (v / 2 ^ 8 % 256) (v / 2 ^ 0 % 256)
          (omega arith) (omega arith) (omega arith) (omega arith))
        (ap ok (combine_four v h))))

pub number_to_ipv4_ok : (v : ℕ) → v ≤ max_ipv4 → number_to_ipv4 v ≡ ok (dotted v)
unfolding number_to_ipv4
number_to_ipv4_ok v h = ground arith

octet_bound : (part : Text) (n : ℕ) → octet part ≡ some n → n ≤ 255
unfolding octet
octet_bound part n h = ground arith

abbrev Bytes : ℕ → Option (List ℕ) → Type 0
Bytes k none = Unit {0}
Bytes k (some ns) = (length ns ≡ k) × All (λ n. n ≤ 255) ns

octets-Bytes : (parts : List Text) → Bytes (length parts) (octets parts)
unfolding octets
octets-Bytes [] = omega arith
octets-Bytes (part ∷ parts) = elim (Option-cases (octet part)) [
  | inl e ↦ rw (e, octets) tt
  | inr (n, e) ↦ rw (e, octets) (cons n (octet_bound part n e) (octets parts) (octets-Bytes parts))
]
  where
    cons :
        (n : ℕ)
        → n ≤ 255
        → (o : Option (List ℕ)) → Bytes (length parts) o
        → Bytes (suc (length parts)) (Option.map (◌∷◌ n) o)
    cons n h none b = tt
    cons n h (some ns) b = (ap suc b.0, (h, b.1))

combine_bound : (ns : List ℕ) → length ns ≡ 4 → All (λ n. n ≤ 255) ns → combine 0 ns ≤ max_ipv4
unfolding combine
combine_bound [] e h = absurd (omega arith)
combine_bound (a ∷ []) e h = absurd (omega arith)
combine_bound (a ∷ b ∷ []) e h = absurd (omega arith)
combine_bound (a ∷ b ∷ c ∷ []) e h = absurd (omega arith)
combine_bound (a ∷ b ∷ c ∷ d ∷ []) e h = omega arith
combine_bound (a ∷ b ∷ c ∷ d ∷ f ∷ ns) e h = absurd (omega arith)

or_invalid_bound :
    (ip : Text) (k n : ℕ) (o : Option (List ℕ))
    → k ≡ 4
    → Bytes k o
    → or_invalid ip o ≡ ok n
    → n ≤ max_ipv4
or_invalid_bound ip k n none e b h = absurd (ground arith)
or_invalid_bound ip k n (some ns) e b h =
    let bound = combine_bound ns (b.0 ∙ e) b.1 in ground (arith, bound)

-- Whatever text is accepted, its number fits into 32 bits.
pub ipv4_to_number_bound : (ip : Text) (n : ℕ) → ipv4_to_number ip ≡ ok n → n ≤ max_ipv4
unfolding ipv4_to_number
ipv4_to_number_bound ip n h = elim (Bool-cases (length (split b'.' (trim ip)) == 4)) [
  | inl e ↦
      or_invalid_bound ip _ n (octets (split b'.' (trim ip))) (ground arith)
        (octets-Bytes (split b'.' (trim ip))) (ground arith)
  | inr e ↦ absurd (ground arith)
]

-- A printed address is its own normal form.
pub normalize_client_ip-dotted : (v : ℕ) → normalize_client_ip (dotted v) ≡ dotted v
unfolding normalize_client_ip
normalize_client_ip-dotted v =
    rw (trim-dotted v) (rw (split_plain b'/' (dotted v) (dotted-Without_slash v)) refl)

-- Two numbers are printed alike only if they are equal.
pub dotted_injective : (v w : ℕ) → v ≤ max_ipv4 → w ≤ max_ipv4 → dotted v ≡ dotted w → v ≡ w
dotted_injective v w hv hw e =
    ok-injective (cc (ipv4_to_number-dotted v hv, ipv4_to_number-dotted w hw))
  where
    ok-injective : {a b : ℕ} → ◌≡◌ {A = Result IpError ℕ} (ok a) (ok b) → a ≡ b
    ok-injective p = cc
