-- ===== src/Ip/Allocation/Laws.antt =====
-- src/server/ip-allocation.ts, lines 5 to 12: the address that is chosen.
use native.Mathlib.Decide.{ℕ_discrete}
use wireguard_panel.Base.{
  ℕ, zero, suc, ◌+◌, ◌-◌, ◌≤◌, ◌<◌, ◌≡◌, ◌≢◌, refl, inl, inr, ◌↔◌, true, false, Option, none, some,
  List, [], ◌∷◌, map, Result, ok, err, >>=-eq-ok, arith, Bool-cases,
}
use wireguard_panel.Base.Text.{Text, text_eq_iff}
use wireguard_panel.Ip.Address.{
  IpError, no_addresses_available, ipv4_to_number, max_ipv4, normalize_client_ip, dotted,
}
use wireguard_panel.Ip.Address.Laws.{
  ipv4_to_number_bound, number_to_ipv4_ok, normalize_client_ip-dotted,
}
use wireguard_panel.Ip.Allocation.{
  has, first_free, take_requested, choose_address, allocate_client_ip,
}

-- All addresses from `lo` up to and without `hi` are in use.
abbrev pub AllUsed : List Text → ℕ → ℕ → Type 0
AllUsed used lo hi = (w : ℕ) → lo ≤ w → w < hi → has used (dotted w) ≡ true

-- The result of a search from `lo` up to and without `hi`: the lowest address that is not in
-- use, or an error when there is none.
pub data Search (used : List Text) (lo hi : ℕ) (r : Result IpError Text) : Type 0 where
  found :
      (v : ℕ)
      → lo ≤ v
      → v < hi
      → has used (dotted v) ≡ false
      → AllUsed used lo v
      → r ≡ ok (dotted v)
      → Search used lo hi r
  full : AllUsed used lo hi → r ≡ err no_addresses_available → Search used lo hi r

widen :
    (used : List Text) (lo hi : ℕ)
    → has used (dotted lo) ≡ true
    → AllUsed used (lo + 1) hi
    → AllUsed used lo hi
widen used lo hi e d w a b = elim (ℕ_discrete w lo) [
  | yes same ↦ rw same e
  | no other ↦ d w (omega arith) b
]

extend :
    (used : List Text) (lo : ℕ) {r : Result IpError Text} {hi : ℕ}
    → has used (dotted lo) ≡ true
    → Search used (lo + 1) hi r
    → Search used lo hi r
extend used lo e (found v a b c d h) = found v (omega arith) b c (widen used lo v e d) h
extend used lo e (full d h) = full (widen used lo _ e d) h

nothing_before : (used : List Text) (lo : ℕ) → AllUsed used lo lo
nothing_before used lo w a b = absurd (omega arith)

-- The end of the search is a variable with an equation, since `lo + suc rounds` is stuck.
pub first_free-Search :
    (rounds lo hi : ℕ) (used : List Text)
    → lo + rounds ≡ hi
    → hi ≤ max_ipv4 + 1
    → Search used lo hi (first_free rounds lo used)
unfolding first_free
first_free-Search zero lo hi used e h =
    let same : hi ≡ lo = omega arith in full (rw same (nothing_before used lo)) refl
first_free-Search (suc rounds) lo hi used e h =
    let printed = number_to_ipv4_ok lo (omega arith) in
    elim (Bool-cases (has used (dotted lo))) [
      | inl taken ↦ rw printed (
          rw taken
            (extend used lo taken (first_free-Search rounds (lo + 1) hi used (omega arith) h)))
      | inr free ↦
          rw printed
            (rw free (found lo (omega arith) (omega arith) free (nothing_before used lo) refl))
    ]

-- The bounds of the pool, as the code reads them.
pub record Bounds (pool_start pool_end : Text) (start end : ℕ) : Type 0 where
  pub start_eq : ipv4_to_number (normalize_client_ip pool_start) ≡ ok start
  pub end_eq : ipv4_to_number (normalize_client_ip pool_end) ≡ ok end
  pub ordered : start ≤ end

allocate_lem :
    (pool_start pool_end : Text) (used : List Text) (requested : Option Text) (start end : ℕ)
    → Bounds pool_start pool_end start end
    → allocate_client_ip pool_start pool_end used requested
      ≡ choose_address start end (map normalize_client_ip used) requested
unfolding allocate_client_ip
allocate_lem pool_start pool_end used requested start end b =
    rw b.start_eq (rw b.end_eq (ground arith))

-- With no request, and with bounds of the pool that are read and in order, the lowest address of
-- the pool that is not in use is chosen, printed in its canonical form, or the call fails, and
-- then every address of the pool is in use.
pub allocate_client_ip-Search :
    (pool_start pool_end : Text) (used : List Text) (start end : ℕ)
    → Bounds pool_start pool_end start end
    → Search
        (map normalize_client_ip used)
        start
        (end + 1)
        (allocate_client_ip pool_start pool_end used none)
allocate_client_ip-Search pool_start pool_end used start end b =
    let bound = ipv4_to_number_bound (normalize_client_ip pool_end) end b.end_eq in
    let le = b.ordered in
    rw (allocate_lem pool_start pool_end used none start end b) (
      unfold choose_address in
      (first_free-Search (end + 1 - start) start (end + 1) (map normalize_client_ip used)
        (omega arith) (omega arith)))

-- With bounds of the pool that are read and in order, a request that is not empty is granted
-- exactly when its normal form reads as a number between the bounds and no used text equals it;
-- and the normal form itself, not the canonical one, is what is granted.
pub allocate_requested_iff :
    (pool_start pool_end : Text) (used : List Text) (c : ℕ) (s ip : Text) (start end : ℕ)
    → Bounds pool_start pool_end start end
    → (allocate_client_ip pool_start pool_end used (some (c ∷ s)) ≡ ok ip) ↔ (
        (ip ≡ normalize_client_ip (c ∷ s))
        × ((v : ℕ) × (ipv4_to_number ip ≡ ok v) × (start ≤ v) × (v ≤ end))
        × (has (map normalize_client_ip used) ip ≡ false))
unfolding choose_address take_requested
allocate_requested_iff pool_start pool_end used c s ip start end b =
    rw (allocate_lem pool_start pool_end used (some (c ∷ s)) start end b) (
      λ h.
          let (v, e, h1) = >>=-eq-ok (ipv4_to_number (normalize_client_ip (c ∷ s))) _ h in
          let same : ip ≡ normalize_client_ip (c ∷ s) = ground arith in
          (same, (v, rw same e, ground arith, ground arith), ground arith),
      λ (same, (v, e, lo, hi), free). rw (← same) (rw e (ground arith)),
    )

-- With bounds of the pool that are read and in order, a request for an address between them is
-- granted although exactly this address is in use, where the text of the request is not the
-- canonical one, as with leading zeros: the range is checked on numbers, the use on texts.
pub allocate_requested_alias :
    (pool_start pool_end : Text) (c : ℕ) (s : Text) (v start end : ℕ)
    → Bounds pool_start pool_end start end
    → ipv4_to_number (normalize_client_ip (c ∷ s)) ≡ ok v
    → start ≤ v
    → v ≤ end
    → normalize_client_ip (c ∷ s) ≢ dotted v
    → allocate_client_ip pool_start pool_end (dotted v ∷ []) (some (c ∷ s))
      ≡ ok (normalize_client_ip (c ∷ s))
allocate_requested_alias pool_start pool_end c s v start end b e lo hi ne =
    (allocate_requested_iff pool_start pool_end (dotted v ∷ []) c s _ start end b).1 (
      refl,
      (v, e, lo, hi),
      rw (normalize_client_ip-dotted v)
          (ground (arith, text_eq_iff (dotted v) (normalize_client_ip (c ∷ s)))),
    )
