-- ===== src/Pools/Chosen.antt =====
-- src/server/pool-service.ts, lines 138 to 153 and 177: the address that is chosen for a peer.
use native.Mathlib.Decide.{ℕ_discrete}
use wireguard_panel.Base.{
  ℕ, zero, suc, ◌+◌, ◌-◌, ◌≤◌, ◌<◌, ◌≡◌, ◌≢◌, refl, sym, ap, ◌∙◌, inl, inr, not, ◌||◌, List, Option,
  none, some, Result, ok, err, >>=-eq-ok, ok_inj, guard, arith, Bool-cases, ltb,
}
use wireguard_panel.Base.Text.{Text, text_eq}
use wireguard_panel.Base.Decimal.{nonempty}
use wireguard_panel.Ip.Address.{ipv4_to_number, max_ipv4, dotted, normalize_client_ip}
use wireguard_panel.Ip.Address.Laws.{number_to_ipv4_ok, ipv4_to_number-dotted}
use wireguard_panel.Ip.Range.{IpRange, ipv4_range}
use wireguard_panel.Routeros.Types.{RemoteWireGuardPeer}
use wireguard_panel.Pools.Rows.{
  WireGuardPool, Tables, PoolError, outside_pool, is_router_address, no_addresses, or_pool_error,
}
use wireguard_panel.Pools.Choose.{
  explain, validate_address_in_pool, or_conflict, first_unexplained, choose_automatic,
  choose_requested, choose_pool_address,
}
use wireguard_panel.Pools.Ranges.{IsPool, ipv4_range-dotted, or_pool_error-eq-ok}

-- The text stands for an address of the pool that is not the gateway's.
pub record InPool (pool : WireGuardPool) (ip : Text) : Type 0 where
  pub number : ℕ
  pub reads : ipv4_to_number ip ≡ ok number
  pub from_start : pool.start_ip ≤ number
  pub to_end : number ≤ pool.end_ip
  pub not_gateway : number ≢ pool.gateway_ip

in_range-InPool :
    (pool : WireGuardPool) (ip : Text) (v : ℕ)
    → IsPool pool
    → ipv4_to_number ip ≡ ok v
    → pool.start_ip ≤ v
    → v ≤ pool.end_ip
    → InPool pool ip
in_range-InPool pool ip v h reads lo hi = record {
  number = v;
  reads = reads;
  from_start = lo;
  to_end = hi;
  not_gateway = λ same. let off = h.off_gateway in ground arith;
}

-- All addresses from `lo` up to and without `hi` are explained by a conflict.
abbrev pub AllTaken : (Text → Option PoolError) → ℕ → ℕ → Type 0
AllTaken explained lo hi = (w : ℕ) → lo ≤ w → w < hi → explained (dotted w) ≢ none

-- What a choice without a request may give: the lowest address with no conflict, or the error that
-- there is none.
pub data Lowest (explained : Text → Option PoolError) (exhausted : PoolError) (lo hi : ℕ)
    (r : Result PoolError Text) : Type 0 where
  found :
      (v : ℕ)
      → lo ≤ v
      → v < hi
      → explained (dotted v) ≡ none
      → AllTaken explained lo v
      → r ≡ ok (dotted v)
      → Lowest explained exhausted lo hi r
  full : AllTaken explained lo hi → r ≡ err exhausted → Lowest explained exhausted lo hi r

module _ (explained : Text → Option PoolError) (exhausted : PoolError) where
  widen :
      (lo hi : ℕ)
      → explained (dotted lo) ≢ none
      → AllTaken explained (lo + 1) hi
      → AllTaken explained lo hi
  widen lo hi e d w a b = elim (ℕ_discrete w lo) [
    | yes same ↦ rw same e
    | no other ↦ d w (omega arith) b
  ]

  extend :
      (lo : ℕ) {r : Result PoolError Text} {hi : ℕ}
      → explained (dotted lo) ≢ none
      → Lowest explained exhausted (lo + 1) hi r
      → Lowest explained exhausted lo hi r
  extend lo e (found v a b c d h) = found v (omega arith) b c (widen lo v e d) h
  extend lo e (full d h) = full (widen lo _ e d) h

  try_one :
      (lo hi : ℕ) (rest : Result PoolError Text) (o : Option PoolError)
      → explained (dotted lo) ≡ o
      → lo < hi
      → Lowest explained exhausted (lo + 1) hi rest
      → Lowest explained exhausted lo hi (elim o [ none ↦ ok (dotted lo) | some e ↦ rest ])
  try_one lo hi rest none free lt l =
      found lo (omega arith) lt free (λ w a b. absurd (omega arith)) refl
  try_one lo hi rest (some x) taken lt l = extend lo (λ n. cc) l

  first_unexplained-Lowest :
      (rounds lo hi : ℕ)
      → lo + rounds ≡ hi
      → hi ≤ max_ipv4 + 1
      → Lowest explained exhausted lo hi (first_unexplained rounds lo explained exhausted)
  unfolding first_unexplained
  first_unexplained-Lowest zero lo hi e h = full (λ w a b. absurd (omega arith)) refl
  first_unexplained-Lowest (suc rounds) lo hi e h = rw (number_to_ipv4_ok lo (omega arith)) (
      try_one lo hi _ (explained (dotted lo)) refl (omega arith)
        (first_unexplained-Lowest rounds (lo + 1) hi (omega arith) h))

-- The choice without a request, for a pool whose range is in order: the lowest address of the
-- range with no conflict is given, or the pool is exhausted, and then each of its addresses has one.
pub choose_pool_address-Lowest :
    (db : Tables) (pool : WireGuardPool) (remote_peers : List RemoteWireGuardPeer)
    (exclude : Option ℕ)
    → IsPool pool
    → Lowest
        (explain db pool.router_id remote_peers exclude)
        (no_addresses pool.settings.name)
        pool.start_ip
        (pool.end_ip + 1)
        (choose_pool_address db pool remote_peers none exclude)
unfolding choose_pool_address choose_automatic
choose_pool_address-Lowest db pool remote_peers exclude h = rw (ipv4_range-dotted pool h) (
    first_unexplained-Lowest (explain db pool.router_id remote_peers exclude)
      (no_addresses pool.settings.name) (pool.end_ip + 1 - pool.start_ip) pool.start_ip
      (pool.end_ip + 1) (omega (arith, h.ordered)) (omega (arith, h.bounded)))

pub validate_address_in_pool-InPool :
    (pool : WireGuardPool) (value ip : Text)
    → IsPool pool
    → validate_address_in_pool pool value ≡ ok ip
    → InPool pool ip
unfolding validate_address_in_pool
validate_address_in_pool-InPool pool value ip h e =
    let (v, read, e1) =
      >>=-eq-ok (or_pool_error (ipv4_to_number (normalize_client_ip value))) _ e in
    let (range, ranged, e2) =
      >>=-eq-ok (or_pool_error (ipv4_range (dotted pool.start_ip) (dotted pool.end_ip))) _ e1 in
    let bounds = ok_inj (
      sym
        (or_pool_error-eq-ok (ipv4_range (dotted pool.start_ip) (dotted pool.end_ip)) range ranged)
      ∙ ipv4_range-dotted pool h) in
    let (_, inside, e3) =
      >>=-eq-ok
        (guard (not (ltb v range.start || ltb range.end v))
          (outside_pool (normalize_client_ip value)))
        _ e2 in
    let (_, off, e4) =
      >>=-eq-ok
        (guard
          (not (text_eq (normalize_client_ip value) (normalize_client_ip (dotted pool.gateway_ip))))
          (is_router_address (normalize_client_ip value)))
        _ e3 in
    let same : normalize_client_ip value ≡ ip = ok_inj e4 in
    in_range-InPool pool ip v h
      (ap ipv4_to_number (sym same)
        ∙ or_pool_error-eq-ok (ipv4_to_number (normalize_client_ip value)) v read)
      (ground (arith, ap (λ (r : IpRange). r.start) bounds))
      (ground (arith, ap (λ (r : IpRange). r.end) bounds))

module _ (db : Tables) (pool : WireGuardPool) (remote_peers : List RemoteWireGuardPeer)
    (exclude : Option ℕ) (valid : IsPool pool) where
  -- A chosen text stands for an address of the pool, and nothing conflicts with the text.
  abbrev pub Granted : Text → Type 0
  Granted ip = InPool pool ip × (explain db pool.router_id remote_peers exclude ip ≡ none)

  automatic_Granted :
      (r : Result PoolError Text) (ip : Text)
      → Lowest
          (explain db pool.router_id remote_peers exclude)
          (no_addresses pool.settings.name)
          pool.start_ip
          (pool.end_ip + 1)
          r
      → r ≡ ok ip
      → Granted ip
  automatic_Granted r ip (found v lo hi free below e) g =
      let same : dotted v ≡ ip = ok_inj (sym e ∙ g) in
      rw (← same) (
        in_range-InPool pool (dotted v) v valid
            (ipv4_to_number-dotted v (omega (arith, valid.bounded))) lo (omega arith),
        free,
      )
  automatic_Granted r ip (full all e) g = cc

  conflict_Granted :
      (ip given : Text) (o : Option PoolError)
      → explain db pool.router_id remote_peers exclude ip ≡ o
      → or_conflict ip o ≡ ok given
      → InPool pool ip
      → Granted given
  conflict_Granted ip given none free e inside = rw (← ok_inj e) (inside, free)
  conflict_Granted ip given (some x) taken e inside = cc

  requested_Granted :
      (requested ip : Text)
      → choose_requested pool (explain db pool.router_id remote_peers exclude) requested ≡ ok ip
      → Granted ip
  unfolding choose_requested
  requested_Granted requested ip e =
      let (given, checked, e') = >>=-eq-ok (validate_address_in_pool pool requested) _ e in
      conflict_Granted given ip _ refl e'
        (validate_address_in_pool-InPool pool requested given valid checked)

pub choose_pool_address-Granted :
    (db : Tables) (pool : WireGuardPool) (remote_peers : List RemoteWireGuardPeer)
    (requested : Option Text) (exclude : Option ℕ) (ip : Text) (h : IsPool pool)
    → choose_pool_address db pool remote_peers requested exclude ≡ ok ip
    → Granted db pool remote_peers exclude h ip
unfolding choose_pool_address
choose_pool_address-Granted db pool remote_peers none exclude ip h e =
    automatic_Granted db pool remote_peers exclude h _ ip
      (choose_pool_address-Lowest db pool remote_peers exclude h) e
choose_pool_address-Granted db pool remote_peers (some requested) exclude ip h e =
    elim (Bool-cases (nonempty requested)) [
      | inl asked ↦ requested_Granted db pool remote_peers exclude h requested ip (rw asked at e)
      | inr empty ↦
          automatic_Granted db pool remote_peers exclude h _ ip
            (choose_pool_address-Lowest db pool remote_peers exclude h) (rw empty at e)
    ]
