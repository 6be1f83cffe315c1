-- ===== src/Pools/Ranges.antt =====
-- src/server/pool-service.ts, line 163: the ranges that are accepted for a pool.
use wireguard_panel.Base.{
  ℕ, ◌+◌, ◌≢◌, not, guard, ◌-◌, ◌≤◌, ◌<◌, ◌≡◌, refl, sym, ap, ◌∙◌, inl, inr, false, ◌&&◌, Result,
  ok, >>=-eq-ok, ok_inj, subst, arith, Bool-cases, leb, err, ltb,
}
use wireguard_panel.Ip.Address.{ipv4_to_number, max_ipv4, dotted, number_to_ipv4}
use wireguard_panel.Ip.Address.Laws.{
  ipv4_to_number_bound, ipv4_to_number-dotted, normalize_client_ip-dotted,
}
use wireguard_panel.Ip.Cidr.{parse_ipv4_cidr}
use wireguard_panel.Ip.Range.{PoolRange, ipv4_range, check_range, validate_pool_range}
use wireguard_panel.Ip.Range.Validation.{IsRange, ipv4_range-IsRange, validate_pool_range-IsHost}
use wireguard_panel.Pools.Rows.{WireGuardPool, or_pool_error, too_many_addresses}
use wireguard_panel.Pools.Manage.{
  PoolInput, NormalizedPool, max_pool_addresses, normalize_pool_input, pool_of,
}

-- A range of addresses, of at most 65536, that leaves the gateway out.
pub record IsPool (p : WireGuardPool) : Type 0 where
  pub ordered : p.start_ip ≤ p.end_ip
  pub bounded : p.end_ip ≤ max_ipv4
  pub small : p.end_ip < p.start_ip + max_pool_addresses
  pub off_gateway : leb p.start_ip p.gateway_ip && leb p.gateway_ip p.end_ip ≡ false

pub or_pool_error-eq-ok {ℓ} :
    {A : Type ℓ} (r : Result _ A) (a : A) → or_pool_error r ≡ ok a → r ≡ ok a
or_pool_error-eq-ok (ok b) a h = ap ok (ok_inj h)
or_pool_error-eq-ok (err e) a h = cc

validate_pool_range-IsRange :
    (cidr gateway start end : _) (p : PoolRange)
    → validate_pool_range cidr gateway start end ≡ ok p
    → IsRange p.range
unfolding validate_pool_range
validate_pool_range-IsRange cidr gateway start end p h =
    let (n, en, h1) = >>=-eq-ok (parse_ipv4_cidr cidr) _ h in
    let (g, eg, h2) = >>=-eq-ok (ipv4_to_number gateway) _ h1 in
    let (r, er, h3) = >>=-eq-ok (ipv4_range start end) _ h2 in
    let (u, ec, h4) = >>=-eq-ok (check_range n g r) _ h3 in
    let (t, et, h5) = >>=-eq-ok (number_to_ipv4 g) _ h4 in
    subst (λ (q : PoolRange). IsRange q.range) (ok_inj h5) (ipv4_range-IsRange start end r er)

outside : (lo hi g : ℕ) → ((v : ℕ) → lo ≤ v → v ≤ hi → v ≢ g) → leb lo g && leb g hi ≡ false
outside lo hi g h = elim (Bool-cases (leb lo g && leb g hi)) [
  | inl inside ↦ absurd (h g (ground arith) (ground arith) refl)
  | inr off ↦ off
]

-- What is accepted for a pool is a range of a pool, whatever the identifiers are.
pub normalize_pool_input-IsPool :
    (input : PoolInput) (n : NormalizedPool) (id router_id interface_id : ℕ)
    → normalize_pool_input input ≡ ok n
    → IsPool (pool_of id router_id interface_id n)
unfolding normalize_pool_input
normalize_pool_input-IsPool input n id router_id interface_id h =
    let (valid, checked, h1) =
      >>=-eq-ok
        (or_pool_error
          (validate_pool_range input.network_cidr input.gateway_ip input.start_ip input.end_ip))
        _ h in
    let accepted = or_pool_error-eq-ok _ valid checked in
    let range =
      validate_pool_range-IsRange input.network_cidr input.gateway_ip input.start_ip input.end_ip
        valid accepted in
    let (u, small, h2) =
      >>=-eq-ok (guard (not (ltb max_pool_addresses valid.range.total)) too_many_addresses) _ h1 in
    let (gateway, read, h3) = >>=-eq-ok (or_pool_error (ipv4_to_number valid.gateway)) _ h2 in
    let (_, _, (g, given, printed, hosts)) =
      validate_pool_range-IsHost input.network_cidr input.gateway_ip input.start_ip input.end_ip
        valid accepted in
    let back : ipv4_to_number valid.gateway ≡ ok g =
      rw printed (ipv4_to_number-dotted g (ipv4_to_number_bound input.gateway_ip g given)) in
    let same : gateway ≡ g =
      ok_inj (sym (or_pool_error-eq-ok (ipv4_to_number valid.gateway) gateway read) ∙ back) in
    let few : valid.range.total ≤ max_pool_addresses = ground arith in
    subst (λ (m : NormalizedPool). IsPool (pool_of id router_id interface_id m)) (ok_inj h3)
      (record {
        ordered = range.ordered;
        bounded = range.end_le;
        small = omega (arith, range.counted, few);
        off_gateway =
            rw same (
              outside valid.range.start valid.range.end g (λ v lo hi. (hosts v lo hi).not_gateway));
      })

-- A pool's range is read back from its printed bounds.
pub ipv4_range-dotted :
    (p : WireGuardPool)
    → IsPool p
    → ipv4_range (dotted p.start_ip) (dotted p.end_ip)
      ≡ ok (record { start = p.start_ip; end = p.end_ip; total = p.end_ip - p.start_ip + 1 })
unfolding ipv4_range
ipv4_range-dotted p h = rw (normalize_client_ip-dotted p.start_ip) (
    rw (normalize_client_ip-dotted p.end_ip) (
      rw (ipv4_to_number-dotted p.start_ip (omega (arith, h.ordered, h.bounded)))
        (rw (ipv4_to_number-dotted p.end_ip h.bounded) (let o = h.ordered in ground arith))))
