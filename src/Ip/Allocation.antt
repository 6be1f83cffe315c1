-- ===== src/Ip/Allocation.antt =====
-- src/server/ip-allocation.ts: the choice of a client address and the counts of a pool.
pub mod Laws
use mathlib.Core.List.{reverse}
use wireguard_panel.Base.{
  ℕ, zero, suc, ◌+◌, ◌-◌, Bool, not, ◌||◌, List, [], ◌∷◌, map, Option, none, some, Result, ok, err,
  ◌>>=◌, ◌>>◌, guard, ltb, if◌then◌else◌, any, length,
}
use wireguard_panel.Base.Text.{Text, text_eq}
use wireguard_panel.Base.Decimal.{nonempty}
use wireguard_panel.Ip.Address.{
  IpError, client_pool_start_after_end, outside_client_pool, already_assigned,
  no_addresses_available, ipv4_to_number, number_to_ipv4, normalize_client_ip,
}

-- `used.has(ip)`.
abbrev pub has : List Text → Text → Bool
has used ip = any (λ u. text_eq u ip) used

-- `for (let candidate = start; candidate <= end; candidate += 1)`, with the count of rounds left.
unfoldable pub first_free : ℕ → ℕ → List Text → Result IpError Text
first_free zero candidate used = err no_addresses_available
first_free (suc rounds) candidate used =
    let rest = first_free rounds (candidate + 1) used in
    number_to_ipv4 candidate >>= λ value. if has used value then rest else ok value

unfoldable pub take_requested : ℕ → ℕ → List Text → Text → Result IpError Text
take_requested start end used requested = do
  let normalized = normalize_client_ip requested
  candidate ← ipv4_to_number normalized
  guard (not (ltb candidate start || ltb end candidate)) (outside_client_pool normalized)
  guard (not (has used normalized)) (already_assigned normalized)
  ok normalized

-- An absent request and an empty one are both falsy.
unfoldable pub choose_address : ℕ → ℕ → List Text → Option Text → Result IpError Text
choose_address start end used none = first_free (end + 1 - start) start used
choose_address start end used (some requested) =
    if nonempty requested
    then take_requested start end used requested
    else first_free (end + 1 - start) start used

unfoldable pub allocate_client_ip : Text → Text → List Text → Option Text → Result IpError Text
allocate_client_ip pool_start pool_end used_addresses requested = do
  start ← ipv4_to_number (normalize_client_ip pool_start)
  end ← ipv4_to_number (normalize_client_ip pool_end)
  guard (not (ltb end start)) client_pool_start_after_end
  choose_address start end (map normalize_client_ip used_addresses) requested

pub record PoolStats : Type 0 where
  pub total : ℕ
  pub used : ℕ
  pub available : ℕ

-- The members of `new Set(items)`, of which only the number is used.
unfoldable pub distinct : List Text → List Text
distinct [] = []
distinct (item ∷ items) = let rest = distinct items in if has rest item then rest else item ∷ rest

abbrev no_stats : PoolStats
no_stats = record { total = 0; used = 0; available = 0 }

unfoldable pub count_pool : Text → Text → List Text → Result IpError PoolStats
count_pool pool_start pool_end used_addresses = do
  start ← ipv4_to_number pool_start
  end ← ipv4_to_number pool_end
  let total = end + 1 - start
  let used = length (distinct (map normalize_client_ip used_addresses))
  ok (record { total = total; used = used; available = total - used })

-- `!poolStart || !poolEnd`: absent or empty.
abbrev present : Option Text → Text
present none = []
present (some s) = s

unfoldable pub pool_stats : Option Text → Option Text → List Text → Result IpError PoolStats
unfolding count_pool
pool_stats pool_start pool_end used_addresses =
    if not (nonempty (present pool_start)) || not (nonempty (present pool_end))
    then ok no_stats
    else count_pool (present pool_start) (present pool_end) used_addresses
