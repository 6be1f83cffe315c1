-- ===== src/Quota.antt =====
-- src/server/quota.ts, lines 1 to 31: counters and quota states. A `bigint` is a ℤ.
pub mod Laws
use wireguard_panel.Base.{
  ℕ, ◌+◌, ◌*◌, ◌/◌, ◌≡◌, refl, Bool, not, ◌||◌, Option, none, some, ltb, leb, if◌then◌else◌,
}
use wireguard_panel.Base.Int.{ℤ, pos, negsuc, ◌-ℤ◌, ◌*ℤ◌, ltb_ℤ}

pub data QuotaPeriod : Type 0 where
  one_time daily weekly monthly : QuotaPeriod

pub data QuotaUnit : Type 0 where
  mb gb tb : QuotaUnit

-- `1024 ** 2` and so on.
unfoldable pub unit_bytes : QuotaUnit → ℕ
unit_bytes mb = 1024 * 1024
unit_bytes gb = 1024 * 1024 * 1024
unit_bytes tb = 1024 * 1024 * 1024 * 1024

-- `previous === null ? 0n : current >= previous ? current - previous : current`.
unfoldable pub delta_from : Option ℤ → ℤ → ℤ
delta_from none current = pos 0
delta_from (some previous) current = if ltb_ℤ current previous then current else current -ℤ previous

unfoldable pub counter_delta : Option ℤ → ℤ → ℤ
counter_delta previous current =
    if ltb_ℤ current (pos 0) then pos 0 else delta_from previous current

pub data State : Type 0 where
  unlimited reached high warning normal : State

-- The division of `bigint`s, which drops the fraction, by a positive number.
unfoldable pub quotient : ℤ → ℕ → ℤ
quotient (pos a) n = pos (a / n)
quotient (negsuc a) n = pos 0 -ℤ pos ((a + 1) / n)

-- The percentage in hundredths, of which the source takes `Number(…) / 100`.
unfoldable pub classify : ℤ → ℕ → State × Option ℤ
classify used limit =
    let percentage = quotient (used *ℤ pos 10000) limit in
    if not (ltb_ℤ used (pos limit))
    then (reached, some percentage)
    else if not (ltb_ℤ percentage (pos 9000))
    then (high, some percentage)
    else if not (ltb_ℤ percentage (pos 8000))
    then (warning, some percentage)
    else (normal, some percentage)

-- `!limit || limit <= 0n`: absent, zero or negative.
unfoldable pub quota_state : ℤ → Option ℤ → State × Option ℤ
quota_state used none = (unlimited, none)
quota_state used (some (negsuc n)) = (unlimited, none)
quota_state used (some (pos n)) = if leb n 0 then (unlimited, none) else classify used n
