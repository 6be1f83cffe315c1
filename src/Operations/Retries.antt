-- ===== src/Operations/Retries.antt =====
-- src/server/operations.ts, lines 23 to 29: the delays between the attempts of an operation.
use wireguard_panel.Base.{
  ℕ, zero, suc, ◌+◌, ◌^◌, min, ◌≤◌, ◌≡◌, refl, true, some, arith, inl, inr, Bool-cases, ltb,
}
use wireguard_panel.Operations.{Operation, OperationStatus, is_retried, retry_delay, fail_operation}

power_pos : (k : ℕ) → 1 ≤ 2 ^ k
power_pos zero = omega arith
power_pos (suc k) = omega (arith, power_pos k)

power_step : (k : ℕ) → 2 ^ min k 11 ≤ 2 ^ min (k + 1) 11
power_step k = elim (Bool-cases (ltb k 11)) [
  | inl below ↦
      let here : min k 11 ≡ k = grind (arith, below) in
      let later : min (k + 1) 11 ≡ suc k = grind (arith, below) in rw here (rw later (omega arith))
  | inr above ↦
      let here : min k 11 ≡ 11 = grind (arith, above) in
      let later : min (k + 1) 11 ≡ 11 = grind (arith, above) in rw here (rw later (omega arith))
]

pub retry_delay_bounds : (k : ℕ) → (15 ≤ retry_delay k) × (retry_delay k ≤ 3600)
unfolding retry_delay
retry_delay_bounds k = (grind (arith, power_pos (min k 11)), grind arith)

pub retry_delay_rises : (k : ℕ) → retry_delay k ≤ retry_delay (k + 1)
unfolding retry_delay
retry_delay_rises k = grind (arith, power_step k)

-- Two failed attempts in a row, both with a status that is tried again: each one schedules the next
-- attempt, and waits as long as the one before it at least, 15 seconds at the least, and an hour at
-- the most.
pub fail_operation_backoff :
    (now later : ℕ) (status : OperationStatus) (o : Operation)
    → is_retried status ≡ true
    → let first = fail_operation now status o in
      (d e : ℕ) × (first.next_retry_at ≡ some (now + d))
      × ((fail_operation later status first).next_retry_at ≡ some (later + e))
      × (15 ≤ d)
      × (d ≤ e)
      × (e ≤ 3600)
unfolding fail_operation
fail_operation_backoff now later status o h = rw h (
    let (low, _) = retry_delay_bounds o.retry_count in
    let (_, high) = retry_delay_bounds (o.retry_count + 1) in
    (
      retry_delay o.retry_count,
      retry_delay (o.retry_count + 1),
      refl,
      refl,
      low,
      retry_delay_rises o.retry_count,
      high,
    ))
