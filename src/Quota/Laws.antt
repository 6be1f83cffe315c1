-- ===== src/Quota/Laws.antt =====
-- src/server/quota.ts, lines 18 to 31: counter differences and quota states.
use mathlib.Core.Path.{ap₂}
use native.Mathlib.Decide.{dec_lt}
use wireguard_panel.Base.{
  suc, ℕ, ◌+◌, ◌*◌, ◌/◌, ◌≤◌, ◌<◌, ◌≡◌, ◌∙◌, true, List, [], ◌∷◌, Option, none, some, arith,
}
use wireguard_panel.Base.Int.{ℤ, pos, ◌+ℤ◌, ◌-ℤ◌, ◌*ℤ◌, ◌≤ℤ◌, ltb_ℤ, int_laws}
use wireguard_panel.Quota.{
  State, unlimited, reached, high, warning, normal, delta_from, counter_delta, quotient, classify,
  quota_state,
}

-- The traffic that is accounted for one poll is never negative, whatever the router reported before
-- and reports now.
pub counter_delta_nonneg :
    (previous : Option ℤ) (current : ℤ) → pos 0 ≤ℤ counter_delta previous current
unfolding counter_delta delta_from ◌-ℤ◌
counter_delta_nonneg none current = ground arith
counter_delta_nonneg (some previous) current = ground arith

-- The counters that a router reports one after the other, accounted from the first one on.
unfoldable pub account : ℤ → List ℤ → ℤ
account previous [] = pos 0
account previous (current ∷ later) = counter_delta (some previous) current +ℤ account current later

abbrev pub Rises : ℤ → List ℤ → Type 0
Rises previous [] = Unit {0}
Rises previous (current ∷ later) = (pos 0 ≤ℤ current) × (previous ≤ℤ current) × Rises current later

abbrev pub last : ℤ → List ℤ → ℤ
last previous [] = previous
last previous (current ∷ later) = last current later

counter_delta_rise :
    (previous current : ℤ)
    → pos 0 ≤ℤ current
    → previous ≤ℤ current
    → counter_delta (some previous) current ≡ current -ℤ previous
unfolding counter_delta delta_from
counter_delta_rise previous current h k = ground arith

-- While the router's counter is not negative and does not go back, the traffic accounted over any number of polls is
-- the counter's total growth: nothing is lost and nothing is counted twice.
pub account-Rises :
    (first : ℤ) (later : List ℤ)
    → Rises first later
    → account first later ≡ last first later -ℤ first
unfolding account
account-Rises first [] h = omega int_laws
account-Rises first (current ∷ later) (h, k, r) =
    ap₂ ◌+ℤ◌ (counter_delta_rise first current h k) (account-Rises current later r)
    ∙ telescope first current (last current later)
  where
    telescope : (a b c : ℤ) → (b -ℤ a) +ℤ (c -ℤ b) ≡ c -ℤ a
    telescope a b c = omega int_laws

restart_delta :
    (first current : ℤ)
    → pos 0 ≤ℤ current
    → ltb_ℤ current first ≡ true
    → counter_delta (some first) current ≡ current
unfolding counter_delta delta_from
restart_delta first current h k = ground arith

-- After a restart of the router, where its counter is not negative and below the old value, and
-- then does not go back, exactly the counter's last value is accounted.
pub account_restart :
    (first current : ℤ) (later : List ℤ)
    → pos 0 ≤ℤ current
    → ltb_ℤ current first ≡ true
    → Rises current later
    → account first (current ∷ later) ≡ last current later
unfolding account
account_restart first current later h k r =
    ap₂ ◌+ℤ◌ (restart_delta first current h k) (account-Rises current later r)
    ∙ back current (last current later)
  where
    back : (a b : ℤ) → a +ℤ (b -ℤ a) ≡ b
    back a b = omega int_laws

-- The state of a usage that is not negative against a positive limit, with no rounding: the
-- tests on the truncated percentage are exact.
abbrev pub Grade : ℕ → ℕ → State → Type 0
Grade used limit unlimited = ⊥
Grade used limit reached = limit ≤ used
Grade used limit high = (used < limit) × (9 * limit ≤ 10 * used)
Grade used limit warning = (10 * used < 9 * limit) × (8 * limit ≤ 10 * used)
Grade used limit normal = 10 * used < 8 * limit

mul_mono : (a b n : ℕ) → a ≤ b → a * n ≤ b * n
mul_mono a b n h = grind arith

quotient_bounds : (a n : ℕ) → 0 < n → (a / n * n ≤ a) × (a < a / n * n + n)
quotient_bounds a n h = grind arith

percentage_below : (u n k : ℕ) → 0 < n → u * 10000 / n < k → u * 10000 < k * n
percentage_below u n k h p =
    omega (arith, quotient_bounds (u * 10000) n h, mul_mono (suc (u * 10000 / n)) k n p)

percentage_from : (u n k : ℕ) → 0 < n → k ≤ u * 10000 / n → k * n ≤ u * 10000
percentage_from u n k h p =
    omega (arith, quotient_bounds (u * 10000) n h, mul_mono k (u * 10000 / n) n p)

grade : (used limit : ℕ) → 0 < limit → Grade used limit (classify (pos used) limit).0
unfolding classify quotient ◌*ℤ◌
grade used limit h =
    let q = used * 10000 / limit in
    elim (dec_lt used limit) [
      | no full ↦ ground arith
      | yes room ↦ elim (dec_lt (used * 10000 / limit) 9000) [
        | no p ↦ let e = percentage_from used limit 9000 h (omega arith) in ground arith
        | yes p ↦
            let e = percentage_below used limit 9000 h p in
            elim (dec_lt (used * 10000 / limit) 8000) [
              | no r ↦ let e' = percentage_from used limit 8000 h (omega arith) in ground arith
              | yes r ↦ let e' = percentage_below used limit 8000 h r in ground arith
            ]
      ]
    ]

-- The state of a usage that is not negative, against a positive limit: reached from the limit on,
-- high from nine tenths of it, a warning from eight tenths, normal below, with no rounding error.
pub quota_state-Grade :
    (used limit : ℕ) → 0 < limit → Grade used limit (quota_state (pos used) (some (pos limit))).0
unfolding quota_state
quota_state-Grade used limit h = let g = grade used limit h in ground arith
