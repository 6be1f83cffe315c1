-- ===== src/Ip/Cidr/Blocks.antt =====
-- Aligned blocks of addresses: the arithmetic of powers of two under the CIDR networks of
-- src/lib/ip-cidr.ts.
use native.Mathlib.Decide.{dec_lt}
use native.Mathlib.Nat.{pow-suc, mul_assoc, one-le-pow}
use wireguard_panel.Base.{ℕ, zero, suc, ◌+◌, ◌*◌, ◌/◌, ◌^◌, ◌≤◌, ◌<◌, ◌≡◌, sym, arith}

pub pow-add : (a b : ℕ) → 2 ^ (a + b) ≡ 2 ^ a * 2 ^ b
pow-add a zero = let e : a + 0 ≡ a = omega arith in rw e (omega arith)
pow-add a (suc b) =
    let e : a + suc b ≡ suc (a + b) = omega arith in
    rw e (rw (pow-suc 2 (a + b), pow-suc 2 b, pow-add a b) (mul_assoc _ _ _))

pub pow_pos : (a : ℕ) → 0 < 2 ^ a
pow_pos a = one-le-pow a 2 (omega arith)

-- The whole block of an address stays within a multiple of the block size.
pub block_end : (v s k : ℕ) → 0 < s → v < k * s → v / s * s + s ≤ k * s
block_end v s k hs h = grind arith

pub block_lower : (v s : ℕ) → 0 < s → v / s * s ≤ v
block_lower v s hs = grind arith

pub block_upper : (v s : ℕ) → 0 < s → v < v / s * s + s
block_upper v s hs = grind arith

pub block_self : (k s : ℕ) → 0 < s → k * s / s ≡ k
block_self k s hs = grind arith

mul_mono : (a b s : ℕ) → a ≤ b → a * s ≤ b * s
mul_mono a b s h = grind arith

cancel_lt : (a b s : ℕ) → a * s < b * s → a < b
cancel_lt a b s h = elim (dec_lt a b) [
  | yes p ↦ p
  | no p ↦
      let le : b ≤ a = omega arith in
      let le' : b * s ≤ a * s = mul_mono b a s le in absurd (omega arith)
]

-- Two aligned blocks that meet: the smaller lies in the larger.
pub block_nested :
    (k m s r : ℕ)
    → k * s < m * (r * s) + r * s
    → m * (r * s) < k * s + s
    → (m * (r * s) ≤ k * s) × (k * s + s ≤ m * (r * s) + r * s)
block_nested k m s r h h' =
    let e : m * (r * s) ≡ m * r * s = sym (mul_assoc m r s) in
    let lower : m * r < suc k = cancel_lt (m * r) (suc k) s (omega (arith, e)) in
    let upper : k < m * r + r = cancel_lt k (m * r + r) s (omega (arith, e)) in
    let lower' : m * r * s ≤ k * s = mul_mono (m * r) k s (omega arith) in
    let upper' : suc k * s ≤ (m * r + r) * s = mul_mono (suc k) (m * r + r) s upper in
    omega (arith, e)
