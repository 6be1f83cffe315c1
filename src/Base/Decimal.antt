-- ===== src/Base/Decimal.antt =====
-- Decimal numerals: `/^\d+$/`, `Number(digits)` and `String(n)`.
use wireguard_panel.Base.{
  ℕ, zero, suc, ◌+◌, ◌-◌, ◌*◌, ◌/◌, ◌%◌, ◌≤◌, ◌<◌, ◌≡◌, refl, Bool, true, false, ◌&&◌, [], ◌∷◌,
  ◌++◌, Option, some, none, inl, inr, arith, ltb, leb, if◌then◌else◌, Bool-cases, all, All,
  All-append,
}
use wireguard_panel.Base.Text.{Text, Without, NoSpace, is_space}

abbrev pub is_digit : ℕ → Bool
is_digit c = leb 48 c && leb c 57

-- `Number(s)` on digits.
unfoldable pub value_from : ℕ → Text → ℕ
value_from acc [] = acc
value_from acc (c ∷ s) = value_from (acc * 10 + (c - 48)) s

abbrev pub nonempty : Text → Bool
nonempty [] = false
nonempty (c ∷ s) = true

-- `/^\d+$/.test(s)`, and then `Number(s)`.
unfoldable pub parse_digits : Text → Option ℕ
unfolding value_from
parse_digits s = if nonempty s && all is_digit s then some (value_from 0 s) else none

decimal_fuel : ℕ → ℕ → Text
decimal_fuel zero n = []
decimal_fuel (suc f) n =
    let rest = decimal_fuel f (n / 10) in
    if ltb n 10 then (48 + n) ∷ [] else rest ++ (48 + n % 10) ∷ []

-- `String(n)`. A number has at most as many digits as its successor says, so the fuel suffices.
unfoldable pub decimal : ℕ → Text
unfolding decimal_fuel
decimal n = decimal_fuel (suc n) n

value_from-append :
    (acc : ℕ) (s : Text) (c : ℕ) → value_from acc (s ++ c ∷ []) ≡ value_from acc s * 10 + (c - 48)
unfolding value_from
value_from-append acc [] c = refl
value_from-append acc (d ∷ s) c = value_from-append (acc * 10 + (d - 48)) s c

nonempty-append : (s : Text) (c : ℕ) → nonempty (s ++ c ∷ []) ≡ true
nonempty-append [] c = refl
nonempty-append (d ∷ s) c = refl

abbrev pub IsDigits : Text → Type 0
IsDigits = All (λ c. (48 ≤ c) × (c ≤ 57))

decimal_fuel-value : (f n : ℕ) → n < f → value_from 0 (decimal_fuel f n) ≡ n
unfolding decimal_fuel
decimal_fuel-value zero n h = elim h [ ]
decimal_fuel-value (suc f) n h = elim (Bool-cases (ltb n 10)) [
  | inl e ↦ rw (e, decimal_fuel) (unfold value_from in (omega arith))
  | inr e ↦
      rw (e, decimal_fuel)
        (rw (value_from-append 0 (decimal_fuel f (n / 10)) (48 + n % 10))
          (rw (decimal_fuel-value f (n / 10) (ground arith)) (omega arith)))
]

decimal_fuel-IsDigits : (f n : ℕ) → IsDigits (decimal_fuel f n)
unfolding decimal_fuel
decimal_fuel-IsDigits zero n = tt
decimal_fuel-IsDigits (suc f) n = elim (Bool-cases (ltb n 10)) [
  | inl e ↦ rw (e, decimal_fuel) (ground arith)
  | inr e ↦
      rw (e, decimal_fuel)
        (All-append _ (decimal_fuel f (n / 10)) _ (decimal_fuel-IsDigits f (n / 10)) (omega arith))
]

decimal_fuel-nonempty : (f n : ℕ) → nonempty (decimal_fuel (suc f) n) ≡ true
unfolding decimal_fuel
decimal_fuel-nonempty f n = elim (Bool-cases (ltb n 10)) [
  | inl e ↦ rw (e, decimal_fuel) refl
  | inr e ↦ rw (e, decimal_fuel) (nonempty-append (decimal_fuel f (n / 10)) (48 + n % 10))
]

all-is_digit : (s : Text) → IsDigits s → all is_digit s ≡ true
all-is_digit [] h = refl
all-is_digit (c ∷ s) h = ground (arith, all-is_digit s h.1)

pub decimal-IsDigits : (n : ℕ) → IsDigits (decimal n)
unfolding decimal
decimal-IsDigits n = decimal_fuel-IsDigits (suc n) n

-- Reading back a printed number.
pub parse_digits-decimal : (n : ℕ) → parse_digits (decimal n) ≡ some n
unfolding parse_digits decimal
parse_digits-decimal n =
    rw (decimal_fuel-nonempty n n, all-is_digit _ (decimal_fuel-IsDigits (suc n) n))
      (rw (decimal_fuel-value (suc n) n (omega arith)) refl)

pub nonempty-decimal : (n : ℕ) → nonempty (decimal n) ≡ true
unfolding decimal
nonempty-decimal n = decimal_fuel-nonempty n n

-- Digits are no separators and no white space.
pub IsDigits-Without : (sep : ℕ) (s : Text) → sep < 48 → IsDigits s → Without sep s
IsDigits-Without sep [] h d = tt
IsDigits-Without sep (c ∷ s) h d = (ground arith, IsDigits-Without sep s h d.1)

digit-no_space : (c : ℕ) → 48 ≤ c → c ≤ 57 → is_space c ≡ false
unfolding is_space
digit-no_space c h k = ground arith

pub IsDigits-NoSpace : (s : Text) → IsDigits s → NoSpace s
IsDigits-NoSpace [] d = tt
IsDigits-NoSpace (c ∷ s) d = (digit-no_space c d.0.0 d.0.1, IsDigits-NoSpace s d.1)
