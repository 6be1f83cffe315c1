-- ===== src/Routeros/Protocol/Lengths.antt =====
-- src/server/routeros/native-client.ts, lines 173 to 201: the length prefix of a word.
use Prim.Native.Nat.{bit_and, bit_or}
use native.Mathlib.Decide.{dec_lt}
use wireguard_panel.Base.{
  ==_iff, ℕ, zero, suc, ◌+◌, ◌*◌, ◌/◌, ◌%◌, ◌^◌, ◌≤◌, ◌<◌, ◌≡◌, refl, sym, ap, Bool, true, false,
  ◌&&◌, not, List, [], ◌∷◌, ◌++◌, some, ok, ltb, leb, ◌==◌, arith, length,
}
use wireguard_panel.Routeros.Protocol.{
  encode_length, decode_length, two_bytes, three_bytes, four_bytes, five_bytes, byte_at,
}

holds_below : (ℕ → Bool) → ℕ → Bool
holds_below test zero = true
holds_below test (suc k) = holds_below test k && test k

holds_below_sound : (test : ℕ → Bool) (k v : ℕ) → holds_below test k ≡ true → v < k → test v ≡ true
unfolding holds_below
holds_below_sound test zero v all lt = absurd (omega arith)
holds_below_sound test (suc k) v all lt = ground (arith, holds_below_sound test k v)

agree : Bool → Bool → Bool
agree true b = b
agree false b = not b

agree_sound : (a b : Bool) → agree a b ≡ true → a ≡ b
unfolding agree
agree_sound true b h = sym h
agree_sound false true h = cc
agree_sound false false h = refl

same_test :
    (g h : ℕ → Bool)
    → holds_below (λ f. agree (g f) (h f)) 256 ≡ true
    → (f : ℕ) → f < 256
    → g f ≡ h f
same_test g h t f lt = agree_sound _ _ (holds_below_sound (λ f. agree (g f) (h f)) 256 f t lt)

same_value :
    (g h : ℕ → ℕ) → holds_below (λ f. g f == h f) 256 ≡ true → (f : ℕ) → f < 256 → g f ≡ h f
same_value g h t f lt = (==_iff _ _).0 (holds_below_sound (λ f. g f == h f) 256 f t lt)

-- The tests and masks of `decodeLength` on a byte, as bounds and remainders.
top_bit : (f : ℕ) → f < 256 → (bit_and f 0x80 == 0) ≡ ltb f 128
unfolding holds_below agree
top_bit = same_test (λ f. bit_and f 0x80 == 0) (λ f. ltb f 128) refl

top_two : (f : ℕ) → f < 256 → (bit_and f 0xc0 == 0x80) ≡ (leb 128 f && ltb f 192)
unfolding holds_below agree
top_two = same_test (λ f. bit_and f 0xc0 == 0x80) (λ f. leb 128 f && ltb f 192) refl

top_three : (f : ℕ) → f < 256 → (bit_and f 0xe0 == 0xc0) ≡ (leb 192 f && ltb f 224)
unfolding holds_below agree
top_three = same_test (λ f. bit_and f 0xe0 == 0xc0) (λ f. leb 192 f && ltb f 224) refl

top_four : (f : ℕ) → f < 256 → (bit_and f 0xf0 == 0xe0) ≡ (leb 224 f && ltb f 240)
unfolding holds_below agree
top_four = same_test (λ f. bit_and f 0xf0 == 0xe0) (λ f. leb 224 f && ltb f 240) refl

low_six : (f : ℕ) → f < 256 → bit_and f 0x3f ≡ f % 64
unfolding holds_below
low_six = same_value (λ f. bit_and f 0x3f) (λ f. f % 64) refl

low_five : (f : ℕ) → f < 256 → bit_and f 0x1f ≡ f % 32
unfolding holds_below
low_five = same_value (λ f. bit_and f 0x1f) (λ f. f % 32) refl

low_four : (f : ℕ) → f < 256 → bit_and f 0x0f ≡ f % 16
unfolding holds_below
low_four = same_value (λ f. bit_and f 0x0f) (λ f. f % 16) refl

-- The marks of `encodeLength` are set in bits that the length leaves free.
marked_below :
    (m : ℕ) (k : ℕ)
    → holds_below (λ h. bit_or h m == h + m) k ≡ true
    → (h : ℕ) → h < k
    → bit_or h m ≡ h + m
marked_below m k t h lt = (==_iff _ _).0 (holds_below_sound (λ h. bit_or h m == h + m) k h t lt)

mark_two : (h : ℕ) → h < 64 → bit_or h 0x80 ≡ h + 0x80
unfolding holds_below
mark_two = marked_below 0x80 64 refl

mark_three : (h : ℕ) → h < 32 → bit_or h 0xc0 ≡ h + 0xc0
unfolding holds_below
mark_three = marked_below 0xc0 32 refl

mark_four : (h : ℕ) → h < 16 → bit_or h 0xe0 ≡ h + 0xe0
unfolding holds_below
mark_four = marked_below 0xe0 16 refl

-- A prefix that reads back as `n`, whatever follows it.
abbrev pub Reads : ℕ → List ℕ → Type 0
Reads n prefix =
    (rest : List ℕ)
    → decode_length (prefix ++ rest) ≡ ok (some (record { length = n; bytes = length prefix }))

Reads-one : (n : ℕ) → n < 128 → Reads n (n ∷ [])
unfolding decode_length
Reads-one n h rest = ground (arith, top_bit n (omega arith))

Reads-two : (f b n : ℕ) → 128 ≤ f → f < 192 → f % 64 * 256 + b ≡ n → Reads n (f ∷ b ∷ [])
unfolding decode_length two_bytes
Reads-two f b n lo hi e rest =
    let h : f < 256 = omega arith in ground (arith, top_bit f h, top_two f h, low_six f h)

Reads-three :
    (f b c n : ℕ)
    → 192 ≤ f
    → f < 224
    → f % 32 * 2 ^ 16 + b * 2 ^ 8 + c ≡ n
    → Reads n (f ∷ b ∷ c ∷ [])
unfolding decode_length three_bytes
Reads-three f b c n lo hi e rest =
    let h : f < 256 = omega arith in
    ground (arith, top_bit f h, top_two f h, top_three f h, low_five f h)

Reads-four :
    (f b c d n : ℕ)
    → 224 ≤ f
    → f < 240
    → f % 16 * 0x1000000 + b * 2 ^ 16 + c * 2 ^ 8 + d ≡ n
    → Reads n (f ∷ b ∷ c ∷ d ∷ [])
unfolding decode_length four_bytes
Reads-four f b c d n lo hi e rest =
    let h : f < 256 = omega arith in
    ground (arith, top_bit f h, top_two f h, top_three f h, top_four f h, low_four f h)

Reads-five :
    (a b c d n : ℕ)
    → a * 2 ^ 24 + b * 2 ^ 16 + c * 2 ^ 8 + d ≡ n
    → Reads n (0xf0 ∷ a ∷ b ∷ c ∷ d ∷ [])
unfolding decode_length five_bytes
Reads-five a b c d n e rest = ap (λ t. ok (some (record { length = t; bytes = 5 }))) e

-- Every length of 32 bits is encoded, and what is encoded is decoded, with the count of bytes
-- taken, whatever bytes follow.
pub decode_length-encode_length :
    (n : ℕ) → n < 2 ^ 32 → (prefix : List ℕ) × (encode_length n ≡ ok prefix) × Reads n prefix
unfolding encode_length
decode_length-encode_length n h = elim (dec_lt n 0x80) [
  | yes a ↦ (n ∷ [], ground arith, Reads-one n a)
  | no a ↦ elim (dec_lt n 0x4000) [
    | yes b ↦
        let m = mark_two (n / 2 ^ 8) (omega arith) in
        (
          bit_or (n / 2 ^ 8) 0x80 ∷ byte_at n 0 ∷ [],
          ground arith,
          Reads-two _ _ n (omega (arith, m)) (omega (arith, m)) (omega (arith, m)),
        )
    | no b ↦ elim (dec_lt n 0x20_0000) [
      | yes c ↦
          let m = mark_three (n / 2 ^ 16) (omega arith) in
          (
            bit_or (n / 2 ^ 16) 0xc0 ∷ byte_at n 8 ∷ byte_at n 0 ∷ [],
            ground arith,
            Reads-three _ _ _ n (omega (arith, m)) (omega (arith, m)) (omega (arith, m)),
          )
      | no c ↦ elim (dec_lt n 0x1000_0000) [
        | yes d ↦
            let m = mark_four (n / 2 ^ 24) (omega arith) in
            (
              bit_or (n / 2 ^ 24) 0xe0 ∷ byte_at n 16 ∷ byte_at n 8 ∷ byte_at n 0 ∷ [],
              ground arith,
              Reads-four _ _ _ _ n (omega (arith, m)) (omega (arith, m)) (omega (arith, m)),
            )
        | no d ↦ (
          0xf0 ∷ byte_at n 24 ∷ byte_at n 16 ∷ byte_at n 8 ∷ byte_at n 0 ∷ [],
          ground arith,
          Reads-five _ _ _ _ n (omega arith),
        )
      ]
    ]
  ]
]
