-- ===== src/Routeros/Protocol.antt =====
-- src/server/routeros/native-client.ts, lines 162 to 221: the words and sentences of the native
-- protocol. A word is the list of its bytes.
pub mod Lengths
pub mod Stability
pub mod RoundTrip
use Prim.Native.Nat.{bit_and, bit_or}
use mathlib.Core.Option
use wireguard_panel.Base.{
  ℕ, zero, suc, ◌+◌, ◌*◌, ◌/◌, ◌%◌, ◌^◌, List, [], ◌∷◌, ◌++◌, Option, none, some, Result, ok, err,
  ◌>>=◌, ltb, ◌==◌, if◌then◌else◌, length, take, drop,
}

pub data ProtocolError : Type 0 where
  -- `writeUInt32BE` refuses a value of more than 32 bits.
  length_too_large : ProtocolError
  unsupported_word_length : ProtocolError
  -- The model's own: a loop did not end in the rounds given.
  out_of_rounds : ProtocolError

-- `(length >> k) & 0xff`.
abbrev pub byte_at : ℕ → ℕ → ℕ
byte_at length k = length / 2 ^ k % 256

unfoldable pub encode_length : ℕ → Result ProtocolError (List ℕ)
encode_length length =
    if ltb length 0x80
    then ok (length ∷ [])
    else if ltb length 0x4000
    then ok (bit_or (length / 2 ^ 8) 0x80 ∷ byte_at length 0 ∷ [])
    else if ltb length 0x20_0000
    then ok (bit_or (length / 2 ^ 16) 0xc0 ∷ byte_at length 8 ∷ byte_at length 0 ∷ [])
    else if ltb length 0x1000_0000
    then ok (
        bit_or (length / 2 ^ 24) 0xe0
        ∷ byte_at length 16
        ∷ byte_at length 8
        ∷ byte_at length 0
        ∷ [])
    else if ltb length 0x1_0000_0000
    then ok
        (0xf0 ∷ byte_at length 24 ∷ byte_at length 16 ∷ byte_at length 8 ∷ byte_at length 0 ∷ [])
    else err length_too_large

pub record Prefix : Type 0 where
  pub length : ℕ
  pub bytes : ℕ

-- The cases of `decodeLength` by the count of bytes, on what follows the first byte. A list
-- that is too short is the test `offset + n > buffer.length`.
unfoldable pub two_bytes : ℕ → List ℕ → Option Prefix
two_bytes first (b ∷ _) = some (record { length = bit_and first 0x3f * 2 ^ 8 + b; bytes = 2 })
two_bytes first _ = none

unfoldable pub three_bytes : ℕ → List ℕ → Option Prefix
three_bytes first (b ∷ c ∷ _) =
    some (record { length = bit_and first 0x1f * 2 ^ 16 + b * 2 ^ 8 + c; bytes = 3 })
three_bytes first _ = none

unfoldable pub four_bytes : ℕ → List ℕ → Option Prefix
four_bytes first (b ∷ c ∷ d ∷ _) =
    some
      (record { length = bit_and first 0x0f * 0x1000000 + b * 2 ^ 16 + c * 2 ^ 8 + d; bytes = 4 })
four_bytes first _ = none

unfoldable pub five_bytes : List ℕ → Option Prefix
five_bytes (a ∷ b ∷ c ∷ d ∷ _) =
    some (record { length = a * 2 ^ 24 + b * 2 ^ 16 + c * 2 ^ 8 + d; bytes = 5 })
five_bytes _ = none

-- `decodeLength(buffer, offset)` on the bytes from the offset on; `none` is its `null`.
unfoldable pub decode_length : List ℕ → Result ProtocolError (Option Prefix)
decode_length [] = ok none
decode_length (first ∷ rest) =
    if bit_and first 0x80 == 0
    then ok (some (record { length = first; bytes = 1 }))
    else if bit_and first 0xc0 == 0x80
    then ok (two_bytes first rest)
    else if bit_and first 0xe0 == 0xc0
    then ok (three_bytes first rest)
    else if bit_and first 0xf0 == 0xe0
    then ok (four_bytes first rest)
    else if first == 0xf0
    then ok (five_bytes rest)
    else err unsupported_word_length

abbrev pub Word : Type 0
Word = List ℕ

unfoldable pub encode_word : Word → Result ProtocolError (List ℕ)
encode_word word = encode_length (length word) >>= λ prefix. ok (prefix ++ word)

unfoldable pub encode_sentence : List Word → Result ProtocolError (List ℕ)
encode_sentence [] = ok (0 ∷ [])
encode_sentence (word ∷ words) = do
  first ← encode_word word
  rest ← encode_sentence words
  ok (first ++ rest)

pub record Decoded : Type 0 where
  pub words : List Word
  pub bytes : ℕ

abbrev pub add_word : Word → ℕ → Decoded → Decoded
add_word word bytes d = record { words = word ∷ d.words; bytes = bytes + d.bytes }

-- One round of the loop of `decodeSentence`; `next` is the loop from the end of the word on.
unfoldable pub word_at :
    (List ℕ → Result ProtocolError (Option Decoded))
    → Prefix
    → List ℕ
    → Result ProtocolError (Option Decoded)
word_at next prefix body =
    if prefix.length == 0
    then ok (some (record { words = []; bytes = prefix.bytes }))
    else if ltb (length body) prefix.length
    then ok none
    else (next (drop prefix.length body) >>= λ rest.
        ok (Option.map (add_word (take prefix.length body) (prefix.bytes + prefix.length)) rest))

unfoldable pub after_prefix :
    (List ℕ → Result ProtocolError (Option Decoded))
    → List ℕ
    → Option Prefix
    → Result ProtocolError (Option Decoded)
after_prefix next buffer none = ok none
after_prefix next buffer (some prefix) = word_at next prefix (drop prefix.bytes buffer)

unfoldable pub decode_words : ℕ → List ℕ → Result ProtocolError (Option Decoded)
decode_words zero buffer = err out_of_rounds
decode_words (suc rounds) buffer =
    decode_length buffer >>= after_prefix (decode_words rounds) buffer

-- Each round passes at least one byte.
unfoldable pub decode_sentence : List ℕ → Result ProtocolError (Option Decoded)
decode_sentence buffer = decode_words (suc (length buffer)) buffer
