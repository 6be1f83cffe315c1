-- ===== src/Tests/Routeros.antt =====
-- Runs of the protocol: the answer `!re =name=wg`, `!done` of a router.
use wireguard_panel.Base.{
  ℕ, ◌≡◌, ◌≢◌, refl, List, [], ◌∷◌, ◌++◌, Option, none, some, ok, err, All, length, arith,
}
use wireguard_panel.Base.Text.{Text, codes}
use wireguard_panel.Routeros.Protocol.{
  encode_length, encode_word, encode_sentence, Word, decode_sentence, out_of_rounds,
}
use wireguard_panel.Routeros.Protocol.Stability.{decode_sentence-ends}
use wireguard_panel.Routeros.Protocol.RoundTrip.{IsWord, decode_sentence-encode_sentence}
use wireguard_panel.Routeros.Exchange.{Value, text, on_data, feed, start}
use wireguard_panel.Routeros.Exchange.Chunks.{result, feed-concat}

abbrev record_words : List Word
record_words = codes "!re" ∷ codes "=name=wg" ∷ []

abbrev record_bytes : List ℕ
record_bytes = 3 ∷ (codes "!re" ++ 8 ∷ (codes "=name=wg" ++ 0 ∷ []))

record_written : encode_sentence record_words ≡ ok record_bytes
unfolding encode_sentence encode_word encode_length
record_written = refl

record_AreWords : All IsWord record_words
record_AreWords = ((omega arith, omega arith), ((omega arith, omega arith), tt))

decode_sentence-encode_sentence_example :
    decode_sentence (record_bytes ++ 5 ∷ [])
    ≡ ok (some (record { words = record_words; bytes = length record_bytes }))
decode_sentence-encode_sentence_example =
    decode_sentence-encode_sentence record_words record_bytes (5 ∷ []) record_AreWords
      record_written

decode_sentence-ends_example : decode_sentence record_bytes ≢ err out_of_rounds
decode_sentence-ends_example = decode_sentence-ends record_bytes

feed-concat_example :
    result
      (feed start ((3 ∷ codes "!r") ∷ (codes "e" ++ 8 ∷ []) ∷ codes "=name=wg" ∷ (0 ∷ []) ∷ []))
    ≡ result (on_data start record_bytes)
feed-concat_example =
    feed-concat start (3 ∷ codes "!r") ((codes "e" ++ 8 ∷ []) ∷ codes "=name=wg" ∷ (0 ∷ []) ∷ [])

abbrev attributes : List (Text × Option Value)
attributes = (codes "n", some (text (codes "a=b"))) ∷ (codes "c", none) ∷ []
