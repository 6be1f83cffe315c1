-- ===== src/Routeros/Protocol/RoundTrip.antt =====
-- src/server/routeros/native-client.ts, lines 168 to 211: sentences written and read.
use mathlib.Core.Option
use mathlib.Core.List.{append_assoc, append-nil}
use wireguard_panel.Base.{
  ℕ, zero, suc, ◌+◌, ◌^◌, ◌≤◌, ◌<◌, ◌≡◌, refl, sym, ap, ◌∙◌, inl, inr, false, List, [], ◌∷◌, ◌++◌,
  Option, none, some, Result, ok, err, ltb, ◌==◌, arith, Bool-cases, length, All, take, drop,
  drop_append, take_append, length-drop, length-append, ◌>>=◌, Result-cases,
}
use wireguard_panel.Routeros.Protocol.{
  ProtocolError, Prefix, Decoded, Word, encode_word, encode_sentence, decode_length, word_at,
  after_prefix, decode_words, decode_sentence, add_word,
}
use wireguard_panel.Routeros.Protocol.Lengths.{decode_length-encode_length}
use wireguard_panel.Routeros.Protocol.Stability.{Stable, decode_sentence-Stable, decode_length_fits}

-- A word that the framing can carry: not empty, since an empty word ends the sentence, and of a
-- length of 32 bits.
abbrev pub IsWord : Word → Type 0
IsWord w = (0 < length w) × (length w < 2 ^ 32)

-- Bytes that stand for the word: its prefix and its body.
encode_word-parts :
    (w : Word)
    → IsWord w
    → (prefix : List ℕ) × (encode_word w ≡ ok (prefix ++ w))
      × ((rest : List ℕ)
          → decode_length (prefix ++ rest)
            ≡ ok (some (record { length = length w; bytes = length prefix })))
unfolding encode_word
encode_word-parts w h =
    let (prefix, e, reads) = decode_length-encode_length (length w) h.1 in
    (prefix, rw e refl, reads)

-- Every sentence of such words is written.
pub encode_sentence_total :
    (ws : List Word) → All IsWord ws → (bytes : List ℕ) × (encode_sentence ws ≡ ok bytes)
unfolding encode_sentence
encode_sentence_total [] h = (0 ∷ [], refl)
encode_sentence_total (w ∷ ws) h =
    let (prefix, e, _) = encode_word-parts w h.0 in
    let (rest, e') = encode_sentence_total ws h.1 in ((prefix ++ w) ++ rest, rw e (rw e' refl))

word_step :
    (f : ℕ) (w : Word) (prefix tail : List ℕ) (d : Decoded)
    → 0 < length w
    → decode_length (prefix ++ (w ++ tail))
      ≡ ok (some (record { length = length w; bytes = length prefix }))
    → decode_words f tail ≡ ok (some d)
    → decode_words (suc f) (prefix ++ (w ++ tail))
      ≡ ok (some (add_word w (length prefix + length w) d))
unfolding decode_words after_prefix word_at
word_step f w prefix tail d h e k =
    let enough : ltb (length (w ++ tail)) (length w) ≡ false =
      ground (arith, length-append w tail) in
    let full : (length w == 0) ≡ false = ground arith in
    rw e (
      rw (drop_append prefix (w ++ tail))
        (rw (full, enough) (rw (drop_append w tail, take_append w tail) (rw k refl))))

end_step :
    (f : ℕ) (rest : List ℕ)
    → decode_words (suc f) (0 ∷ rest) ≡ ok (some (record { words = []; bytes = 1 }))
unfolding decode_words decode_length after_prefix word_at
end_step f rest = refl

decode_words-encode :
    (ws : List Word) (f : ℕ) (bytes rest : List ℕ)
    → All IsWord ws
    → encode_sentence ws ≡ ok bytes
    → length (bytes ++ rest) < f
    → decode_words f (bytes ++ rest) ≡ ok (some (record { words = ws; bytes = length bytes }))
unfolding encode_sentence
decode_words-encode [] zero bytes rest h e k = absurd (omega arith)
decode_words-encode [] (suc f) bytes rest h e k =
    let same : bytes ≡ 0 ∷ [] = cc in rw same (end_step f rest)
decode_words-encode (w ∷ ws) zero bytes rest h e k = absurd (omega arith)
decode_words-encode (w ∷ ws) (suc f) bytes rest h e k =
    let (prefix, written, reads) = encode_word-parts w h.0 in
    let (later, e') = encode_sentence_total ws h.1 in
    let whole : encode_sentence (w ∷ ws) ≡ ok ((prefix ++ w) ++ later) = rw written (rw e' refl) in
    let same : bytes ≡ (prefix ++ w) ++ later = cc (e, whole) in
    let regroup : bytes ++ rest ≡ prefix ++ (w ++ (later ++ rest)) = rw same (simp append_assoc) in
    let size = ap length regroup in
    let size' = ap length same in
    let ih = decode_words-encode ws f later rest h.1 e' (
      omega (
        arith,
        size,
        length-append prefix (w ++ (later ++ rest)),
        length-append w (later ++ rest),
        h.0.0,
      )) in
    let step = word_step f w prefix (later ++ rest) _ h.0.0 (reads (w ++ (later ++ rest))) ih in
    ap (decode_words (suc f)) regroup
    ∙ step
    ∙ ap (λ t. ok (some (record { words = w ∷ ws; bytes = t })))
        (omega (arith, size', length-append (prefix ++ w) later, length-append prefix w))

-- What is written is read: words that are not empty and shorter than 2^32 bytes come back, with
-- the count of bytes taken, whatever bytes follow the sentence.
pub decode_sentence-encode_sentence :
    (ws : List Word) (bytes rest : List ℕ)
    → All IsWord ws
    → encode_sentence ws ≡ ok bytes
    → decode_sentence (bytes ++ rest) ≡ ok (some (record { words = ws; bytes = length bytes }))
unfolding decode_sentence
decode_sentence-encode_sentence ws bytes rest h e =
    decode_words-encode ws (suc (length (bytes ++ rest))) bytes rest h e (omega arith)

-- A decoded sentence takes some of the bytes.
abbrev pub Inside : ℕ → Result ProtocolError (Option Decoded) → Type 0
Inside n (ok (some d)) = (0 < d.bytes) × (d.bytes ≤ n)
Inside n (ok none) = Unit {0}
Inside n (err e) = Unit {0}

Inside-mono :
    {m n : ℕ} (r : Result ProtocolError (Option Decoded)) → m ≤ n → Inside m r → Inside n r
Inside-mono (ok (some d)) h i = omega arith
Inside-mono (ok none) h i = tt
Inside-mono (err e) h i = tt

Inside-next :
    (n k : ℕ) (w : Word) (r : Result ProtocolError (Option Decoded))
    → Inside n r
    → Inside (k + n) (r >>= λ rest. ok (Option.map (add_word w k) rest))
Inside-next n k w (ok none) h = tt
Inside-next n k w (ok (some d)) h = omega arith
Inside-next n k w (err e) h = tt

word_at-Inside :
    (next : List ℕ → Result ProtocolError (Option Decoded)) (n : ℕ) (p : Prefix) (body : List ℕ)
    → ((b : List ℕ) → Inside (length b) (next b))
    → 0 < p.bytes
    → p.bytes + length body ≤ n
    → Inside n (word_at next p body)
unfolding word_at
word_at-Inside next n p body inside pos h = elim (Bool-cases (p.length == 0)) [
  | inl e ↦ rw e (omega arith)
  | inr e ↦ elim (Bool-cases (ltb (length body) p.length)) [
    | inl short ↦ rw (e, short) tt
    | inr long ↦
        let later = drop p.length body in
        let size : p.bytes + p.length + length later ≡ p.bytes + length body =
          ground (arith, length-drop p.length body) in
        rw (e, long)
          (Inside-mono _ (omega arith) (
            Inside-next (length later) (p.bytes + p.length) (take p.length body) (next later)
              (inside later)))
  ]
]

decode_words-Inside : (f : ℕ) (b : List ℕ) → Inside (length b) (decode_words f b)
unfolding decode_words after_prefix
decode_words-Inside zero b = tt
decode_words-Inside (suc f) b = elim (Result-cases (decode_length b)) [
  | inl (x, e) ↦ rw e tt
  | inr (none, e) ↦ rw e tt
  | inr (some p, e) ↦
      let fits = decode_length_fits b p e in
      rw e (
        word_at-Inside (decode_words f) (length b) p (drop p.bytes b) (decode_words-Inside f) fits.0
          (omega (arith, length-drop p.bytes b)))
]

pub decode_sentence-Inside : (b : List ℕ) → Inside (length b) (decode_sentence b)
unfolding decode_sentence
decode_sentence-Inside b = decode_words-Inside (suc (length b)) b

-- The reader waits for the last byte: on every proper beginning of a written sentence, whose words
-- are not empty and shorter than 2^32 bytes, it neither gives a sentence nor fails.
pub decode_sentence_waits :
    (ws : List Word) (a : List ℕ) (c : ℕ) (cs : List ℕ)
    → All IsWord ws
    → encode_sentence ws ≡ ok (a ++ c ∷ cs)
    → decode_sentence a ≡ ok none
decode_sentence_waits ws a c cs h e =
    let whole = decode_sentence-encode_sentence ws (a ++ c ∷ cs) [] h e in
    let whole' : decode_sentence (a ++ c ∷ cs)
        ≡ ok (some (record { words = ws; bytes = length (a ++ c ∷ cs) })) =
      ap decode_sentence (sym (append-nil (a ++ c ∷ cs))) ∙ whole in
    only (decode_sentence a) (decode_sentence-Stable a (c ∷ cs)) (decode_sentence-Inside a) whole'
  where
    only :
        (r : Result ProtocolError (Option Decoded))
        → Stable r (decode_sentence (a ++ c ∷ cs))
        → Inside (length a) r
        → decode_sentence (a ++ c ∷ cs)
          ≡ ok (some (record { words = ws; bytes = length (a ++ c ∷ cs) }))
        → r ≡ ok none
    only (ok none) s i w = refl
    only (err x) s i w = absurd (ground (arith, s, w))
    only (ok (some d)) s i w = absurd (ground (arith, s, w, length-append a (c ∷ cs)))
