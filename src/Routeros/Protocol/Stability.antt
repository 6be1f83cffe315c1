-- ===== src/Routeros/Protocol/Stability.antt =====
-- src/server/routeros/native-client.ts, lines 180 to 211: decoding as bytes arrive.
use mathlib.Core.Option
use wireguard_panel.Base.{
  ℕ, zero, suc, ◌+◌, ◌≤◌, ◌<◌, ◌≡◌, ◌≢◌, refl, inl, inr, Bool, true, false, List, [], ◌∷◌, ◌++◌,
  Option, none, some, Result, ok, err, ltb, ◌==◌, arith, if◌then◌else◌, Bool-cases, length, take,
  drop, drop_append_le, take_append_le, length-drop, length-append, ◌>>=◌, subst,
}
use wireguard_panel.Routeros.Protocol.{
  ProtocolError, out_of_rounds, unsupported_word_length, Prefix, Decoded, decode_length, two_bytes,
  three_bytes, four_bytes, five_bytes, word_at, after_prefix, decode_words, decode_sentence,
  add_word, Word,
}

-- What a decision on the bytes so far says of the decision once more have come.
abbrev pub Stable {ℓ} :
    {A : Type ℓ} → Result ProtocolError (Option A) → Result ProtocolError (Option A) → Type ℓ
Stable (ok none) r = Unit
Stable (ok (some a)) r = r ≡ ok (some a)
Stable (err e) r = r ≡ err e

Stable-refl {ℓ} : {A : Type ℓ} (r : Result ProtocolError (Option A)) → Stable r r
Stable-refl (ok none) = tt
Stable-refl (ok (some a)) = refl
Stable-refl (err e) = refl

-- A prefix that is read lies within the bytes, and is not empty.
abbrev Fits : ℕ → Result ProtocolError (Option Prefix) → Type 0
Fits n (ok (some p)) = (0 < p.bytes) × (p.bytes ≤ n)
Fits n (ok none) = Unit {0}
Fits n (err e) = e ≢ out_of_rounds

-- Both facts of a decision `r` on `n` bytes that becomes `s`.
record Both (n : ℕ) (r s : Result ProtocolError (Option Prefix)) : Type 0 where
  stable : Stable r s
  fits : Fits n r

two_bytes-Both :
    (first : ℕ) (b c : List ℕ)
    → Both (suc (length b)) (ok (two_bytes first b)) (ok (two_bytes first (b ++ c)))
unfolding two_bytes
two_bytes-Both first [] c = record { stable = tt; fits = tt }
two_bytes-Both first (x ∷ b) c = record { stable = refl; fits = omega arith }

three_bytes-Both :
    (first : ℕ) (b c : List ℕ)
    → Both (suc (length b)) (ok (three_bytes first b)) (ok (three_bytes first (b ++ c)))
unfolding three_bytes
three_bytes-Both first [] c = record { stable = tt; fits = tt }
three_bytes-Both first (x ∷ []) c = record { stable = tt; fits = tt }
three_bytes-Both first (x ∷ y ∷ b) c = record { stable = refl; fits = omega arith }

four_bytes-Both :
    (first : ℕ) (b c : List ℕ)
    → Both (suc (length b)) (ok (four_bytes first b)) (ok (four_bytes first (b ++ c)))
unfolding four_bytes
four_bytes-Both first [] c = record { stable = tt; fits = tt }
four_bytes-Both first (x ∷ []) c = record { stable = tt; fits = tt }
four_bytes-Both first (x ∷ y ∷ []) c = record { stable = tt; fits = tt }
four_bytes-Both first (x ∷ y ∷ z ∷ b) c = record { stable = refl; fits = omega arith }

five_bytes-Both :
    (b c : List ℕ) → Both (suc (length b)) (ok (five_bytes b)) (ok (five_bytes (b ++ c)))
unfolding five_bytes
five_bytes-Both [] c = record { stable = tt; fits = tt }
five_bytes-Both (x ∷ []) c = record { stable = tt; fits = tt }
five_bytes-Both (x ∷ y ∷ []) c = record { stable = tt; fits = tt }
five_bytes-Both (x ∷ y ∷ z ∷ []) c = record { stable = tt; fits = tt }
five_bytes-Both (x ∷ y ∷ z ∷ w ∷ b) c = record { stable = refl; fits = omega arith }

one_byte-Both :
    (p : Prefix) (n : ℕ) → 0 < p.bytes → p.bytes ≤ n → Both n (ok (some p)) (ok (some p))
one_byte-Both p n h k = record { stable = refl; fits = (h, k) }

refused-Both : (n : ℕ) → Both n (err unsupported_word_length) (err unsupported_word_length)
refused-Both n = record { stable = refl; fits = cc }

-- A test passes both facts on from its branches.
if-Both :
    (t : Bool) (n : ℕ) (r r' s s' : Result ProtocolError (Option Prefix))
    → Both n r s
    → Both n r' s'
    → Both n (if t then r else r') (if t then s else s')
if-Both true n r r' s s' p q = p
if-Both false n r r' s s' p q = q

decode_length-Both : (b c : List ℕ) → Both (length b) (decode_length b) (decode_length (b ++ c))
unfolding decode_length
decode_length-Both [] c = record { stable = tt; fits = tt }
decode_length-Both (first ∷ b) c =
    if-Both _ _ _ _ _ _
      (one_byte-Both (record { length = first; bytes = 1 }) (suc (length b)) (omega arith)
        (omega arith))
      (if-Both _ _ _ _ _ _ (two_bytes-Both first b c) (
        if-Both _ _ _ _ _ _ (three_bytes-Both first b c) (
          if-Both _ _ _ _ _ _ (four_bytes-Both first b c)
            (if-Both _ _ _ _ _ _ (five_bytes-Both b c) (refused-Both _)))))

-- A decision that stands once more bytes have come, made within its rounds.
record Stays (r s : Result ProtocolError (Option Decoded)) : Type 0 where
  stable : Stable r s
  ends : r ≢ err out_of_rounds

more : Word → ℕ → Result ProtocolError (Option Decoded) → Result ProtocolError (Option Decoded)
more w k r = r >>= λ rest. ok (Option.map (add_word w k) rest)

more-Stays :
    (w : Word) (k : ℕ) (r s : Result ProtocolError (Option Decoded))
    → Stays r s
    → Stays (more w k r) (more w k s)
unfolding more
more-Stays w k (ok none) s h = record { stable = tt; ends = cc }
more-Stays w k (ok (some d)) s h = record { stable = rw h.stable refl; ends = cc }
more-Stays w k (err e) s h = record {
  stable = rw h.stable refl;
  ends = λ p. h.ends (ground (arith, p));
}

waits : (s : Result ProtocolError (Option Decoded)) → Stays (ok none) s
waits s = record { stable = tt; ends = cc }

-- The loops `m` and `n` from every later buffer, the second with the bytes `c` at its end.
abbrev Later : List ℕ → ℕ → (m n : List ℕ → Result ProtocolError (Option Decoded)) → Type 0
Later c k m n = (b : List ℕ) → length b < k → Stays (m b) (n (b ++ c))

module _ (c : List ℕ) (k : ℕ) (m n : List ℕ → Result ProtocolError (Option Decoded))
    (later : Later c k m n) where
  word_at-Stays :
      (p : Prefix) (body : List ℕ)
      → length body < k
      → Stays (word_at m p body) (word_at n p (body ++ c))
  unfolding word_at
  word_at-Stays p body h = elim (Bool-cases (p.length == 0)) [
    | inl e ↦ rw e (record { stable = refl; ends = cc })
    | inr e ↦ elim (Bool-cases (ltb (length body) p.length)) [
      | inl short ↦ rw (e, short) (waits _)
      | inr long ↦
          let le : p.length ≤ length body = ground arith in
          let long' : ltb (length (body ++ c)) p.length ≡ false =
            ground (arith, length-append body c) in
          let next =
            more-Stays (take p.length body) (p.bytes + p.length) _ _
              (later (drop p.length body) (omega (arith, length-drop p.length body))) in
          rw (e, long)
            (rw long' (
              rw (take_append_le p.length body c le, drop_append_le p.length body c le)
                (unfold more in next)))
    ]
  ]

  after_prefix-Stays :
      (b : List ℕ) (r s : Result ProtocolError (Option Prefix))
      → length b ≤ k
      → Both (length b) r s
      → Stays (r >>= after_prefix m b) (s >>= after_prefix n (b ++ c))
  unfolding after_prefix
  after_prefix-Stays b (ok none) s h d = waits _
  after_prefix-Stays b (err e) s h d =
      rw d.stable (record { stable = refl; ends = λ p. d.fits (ground (arith, p)) })
  after_prefix-Stays b (ok (some p)) s h d =
      let fits = d.fits in
      rw d.stable (
        rw (drop_append_le p.bytes b c fits.1)
          (word_at-Stays p (drop p.bytes b) (omega (arith, length-drop p.bytes b))))

-- The rounds suffice when there are more of them than bytes, and then a decision stands for
-- every longer buffer.
decode_words-Stays :
    (f g : ℕ) (b c : List ℕ)
    → length b < f
    → length (b ++ c) < g
    → Stays (decode_words f b) (decode_words g (b ++ c))
unfolding decode_words
decode_words-Stays zero g b c h k = absurd (omega arith)
decode_words-Stays (suc f) zero b c h k = absurd (omega arith)
decode_words-Stays (suc f) (suc g) b c h k =
    after_prefix-Stays c (length b) (decode_words f) (decode_words g)
      (λ d lt.
        decode_words-Stays f g d c (omega arith)
          (omega (arith, length-append d c, length-append b c)))
      b _ _ (omega arith) (decode_length-Both b c)

-- The loop of `decodeSentence` always ends: the rounds given to it are never used up.
pub decode_sentence-ends : (b : List ℕ) → decode_sentence b ≢ err out_of_rounds
unfolding decode_sentence
decode_sentence-ends b =
    (decode_words-Stays (suc (length b)) (suc (length (b ++ []))) b [] (omega arith)
      (omega arith)).ends

-- Once a sentence or an error is seen, the bytes that come later do not change it.
pub decode_sentence-Stable : (b c : List ℕ) → Stable (decode_sentence b) (decode_sentence (b ++ c))
unfolding decode_sentence
decode_sentence-Stable b c =
    (decode_words-Stays (suc (length b)) (suc (length (b ++ c))) b c (omega arith)
      (omega arith)).stable

-- A prefix that is read has at least one byte and lies within the bytes.
pub decode_length_fits :
    (b : List ℕ) (p : Prefix) → decode_length b ≡ ok (some p) → (0 < p.bytes) × (p.bytes ≤ length b)
decode_length_fits b p h = subst (Fits (length b)) h (decode_length-Both b []).fits
