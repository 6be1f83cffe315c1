-- ===== src/Routeros/Exchange/Chunks.antt =====
-- src/server/routeros/native-client.ts, lines 135 to 155: an exchange and the chunks of its answer.
use mathlib.Core.List.{append_assoc, append-nil}
use wireguard_panel.Base.{
  ℕ, zero, suc, ◌≤◌, ◌<◌, ◌≡◌, refl, sym, ap, ◌∙◌, inl, inr, List, [], ◌∷◌, ◌++◌, Option, none,
  some, Result, ok, err, arith, length, drop, drop_append_le, length-drop, length-append,
  Option-cases,
}
use wireguard_panel.Routeros.Protocol.{ProtocolError, Decoded, decode_sentence}
use wireguard_panel.Routeros.Protocol.Stability.{Stable, decode_sentence-Stable}
use wireguard_panel.Routeros.Protocol.RoundTrip.{Inside, decode_sentence-Inside}
use wireguard_panel.Routeros.Exchange.{
  Row, Outcome, Session, on_sentence, on_decoded, go_on, drain, on_data, feed,
}

-- What the caller of an exchange sees.
abbrev pub result : Session → List Row × Option Outcome
result s = (s.records, s.outcome)

go_on_cong :
    (m n : List Row → List ℕ → Session) (rest : List ℕ) (p : List Row × Option Outcome)
    → ((later : List Row) → m later rest ≡ n later rest)
    → go_on m rest p ≡ go_on n rest p
unfolding go_on
go_on_cong m n rest (records, none) same = same records
go_on_cong m n rest (records, some o) same = refl

-- Two loops that agree on every shorter buffer agree after one sentence.
on_decoded_cong :
    (m n : List Row → List ℕ → Session) (records : List Row) (b : List ℕ)
    (r : Result ProtocolError (Option Decoded))
    → ((later : List Row) (b' : List ℕ) → length b' < length b → m later b' ≡ n later b')
    → Inside (length b) r
    → on_decoded m records b r ≡ on_decoded n records b r
unfolding on_decoded
on_decoded_cong m n records b (err e) same i = refl
on_decoded_cong m n records b (ok none) same i = refl
on_decoded_cong m n records b (ok (some d)) same i =
    go_on_cong m n (drop d.bytes b) (on_sentence records d.words)
      (λ later. same later (drop d.bytes b) (omega (arith, length-drop d.bytes b)))

-- The rounds do not matter once there are more of them than bytes.
drain_rounds :
    (f g : ℕ) (records : List Row) (b : List ℕ)
    → length b < f
    → length b < g
    → drain f records b ≡ drain g records b
unfolding drain
drain_rounds zero g records b h k = absurd (omega arith)
drain_rounds (suc f) zero records b h k = absurd (omega arith)
drain_rounds (suc f) (suc g) records b h k =
    on_decoded_cong (drain f) (drain g) records b (decode_sentence b)
      (λ later b' lt. drain_rounds f g later b' (omega arith) (omega arith))
      (decode_sentence-Inside b)

-- Going on from a session with more bytes, in enough rounds.
resume : ℕ → Session → List ℕ → Session
resume h s c = elim s.outcome [ some o ↦ s | none ↦ drain h s.records (s.buffer ++ c) ]

module _ (h : ℕ) (c : List ℕ) (m n : List Row → List ℕ → Session) where
  go_on_split :
      (rest : List ℕ) (p : List Row × Option Outcome)
      → ((later : List Row) → result (m later (rest ++ c)) ≡ result (resume h (n later rest) c))
      → result (go_on m (rest ++ c) p) ≡ result (resume h (go_on n rest p) c)
  unfolding go_on resume
  go_on_split rest (records, none) same = same records
  go_on_split rest (records, some o) same = refl

  decoded_split :
      (records : List Row) (b : List ℕ) (r s : Result ProtocolError (Option Decoded))
      → ((later : List Row) (b' : List ℕ)
          → length b' < length b
          → result (m later (b' ++ c)) ≡ result (resume h (n later b') c))
      → result (on_decoded m records (b ++ c) s) ≡ result (drain h records (b ++ c))
      → Stable r s
      → Inside (length b) r
      → result (on_decoded m records (b ++ c) s) ≡ result (resume h (on_decoded n records b r) c)
  unfolding on_decoded resume
  decoded_split records b (ok none) s same whole st i = whole
  decoded_split records b (err e) s same whole st i = rw st refl
  decoded_split records b (ok (some d)) s same whole st i = rw st (
      rw (drop_append_le d.bytes b c i.1) (
        go_on_split (drop d.bytes b) (on_sentence records d.words)
          (λ later. same later (drop d.bytes b) (omega (arith, length-drop d.bytes b)))))

drain_split :
    (f g h : ℕ) (records : List Row) (b c : List ℕ)
    → length (b ++ c) < f
    → length b < g
    → length (b ++ c) < h
    → result (drain f records (b ++ c)) ≡ result (resume h (drain g records b) c)
unfolding drain
drain_split zero g h records b c p q r = absurd (omega arith)
drain_split (suc f) zero h records b c p q r = absurd (omega arith)
drain_split (suc f) (suc g) h records b c p q r =
    decoded_split h c (drain f) (drain g) records b (decode_sentence b) (decode_sentence (b ++ c))
      (λ later b' lt.
        drain_split f g h later b' c (omega (arith, length-append b' c, length-append b c))
          (omega arith) (omega (arith, length-append b' c, length-append b c)))
      (ap result (drain_rounds (suc f) h records (b ++ c) p r)) (decode_sentence-Stable b c)
      (decode_sentence-Inside b)

-- What is left in the buffer is no longer than what was there.
abbrev Shrinks : ℕ → Session → Type 0
Shrinks k s = length s.buffer ≤ k

go_on-Shrinks :
    (k : ℕ) (m : List Row → List ℕ → Session) (rest : List ℕ) (p : List Row × Option Outcome)
    → length rest ≤ k
    → ((later : List Row) → Shrinks (length rest) (m later rest))
    → Shrinks k (go_on m rest p)
unfolding go_on
go_on-Shrinks k m rest (records, none) h same = let q = same records in omega arith
go_on-Shrinks k m rest (records, some o) h same = h

on_decoded-Shrinks :
    (m : List Row → List ℕ → Session) (records : List Row) (b : List ℕ)
    (r : Result ProtocolError (Option Decoded))
    → ((later : List Row) (b' : List ℕ) → Shrinks (length b') (m later b'))
    → Shrinks (length b) (on_decoded m records b r)
unfolding on_decoded
on_decoded-Shrinks m records b (err e) same = omega arith
on_decoded-Shrinks m records b (ok none) same = omega arith
on_decoded-Shrinks m records b (ok (some d)) same =
    go_on-Shrinks (length b) m (drop d.bytes b) (on_sentence records d.words)
      (omega (arith, length-drop d.bytes b)) (λ later. same later (drop d.bytes b))

drain-Shrinks : (f : ℕ) (records : List Row) (b : List ℕ) → Shrinks (length b) (drain f records b)
unfolding drain
drain-Shrinks zero records b = omega arith
drain-Shrinks (suc f) records b =
    on_decoded-Shrinks (drain f) records b (decode_sentence b) (drain-Shrinks f)

resume-on_data :
    (h : ℕ) (s : Session) (c : List ℕ) → length (s.buffer ++ c) < h → resume h s c ≡ on_data s c
unfolding resume on_data
resume-on_data h s c lt = ground (
  arith,
  drain_rounds h (suc (length (s.buffer ++ c))) s.records (s.buffer ++ c) lt (omega arith),
)

on_data_over : (s : Session) (b : List ℕ) (o : Outcome) → s.outcome ≡ some o → on_data s b ≡ s
unfolding on_data
on_data_over s b o e = ground arith

on_data_running :
    (s : Session) (b : List ℕ)
    → s.outcome ≡ none
    → on_data s b ≡ drain (suc (length (s.buffer ++ b))) s.records (s.buffer ++ b)
unfolding on_data
on_data_running s b e = ground arith

-- The first chunk drained, and the second given to what is left.
drain-append :
    (records : List Row) (b c : List ℕ)
    → result (on_data (drain (suc (length b)) records b) c)
      ≡ result (drain (suc (length (b ++ c))) records (b ++ c))
drain-append records b c =
    let first = drain (suc (length b)) records b in
    let h : ℕ = suc (length (b ++ c)) in
    let shrinks = drain-Shrinks (suc (length b)) records b in
    let fits : length (first.buffer ++ c) < h =
      omega (arith, shrinks, length-append first.buffer c, length-append b c) in
    sym (
      drain_split h (suc (length b)) h records b c (omega arith) (omega arith) (omega arith)
      ∙ ap result (resume-on_data h first c fits))

-- Two chunks, one after the other, have the effect of one.
on_data-append :
    (s : Session) (b c : List ℕ) → result (on_data (on_data s b) c) ≡ result (on_data s (b ++ c))
on_data-append s b c = elim (Option-cases s.outcome) [
  | inr (o, e) ↦
      ap (λ t. result (on_data t c)) (on_data_over s b o e)
      ∙ ap result (on_data_over s c o e ∙ sym (on_data_over s (b ++ c) o e))
  | inl e ↦
      ap (λ t. result (on_data t c)) (on_data_running s b e)
      ∙ drain-append s.records (s.buffer ++ b) c
      ∙ ap (λ t. result (drain (suc (length t)) s.records t)) (append_assoc s.buffer b c)
      ∙ ap result (sym (on_data_running s (b ++ c) e))
]

abbrev pub concat : List (List ℕ) → List ℕ
concat [] = []
concat (chunk ∷ chunks) = chunk ++ concat chunks

-- However the bytes of the answer are cut into one or more chunks, the exchange collects the
-- same records and ends in the same way, or waits, as if they had come at once.
pub feed-concat :
    (s : Session) (chunk : List ℕ) (chunks : List (List ℕ))
    → result (feed s (chunk ∷ chunks)) ≡ result (on_data s (concat (chunk ∷ chunks)))
unfolding feed
feed-concat s chunk [] = ap (λ t. result (on_data s t)) (sym (append-nil chunk))
feed-concat s chunk (next ∷ chunks) =
    feed-concat (on_data s chunk) next chunks ∙ on_data-append s chunk (concat (next ∷ chunks))
