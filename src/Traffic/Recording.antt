-- ===== src/Traffic/Recording.antt =====
-- src/server/traffic-accounting.ts, lines 89 to 170: the books of one peer under an observation.
use wireguard_panel.Base.{
  ℕ, ◌≡◌, refl, subst, ap, ◌∙◌, Bool, true, false, not, List, [], ◌∷◌, ◌++◌, Option, none, some,
  Result, ok, >>=-eq-ok, ok_inj, arith, if◌then◌else◌, ◌||◌,
}
use wireguard_panel.Base.Int.{ℤ, pos, ◌+ℤ◌, ◌≤ℤ◌, int_laws}
use wireguard_panel.Base.Text.{Text}
use wireguard_panel.Quota.{QuotaPeriod, one_time, daily, weekly, monthly}
use wireguard_panel.Quota.Laws.{counter_delta_nonneg}
use wireguard_panel.Traffic.Rows.{AccountingPeer, RemotePeer, Archive, Account, Window, scheduled}
use wireguard_panel.Traffic.Observe.{
  archive_of, archive_period, or_else, Rolled, unrolled, roll_over, roll_period, rolled_of,
  update_peer, Observation, stamp_snapshot, observe, record_observation,
}

-- The traffic of the archived periods, in one direction.
abbrev pub total : (Archive → ℤ) → List Archive → ℤ
total f [] = pos 0
total f (a ∷ history) = f a +ℤ total f history

abbrev pub total_rx : List Archive → ℤ
total_rx = total (λ a. a.rx_bytes)

abbrev pub total_tx : List Archive → ℤ
total_tx = total (λ a. a.tx_bytes)

-- The archived periods and the running one make up the lifetime.
pub record IsBalanced (a : Account) : Type 0 where
  pub rx : total_rx a.history +ℤ a.peer.period_rx_bytes ≡ a.peer.lifetime_rx_bytes
  pub tx : total_tx a.history +ℤ a.peer.period_tx_bytes ≡ a.peer.lifetime_tx_bytes

-- The usage of the period is not negative and lies within the lifetime.
pub record IsCounted (p : AccountingPeer) : Type 0 where
  pub rx : pos 0 ≤ℤ p.period_rx_bytes
  pub tx : pos 0 ≤ℤ p.period_tx_bytes
  pub rx_le : p.period_rx_bytes ≤ℤ p.lifetime_rx_bytes
  pub tx_le : p.period_tx_bytes ≤ℤ p.lifetime_tx_bytes

abbrev pub is_some {ℓ} : {A : Type ℓ} → Option A → Bool
is_some none = false
is_some (some a) = true

total-append : (f : Archive → ℤ) (h k : List Archive) → total f (h ++ k) ≡ total f h +ℤ total f k
total-append f [] k = omega int_laws
total-append f (a ∷ h) k =
    ap (λ t. f a +ℤ t) (total-append f h k) ∙ regroup (f a) (total f h) (total f k)
  where
    regroup : (a b c : ℤ) → a +ℤ (b +ℤ c) ≡ (a +ℤ b) +ℤ c
    regroup a b c = omega int_laws

-- A usage after a roll against the one before.
abbrev Within : ℤ → ℤ → Type 0
Within a b = pos 0 ≤ℤ b → (pos 0 ≤ℤ a) × (a ≤ℤ b)

same-Within : (a : ℤ) → Within a a
same-Within a h = (h, omega arith)

zero-Within : (a : ℤ) → Within (pos 0) a
zero-Within a h = (omega arith, h)

-- What a roll keeps: the usage of the period goes to the archive or stays, and is not negative.
record Moves (peer : AccountingPeer) (r : Rolled) : Type 0 where
  rx : total_rx r.archived +ℤ r.period_rx ≡ peer.period_rx_bytes
  tx : total_tx r.archived +ℤ r.period_tx ≡ peer.period_tx_bytes
  low_rx : Within (r.period_rx) (peer.period_rx_bytes)
  low_tx : Within (r.period_tx) (peer.period_tx_bytes)
  opens : is_some peer.quota_period_started_at ≡ true → is_some r.period_start ≡ true

add_zero : (a : ℤ) → pos 0 +ℤ a ≡ a
add_zero a = omega int_laws

zero_last : (a : ℤ) → (a +ℤ pos 0) +ℤ pos 0 ≡ a
zero_last a = omega int_laws

unrolled-Moves : (peer : AccountingPeer) → Moves peer (unrolled peer)
unfolding unrolled
unrolled-Moves peer = record {
  rx = add_zero _;
  tx = add_zero _;
  low_rx = same-Within _;
  low_tx = same-Within _;
  opens = λ h. h;
}

one_archive :
    (peer : AccountingPeer) (at : ℕ) (q : Option QuotaPeriod) (b : Option ℕ)
    → is_some q ≡ true
    → is_some b ≡ true
    → (total_rx (archive_of peer scheduled at q b) ≡ peer.period_rx_bytes +ℤ pos 0)
      × (total_tx (archive_of peer scheduled at q b) ≡ peer.period_tx_bytes +ℤ pos 0)
unfolding archive_of
one_archive peer at none b e f = ground arith
one_archive peer at (some period) none e f = ground arith
one_archive peer at (some period) (some s) e f = (refl, refl)

roll_over-Moves :
    (now : ℕ) (peer : AccountingPeer) (w : Window)
    → is_some peer.quota_period ≡ true
    → is_some peer.quota_period_started_at ≡ true
    → Moves peer (roll_over now peer w)
unfolding roll_over archive_period
roll_over-Moves now peer w e f =
    let archived =
      one_archive peer (or_else peer.quota_period_ends_at now) peer.quota_period
        peer.quota_period_started_at e f in
    record {
      rx = ap (λ t. t +ℤ pos 0) archived.0 ∙ zero_last _;
      tx = ap (λ t. t +ℤ pos 0) archived.1 ∙ zero_last _;
      low_rx = zero-Within _;
      low_tx = zero-Within _;
      opens = λ h. refl;
    }

either_Moves :
    (now : ℕ) (peer : AccountingPeer) (w : Window) (over : Bool)
    → is_some peer.quota_period ≡ true
    → is_some peer.quota_period_started_at ≡ true
    → Moves peer (if over then roll_over now peer w else unrolled peer)
either_Moves now peer w true e f = roll_over-Moves now peer w e f
either_Moves now peer w false e f = unrolled-Moves peer

roll_period-Moves :
    (now : ℕ) (peer : AccountingPeer) (period : QuotaPeriod) (w : Window)
    → is_some peer.quota_period ≡ true
    → is_some peer.quota_period_started_at ≡ true
    → Moves peer (roll_period now peer period w)
unfolding roll_period unrolled
roll_period-Moves now peer one_time w e f = record {
  rx = add_zero peer.period_rx_bytes;
  tx = add_zero peer.period_tx_bytes;
  low_rx = same-Within peer.period_rx_bytes;
  low_tx = same-Within peer.period_tx_bytes;
  opens = λ h. refl;
}
roll_period-Moves now peer daily w e f = either_Moves now peer w _ e f
roll_period-Moves now peer weekly w e f = either_Moves now peer w _ e f
roll_period-Moves now peer monthly w e f = either_Moves now peer w _ e f

-- A limited peer has a start of its period, to archive it by.
abbrev pub is_open : AccountingPeer → Bool
is_open peer = not (is_some peer.quota_limit_bytes) || is_some peer.quota_period_started_at

rolled_of-Moves :
    (now : ℕ) (peer : AccountingPeer) (window : QuotaPeriod → Result Text Window) (limit : Option ℤ)
    (period : Option QuotaPeriod) (r : Rolled)
    → peer.quota_period ≡ period
    → not (is_some limit) || is_some peer.quota_period_started_at ≡ true
    → rolled_of now peer window limit period ≡ ok r
    → Moves peer r
unfolding rolled_of
rolled_of-Moves now peer window none period r e f h =
    subst (Moves peer) (ok_inj h) (unrolled-Moves peer)
rolled_of-Moves now peer window (some limit) none r e f h =
    subst (Moves peer) (ok_inj h) (unrolled-Moves peer)
rolled_of-Moves now peer window (some limit) (some period) r e f h =
    let (w, computed, rolled) = >>=-eq-ok (window period) _ h in
    subst (Moves peer) (ok_inj rolled) (roll_period-Moves now peer period w (ap is_some e) f)

-- What an observation does to the usage of the period and to the lifetime.
record Counts (a b : Account) : Type 0 where
  balanced : IsBalanced a → IsBalanced b
  counted : IsCounted a.peer → IsCounted b.peer
  opened : is_open a.peer ≡ true → is_open b.peer ≡ true
  rx : a.peer.lifetime_rx_bytes ≤ℤ b.peer.lifetime_rx_bytes
  tx : a.peer.lifetime_tx_bytes ≤ℤ b.peer.lifetime_tx_bytes

moved : (h a q d : ℤ) → (h +ℤ a) +ℤ (q +ℤ d) ≡ (h +ℤ (a +ℤ q)) +ℤ d
moved h a q d = omega int_laws

moved_total :
    (f : Archive → ℤ) (h k : List Archive) (p l d q : ℤ)
    → total f k +ℤ q ≡ p
    → total f h +ℤ p ≡ l
    → total f (h ++ k) +ℤ (q +ℤ d) ≡ l +ℤ d
moved_total f h k p l d q e g =
    ap (λ t. t +ℤ (q +ℤ d)) (total-append f h k)
    ∙ moved (total f h) (total f k) q d
    ∙ ap (λ t. (total f h +ℤ t) +ℤ d) e
    ∙ ap (λ t. t +ℤ d) g

still_open :
    (limited start start' : Bool)
    → not limited || start ≡ true
    → (start ≡ true → start' ≡ true)
    → not limited || start' ≡ true
still_open false start start' h k = refl
still_open true start start' h k = k h

raised : (q d : ℤ) → pos 0 ≤ℤ q → pos 0 ≤ℤ d → pos 0 ≤ℤ q +ℤ d
raised q d h k = omega int_laws

grown : (l d : ℤ) → pos 0 ≤ℤ d → l ≤ℤ l +ℤ d
grown l d k = omega int_laws

kept_below : (q p l d : ℤ) → q ≤ℤ p → p ≤ℤ l → q +ℤ d ≤ℤ l +ℤ d
kept_below q p l d h k = omega int_laws

observe-Counts :
    (now online sample : ℕ) (a : Account) (remote : RemotePeer) (r : Rolled)
    → Moves a.peer r
    → Counts a (observe now online sample a remote r).0
unfolding observe update_peer stamp_snapshot
observe-Counts now online sample a remote r m =
    let rx = counter_delta_nonneg a.peer.last_observed_rx_bytes remote.rx_bytes in
    let tx = counter_delta_nonneg a.peer.last_observed_tx_bytes remote.tx_bytes in
    record {
      balanced = λ b. record {
        rx = moved_total _ a.history r.archived _ _ _ _ m.rx b.rx;
        tx = moved_total _ a.history r.archived _ _ _ _ m.tx b.tx;
      };
      counted = λ c. record {
        rx = raised _ _ (m.low_rx c.rx).0 rx;
        tx = raised _ _ (m.low_tx c.tx).0 tx;
        rx_le = kept_below _ _ _ _ (m.low_rx c.rx).1 c.rx_le;
        tx_le = kept_below _ _ _ _ (m.low_tx c.tx).1 c.tx_le;
      };
      opened = λ h. still_open _ _ _ h m.opens;
      rx = grown _ _ rx;
      tx = grown _ _ tx;
    }

record_observation-Counts :
    (now online sample : ℕ) (window : ℕ → QuotaPeriod → Result Text Window) (a : Account)
    (remote : RemotePeer) (b : Account) (o : Observation)
    → is_open a.peer ≡ true
    → record_observation now online sample window a remote ≡ ok (b, o)
    → Counts a b
unfolding record_observation
record_observation-Counts now online sample window a remote b o h e =
    let (r, rolled, observed) = >>=-eq-ok (rolled_of now a.peer (window now) _ _) _ e in
    subst (Counts a) (ap (λ p. p.0) (ok_inj observed)) (
      observe-Counts now online sample a remote r
        (rolled_of-Moves now a.peer (window now) _ _ r refl h rolled))

-- What stays true of the rows of a peer: the archived periods and the running one make up the
-- lifetime, no usage is negative, and a limited peer has a start of its period.
pub record IsAccounted (a : Account) : Type 0 where
  pub balanced : IsBalanced a
  pub counted : IsCounted a.peer
  pub opened : is_open a.peer ≡ true

-- An observation that succeeds keeps the books, whatever the router reports and whatever window
-- of the period is computed: if the archived periods and the running one make up the lifetime in
-- both directions, no usage is negative and a limited peer has a start of its period, then all
-- of this holds after it, and no lifetime counter went down.
pub record_observation-IsAccounted :
    (now online sample : ℕ) (window : ℕ → QuotaPeriod → Result Text Window) (a : Account)
    (remote : RemotePeer) (b : Account) (o : Observation)
    → IsAccounted a
    → record_observation now online sample window a remote ≡ ok (b, o)
    → IsAccounted b
      × (a.peer.lifetime_rx_bytes ≤ℤ b.peer.lifetime_rx_bytes)
      × (a.peer.lifetime_tx_bytes ≤ℤ b.peer.lifetime_tx_bytes)
record_observation-IsAccounted now online sample window a remote b o h e =
    let c = record_observation-Counts now online sample window a remote b o h.opened e in
    (
      record {
        balanced = c.balanced h.balanced;
        counted = c.counted h.counted;
        opened = c.opened h.opened;
      },
      c.rx,
      c.tx,
    )
