-- ===== src/Peers/WasReset.antt =====
-- src/server/peer-service.ts, lines 519 to 553: what the reset of a peer's usage leaves in the
-- database and on the router.
use wireguard_panel.Base.{
  ℕ, List, ◌∷◌, ◌≢◌, ◌≡◌, refl, sym, subst, Bool, true, false, ◌&&◌, ◌++◌, map, Option, none, some,
  find, arith, if◌then◌else◌,
}
use wireguard_panel.Base.Int.{pos, ℤ, ◌+ℤ◌}
use wireguard_panel.Base.Text.{Text}
use wireguard_panel.Quota.{QuotaPeriod}
use wireguard_panel.Traffic.Rows.{Archive, DisabledReason, ResetReason, Window}
use wireguard_panel.Routeros.Types.{RemoteWireGuardPeer}
use wireguard_panel.Peers.World.{
  QuotaColumns, PeerRecord, World, is_remote, is_record, with_disabled,
}
use wireguard_panel.Peers.Handlers.{is_quota_reason}
use wireguard_panel.Peers.Logic.{
  Ends, and_then-Ends, and_then-ok, Ends-weaken, call-Ends, SameRows, SameRows-refl, SameRows-trans,
}
use wireguard_panel.Peers.Left.{find-on_record, find-id}
use wireguard_panel.Peers.Deleted.{mutable_peer-found, assert_current_remote-Ends}
use wireguard_panel.Peers.Enabled.{HaveFlag, set_disabled-HaveFlag}
use wireguard_panel.Peers.Resets.{
  archive_rows, owned_by, reset_row, limited_period, enabled_remote, lift_remote,
  reset_peer_quota_usage,
}
use wireguard_panel.Peers.Reenabled.{changed_peers}

abbrev lifted : PeerRecord → Bool
lifted row = row.disabled && is_quota_reason row.disabled_reason

abbrev seen : Bool → RemoteWireGuardPeer → RemoteWireGuardPeer
seen b remote = if b then enabled_remote remote else remote

-- The columns of the limit after a reset at a moment, with the end of the new period.
pub record IsFresh (now : ℕ) (end : Option ℕ) (before after : QuotaColumns) : Type 0 where
  pub rx : after.period_rx_bytes ≡ pos 0
  pub tx : after.period_tx_bytes ≡ pos 0
  pub started : after.quota_period_started_at ≡ some now
  pub ends : after.quota_period_ends_at ≡ end
  pub not_reached : after.quota_reached_at ≡ none
  pub no_usage : after.quota_usage_when_disabled ≡ none
  pub limit : after.quota_limit_bytes ≡ before.quota_limit_bytes
  pub period : after.quota_period ≡ before.quota_period

-- The row after a reset: nothing but the limit's columns, the flag and the fingerprint changes.
pub record RowIsReset (now : ℕ) (end : Option ℕ) (row after : PeerRecord) : Type 0 where
  pub quota : IsFresh now end row.quota after.quota
  pub no_bypass : after.quota_bypass_until ≡ none
  pub lifted :
      row.disabled_reason ≡ some DisabledReason.quota
      → (after.disabled ≡ false) × (after.disabled_reason ≡ none)
  pub spared :
      row.disabled_reason ≢ some DisabledReason.quota
      → (after.disabled ≡ row.disabled) × (after.disabled_reason ≡ row.disabled_reason)
  pub others : after ≡ record row {
    quota = after.quota;
    quota_bypass_until = after.quota_bypass_until;
    disabled = after.disabled;
    disabled_reason = after.disabled_reason;
    remote_fingerprint = after.remote_fingerprint;
  }

by_quota-or_not :
    (reason : Option DisabledReason)
    → (reason ≢ some DisabledReason.quota)
    → is_quota_reason reason ≡ false
by_quota-or_not none h = refl
by_quota-or_not (some DisabledReason.manual) h = refl
by_quota-or_not (some DisabledReason.expired) h = refl
by_quota-or_not (some DisabledReason.quota) h = absurd (h refl)

reset_row-RowIsReset :
    (now : ℕ) (end : Option ℕ) (fingerprint : Text) (row : PeerRecord)
    → RowIsReset now end row (reset_row now end fingerprint row)
reset_row-RowIsReset now end fingerprint row = record {
  quota = record {
    rx = refl;
    tx = refl;
    started = refl;
    ends = refl;
    not_reached = refl;
    no_usage = refl;
    limit = refl;
    period = refl;
  };
  no_bypass = refl;
  lifted = λ e. rw e (refl, refl);
  spared = λ e. rw (by_quota-or_not row.disabled_reason e) (refl, refl);
  others = refl;
}

-- The period that was running goes to the history, if it had a start.
pub record PeriodIsArchived (row : PeerRecord) (period : QuotaPeriod) (now : ℕ)
    (before after : List (ℕ × Archive)) : Type 0 where
  pub none_started : row.quota.quota_period_started_at ≡ none → after ≡ before
  pub started :
      (at : ℕ)
      → row.quota.quota_period_started_at ≡ some at
      → after
        ≡ (
          row.id,
          record {
            period = period;
            configured_limit_bytes = row.quota.quota_limit_bytes;
            rx_bytes = row.quota.period_rx_bytes;
            tx_bytes = row.quota.period_tx_bytes;
            started_at = at;
            ended_at = now;
            reached_at = row.quota.quota_reached_at;
            usage_when_disabled = row.quota.quota_usage_when_disabled;
            reason = ResetReason.manual;
          },
        )
          ∷ before

archive_rows-PeriodIsArchived :
    (row : PeerRecord) (period : QuotaPeriod) (now : ℕ) (before : List (ℕ × Archive))
    → PeriodIsArchived row period now before (
        map
          (owned_by row.id)
          (archive_rows ResetReason.manual now row.quota period row.quota.quota_period_started_at)
        ++ before)
unfolding archive_rows
archive_rows-PeriodIsArchived row period now before = record {
  none_started = λ e. rw (e, archive_rows) refl;
  started = λ at e. rw (e, archive_rows) refl;
}

lift_remote-Ends :
    (b : Bool) (remote : RemoteWireGuardPeer) (w : World)
    → Ends
        (λ observed w'.
          SameRows w w'
          × (observed ≡ seen b remote)
          × (b ≡ true → HaveFlag remote.id false w'.router_peers))
        (λ w'. SameRows w w')
        (lift_remote b remote w)
unfolding lift_remote
lift_remote-Ends false remote w = record { ends = (SameRows-refl w, refl, λ e. ground (arith, e)) }
lift_remote-Ends true remote w =
    and_then-Ends _
      (call-Ends {P = λ _ w'. SameRows w w' × HaveFlag remote.id false w'.router_peers}
        {E = λ w'. SameRows w w'} (with_disabled remote.id false) w
        (changed_peers _ _ (SameRows-refl w), set_disabled-HaveFlag remote.id false w.router_peers)
        (changed_peers _ _ (SameRows-refl w)) (changed_peers _ _ (SameRows-refl w)))
      (λ _ w1 h. record { ends = (h.0, refl, λ _. h.1) })

limited_period-Ends :
    (limit : Option ℤ) (period : Option QuotaPeriod) (w : World)
    → Ends
        (λ p w'. (w' ≡ w) × (period ≡ some p))
        (λ w'. SameRows w w')
        (limited_period limit period w)
limited_period-Ends (some limit) (some period) w = record { ends = (refl, refl) }
limited_period-Ends (some limit) none w = record { ends = SameRows-refl w }
limited_period-Ends none period w = record { ends = SameRows-refl w }

kept_fingerprint :
    (fingerprint : RemoteWireGuardPeer → Text) (row : PeerRecord) (remote : RemoteWireGuardPeer)
    → row.disabled_reason ≢ some DisabledReason.quota
    → some (fingerprint (seen (lifted row) remote)) ≡ some (fingerprint remote)
kept_fingerprint fingerprint row remote q =
    let off : lifted row ≡ false = ground (arith, by_quota-or_not row.disabled_reason q) in
    rw off refl

module _ (fingerprint : RemoteWireGuardPeer → Text)
    (quota_period_window : ℕ → QuotaPeriod → Window) where
  -- The peer has a period. Its usage is the answer and goes to the history, the row starts anew, and
  -- a peer that the limit had disabled is enabled on the router.
  pub record IsReset (row : PeerRecord) (used : ℤ) (w w' : World) : Type 0 where
    pub period : QuotaPeriod
    pub had : row.quota.quota_period ≡ some period
    pub answer : used ≡ row.quota.period_rx_bytes +ℤ row.quota.period_tx_bytes
    pub remote : RemoteWireGuardPeer
    pub was : find (is_remote row) w.router_peers ≡ some remote
    pub on_router :
        row.disabled ≡ true
        → row.disabled_reason ≡ some DisabledReason.quota
        → HaveFlag remote.id false w'.router_peers
    pub after : PeerRecord
    pub in_database : find (is_record row.id) w'.records ≡ some after
    pub row_reset : RowIsReset w.now (quota_period_window w.now period).end row after
    pub fingerprint_lifted :
        row.disabled ≡ true
        → row.disabled_reason ≡ some DisabledReason.quota
        → after.remote_fingerprint ≡ some (fingerprint (record remote { disabled = false }))
    pub fingerprint_kept :
        row.disabled_reason ≢ some DisabledReason.quota
        → after.remote_fingerprint ≡ some (fingerprint remote)
    pub history : PeriodIsArchived row period w.now w.history w'.history
    pub tables : w'.tables ≡ w.tables

  IsReset-found :
      (row : PeerRecord) (w : World)
      → find (is_record row.id) w.records ≡ some row
      → Ends
          (λ used w'. IsReset row used w w')
          (λ w'. SameRows w w')
          (reset_peer_quota_usage fingerprint quota_period_window row.id w)
  unfolding reset_peer_quota_usage
  IsReset-found row w h = rw (mutable_peer-found row.id row w h) (
      and_then-ok _ (
        and_then-Ends _ (limited_period-Ends row.quota.quota_limit_bytes row.quota.quota_period w)
          (λ period w0 h0.
            and_then-Ends _
              (Ends-weaken
                {Q = λ remote w'.
                  SameRows w w' × (find (is_remote row) w.router_peers ≡ some remote)}
                {F = λ w'. SameRows w w'} (assert_current_remote-Ends fingerprint row w0)
                (λ remote w2 h2. (rw (sym h0.0) h2.0.rows, rw (sym h0.0) h2.1))
                (λ w2 s. rw (sym h0.0) s))
              (λ remote w2 h2.
                and_then-Ends _
                  (Ends-weaken
                    {Q = λ observed w'.
                      SameRows w w'
                      × (observed ≡ seen (lifted row) remote)
                      × (lifted row ≡ true → HaveFlag remote.id false w'.router_peers)}
                    {F = λ w'. SameRows w w'} (lift_remote-Ends (lifted row) remote w2)
                    (λ observed w3 h3. (SameRows-trans h2.0 h3.0, h3.1, h3.2))
                    (λ w3 s. SameRows-trans h2.0 s))
                  (λ observed w3 h3. and_then-ok _ (record {
                    ends = record {
                      period = period;
                      had = h0.1;
                      answer = refl;
                      remote = remote;
                      was = h2.1;
                      on_router = λ d q. h3.2 (rw (d, q) refl);
                      after =
                          reset_row w.now (quota_period_window w.now period).end
                            (fingerprint (seen (lifted row) remote)) row;
                      in_database =
                          rw (h3.0.now, h3.1)
                            (find-on_record row.id _ w3.records row (λ p. refl)
                              (rw h3.0.records h));
                      row_reset = reset_row-RowIsReset w.now _ _ row;
                      fingerprint_lifted = λ d q. rw (d, q) refl;
                      fingerprint_kept = λ q. kept_fingerprint fingerprint row remote q;
                      history =
                          rw (h3.0.now, h3.0.history)
                            (archive_rows-PeriodIsArchived row period w.now w.history);
                      tables = h3.0.tables;
                    };
                  }))))))

  -- The usage of a peer is reset, whatever the router answers. When it succeeds, the peer had a
  -- period, the answer is the usage so far, the history has the period with its counters in front if
  -- it had started, the row has no usage, no exception and a period that starts now, a peer that the
  -- limit had disabled is enabled in the row and on the router, and the addresses do not change. When
  -- it fails, the database is as it was.
  pub reset_peer_quota_usage-IsReset :
      (peer_id : ℕ) (row : PeerRecord) (w : World)
      → find (is_record peer_id) w.records ≡ some row
      → Ends
          (λ used w'. IsReset row used w w')
          (λ w'. SameRows w w')
          (reset_peer_quota_usage fingerprint quota_period_window peer_id w)
  reset_peer_quota_usage-IsReset peer_id row w h =
      let same = find-id peer_id w.records row h in
      subst
        (λ id.
          Ends (λ used w'. IsReset row used w w') (λ w'. SameRows w w')
            (reset_peer_quota_usage fingerprint quota_period_window id w))
        same
        (IsReset-found row w (subst (λ id. find (is_record id) w.records ≡ some row) (sym same) h))
