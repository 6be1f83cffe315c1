-- ===== src/Peers/Reenabled.antt =====
-- src/server/peer-service.ts, lines 519 to 574: what the reset of a peer's usage and its temporary
-- enabling leave in the database and on the router.
use wireguard_panel.Base.{
  ℕ, Option-cases, inl, inr, none, ◌≢◌, ◌+◌, ◌*◌, ◌≡◌, refl, sym, subst, List, Bool, true, false,
  not, ◌||◌, some, find, arith,
}
use wireguard_panel.Base.Int.{ℤ}
use wireguard_panel.Traffic.Rows.{DisabledReason}
use wireguard_panel.Base.Text.{Text}
use wireguard_panel.Routeros.Types.{RemoteWireGuardPeer}
use wireguard_panel.Peers.World.{
  QuotaColumns, PeerRecord, World, Failure, Handler, and_then, check, is_remote, is_record,
  with_disabled, limit_not_reached, is_expired, disabled_manually,
}
use wireguard_panel.Peers.Logic.{
  Ends, and_then-Ends, and_then-ok, Ends-weaken, call-Ends, check-Ends, SameRows, SameRows-refl,
}
use wireguard_panel.Peers.Left.{find-on_record, find-id}
use wireguard_panel.Peers.Deleted.{mutable_peer-found, assert_current_remote-Ends}
use wireguard_panel.Peers.Enabled.{HaveFlag, set_disabled-HaveFlag}
use wireguard_panel.Peers.Resets.{
  has_reached, is_expired_reason, is_manual_reason, temporarily_reenable_peer,
}

pub changed_peers :
    {w w1 : World} (peers : List RemoteWireGuardPeer) (calls : ℕ)
    → SameRows w w1
    → SameRows w (record w1 { router_peers = peers; calls = calls })
changed_peers peers calls h = record {
  now = h.now;
  tables = h.tables;
  records = h.records;
  archives = h.archives;
  history = h.history;
  managed_objects = h.managed_objects;
  operation = h.operation;
  remote_deleted = h.remote_deleted;
  staged = h.staged;
  created_id = h.created_id;
}

-- The limit, and the moment at which it was reached.
reached_values :
    (q : QuotaColumns)
    → has_reached q ≡ true
    → ((limit : ℤ) × (q.quota_limit_bytes ≡ some limit))
      × ((at : ℕ) × (q.quota_reached_at ≡ some at))
reached_values q h = elim (Option-cases q.quota_limit_bytes) [
  | inl e ↦ absurd (ground (arith, h, e))
  | inr limited ↦ elim (Option-cases q.quota_reached_at) [
    | inl e ↦ absurd (ground (arith, h, e, limited.1))
    | inr reached ↦ (limited, reached)
  ]
]

module _ (fingerprint : RemoteWireGuardPeer → Text) where
  -- The peer had reached its limit, and was neither expired nor disabled by hand. The router's peer
  -- and the row are enabled, and the row has the end of the exception.
  pub record IsReenabled (minutes : ℕ) (row : PeerRecord) (w w' : World) : Type 0 where
    pub limit : ℤ
    pub reached_at : ℕ
    pub limited : row.quota.quota_limit_bytes ≡ some limit
    pub reached : row.quota.quota_reached_at ≡ some reached_at
    pub not_expired : row.expired ≡ false
    pub not_for_expiry : row.disabled_reason ≢ some DisabledReason.expired
    pub not_by_hand : row.disabled_reason ≢ some DisabledReason.manual
    pub remote : RemoteWireGuardPeer
    pub was : find (is_remote row) w.router_peers ≡ some remote
    pub on_router : HaveFlag remote.id false w'.router_peers
    pub in_database :
        find (is_record row.id) w'.records
        ≡ some (record row {
          disabled = false;
          disabled_reason = none;
          quota_bypass_until = some (w.now + minutes * 60);
          remote_fingerprint = some (fingerprint (record remote { disabled = false }));
        })
    pub tables : w'.tables ≡ w.tables
    pub history : w'.history ≡ w.history

  -- A check of the handler, before anything else.
  checked :
      {P : Unit {0} → World → Type 0} (b : Bool) (e : Failure) (w : World)
      (rest : Unit {0} → Handler (Unit {0}))
      → (b ≡ true → Ends P (λ w'. SameRows w w') (rest tt w))
      → Ends P (λ w'. SameRows w w') (and_then rest (check b e w))
  checked {P = P} b e w rest k =
      and_then-Ends _
        (check-Ends {P = λ _ w'. (w' ≡ w) × (b ≡ true)} {E = λ w'. SameRows w w'} b e w
          (λ h. (refl, h)) (SameRows-refl w))
        (λ _ w1 h. subst (λ u. Ends P (λ w'. SameRows w w') (rest tt u)) (sym h.0) (k h.1))

  reenabled :
      (minutes : ℕ) (row : PeerRecord) (w : World)
      → find (is_record row.id) w.records ≡ some row
      → Ends
          (λ _ w'. IsReenabled minutes row w w')
          (λ w'. SameRows w w')
          (temporarily_reenable_peer fingerprint row.id minutes w)
  unfolding temporarily_reenable_peer
  reenabled minutes row w h = rw (mutable_peer-found row.id row w h) (
      and_then-ok _ (
        checked (has_reached row.quota) limit_not_reached w _ (λ reached.
          checked (not (row.expired || is_expired_reason row.disabled_reason)) is_expired w _
            (λ not_expired.
              checked (not (is_manual_reason row.disabled_reason)) disabled_manually w _
                (λ not_manual.
                  and_then-Ends _
                    (Ends-weaken
                      {Q = λ remote w'.
                        SameRows w w' × (find (is_remote row) w.router_peers ≡ some remote)}
                      {F = λ w'. SameRows w w'} (assert_current_remote-Ends fingerprint row w)
                      (λ remote w2 h2. (h2.0.rows, h2.1)) (λ w2 s. s))
                    (λ remote w2 h2.
                      and_then-Ends _
                        (call-Ends
                          {P = λ _ w'. SameRows w w' × HaveFlag remote.id false w'.router_peers}
                          {E = λ w'. SameRows w w'} (with_disabled remote.id false) w2
                          (
                            changed_peers _ _ h2.0,
                            set_disabled-HaveFlag remote.id false w2.router_peers,
                          )
                          (changed_peers _ _ h2.0) (changed_peers _ _ h2.0))
                        (λ _ w3 h3. record {
                          ends = record {
                            limit = (reached_values row.quota reached).0.0;
                            reached_at = (reached_values row.quota reached).1.0;
                            limited = (reached_values row.quota reached).0.1;
                            reached = (reached_values row.quota reached).1.1;
                            not_expired = ground (arith, not_expired);
                            not_for_expiry = λ e. ground (arith, not_expired, e);
                            not_by_hand = λ e. ground (arith, not_manual, e);
                            remote = remote;
                            was = h2.1;
                            on_router = h3.1;
                            in_database = rw h3.0.now (
                                find-on_record row.id _ w3.records row (λ p. refl)
                                  (rw h3.0.records h));
                            tables = h3.0.tables;
                            history = h3.0.history;
                          };
                        })))))))

  -- A peer that reached its limit is let through, whatever the router answers. When it succeeds, the
  -- peer had reached its limit and was neither expired nor disabled by hand; the router's peers with
  -- the identifier of the row's peer are enabled, the row is enabled with an exception that ends the
  -- given minutes from now, and neither the addresses nor the history change. When it fails, the
  -- database is as it was.
  pub temporarily_reenable_peer-IsReenabled :
      (peer_id minutes : ℕ) (row : PeerRecord) (w : World)
      → find (is_record peer_id) w.records ≡ some row
      → Ends
          (λ _ w'. IsReenabled minutes row w w')
          (λ w'. SameRows w w')
          (temporarily_reenable_peer fingerprint peer_id minutes w)
  temporarily_reenable_peer-IsReenabled peer_id minutes row w h =
      let same = find-id peer_id w.records row h in
      subst
        (λ id.
          Ends (λ _ w'. IsReenabled minutes row w w') (λ w'. SameRows w w')
            (temporarily_reenable_peer fingerprint id minutes w))
        same
        (reenabled minutes row w
          (subst (λ id. find (is_record id) w.records ≡ some row) (sym same) h))
