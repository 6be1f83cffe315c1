-- ===== src/Peers/Enabled.antt =====
-- src/server/peer-service.ts, lines 186 to 205: what enabling and disabling a peer leaves in the
-- database and on the router.
use wireguard_panel.Base.{
  ℕ, ◌≡◌, ◌≢◌, Option, none, refl, sym, subst, ◌∙◌, Bool, true, false, not, ◌&&◌, List, [], ◌∷◌,
  some, find, map, arith, Bool-cases, inl, inr, All,
}
use wireguard_panel.Base.Text.{Text}
use wireguard_panel.Routeros.Types.{RemoteWireGuardPeer}
use wireguard_panel.Traffic.Rows.{DisabledReason}
use wireguard_panel.Peers.World.{
  PeerRecord, World, has_remote_id, is_remote, is_record, on_record, set_disabled, with_disabled,
  disabled_by_limit,
}
use wireguard_panel.Peers.Handlers.{
  is_quota_reason, next_fingerprint, enabled_row, set_peer_enabled,
}
use wireguard_panel.Peers.Logic.{
  Ends, and_then-Ends, and_then-ok, Ends-weaken, call-Ends, check-Ends, get_peers-Ends, SameRows,
  SameRows-refl,
}
use wireguard_panel.Peers.Left.{find-on_record, find-id}
use wireguard_panel.Peers.Deleted.{mutable_peer-found, assert_current_remote-Ends}

-- The router's peers of an identifier have a flag.
abbrev pub HaveFlag : Text → Bool → List RemoteWireGuardPeer → Type 0
HaveFlag id b peers = All (λ p. has_remote_id id p ≡ true → p.disabled ≡ b) peers

pub set_disabled-HaveFlag :
    (id : Text) (b : Bool) (peers : List RemoteWireGuardPeer)
    → HaveFlag id b (map (set_disabled id b) peers)
set_disabled-HaveFlag id b [] = tt
set_disabled-HaveFlag id b (p ∷ peers) = elim (Bool-cases (has_remote_id id p)) [
  | inl e ↦ rw e ((λ _. refl), set_disabled-HaveFlag id b peers)
  | inr e ↦ rw e ((λ h. cc), set_disabled-HaveFlag id b peers)
]

-- The tables and the rows are as they were.
pub record SameTables (w w' : World) : Type 0 where
  pub tables : w'.tables ≡ w.tables
  pub records : w'.records ≡ w.records

same_tables : {w w' : World} → SameRows w w' → SameTables w w'
same_tables s = record { tables = s.tables; records = s.records }

same_but :
    {w w1 : World} (w2 : World)
    → w2.tables ≡ w1.tables
    → w2.records ≡ w1.records
    → SameTables w w1
    → SameTables w w2
same_but w2 t r s = record { tables = t ∙ s.tables; records = r ∙ s.records }

not_by_quota :
    (enabled : Bool) (reason : Option DisabledReason)
    → enabled && is_quota_reason reason ≡ false
    → enabled ≡ true
    → reason ≢ some DisabledReason.quota
not_by_quota enabled reason h e q = ground (arith, h, e, q)

module _ (fingerprint : RemoteWireGuardPeer → Text) where
  -- The row after it, column by column.
  pub record RowIsSwitched (enabled : Bool) (reason : DisabledReason) (row after : PeerRecord)
      (updated : Option RemoteWireGuardPeer) : Type 0 where
    pub disabled : after.disabled ≡ not enabled
    pub on_expired : enabled ≡ true → after.expired ≡ false
    pub on_reason : enabled ≡ true → after.disabled_reason ≡ none
    pub on_bypass : enabled ≡ true → after.quota_bypass_until ≡ row.quota_bypass_until
    pub off_expired : enabled ≡ false → after.expired ≡ row.expired
    pub off_reason : enabled ≡ false → after.disabled_reason ≡ some reason
    pub off_bypass : enabled ≡ false → after.quota_bypass_until ≡ none
    pub fingerprint_seen :
        (p : RemoteWireGuardPeer)
        → updated ≡ some p
        → after.remote_fingerprint ≡ some (fingerprint p)
    pub fingerprint_kept : updated ≡ none → after.remote_fingerprint ≡ row.remote_fingerprint
    pub others : after ≡ record row {
      disabled = after.disabled;
      expired = after.expired;
      disabled_reason = after.disabled_reason;
      quota_bypass_until = after.quota_bypass_until;
      remote_fingerprint = after.remote_fingerprint;
    }

  enabled_row-RowIsSwitched :
      (enabled : Bool) (reason : DisabledReason) (row : PeerRecord)
      (updated : Option RemoteWireGuardPeer)
      → RowIsSwitched enabled reason row
          (enabled_row enabled reason (next_fingerprint fingerprint row updated) row)
          updated
  enabled_row-RowIsSwitched enabled reason row updated = record {
    disabled = refl;
    on_expired = λ e. rw e refl;
    on_reason = λ e. rw e refl;
    on_bypass = λ e. rw e refl;
    off_expired = λ e. rw e refl;
    off_reason = λ e. rw e refl;
    off_bypass = λ e. rw e refl;
    fingerprint_seen = λ p e. rw e refl;
    fingerprint_kept = λ e. rw e refl;
    others = refl;
  }

  -- The row and the router's peer of the row agree on the flag, and the row has the fingerprint of the
  -- router's peer as it was read last.
  pub record IsSwitched (enabled : Bool) (reason : DisabledReason) (row : PeerRecord) (w w' : World)
      : Type 0 where
    pub remote : RemoteWireGuardPeer
    pub was : find (is_remote row) w.router_peers ≡ some remote
    pub on_router : HaveFlag remote.id (not enabled) w'.router_peers
    pub allowed : enabled ≡ true → row.disabled_reason ≢ some DisabledReason.quota
    pub after : PeerRecord
    pub in_database : find (is_record row.id) w'.records ≡ some after
    pub row_switched :
        RowIsSwitched enabled reason row after (find (has_remote_id remote.id) w'.router_peers)
    pub tables : w'.tables ≡ w.tables

  in_database :
      (enabled : Bool) (reason : DisabledReason) (remote : RemoteWireGuardPeer) (row : PeerRecord)
      (records : List PeerRecord) {read peers : List RemoteWireGuardPeer}
      → read ≡ peers
      → find (is_record row.id) records ≡ some row
      → find (is_record row.id) (
          map
            (on_record row.id (
              enabled_row enabled reason
                (next_fingerprint fingerprint row (find (has_remote_id remote.id) read))))
            records)
        ≡ some (
            enabled_row enabled reason
              (next_fingerprint fingerprint row (find (has_remote_id remote.id) peers))
              row)
  in_database enabled reason remote row records same h =
      rw same (find-on_record row.id _ records row (λ p. refl) h)

  switched :
      (enabled : Bool) (reason : DisabledReason) (row : PeerRecord) (w : World)
      → find (is_record row.id) w.records ≡ some row
      → Ends
          (λ _ w'. IsSwitched enabled reason row w w')
          (λ w'. SameTables w w')
          (set_peer_enabled fingerprint row.id enabled reason w)
  unfolding set_peer_enabled
  switched enabled reason row w h = rw (mutable_peer-found row.id row w h) (
      and_then-ok _ (
        and_then-Ends _
          (check-Ends
            {P = λ _ w'. (w' ≡ w) × (enabled && is_quota_reason row.disabled_reason ≡ false)}
            {E = λ w'. SameTables w w'} (not (enabled && is_quota_reason row.disabled_reason))
            disabled_by_limit w (λ e. (refl, ground (arith, e))) (same_tables (SameRows-refl w)))
          (λ _ w1 h1.
            and_then-Ends _
              (Ends-weaken
                {Q = λ remote w'.
                  SameTables w w' × (find (is_remote row) w.router_peers ≡ some remote)}
                {F = λ w'. SameTables w w'} (assert_current_remote-Ends fingerprint row w1)
                (λ remote w2 h2. (rw (sym h1.0) (same_tables h2.0.rows), rw (sym h1.0) h2.1))
                (λ w2 s. rw (sym h1.0) (same_tables s)))
              (λ remote w2 h2.
                and_then-Ends _
                  (call-Ends
                    {P = λ _ w'. SameTables w w' × HaveFlag remote.id (not enabled) w'.router_peers}
                    {E = λ w'. SameTables w w'} (with_disabled remote.id (not enabled)) w2
                    (
                      same_but _ refl refl h2.0,
                      set_disabled-HaveFlag remote.id (not enabled) w2.router_peers,
                    )
                    (same_but _ refl refl h2.0) (same_but _ refl refl h2.0))
                  (λ _ w3 h3.
                    and_then-Ends _
                      (get_peers-Ends
                        {P = λ peers w'.
                          SameTables w w'
                          × HaveFlag remote.id (not enabled) w'.router_peers
                          × (peers ≡ w'.router_peers)}
                        {E = λ w'. SameTables w w'} w3 (same_but _ refl refl h3.0, h3.1, refl)
                        (same_but _ refl refl h3.0))
                      (λ peers w4 h4. record {
                        ends = record {
                          remote = remote;
                          was = h2.1;
                          on_router = h4.1;
                          allowed = not_by_quota enabled row.disabled_reason h1.1;
                          after = _;
                          row_switched =
                              enabled_row-RowIsSwitched enabled reason row
                                (find (has_remote_id remote.id) w4.router_peers);
                          in_database =
                              in_database enabled reason remote row w4.records h4.2
                                (rw h4.0.records h);
                          tables = h4.0.tables;
                        };
                      }))))))

  -- A peer is enabled or disabled, whatever the router answers. When it succeeds, the router's peers
  -- with the identifier of the one that was the row's have the flag, the row has it too, with the
  -- reason and the fingerprint that belong to it, and the peer was not enabled against a quota. When
  -- it fails, the tables of addresses and the rows are as they were.
  pub set_peer_enabled-IsSwitched :
      (peer_id : ℕ) (enabled : Bool) (reason : DisabledReason) (row : PeerRecord) (w : World)
      → find (is_record peer_id) w.records ≡ some row
      → Ends
          (λ _ w'. IsSwitched enabled reason row w w')
          (λ w'. SameTables w w')
          (set_peer_enabled fingerprint peer_id enabled reason w)
  set_peer_enabled-IsSwitched peer_id enabled reason row w h =
      let same = find-id peer_id w.records row h in
      subst
        (λ id.
          Ends (λ _ w'. IsSwitched enabled reason row w w') (λ w'. SameTables w w')
            (set_peer_enabled fingerprint id enabled reason w))
        same
        (switched enabled reason row w
          (subst (λ id. find (is_record id) w.records ≡ some row) (sym same) h))
