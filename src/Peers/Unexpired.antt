-- ===== src/Peers/Unexpired.antt =====
-- src/server/expiration.ts: a run while the router refuses every call.
use wireguard_panel.Base.{
  ℕ, ◌+◌, ◌≡◌, refl, ap, ◌∙◌, false, List, [], ◌∷◌, Result, ok, err, length, find, arith,
  Option-cases, inl, inr,
}
use wireguard_panel.Base.Text.{Text}
use wireguard_panel.Routeros.Types.{RemoteWireGuardPeer}
use wireguard_panel.Traffic.Rows.{DisabledReason}
use wireguard_panel.Peers.World.{
  refused, PeerRecord, Answer, World, Failure, and_then, call, answered, unchanged, get_peers,
  is_record,
}
use wireguard_panel.Peers.Handlers.{mutable_peer, assert_current_remote, set_peer_enabled}
use wireguard_panel.Peers.Logic.{Ends, and_then-Ends, and_then-ok, Ends-weaken, counted}
use wireguard_panel.Peers.Expiry.{
  due_peers, Totals, counted_as, expire_peer, expire_peers, enforce_expirations,
}
use wireguard_panel.Peers.Expired.{enforce_expirations-none_due}

abbrev pub AllRefused : World → Type 0
AllRefused w = (n : ℕ) → w.answers n ≡ refused

record SameRouter (w w' : World) : Type 0 where
  peers : w'.router_peers ≡ w.router_peers
  answers : w'.answers ≡ w.answers

abbrev Fails : {A : Type 0} → World → Result Failure A × World → Type 0
Fails w r = Ends (λ _ _. ⊥) (λ w'. SameRouter w w') r

answered_refused :
    (w : World) (a : Answer) (effect : World → World) (w1 : World)
    → a ≡ refused
    → SameRouter w w1
    → Fails w (answered a effect w1)
unfolding answered
answered_refused w a effect w1 h s = rw h (record { ends = s })

module _ (fingerprint : RemoteWireGuardPeer → Text) where
  assert_current_remote-Fails :
      (row : PeerRecord) (w : World)
      → AllRefused w
      → Fails w (assert_current_remote fingerprint row w)
  unfolding assert_current_remote
  assert_current_remote-Fails row w h =
      and_then-Ends (get_peers w)
        (and_then-Ends {Q = λ _ _. ⊥} (call unchanged w)
          (answered_refused w (w.answers w.calls) unchanged (counted w) (h w.calls)
            (record { peers = refl; answers = refl }))
          (λ _ w1 impossible. absurd impossible))
        (λ peers w1 impossible. absurd impossible)

  set_peer_disabled-Fails :
      (id : ℕ) (w : World)
      → AllRefused w
      → Fails w (set_peer_enabled fingerprint id false DisabledReason.expired w)
  unfolding set_peer_enabled mutable_peer
  set_peer_disabled-Fails id w h = elim (Option-cases (find (is_record id) w.records)) [
    | inl e ↦
        rw (e, mutable_peer)
          (unfold and_then in (record { ends = record { peers = refl; answers = refl } }))
    | inr (row, e) ↦
        rw (e, mutable_peer)
          (and_then-ok _ (
            and_then-ok _ (
              and_then-Ends _ (assert_current_remote-Fails row w h)
                (λ remote w1 impossible. absurd impossible))))
  ]

  expire_peer-Fails : (id : ℕ) (w : World) → AllRefused w → Fails w (expire_peer fingerprint id w)
  unfolding expire_peer
  expire_peer-Fails id w h = and_then-ok _ (
      and_then-Ends {Q = λ _ _. ⊥} _
        (Ends-weaken {Q = λ _ _. ⊥} {F = λ w'. SameRouter w w'} (set_peer_disabled-Fails id _ h)
          (λ _ w1 impossible. impossible) (λ w1 s. record { peers = s.peers; answers = s.answers }))
        (λ _ w1 impossible. absurd impossible))

  record HasFailed (w : World) (before : Totals) (r : Totals × World) : Type 0 where
    same : SameRouter w r.1
    disabled : r.0.disabled ≡ before.disabled
    failed : r.0.failed ≡ before.failed + 1

  counted_as-HasFailed :
      (id : ℕ) (w : World) (totals : Totals) (r : Result Failure (Unit {0}) × World)
      → Fails w r
      → HasFailed w totals (counted_as id totals r)
  unfolding counted_as
  counted_as-HasFailed id w totals (ok a, w') h = absurd h.ends
  counted_as-HasFailed id w totals (err e, w') h = record {
    same = record { peers = h.ends.peers; answers = h.ends.answers };
    disabled = refl;
    failed = refl;
  }

  expire_peers-HasFailed :
      (ids : List ℕ) (totals : Totals) (w : World)
      → AllRefused w
      → let (after, w') = expire_peers fingerprint ids totals w in
        SameRouter w w' × (after.disabled ≡ totals.disabled)
  unfolding expire_peers
  expire_peers-HasFailed [] totals w h = (record { peers = refl; answers = refl }, refl)
  expire_peers-HasFailed (id ∷ ids) totals w h =
      let round =
        counted_as-HasFailed id w totals (expire_peer fingerprint id w)
          (expire_peer-Fails id w h) in
      let rest =
        expire_peers-HasFailed ids _ _
          (λ n. ap (λ (f : ℕ → Answer). f n) round.same.answers ∙ h n) in
      (
        record {
          peers = rest.0.peers ∙ round.same.peers;
          answers = rest.0.answers ∙ round.same.answers;
        },
        rest.1 ∙ round.disabled,
      )

  -- A run while the router refuses every call: it disables no peer on the router, counts every peer
  -- whose time is over as failed, and leaves none of them for the next run, although they are as
  -- enabled on the router as they were.
  pub enforce_expirations-refused :
      (w : World)
      → AllRefused w
      → let (totals, w') = enforce_expirations fingerprint w in
        (w'.router_peers ≡ w.router_peers)
        × (totals.disabled ≡ 0)
        × (totals.failed ≡ length (due_peers w.now w.records))
        × (due_peers w'.now w'.records ≡ [])
  unfolding enforce_expirations
  enforce_expirations-refused w h =
      let run = expire_peers-HasFailed (due_peers w.now w.records) _ w h in
      let ends = enforce_expirations-none_due fingerprint w in
      (run.0.peers, run.1, omega (arith, ends.1, ends.2, run.1), ends.0)
