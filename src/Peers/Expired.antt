-- ===== src/Peers/Expired.antt =====
-- src/server/expiration.ts: what a run leaves, whatever the routers answer.
use wireguard_panel.Base.{
  ℕ, ◌+◌, ◌≡◌, refl, sym, subst, ◌∙◌, Bool, true, false, List, [], ◌∷◌, map, Option, Result, ok,
  err, length, any, find, All, arith, Bool-cases, Option-cases, inl, inr, ◌==◌,
}
use wireguard_panel.Base.Text.{Text}
use wireguard_panel.Routeros.Types.{RemoteWireGuardPeer}
use wireguard_panel.Traffic.Rows.{DisabledReason}
use wireguard_panel.Peers.World.{PeerRecord, World, Failure, has_remote_id, is_record, on_record}
use wireguard_panel.Peers.Handlers.{mutable_peer, next_fingerprint, enabled_row, set_peer_enabled}
use wireguard_panel.Peers.Logic.{
  Ends, and_then-Ends, and_then-ok, Ends-weaken, call-Ends, get_peers-Ends, SameRows, SameRows-refl,
}
use wireguard_panel.Peers.Deleted.{assert_current_remote-Ends}
use wireguard_panel.Peers.Expiry.{
  is_due, due_peers, mark_expired, Totals, counted_as, expire_peer, expire_peers,
  enforce_expirations,
}

-- The rows of a peer were disabled, or none was changed.
record Rewritten (peer_id : ℕ) (w w' : World) : Type 0 where
  now : w'.now ≡ w.now
  fingerprint : PeerRecord → Option Text
  records :
      w'.records
      ≡ map
          (on_record peer_id (λ p. enabled_row false DisabledReason.expired (fingerprint p) p))
          w.records

record Untouched (w w' : World) : Type 0 where
  now : w'.now ≡ w.now
  records : w'.records ≡ w.records

untouched : {w w' : World} → SameRows w w' → Untouched w w'
untouched s = record { now = s.now; records = s.records }

same_but :
    {w w1 : World} (w2 : World)
    → w2.now ≡ w1.now
    → w2.records ≡ w1.records
    → Untouched w w1
    → Untouched w w2
same_but w2 n r s = record { now = n ∙ s.now; records = r ∙ s.records }

mutable_peer-Ends : (id : ℕ) (w : World) → Ends (λ _ w'. w' ≡ w) (λ w'. w' ≡ w) (mutable_peer id w)
unfolding mutable_peer
mutable_peer-Ends id w = elim (Option-cases (find (is_record id) w.records)) [
  | inl e ↦ rw (e, mutable_peer) (record { ends = refl })
  | inr (row, e) ↦ rw (e, mutable_peer) (record { ends = refl })
]

module _ (fingerprint : RemoteWireGuardPeer → Text) where
  set_peer_disabled-Ends :
      (id : ℕ) (w : World)
      → Ends
          (λ _ w'. Rewritten id w w')
          (λ w'. Untouched w w')
          (set_peer_enabled fingerprint id false DisabledReason.expired w)
  unfolding set_peer_enabled
  set_peer_disabled-Ends id w =
      and_then-Ends _
        (Ends-weaken {Q = λ _ w'. w' ≡ w} {F = λ w'. Untouched w w'} (mutable_peer-Ends id w)
          (λ _ w1 e. e) (λ w1 e. rw e (untouched (SameRows-refl w))))
        (λ row w1 e1. and_then-ok _ (
          and_then-Ends _
            (Ends-weaken {Q = λ _ w'. Untouched w w'} {F = λ w'. Untouched w w'}
              (assert_current_remote-Ends fingerprint row w1)
              (λ _ w2 h. rw (sym e1) (untouched h.0.rows)) (λ w2 h. rw (sym e1) (untouched h)))
            (λ remote w2 h2.
              and_then-Ends _
                (call-Ends {P = λ _ w'. Untouched w w'} {E = λ w'. Untouched w w'} _ w2
                  (same_but _ refl refl h2) (same_but _ refl refl h2) (same_but _ refl refl h2))
                (λ _ w3 h3.
                  and_then-Ends _
                    (get_peers-Ends {P = λ _ w'. Untouched w w'} {E = λ w'. Untouched w w'} w3
                      (same_but _ refl refl h3) (same_but _ refl refl h3))
                    (λ peers w4 h4. record {
                      ends = record {
                        now = h4.now;
                        fingerprint = λ _.
                            next_fingerprint fingerprint row (find (has_remote_id remote.id) peers);
                        records = rw h4.records refl;
                      };
                    })))))

abbrev is_in : List ℕ → ℕ → Bool
is_in ids id = any (λ i. id == i) ids

-- Every row that is due stands in a list.
abbrev Listed : ℕ → List ℕ → List PeerRecord → Type 0
Listed now ids = All (λ p. is_due now p ≡ true → is_in ids p.id ≡ true)

Listed-mark :
    (now id : ℕ) (ids : List ℕ) (records : List PeerRecord)
    → Listed now (id ∷ ids) records
    → Listed now ids (map (on_record id mark_expired) records)
Listed-mark now id ids [] l = tt
Listed-mark now id ids (p ∷ records) (l, ls) = elim (Bool-cases (is_record id p)) [
  | inl e ↦ rw e ((λ due. ground (arith, due)), Listed-mark now id ids records ls)
  | inr e ↦ rw e ((λ due. ground (arith, l due, e)), Listed-mark now id ids records ls)
]

Listed-enabled_row :
    (now id : ℕ) (ids : List ℕ) (f : PeerRecord → Option Text) (records : List PeerRecord)
    → Listed now ids records
    → Listed now ids
        (map (on_record id (λ p. enabled_row false DisabledReason.expired (f p) p)) records)
Listed-enabled_row now id ids f [] l = tt
Listed-enabled_row now id ids f (p ∷ records) (l, ls) = elim (Bool-cases (is_record id p)) [
  | inl e ↦ rw e ((λ due. l due), Listed-enabled_row now id ids f records ls)
  | inr e ↦ rw e ((λ due. l due), Listed-enabled_row now id ids f records ls)
]

Listed-none :
    (now : ℕ) (records : List PeerRecord) → Listed now [] records → due_peers now records ≡ []
unfolding due_peers
Listed-none now [] l = refl
Listed-none now (p ∷ records) (l, ls) = elim (Bool-cases (is_due now p)) [
  | inl e ↦ cc (l e)
  | inr e ↦ rw e (Listed-none now records ls)
]

Listed-cons :
    (now id : ℕ) (ids : List ℕ) (records : List PeerRecord)
    → Listed now ids records
    → Listed now (id ∷ ids) records
Listed-cons now id ids [] l = tt
Listed-cons now id ids (p ∷ records) (l, ls) =
    ((λ due. ground (arith, l due)), Listed-cons now id ids records ls)

Listed-due_peers :
    (now : ℕ) (records : List PeerRecord) → Listed now (due_peers now records) records
unfolding due_peers
Listed-due_peers now [] = tt
Listed-due_peers now (p ∷ records) = elim (Bool-cases (is_due now p)) [
  | inl e ↦
      let same : due_peers now (p ∷ records) ≡ p.id ∷ due_peers now records = rw e refl in
      subst (λ ids. Listed now ids (p ∷ records)) (sym same)
        ((λ _. ground arith), Listed-cons now p.id _ records (Listed-due_peers now records))
  | inr e ↦
      let same : due_peers now (p ∷ records) ≡ due_peers now records = rw e refl in
      subst (λ ids. Listed now ids (p ∷ records)) (sym same)
        ((λ due. cc), Listed-due_peers now records)
]

-- What a round leaves.
record IsRound (now : ℕ) (ids : List ℕ) (before after : Totals) (w : World) : Type 0 where
  same_now : w.now ≡ now
  listed : Listed now ids w.records
  checked : after.checked ≡ before.checked
  counted_once : after.disabled + after.failed ≡ before.disabled + before.failed + 1

counted_as-IsRound :
    (id now : ℕ) (ids : List ℕ) (totals : Totals) (r : Result Failure (Unit {0}) × World)
    → Ends
        (λ _ w. (w.now ≡ now) × Listed now ids w.records)
        (λ w. (w.now ≡ now) × Listed now ids w.records)
        r
    → IsRound now ids totals (counted_as id totals r).0 (counted_as id totals r).1
unfolding counted_as
counted_as-IsRound id now ids totals (ok a, w) h = record {
  same_now = h.ends.0;
  listed = h.ends.1;
  checked = refl;
  counted_once = omega arith;
}
counted_as-IsRound id now ids totals (err e, w) h = record {
  same_now = h.ends.0;
  listed = h.ends.1;
  checked = refl;
  counted_once = omega arith;
}

module _ (fingerprint : RemoteWireGuardPeer → Text) where
  expire_peer-Ends :
      (id : ℕ) (ids : List ℕ) (w : World)
      → Listed w.now (id ∷ ids) w.records
      → Ends
          (λ _ w'. (w'.now ≡ w.now) × Listed w.now ids w'.records)
          (λ w'. (w'.now ≡ w.now) × Listed w.now ids w'.records)
          (expire_peer fingerprint id w)
  unfolding expire_peer
  expire_peer-Ends id ids w l =
      let marked = Listed-mark w.now id ids w.records l in
      and_then-ok _ (
        and_then-Ends _
          (Ends-weaken {Q = λ _ w'. (w'.now ≡ w.now) × Listed w.now ids w'.records}
            {F = λ w'. (w'.now ≡ w.now) × Listed w.now ids w'.records}
            (set_peer_disabled-Ends fingerprint id _)
            (λ _ w1 h. (
              h.now,
              subst (Listed w.now ids) (sym h.records)
                  (Listed-enabled_row w.now id ids h.fingerprint _ marked),
            ))
            (λ w1 h. (h.now, subst (Listed w.now ids) (sym h.records) marked)))
          (λ _ w1 h1. record { ends = h1 }))

  expire_peers-ends :
      (now : ℕ) (ids : List ℕ) (totals : Totals) (w : World)
      → w.now ≡ now
      → Listed now ids w.records
      → let (after, w') = expire_peers fingerprint ids totals w in
        (due_peers w'.now w'.records ≡ [])
        × (after.checked ≡ totals.checked)
        × (after.disabled + after.failed ≡ totals.disabled + totals.failed + length ids)
  unfolding expire_peers
  expire_peers-ends now [] totals w e l = (rw e (Listed-none now w.records l), refl, omega arith)
  expire_peers-ends now (id ∷ ids) totals w e l =
      let round = counted_as-IsRound id now ids totals (expire_peer fingerprint id w) (
        subst
          (λ t.
            Ends (λ _ w'. (w'.now ≡ t) × Listed t ids w'.records)
              (λ w'. (w'.now ≡ t) × Listed t ids w'.records) (expire_peer fingerprint id w))
          e (expire_peer-Ends id ids w (subst (λ t. Listed t (id ∷ ids) w.records) (sym e) l))) in
      let rest = expire_peers-ends now ids _ _ round.same_now round.listed in
      (rest.0, rest.1 ∙ round.checked, omega (arith, rest.2, round.counted_once))

  -- A run over the peers whose time is over, whatever the routers answer: each of them is counted
  -- as disabled or as failed, and none is left for the next run at this time, those that failed
  -- included.
  pub enforce_expirations-none_due :
      (w : World)
      → let (totals, w') = enforce_expirations fingerprint w in
        (due_peers w'.now w'.records ≡ [])
        × (totals.checked ≡ length (due_peers w.now w.records))
        × (totals.disabled + totals.failed ≡ totals.checked)
  unfolding enforce_expirations
  enforce_expirations-none_due w =
      let ends =
        expire_peers-ends w.now (due_peers w.now w.records) _ w refl
          (Listed-due_peers w.now w.records) in
      (ends.0, ends.1, omega (arith, ends.1, ends.2))
