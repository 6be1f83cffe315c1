-- ===== src/Peers/Succeeds.antt =====
-- src/server/peer-service.ts, lines 207 to 248, and src/server/bandwidth-service.ts, lines 198 to
-- 205: the deletion of a peer on a router that does what it is asked.
use wireguard_panel.Base.{
  ℕ, ◌≡◌, refl, sym, ap, subst, ◌∙◌, Bool, true, false, not, ◌&&◌, ◌||◌, List, [], ◌∷◌, Option,
  none, some, Result, ok, err, if◌then◌else◌, any, keep, find, All, arith, Bool-cases, inl, inr,
}
use wireguard_panel.Base.Text.{Text, text_eq}
use wireguard_panel.Routeros.Types.{RemoteWireGuardPeer, RemoteSimpleQueue}
use wireguard_panel.Operations.{start_operation}
use wireguard_panel.Peers.World.{
  works, PeerRecord, World, Failure, Answer, rethrown, call, answered, unchanged, get_peers,
  get_simple_queues, has_remote_id, is_remote, is_record, without_peer, without_queue,
}
use wireguard_panel.Peers.Handlers.{
  is_owned, delete_queues, delete_owned_peer_queue_remote, has_changed, assert_current_remote,
  is_this, delete_on_router, undo_delete, delete_body, delete_peer,
}
use wireguard_panel.Peers.Logic.{Ends, and_then-Ends, and_then-ok, counted}
use wireguard_panel.Peers.Left.{find-id}
use wireguard_panel.Peers.Deleted.{mutable_peer-found}

-- The router does whatever it is asked from here on.
abbrev pub AllWork : World → Type 0
AllWork w = (n : ℕ) → w.answers n ≡ works

-- The call succeeds, with a result that satisfies `P`.
abbrev pub Succeeds : {A : Type 0} → (A → World → Type 0) → Result Failure A × World → Type 0
Succeeds P r = Ends P (λ _. ⊥) r

rethrown-Succeeds :
    {A : Type 0} {P : A → World → Type 0} (undo : World → World) (r : Result Failure A × World)
    → Succeeds P r
    → Succeeds P (rethrown undo r)
unfolding rethrown
rethrown-Succeeds undo (ok a, w) h = h
rethrown-Succeeds undo (err e, w) h = absurd h.ends

returns :
    {P : Unit {0} → World → Type 0} (r : Result Failure (Unit {0}) × World)
    → Succeeds P r
    → (w' : World) × (r ≡ (ok tt, w'))
returns (ok a, w) h = (w, refl)
returns (err e, w) h = absurd h.ends

answered_works :
    {P : Unit {0} → World → Type 0} (a : Answer) (effect : World → World) (w : World)
    → a ≡ works
    → P tt (effect w)
    → Succeeds P (answered a effect w)
unfolding answered
answered_works a effect w h p = rw h (record { ends = p })

call-Succeeds :
    {P : Unit {0} → World → Type 0} (effect : World → World) (w : World)
    → AllWork w
    → P tt (effect (counted w))
    → Succeeds P (call effect w)
call-Succeeds effect w h p = answered_works (w.answers w.calls) effect (counted w) (h w.calls) p

get_peers-Succeeds :
    {P : List RemoteWireGuardPeer → World → Type 0} (w : World)
    → AllWork w
    → P w.router_peers (counted w)
    → Succeeds P (get_peers w)
get_peers-Succeeds w h p =
    and_then-Ends (call unchanged w) (call-Succeeds {P = λ _ w'. w' ≡ counted w} unchanged w h refl)
      (λ _ w' e. rw e (record { ends = p }))

get_simple_queues-Succeeds :
    {P : List RemoteSimpleQueue → World → Type 0} (w : World)
    → AllWork w
    → P w.queues (counted w)
    → Succeeds P (get_simple_queues w)
get_simple_queues-Succeeds w h p =
    and_then-Ends (call unchanged w) (call-Succeeds {P = λ _ w'. w' ≡ counted w} unchanged w h refl)
      (λ _ w' e. rw e (record { ends = p }))

abbrev has_id_of : RemoteSimpleQueue → RemoteSimpleQueue → Bool
has_id_of q o = text_eq q.id o.id

-- Every queue that the peer owns has the identifier of one of a list.
abbrev Covered : ℕ → List RemoteSimpleQueue → List RemoteSimpleQueue → Type 0
Covered peer_id owned = All (λ q. is_owned peer_id q ≡ true → any (has_id_of q) owned ≡ true)

Covered-tail :
    (peer_id : ℕ) (o : RemoteSimpleQueue) (owned queues : List RemoteSimpleQueue)
    → Covered peer_id (o ∷ owned) queues
    → Covered peer_id owned (keep (λ (q : RemoteSimpleQueue). not (text_eq q.id o.id)) queues)
Covered-tail peer_id o owned [] c = tt
Covered-tail peer_id o owned (q ∷ queues) (c, cs) = elim (Bool-cases (text_eq q.id o.id)) [
  | inl e ↦ rw e (Covered-tail peer_id o owned queues cs)
  | inr e ↦ rw e ((λ own. ground (arith, c own, e)), Covered-tail peer_id o owned queues cs)
]

Covered-none :
    (peer_id : ℕ) (queues : List RemoteSimpleQueue)
    → Covered peer_id [] queues
    → any (is_owned peer_id) queues ≡ false
Covered-none peer_id [] c = refl
Covered-none peer_id (q ∷ queues) (c, cs) = elim (Bool-cases (is_owned peer_id q)) [
  | inl e ↦ cc (c e)
  | inr e ↦ rw e (Covered-none peer_id queues cs)
]

Covered-cons :
    (peer_id : ℕ) (o : RemoteSimpleQueue) (owned queues : List RemoteSimpleQueue)
    → Covered peer_id owned queues
    → Covered peer_id (o ∷ owned) queues
Covered-cons peer_id o owned [] c = tt
Covered-cons peer_id o owned (q ∷ queues) (c, cs) =
    ((λ own. ground (arith, c own)), Covered-cons peer_id o owned queues cs)

text_eq_self : (q : RemoteSimpleQueue) → has_id_of q q ≡ true
text_eq_self q = wireguard_panel.Base.Text.text_eq_refl q.id

Covered-keep :
    (peer_id : ℕ) (queues : List RemoteSimpleQueue)
    → Covered peer_id (keep (is_owned peer_id) queues) queues
Covered-keep peer_id [] = tt
Covered-keep peer_id (q ∷ queues) = elim (Bool-cases (is_owned peer_id q)) [
  | inl e ↦
      let same : keep (is_owned peer_id) (q ∷ queues) ≡ q ∷ keep (is_owned peer_id) queues =
        rw e refl in
      subst (λ owned. Covered peer_id owned (q ∷ queues)) (sym same)
        (
          (λ _. rw (text_eq_self q) refl),
          Covered-cons peer_id q _ queues (Covered-keep peer_id queues),
        )
  | inr e ↦
      let same : keep (is_owned peer_id) (q ∷ queues) ≡ keep (is_owned peer_id) queues =
        rw e refl in
      subst (λ owned. Covered peer_id owned (q ∷ queues)) (sym same)
        ((λ own. cc), Covered-keep peer_id queues)
]

delete_queues-Succeeds :
    (peer_id : ℕ) (owned : List RemoteSimpleQueue) (w : World)
    → AllWork w
    → Covered peer_id owned w.queues
    → Succeeds
        (λ _ w'. AllWork w' × (any (is_owned peer_id) w'.queues ≡ false))
        (delete_queues owned w)
unfolding delete_queues
delete_queues-Succeeds peer_id [] w h c = record { ends = (h, Covered-none peer_id w.queues c) }
delete_queues-Succeeds peer_id (o ∷ owned) w h c =
    and_then-Ends (call (without_queue o.id) w)
      (call-Succeeds {P = λ _ w'. AllWork w' × Covered peer_id owned w'.queues} (without_queue o.id)
        w h (h, Covered-tail peer_id o owned w.queues c))
      (λ _ w1 h1. delete_queues-Succeeds peer_id owned w1 h1.0 h1.1)

delete_owned_peer_queue_remote-Succeeds :
    (peer_id : ℕ) (w : World)
    → AllWork w
    → Succeeds (λ _ w'. Unit {0}) (delete_owned_peer_queue_remote peer_id w)
unfolding delete_owned_peer_queue_remote
delete_owned_peer_queue_remote-Succeeds peer_id w h =
    and_then-Ends (get_simple_queues w)
      (get_simple_queues-Succeeds {P = λ queues w'. AllWork w' × (queues ≡ w'.queues)} w h
        (h, refl))
      (λ queues w1 h1.
        and_then-Ends (delete_queues (keep (is_owned peer_id) queues) w1)
          (delete_queues-Succeeds peer_id (keep (is_owned peer_id) queues) w1 h1.0
            (rw h1.1 (Covered-keep peer_id w1.queues)))
          (λ _ w2 h2.
            and_then-Ends (get_simple_queues w2)
              (get_simple_queues-Succeeds
                {P = λ remaining _. any (is_owned peer_id) remaining ≡ false} w2 h2.0 h2.1)
              (λ remaining w3 none_left. rw none_left (record { ends = tt }))))

module _ (fingerprint : RemoteWireGuardPeer → Text) where
  -- The router has a peer for the row, which is the one that was seen last, and no other peer with
  -- the row's key.
  pub record IsPresent (row : PeerRecord) (w : World) : Type 0 where
    pub remote : RemoteWireGuardPeer
    pub found : find (is_remote row) w.router_peers ≡ some remote
    pub is_current : has_changed row.remote_fingerprint (fingerprint remote) ≡ false
    pub alone :
        any (is_this row remote) (keep (λ p. not (has_remote_id remote.id p)) w.router_peers)
        ≡ false

  assert_current_remote-Succeeds :
      (row : PeerRecord) (w : World) (present : IsPresent row w)
      → AllWork w
      → Succeeds
          (λ remote w'. AllWork w' × (remote ≡ present.remote) × (w'.router_peers ≡ w.router_peers))
          (assert_current_remote fingerprint row w)
  unfolding assert_current_remote
  assert_current_remote-Succeeds row w present h =
      and_then-Ends (get_peers w)
        (get_peers-Succeeds {P = λ peers w'. (w' ≡ counted w) × (peers ≡ w.router_peers)} w h
          (refl, refl))
        (λ peers w1 h1.
          rw (h1.1, present.found)
            (and_then-ok _ (
              rw present.is_current (
                and_then-ok _ (record {
                  ends = (
                    (λ n. ap (λ (u : World). u.answers n) h1.0 ∙ h n),
                    refl,
                    ap (λ (u : World). u.router_peers) h1.0,
                  );
                })))))

  delete_on_router-Succeeds :
      (row : PeerRecord) (w w1 : World) (present : IsPresent row w)
      → AllWork w1
      → w1.router_peers ≡ w.router_peers
      → Succeeds (λ _ w'. AllWork w') (delete_on_router row present.remote w1)
  unfolding delete_on_router
  delete_on_router-Succeeds row w w1 present h same = and_then-ok _ (
      and_then-Ends _
        (call-Succeeds
          {P = λ _ w'. AllWork w' × (any (is_this row present.remote) w'.router_peers ≡ false)}
          (without_peer present.remote.id) _ h (h, rw same present.alone))
        (λ _ w3 h3. and_then-ok _ (
          and_then-Ends _
            (get_peers-Succeeds
              {P = λ peers w'. AllWork w' × (any (is_this row present.remote) peers ≡ false)} _ h3.0
              h3)
            (λ peers w4 h4. rw h4.1 (and_then-ok _ (record { ends = h4.0 }))))))

  delete_body-Succeeds :
      (row : PeerRecord) (w : World)
      → IsPresent row w
      → AllWork w
      → Succeeds (λ _ _. Unit {0}) (delete_body fingerprint row w)
  unfolding delete_body
  delete_body-Succeeds row w present h =
      and_then-Ends _ (assert_current_remote-Succeeds row w present h) (λ remote w1 h1. rw h1.1 (
        and_then-Ends _ (delete_on_router-Succeeds row w w1 present h1.0 h1.2) (λ _ w2 h2.
          and_then-Ends _ (delete_owned_peer_queue_remote-Succeeds row.id w2 h2)
            (λ _ w3 _. and_then-ok _ (and_then-ok _ (record { ends = tt }))))))

  delete_row-Succeeds :
      (row : PeerRecord) (w : World)
      → find (is_record row.id) w.records ≡ some row
      → IsPresent row w
      → AllWork w
      → Succeeds (λ _ _. Unit {0}) (delete_peer fingerprint row.id w)
  unfolding delete_peer
  delete_row-Succeeds row w found present h =
      let started = record w { operation = start_operation; remote_deleted = false } in
      let still : IsPresent row started = record {
        remote = present.remote;
        found = present.found;
        is_current = present.is_current;
        alone = present.alone;
      } in
      rw (mutable_peer-found row.id row w found) (
        and_then-ok _ (
          and_then-ok _ (
            rethrown-Succeeds (undo_delete row.id) (delete_body fingerprint row started)
              (delete_body-Succeeds row started still h))))

  -- A router that does what it is asked, and has the row's peer as it was seen last and no other
  -- peer with the row's key, lets the deletion of the peer succeed.
  pub delete_peer-Succeeds :
      (peer_id : ℕ) (row : PeerRecord) (w : World)
      → find (is_record peer_id) w.records ≡ some row
      → IsPresent row w
      → AllWork w
      → (w' : World) × (delete_peer fingerprint peer_id w ≡ (ok tt, w'))
  delete_peer-Succeeds peer_id row w found present h =
      let same = find-id peer_id w.records row found in
      returns (delete_peer fingerprint peer_id w) (
        subst (λ id. Succeeds (λ _ _. Unit {0}) (delete_peer fingerprint id w)) same
          (delete_row-Succeeds row w
            (subst (λ id. find (is_record id) w.records ≡ some row) (sym same) found) present h))
