-- ===== src/Pools/Kept.antt =====
-- src/server/pool-service.ts: the operations on pools, one by one, against the invariant.
use wireguard_panel.Base.{
  ℕ, ◌≤◌, ◌≡◌, refl, ap, subst, inl, inr, Bool, true, false, ◌&&◌, List, [], ◌∷◌, map, Option, none,
  some, ok, >>=-eq-ok, ok_inj, arith, Bool-cases, ◌==◌, any, find, All, find-any,
}
use wireguard_panel.Base.Text.{Text}
use wireguard_panel.Pools.Rows.{
  WireGuardPool, PoolAddress, PoolPeer, Tables, insert_address_or_skip,
}
use wireguard_panel.Pools.Manage.{
  client_number, is_between, Attached, peer_entry, attach_selected, attach_peer,
  attach_existing_peers, router_entry, enter_pool, replace_pool, is_in_the_way, is_occupied_outside,
}
use wireguard_panel.Pools.Invariant.{
  clash, Disjoint, covers, IsPlaced, IsConsistent, AreKept, insert_address_or_skip-AreKept,
}

-- The pool's own row covers every address of its range.
abbrev pub Covered : List WireGuardPool → WireGuardPool → Type 0
Covered pools pool =
    (a : PoolAddress)
    → a.pool_id ≡ pool.id
    → pool.start_ip ≤ a.ip_address
    → a.ip_address ≤ pool.end_ip
    → any (covers a) pools ≡ true

module _ (inet : Text → Option ℕ) (pools : List WireGuardPool) (pool : WireGuardPool)
    (covered : Covered pools pool) where
  attach_selected-AreKept :
      (peer : PoolPeer) (number : Option ℕ) (addresses : List PoolAddress)
      (one : PoolPeer × List PoolAddress)
      → is_between pool.start_ip pool.end_ip number ≡ true
      → AreKept pools addresses
      → attach_selected pool peer number addresses ≡ ok one
      → AreKept pools one.1
  unfolding attach_selected
  attach_selected-AreKept peer none addresses one b h e = absurd (ground arith)
  attach_selected-AreKept peer (some v) addresses one b h e =
      let (more, inserted, made) =
        >>=-eq-ok (insert_address_or_skip (peer_entry pool peer (some v)) addresses) _ e in
      subst (AreKept pools) (ap (λ p. p.1) (ok_inj made)) (
        insert_address_or_skip-AreKept pools (peer_entry pool peer (some v)) addresses more h
          (covered (peer_entry pool peer (some v)) refl (ground arith) (ground arith)) inserted)

  attach_peer-AreKept :
      (peer : PoolPeer) (addresses : List PoolAddress) (one : PoolPeer × List PoolAddress)
      → AreKept pools addresses
      → attach_peer inet pool peer addresses ≡ ok one
      → AreKept pools one.1
  unfolding attach_peer
  attach_peer-AreKept peer addresses one h e =
      elim (Bool-cases
        (peer.router_id == pool.router_id && peer.interface_id == pool.interface_id)) [
          | inr other ↦ subst (AreKept pools) (ap (λ p. p.1) (ok_inj (rw other at e))) h
          | inl chosen ↦
              let (number, read, e') =
                >>=-eq-ok (client_number inet peer.client_ip) _ (rw chosen at e) in
              elim (Bool-cases (is_between pool.start_ip pool.end_ip number)) [
                | inl b ↦ attach_selected-AreKept peer number addresses one b h (rw b at e')
                | inr b ↦ subst (AreKept pools) (ap (λ p. p.1) (ok_inj (rw b at e'))) h
              ]
        ]

  pub attach_existing_peers-AreKept :
      (peers : List PoolPeer) (addresses : List PoolAddress) (r : Attached)
      → AreKept pools addresses
      → attach_existing_peers inet pool peers addresses ≡ ok r
      → AreKept pools r.addresses
  unfolding attach_existing_peers
  attach_existing_peers-AreKept [] addresses r h e =
      subst (λ r. AreKept pools r.addresses) (ok_inj e) h
  attach_existing_peers-AreKept (peer ∷ peers) addresses r h e =
      let (one, first, e') = >>=-eq-ok (attach_peer inet pool peer addresses) _ e in
      let (rest, more, made) = >>=-eq-ok (attach_existing_peers inet pool peers one.1) _ e' in
      subst (λ r. AreKept pools r.addresses) (ok_inj made)
        (attach_existing_peers-AreKept peers one.1 rest
          (attach_peer-AreKept peer addresses one h first) more)

  -- The last two steps of a creation and of an update.
  pub enter_pool-IsConsistent :
      (db db' : Tables)
      → db.pools ≡ pools
      → Disjoint pools
      → AreKept pools db.addresses
      → enter_pool inet pool db ≡ ok db'
      → IsConsistent db'
  unfolding enter_pool
  enter_pool-IsConsistent db db' same d h e =
      let (addresses, inserted, e') =
        >>=-eq-ok (insert_address_or_skip (router_entry pool) db.addresses) _ e in
      let (attached, done, made) =
        >>=-eq-ok (attach_existing_peers inet pool db.peers addresses) _ e' in
      let kept =
        attach_existing_peers-AreKept db.peers addresses attached
          (insert_address_or_skip-AreKept pools (router_entry pool) db.addresses addresses h refl
            inserted)
          done in
      subst IsConsistent (ok_inj made)
        (record { unique = kept.unique; disjoint = rw same d; placed = rw same kept.placed })

-- One more pool, or one replaced, still covers what was covered.
pub IsPlaced-cons :
    (p : WireGuardPool) (pools : List WireGuardPool) (addresses : List PoolAddress)
    → All (IsPlaced pools) addresses
    → All (IsPlaced (p ∷ pools)) addresses
IsPlaced-cons p pools [] h = tt
IsPlaced-cons p pools (a ∷ addresses) (h, k) = (ground arith, IsPlaced-cons p pools addresses k)

any-replace_pool :
    (pool : WireGuardPool) (pools : List WireGuardPool) (a : PoolAddress)
    → (a.pool_id == pool.id) ≡ false
    → any (covers a) (map (replace_pool pool) pools) ≡ any (covers a) pools
any-replace_pool pool [] a h = refl
any-replace_pool pool (p ∷ pools) a h = ground (arith, any-replace_pool pool pools a h)

-- What the search for an overlapping row leaves when it finds none.
pub find-eq-none {ℓ} :
    {A : Type ℓ} (q : A → Bool) (xs : List A) → find q xs ≡ none → any q xs ≡ false
find-eq-none q xs h = elim (find-any q xs) [ inl (e, _) ↦ e | inr (a, _, f, _) ↦ cc ]

module _ (pool : WireGuardPool) where
  abbrev in_the_way : WireGuardPool → Bool
  in_the_way = is_in_the_way pool.router_id pool.start_ip pool.end_ip (some pool.id)

  clash-replace_pool_ne :
      (p : WireGuardPool) (xs : List WireGuardPool)
      → any (clash p) xs ≡ false
      → clash p pool ≡ false
      → any (clash p) (map (replace_pool pool) xs) ≡ false
  clash-replace_pool_ne p [] h k = refl
  clash-replace_pool_ne p (q ∷ xs) h k = ground (arith, clash-replace_pool_ne p xs)

  clash-replace_pool_self :
      (p : WireGuardPool) (xs : List WireGuardPool)
      → (p.id == pool.id) ≡ true
      → any (clash p) xs ≡ false
      → any in_the_way xs ≡ false
      → any (clash pool) (map (replace_pool pool) xs) ≡ false
  clash-replace_pool_self p [] e h k = refl
  clash-replace_pool_self p (q ∷ xs) e h k = ground (arith, clash-replace_pool_self p xs)

  pub Disjoint-replace_pool :
      (xs : List WireGuardPool)
      → any in_the_way xs ≡ false
      → Disjoint xs
      → Disjoint (map (replace_pool pool) xs)
  Disjoint-replace_pool [] k d = tt
  Disjoint-replace_pool (p ∷ xs) k (h, d) = elim (Bool-cases (p.id == pool.id)) [
    | inl e ↦
        rw e (
          clash-replace_pool_self p xs e h (ground arith),
          Disjoint-replace_pool xs (ground arith) d,
        )
    | inr e ↦
        rw e
          (clash-replace_pool_ne p xs h (ground arith), Disjoint-replace_pool xs (ground arith) d)
  ]

  pub Covered-replace_pool :
      (xs : List WireGuardPool)
      → any (λ p. p.id == pool.id) xs ≡ true
      → Covered (map (replace_pool pool) xs) pool
  Covered-replace_pool [] h a e lo hi = absurd (ground arith)
  Covered-replace_pool (p ∷ xs) h a e lo hi = elim (Bool-cases (p.id == pool.id)) [
    | inl s ↦ rw s (ground arith)
    | inr s ↦ rw s (let rest = Covered-replace_pool xs (ground arith) a e lo hi in ground arith)
  ]

  pub IsPlaced-replace_pool :
      (xs : List WireGuardPool) (addresses : List PoolAddress)
      → any (λ p. p.id == pool.id) xs ≡ true
      → any (is_occupied_outside pool.id pool.start_ip pool.end_ip) addresses ≡ false
      → All (IsPlaced xs) addresses
      → All (IsPlaced (map (replace_pool pool) xs)) addresses
  IsPlaced-replace_pool xs [] t h k = tt
  IsPlaced-replace_pool xs (a ∷ addresses) t h (k, ks) = (
    elim (Bool-cases (a.pool_id == pool.id)) [
      | inl e ↦ let inside = Covered-replace_pool xs t a in ground (arith, inside (ground arith))
      | inr e ↦ rw (any-replace_pool pool xs a e) k
    ],
    IsPlaced-replace_pool xs addresses t (ground arith) ks,
  )
