-- ===== src/Peers/Archived.antt =====
-- src/server/peer-service.ts, lines 223 to 233: what the archive keeps of a peer.
use mathlib.Core.List.{Perm}
use mathlib.Core.List.Perm
use wireguard_panel.Base.{
  ℕ, ◌≡◌, ◌≤◌, refl, List, [], ◌∷◌, map, keep, find, All, arith, Bool-cases, inl, inr, ◌==◌, leb,
}
use wireguard_panel.Traffic.Rows.{Archive}
use wireguard_panel.Pools.Rows.{PoolPeer}
use wireguard_panel.Peers.World.{
  ArchivedPeer, PeerRecord, World, insert_period, history_of, archived,
}

-- The periods that belong to a peer, in the order of the table.
abbrev pub periods_of : ℕ → List (ℕ × Archive) → List Archive
periods_of id history =
    map (λ (entry : ℕ × Archive). entry.1) (keep (λ (entry : ℕ × Archive). entry.0 == id) history)

-- The periods start one after the other.
abbrev pub InOrder : List Archive → Type 0
InOrder [] = Unit {0}
InOrder (a ∷ periods) = All (λ (b : Archive). a.started_at ≤ b.started_at) periods × InOrder periods

-- The row of the archive has the peer's columns, those of its address, and its periods in order.
pub record IsArchived (row : PeerRecord) (w : World) (a : ArchivedPeer) : Type 0 where
  pub peer_id : a.peer_id ≡ row.id
  pub address : a.address ≡ find (λ (p : PoolPeer). p.id == row.id) w.tables.peers
  pub description : a.description ≡ row.client.description
  pub created_at : a.created_at ≡ row.created_at
  pub lifetime_rx : a.lifetime_rx_bytes ≡ row.lifetime_rx_bytes
  pub lifetime_tx : a.lifetime_tx_bytes ≡ row.lifetime_tx_bytes
  pub periods : Perm a.quota_history (periods_of row.id w.history)
  pub in_order : InOrder a.quota_history

insert_period-perm :
    (a : Archive) (periods : List Archive) → Perm (insert_period a periods) (a ∷ periods)
unfolding insert_period
insert_period-perm a [] = Perm.refl (a ∷ [])
insert_period-perm a (b ∷ periods) = elim (Bool-cases (leb a.started_at b.started_at)) [
  | inl e ↦ rw e (Perm.refl (a ∷ b ∷ periods))
  | inr e ↦ rw e (Perm.trans (Perm.cons b (insert_period-perm a periods)) (Perm.swap a b periods))
]

history_of-perm :
    (id : ℕ) (history : List (ℕ × Archive)) → Perm (history_of id history) (periods_of id history)
unfolding history_of
history_of-perm id [] = Perm.refl []
history_of-perm id ((owner, a) ∷ history) = elim (Bool-cases (owner == id)) [
  | inl e ↦ rw e (
      Perm.trans (insert_period-perm a (history_of id history))
        (Perm.cons a (history_of-perm id history)))
  | inr e ↦ rw e (history_of-perm id history)
]

abbrev StartsBy : ℕ → List Archive → Type 0
StartsBy n = All (λ (b : Archive). n ≤ b.started_at)

StartsBy-le : (m n : ℕ) (periods : List Archive) → m ≤ n → StartsBy n periods → StartsBy m periods
StartsBy-le m n [] le h = tt
StartsBy-le m n (b ∷ periods) le (h, hs) = (omega arith, StartsBy-le m n periods le hs)

insert_period-StartsBy :
    (n : ℕ) (a : Archive) (periods : List Archive)
    → n ≤ a.started_at
    → StartsBy n periods
    → StartsBy n (insert_period a periods)
unfolding insert_period
insert_period-StartsBy n a [] le h = (le, tt)
insert_period-StartsBy n a (b ∷ periods) le (h, hs) =
    elim (Bool-cases (leb a.started_at b.started_at)) [
      | inl e ↦ rw e (le, (h, hs))
      | inr e ↦ rw e (h, insert_period-StartsBy n a periods le hs)
    ]

insert_period-InOrder :
    (a : Archive) (periods : List Archive) → InOrder periods → InOrder (insert_period a periods)
unfolding insert_period
insert_period-InOrder a [] h = (tt, tt)
insert_period-InOrder a (b ∷ periods) (h, hs) = elim (Bool-cases (leb a.started_at b.started_at)) [
  | inl e ↦
      let le : a.started_at ≤ b.started_at = ground (arith, e) in
      rw e ((le, StartsBy-le _ _ periods le h), (h, hs))
  | inr e ↦
      let ge : b.started_at ≤ a.started_at = ground (arith, e) in
      rw e (insert_period-StartsBy b.started_at a periods ge h, insert_period-InOrder a periods hs)
]

history_of-InOrder : (id : ℕ) (history : List (ℕ × Archive)) → InOrder (history_of id history)
unfolding history_of
history_of-InOrder id [] = tt
history_of-InOrder id ((owner, a) ∷ history) = elim (Bool-cases (owner == id)) [
  | inl e ↦ rw e (insert_period-InOrder a (history_of id history) (history_of-InOrder id history))
  | inr e ↦ rw e (history_of-InOrder id history)
]

pub archived-IsArchived :
    (row : PeerRecord) (w : World) → IsArchived row w (archived row w.tables.peers w.history)
archived-IsArchived row w = record {
  peer_id = refl;
  address = refl;
  description = refl;
  created_at = refl;
  lifetime_rx = refl;
  lifetime_tx = refl;
  periods = history_of-perm row.id w.history;
  in_order = history_of-InOrder row.id w.history;
}
