-- ===== src/Peers/Logic.antt =====
-- What a handler of a peer ends with, by the parts that it is composed of.
use wireguard_panel.Base.{
  ℕ, ◌+◌, ◌≡◌, refl, ◌∙◌, Bool, true, false, not, List, [], ◌∷◌, Result, ok, err, any, keep, arith,
}
use wireguard_panel.Routeros.Types.{RemoteWireGuardPeer, RemoteSimpleQueue}
use wireguard_panel.Peers.World.{
  Answer, works, refused, lost, World, Failure, Handler, and_then, rethrown, check, answered, call,
  unchanged, get_peers, get_simple_queues, without_queue,
}
use wireguard_panel.Peers.Handlers.{is_owned, delete_queues, delete_owned_peer_queue_remote}

abbrev pub HoldsAt {ℓ} :
    {A : Type ℓ} → (A → World → Type 0) → (World → Type 0) → Result Failure A × World → Type 0
HoldsAt P E (ok a, w) = P a w
HoldsAt P E (err e, w) = E w

-- The result satisfies `P`, and an error leaves the world in `E`.
pub record Ends {A : Type 0} (P : A → World → Type 0) (E : World → Type 0)
    (r : Result Failure A × World) : Type 0 where
  pub ends : HoldsAt P E r

pub and_then-Ends :
    {A B : Type 0} {Q : A → World → Type 0} {P : B → World → Type 0} {E : World → Type 0}
    {f : A → Handler B} (r : Result Failure A × World)
    → Ends Q E r
    → ((a : A) (w : World) → Q a w → Ends P E (f a w))
    → Ends P E (and_then f r)
unfolding and_then
and_then-Ends (ok a, w) h k = k a w h.ends
and_then-Ends (err e, w) h k = record { ends = h.ends }

pub Ends-weaken :
    {A : Type 0} {P Q : A → World → Type 0} {E F : World → Type 0} {r : Result Failure A × World}
    → Ends P E r
    → ((a : A) (w : World) → P a w → Q a w)
    → ((w : World) → E w → F w)
    → Ends Q F r
Ends-weaken {r = (ok a, w)} h p e = record { ends = p a w h.ends }
Ends-weaken {r = (err x, w)} h p e = record { ends = e w h.ends }

pub rethrown-Ends :
    {A : Type 0} {P : A → World → Type 0} {E F : World → Type 0} (undo : World → World)
    (r : Result Failure A × World)
    → Ends P E r
    → ((w : World) → E w → F (undo w))
    → Ends P F (rethrown undo r)
unfolding rethrown
rethrown-Ends undo (ok a, w) h k = record { ends = h.ends }
rethrown-Ends undo (err e, w) h k = record { ends = k w h.ends }

answered-Ends :
    {P : Unit {0} → World → Type 0} {E : World → Type 0} (a : Answer) (effect : World → World)
    (w : World)
    → P tt (effect w)
    → E w
    → E (effect w)
    → Ends P E (answered a effect w)
unfolding answered
answered-Ends works effect w p e f = record { ends = p }
answered-Ends refused effect w p e f = record { ends = e }
answered-Ends lost effect w p e f = record { ends = f }

abbrev pub counted : World → World
counted w = record w { calls = w.calls + 1 }

pub call-Ends :
    {P : Unit {0} → World → Type 0} {E : World → Type 0} (effect : World → World) (w : World)
    → P tt (effect (counted w))
    → E (counted w)
    → E (effect (counted w))
    → Ends P E (call effect w)
call-Ends effect w p e f = answered-Ends (w.answers w.calls) effect (counted w) p e f

pub check-Ends :
    {P : Unit {0} → World → Type 0} {E : World → Type 0} (b : Bool) (e : Failure) (w : World)
    → (b ≡ true → P tt w)
    → E w
    → Ends P E (check b e w)
check-Ends true e w p x = record { ends = p refl }
check-Ends false e w p x = record { ends = x }

-- The database and the variables of the handler are as they were.
pub record SameRows (w w' : World) : Type 0 where
  pub now : w'.now ≡ w.now
  pub tables : w'.tables ≡ w.tables
  pub records : w'.records ≡ w.records
  pub archives : w'.archives ≡ w.archives
  pub history : w'.history ≡ w.history
  pub managed_objects : w'.managed_objects ≡ w.managed_objects
  pub operation : w'.operation ≡ w.operation
  pub remote_deleted : w'.remote_deleted ≡ w.remote_deleted
  pub staged : w'.staged ≡ w.staged
  pub created_id : w'.created_id ≡ w.created_id

pub SameRows-refl : (w : World) → SameRows w w
SameRows-refl w = record {
  now = refl;
  tables = refl;
  records = refl;
  archives = refl;
  history = refl;
  managed_objects = refl;
  operation = refl;
  remote_deleted = refl;
  staged = refl;
  created_id = refl;
}

pub SameRows-trans : {a b c : World} → SameRows a b → SameRows b c → SameRows a c
SameRows-trans h k = record {
  now = k.now ∙ h.now;
  tables = k.tables ∙ h.tables;
  records = k.records ∙ h.records;
  archives = k.archives ∙ h.archives;
  history = k.history ∙ h.history;
  managed_objects = k.managed_objects ∙ h.managed_objects;
  operation = k.operation ∙ h.operation;
  remote_deleted = k.remote_deleted ∙ h.remote_deleted;
  staged = k.staged ∙ h.staged;
  created_id = k.created_id ∙ h.created_id;
}

pub get_peers-Ends :
    {P : List RemoteWireGuardPeer → World → Type 0} {E : World → Type 0} (w : World)
    → P w.router_peers (counted w)
    → E (counted w)
    → Ends P E (get_peers w)
get_peers-Ends w p e =
    and_then-Ends (call unchanged w) (call-Ends {P = λ _ w'. w' ≡ counted w} unchanged w refl e e)
      (λ _ w' h. rw h (record { ends = p }))

pub get_simple_queues-Ends :
    {P : List RemoteSimpleQueue → World → Type 0} {E : World → Type 0} (w : World)
    → P w.queues (counted w)
    → E (counted w)
    → Ends P E (get_simple_queues w)
get_simple_queues-Ends w p e =
    and_then-Ends (call unchanged w) (call-Ends {P = λ _ w'. w' ≡ counted w} unchanged w refl e e)
      (λ _ w' h. rw h (record { ends = p }))

-- Neither the rows nor the peers of the router change.
pub record OnlyQueues (w w' : World) : Type 0 where
  pub rows : SameRows w w'
  pub router_peers : w'.router_peers ≡ w.router_peers

pub OnlyQueues-refl : (w : World) → OnlyQueues w w
OnlyQueues-refl w = record { rows = SameRows-refl w; router_peers = refl }

pub OnlyQueues-trans : {a b c : World} → OnlyQueues a b → OnlyQueues b c → OnlyQueues a c
OnlyQueues-trans h k = record {
  rows = SameRows-trans h.rows k.rows;
  router_peers = k.router_peers ∙ h.router_peers;
}

pub changed_queues :
    {w w' : World} (queues : List RemoteSimpleQueue) (calls : ℕ)
    → OnlyQueues w w'
    → OnlyQueues w (record w' { queues = queues; calls = calls })
changed_queues queues calls h = record {
  rows = record {
    now = h.rows.now;
    tables = h.rows.tables;
    records = h.rows.records;
    archives = h.rows.archives;
    history = h.rows.history;
    managed_objects = h.rows.managed_objects;
    operation = h.rows.operation;
    remote_deleted = h.rows.remote_deleted;
    staged = h.rows.staged;
    created_id = h.rows.created_id;
  };
  router_peers = h.router_peers;
}

delete_queues-Ends :
    (owned : List RemoteSimpleQueue) (w : World)
    → Ends (λ _ w'. OnlyQueues w w') (λ w'. OnlyQueues w w') (delete_queues owned w)
unfolding delete_queues
delete_queues-Ends [] w = record { ends = OnlyQueues-refl w }
delete_queues-Ends (q ∷ owned) w =
    and_then-Ends (call (without_queue q.id) w)
      (call-Ends {P = λ _ w'. OnlyQueues w w'} {E = λ w'. OnlyQueues w w'} (without_queue q.id) w
        (changed_queues _ _ (OnlyQueues-refl w)) (changed_queues _ _ (OnlyQueues-refl w))
        (changed_queues _ _ (OnlyQueues-refl w)))
      (λ _ w1 h1.
        Ends-weaken (delete_queues-Ends owned w1) (λ _ w2 h2. OnlyQueues-trans h1 h2)
          (λ w2 h2. OnlyQueues-trans h1 h2))

pub delete_owned_peer_queue_remote-Ends :
    (peer_id : ℕ) (w : World)
    → Ends
        (λ _ w'. OnlyQueues w w' × (any (is_owned peer_id) w'.queues ≡ false))
        (λ w'. OnlyQueues w w')
        (delete_owned_peer_queue_remote peer_id w)
unfolding delete_owned_peer_queue_remote
delete_owned_peer_queue_remote-Ends peer_id w =
    and_then-Ends (get_simple_queues w)
      (get_simple_queues-Ends {P = λ _ w'. OnlyQueues w w'} w
        (changed_queues _ _ (OnlyQueues-refl w)) (changed_queues _ _ (OnlyQueues-refl w)))
      (λ queues w1 h1.
        and_then-Ends (delete_queues (keep (is_owned peer_id) queues) w1)
          (Ends-weaken (delete_queues-Ends (keep (is_owned peer_id) queues) w1)
            (λ _ w2 h2. OnlyQueues-trans h1 h2) (λ w2 h2. OnlyQueues-trans h1 h2))
          (λ _ w2 h2.
            and_then-Ends (get_simple_queues w2)
              (get_simple_queues-Ends
                {P = λ remaining w'. OnlyQueues w w' × (remaining ≡ w'.queues)} w2
                (changed_queues _ _ h2, refl) (changed_queues _ _ h2))
              (λ remaining w3 h3.
                check-Ends (not (any (is_owned peer_id) remaining)) _ w3
                  (λ none_left. (h3.0, ground (arith, none_left, h3.1))) h3.0)))

-- A statement of the database runs, and the rest goes on.
pub and_then-ok :
    {A B : Type 0} {P : B → World → Type 0} {E : World → Type 0} (f : A → Handler B) {a : A}
    {w : World}
    → Ends P E (f a w)
    → Ends P E (and_then f (ok a, w))
unfolding and_then
and_then-ok f h = record { ends = h.ends }

pub counted-OnlyQueues : (w : World) → OnlyQueues w (counted w)
counted-OnlyQueues w = changed_queues _ _ (OnlyQueues-refl w)
