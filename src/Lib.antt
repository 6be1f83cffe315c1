-- ===== src/Lib.antt =====
-- A model of Wireguard-Panel, which manages the WireGuard peers of MikroTik routers, with the
-- theorems on its core: the life of a peer in the database and on its router, the addresses that it
-- is assigned, its traffic and its bandwidth, and the protocol that is spoken with a router.
--
-- The parts and their files (paths are the repository's):
--   Base: tests on numbers, lists, results as values of `throw` and `try`, integers in place of
--     `bigint`, texts as lists of character codes, and decimal numerals.
--   Ip: src/lib/ip-cidr.ts. Address (ipv4ToNumber, numberToIpv4, normalizeClientIp), Cidr
--     (parseIpv4Cidr, ipv4InCidr, cidrContainsIp, cidrsOverlap), Range (ipv4Range, rangesOverlap,
--     validatePoolRange, suggestPoolFromInterfaceAddress) and Allowed (allowedAddressOwnsIp,
--     parseAllowedAddresses). Allocation is src/server/ip-allocation.ts, which calls them.
--   Routeros: src/server/routeros/native-client.ts. Protocol has the encoding and decoding of words
--     and sentences, Exchange the attributes and the handler of one command, whose state is the
--     buffer, the records and the outcome.
--   Quota: src/server/quota.ts, counterDelta and quotaState.
--   Traffic: src/server/traffic-accounting.ts. Rows has the columns of a peer and its archived
--     periods, Observe is recordObservation, Enforce is enforceObservation and
--     setRemoteQuotaState, Polling the loop of pollRouterTraffic over the rows of a router.
--   Pools: src/server/pool-service.ts. Rows has the tables, Manage the operations on pools and
--     reservations, Choose the choice, claim and release of a peer's address, and Networks the
--     check against the router's networks. Free says what it means that nobody has an address: the
--     code compares spellings, so this is said of addresses in their dotted form.
--   Operations: src/server/operations.ts, the record of a management operation and its delays.
--   Peers: src/server/peer-service.ts, with src/server/operation-reconciler.ts (Reconcile) and
--     src/server/expiration.ts (Expiry). World has the database and the router as one state, and
--     the calls between them. Input, Create and Undo are createPeer with its clean-up; Handlers
--     has setPeerEnabled and deletePeer, Limits quotaConfiguration, Resets resetPeerQuotaUsage and
--     temporarilyReenablePeer, Keys regeneratePeerKeys, and Config getPeerConfig with
--     src/server/wireguard.ts. The other files of Peers are proofs; Archived says what a row of
--     peer_archives holds.
--   Bandwidth: src/server/bandwidth.ts (Rates, Queues) and src/server/bandwidth-service.ts: the
--     policy of a peer (Policy), what stands in its way (Conflicts, and Obstacles in plain terms),
--     its application (Apply) and its observation (Observe).
--   Access: src/lib/auth.ts, can, getSession, destroySession, requireUser and the limit on failed
--     logins (loginRateLimit, recordLoginFailure).
--   Users: src/server/user-service.ts, createManagedUser and updateManagedUser.
--   Status: src/server/status.ts, peerStatus, and src/server/reconciliation.ts, classifyPeerSync.
--   Tests: runs of the code at concrete inputs.
--
-- A poll reads the router's peers, and for each row records an observation, which takes the
-- counter differences of Quota, and then enforces the limit by calls of the router. The creation of
-- a peer chooses its address in a pool, stores the row, makes the peer on the router, and applies
-- its bandwidth; what a creation or a deletion leaves behind is the reconciler's, by the record of
-- the operation. A handler of Peers and Bandwidth is a function from the state to an answer and a
-- state; a call of the router works, is refused, or is lost: then it takes effect, and its answer
-- does not come back. In Traffic a call of the router works or fails without an effect.
--
-- Parameters of the model: the window of a quota period, the list of peers that a router gives,
-- what the router answers to each call, and what it makes of a queue and of a peer that it is asked
-- for; the hash of a token, the fingerprint of a remote peer and the digest of a queue; the new
-- identifier and keys of a peer, the cipher, the hash of a password, and the database's reading of an
-- address; the reconciliation of an update; the renewal of the images after a rotation of keys.
-- Times are milliseconds since the epoch in Traffic, Access and Status, and seconds in Operations
-- and Peers. A transaction that fails writes nothing, and the
-- statements of a transaction that succeeds are all done; a failure of the database itself is not
-- modelled.
--
-- Rounds: the loop of decodeSentence has one round more than there are bytes, and each round
-- passes one byte at least; the loop of onData likewise. The search of allocateClientIp has one
-- round for each address of the pool.
--
-- Not modelled: sockets, TLS, SQL and HTTP; authenticate and formatBytes; compareIpAddresses,
-- which falls back on the locale's comparison; toQuotaBytes and the window of a period; the update
-- of a peer; the images of a client's configuration; the details of a deletion that its archive row
-- carries; the unique names of an interface's pools; the synchronisation, the drifts, the check of
-- CSRF tokens and the settings; the loop over the routers of the bandwidth's observation; pages and
-- components.
pub mod Access
pub mod Base
pub mod Ip
pub mod Operations
pub mod Bandwidth
pub mod Peers
pub mod Pools
pub mod Quota
pub mod Routeros
pub mod Status
pub mod Tests
pub mod Traffic
pub mod Users
