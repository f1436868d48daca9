-- ===== src/Lib.antt =====
-- wire-mesh, an application-neutral peer-mesh protocol: its capability tokens, its handshake, its
-- election of a coordinator, its replicated logs with the hub's mailbox, its framing of byte streams
-- and its cache of verdicts, as the TypeScript package ts/packages/core implements them.
--
-- A token names a capability and a scope and is signed by an issuer. It may narrow a parent token,
-- or be authorised by a grant-capability. A verifier walks from the token to the root of its chain,
-- asking its revocation view and the predicate evaluator on the way. The election decides, from
-- gossiped claims alone, which device holds the coordinator role. Each device appends to a log of
-- its own, which other devices copy by the frames have, request and entries; a hub's mailbox holds
-- logs for devices that are away, within bounds. Frames travel over byte streams behind a length. A
-- room is a path that names its owner or the two devices of a direct message, and a token over that
-- path is what admits a device to it. Devices that cannot reach one another pair up at a relay hub,
-- which forwards what they seal for each other on a secure channel. Content in bulk is sent in
-- numbered chunks within the receiver's credit, and a transfer that was cut off resumes from what
-- the receiver stored.
--
--   Prelude     shared names: tests, lists, verdicts with fuel, strings as code units
--   Scope       ts/packages/core/src/domain/token-scope.ts: bytesEqual, pathNarrows, scopeNarrows
--   DeviceId    ts/packages/core/src/domain/device-id.ts: hex texts of ids
--   Claims      ts/packages/core/src/generated/protocol.ts: the records that tokens carry
--   Trilean     the evaluator of the package trilean, as a parameter with its documented laws
--   Narrowing   ts/packages/core/src/domain/token-predicates.ts: evaluateNarrowing
--   Conditions  ts/packages/core/src/domain/token-predicates.ts: evaluateConditions, noSelfGrantBar
--   Token       ts/packages/core/src/domain/tokens.ts: verifyCapabilityToken, verifyTokenChain and
--               revocationEntryGrantsRevoke
--   Revocation  ts/packages/core/src/domain/tokens.ts: verifyRevocationEntry,
--               mintRevocationEntry, and
--               ts/packages/core/src/domain/revocation-view.ts
--   Mint        ts/packages/core/src/domain/tokens.ts: mintCapabilityToken, canGrant, canGrantVia
--   Election    ts/packages/core/src/domain/coordinator-election.ts: the class CoordinatorElection
--   Handshake   ts/packages/core/src/domain/handshake.ts: negotiate
--   NonceStore  ts/packages/core/src/adapters/memory-nonce-store.ts: createMemoryNonceStore
--   Storage     ts/packages/core/src/ports/storage.ts as an interface, and the adapter
--               ts/packages/core/src/adapters/memory-storage.ts that fills it
--   DataSync    ts/packages/core/src/domain/data-sync.ts: appending, handlers, reading
--   Mailbox     ts/packages/core/src/domain/hub-mailbox.ts: createMailbox over the handlers of DataSync
--   VerdictCache
--               ts/packages/core/src/domain/verdict-cache.ts: createVerdictCache, bytesKey
--   Streams     ts/packages/core/src/adapters/byte-stream-connection.ts, and the readers and writers of
--               ts/packages/core/src/adapters/tcp-transport.ts and tls-transport.ts
--   RoomPath    ts/packages/core/src/domain/room-path.ts: making and parsing paths, slugs
--   RoomToken   ts/packages/core/src/domain/room-token-verification.ts: verifyRoomToken, on Token
--   GrantCandidates
--               ts/packages/core/src/domain/grant-candidates.ts: findGrantCandidate
--   PingRoundTrips
--               ts/packages/core/src/domain/ping-round-trips.ts: pings paired with pongs, first in,
--               first out
--   PeerAdvert  ts/packages/core/src/domain/peer-advert.ts: verification, and
--               ts/packages/core/src/domain/advert-extension-policy.ts: checkAdvertExtensions
--   RelayHub    ts/packages/core/src/domain/relay-hub.ts: the hub's state, handleFrame, serve, export and
--               restore, with the mailbox as a parameter that Mailbox fits
--   SecureChannel
--               ts/packages/core/src/domain/secure-channel.ts: the handshake, sealing and opening
--   RelayChannels
--               ts/packages/core/src/domain/relay-channels.ts: the channels of a session, their
--               handshakes under way and what becomes of them, and in RelayChannels.Pairings
--               ts/packages/core/src/domain/relay-pairing.ts
--   Bulk        ts/packages/core/src/domain/bulk.ts: the receiver of bulk transfers and the source that reads
--               them back, and in Bulk.Sender the sender's stream and handlers
--   Tests       runs, and the theorems at concrete inputs
--
-- Outside the model, as parameters: signatures and hashes (IdentityPort), the clock, the revocation
-- view, the CBOR codec with the schemas, the platform's cryptography, and trilean. The clock stands
-- still and the view does not change during one verification. Numbers are the non-negative integers
-- that the schemas admit. The counter of a secure channel is kept as the `number` it is: adding
-- one leaves 2 ^ 53 as it is.
--
-- Asynchronous code: storage operations are run one after another, and a data frame or a bulk frame
-- is handled whole before the next. A cache's computations settle in any order, as steps of their
-- own. A chunk of a stream is read when it arrives; what consumes the frames does not matter to the
-- reader. A ping is on the wire, or has failed to be, before the next event; pongs and timers come
-- in any order. The hub handles a frame whole before the next, and a send that fails is an outcome
-- of the handler. A session's channels put their hellos on the wire, and come to the end of a
-- handshake, in steps that any call may precede; a promise is a number, with what it settled to.
--
-- Fuel: each nested verification takes one unit, and none is left only where the program would run
-- on. The walk to the root is bounded by the program itself, at 64 links; the verification of a
-- revocation's authorization is a new walk, which nothing in the program bounds.
--
-- A transfer that is read back takes one unit of fuel for each chunk, and one to see that it is
-- done. A bulk sender's stream is a function of the acks that its waits are given, which end where
-- the connection does.
--
-- A loop over buffered bytes takes at least one byte a round, so their number bounds its rounds.
--
-- Not modelled: the mesh session, one closure over sockets, timers and signing, of which the parts
-- above that it hands frames to are modelled and its demultiplexing and its pairing of responses
-- with requests are not; and what works around it: room notices and keys, requests for capabilities,
-- gossip expansion and topology. Shards and erasure coding, which nothing above calls
-- and which need a theory of matrices over a finite field. The builders of bulk commands, which
-- change nothing. Threshold networks, sockets, listeners, TLS and the cryptography, which are code
-- of the platform or of a WebAssembly build; the web console, a user interface; and the second
-- implementation in Rust.
mod Prelude
pub mod Scope
pub mod DeviceId
pub mod Claims
pub mod Trilean
pub mod Narrowing
pub mod Conditions
pub mod Token
pub mod Election
pub mod GrantCandidates
pub mod Handshake
pub mod NonceStore
pub mod SecureChannel
pub mod Storage
pub mod DataSync
pub mod Mailbox
pub mod VerdictCache
pub mod Streams
pub mod PeerAdvert
pub mod PingRoundTrips
pub mod Bulk
pub mod RelayChannels
pub mod RelayHub
pub mod RoomPath
pub mod RoomToken
pub mod Mint
pub mod Revocation
mod Tests
