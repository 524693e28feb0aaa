-- ===== src/Lib.antt =====
-- A verification library for pherry, a remote terminal whose hosts and controllers meet at a blind
-- relay. It models the relay's core (packages/relay-core), the secure channel (packages/channel),
-- the host's session and its byte ring (packages/host), the controller's stream of events
-- (packages/sdk), of the protocol the PTY frame and its payloads, the version check and the
-- negotiation of capabilities, and of the control plane (apps/control-plane) the in-process store,
-- the rate limit, the relay tickets and the login of a command line.
--
-- A host holds a control connection to a relay cell and proves its static key there. A controller
-- presents a ticket on a connection of its own; the cell tells the host, which dials in with the
-- ticket and a MAC, and the cell splices both connections into a pipe of opaque bytes.
--
-- The files and the code:
--   Relay/OuterFrame   packages/relay-core/src/outer-frame.ts: OuterFrameReader (push, next,
--                      drain_remaining) and encode_outer_payload. Reader and Framing below it hold
--                      the lemmas on the reader's content and on single frames.
--   Relay/Connection   the same file's OuterConnection (send, close, on_raw, to_raw, receive).
--                      The message handler, which may throw, and the error handler are functions on
--                      the connection, and `decodes` says which payloads the message schemas take. Framed and
--                      Switch prove what a stream of chunks gives.
--   Relay/HostProof    packages/relay-core/src/host-proof.ts, over a record of the primitives of
--                      @noble (X25519, HKDF, HMAC), of which nothing is assumed but what a theorem
--                      names. Secrets are not wiped.
--   Relay/Cell         packages/relay-core/src/cell.ts. State holds the records (Conn,
--                      PendingBridge, Bridge, and CellImpl as Cell), refuse, detach and cleanup;
--                      Registration has beginRegistration and onProof; Bridging has
--                      beginControllerBridge, markTicketUsed, onBridgeTimeout, completeHostDial and
--                      splice; Events has dispatch, classify, drain and close, and the events.
--                      Invariant and the files below it carry the invariant through every event;
--                      Safety, Tickets and Admission hold the theorems.
--   Channel            packages/channel/src/frame.ts, record.ts and, of keys.ts, the comparison and
--                      decodeKey. Each direction's Sealer and Opener are states; the AEAD and the hash
--                      of @noble are a record of functions, and a theorem names what it takes the AEAD
--                      to do. Record/Stream has the streams of records, Record/Delivery their delivery
--                      in any order. ByteQueue below it is byte-queue.ts, with chunks as arrays or as views of
--                      the backing buffer; Handshake is handshake.ts and kdf.ts.
--   Channel/SecureChannel           packages/channel/src/channel.ts: send, close and shutdown; Receive
--                      below it has receive, the loop of drain and the completion of the handshake.
--                      The callbacks are lists of sends and closes for each frame. Sound, Rounds and
--                      Reached hold the theorems.
--   Host/Ring          packages/host/src/session/ring.ts: ByteRing.
--   Host/Session       packages/host/src/session/session.ts: the state, subscribe, broadcast and the
--                      snapshot's frames; Control below it has write, resize, the viewers' sizes,
--                      dispose, the backend's events and the resumption of a subscriber. Events lists
--                      the operations and events, Viewer is a terminal that follows the frames of a
--                      sink, and Screen, Recovery and Authority hold the theorems. The emulator of
--                      mirror.ts is a record of functions (Mirror), with its promises as Repaints.
--   Sdk/Events         packages/sdk/src/events.ts: PtyEventStream. Order and Reassembly hold the
--                      theorems, the second on the frames that Host/Session emits; Settled has the
--                      pulls that were answered.
--   Protocol/PtyFrame  protocol/src/pty-frame.ts: encodePtyFrame and decodePtyFrame. PtyPayloads,
--                      Version and Capabilities beside it are pty-payloads.ts, version.ts and
--                      capabilities.ts.
--   ControlPlane/Redis apps/control-plane/src/redis.ts: MemoryRedis, with the clock's time as an
--                      argument. Timed is the abstract store: a map from keys to values at each time.
--   ControlPlane/RateLimit          services/rate-limit.ts, over that store.
--   ControlPlane/RelayCoordination  services/relay-coordination.ts: issueTicket, consumeTicket and the
--                      authorizer. JSON with its schema, the hash and base64 are the record Services.
--   ControlPlane/CliAuth            services/cli-auth.ts: a command line's login, over that store. An
--                      exchange goes from one await to the next (exchange_step), so that any order of
--                      the steps of many exchanges is a schedule; a start and an approval run whole.
--   Base               shared: Boolean tests, lists, bytes, and JavaScript's Map and Set as
--                      association lists in insertion order.
--
-- The cell is a state and `step` one event of its world: a connection arrives, a chunk with whole
-- messages or an error comes in, raw bytes come in, a peer closes, the authorizer answers or
-- fails, a timer fires, or the relay drains or closes. An async method is two events, the second
-- with the authorizer's answer, so any order of other events can come between them. A connection
-- is a number by which records name it where the source holds a reference; hosts, tickets and
-- timer handles are numbers, since the code only compares them. `run` takes any list of events.
--
-- A session's subscriber keeps the frames that its sink was handed, and what its transport answers
-- to `writable` is an argument of each operation, so any transport is covered. A frame stands for
-- its encoding, a viewer's symbol and a ticket's text are numbers.
--
-- Fuel: the receive loop of Relay/Connection has one round more than there are buffered bytes. A
-- round that goes on takes a frame, which has four bytes or more. The loop that splits a snapshot
-- has the length of the body, of which each round takes a byte or more. The loop of a channel's
-- drain has one round more than there are buffered bytes, of which a record takes four or more.
-- All else is structural recursion.
--
-- Not modelled: message schemas, base64 and JSON, the in-memory duplex pair, the wiping of
-- secrets, sockets, the channel's signal of writability, the rest of the host, of the protocol and
-- of the SDK, the command line, the rest of the control plane, the dashboard and the iOS
-- application.
pub mod Base
pub mod Protocol
pub mod Channel
pub mod Host
pub mod Relay
pub mod ControlPlane
pub mod Sdk
