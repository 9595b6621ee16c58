-- ===== src/Lib.antt =====
-- Verification library of YSync, a collaborative text editor: clients edit a document through a
-- replicated growable array (RGA), send its ops over a WebSocket to a server process, and the
-- processes exchange them over pub/sub and store them.
--
-- The parts, and the files that model them:
--   Crdt: packages/crdt/src. OpId is opId.ts, Op is op.ts, Node is node.ts. Rga, View, Editing and
--     Snapshot are the class Rga of rga.ts: delivery (apply, integrate, bufferOn, takeBuffered,
--     applyFormatOp), what is shown (read, getContentsForEditor), local edits (localInsert,
--     localDelete, localFormat) and snapshots (toSnapshot, fromSnapshot, compactTombstones). The linked
--     list is a list of nodes in document order, a reference to a node is its id, and nodesById is a
--     search of the list. A snapshot is what it holds when it is taken; Snapshot.Sharing has what a
--     snapshot that is held in memory takes on through the clock that it shares with the node.
--   Protocol: packages/protocol/src. Protocol has the types of the messages, Json their JSON, Zod what
--     the library zod is taken to do, and Schemas the schemas of messages.ts, op.ts, rgaSnapshot.ts
--     and the parser of parse.ts.
--   Server: apps/server/src. Seq is seq/InMemorySeqAllocator.ts, its child Contract the interface
--     SeqAllocator.ts and Redis RedisSeqAllocator.ts; Presence is presence/InMemoryPresenceStore.ts,
--     its child Contract PresenceStore.ts and Redis RedisPresenceStore.ts; Persistence is
--     persistence/InMemoryPersistenceStore.ts, its child Rows the rows and Prisma the calls of
--     PrismaPersistenceStore.ts; PubSub is pubsub/InMemoryPubSubBus.ts and its child Redis
--     RedisPubSubBus.ts; Room is room.ts, RoomManager is roomManager.ts, Dispatch is server.ts, and
--     Config is config.ts, the allowlist of index.ts and the summary of op ids of logger.ts. A room
--     applies ops to its replica and logs them; the manager numbers, broadcasts, publishes and stores
--     them; the dispatch routes the messages of the sockets.
--   Web: apps/web/src. DeltaToEdits is lib/deltaToEdits.ts, DocumentClient is lib/documentClient.ts,
--     Db is lib/db.ts, and Editor is the cursors and the event handlers of components/Editor.tsx.
--   Common: lists, maps and strings of JavaScript. Tests: the theorems at concrete inputs.
-- In each part, a file names what it defines; the files below it hold what is proved of it.
--
-- State is passed explicitly. A call that throws returns none or false. The calls of the manager take
-- a record that says which store calls fail, so that a theorem about a call covers every failure. What is
-- sent to sockets, published or closed is kept in order in the state. Numbers are natural numbers
-- without a bound, as the code stays below 2^53; strings are lists of UTF-16 code units.
--
-- The loop of Rga.apply runs on fuel that counts the inserts that may still be integrated. One more
-- than the number of buffered ops is enough, since every insert that is integrated leaves the
-- buffer or is the op that was given.
--
-- Libraries are parameters: a record of the calls that the code makes, any of which may fail, and a
-- record of laws that state what the library documents (Prisma.Tables for the database,
-- Seq.Redis, Presence.Redis.Commands and PubSub.Redis for Redis, Protocol.Zod for zod, Web.Db.Reloads
-- for IndexedDB). The tests instantiate each with functions. The interfaces of the stores are records
-- of the same kind (Seq.Contract, Presence.Contract), which both implementations fill.
--
-- Not modelled: the text of JSON; HTTP, logging and timers other than as events; React and Quill, with
-- what Editor.tsx does to set them up and to bring remote changes into Quill; and the pages. A handler
-- of the manager runs to its end without another in between, except that setting a room is a step of
-- its own. Where processes share a Redis, or tabs an IndexedDB, each request is a step of its own
-- (Server.Presence.Redis.Interleaving, Server.Seq.Contract, Web.Db.Reloads).
pub mod Common
pub mod Crdt
pub mod Protocol
pub mod Server
pub mod Tests
pub mod Web
