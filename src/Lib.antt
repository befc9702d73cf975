-- ===== src/Lib.antt =====
-- Huginn messenger: a peer-to-peer messenger that keeps its state in SQLite, cuts messages into
-- signed and sealed envelopes, and copies its history to the other devices of its user.
--
-- Store (internal/store): the database is a record of tables, a table the list of its rows.
--   Store/Sql.antt         the statements, by primary key; Sql/Laws, Unique and Query: their laws
--   Store/Clock.antt       time.Time and time.Duration, whose product wraps around at 64 bits
--   Store/Rows.antt        the rows, the keys, and the database (migrations/sqlite/*.sql, sqlite.go)
--   Store/Chunks.antt      chunkStore.go, chunkExpiry.go
--   Store/Pending.antt     pendingChunkStore.go, outgoingStore.go
--   Store/Track.antt       trackStore.go
--   Store/Messages.antt    messageStore.go
--   Store/Groups.antt      groupChatStore.go
--   Store/Peers.antt       peerStore.go
--   Store/Config.antt      configStore.go
--   Store/Downloads.antt   fileDownloadStore.go
--   Store/Sync.antt        stateSyncStore.go
--   Store/Replication.antt replicationStore.go
--   Store/Migration.antt   migration.go
--   Store/Op.antt          the writing methods as one type; Store/Invariant.antt and
--                          Store/History.antt: what they preserve
-- A method takes its reading of the clock as an argument, and gives the new database, or an error
-- and no database: a transaction that fails, or a statement, changes nothing. The mutex makes the
-- methods atomic. Failures of the disk are not modelled, but for the import of a synchronisation:
-- which of its transactions SQLite refuses is an argument.
--
-- Crypto.antt and Chunk.antt (internal/crypto/crypto.go, internal/chunk/chunk.go): what the code
-- calls of aes, cipher, curve25519, ed25519, sha256, base64, json and fmt is one record of
-- functions, Primitives, and what is used of their documentation another, IsLawful. Random bytes
-- are arguments. The two splitting functions share one loop, and so do the two assembling ones.
--
-- Messenger (internal/messenger):
--   Messenger/Cleanup.antt    chunkCleanupLoop of chunks.go, which calls four methods of the store
--   Messenger/Chunks.antt     handleChunkStore, handleChunkGet (chunks.go) and storeChunkBatch
--                             (internal/webrtc/chunk_ack.go)
--   Messenger/StateSync.antt  the receiving side of state_replication.go: the maps that stateSyncMu
--                             guards, the handlers as functions from state to state, and what they
--                             ask for (jobs, acknowledgements, downloads) as a list of effects.
--                             StateSync/Send.antt: the sending side of that file; which of the
--                             sends succeed is an argument. StateSync/Send/CatchUp.antt:
--                             both sides together
--   Messenger/Peers.antt      peers.go: the map of known peers; Peer of internal/muninn/client.go
--   Messenger/Session.antt    the state that the handlers of messages and files share, and what
--                             they read: keys, answers of the directory, codecs, the clock
--   Messenger/Fetch.antt      the requests for chunks of chunks.go
--   Messenger/Files.antt      processReceivedFile and its parts (messenger.go, downloads.go)
--   Messenger/Inbox.antt      the poll of the directory and the retries (messages.go, chunks.go);
--                             Inbox/Collect.antt: collectAndProcessMessage; Collect/Deliver.antt:
--                             from its envelopes to the history, checkInviteText of groups.go
--   Messenger/Outgoing.antt   prepareOutgoing, prepareFileChunks and pendingEnvelopes (outgoing.go)
--   Messenger/Delivery.antt   chunk_delivery.go: chunks for one or many recipients go to peers in
--                             batches; deliverOutgoing (outgoing.go), getOnlinePeers (peers.go);
--                             Delivery/Location.antt: registerChunkLocation
--   Messenger/EndToEnd.antt   from prepareOutgoing on one device to the history of another
-- Calls of the network, jobs, and what subscribers get are lists of effects. The handlers run one
-- after the other: the interleavings that the locks allow are not modelled. A Go map that is ranged
-- over is the list of its entries, in one of the orders that Go allows.
-- A transfer that two goroutines share has an address, which the pointer comparison reads.
--
-- Examples: test data, tests, and each theorem at concrete inputs.
--
-- Integers that may be negative are integers; counts and times are natural numbers. Loops are
-- structural: over the rows, the chunks, or the number of rounds that is left. No fuel is needed.
--
-- Not modelled: the HTTP and WebSocket client of the directory service (internal/muninn), the glue
-- around the WebRTC library (the rest of internal/webrtc), the bindings (bridge.go) and the rest of
-- the messenger: signals, relogin, start-up and shutdown. LIKE, gzip, JSON and the scripts of the
-- migrations are parameters.
pub mod Prelude
pub mod Crypto
pub mod Chunk
pub mod Store
pub mod Messenger
pub mod Examples
