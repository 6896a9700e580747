-- ===== src/Lib.antt =====
-- The online server of cod-boz-online, which speaks the BitDemon protocol of the game to the
-- console: an authentication service and a lobby service on one TCP port, and a STUN responder on
-- UDP. The services read frames from a connection, take typed values out of them, and keep their
-- state in stores that all connections share.
--
-- The files, by the code they model:
-- - Base and Go: the shared vocabulary, and the parts of Go that the code is written in: maps,
--   counting maps, fixed-width integers and their bytes, strings of bytes, readers of a stream,
--   addresses.
-- - Bitdemon: internal/online/bitdemon. ByteBuffer is bytebuffer.go (ByteWriter and ByteReader),
--   BitBuffer is bitbuffer.go (BitWriter and BitReader), Frame is frame.go, Tiger is tiger.go and the
--   decoded tables of tiger_tables.go, Crypto is crypto.go.
-- - Lobby: internal/online/lobby. Envelope is envelope.go, EventLog is eventlog.go, Messaging is
--   messaging.go, Matchmaking is matchmaking.go with its parsers in Requests, MatchmakingStore is
--   matchmaking_store.go, Clients is client.go. lsg.go is in three: Login is ParseLSGLoginBody, Handler
--   is what a request does (handleMatchmaking, deliverGlobalInstantMessage), Connection is NewHandler
--   and HandleTCP with its deferred function.
-- - Auth: internal/online/auth. LobbySession is lobby_session.go, Store is store.go, with what its
--   state file answers as an argument, CreateAccount and AccountForMmp are create_account.go and
--   account_for_mmp.go, Messages is what the two share, Handler is handler.go.
-- - Router: internal/online/backend/router.go.
-- - Server: internal/online/server. config.go, and of server.go the admission and release of
--   connections; Admission has the server with its running handlers as a step relation.
-- - Stun: internal/online/stun. Stun itself is ParseBindingRequest of binding.go, Responses the response
--   of binding.go and responder.go.
-- - Tests: published digests, and each theorem at a concrete input.
--
-- How the code is written here. A byte is a natural number, a uintN keeps its wrap-around as a
-- remainder by 2 ^ N, a string is the list of its bytes. A method of a store runs under the store's
-- lock, so it is one function from the store to a result and the store after it; a history of calls is
-- a list of such steps. A reader's method returns its result and the reader after it, in the error
-- case too; a handler's step does the same with the stores, the connection and the random source, and
-- other connections act between its steps. A map is an association list, searched by its first entry with a key; a loop over it goes
-- in the order of the list. An error is a value of the component's own error type, without the text
-- that is put around it.
--
-- Bounds and fuel. The loop of writeAll takes as much fuel as there are bytes to write, since a write
-- that reports fewer than one byte ends it. The loop that draws session identifiers takes the 16
-- attempts that the code counts, and so does the one that draws ticket seeds. The loop of the
-- authentication handler takes the records that its configuration allows. The loop of the lobby handler
-- may have no such limit: it is given fuel, and says so where the fuel is used up. Every other loop
-- follows a list.
--
-- Parameters. Triple DES in CBC mode and HMAC-SHA1, the texts of network addresses and the writer of
-- a connection are records of functions, with what the theorems use of them as their laws. A random
-- source is the list of bytes that it will deliver and the error behind them.
--
-- Not modelled: the account state file, and the server's loops and shutdown. Of the handlers, the
-- instants of deadlines and the log. The command, the deployment scripts, JSON and the file system are
-- outside the development.
pub mod Base
pub mod Go
pub mod Bitdemon
pub mod Lobby
pub mod Auth
pub mod Router
pub mod Server
pub mod Stun
pub mod Tests
