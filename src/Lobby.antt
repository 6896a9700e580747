-- ===== src/Lobby.antt =====
-- internal/online/lobby: the lobby protocol and matchmaking.
pub mod Envelope
pub mod EventLog
pub mod Login
pub mod Matchmaking
pub mod Messaging
pub mod MatchmakingStore
pub mod Clients
pub mod Handler
pub mod Connection
