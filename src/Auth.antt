-- ===== src/Auth.antt =====
-- internal/online/auth: accounts, tickets and the sessions that wait for their lobby connection.
pub mod LobbySession
pub mod Store
pub mod Messages
pub mod CreateAccount
pub mod AccountForMmp
pub mod Handler
