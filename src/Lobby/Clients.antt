-- ===== src/Lobby/Clients.antt =====
-- internal/online/lobby/client.go, and what the lobby's handler works on. A client is an object that
-- its own connection and the senders of messages share: it has a number, under which the world
-- holds its present state.
use codboz_nx_online.Base.{
  ℕ, ◌+◌, ◌%◌, ◌^◌, Bool, true, false, List, ◌==◌, if◌then◌else◌, Option, none, some, Result, ok,
  err, ℕ_discrete,
}
use codboz_nx_online.Go.Map.{Map, lookup, insert, delete}
use codboz_nx_online.Go.Reading.{Reading}
use codboz_nx_online.Go.Stream.{IoError, Stream}
use codboz_nx_online.Bitdemon.Frame.{FrameError}
use codboz_nx_online.Bitdemon.Frame.Write.{WriteResult, done, stuck, refused, failed}
use codboz_nx_online.Bitdemon.Frame.Write
use codboz_nx_online.Auth.Handler.{Connection}
use codboz_nx_online.Auth.LobbySession.{SessionStore, LobbySession}
use codboz_nx_online.Auth.Store.{AccountStore, Account}
use codboz_nx_online.Lobby.Envelope.{EnvelopeError}
use codboz_nx_online.Lobby.EventLog.{EventLogError}
use codboz_nx_online.Lobby.Login.{LoginError}
use codboz_nx_online.Lobby.Matchmaking.{MatchmakingError}
use codboz_nx_online.Lobby.MatchmakingStore.{MatchmakingStore, StoreError}
use codboz_nx_online.Lobby.Messaging.{MessagingError}

-- `unterminated` and `still_serving` are no Go values: a write, or the loop over the records, ran
-- out of fuel.
pub data LobbyError : Type 0 where
  record_limit control_limit unsupported_message invalid_identity unterminated still_serving :
      LobbyError
  login_failed : LoginError → LobbyError
  envelope_failed : EnvelopeError → LobbyError
  event_failed : EventLogError → LobbyError
  matchmaking_failed : MatchmakingError → LobbyError
  store_failed : StoreError → LobbyError
  messaging_failed : MessagingError → LobbyError
  deadline_failed write_failed : IoError → LobbyError
  write_refused read_failed : FrameError → LobbyError

-- lobbyClient, with what its connection was given to send and whether it was closed.
pub record LobbyClient (W : Type 0) : Type 0 where
  pub connection : Connection W
  pub outgoing : W
  pub closed : Bool
  pub account : Account
  pub session_key : List ℕ
  pub next_server_seed : ℕ

-- The variables of HandleTCP that its records change. The proof deadline is left out: it only
-- shortens the deadline of a read.
pub record Progress : Type 0 where
  pub authenticated : Bool
  pub session_confirmed : Bool
  pub lobby_session : LobbySession
  pub session_token : ℕ
  pub connection_id : ℕ
  pub transaction_id : ℕ
  pub provisional_control_records : ℕ

pub record Lobby (W : Type 0) : Type 0 where
  pub accounts : AccountStore
  pub sessions : SessionStore
  pub matches : MatchmakingStore
  pub by_account : Map ℕ ℕ
  pub clients : ℕ → LobbyClient W
  pub next_id : ℕ
  pub random : Stream
  pub incoming : Stream
  pub progress : Progress

abbrev pub Step : Type 0 → Type 0 → Type 0
Step W A = Reading (Lobby W) LobbyError A

abbrev pub write_outcome : WriteResult → Result LobbyError (Unit {0})
write_outcome done = ok tt
write_outcome stuck = err unterminated
write_outcome (refused e) = err (write_refused e)
write_outcome (failed e) = err (write_failed e)

abbrev pub client_at : Map ℕ ℕ → ℕ → Option ℕ
client_at by_account hash = lookup ℕ_discrete hash by_account

abbrev pub is_client : ℕ → Option ℕ → Bool
is_client client none = false
is_client client (some other) = other == client

module _ {W : Type 0} where
  abbrev pub put_client : ℕ → LobbyClient W → Lobby W → Lobby W
  put_client id client s = record s { clients = λ j. if j == id then client else s.clients j }

  abbrev pub account_hash_of : ℕ → Lobby W → ℕ
  account_hash_of id s = (s.clients id).account.account_hash

  abbrev pub after_deadline :
      ℕ → List ℕ → Option IoError → Lobby W → Result LobbyError (Unit {0}) × Lobby W
  after_deadline id body (some e) s = (err (deadline_failed e), s)
  after_deadline id body none s =
      let client = s.clients id in
      let (out, w) = Write.write_frame client.connection.io body client.outgoing in
      (write_outcome out, put_client id (record client { outgoing = w }) s)

  -- writeFrame of the client.
  unfoldable pub write_frame : ℕ → List ℕ → Step W (Unit {0})
  write_frame id body s =
      let client = s.clients id in
      let (e, w) = client.connection.set_write_deadline client.outgoing in
      after_deadline id body e (put_client id (record client { outgoing = w }) s)

  unfoldable pub server_seed : ℕ → Step W ℕ
  server_seed id s =
      let client = s.clients id in
      (
        ok client.next_server_seed,
        put_client id (record client { next_server_seed = (client.next_server_seed + 1) % 2 ^ 32 })
            s,
      )

  unfoldable pub close_connection : ℕ → Lobby W → Lobby W
  close_connection id s = put_client id (record (s.clients id) { closed = true }) s

  abbrev pub close_previous : ℕ → Option ℕ → Lobby W → Lobby W
  close_previous id none s = s
  close_previous id (some previous) s = if previous == id then s else close_connection previous s

  -- activate: the client that had the account is closed.
  unfoldable pub activate : ℕ → Lobby W → Lobby W
  unfolding close_connection
  activate id s =
      let hash = account_hash_of id s in
      close_previous id (client_at s.by_account hash)
        (record s { by_account = insert ℕ_discrete hash id s.by_account })

  unfoldable pub deactivate : ℕ → Lobby W → Lobby W
  deactivate id s =
      let hash = account_hash_of id s in
      if is_client id (client_at s.by_account hash)
      then record s { by_account = delete ℕ_discrete hash s.by_account }
      else s

  -- lookup.
  unfoldable pub lookup_client : ℕ → Lobby W → Option ℕ
  lookup_client hash s = client_at s.by_account hash
