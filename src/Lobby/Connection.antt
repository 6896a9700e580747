-- ===== src/Lobby/Connection.antt =====
-- lsg.go: the login on a lobby connection, its confirmation, and HandleTCP.
pub mod Login
pub mod Requests
pub mod CleanUp
use codboz_nx_online.Base.{
  ℕ, zero, suc, ◌+◌, ◌*◌, ◌%◌, ◌^◌, Bool, true, false, not, ◌&&◌, ◌||◌, List, [], ◌∷◌, ◌++◌, ltb,
  leb, ◌==◌, if◌then◌else◌, Option, none, some, Result, ok, err, map_err,
}
use codboz_nx_online.Go.Binary.{le_bytes}
use codboz_nx_online.Go.Net.{NetText, NetAddr}
use codboz_nx_online.Go.Reading.{pure, raise, ◌>>=◌, ◌>>◌}
use codboz_nx_online.Go.Stream.{IoError, closed}
use codboz_nx_online.Bitdemon.ByteBuffer.{type_uint64}
use codboz_nx_online.Bitdemon.Crypto.{Primitives}
use codboz_nx_online.Bitdemon.Frame.{
  FrameError, TransportRecord, frame, keepalive, buffer_available, default_max_frame_body,
  read_transport_record,
}
use codboz_nx_online.Auth.Handler.{Tick, is_quiet, second}
use codboz_nx_online.Auth.LobbySession.{LobbySession, lookup_session, consume}
use codboz_nx_online.Auth.Store.{Account, lookup_user_id}
use codboz_nx_online.Lobby.Clients.{
  Lobby, LobbyClient, Progress, Step, LobbyError, record_limit, control_limit, invalid_identity,
  still_serving, login_failed, envelope_failed, deadline_failed, read_failed, write_frame, activate,
  deactivate, put_client,
}
use codboz_nx_online.Lobby.Envelope.{EncryptedRequest, all_zero, decrypt_request_body}
use codboz_nx_online.Lobby.Handler.{
  lift, require, found, get_progress, set_progress, lsg_connection_id_message, serve_request,
}
use codboz_nx_online.Lobby.Login.{LsgLogin, parse_lsg_login_body}
use codboz_nx_online.Lobby.MatchmakingStore.{delete_owner}

-- The numbers of HandlerConfig. A negative one is refused, and left out.
pub record LobbyConfig : Type 0 where
  pub max_records : ℕ
  pub max_provisional_control_records : ℕ
  pub read_timeout : ℕ
  pub write_timeout : ℕ
  pub proof_timeout : ℕ

-- The defaults DefaultMaxRecords, DefaultMaxProvisionalControlRecords, DefaultReadTimeout,
-- DefaultWriteTimeout and DefaultProofTimeout.
abbrev pub default_lobby_config : LobbyConfig
default_lobby_config = record {
  max_records = 0;
  max_provisional_control_records = 8;
  read_timeout = 120 * second;
  write_timeout = 5 * second;
  proof_timeout = 10 * second;
}

abbrev or_default : ℕ → ℕ → ℕ
or_default n default = if n == 0 then default else n

abbrev outside : ℕ → ℕ → ℕ → Bool
outside low high n = ltb n low || ltb high n

-- NewHandler's part for the numbers of its configuration.
unfoldable pub new_lobby_config : LobbyConfig → Option LobbyConfig
new_lobby_config config =
    let controls =
      or_default config.max_provisional_control_records
        default_lobby_config.max_provisional_control_records in
    let read = or_default config.read_timeout default_lobby_config.read_timeout in
    let write = or_default config.write_timeout default_lobby_config.write_timeout in
    let proof = or_default config.proof_timeout default_lobby_config.proof_timeout in
    if ltb 1_000_000 config.max_records
    then none
    else if outside 1 1024 controls
    then none
    else if outside second (60 * second) write
    then none
    else if outside (5 * second) (600 * second) read
    then none
    else if outside 10_000_000 (60 * second) proof
    then none
    else some (record {
      max_records = config.max_records;
      max_provisional_control_records = controls;
      read_timeout = read;
      write_timeout = write;
      proof_timeout = proof;
    })

abbrev next_number : ℕ → ℕ
next_number n = (n + 1) % 2 ^ 64

-- The check of a round that may end the loop: `recordIndex >= MaxRecords`, where 0 is no limit.
abbrev out_of_records : ℕ → ℕ → Bool
out_of_records max_records index = not (max_records == 0) && leb max_records index

module _ {W : Type 0} where
  abbrev peer_of : ℕ → Lobby W → NetAddr
  peer_of me s = (s.clients me).connection.peer

  unfoldable pub look_up_session : NetText → ℕ → ℕ → ℕ → Step W (Option (LobbySession × ℕ))
  look_up_session text me seed now s =
      let (out, sessions) = lookup_session text seed (peer_of me s) now s.sessions in
      (ok out, record s { sessions = sessions })

  unfoldable pub look_up_account : ℕ → Step W (Option Account)
  look_up_account user_id s = (ok (lookup_user_id user_id s.accounts), s)

  -- The client's fields, and the number of the connection, which is never 0.
  unfoldable pub adopt : ℕ → LobbySession → Account → Step W ℕ
  adopt me session account s =
      let id = next_number s.next_id in
      let id' = if id == 0 then next_number id else id in
      let client = record (s.clients me) { account = account; session_key = session.session_key } in
      let progress = record s.progress { connection_id = id' } in
      (ok id', record (put_client me client s) { next_id = id'; progress = progress })

  unfoldable pub write_connection_id : ℕ → ℕ → Step W (Unit {0})
  unfolding write_frame
  write_connection_id me id =
      write_frame me (0 ∷ lsg_connection_id_message ∷ type_uint64 ∷ le_bytes 8 id)

  unfoldable pub logged_on : LobbySession → ℕ → Step W (Unit {0})
  logged_on session token = do
    progress ← get_progress
    set_progress
        (record progress { lobby_session = session; session_token = token; authenticated = true })

  unfoldable pub take_over : ℕ → LobbySession → ℕ → Account → Step W (Unit {0})
  unfolding adopt write_connection_id logged_on
  take_over me session token account = do
    id ← adopt me session account
    write_connection_id me id
    logged_on session token

  -- A login whose seed leads to a session.
  unfoldable pub admit : ℕ → LsgLogin → LobbySession → ℕ → Step W (Unit {0})
  unfolding look_up_account take_over
  admit me login session token = do
    require (session.title_id == login.title_id) invalid_identity
    holder ← look_up_account session.user_id
    account ← found holder
    require (account.account_hash == session.account_hash) invalid_identity
    take_over me session token account

  -- The frame of a connection that has not logged in.
  unfoldable pub log_in : NetText → ℕ → ℕ → List ℕ → Step W (Unit {0})
  unfolding look_up_session admit
  log_in text me now body = do
    login ← lift (map_err login_failed (parse_lsg_login_body body))
    require (all_zero login.auth_blob) invalid_identity
    known ← look_up_session text me login.ticket_seed now
    entry ← found known
    admit me login entry.0 entry.1

  unfoldable pub consume_session : NetText → ℕ → ℕ → Progress → Step W (Option LobbySession)
  consume_session text me now progress s =
      let (out, sessions) =
        consume text progress.lobby_session.ticket_seed progress.session_token (peer_of me s) now
          s.sessions in
      (ok out, record s { sessions = sessions })

  unfoldable pub activated : ℕ → Step W (Unit {0})
  unfolding activate
  activated me s = (ok tt, activate me s)

  unfoldable pub spend_ticket : NetText → ℕ → ℕ → Progress → Step W (Unit {0})
  unfolding consume_session activated
  spend_ticket text me now progress = do
    out ← consume_session text me now progress
    confirmed ← found out
    set_progress (record progress { lobby_session = confirmed; session_confirmed = true })
    activated me

  -- The first request that is decrypted consumes the session's ticket.
  unfoldable pub confirm : NetText → ℕ → ℕ → Progress → Step W (Unit {0})
  unfolding spend_ticket
  confirm text me now progress =
      if progress.session_confirmed then pure tt else spend_ticket text me now progress

  -- The frame of a connection that has logged in.
  unfoldable pub handle_request :
      Primitives → NetText → ℕ → ℕ → List ℕ → Progress → Step W (Unit {0})
  unfolding confirm serve_request
  handle_request p text me now body progress = do
    request ←
        lift
          (map_err envelope_failed (decrypt_request_body p body progress.lobby_session.session_key))
    confirm text me now progress
    serve_request p me progress.connection_id progress.transaction_id request

  -- A record that carries no message counts until the session is confirmed.
  unfoldable pub count_control : ℕ → Step W (Unit {0})
  count_control limit s =
      let progress = s.progress in
      let counted = progress.provisional_control_records + 1 in
      let s' = record s { progress = record progress { provisional_control_records = counted } } in
      if progress.authenticated && not progress.session_confirmed
      then (if ltb limit counted then (err control_limit, s') else (ok tt, s'))
      else (ok tt, s)

  unfoldable pub handle_frame : Primitives → NetText → ℕ → ℕ → List ℕ → Step W (Unit {0})
  unfolding log_in handle_request
  handle_frame p text me now body s =
      let requests = handle_request p text me now body s.progress s in
      let logs_in = log_in text me now body s in
      if s.progress.authenticated then requests else logs_in

  unfoldable pub handle_record :
      Primitives → NetText → ℕ → ℕ → ℕ → TransportRecord → Step W (Unit {0})
  unfolding count_control handle_frame write_frame
  handle_record p text me limit now keepalive = count_control limit >> write_frame me []
  handle_record p text me limit now (buffer_available value) = count_control limit
  handle_record p text me limit now (frame body) = handle_frame p text me now body

  unfoldable pub read_record : Step W (Result FrameError TransportRecord)
  read_record s =
      let (out, incoming) = read_transport_record default_max_frame_body s.incoming in
      (ok out, record s { incoming = incoming })

  unfoldable pub after_read :
      Primitives
      → NetText
      → ℕ
      → ℕ
      → Tick
      → Step W (Unit {0})
      → Result FrameError TransportRecord
      → Step W (Unit {0})
  unfolding handle_record
  after_read p text me limit tick next (err e) =
      if tick.cancelled_reading || is_quiet e then pure tt else raise (read_failed e)
  after_read p text me limit tick next (ok received) =
      handle_record p text me limit tick.now received >> next

  -- What SetReadDeadline answers.
  abbrev deadline_set : Option IoError → Step W (Unit {0}) → Step W (Unit {0})
  deadline_set none next = next
  deadline_set (some closed) next = pure tt
  deadline_set (some e) next = raise (deadline_failed e)

  -- The loop over the records from `index` on, with fuel for the rounds.
  unfoldable pub serve_records :
      Primitives
      → NetText
      → ℕ
      → ℕ
      → ℕ
      → (ℕ → Tick)
      → (ℕ → Option IoError)
      → ℕ
      → ℕ
      → Step W (Unit {0})
  unfolding read_record after_read
  serve_records p text me max_records limit ticks deadlines zero index = raise still_serving
  serve_records p text me max_records limit ticks deadlines (suc fuel) index =
      let next = serve_records p text me max_records limit ticks deadlines fuel (index + 1) in
      let round = read_record >>= after_read p text me limit (ticks index) next in
      if out_of_records max_records index
      then raise record_limit
      else if (ticks index).cancelled
      then pure tt
      else deadline_set (deadlines index) round

  -- The deferred function.
  unfoldable pub clean_up : ℕ → Lobby W → Lobby W
  unfolding deactivate
  clean_up me s =
      let s' = deactivate me s in
      if s.progress.connection_id == 0
      then s'
      else record s' { matches = delete_owner s.progress.connection_id s'.matches }

  -- HandleTCP.
  unfoldable pub handle_tcp :
      Primitives → NetText → ℕ → ℕ → ℕ → (ℕ → Tick) → (ℕ → Option IoError) → ℕ → Step W (Unit {0})
  unfolding serve_records clean_up
  handle_tcp p text me max_records limit ticks deadlines fuel s =
      let (out, s') = serve_records p text me max_records limit ticks deadlines fuel 0 s in
      (out, clean_up me s')
