-- ===== src/Tests/Connections.antt =====
-- The handlers of authentication and lobby connections at concrete inputs.
use codboz_nx_online.Base.{
  ℕ, ◌≡◌, refl, ap, sym, true, false, List, [], ◌∷◌, ◌++◌, replicate, length, take-length,
  if◌then◌else◌, ◌==◌, arith, ok, err, none, some, Result,
}
use codboz_nx_online.Go.Stream.{Stream, eof, timeout, read_full}
use codboz_nx_online.Bitdemon.Frame.Write.{IoWriter}
use codboz_nx_online.Auth.AccountForMmp.Requests.{
  request_body, requested, parse_account_for_mmp_body-request_body,
}
use codboz_nx_online.Auth.Handler.{
  Connection, World, HandlerError, deadline_failed, handle_account_for_mmp, new_session,
}
use codboz_nx_online.Auth.Handler.Reservations.{Kept}
use codboz_nx_online.Auth.Handler.Rollback.{handle_account_for_mmp_rolls_back}
use codboz_nx_online.Auth.LobbySession.{
  LobbySession, empty_store, new_session_store, lookup_session, reserve, purge_expired_locked,
  lobby_peer_identity,
}
use codboz_nx_online.Auth.LobbySession.Invariant.{Inv, new-Inv}
use codboz_nx_online.Auth.Store.{Account, AccountStore, lookup_hash}
use codboz_nx_online.Auth.Store
use codboz_nx_online.Auth.AccountForMmp.{
  parse_account_for_mmp_body, build_encrypted_auth_ticket, marshal_account_for_mmp_success_body,
}
use codboz_nx_online.Bitdemon.Crypto.{encrypt_3des_cbc}
use codboz_nx_online.Go.Binary.{le_value, le_bytes}
use codboz_nx_online.Go.Counter.{count}
use codboz_nx_online.Go.Map.{lookup, insert}
use codboz_nx_online.Go.Net.{addr_from_slice, unmap}
use codboz_nx_online.Base.{ℕ_discrete}
use codboz_nx_online.Auth.AccountForMmp.{auth_ticket_plaintext}
use codboz_nx_online.Auth.LobbySession.{PendingSession, consume}
use codboz_nx_online.Auth.LobbySession.Tickets.{Spent}
use codboz_nx_online.Auth.Store.{lookup_user_id}
use codboz_nx_online.Bitdemon.ByteBuffer.Writer.{
  new_byte_writer, write_raw, write_uint8, write_uint32, write_uint64,
}
use codboz_nx_online.Bitdemon.Crypto.{truncated_hmac_sha1}
use codboz_nx_online.Bitdemon.Frame.Write.{write_frame, write_all, write_all_loop, write_round}
use codboz_nx_online.Go.Discrete.{bytes_discrete}
use codboz_nx_online.Lobby.Clients.{
  Lobby, LobbyClient, LobbyError, Progress, lookup_client, account_hash_of, activate, deactivate,
}
use codboz_nx_online.Lobby.Connection.{log_in, handle_request, clean_up, write_connection_id}
use codboz_nx_online.Lobby.Connection.CleanUp.{unless_client, clean_up_lem, activate_takes_over}
use codboz_nx_online.Lobby.Connection.Login.{Admitted, Joined, log_in_sound}
use codboz_nx_online.Lobby.Connection.Requests.{handle_request_spends}
use codboz_nx_online.Lobby.Envelope.{
  EncryptedRequest, all_zero, decrypt_request_body, marshal_clear_task_reply_body,
  valid_client_request_padding,
}
use codboz_nx_online.Lobby.Envelope.Seal.{sealed_body, decrypt_request_body-sealed_body}
use codboz_nx_online.Lobby.EventLog.{parse_event_log_request, marshal_task_reply}
use codboz_nx_online.Lobby.EventLog.Requests as EventLog
use codboz_nx_online.Lobby.EventLog.Requests.{
  logged as logged_event, parse_event_log_request-request_bytes,
}
use codboz_nx_online.Lobby.Handler.{serve_request, serve_event_log, reply}
use codboz_nx_online.Lobby.Login.{LsgLogin, parse_lsg_login_body}
use codboz_nx_online.Lobby.Login.Requests.{login_body, logged_in, parse_lsg_login_body-login_body}
use codboz_nx_online.Lobby.MatchmakingStore
use codboz_nx_online.Lobby.MatchmakingStore.{
  MatchmakingStore, StoredSession, find_id, new_matchmaking_store, valid_stored_info, create,
}
use codboz_nx_online.Lobby.MatchmakingStore.Calls.{
  creates, run, step, run-new_matchmaking_store-Inv,
}
use codboz_nx_online.Go.Bytes.{index_byte}
use codboz_nx_online.Go.Counter.{increment}
use codboz_nx_online.Tests.Matchmaking.{hosting, ones, twos, bytes_source}
use codboz_nx_online.Lobby.MatchmakingStore.Owners.{unless_owned}
use codboz_nx_online.Router
use codboz_nx_online.Router.Routes.{
  Routed, keeps_alive, tells_available, control_bytes, handle_tcp_routes,
}
use codboz_nx_online.Tests.Bits.{are_bytes}
use codboz_nx_online.Tests.Bitdemon.{plain, plain-IsCbc, session_key}
use codboz_nx_online.Tests.Sessions.{plain_text, home}

-- A writer that takes all it is given.
abbrev eager_writer : IoWriter (List ℕ)
eager_writer = record {
  write = λ bytes w. (record { count = length bytes; failure = none }, w ++ bytes);
  sent = λ w. w;
  write_sends = λ bytes w e. ap (λ b. w ++ b) (sym (take-length bytes));
}

abbrev line : Connection (List ℕ)
line = record {
  io = eager_writer;
  peer = home;
  set_write_deadline = λ w. (none, w);
  deadline_silent = λ w. refl;
}

-- A connection on which no deadline can be set any more.
abbrev broken_line : Connection (List ℕ)
broken_line = record {
  io = eager_writer;
  peer = home;
  set_write_deadline = λ w. (some timeout, w);
  deadline_silent = λ w. refl;
}

abbrev player : Account
player = record {
  user_id = 5;
  username = b'b' ∷ b'o' ∷ b'z' ∷ [];
  password_hash = session_key;
  account_hash = 99;
}

abbrev accounts : AccountStore
accounts = record (Store.empty_store 4096 32 false) {
  next_user_id = 6;
  by_hash = (99, player) ∷ [];
  by_user_id = (5, player) ∷ [];
}

abbrev world : World (List ℕ)
world = record {
  accounts = accounts;
  sessions = empty_store 4096 4;
  random = record { pending = session_key ++ (70 ∷ 0 ∷ 0 ∷ 0 ∷ []); ending = eof };
  incoming = record { pending = []; ending = eof };
  outgoing = [];
}

no_sessions-Inv : Inv (empty_store 4096 4)
no_sessions-Inv = new-Inv 0 0 (empty_store 4096 4) (unfold new_session_store in refl)

abbrev refused : Result HandlerError (Unit {0}) × World (List ℕ)
refused = handle_account_for_mmp plain plain_text broken_line 1000 10 (request_body 70 99) world

asked : parse_account_for_mmp_body (request_body 70 99) ≡ ok (requested 70 99)
asked = parse_account_for_mmp_body-request_body 70 99 (omega arith) (omega arith)

refused_failed : refused ≡ (err (deadline_failed timeout), refused.1)
unfolding handle_account_for_mmp lookup_hash lookup reserve lobby_peer_identity addr_from_slice
    unmap insert count purge_expired_locked read_full build_encrypted_auth_ticket
    marshal_account_for_mmp_success_body encrypt_3des_cbc le_value ℕ_discrete le_bytes
refused_failed = rw asked refl

handle_account_for_mmp_rolls_back_example : Kept world.sessions refused.1.sessions
handle_account_for_mmp_rolls_back_example =
    handle_account_for_mmp_rolls_back plain plain_text broken_line 1000 10 (request_body 70 99)
      world refused.1 (deadline_failed timeout) no_sessions-Inv refused_failed

abbrev served : Result HandlerError (Unit {0}) × World (List ℕ)
served = handle_account_for_mmp plain plain_text line 1000 10 (request_body 70 99) world

abbrev ticket_bytes : List ℕ
ticket_bytes = auth_ticket_plaintext player session_key 10 1010

-- The state of the lobby with that session.
abbrev idle : Progress
idle = record {
  authenticated = false;
  session_confirmed = false;
  lobby_session = new_session player session_key 1010 70;
  session_token = 1;
  connection_id = 0;
  transaction_id = 0;
  provisional_control_records = 0;
}

abbrev client : LobbyClient (List ℕ)
client = record {
  connection = line;
  outgoing = [];
  closed = false;
  account = player;
  session_key = session_key;
  next_server_seed = 0;
}

abbrev ticket : PendingSession
ticket = record {
  session = new_session player session_key 1010 70;
  peer = 10 ∷ 0 ∷ 0 ∷ 1 ∷ [];
  token = 1;
}

-- The client 2 is active for the player's account.
abbrev lobby : Lobby (List ℕ)
lobby = record {
  accounts = accounts;
  sessions = record (empty_store 4096 4) {
    by_seed = (70, ticket) ∷ [];
    sessions_by_account = (5, 1) ∷ [];
  };
  matches = MatchmakingStore.empty_store 4096 4;
  by_account = (99, 2) ∷ [];
  clients = λ id. client;
  next_id = 0;
  random = record { pending = []; ending = eof };
  incoming = record { pending = []; ending = eof };
  progress = idle;
}

abbrev blank : List ℕ
blank = replicate 128 0

abbrev logged : Result LobbyError (Unit {0}) × Lobby (List ℕ)
logged = log_in plain_text 1 20 (login_body 70 blank) lobby

login_read : parse_lsg_login_body (login_body 70 blank) ≡ ok (logged_in 70 blank)
login_read = parse_lsg_login_body-login_body 70 blank (omega arith) (are_bytes blank refl) refl

logged_done : logged ≡ (ok tt, logged.1)
unfolding log_in lookup_session lookup lobby_peer_identity addr_from_slice unmap ℕ_discrete
    bytes_discrete all_zero lookup_user_id write_frame le_bytes write_connection_id
logged_done = rw login_read refl

log_in_sound_example :
    (login : LsgLogin) × (session : LobbySession) × (token : ℕ) × (account : Account)
    × (parse_lsg_login_body (login_body 70 blank) ≡ ok login)
    × (all_zero login.auth_blob ≡ true)
    × ((lookup_session plain_text login.ticket_seed home 20 lobby.sessions).0
        ≡ some (session, token))
    × Admitted login session account lobby
    × Joined session token logged.1
log_in_sound_example = log_in_sound plain_text 1 20 (login_body 70 blank) lobby logged.1 logged_done

abbrev event : List ℕ
event = EventLog.request_bytes (1 ∷ 2 ∷ []) 3 (0 ∷ 9 ∷ 9 ∷ 9 ∷ [])

abbrev event_body : List ℕ
event_body = sealed_body plain session_key 9 0x43 event

event_opened :
    decrypt_request_body plain event_body session_key
    ≡ ok (record { seed = 9; service = 0x43; payload = event })
unfolding truncated_hmac_sha1 le_bytes
event_opened =
    decrypt_request_body-sealed_body plain session_key 9 0x43 event plain-IsCbc refl (omega arith)
      refl refl

event_read : parse_event_log_request event 9 ≡ ok (logged_event (1 ∷ 2 ∷ []) 3)
unfolding valid_client_request_padding
event_read =
    parse_event_log_request-request_bytes (1 ∷ 2 ∷ []) 3 9 (0 ∷ 9 ∷ 9 ∷ 9 ∷ []) (omega arith)
      (omega arith) refl

abbrev requests : Result LobbyError (Unit {0}) × Lobby (List ℕ)
requests = handle_request plain plain_text 1 20 event_body idle lobby

requests_done : requests ≡ (ok tt, requests.1)
unfolding handle_request consume lookup insert lobby_peer_identity addr_from_slice unmap ℕ_discrete
    bytes_discrete activate serve_request serve_event_log marshal_task_reply
    marshal_clear_task_reply_body reply write_frame write_all write_all_loop write_round le_bytes
    new_byte_writer write_raw write_uint64 write_uint32 write_uint8
requests_done = rw (event_opened, event_read) refl

handle_request_spends_example :
    (request : EncryptedRequest) × (session : LobbySession) × (pending : PendingSession)
    × (decrypt_request_body plain event_body session_key ≡ ok request)
    × Spent plain_text 70 1 home 20 lobby.sessions session requests.1.sessions pending
handle_request_spends_example =
    handle_request_spends plain_text 1 20 plain event_body idle lobby requests.1 refl requests_done

other_found : lookup_client 99 lobby ≡ some 2
unfolding lookup_client lookup ℕ_discrete
other_found = refl

-- The connections 1 and 6 have one match each, and the client 1 is active for the player's account.
abbrev matches_of_two : MatchmakingStore
matches_of_two =
    run (MatchmakingStore.empty_store 4096 4)
      ((1, creates hosting (bytes_source ones)) ∷ (6, creates hosting (bytes_source twos)) ∷ [])

matches_of_two-Inv : MatchmakingStore.Invariant.Inv matches_of_two
unfolding new_matchmaking_store
matches_of_two-Inv =
    run-new_matchmaking_store-Inv 0 0 (MatchmakingStore.empty_store 4096 4)
      ((1, creates hosting (bytes_source ones)) ∷ (6, creates hosting (bytes_source twos)) ∷ [])
      refl

abbrev numbered : Lobby (List ℕ)
numbered = record lobby {
  progress = record idle { connection_id = 1 };
  matches = matches_of_two;
  by_account = (99, 1) ∷ [];
}

clean_up_lem_example :
    (find_id ones (clean_up 1 numbered).matches.by_id
      ≡ unless_owned 1 (find_id ones matches_of_two.by_id))
    × (lookup_client 99 (clean_up 1 numbered) ≡ (
        if 99 == account_hash_of 1 numbered
        then unless_client 1 (lookup_client 99 numbered)
        else lookup_client 99 numbered))
clean_up_lem_example = clean_up_lem 1 numbered ones 99 matches_of_two-Inv

-- Nothing is left of the client and its match.
clean_up_run :
    (unless_owned 1 (find_id ones matches_of_two.by_id) ≡ none)
    × (unless_client 1 (lookup_client 99 numbered) ≡ none)
unfolding run step create lookup insert valid_stored_info count read_full all_zero bytes_discrete
    index_byte increment lookup_client ℕ_discrete
clean_up_run = (refl, refl)

activate_takes_over_example :
    (((activate 1 lobby).clients 2).closed ≡ true)
    × (lookup_client 99 (activate 1 lobby) ≡ some 1)
    × (lookup_client 99 (deactivate 2 (activate 1 lobby)) ≡ some 1)
activate_takes_over_example = activate_takes_over 1 2 lobby (omega arith) other_found

-- A keepalive, a buffer announcement, and then a login of four bytes.
abbrev first_bytes : Stream
first_bytes = record {
  pending =
      control_bytes (keeps_alive ∷ tells_available 9 ∷ [])
      ++ (le_bytes 4 4 ++ ((0 ∷ 7 ∷ 1 ∷ 2 ∷ []) ++ 5 ∷ []));
  ending = eof;
}

handle_tcp_routes_example : Routed 7 (Router.handle_tcp first_bytes)
handle_tcp_routes_example =
    handle_tcp_routes (keeps_alive ∷ tells_available 9 ∷ []) 7 (1 ∷ 2 ∷ []) (5 ∷ []) first_bytes
      refl (omega arith) (omega arith) (omega arith)
