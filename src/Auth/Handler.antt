-- ===== src/Auth/Handler.antt =====
-- internal/online/auth/handler.go. One connection is served from its bytes, which the handler reads
-- as a stream, and its writer; other connections use the stores between its requests, never within
-- a call of a store's method. The instants of the deadlines are left out, what setting one answers
-- is not.
pub mod Reservations
pub mod Rollback
pub mod Draws
pub mod Tickets
use codboz_nx_online.Base.{
  ℕ, zero, suc, ◌+◌, ◌*◌, ◌≡◌, Bool, true, false, not, ◌&&◌, ◌||◌, List, [], ◌∷◌, ltb, ◌==◌,
  if◌then◌else◌, length, get_or, Option, none, some, Result, ok, err, map_err,
}
use codboz_nx_online.Go.Binary.{le_value}
use codboz_nx_online.Go.Net.{NetAddr, NetText}
use codboz_nx_online.Go.Reading.{Reading, pure, raise, ◌>>=◌, ◌>>◌}
use codboz_nx_online.Go.Stream.{IoError, eof, unexpected_eof, timeout, closed, Stream, read_full}
use codboz_nx_online.Bitdemon.Crypto.{Primitives, session_key_size}
use codboz_nx_online.Bitdemon.Frame.{
  FrameError, io_failed, TransportRecord, frame, keepalive, buffer_available,
  default_max_frame_body, read_transport_record,
}
use codboz_nx_online.Bitdemon.Frame.Write.{IoWriter, WriteResult, done, stuck, refused, failed}
use codboz_nx_online.Bitdemon.Frame.Write
use codboz_nx_online.Auth.AccountForMmp.{
  AccountForMmpRequest, parse_account_for_mmp_body, marshal_account_for_mmp_error_body,
  marshal_account_for_mmp_success_body,
}
use codboz_nx_online.Auth.CreateAccount.{
  CreateAccountRequest, parse_create_account_body, marshal_create_account_reply_body,
}
use codboz_nx_online.Auth.LobbySession.{
  SessionStore, LobbySession, SessionError, seed_collision, boz_title_id, reserve, revoke,
}
use codboz_nx_online.Auth.Messages.{
  MessageError, message_create_account_request, message_account_for_mmp_request, status_no_error,
  status_bad_account, status_create_username_exists, status_create_max_accounts_exceeded,
}
use codboz_nx_online.Auth.Store.{
  AccountStore, Account, AccountError, account_limit, source_limit, register_from_peer, lookup_hash,
}

abbrev pub second : ℕ
second = 1_000_000_000

abbrev pub max_seed_attempts : ℕ
max_seed_attempts = 16

-- The numbers of HandlerConfig. A negative one is refused, and left out.
pub record HandlerConfig : Type 0 where
  pub max_records : ℕ
  pub handshake_timeout : ℕ
  pub write_timeout : ℕ
  pub session_life : ℕ

-- The defaults DefaultMaxRecords, DefaultHandshakeTimeout, DefaultWriteTimeout, DefaultSessionLife.
abbrev pub default_handler_config : HandlerConfig
default_handler_config = record {
  max_records = 16;
  handshake_timeout = 10 * second;
  write_timeout = 5 * second;
  session_life = 3600 * second;
}

-- `unterminated` is no Go value: it stands for a write that ran out of fuel.
pub data HandlerError : Type 0 where
  bad_config record_limit unsupported_message unterminated : HandlerError
  bad_message : MessageError → HandlerError
  account_failed : AccountError → HandlerError
  session_failed : SessionError → HandlerError
  random_failed deadline_failed write_failed : IoError → HandlerError
  write_refused read_failed : FrameError → HandlerError

abbrev or_default : ℕ → ℕ → ℕ
or_default n default = if n == 0 then default else n

abbrev outside : ℕ → ℕ → ℕ → Bool
outside low high n = ltb n low || ltb high n

-- NewHandler's part for the numbers of its configuration.
unfoldable pub new_handler_config : HandlerConfig → Result HandlerError HandlerConfig
new_handler_config config =
    let records = or_default config.max_records default_handler_config.max_records in
    let write = or_default config.write_timeout default_handler_config.write_timeout in
    let handshake = or_default config.handshake_timeout default_handler_config.handshake_timeout in
    let life = or_default config.session_life default_handler_config.session_life in
    if outside 1 1024 records
    then err bad_config
    else if outside second (60 * second) write
    then err bad_config
    else if outside second (300 * second) handshake
    then err bad_config
    else if outside (60 * second) (86_400 * second) life
    then err bad_config
    else ok (record {
      max_records = records;
      handshake_timeout = handshake;
      write_timeout = write;
      session_life = life;
    })

-- net.Conn's side of the writes: SetWriteDeadline sends nothing.
pub record Connection (W : Type 0) : Type 0 where
  pub io : IoWriter W
  pub peer : NetAddr
  pub set_write_deadline : W → Option IoError × W
  pub deadline_silent : (w : W) → io.sent (set_write_deadline w).1 ≡ io.sent w

-- The stores, the source of random bytes and the two directions of the connection.
pub record World (W : Type 0) : Type 0 where
  pub accounts : AccountStore
  pub sessions : SessionStore
  pub random : Stream
  pub incoming : Stream
  pub outgoing : W

-- What the surroundings answer while one record is served: `ctx.Err() != nil` before and behind the
-- read, the time that Now gives, and whether the account file is written.
pub record Tick : Type 0 where
  pub cancelled : Bool
  pub cancelled_reading : Bool
  pub now : ℕ
  pub file_written : Bool

abbrev pub Step : Type 0 → Type 0 → Type 0
Step W A = Reading (World W) HandlerError A

abbrev pub write_outcome : WriteResult → Result HandlerError (Unit {0})
write_outcome done = ok tt
write_outcome stuck = err unterminated
write_outcome (refused e) = err (write_refused e)
write_outcome (failed e) = err (write_failed e)

abbrev pub create_status : Result AccountError (Account × Bool) → Result HandlerError ℕ
create_status (ok (account, true)) = ok status_no_error
create_status (ok (account, false)) = ok status_create_username_exists
create_status (err account_limit) = ok status_create_max_accounts_exceeded
create_status (err source_limit) = ok status_create_max_accounts_exceeded
create_status (err e) = err (account_failed e)

abbrev pub new_session : Account → List ℕ → ℕ → ℕ → LobbySession
new_session account session_key expires_at ticket_seed = record {
  ticket_seed = ticket_seed;
  user_id = account.user_id;
  account_hash = account.account_hash;
  title_id = boz_title_id;
  session_key = session_key;
  expires_at = expires_at;
}

-- The errors of a read that end the connection without an error.
abbrev pub is_quiet : FrameError → Bool
is_quiet (io_failed eof) = true
is_quiet (io_failed unexpected_eof) = true
is_quiet (io_failed timeout) = true
is_quiet e = false

module _ {W : Type 0} where
  abbrev pub lift : {A : Type 0} → Result HandlerError A → Step W A
  lift r s = (r, s)

  abbrev pub after_deadline :
      Connection W → List ℕ → Option IoError → World W → Result HandlerError (Unit {0}) × World W
  after_deadline c body (some e) s = (err (deadline_failed e), s)
  after_deadline c body none s =
      let (out, w) = Write.write_frame c.io body s.outgoing in
      (write_outcome out, record s { outgoing = w })

  -- writeFrame.
  unfoldable pub write_frame : Connection W → List ℕ → Step W (Unit {0})
  write_frame c body s =
      let (e, w) = c.set_write_deadline s.outgoing in
      after_deadline c body e (record s { outgoing = w })

  -- `io.ReadFull(handler.config.Random, …)`
  unfoldable pub read_random : ℕ → Step W (List ℕ)
  read_random n s =
      let (out, random) = read_full n s.random in
      (map_err random_failed out, record s { random = random })

  unfoldable pub register_account : NetText → Connection W → Bool → CreateAccountRequest → Step W ℕ
  register_account text c written request s =
      let (out, accounts) =
        register_from_peer text request.username request.password_hash c.peer written s.accounts in
      (create_status out, record s { accounts = accounts })

  unfoldable pub handle_create_account :
      Primitives → NetText → Connection W → Bool → List ℕ → Step W (Unit {0})
  unfolding write_frame register_account
  handle_create_account p text c written body = do
    request ← lift (map_err bad_message (parse_create_account_body p body))
    status ← register_account text c written request
    write_frame c (marshal_create_account_reply_body status)

  unfoldable pub reserve_session :
      NetText → Connection W → LobbySession → ℕ → Step W (Result SessionError ℕ)
  reserve_session text c session now s =
      let (out, sessions) = reserve text session c.peer now s.sessions in
      (ok out, record s { sessions = sessions })

  -- A collision goes on with the next round; otherwise the seed and its token.
  abbrev pub after_attempt : ℕ → Step W (ℕ × ℕ) → Result SessionError ℕ → Step W (ℕ × ℕ)
  after_attempt seed next (ok token) = pure (seed, token)
  after_attempt seed next (err seed_collision) = next
  after_attempt seed next (err e) = raise (session_failed e)

  -- The loop over the attempts, with the rounds that are left.
  unfoldable pub reserve_seed : NetText → Connection W → (ℕ → LobbySession) → ℕ → ℕ → Step W (ℕ × ℕ)
  unfolding read_random reserve_session
  reserve_seed text c session now zero = raise (session_failed seed_collision)
  reserve_seed text c session now (suc rounds) =
      let next = reserve_seed text c session now rounds in
      read_random 4 >>= λ encoded.
      reserve_session text c (session (le_value encoded)) now >>= λ out.
      after_attempt (le_value encoded) next out

  unfoldable pub revoke_session : ℕ → ℕ → World W → World W
  revoke_session seed token s = record s { sessions = revoke seed token s.sessions }

  -- An error behind the reservation takes it back.
  abbrev pub or_revoke :
      ℕ → ℕ → Result HandlerError (Unit {0}) × World W → Result HandlerError (Unit {0}) × World W
  or_revoke seed token (ok a, s) = (ok a, s)
  or_revoke seed token (err e, s) = (err e, revoke_session seed token s)

  unfoldable pub send_ticket :
      Primitives → Connection W → Account → List ℕ → ℕ → ℕ → ℕ × ℕ → Step W (Unit {0})
  unfolding write_frame revoke_session
  send_ticket p c account session_key issued_at expires_at (seed, token) s =
      let reply =
        marshal_account_for_mmp_success_body p account seed session_key issued_at expires_at in
      or_revoke seed token ((lift (map_err bad_message reply) >>= λ body. write_frame c body) s)

  -- handleAccountForMMP with what LookupHash gives; `life` is the lifetime of a session.
  unfoldable pub answer_account_for_mmp :
      Primitives → NetText → Connection W → ℕ → ℕ → Option Account → Step W (Unit {0})
  unfolding write_frame read_random reserve_seed send_ticket
  answer_account_for_mmp p text c life now none =
      write_frame c (marshal_account_for_mmp_error_body status_bad_account)
  answer_account_for_mmp p text c life now (some account) = do
    session_key ← read_random session_key_size
    reserved ←
        reserve_seed text c (new_session account session_key (now + life)) now max_seed_attempts
    send_ticket p c account session_key now (now + life) reserved

  unfoldable pub look_up_hash : ℕ → Step W (Option Account)
  look_up_hash hash s = (ok (lookup_hash hash s.accounts), s)

  unfoldable pub handle_account_for_mmp :
      Primitives → NetText → Connection W → ℕ → ℕ → List ℕ → Step W (Unit {0})
  unfolding answer_account_for_mmp look_up_hash
  handle_account_for_mmp p text c life now body = do
    request ← lift (map_err bad_message (parse_account_for_mmp_body body))
    found ← look_up_hash request.account_hash
    answer_account_for_mmp p text c life now found

  unfoldable pub handle_record :
      Primitives → NetText → Connection W → ℕ → Tick → TransportRecord → Step W (Unit {0})
  unfolding write_frame handle_create_account handle_account_for_mmp
  handle_record p text c life tick keepalive = write_frame c []
  handle_record p text c life tick (buffer_available value) = pure tt
  handle_record p text c life tick (frame body) =
      let creates = handle_create_account p text c tick.file_written body in
      let authenticates = handle_account_for_mmp p text c life tick.now body in
      if ltb (length body) 2
      then raise unsupported_message
      else if get_or body 1 0 == message_create_account_request
      then creates
      else if get_or body 1 0 == message_account_for_mmp_request
      then authenticates
      else raise unsupported_message

  unfoldable pub read_record : Step W (Result FrameError TransportRecord)
  read_record s =
      let (out, incoming) = read_transport_record default_max_frame_body s.incoming in
      (ok out, record s { incoming = incoming })

  -- A round behind its read.
  unfoldable pub after_read :
      Primitives
      → NetText
      → Connection W
      → ℕ
      → Tick
      → Step W (Unit {0})
      → Result FrameError TransportRecord
      → Step W (Unit {0})
  unfolding handle_record
  after_read p text c life tick next (err e) =
      if tick.cancelled_reading || is_quiet e then pure tt else raise (read_failed e)
  after_read p text c life tick next (ok received) =
      handle_record p text c life tick received >> next

  -- The loop of HandleTCP, with the rounds that are left; `ticks` goes with them.
  unfoldable pub serve_records :
      Primitives → NetText → Connection W → ℕ → (ℕ → Tick) → ℕ → Step W (Unit {0})
  unfolding read_record after_read
  serve_records p text c life ticks zero = raise record_limit
  serve_records p text c life ticks (suc rounds) =
      let next = serve_records p text c life ticks rounds in
      let tick = ticks rounds in
      if tick.cancelled then pure tt else (read_record >>= after_read p text c life tick next)

  -- HandleTCP, with what SetReadDeadline answers.
  unfoldable pub handle_tcp :
      Primitives
      → NetText
      → Connection W
      → HandlerConfig
      → (ℕ → Tick)
      → Option IoError
      → Step W (Unit {0})
  unfolding serve_records
  handle_tcp p text c config ticks (some closed) = pure tt
  handle_tcp p text c config ticks (some e) = raise (deadline_failed e)
  handle_tcp p text c config ticks none =
      serve_records p text c config.session_life ticks config.max_records
