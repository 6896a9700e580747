-- ===== src/Lobby/Handler.antt =====
-- internal/online/lobby/lsg.go: the handler of one lobby connection, with the client of the number
-- `me`. Other connections use the stores between its records. The log is left out.
pub mod Sessions
use codboz_nx_online.Base.{
  ℕ, ◌+◌, ◌%◌, ◌^◌, Bool, true, false, List, [], ◌∷◌, ◌==◌, if◌then◌else◌, length, take, Option,
  none, some, Result, ok, err, map_err, bind,
}
use codboz_nx_online.Go.Reading.{pure, raise, ◌>>=◌, ◌>>◌}
use codboz_nx_online.Bitdemon.ByteBuffer.Writer.{ByteWriter, new_byte_writer, write_raw}
use codboz_nx_online.Bitdemon.Crypto.{Primitives}
use codboz_nx_online.Lobby.Clients.{
  Lobby, Progress, Step, LobbyError, unsupported_message, invalid_identity, event_failed,
  matchmaking_failed, store_failed, messaging_failed, write_frame, server_seed, close_connection,
  deactivate, lookup_client,
}
use codboz_nx_online.Lobby.Envelope.{EncryptedRequest, marshal_clear_task_reply_body}
use codboz_nx_online.Lobby.EventLog.{
  event_log_service_id, parse_event_log_request, marshal_task_reply, status_no_error,
}
use codboz_nx_online.Lobby.Matchmaking.{
  MatchmakingRequest, MatchmakingInfo, MatchmakingError, unsupported_task, matchmaking_service_id,
  matchmaking_task_create, matchmaking_task_update, matchmaking_task_delete, matchmaking_task_find,
  bind_matchmaking_identity,
}
use codboz_nx_online.Lobby.Matchmaking.Requests.{
  parse_matchmaking_request, write_matchmaking_session_id, write_matchmaking_result,
}
use codboz_nx_online.Lobby.MatchmakingStore.{
  StoreError, session_miss, create, update, delete_session, find,
}
use codboz_nx_online.Lobby.Messaging.{MessagingRequest, parse_messaging_request}
use codboz_nx_online.Lobby.Messaging.Push.{
  PushError, max_messaging_sender_name_bytes, marshal_global_instant_message_push,
}

abbrev pub lsg_connection_id_message : ℕ
lsg_connection_id_message = 0x04

abbrev pub messaging_service_id : ℕ
messaging_service_id = 0x06

-- The logical reply and the results that are written behind it.
abbrev written : Result MatchmakingError ByteWriter → Result LobbyError (List ℕ)
written (ok w) = ok w.written
written (err e) = err (matchmaking_failed e)

unfoldable pub write_results :
    List MatchmakingInfo → ByteWriter → Result MatchmakingError ByteWriter
write_results [] w = ok w
write_results (info ∷ rest) w = bind (write_matchmaking_result info w) (write_results rest)

abbrev reply_writer : List ℕ → ByteWriter
reply_writer logical = write_raw logical (new_byte_writer true)

-- A session that is missing is acknowledged, other errors are not.
abbrev acknowledged : Result StoreError (Unit {0}) → List ℕ → Result LobbyError (List ℕ)
acknowledged (ok a) reply = ok reply
acknowledged (err session_miss) reply = ok reply
acknowledged (err e) reply = err (store_failed e)

module _ {W : Type 0} where
  abbrev pub lift : {A : Type 0} → Result LobbyError A → Step W A
  lift r s = (r, s)

  abbrev pub require : Bool → LobbyError → Step W (Unit {0})
  require b e = if b then pure tt else raise e

  abbrev pub found : {A : Type 0} → Option A → Step W A
  found none = raise invalid_identity
  found (some a) = pure a

  abbrev pub get_progress : Step W Progress
  get_progress s = (ok s.progress, s)

  abbrev pub set_progress : Progress → Step W (Unit {0})
  set_progress progress s = (ok tt, record s { progress = progress })

  -- The reply to a create; a session whose identifier is not written is deleted again.
  abbrev pub create_reply : ℕ → ℕ → Result StoreError MatchmakingInfo → Step W (List ℕ)
  create_reply owner transaction (err e) s = (err (store_failed e), s)
  create_reply owner transaction (ok created) s =
      let logical = marshal_task_reply transaction matchmaking_task_create status_no_error 1 1 in
      let out = written (write_matchmaking_session_id created.session_id (reply_writer logical)) in
      (
        out,
        elim out [
          | ok reply ↦ s
          | err e ↦ record s { matches = (delete_session owner created.session_id s.matches).1 }
        ],
      )

  unfoldable pub create_match : ℕ → ℕ → MatchmakingRequest → Step W (List ℕ)
  unfolding write_matchmaking_session_id
  create_match owner transaction request s =
      let (out, matches, random) = create owner request.info s.random s.matches in
      create_reply owner transaction out (record s { matches = matches; random = random })

  unfoldable pub update_match : ℕ → ℕ → MatchmakingRequest → Step W (List ℕ)
  update_match owner transaction request s =
      let (out, matches) = update owner request.session_id request.info s.matches in
      (
        acknowledged out (marshal_task_reply transaction request.task status_no_error 0 0),
        record s { matches = matches },
      )

  unfoldable pub delete_match : ℕ → ℕ → MatchmakingRequest → Step W (List ℕ)
  delete_match owner transaction request s =
      let (out, matches) = delete_session owner request.session_id s.matches in
      (
        acknowledged out (marshal_task_reply transaction request.task status_no_error 0 0),
        record s { matches = matches },
      )

  unfoldable pub find_matches : ℕ → MatchmakingRequest → Step W (List ℕ)
  unfolding write_results
  find_matches transaction request s =
      let (results, total) = find request.query request.offset request.max_results s.matches in
      let logical =
        marshal_task_reply transaction request.task status_no_error (length results) total in
      (written (write_results results (reply_writer logical)), s)

  -- handleMatchmaking.
  unfoldable pub handle_matchmaking : ℕ → ℕ → MatchmakingRequest → Step W (List ℕ)
  unfolding create_match update_match delete_match find_matches
  handle_matchmaking owner transaction request =
      (if request.task == matchmaking_task_create
        then create_match owner transaction request
        else if request.task == matchmaking_task_update
        then update_match owner transaction request
        else if request.task == matchmaking_task_delete
        then delete_match owner transaction request
        else if request.task == matchmaking_task_find
        then find_matches transaction request
        else raise (matchmaking_failed unsupported_task))
      >>= λ logical. pure (marshal_clear_task_reply_body logical)

  -- What a failed push leaves: the recipient is dropped.
  abbrev pub pushed : ℕ → Result LobbyError (Unit {0}) × Lobby W → Result LobbyError Bool × Lobby W
  pushed recipient (ok a, s) = (ok true, s)
  pushed recipient (err e, s) = (ok false, close_connection recipient (deactivate recipient s))

  abbrev pub push : ℕ → Result PushError (List ℕ) → Step W Bool
  push recipient (err e) s = (ok false, s)
  push recipient (ok body) s = pushed recipient (write_frame recipient body s)

  unfoldable pub deliver_to : Primitives → ℕ → MessagingRequest → Option ℕ → Step W Bool
  unfolding write_frame server_seed deactivate close_connection
  deliver_to p me request none = pure false
  deliver_to p me request (some recipient) = server_seed recipient >>= λ seed s.
      push recipient
        (marshal_global_instant_message_push p (s.clients recipient).session_key seed
          (s.clients me).account.account_hash
          (take max_messaging_sender_name_bytes (s.clients me).account.username) request.message)
        s

  -- deliverGlobalInstantMessage.
  unfoldable pub deliver_global_instant_message : Primitives → ℕ → MessagingRequest → Step W Bool
  unfolding deliver_to
  deliver_global_instant_message p me request s =
      deliver_to p me request (lookup_client request.recipient s) s

  -- `client.writeFrame(replyBody)` and `transactionID++`.
  unfoldable pub reply : ℕ → List ℕ → Step W (Unit {0})
  unfolding write_frame
  reply me body = do
    write_frame me body
    progress ← get_progress
    set_progress (record progress { transaction_id = (progress.transaction_id + 1) % 2 ^ 64 })

  unfoldable pub serve_event_log : ℕ → ℕ → EncryptedRequest → Step W (Unit {0})
  unfolding reply
  serve_event_log me transaction request = do
    event ← lift (map_err event_failed (parse_event_log_request request.payload request.seed))
    reply me (
        marshal_clear_task_reply_body
          (marshal_task_reply transaction event.task status_no_error 0 0))

  unfoldable pub serve_matchmaking : ℕ → ℕ → ℕ → EncryptedRequest → Step W (Unit {0})
  unfolding reply handle_matchmaking
  serve_matchmaking me owner transaction request = do
    parsed ←
        lift (map_err matchmaking_failed (parse_matchmaking_request request.payload request.seed))
    bound ← λ s.
        lift
          (map_err matchmaking_failed
            (bind_matchmaking_identity parsed (s.clients me).account.username))
          s
    body ← handle_matchmaking owner transaction bound
    reply me body

  unfoldable pub serve_messaging : Primitives → ℕ → ℕ → EncryptedRequest → Step W (Unit {0})
  unfolding reply deliver_global_instant_message
  serve_messaging p me transaction request = do
    message ← lift (map_err messaging_failed (parse_messaging_request request.payload request.seed))
    deliver_global_instant_message p me message
    reply me (
        marshal_clear_task_reply_body
          (marshal_task_reply transaction message.task status_no_error 0 0))

  unfoldable pub serve_request : Primitives → ℕ → ℕ → ℕ → EncryptedRequest → Step W (Unit {0})
  unfolding serve_event_log serve_matchmaking serve_messaging
  serve_request p me owner transaction request =
      if request.service == event_log_service_id
      then serve_event_log me transaction request
      else if request.service == matchmaking_service_id
      then serve_matchmaking me owner transaction request
      else if request.service == messaging_service_id
      then serve_messaging p me transaction request
      else raise unsupported_message
