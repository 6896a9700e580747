-- ===== src/Lobby/Handler/Sessions.antt =====
-- lsg.go: the services of a lobby connection do not touch the store of tickets.
use codboz_nx_online.Base.{
  ℕ, take, ◌≡◌, refl, ◌∙◌, Bool, true, false, if◌then◌else◌, List, Option, none, some, Result, ok,
  err, map_err, arith, ◌==◌,
}
use codboz_nx_online.Go.Reading.{raise, continue, ◌>>=◌}
use codboz_nx_online.Go.Stream.{IoError}
use codboz_nx_online.Bitdemon.Crypto.{Primitives}
use codboz_nx_online.Lobby.Clients.{
  Lobby, LobbyError, event_failed, matchmaking_failed, messaging_failed, unsupported_message, Step,
  write_frame, after_deadline, server_seed, close_connection, deactivate, lookup_client,
}
use codboz_nx_online.Lobby.Envelope.{EncryptedRequest}
use codboz_nx_online.Lobby.EventLog.{parse_event_log_request}
use codboz_nx_online.Lobby.Matchmaking.{
  MatchmakingInfo, MatchmakingRequest, unsupported_task, bind_matchmaking_identity,
}
use codboz_nx_online.Lobby.Matchmaking.Requests.{parse_matchmaking_request}
use codboz_nx_online.Lobby.MatchmakingStore.{StoreError}
use codboz_nx_online.Lobby.Messaging.{MessagingRequest, parse_messaging_request}
use codboz_nx_online.Lobby.Messaging.Push.{
  PushError, max_messaging_sender_name_bytes, marshal_global_instant_message_push,
}
use codboz_nx_online.Lobby.Handler.{
  lift, create_match, update_match, delete_match, find_matches, handle_matchmaking, pushed, push,
  deliver_to, deliver_global_instant_message, reply, serve_event_log, serve_matchmaking,
  serve_messaging, serve_request, create_reply,
}

module _ {W : Type 0} where
  abbrev pub Keeps : {A : Type 0} → Step W A → Type 0
  Keeps m = (s : Lobby W) → (m s).1.sessions ≡ s.sessions

  continue-sessions :
      {A B : Type 0} (f : A → Step W B) (out : Result LobbyError A × Lobby W)
      → ((a : A) → Keeps (f a))
      → (continue out f).1.sessions ≡ out.1.sessions
  continue-sessions f (ok a, s) h = h a s
  continue-sessions f (err e, s) h = refl

  bind-Keeps :
      {A B : Type 0} (m : Step W A) (f : A → Step W B)
      → Keeps m
      → ((a : A) → Keeps (f a))
      → Keeps (m >>= f)
  bind-Keeps m f h k s = continue-sessions f (m s) k ∙ h s

  lift-Keeps :
      {A B : Type 0} (r : Result LobbyError A) (f : A → Step W B)
      → ((a : A) → Keeps (f a))
      → Keeps (lift r >>= f)
  lift-Keeps r f k s = continue-sessions f (r, s) k

  if-Keeps :
      {A : Type 0} (b : Bool) (m n : Step W A) → Keeps m → Keeps n → Keeps (if b then m else n)
  if-Keeps true m n h k = h
  if-Keeps false m n h k = k

  after_deadline-sessions :
      (id : ℕ) (body : List ℕ) (e : Option IoError) (s : Lobby W)
      → (after_deadline id body e s).1.sessions ≡ s.sessions
  after_deadline-sessions id body (some e) s = refl
  after_deadline-sessions id body none s = refl

  write_frame-Keeps : (id : ℕ) (body : List ℕ) → Keeps (write_frame id body)
  unfolding write_frame
  write_frame-Keeps id body s =
      let client = s.clients id in
      after_deadline-sessions id body (client.connection.set_write_deadline client.outgoing).0 _

  reply-Keeps : (me : ℕ) (body : List ℕ) → Keeps (reply me body)
  unfolding reply
  reply-Keeps me body = bind-Keeps (write_frame me body) _ (write_frame-Keeps me body) (λ _ s. refl)

  create_reply-sessions :
      (owner transaction : ℕ) (out : Result StoreError MatchmakingInfo)
      → Keeps (create_reply owner transaction out)
  create_reply-sessions owner transaction (err e) s = refl
  create_reply-sessions owner transaction (ok created) s = ground arith

  handle_matchmaking-Keeps :
      (owner transaction : ℕ) (request : MatchmakingRequest)
      → Keeps (handle_matchmaking owner transaction request)
  unfolding handle_matchmaking create_match update_match delete_match find_matches
  handle_matchmaking-Keeps owner transaction request =
      let others : Step W (List ℕ) =
        if request.task == 5
        then find_matches transaction request
        else raise (matchmaking_failed unsupported_task) in
      let deletes : Step W (List ℕ) =
        if request.task == 3 then delete_match owner transaction request else others in
      let updates : Step W (List ℕ) =
        if request.task == 2 then update_match owner transaction request else deletes in
      let creates : Step W (List ℕ) = create_match owner transaction request in
      bind-Keeps (if request.task == 1 then creates else updates) _
        (if-Keeps (request.task == 1) creates updates
          (λ s. create_reply-sessions owner transaction _ _)
          (if-Keeps (request.task == 2) (update_match owner transaction request) deletes (λ s. refl)
            (if-Keeps (request.task == 3) (delete_match owner transaction request) others
              (λ s. refl)
              (if-Keeps (request.task == 5) (find_matches transaction request)
                (raise (matchmaking_failed unsupported_task)) (λ s. refl) (λ s. refl)))))
        (λ _ s. refl)

  deactivate-sessions : (id : ℕ) (s : Lobby W) → (deactivate id s).sessions ≡ s.sessions
  unfolding deactivate
  deactivate-sessions id s = ground arith

  pushed-sessions :
      (recipient : ℕ) (out : Result LobbyError (Unit {0}) × Lobby W)
      → (pushed recipient out).1.sessions ≡ out.1.sessions
  unfolding close_connection
  pushed-sessions recipient (ok a, s) = refl
  pushed-sessions recipient (err e, s) = deactivate-sessions recipient s

  push-Keeps : (recipient : ℕ) (out : Result PushError (List ℕ)) → Keeps (push recipient out)
  push-Keeps recipient (err e) s = refl
  push-Keeps recipient (ok body) s =
      pushed-sessions recipient (write_frame recipient body s) ∙ write_frame-Keeps recipient body s

  deliver_to-Keeps :
      (p : Primitives) (me : ℕ) (request : MessagingRequest) (recipient : Option ℕ)
      → Keeps (deliver_to p me request recipient)
  unfolding deliver_to server_seed
  deliver_to-Keeps p me request none s = refl
  deliver_to-Keeps p me request (some recipient) s =
      let t : Lobby W = (server_seed recipient s).1 in
      push-Keeps recipient
        (marshal_global_instant_message_push p (t.clients recipient).session_key
          (s.clients recipient).next_server_seed (t.clients me).account.account_hash
          (take max_messaging_sender_name_bytes (t.clients me).account.username) request.message)
        t

  serve_event_log-Keeps :
      (me transaction : ℕ) (request : EncryptedRequest)
      → Keeps (serve_event_log me transaction request)
  unfolding serve_event_log
  serve_event_log-Keeps me transaction request =
      lift-Keeps (map_err event_failed (parse_event_log_request request.payload request.seed)) _
        (λ event. reply-Keeps me _)

  serve_matchmaking-Keeps :
      (me owner transaction : ℕ) (request : EncryptedRequest)
      → Keeps (serve_matchmaking me owner transaction request)
  unfolding serve_matchmaking
  serve_matchmaking-Keeps me owner transaction request =
      lift-Keeps
        (map_err matchmaking_failed (parse_matchmaking_request request.payload request.seed)) _
        (λ parsed s.
          continue-sessions _
            (
              map_err matchmaking_failed
                  (bind_matchmaking_identity parsed (s.clients me).account.username),
              s,
            )
            (λ bound.
              bind-Keeps (handle_matchmaking owner transaction bound) _
                (handle_matchmaking-Keeps owner transaction bound) (λ body. reply-Keeps me body)))

  serve_messaging-Keeps :
      (p : Primitives) (me transaction : ℕ) (request : EncryptedRequest)
      → Keeps (serve_messaging p me transaction request)
  unfolding serve_messaging deliver_global_instant_message
  serve_messaging-Keeps p me transaction request =
      lift-Keeps (map_err messaging_failed (parse_messaging_request request.payload request.seed)) _
        (λ message.
          bind-Keeps (deliver_global_instant_message p me message) _
            (λ s. deliver_to-Keeps p me message (lookup_client message.recipient s) s)
            (λ _. reply-Keeps me _))

  pub serve_request-Keeps :
      (p : Primitives) (me owner transaction : ℕ) (request : EncryptedRequest)
      → Keeps (serve_request p me owner transaction request)
  unfolding serve_request
  serve_request-Keeps p me owner transaction request =
      let messages : Step W (Unit {0}) =
        if request.service == 6
        then serve_messaging p me transaction request
        else raise unsupported_message in
      let matches : Step W (Unit {0}) =
        if request.service == 21
        then serve_matchmaking me owner transaction request
        else messages in
      if-Keeps (request.service == 67) (serve_event_log me transaction request) matches
        (serve_event_log-Keeps me transaction request)
        (if-Keeps (request.service == 21) (serve_matchmaking me owner transaction request) messages
          (serve_matchmaking-Keeps me owner transaction request)
          (if-Keeps (request.service == 6) (serve_messaging p me transaction request)
            (raise unsupported_message) (serve_messaging-Keeps p me transaction request)
            (λ s. refl)))
