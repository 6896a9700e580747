-- ===== src/Lobby/Connection/Requests.antt =====
-- lsg.go: what the first request that is served rests on.
use codboz_nx_online.Base.{
  ℕ, ◌≡◌, refl, sym, ap, ◌∙◌, subst, true, false, List, if_false, Option, none, some, Result, ok,
  map_err, arith,
}
use codboz_nx_online.Go.Net.{NetText}
use codboz_nx_online.Go.Reading.{pure, continue-ok, sequence-ok}
use codboz_nx_online.Bitdemon.Crypto.{Primitives}
use codboz_nx_online.Auth.LobbySession.{LobbySession, PendingSession, SessionStore, consume}
use codboz_nx_online.Auth.LobbySession.Tickets.{Spent, consume_spends}
use codboz_nx_online.Lobby.Clients.{
  Lobby, Progress, Step, LobbyError, envelope_failed, activate, close_previous, close_connection,
}
use codboz_nx_online.Lobby.Envelope.{EncryptedRequest, decrypt_request_body}
use codboz_nx_online.Lobby.Handler.{lift, found}
use codboz_nx_online.Lobby.Handler.Sessions.{serve_request-Keeps}
use codboz_nx_online.Lobby.Connection.{spend_ticket, confirm, handle_request}
use codboz_nx_online.Lobby.Connection.Login.{map_err-ok, found-ok}

close_previous-sessions :
    {W : Type 0} (id : ℕ) (o : Option ℕ) (s : Lobby W)
    → (close_previous id o s).sessions ≡ s.sessions
unfolding close_connection
close_previous-sessions id none s = refl
close_previous-sessions id (some previous) s = ground arith

module _ {W : Type 0} (text : NetText) (me now : ℕ) where
  -- Consume with the ticket that the login has left.
  abbrev pub consumed : Progress → Lobby W → Option LobbySession × SessionStore
  consumed progress s =
      consume text progress.lobby_session.ticket_seed progress.session_token
        (s.clients me).connection.peer now s.sessions

  activated-sessions : (s : Lobby W) → (activate me s).sessions ≡ s.sessions
  unfolding activate
  activated-sessions s = close_previous-sessions me _ _

  -- The ticket is consumed, in the store that is left.
  abbrev Consumed : Progress → Lobby W → Lobby W → Type 0
  Consumed progress s s' =
      (session : LobbySession) × (consumed progress s ≡ (some session, s'.sessions))

  spend_ticket-Consumed :
      (progress : Progress) (s s' : Lobby W)
      → spend_ticket text me now progress s ≡ (ok tt, s')
      → Consumed progress s s'
  unfolding spend_ticket
  spend_ticket-Consumed progress s s' h =
      let out = consumed progress s in
      let after : Lobby W = record s { sessions = out.1 } in
      let (session, s1, e1, h1) = continue-ok _ (found out.0 after) tt s' h in
      let (taken, at1) = found-ok out.0 session after s1 e1 in
      let confirmed = record progress { lobby_session = session; session_confirmed = true } in
      let left : s'.sessions ≡ s1.sessions =
        ap (λ x. x.1.sessions) (sym h1) ∙ activated-sessions (record s1 { progress = confirmed }) in
      let kept : out.1 ≡ s'.sessions = ap (λ (x : Lobby W). x.sessions) at1 ∙ sym left in
      (session, λ i. (taken i, kept i))

  confirm-Consumed :
      (progress : Progress) (s s' : Lobby W)
      → progress.session_confirmed ≡ false
      → confirm text me now progress s ≡ (ok tt, s')
      → Consumed progress s s'
  unfolding confirm
  confirm-Consumed progress s s' fresh h =
      let spend : Lobby W → Result LobbyError (Unit {0}) × Lobby W =
        spend_ticket text me now progress in
      spend_ticket-Consumed progress s s' (
        subst (λ (f : Step W (Unit {0})). f s ≡ (ok tt, s'))
          (if_false progress.session_confirmed (pure tt) spend fresh) h)

  -- A request that is served on a connection whose session is not confirmed: its body opens
  -- under the session's key to a request, and the ticket of the login was pending before with exactly
  -- this token, unexpired and reserved for this connection's peer, and is no more pending in the
  -- store that the request leaves.
  pub handle_request_spends :
      (p : Primitives) (body : List ℕ) (progress : Progress) (s s' : Lobby W)
      → progress.session_confirmed ≡ false
      → handle_request p text me now body progress s ≡ (ok tt, s')
      → (request : EncryptedRequest) × (session : LobbySession) × (pending : PendingSession)
        × (decrypt_request_body p body progress.lobby_session.session_key ≡ ok request)
        × Spent text progress.lobby_session.ticket_seed progress.session_token
            (s.clients me).connection.peer
            now
            s.sessions
            session
            s'.sessions
            pending
  unfolding handle_request
  handle_request_spends p body progress s s' fresh h =
      let opened = decrypt_request_body p body progress.lobby_session.session_key in
      let (request, s1, e1, h1) = continue-ok _ (lift (map_err envelope_failed opened) s) tt s' h in
      let start : s ≡ s1 = ap (λ out. out.1) e1 in
      let (s2, e2, h2) = sequence-ok _ (confirm text me now progress s1) tt s' h1 in
      let (session, taken) = confirm-Consumed progress s1 s2 fresh e2 in
      let served : s'.sessions ≡ s2.sessions =
        ap (λ x. x.1.sessions) (sym h2)
        ∙ serve_request-Keeps p me progress.connection_id progress.transaction_id request s2 in
      let (pending, spent) =
        consume_spends text progress.lobby_session.ticket_seed progress.session_token
          (s.clients me).connection.peer now s.sessions session s'.sessions
          (ap (consumed progress) start ∙ taken ∙ ap (λ x. (some session, x)) (sym served)) in
      (
        request,
        session,
        pending,
        map_err-ok envelope_failed opened request (ap (λ out. out.0) e1),
        spent,
      )
