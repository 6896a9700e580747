-- ===== src/Lobby/Connection/Login.antt =====
-- lsg.go: what a login that succeeds rests on.
use codboz_nx_online.Base.{
  ℕ, ◌≡◌, refl, ap, ◌∙◌, sym, Bool, true, false, List, ◌==◌, ==→eq, Option, none, some, Result, ok,
  err, map_err, arith,
}
use codboz_nx_online.Go.Net.{NetText}
use codboz_nx_online.Go.Reading.{continue-ok, sequence-ok}
use codboz_nx_online.Auth.LobbySession.{LobbySession, SessionStore, lookup_session}
use codboz_nx_online.Auth.Store.{Account, lookup_user_id}
use codboz_nx_online.Lobby.Clients.{Lobby, LobbyError, login_failed, invalid_identity}
use codboz_nx_online.Lobby.Envelope.{all_zero}
use codboz_nx_online.Lobby.Handler.{lift, require, found}
use codboz_nx_online.Lobby.Login.{LsgLogin, parse_lsg_login_body}
use codboz_nx_online.Lobby.Connection.{logged_on, take_over, admit, log_in}

pub map_err-ok :
    {E F A : Type 0} (f : E → F) (r : Result E A) (a : A) → map_err f r ≡ ok a → r ≡ ok a
map_err-ok f (ok b) a h = ground arith
map_err-ok f (err e) a h = absurd (ground arith)

module _ {W : Type 0} where
  require-ok :
      (b : Bool) (e : LobbyError) (s s' : Lobby W)
      → require b e s ≡ (ok tt, s')
      → (b ≡ true) × (s ≡ s')
  require-ok true e s s' h = (refl, ap (λ out. out.1) h)
  require-ok false e s s' h = absurd (ground arith)

  pub found-ok :
      {A : Type 0} (o : Option A) (a : A) (s s' : Lobby W)
      → found o s ≡ (ok a, s')
      → (o ≡ some a) × (s ≡ s')
  found-ok none a s s' h = absurd (ground arith)
  found-ok (some b) a s s' h = (ground arith, ap (λ out. out.1) h)

  -- The connection goes on with this session and its token.
  pub record Joined (session : LobbySession) (token : ℕ) (s' : Lobby W) : Type 0 where
    pub kept : s'.progress.lobby_session ≡ session
    pub token_kept : s'.progress.session_token ≡ token
    pub authenticated : s'.progress.authenticated ≡ true

  take_over-Joined :
      (me : ℕ) (session : LobbySession) (token : ℕ) (account : Account) (s s' : Lobby W)
      → take_over me session token account s ≡ (ok tt, s')
      → Joined session token s'
  unfolding take_over
  take_over-Joined me session token account s s' h =
      let (s2, e2, h2) = sequence-ok (logged_on session token) _ tt s' h in
      record {
        kept = ap (λ out. out.1.progress.lobby_session) (sym h2);
        token_kept = ap (λ out. out.1.progress.session_token) (sym h2);
        authenticated = ap (λ out. out.1.progress.authenticated) (sym h2);
      }

  -- What an admission rests on.
  pub record Admitted (login : LsgLogin) (session : LobbySession) (account : Account) (s : Lobby W)
      : Type 0 where
    pub titled : session.title_id ≡ login.title_id
    pub registered : lookup_user_id session.user_id s.accounts ≡ some account
    pub hashed : account.account_hash ≡ session.account_hash

  admit-Admitted :
      (me : ℕ) (login : LsgLogin) (session : LobbySession) (token : ℕ) (s s' : Lobby W)
      → admit me login session token s ≡ (ok tt, s')
      → (account : Account) × Admitted login session account s × Joined session token s'
  unfolding admit
  admit-Admitted me login session token s s' h =
      let (s1, e1, h1) =
        sequence-ok _ (require (session.title_id == login.title_id) invalid_identity s) tt s' h in
      let (titled, at1) =
        require-ok (session.title_id == login.title_id) invalid_identity s s1 e1 in
      let holder = lookup_user_id session.user_id s1.accounts in
      let (account, s2, e2, h2) = continue-ok _ (found holder s1) tt s' h1 in
      let (registered, at2) = found-ok holder account s1 s2 e2 in
      let (s3, e3, h3) =
        sequence-ok (take_over me session token account)
          (require (account.account_hash == session.account_hash) invalid_identity s2) tt s' h2 in
      let (hashed, at3) =
        require-ok (account.account_hash == session.account_hash) invalid_identity s2 s3 e3 in
      (
        account,
        record {
          titled = ==→eq session.title_id login.title_id titled;
          registered =
              ap (λ (x : Lobby W). lookup_user_id session.user_id x.accounts) at1 ∙ registered;
          hashed = ==→eq account.account_hash session.account_hash hashed;
        },
        take_over-Joined me session token account s3 s' h3,
      )

  -- A login that succeeds: its body is well formed and its blob zero; Lookup of its seed gave this
  -- connection's peer a session of its title; the session's user has an account with the session's
  -- account hash; and the connection goes on with that session and its token.
  pub log_in_sound :
      (text : NetText) (me now : ℕ) (body : List ℕ) (s s' : Lobby W)
      → log_in text me now body s ≡ (ok tt, s')
      → (login : LsgLogin) × (session : LobbySession) × (token : ℕ) × (account : Account)
        × (parse_lsg_login_body body ≡ ok login)
        × (all_zero login.auth_blob ≡ true)
        × ((lookup_session text login.ticket_seed (s.clients me).connection.peer now s.sessions).0
            ≡ some (session, token))
        × Admitted login session account s
        × Joined session token s'
  unfolding log_in
  log_in_sound text me now body s s' h =
      let (login, s1, e1, h1) =
        continue-ok _ (lift (map_err login_failed (parse_lsg_login_body body)) s) tt s' h in
      let at1 : s ≡ s1 = ap (λ out. out.1) e1 in
      let (s2, e2, h2) =
        sequence-ok _ (require (all_zero login.auth_blob) invalid_identity s1) tt s' h1 in
      let (blank, at2) = require-ok (all_zero login.auth_blob) invalid_identity s1 s2 e2 in
      let start : s ≡ s2 = at1 ∙ at2 in
      let look : Lobby W → Option (LobbySession × ℕ) × SessionStore =
        λ x. lookup_session text login.ticket_seed (x.clients me).connection.peer now x.sessions in
      let s3 : Lobby W = record s2 { sessions = (look s2).1 } in
      let ((session, token), s4, e4, h4) = continue-ok _ (found (look s2).0 s3) tt s' h2 in
      let (pending, at4) = found-ok (look s2).0 (session, token) s3 s4 e4 in
      let (account, admitted, joined) = admit-Admitted me login session token s4 s' h4 in
      (
        login,
        session,
        token,
        account,
        map_err-ok login_failed (parse_lsg_login_body body) login (ap (λ out. out.0) e1),
        blank,
        ap (λ (x : Lobby W). (look x).0) start ∙ pending,
        record {
          titled = admitted.titled;
          registered =
              ap (λ (x : Lobby W). lookup_user_id session.user_id x.accounts) start
              ∙ ap (λ (x : Lobby W). lookup_user_id session.user_id x.accounts) at4
              ∙ admitted.registered;
          hashed = admitted.hashed;
        },
        joined,
      )
