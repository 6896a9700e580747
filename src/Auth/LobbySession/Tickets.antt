-- ===== src/Auth/LobbySession/Tickets.antt =====
-- lobby_session.go: the life of one ticket, from its reservation to its use.
use codboz_nx_online.Base.{
  ℕ, ◌≡◌, ◌≢◌, refl, ap, ◌∙◌, ◌<◌, List, Option, none, some, ok, ℕ_discrete, arith,
}
use codboz_nx_online.Go.Map.{lookup-insert, lookup-delete}
use codboz_nx_online.Go.Net.{NetAddr, NetText}
use codboz_nx_online.Auth.LobbySession.{
  SessionStore, PendingSession, LobbySession, find_seed, purge_expired_locked, bump_token,
  reserve_as, reserve, lookup_pending, lookup_as, lookup_session, consume_pending, consume_as,
  consume, revoke_pending, revoke, lobby_peer_identity,
}

-- The outcome of a successful use of a ticket.
pub record Spent (text : NetText) (seed token : ℕ) (peer : NetAddr) (now : ℕ) (s : SessionStore)
    (session : LobbySession) (s' : SessionStore) (p : PendingSession) : Type 0 where
  pub was_pending : find_seed seed s.by_seed ≡ some p
  pub its_session : p.session ≡ session
  pub its_token : p.token ≡ token
  pub unexpired : now < session.expires_at
  pub its_peer : lobby_peer_identity text peer ≡ some p.peer
  pub gone : find_seed seed s'.by_seed ≡ none

consume_pending_inv :
    (seed token : ℕ) (peer : List ℕ) (now : ℕ) (s : SessionStore) (o : Option PendingSession)
    (session : LobbySession) (s' : SessionStore)
    → consume_pending seed token peer now s o ≡ (some session, s')
    → (p : PendingSession) × (o ≡ some p)
      × (p.session ≡ session)
      × (p.token ≡ token)
      × (now < session.expires_at)
      × (peer ≡ p.peer)
      × (find_seed seed s'.by_seed ≡ none)
unfolding consume_pending
consume_pending_inv seed token peer now s none session s' h = absurd (ground arith)
consume_pending_inv seed token peer now s (some p) session s' h = (
  p,
  refl,
  ground arith,
  ground arith,
  ground arith,
  ground arith,
  ground (arith, lookup-delete ℕ_discrete seed seed s.by_seed),
)

consume_as_inv :
    (seed token : ℕ) (id : Option (List ℕ)) (now : ℕ) (s : SessionStore) (session : LobbySession)
    (s' : SessionStore)
    → consume_as seed token id now s ≡ (some session, s')
    → (peer : List ℕ) × (id ≡ some peer)
      × (consume_pending seed token peer now s (find_seed seed s.by_seed) ≡ (some session, s'))
unfolding consume_as
consume_as_inv seed token none now s session s' h = absurd (ground arith)
consume_as_inv seed token (some peer) now s session s' h = (peer, refl, h)

-- Where Consume gives a session, that session was pending under the seed with exactly this token,
-- has not expired, and was reserved for a peer of the same identity; and it is pending no more.
pub consume_spends :
    (text : NetText) (seed token : ℕ) (peer : NetAddr) (now : ℕ) (s : SessionStore)
    (session : LobbySession) (s' : SessionStore)
    → consume text seed token peer now s ≡ (some session, s')
    → (p : PendingSession) × Spent text seed token peer now s session s' p
consume_spends text seed token peer now s session s' h =
    let (id, known, taken) =
      consume_as_inv seed token (lobby_peer_identity text peer) now s session s'
        (unfold consume in h) in
    let (p, found, same, mine, live, owner, gone) =
      consume_pending_inv seed token id now s (find_seed seed s.by_seed) session s' taken in
    (
      p,
      record {
        was_pending = found;
        its_session = same;
        its_token = mine;
        unexpired = live;
        its_peer = known ∙ ap some owner;
        gone = gone;
      },
    )

-- A ticket is good for one use: after a successful Consume every other Consume under that seed
-- fails, by any peer at any time and with any token, and every Lookup under it too; neither changes
-- the store.
pub consume_once :
    (text : NetText) (seed token : ℕ) (peer : NetAddr) (now : ℕ) (s : SessionStore)
    (session : LobbySession) (s' : SessionStore) (token' : ℕ) (peer' : NetAddr) (later : ℕ)
    → consume text seed token peer now s ≡ (some session, s')
    → (consume text seed token' peer' later s' ≡ (none, s'))
      × (lookup_session text seed peer' later s' ≡ (none, s'))
consume_once text seed token peer now s session s' token' peer' later h =
    let (p, spent) = consume_spends text seed token peer now s session s' h in
    (
      unfold consume consume_as consume_pending in
          (again_consume (lobby_peer_identity text peer') spent.gone),
      unfold lookup_session lookup_as lookup_pending in
          (again_lookup (lobby_peer_identity text peer') spent.gone),
    )
  where
    again_consume :
        (id : Option (List ℕ))
        → find_seed seed s'.by_seed ≡ none
        → consume_as seed token' id later s' ≡ (none, s')
    again_consume none gone = unfold consume_as in refl
    again_consume (some q) gone = unfold consume_as consume_pending in rw gone

    again_lookup :
        (id : Option (List ℕ))
        → find_seed seed s'.by_seed ≡ none
        → lookup_as seed id later s' ≡ (none, s')
    again_lookup none gone = unfold lookup_as in refl
    again_lookup (some q) gone = unfold lookup_as lookup_pending in rw gone

-- A token other than the pending session's gets nothing and destroys nothing: Consume fails and
-- leaves the store as it was, and so does Revoke.
pub stale_token :
    (text : NetText) (seed token : ℕ) (peer : NetAddr) (now : ℕ) (s : SessionStore)
    (p : PendingSession)
    → find_seed seed s.by_seed ≡ some p
    → p.token ≢ token
    → (consume text seed token peer now s ≡ (none, s)) × (revoke seed token s ≡ s)
stale_token text seed token peer now s p found stale = (
  unfold consume in consumed (lobby_peer_identity text peer),
  unfold revoke revoke_pending in ground arith,
)
  where
    consumed : (id : Option (List ℕ)) → consume_as seed token id now s ≡ (none, s)
    consumed none = unfold consume_as in refl
    consumed (some q) = unfold consume_as consume_pending in ground arith

-- The entry that a successful Reserve has made.
reserve_as_inv :
    (session : LobbySession) (id : Option (List ℕ)) (now : ℕ) (s s' : SessionStore) (token : ℕ)
    → reserve_as session id now s ≡ (ok token, s')
    → (peer : List ℕ) × (id ≡ some peer)
      × (find_seed session.ticket_seed s'.by_seed
          ≡ some (record { session = session; peer = peer; token = token }))
unfolding reserve_as
reserve_as_inv session none now s s' token h = absurd (ground arith)
reserve_as_inv session (some peer) now s s' token h =
    let purged = purge_expired_locked now s in
    let entry : PendingSession = record {
      session = session;
      peer = peer;
      token = bump_token purged.next_token;
    } in
    (
      peer,
      refl,
      ground (
        arith,
        lookup-insert ℕ_discrete session.ticket_seed session.ticket_seed entry purged.by_seed,
      ),
    )

-- A reserved ticket works. After a successful Reserve, any peer with the identity of the one that
-- reserved it finds, as long as the session has not expired, by Lookup the session and the token
-- that Reserve gave, with the store unchanged; and Consume with that token gives the session.
pub reserve_usable :
    (text : NetText) (session : LobbySession) (peer peer' : NetAddr) (now later : ℕ)
    (s s' : SessionStore) (token : ℕ)
    → reserve text session peer now s ≡ (ok token, s')
    → lobby_peer_identity text peer' ≡ lobby_peer_identity text peer
    → later < session.expires_at
    → (lookup_session text session.ticket_seed peer' later s' ≡ (some (session, token), s'))
      × ((consume text session.ticket_seed token peer' later s').0 ≡ some session)
reserve_usable text session peer peer' now later s s' token h same live =
    let (id, known, found) =
      reserve_as_inv session (lobby_peer_identity text peer) now s s' token (unfold reserve in h) in
    (
      unfold lookup_session lookup_as lookup_pending in
          rw (same ∙ known, found, lookup_pending) (ground arith),
      unfold consume consume_as consume_pending in
          rw (same ∙ known, found, consume_pending) (ground arith),
    )
