-- ===== src/Auth/Handler/Reservations.antt =====
-- handler.go: an AccountForMMP request that fails leaves no reservation behind.
use codboz_nx_online.Base.{
  ℕ, ◌≡◌, Bool-cases, inl, inr, not, ◌||◌, List, ltb, leb, ◌==◌, length, Option, none, some, Result,
  ok, err, ℕ_discrete, arith,
}
use codboz_nx_online.Go.Counter.{count}
use codboz_nx_online.Go.Map.{insert, lookup-insert, lookup-delete}
use codboz_nx_online.Go.Net.{NetAddr, NetText}
use codboz_nx_online.Auth.LobbySession.{
  SessionStore, PendingSession, LobbySession, SessionError, find_seed, is_pending, delete_locked,
  purge_expired_locked, boz_title_id, store_pending, bump_token, reserve_purged, reserve_as,
  reserve, revoke_pending, revoke, lobby_peer_identity,
}
use codboz_nx_online.Auth.LobbySession.Invariant.{Inv}
use codboz_nx_online.Auth.LobbySession.Purge.{find_seed-purge}

-- Every session of the second store was pending in the first.
abbrev pub Kept : SessionStore → SessionStore → Type 0
Kept s s' =
    (j : ℕ) (p : PendingSession) → find_seed j s'.by_seed ≡ some p → find_seed j s.by_seed ≡ some p

purge-Kept : (now : ℕ) (s : SessionStore) → Inv s → Kept s (purge_expired_locked now s)
purge-Kept now s v j p h = ground (arith, find_seed-purge now j s v)

-- A failed Reserve keeps what is pending; the token of a successful one revokes what it adds.
abbrev pub Reserved : SessionStore → ℕ → Result SessionError ℕ × SessionStore → Type 0
Reserved s seed (ok token, s') = Kept s (revoke seed token s')
Reserved s seed (err e, s') = Kept s s'

store_pending-revoke :
    (session : LobbySession) (peer : List ℕ) (s : SessionStore)
    → find_seed session.ticket_seed s.by_seed ≡ none
    → Kept s (revoke session.ticket_seed (bump_token s.next_token) (store_pending session peer s))
unfolding store_pending revoke revoke_pending delete_locked
store_pending-revoke session peer s fresh j p h =
    let seed = session.ticket_seed in
    let entry : PendingSession = record {
      session = session;
      peer = peer;
      token = bump_token s.next_token;
    } in
    ground (
      arith,
      lookup-insert ℕ_discrete seed seed entry s.by_seed,
      lookup-insert ℕ_discrete seed j entry s.by_seed,
      lookup-delete ℕ_discrete seed j (insert ℕ_discrete seed entry s.by_seed),
    )

reserve_purged-Reserved :
    (session : LobbySession) (peer : List ℕ) (s : SessionStore)
    → Reserved s session.ticket_seed (reserve_purged session peer s)
unfolding reserve_purged
reserve_purged-Reserved session peer s =
    let taken = is_pending (find_seed session.ticket_seed s.by_seed) in
    let account_full =
      leb s.max_sessions_per_account (count ℕ_discrete session.user_id s.sessions_by_account) in
    elim (Bool-cases taken) [
      | inl collision ↦ rw collision (λ j p h. h)
      | inr fresh ↦ elim (Bool-cases account_full) [
        | inl full ↦ rw (fresh, full) (λ j p h. h)
        | inr account_room ↦ elim (Bool-cases (leb s.max_sessions (length s.by_seed))) [
          | inl full ↦ rw (fresh, account_room, full) (λ j p h. h)
          | inr room ↦
              rw (fresh, account_room, room) (store_pending-revoke session peer s (ground arith))
        ]
      ]
    ]

Reserved-trans :
    (s s1 : SessionStore) (seed : ℕ) (out : Result SessionError ℕ × SessionStore)
    → Kept s s1
    → Reserved s1 seed out
    → Reserved s seed out
Reserved-trans s s1 seed (ok token, s') first later = λ j p h. first j p (later j p h)
Reserved-trans s s1 seed (err e, s') first later = λ j p h. first j p (later j p h)

reserve_as-Reserved :
    (session : LobbySession) (id : Option (List ℕ)) (now : ℕ) (s : SessionStore)
    → Inv s
    → Reserved s session.ticket_seed (reserve_as session id now s)
unfolding reserve_as
reserve_as-Reserved session none now s v = λ j p h. h
reserve_as-Reserved session (some peer) now s v =
    let bad =
      session.user_id == 0
      || not (session.title_id == boz_title_id)
      || not (ltb now session.expires_at) in
    let purged = purge_expired_locked now s in
    elim (Bool-cases bad) [
      | inl e ↦ rw e (λ j p h. h)
      | inr good ↦ rw good (
          Reserved-trans s purged session.ticket_seed (reserve_purged session peer purged)
            (purge-Kept now s v) (reserve_purged-Reserved session peer purged))
    ]

pub reserve-Reserved :
    (text : NetText) (session : LobbySession) (peer : NetAddr) (now : ℕ) (s : SessionStore)
    → Inv s
    → Reserved s session.ticket_seed (reserve text session peer now s)
unfolding reserve
reserve-Reserved text session peer now s v =
    reserve_as-Reserved session (lobby_peer_identity text peer) now s v
