-- ===== src/Auth/LobbySession/Calls.antt =====
-- lobby_session.go: any history of calls keeps the invariant.
use codboz_nx_online.Base.{
  ℕ, ◌≡◌, ◌≢◌, not, ◌||◌, List, [], ◌∷◌, inl, inr, ltb, leb, ◌==◌, length, Option, none, some, ok,
  ℕ_discrete, arith, Bool-cases, Option-cases,
}
use codboz_nx_online.Go.Counter.{count}
use codboz_nx_online.Go.Net.{NetAddr, NetText}
use codboz_nx_online.Auth.LobbySession.{
  SessionStore, PendingSession, LobbySession, find_seed, new_session_store, is_live, is_pending,
  same_peer, purge_expired_locked, boz_title_id, reserve_purged, reserve_as, reserve,
  lookup_pending, lookup_as, lookup_session, consume_pending, consume_as, consume, revoke_pending,
  revoke, lobby_peer_identity,
}
use codboz_nx_online.Auth.LobbySession.Invariant.{
  Inv, new-Inv, store_pending-Inv, delete_locked-Inv,
}
use codboz_nx_online.Auth.LobbySession.Purge.{purge-Inv}

-- What a method does with the entry that it finds keeps a property of the store.
found_cases {ℓ} :
    (P : SessionStore → Type ℓ) (seed : ℕ) (s : SessionStore)
    (act : Option PendingSession → SessionStore)
    → P (act none)
    → ((p : PendingSession) → find_seed seed s.by_seed ≡ some p → P (act (some p)))
    → P (act (find_seed seed s.by_seed))
found_cases P seed s act missing hit = elim (Option-cases (find_seed seed s.by_seed)) [
  | inl e ↦ rw e missing
  | inr (p, e) ↦ rw e (hit p e)
]

module _ (s : SessionStore) (v : Inv s) where
  reserve_purged-Inv :
      (session : LobbySession) (peer : List ℕ)
      → session.user_id ≢ 0
      → session.title_id ≡ boz_title_id
      → Inv (reserve_purged session peer s).1
  unfolding reserve_purged
  reserve_purged-Inv session peer has titled =
      let taken = is_pending (find_seed session.ticket_seed s.by_seed) in
      let account_full =
        leb s.max_sessions_per_account (count ℕ_discrete session.user_id s.sessions_by_account) in
      elim (Bool-cases taken) [
        | inl collision ↦ rw collision v
        | inr fresh ↦ elim (Bool-cases account_full) [
          | inl full ↦ rw (fresh, full) v
          | inr account_room ↦ elim (Bool-cases (leb s.max_sessions (length s.by_seed))) [
            | inl full ↦ rw (fresh, account_room, full) v
            | inr room ↦
                rw (fresh, account_room, room)
                  (store_pending-Inv s v session peer has titled (ground arith) (ground arith)
                    (ground arith))
          ]
        ]
      ]

  lookup_pending-Inv :
      (seed : ℕ) (peer : List ℕ) (now : ℕ) (p : PendingSession)
      → find_seed seed s.by_seed ≡ some p
      → Inv (lookup_pending seed peer now s (some p)).1
  unfolding lookup_pending
  lookup_pending-Inv seed peer now p found = elim (Bool-cases (is_live now p)) [
    | inl live ↦ elim (Bool-cases (same_peer peer p)) [
      | inl same ↦ rw (live, same) v
      | inr other ↦ rw (live, other) v
    ]
    | inr old ↦ rw old (delete_locked-Inv s v seed p found)
  ]

  consume_pending-Inv :
      (seed token : ℕ) (peer : List ℕ) (now : ℕ) (p : PendingSession)
      → find_seed seed s.by_seed ≡ some p
      → Inv (consume_pending seed token peer now s (some p)).1
  unfolding consume_pending
  consume_pending-Inv seed token peer now p found = elim (Bool-cases (p.token == token)) [
    | inl mine ↦ elim (Bool-cases (is_live now p)) [
      | inl live ↦ elim (Bool-cases (same_peer peer p)) [
        | inl same ↦ rw (mine, live, same) (delete_locked-Inv s v seed p found)
        | inr other ↦ rw (mine, live, other) v
      ]
      | inr old ↦ rw (mine, old) (delete_locked-Inv s v seed p found)
    ]
    | inr stale ↦ rw stale v
  ]

  revoke_pending-Inv :
      (seed token : ℕ) (p : PendingSession)
      → find_seed seed s.by_seed ≡ some p
      → Inv (revoke_pending seed token s (some p))
  unfolding revoke_pending
  revoke_pending-Inv seed token p found = elim (Bool-cases (p.token == token)) [
    | inl mine ↦ rw mine (delete_locked-Inv s v seed p found)
    | inr stale ↦ rw stale v
  ]

-- The calls that change the store; each comes from a peer at a time.
pub data Call : Type 0 where
  reserves : LobbySession → NetAddr → ℕ → Call
  looks_up : ℕ → NetAddr → ℕ → Call
  consumes : ℕ → ℕ → NetAddr → ℕ → Call
  revokes : ℕ → ℕ → Call

module _ (text : NetText) where
  pub reserve-Inv :
      (s : SessionStore) (session : LobbySession) (id : Option (List ℕ)) (now : ℕ)
      → Inv s
      → Inv (reserve_as session id now s).1
  unfolding reserve_as
  reserve-Inv s session none now v = v
  reserve-Inv s session (some peer) now v =
      let bad =
        session.user_id == 0
        || not (session.title_id == boz_title_id)
        || not (ltb now session.expires_at) in
      elim (Bool-cases bad) [
        | inl e ↦ rw e v
        | inr good ↦ rw good (
            reserve_purged-Inv (purge_expired_locked now s) (purge-Inv now s v) session peer
              (ground arith) (ground arith))
      ]

  lookup-Inv :
      (s : SessionStore) (seed : ℕ) (id : Option (List ℕ)) (now : ℕ)
      → Inv s
      → Inv (lookup_as seed id now s).1
  unfolding lookup_as
  lookup-Inv s seed none now v = v
  lookup-Inv s seed (some peer) now v =
      found_cases Inv seed s (λ o. (lookup_pending seed peer now s o).1)
        (unfold lookup_pending in v) (lookup_pending-Inv s v seed peer now)

  consume-Inv :
      (s : SessionStore) (seed token : ℕ) (id : Option (List ℕ)) (now : ℕ)
      → Inv s
      → Inv (consume_as seed token id now s).1
  unfolding consume_as
  consume-Inv s seed token none now v = v
  consume-Inv s seed token (some peer) now v =
      found_cases Inv seed s (λ o. (consume_pending seed token peer now s o).1)
        (unfold consume_pending in v) (consume_pending-Inv s v seed token peer now)

  pub revoke-Inv : (s : SessionStore) (seed token : ℕ) → Inv s → Inv (revoke seed token s)
  unfolding revoke
  revoke-Inv s seed token v =
      found_cases Inv seed s (revoke_pending seed token s) (unfold revoke_pending in v)
        (revoke_pending-Inv s v seed token)

  unfoldable pub step : SessionStore → Call → SessionStore
  step s (reserves session peer now) = (reserve text session peer now s).1
  step s (looks_up seed peer now) = (lookup_session text seed peer now s).1
  step s (consumes seed token peer now) = (consume text seed token peer now s).1
  step s (revokes seed token) = revoke seed token s

  unfoldable pub run : SessionStore → List Call → SessionStore
  unfolding step
  run s [] = s
  run s (c ∷ cs) = run (step s c) cs

  step-Inv : (s : SessionStore) (c : Call) → Inv s → Inv (step s c)
  step-Inv s (reserves session peer now) v =
      unfold step reserve in reserve-Inv s session (lobby_peer_identity text peer) now v
  step-Inv s (looks_up seed peer now) v =
      unfold step lookup_session in lookup-Inv s seed (lobby_peer_identity text peer) now v
  step-Inv s (consumes seed token peer now) v =
      unfold step consume in consume-Inv s seed token (lobby_peer_identity text peer) now v
  step-Inv s (revokes seed token) v = unfold step in revoke-Inv s seed token v

  run-Inv : (s : SessionStore) (cs : List Call) → Inv s → Inv (run s cs)
  unfolding run
  run-Inv s [] v = v
  run-Inv s (c ∷ cs) v = run-Inv (step s c) cs (step-Inv s c v)

  -- A session store that the constructor made, after any history of calls from any peers at any
  -- times: no seed has two sessions; the count kept for each account is the number of its pending
  -- sessions; neither the total nor an account's number exceeds its limit; and each pending session
  -- stands under its own seed, with a user and a token other than 0 and the game's title.
  pub run-new_session_store-Inv :
      (max_sessions max_per_account : ℕ) (s : SessionStore) (cs : List Call)
      → new_session_store max_sessions max_per_account ≡ ok s
      → Inv (run s cs)
  run-new_session_store-Inv m p s cs made = run-Inv s cs (new-Inv m p s made)
