-- ===== src/Lobby/MatchmakingStore/Calls.antt =====
-- matchmaking_store.go: any history of calls, by any owners.
use codboz_nx_online.Base.{
  ℕ, zero, suc, ◌≡◌, ◌≢◌, List, [], ◌∷◌, inl, inr, some, Result, ok, err, arith, Option-cases,
}
use codboz_nx_online.Go.Discrete.{bytes_discrete}
use codboz_nx_online.Go.Map.{lookup-insert, lookup-delete}
use codboz_nx_online.Go.Stream.{IoError, Stream, read_full}
use codboz_nx_online.Lobby.Matchmaking.{MatchmakingInfo, MatchmakingSessionId}
use codboz_nx_online.Lobby.MatchmakingStore.{
  MatchmakingStore, StoredSession, Created, find_id, store_session, new_entry, updated,
  try_session_id, create_loop, create, new_matchmaking_store, owned_session, update, delete_session,
  delete_owner,
}
use codboz_nx_online.Lobby.MatchmakingStore.Invariant.{Inv, new-Inv}
use codboz_nx_online.Lobby.MatchmakingStore.Preserve.{create-Inv, update-Inv, delete_session-Inv}
use codboz_nx_online.Lobby.MatchmakingStore.Owners.{delete_owner-Inv, find_id-delete_owner}

-- The calls that change the store; `random` is what the random source will deliver.
pub data Call : Type 0 where
  creates : MatchmakingInfo → Stream → Call
  updates : MatchmakingSessionId → MatchmakingInfo → Call
  deletes : MatchmakingSessionId → Call
  disconnects : Call

unfoldable pub step : MatchmakingStore → ℕ × Call → MatchmakingStore
step s (owner, creates info random) = (create owner info random s).1
step s (owner, updates id info) = (update owner id info s).1
step s (owner, deletes id) = (delete_session owner id s).1
step s (owner, disconnects) = delete_owner owner s

unfoldable pub run : MatchmakingStore → List (ℕ × Call) → MatchmakingStore
run s [] = s
run s (c ∷ cs) = run (step s c) cs

-- One call, of any kind and outcome, keeps the invariant.
pub step-Inv : (s : MatchmakingStore) (c : ℕ × Call) → Inv s → Inv (step s c)
unfolding step
step-Inv s (owner, creates info random) v = create-Inv s v owner info random
step-Inv s (owner, updates id info) v = update-Inv s v owner id info
step-Inv s (owner, deletes id) v = delete_session-Inv s v owner id
step-Inv s (owner, disconnects) v = delete_owner-Inv owner s v

pub run-Inv : (s : MatchmakingStore) (cs : List (ℕ × Call)) → Inv s → Inv (run s cs)
unfolding run
run-Inv s [] v = v
run-Inv s (c ∷ cs) v = run-Inv (step s c) cs (step-Inv s c v)

-- A store that the constructor made, after any history of calls by any owners, failed calls and
-- disconnections included: no identifier has two entries; the count kept for each owner is the
-- number of its sessions; neither the total nor an owner's number exceeds its limit; and each entry
-- carries its own identifier, which is not all zero, an owner other than 0, one player, and an info
-- that passes the store's validation.
pub run-new_matchmaking_store-Inv :
    (max_sessions max_per_owner : ℕ) (s : MatchmakingStore) (cs : List (ℕ × Call))
    → new_matchmaking_store max_sessions max_per_owner ≡ ok s
    → Inv (run s cs)
run-new_matchmaking_store-Inv m p s cs made = run-Inv s cs (new-Inv m p s made)

create_loop_keeps :
    (n owner : ℕ) (info : MatchmakingInfo) (s : MatchmakingStore) (random : Stream)
    (id : MatchmakingSessionId) (e : StoredSession)
    → find_id id s.by_id ≡ some e
    → find_id id (create_loop n owner info s random).1.by_id ≡ some e
unfolding create_loop
create_loop_keeps zero owner info s random id e found = found
create_loop_keeps (suc n) owner info s random id e found =
    let (read, random') = read_full 8 random in
    keep read random' (create_loop n owner info s random')
      (create_loop_keeps n owner info s random' id e found)
  where
    keep :
        (read : Result IoError MatchmakingSessionId) (random' : Stream) (retry : Created)
        → find_id id retry.1.by_id ≡ some e
        → find_id id (try_session_id owner info s random' read retry).1.by_id ≡ some e
    keep (err x) random' retry kept = unfold try_session_id in found
    keep (ok j) random' retry kept =
        unfold try_session_id store_session in
        ground (arith, lookup-insert bytes_discrete j id (new_entry owner info j s) s.by_id)

create_keeps :
    (owner : ℕ) (info : MatchmakingInfo) (s : MatchmakingStore) (random : Stream)
    (id : MatchmakingSessionId) (e : StoredSession)
    → find_id id s.by_id ≡ some e
    → find_id id (create owner info random s).1.by_id ≡ some e
unfolding create
create_keeps owner info s random id e found =
    ground (arith, create_loop_keeps 16 owner info s random id e found)

update_keeps :
    (owner : ℕ) (j : MatchmakingSessionId) (info : MatchmakingInfo) (s : MatchmakingStore)
    (id : MatchmakingSessionId) (e : StoredSession)
    → find_id id s.by_id ≡ some e
    → e.owner ≢ owner
    → find_id id (update owner j info s).1.by_id ≡ some e
unfolding update
update_keeps owner j info s id e found other = elim (Option-cases (find_id j s.by_id)) [
  | inl miss ↦ rw (miss, owned_session) (ground arith)
  | inr (x, hit) ↦
      rw (hit, owned_session)
        (ground (arith, lookup-insert bytes_discrete j id (updated info j x) s.by_id))
]

delete_keeps :
    (owner : ℕ) (j : MatchmakingSessionId) (s : MatchmakingStore) (id : MatchmakingSessionId)
    (e : StoredSession)
    → find_id id s.by_id ≡ some e
    → e.owner ≢ owner
    → find_id id (delete_session owner j s).1.by_id ≡ some e
unfolding delete_session
delete_keeps owner j s id e found other = elim (Option-cases (find_id j s.by_id)) [
  | inl miss ↦ rw (miss, owned_session) found
  | inr (x, hit) ↦
      rw (hit, owned_session) (ground (arith, lookup-delete bytes_discrete j id s.by_id))
]

-- No call of one owner touches another owner's session: in a store that meets the invariant, an
-- entry whose owner is not the caller is found unchanged under its identifier after any call.
pub step_keeps_others :
    (s : MatchmakingStore) (owner : ℕ) (c : Call) (id : MatchmakingSessionId) (e : StoredSession)
    → Inv s
    → find_id id s.by_id ≡ some e
    → e.owner ≢ owner
    → find_id id (step s (owner, c)).by_id ≡ some e
unfolding step
step_keeps_others s owner (creates info random) id e v found other =
    create_keeps owner info s random id e found
step_keeps_others s owner (updates j info) id e v found other =
    update_keeps owner j info s id e found other
step_keeps_others s owner (deletes j) id e v found other = delete_keeps owner j s id e found other
step_keeps_others s owner disconnects id e v found other =
    ground (arith, find_id-delete_owner owner id s v)
