-- ===== src/Lobby/MatchmakingStore/Invariant.antt =====
-- matchmaking_store.go: the store's invariant, and that every method keeps it.
use codboz_nx_online.Base.{
  ℕ, ◌≤◌, ◌<◌, ◌≡◌, ◌≢◌, refl, sym, subst, true, false, length, none, some, ok, ℕ_discrete, arith,
}
use codboz_nx_online.Go.Counter.{count}
use codboz_nx_online.Go.Discrete.{bytes_discrete}
use codboz_nx_online.Go.Map.{
  Map, lookup, insert, Unique, lookup-insert, lookup-delete, insert-Unique, delete-Unique,
  length-insert_fresh, length-insert_present, length-delete-le,
}
use codboz_nx_online.Go.Tally.{
  Counted, tally, tally-insert_fresh, tally-insert_same, tally-delete, insert-Counted,
  replace-Counted, delete-Counted,
}
use codboz_nx_online.Lobby.Envelope.{all_zero}
use codboz_nx_online.Lobby.Matchmaking.{MatchmakingInfo, MatchmakingSessionId}
use codboz_nx_online.Lobby.MatchmakingStore.{
  MatchmakingStore, StoredSession, find_id, valid_stored_info, store_session, new_entry, updated,
  delete_locked, new_matchmaking_store, empty_store,
}

abbrev pub owner_of : StoredSession → ℕ
owner_of e = e.owner

-- The number of sessions that the store holds for an owner.
abbrev pub owned_count : ℕ → Map MatchmakingSessionId StoredSession → ℕ
owned_count = tally ℕ_discrete owner_of

-- What is known of each entry: `order` is the store's `next_order`.
pub record IsEntry (id : MatchmakingSessionId) (e : StoredSession) : Type 0 where
  pub named : e.info.session_id ≡ id
  pub valid : valid_stored_info e.info ≡ true
  pub has_owner : e.owner ≢ 0
  pub one_player : e.info.num_players ≡ 1
  pub nonzero : all_zero id ≡ false

pub record Inv (s : MatchmakingStore) : Type 0 where
  pub unique : Unique bytes_discrete s.by_id
  pub counted : Counted ℕ_discrete owner_of s.by_id s.sessions_by_owner
  pub bounded : length s.by_id ≤ s.max_sessions
  pub owner_bounded : (o : ℕ) → owned_count o s.by_id ≤ s.max_sessions_per_owner
  pub entries :
      (id : MatchmakingSessionId) (e : StoredSession) → find_id id s.by_id ≡ some e → IsEntry id e

empty-Inv : (m p : ℕ) → Inv (empty_store m p)
unfolding lookup tally count
empty-Inv m p = record {
  unique = tt;
  counted = λ o. refl;
  bounded = omega arith;
  owner_bounded = λ o. omega arith;
  entries = λ id e h. cc;
}

new_store_inv :
    (m p : ℕ) (s : MatchmakingStore)
    → new_matchmaking_store m p ≡ ok s
    → s ≡ empty_store s.max_sessions s.max_sessions_per_owner
unfolding new_matchmaking_store
new_store_inv m p s h = ground arith

pub new-Inv : (m p : ℕ) (s : MatchmakingStore) → new_matchmaking_store m p ≡ ok s → Inv s
new-Inv m p s h =
    subst Inv (sym (new_store_inv m p s h)) (empty-Inv s.max_sessions s.max_sessions_per_owner)

module _ (s : MatchmakingStore) (v : Inv s) where
  pub store_session-Inv :
      (owner : ℕ) (requested : MatchmakingInfo) (id : MatchmakingSessionId)
      → owner ≢ 0
      → valid_stored_info requested ≡ true
      → all_zero id ≡ false
      → find_id id s.by_id ≡ none
      → length s.by_id < s.max_sessions
      → count ℕ_discrete owner s.sessions_by_owner < s.max_sessions_per_owner
      → Inv (store_session owner requested id s).1
  unfolding store_session valid_stored_info
  store_session-Inv owner requested id has valid nonzero fresh room owner_room =
      let entry = new_entry owner requested id s in
      record {
        unique = insert-Unique bytes_discrete id entry s.by_id v.unique;
        counted =
            insert-Counted bytes_discrete ℕ_discrete owner_of s.by_id s.sessions_by_owner v.counted
              id entry fresh;
        bounded = omega (arith, length-insert_fresh bytes_discrete id entry s.by_id fresh);
        owner_bounded = λ o. ground (
          arith,
          v.counted o,
          v.owner_bounded o,
          tally-insert_fresh bytes_discrete ℕ_discrete owner_of o id entry s.by_id fresh,
        );
        entries =
            λ j e h. ground (arith, lookup-insert bytes_discrete id j entry s.by_id, v.entries j e);
      }

  pub delete_locked-Inv :
      (id : MatchmakingSessionId) (e : StoredSession)
      → find_id id s.by_id ≡ some e
      → Inv (delete_locked id e s)
  unfolding delete_locked
  delete_locked-Inv id e found = record {
    unique = delete-Unique bytes_discrete id s.by_id v.unique;
    counted =
        delete-Counted bytes_discrete ℕ_discrete owner_of s.by_id s.sessions_by_owner v.counted id e
          v.unique found;
    bounded = omega (arith, length-delete-le bytes_discrete id s.by_id, v.bounded);
    owner_bounded = λ o. omega (
      arith,
      v.owner_bounded o,
      tally-delete bytes_discrete ℕ_discrete owner_of o id e s.by_id v.unique found,
    );
    entries = λ j x h. ground (arith, lookup-delete bytes_discrete id j s.by_id, v.entries j x);
  }

  pub update_entry-Inv :
      (id : MatchmakingSessionId) (requested : MatchmakingInfo) (e : StoredSession)
      → valid_stored_info requested ≡ true
      → find_id id s.by_id ≡ some e
      → Inv (record s { by_id = insert bytes_discrete id (updated requested id e) s.by_id })
  unfolding valid_stored_info
  update_entry-Inv id requested e valid found =
      let fresh = updated requested id e in
      let old = v.entries id e found in
      record {
        unique = insert-Unique bytes_discrete id fresh s.by_id v.unique;
        counted =
            replace-Counted bytes_discrete ℕ_discrete owner_of s.by_id s.sessions_by_owner v.counted
              id fresh e found refl;
        bounded =
            omega (arith, length-insert_present bytes_discrete id fresh e s.by_id found, v.bounded);
        owner_bounded = λ o. omega (
          arith,
          v.owner_bounded o,
          tally-insert_same bytes_discrete ℕ_discrete owner_of o id fresh e s.by_id found refl,
        );
        entries = λ j x h.
            ground (arith, lookup-insert bytes_discrete id j fresh s.by_id, v.entries j x, old);
      }
