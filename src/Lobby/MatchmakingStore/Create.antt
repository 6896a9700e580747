-- ===== src/Lobby/MatchmakingStore/Create.antt =====
-- matchmaking_store.go, Create: when it succeeds, and what it has stored then.
use codboz_nx_online.Base.{
  ℕ, zero, suc, ◌+◌, ◌%◌, ◌^◌, ◌<◌, ◌≡◌, ◌≢◌, refl, sym, ap, ◌∙◌, true, false, ◌||◌, List, [], ◌∷◌,
  ◌++◌, append_assoc, length, All, some, Result, ok, ℕ_discrete, arith,
}
use codboz_nx_online.Go.Counter.{count, count-increment}
use codboz_nx_online.Go.Discrete.{bytes_discrete}
use codboz_nx_online.Go.Map.{lookup-insert}
use codboz_nx_online.Go.Stream.{IoError, Stream, read_full, read_full_front}
use codboz_nx_online.Lobby.Envelope.{all_zero}
use codboz_nx_online.Lobby.Matchmaking.{MatchmakingInfo, MatchmakingSessionId}
use codboz_nx_online.Lobby.MatchmakingStore.{
  MatchmakingStore, StoredSession, Created, find_id, is_taken, valid_stored_info, store_session,
  new_entry, try_session_id, create_loop, create,
}

-- A draw of 8 bytes that Create does not take for an identifier.
abbrev Unusable : MatchmakingStore → MatchmakingSessionId → Type 0
Unusable s id = (length id ≡ 8) × ((all_zero id || is_taken (find_id id s.by_id)) ≡ true)

abbrev pub draws : List MatchmakingSessionId → List ℕ
draws [] = []
draws (id ∷ ids) = id ++ draws ids

module _ (owner : ℕ) (requested : MatchmakingInfo) (s : MatchmakingStore)
    (id : MatchmakingSessionId) (size : length id ≡ 8)
    (usable : (all_zero id || is_taken (find_id id s.by_id)) ≡ false) where
  one_round :
      (n : ℕ) (j : MatchmakingSessionId) (rest : List ℕ) (random : Stream)
      → length j ≡ 8
      → random.pending ≡ j ++ rest
      → create_loop (suc n) owner requested s random
        ≡ try_session_id owner requested s
            (record random { pending = rest })
            (ok j)
            (create_loop n owner requested s (record random { pending = rest }))
  unfolding create_loop
  one_round n j rest random eight at =
      ap
        (λ (o : Result IoError (List ℕ) × Stream).
          try_session_id owner requested s o.1 o.0 (create_loop n owner requested s o.1))
        (ap (λ k. read_full k random) (sym eight) ∙ read_full_front j rest random at)

  try_again :
      (j : MatchmakingSessionId) (random : Stream) (retry : Created)
      → (all_zero j || is_taken (find_id j s.by_id)) ≡ true
      → try_session_id owner requested s random (ok j) retry ≡ retry
  unfolding try_session_id
  try_again j random retry bad = rw bad

  create_loop_succeeds :
      (n : ℕ) (ids : List MatchmakingSessionId) (rest : List ℕ) (random : Stream)
      → All (Unusable s) ids
      → length ids < n
      → random.pending ≡ draws ids ++ (id ++ rest)
      → create_loop n owner requested s random ≡ (
        ok (new_entry owner requested id s).info,
        (store_session owner requested id s).1,
        record random { pending = rest },
      )
  create_loop_succeeds zero ids rest random bad short at = absurd (omega arith)
  create_loop_succeeds (suc n) [] rest random bad short at =
      one_round n id rest random size at ∙ (unfold try_session_id store_session in rw usable)
  create_loop_succeeds (suc n) (j ∷ ids) rest random bad short at =
      one_round n j (draws ids ++ (id ++ rest)) random bad.0.0
        (at ∙ append_assoc j (draws ids) (id ++ rest))
      ∙ try_again j (record random { pending = draws ids ++ (id ++ rest) }) _ bad.0.1
      ∙ create_loop_succeeds n ids rest _ bad.1 (omega arith) refl

  create_begins :
      (random : Stream)
      → owner ≢ 0
      → valid_stored_info requested ≡ true
      → length s.by_id < s.max_sessions
      → count ℕ_discrete owner s.sessions_by_owner < s.max_sessions_per_owner
      → create owner requested random s ≡ create_loop 16 owner requested s random
  unfolding create
  create_begins random has valid room owner_room = ground arith

  -- An owner other than 0 with a valid info, below both limits, gets a session whenever a usable
  -- identifier is among the first 16 draws of 8 bytes: the first that is neither all zero nor taken
  -- is given to the session, which is returned and stored under it with the info of the call, one
  -- player, the caller as its owner and the next number of the store's counter; the owner's count
  -- rises by one; and the draws behind the identifier are not consumed.
  pub create_succeeds :
      (ids : List MatchmakingSessionId) (rest : List ℕ) (random : Stream)
      → owner ≢ 0
      → valid_stored_info requested ≡ true
      → length s.by_id < s.max_sessions
      → count ℕ_discrete owner s.sessions_by_owner < s.max_sessions_per_owner
      → All (Unusable s) ids
      → length ids < 16
      → random.pending ≡ draws ids ++ (id ++ rest)
      → let out = create owner requested random s in
        let info = record requested { session_id = id; num_players = 1 } in
        let entry : StoredSession = record {
          info = info;
          owner = owner;
          order = (s.next_order + 1) % 2 ^ 64;
        } in
        (out.0 ≡ ok info)
        × (find_id id out.1.by_id ≡ some entry)
        × (count ℕ_discrete owner out.1.sessions_by_owner
            ≡ count ℕ_discrete owner s.sessions_by_owner + 1)
        × (out.2.pending ≡ rest)
  create_succeeds ids rest random has valid room owner_room bad short at =
      let entry = new_entry owner requested id s in
      rw
        (
          create_begins random has valid room owner_room,
          create_loop_succeeds 16 ids rest random bad short at,
        )
        (
          refl,
          unfold store_session in ground (arith, lookup-insert bytes_discrete id id entry s.by_id),
          unfold store_session in
              ground (arith, count-increment ℕ_discrete owner owner s.sessions_by_owner),
          refl,
        )
