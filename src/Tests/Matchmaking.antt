-- ===== src/Tests/Matchmaking.antt =====
-- The request envelope and the matchmaking store at concrete inputs.
use codboz_nx_online.Base.{
  ℕ, ◌≡◌, ◌+◌, refl, List, [], ◌∷◌, ◌++◌, length, take, drop, arith, ok, some, ℕ_discrete, get_or,
}
use mathlib.Core.List.{Mem}
use codboz_nx_online.Go.Counter.{count, increment}
use codboz_nx_online.Go.Binary.{le_value}
use codboz_nx_online.Go.Bytes.{index_byte}
use codboz_nx_online.Go.Discrete.{bytes_discrete}
use codboz_nx_online.Go.Int32.{pos, ℤ-discrete}
use codboz_nx_online.Go.Map.{lookup, insert}
use codboz_nx_online.Go.Stream.{eof, Stream, read_full}
use codboz_nx_online.Bitdemon.Crypto.{derive_iv, decrypt_3des_cbc, truncated_hmac_sha1}
use codboz_nx_online.Lobby.Envelope.{EncryptedRequest, all_zero, decrypt_request_body}
use codboz_nx_online.Lobby.Envelope.Seal.{
  sealed_body, decrypt_request_body-sealed_body, decrypt_request_body_sound,
}
use codboz_nx_online.Lobby.Matchmaking.{MatchmakingInfo, MatchmakingQuery, MatchmakingSessionId}
use codboz_nx_online.Lobby.MatchmakingStore.{
  MatchmakingStore, StoredSession, new_matchmaking_store, empty_store, find_id, valid_stored_info,
  store_session, new_entry, create, matching, find, matches_query,
}
use codboz_nx_online.Lobby.MatchmakingStore.Invariant.{Inv}
use codboz_nx_online.Lobby.MatchmakingStore.Calls.{
  Call, creates, deletes, step, run, run-new_matchmaking_store-Inv, step_keeps_others,
}
use codboz_nx_online.Lobby.MatchmakingStore.Create.{create_succeeds}
use codboz_nx_online.Lobby.MatchmakingStore.Find.Complete.{find_complete}
use codboz_nx_online.Tests.Bitdemon.{plain, plain-IsCbc, session_key}

abbrev payload : List ℕ
payload = 14 ∷ 15 ∷ 16 ∷ []

-- Under the plain cipher and the plain HMAC the sealed body is readable.
decrypt_request_body-sealed_body_example :
    decrypt_request_body plain (sealed_body plain session_key 9 7 payload) session_key
    ≡ ok (record { seed = 9; service = 7; payload = payload })
unfolding truncated_hmac_sha1
decrypt_request_body-sealed_body_example =
    decrypt_request_body-sealed_body plain session_key 9 7 payload plain-IsCbc refl (omega arith)
      refl refl

abbrev request : EncryptedRequest
request = record { seed = 9; service = 7; payload = payload }

abbrev request_body : List ℕ
request_body = sealed_body plain session_key 9 7 payload

decrypt_request_body_sound_example :
    (plaintext : List ℕ) × (decrypt_3des_cbc plain session_key (derive_iv 9) (drop 5 request_body)
      ≡ ok plaintext)
    × (take 4 plaintext ≡ truncated_hmac_sha1 plain session_key payload)
    × (get_or plaintext 4 0 ≡ 7)
    × (drop 5 plaintext ≡ payload)
    × (9 ≡ le_value (take 4 (drop 1 request_body)))
decrypt_request_body_sound_example =
    decrypt_request_body_sound plain request_body session_key request
      decrypt_request_body-sealed_body_example

abbrev pub hosting : MatchmakingInfo
hosting = record {
  host_address = 10 ∷ 0 ∷ 0 ∷ 1 ∷ [];
  session_id = [];
  game_type = 1;
  max_players = 4;
  num_players = 3;
  attributes = record {
    app_u32_at_11c = 77;
    app_u32_at_120 = 0;
    app_u64_at_128 = 0;
    app_string_at_130 = b'b' ∷ b'o' ∷ b'z' ∷ [];
    app_u32_at_154 = 0;
    app_u32_at_158 = 77;
    app_i32_at_15c = pos 2;
  };
}

abbrev zeros : MatchmakingSessionId
zeros = 0 ∷ 0 ∷ 0 ∷ 0 ∷ 0 ∷ 0 ∷ 0 ∷ 0 ∷ []

abbrev pub ones : MatchmakingSessionId
ones = 1 ∷ 1 ∷ 1 ∷ 1 ∷ 1 ∷ 1 ∷ 1 ∷ 1 ∷ []

abbrev pub twos : MatchmakingSessionId
twos = 2 ∷ 2 ∷ 2 ∷ 2 ∷ 2 ∷ 2 ∷ 2 ∷ 2 ∷ []

abbrev pub bytes_source : List ℕ → Stream
bytes_source bytes = record { pending = bytes; ending = eof }

abbrev history : List (ℕ × Call)
history =
    (5, creates hosting (bytes_source ones))
    ∷ (6, creates hosting (bytes_source (zeros ++ twos)))
    ∷ []

run-new_matchmaking_store-Inv_example : Inv (run (empty_store 4096 4) history)
unfolding new_matchmaking_store
run-new_matchmaking_store-Inv_example =
    run-new_matchmaking_store-Inv 0 0 (empty_store 4096 4) history refl

abbrev first_entry : StoredSession
first_entry = new_entry 5 hosting ones (empty_store 4096 4)

abbrev second_entry : StoredSession
second_entry = new_entry 6 hosting twos (store_session 5 hosting ones (empty_store 4096 4)).1

-- The store after the history.
abbrev two_sessions : MatchmakingStore
two_sessions = run (empty_store 4096 4) history

first_found : find_id ones two_sessions.by_id ≡ some first_entry
unfolding run step create lookup insert valid_stored_info count read_full all_zero bytes_discrete
    index_byte increment
first_found = refl

step_keeps_others_example :
    find_id ones (step two_sessions (6, deletes ones)).by_id ≡ some first_entry
step_keeps_others_example =
    step_keeps_others two_sessions 6 (deletes ones) ones first_entry
      run-new_matchmaking_store-Inv_example first_found (omega arith)

create_succeeds_example :
    let s = empty_store 4096 4 in
    let out = create 5 hosting (bytes_source (zeros ++ ones ++ 9 ∷ [])) s in
    let info = record hosting { session_id = ones; num_players = 1 } in
    (out.0 ≡ ok info)
    × (find_id ones out.1.by_id ≡ some (record { info = info; owner = 5; order = 1 }))
    × (count ℕ_discrete 5 out.1.sessions_by_owner ≡ count ℕ_discrete 5 s.sessions_by_owner + 1)
    × (out.2.pending ≡ 9 ∷ [])
unfolding valid_stored_info lookup count all_zero index_byte
create_succeeds_example =
    create_succeeds 5 hosting (empty_store 4096 4) ones refl refl (zeros ∷ []) (9 ∷ [])
      (bytes_source (zeros ++ ones ++ 9 ∷ [])) (omega arith) refl (omega arith) (omega arith)
      ((refl, refl), tt) (omega arith) refl

abbrev wildcard : MatchmakingQuery
wildcard = record { key = 5381; value = pos 2 }

two_matches : length (matching wildcard two_sessions.by_id) ≡ 2
unfolding run step create lookup insert valid_stored_info count read_full all_zero bytes_discrete
    matching index_byte increment ℤ-discrete
two_matches = refl

find_complete_example : Mem first_entry.info (find wildcard 0 50 two_sessions).0
unfolding matches_query ℤ-discrete
find_complete_example =
    find_complete wildcard 50 two_sessions ones first_entry (omega (arith, two_matches))
      (omega (arith, two_matches)) first_found refl
