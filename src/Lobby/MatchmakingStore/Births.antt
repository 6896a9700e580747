-- ===== src/Lobby/MatchmakingStore/Births.antt =====
-- matchmaking_store.go: the order number of a session is the place of its creation in the history.
use codboz_nx_online.Base.{
  ℕ, zero, suc, ◌+◌, ◌^◌, ◌≤◌, ◌<◌, ◌≡◌, refl, sym, ap, ◌∙◌, not, ◌||◌, List, [], ◌∷◌, leb, ◌==◌,
  if◌then◌else◌, length, Option, none, some, Result, ok, err, ℕ_discrete, arith, Bool-cases,
  Option-cases, inl, inr,
}
use codboz_nx_online.Go.Counter.{count}
use codboz_nx_online.Go.Discrete.{bytes_discrete}
use codboz_nx_online.Go.Map.{lookup, lookup-insert, lookup-delete}
use codboz_nx_online.Go.Stream.{IoError, Stream, read_full}
use codboz_nx_online.Lobby.Envelope.{all_zero}
use codboz_nx_online.Lobby.Matchmaking.{MatchmakingInfo, MatchmakingSessionId}
use codboz_nx_online.Lobby.MatchmakingStore.{
  MatchmakingStore, new_matchmaking_store, StoredSession, StoreError, Created, find_id, is_taken,
  valid_stored_info, new_entry, updated, store_session, try_session_id, create_loop, create,
  owned_session, update, delete_locked, delete_session, delete_owned, delete_owner,
}
use codboz_nx_online.Lobby.MatchmakingStore.Invariant.{Inv, new-Inv}
use codboz_nx_online.Lobby.MatchmakingStore.Owners.{find_id-delete_owner}
use codboz_nx_online.Lobby.MatchmakingStore.Calls.{
  Call, creates, updates, deletes, disconnects, step, run, step-Inv, run-Inv,
}

-- The identifier of the n-th creation, counted from 1, of a list with the newest in front.
abbrev pub birth : ℕ → List MatchmakingSessionId → Option MatchmakingSessionId
birth n [] = none
birth n (id ∷ older) = if n == length older + 1 then some id else birth n older

abbrev given :
    Result StoreError MatchmakingInfo → List MatchmakingSessionId → List MatchmakingSessionId
given (ok info) b = info.session_id ∷ b
given (err e) b = b

unfoldable births_after :
    MatchmakingStore → ℕ × Call → List MatchmakingSessionId → List MatchmakingSessionId
births_after s (owner, creates info random) b = given (create owner info random s).0 b
births_after s (owner, updates id info) b = b
births_after s (owner, deletes id) b = b
births_after s (owner, disconnects) b = b

-- The identifiers that the creations of a history have given out, the newest in front.
unfoldable pub births :
    MatchmakingStore → List (ℕ × Call) → List MatchmakingSessionId → List MatchmakingSessionId
unfolding births_after
births s [] b = b
births s (c ∷ cs) b = births (step s c) cs (births_after s c b)

birth_old :
    (n : ℕ) (b : List MatchmakingSessionId) (id : MatchmakingSessionId)
    → birth n b ≡ some id
    → n ≤ length b
birth_old n [] id h = cc
birth_old n (x ∷ older) id h = elim (ℕ_discrete n (length older + 1)) [
  | yes last ↦ omega arith
  | no before ↦
      let earlier : birth n older ≡ some id = ground arith in
      omega (arith, birth_old n older id earlier)
]

-- What Create does to the store.
data Creation (owner : ℕ) (info : MatchmakingInfo) (s : MatchmakingStore) (out : Created)
    : Type 0 where
  made :
      (id : MatchmakingSessionId)
      → find_id id s.by_id ≡ none
      → out.0 ≡ ok (new_entry owner info id s).info
      → out.1 ≡ (store_session owner info id s).1
      → Creation owner info s out
  refused : (e : StoreError) → out.0 ≡ err e → out.1 ≡ s → Creation owner info s out

module _ (owner : ℕ) (info : MatchmakingInfo) (s : MatchmakingStore) where
  try-Creation :
      (random : Stream) (read : Result IoError MatchmakingSessionId) (retry : Created)
      → Creation owner info s retry
      → Creation owner info s (try_session_id owner info s random read retry)
  unfolding try_session_id store_session
  try-Creation random (err e) retry again = refused _ refl refl
  try-Creation random (ok id) retry again =
      elim (Bool-cases (all_zero id || is_taken (find_id id s.by_id))) [
        | inl bad ↦ rw bad again
        | inr good ↦ rw good (made id (ground arith) refl refl)
      ]

  create_loop-Creation :
      (n : ℕ) (random : Stream) → Creation owner info s (create_loop n owner info s random)
  unfolding create_loop
  create_loop-Creation zero random = refused _ refl refl
  create_loop-Creation (suc n) random =
      let (read, random') = read_full 8 random in
      try-Creation random' read (create_loop n owner info s random')
        (create_loop-Creation n random')

  create-Creation : (random : Stream) → Creation owner info s (create owner info random s)
  unfolding create
  create-Creation random = elim (Bool-cases (owner == 0 || not (valid_stored_info info))) [
    | inl bad ↦ rw bad (refused _ refl refl)
    | inr good ↦ elim (Bool-cases (leb s.max_sessions (length s.by_id))) [
      | inl full ↦ rw (good, full) (refused _ refl refl)
      | inr room ↦
          elim (Bool-cases
            (leb s.max_sessions_per_owner (count ℕ_discrete owner s.sessions_by_owner))) [
              | inl owner_full ↦ rw (good, room, owner_full) (refused _ refl refl)
              | inr owner_room ↦ rw (good, room, owner_room) (create_loop-Creation 16 random)
            ]
    ]
  ]

-- The counter stands at the number of creations, and every session's order number is that of the
-- creation which gave out its identifier.
pub record IsNumbered (b : List MatchmakingSessionId) (s : MatchmakingStore) : Type 0 where
  pub counted : s.next_order ≡ length b
  pub born :
      (id : MatchmakingSessionId) (e : StoredSession)
      → find_id id s.by_id ≡ some e
      → birth e.order b ≡ some id

module _ (b : List MatchmakingSessionId) (s : MatchmakingStore) (v : IsNumbered b s) where
  creation-IsNumbered :
      (owner : ℕ) (info : MatchmakingInfo) (out : Created)
      → length b + 1 < 2 ^ 64
      → Creation owner info s out
      → IsNumbered (given out.0 b) out.1
  unfolding store_session
  creation-IsNumbered owner info out small (made id fresh told left) =
      let entry = new_entry owner info id s in
      rw (told, left)
        (record {
          counted = omega (arith, v.counted);
          born = λ j e h. ground (
            arith,
            v.counted,
            v.born j e,
            birth_old e.order b j,
            lookup-insert bytes_discrete id j entry s.by_id,
          );
        })
  creation-IsNumbered owner info out small (refused e told left) = rw (told, left) v

  update-IsNumbered :
      (owner : ℕ) (j : MatchmakingSessionId) (info : MatchmakingInfo)
      → IsNumbered b (update owner j info s).1
  unfolding update
  update-IsNumbered owner j info = elim (Option-cases (find_id j s.by_id)) [
    | inl miss ↦
        rw (miss, owned_session)
          (record {
            counted = ground (arith, v.counted);
            born = λ id e h. ground (arith, v.born id e);
          })
    | inr (x, hit) ↦
        rw (hit, owned_session)
          (record {
            counted = ground (arith, v.counted);
            born = λ id e h. ground (
              arith,
              v.born id e,
              v.born j x,
              lookup-insert bytes_discrete j id (updated info j x) s.by_id,
            );
          })
  ]

  delete_session-IsNumbered :
      (owner : ℕ) (j : MatchmakingSessionId) → IsNumbered b (delete_session owner j s).1
  unfolding delete_session delete_locked
  delete_session-IsNumbered owner j = elim (Option-cases (find_id j s.by_id)) [
    | inl miss ↦ rw (miss, owned_session) v
    | inr (x, hit) ↦
        rw (hit, owned_session)
          (record {
            counted = ground (arith, v.counted);
            born = λ id e h. ground (arith, v.born id e, lookup-delete bytes_discrete j id s.by_id);
          })
  ]

delete_owned-next_order :
    (owner : ℕ) (rest : List (MatchmakingSessionId × StoredSession)) (s : MatchmakingStore)
    → (delete_owned owner rest s).next_order ≡ s.next_order
unfolding delete_owned delete_locked
delete_owned-next_order owner [] s = refl
delete_owned-next_order owner ((id, e) ∷ rest) s =
    delete_owned-next_order owner rest (if e.owner == owner then delete_locked id e s else s)
    ∙ ground arith

delete_owner-next_order :
    (owner : ℕ) (s : MatchmakingStore) → (delete_owner owner s).next_order ≡ s.next_order
unfolding delete_owner
delete_owner-next_order owner s = delete_owned-next_order owner s.by_id s

delete_owner-IsNumbered :
    (b : List MatchmakingSessionId) (s : MatchmakingStore) (owner : ℕ)
    → Inv s
    → IsNumbered b s
    → IsNumbered b (delete_owner owner s)
delete_owner-IsNumbered b s owner inv v = record {
  counted = delete_owner-next_order owner s ∙ v.counted;
  born = λ id e h. ground (arith, v.born id e, find_id-delete_owner owner id s inv);
}

step-IsNumbered :
    (b : List MatchmakingSessionId) (s : MatchmakingStore) (c : ℕ × Call)
    → Inv s
    → IsNumbered b s
    → length b + 1 < 2 ^ 64
    → IsNumbered (births_after s c b) (step s c)
unfolding births_after step
step-IsNumbered b s (owner, creates info random) inv v small =
    creation-IsNumbered b s v owner info (create owner info random s) small
      (create-Creation owner info s random)
step-IsNumbered b s (owner, updates id info) inv v small = update-IsNumbered b s v owner id info
step-IsNumbered b s (owner, deletes id) inv v small = delete_session-IsNumbered b s v owner id
step-IsNumbered b s (owner, disconnects) inv v small = delete_owner-IsNumbered b s owner inv v

new-IsNumbered :
    (m p : ℕ) (s : MatchmakingStore) → new_matchmaking_store m p ≡ ok s → IsNumbered [] s
unfolding new_matchmaking_store lookup
new-IsNumbered m p s h = record { counted = ground arith; born = λ id e found. ground arith }

length-births_after :
    (s : MatchmakingStore) (c : ℕ × Call) (b : List MatchmakingSessionId)
    → length (births_after s c b) ≤ length b + 1
unfolding births_after
length-births_after s (owner, creates info random) b = ground arith
length-births_after s (owner, updates id info) b = omega arith
length-births_after s (owner, deletes id) b = omega arith
length-births_after s (owner, disconnects) b = omega arith

run-IsNumbered :
    (b : List MatchmakingSessionId) (s : MatchmakingStore) (cs : List (ℕ × Call))
    → Inv s
    → IsNumbered b s
    → length b + length cs < 2 ^ 64
    → IsNumbered (births s cs b) (run s cs)
unfolding births run
run-IsNumbered b s [] inv v small = v
run-IsNumbered b s (c ∷ cs) inv v small =
    run-IsNumbered (births_after s c b) (step s c) cs (step-Inv s c inv)
      (step-IsNumbered b s c inv v (omega arith)) (omega (arith, length-births_after s c b))

-- Every session of a store with a history has the order number of the creation that gave out its
-- identifier.
pub run_born :
    (max_sessions max_per_owner : ℕ) (s : MatchmakingStore) (cs : List (ℕ × Call))
    (id : MatchmakingSessionId) (e : StoredSession)
    → new_matchmaking_store max_sessions max_per_owner ≡ ok s
    → length cs < 2 ^ 64
    → find_id id (run s cs).by_id ≡ some e
    → birth e.order (births s cs []) ≡ some e.info.session_id
run_born m p s cs id e begun small found =
    let inv = new-Inv m p s begun in
    let numbered = run-IsNumbered [] s cs inv (new-IsNumbered m p s begun) (omega arith) in
    let entry = (run-Inv s cs inv).entries id e found in
    numbered.born id e found ∙ ap some (sym entry.named)
