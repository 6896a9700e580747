-- ===== src/Lobby/MatchmakingStore.antt =====
-- internal/online/lobby/matchmaking_store.go. Each method runs under the store's lock and is one
-- step; its result stands beside the store after it. Cloning an info copies its bytes, which values
-- need not do.
pub mod Invariant
pub mod Preserve
pub mod Owners
pub mod Calls
pub mod Births
pub mod Create
pub mod Find
use codboz_nx_online.Base.{
  ℕ, zero, suc, ◌+◌, ◌-◌, ◌%◌, ◌^◌, min, Bool, true, false, not, ◌&&◌, ◌||◌, List, [], ◌∷◌, map,
  ite, ltb, leb, ◌==◌, if◌then◌else◌, length, take, drop, Option, none, some, Result, ok, err,
  ℕ_discrete,
}
use codboz_nx_online.Go.Bytes.{contains_byte}
use codboz_nx_online.Go.Counter.{count, increment, decrement}
use codboz_nx_online.Go.Discrete.{bytes_discrete}
use codboz_nx_online.Go.Int32.{ℤ, ℤ-discrete}
use codboz_nx_online.Go.Map.{Map, lookup, insert, delete}
use codboz_nx_online.Go.Stream.{IoError, Stream, read_full}
use codboz_nx_online.Lobby.Envelope.{all_zero}
use codboz_nx_online.Lobby.Matchmaking.{
  MatchmakingInfo, MatchmakingQuery, MatchmakingSessionId, max_host_address_size,
  max_matchmaking_text_bytes, matchmaking_wildcard_key, matchmaking_session_id_size,
}

abbrev pub default_max_matchmaking_sessions : ℕ
default_max_matchmaking_sessions = 4096

abbrev pub default_max_matchmaking_sessions_per_owner : ℕ
default_max_matchmaking_sessions_per_owner = 4

abbrev pub max_session_id_attempts : ℕ
max_session_id_attempts = 16

pub data StoreError : Type 0 where
  malformed session_limit owner_session_limit no_session_id session_owner session_miss : StoreError
  random_failed : IoError → StoreError
  bad_config : StoreError

pub record StoredSession : Type 0 where
  pub info : MatchmakingInfo
  pub owner : ℕ
  pub order : ℕ

pub record MatchmakingStore : Type 0 where
  pub max_sessions : ℕ
  pub max_sessions_per_owner : ℕ
  pub next_order : ℕ
  pub by_id : Map MatchmakingSessionId StoredSession
  pub sessions_by_owner : Map ℕ ℕ

abbrev pub find_id :
    MatchmakingSessionId → Map MatchmakingSessionId StoredSession → Option StoredSession
find_id = lookup bytes_discrete

abbrev or_default : ℕ → ℕ → ℕ
or_default n default = if n == 0 then default else n

abbrev out_of_range : ℕ → Bool
out_of_range n = ltb n 1 || ltb 1_000_000 n

abbrev pub empty_store : ℕ → ℕ → MatchmakingStore
empty_store max_sessions max_per_owner = record {
  max_sessions = max_sessions;
  max_sessions_per_owner = max_per_owner;
  next_order = 0;
  by_id = [];
  sessions_by_owner = [];
}

-- NewMemoryMatchmakingStoreWithConfig.
unfoldable pub new_matchmaking_store : ℕ → ℕ → Result StoreError MatchmakingStore
new_matchmaking_store max_sessions max_per_owner =
    let sessions = or_default max_sessions default_max_matchmaking_sessions in
    let per_owner = or_default max_per_owner default_max_matchmaking_sessions_per_owner in
    if out_of_range sessions
    then err bad_config
    else if out_of_range per_owner
    then err bad_config
    else ok (empty_store sessions per_owner)

unfoldable pub valid_stored_info : MatchmakingInfo → Bool
valid_stored_info info =
    leb (length info.host_address) max_host_address_size
    && not (info.max_players == 0)
    && leb (length info.attributes.app_string_at_130) max_matchmaking_text_bytes
    && not (contains_byte 0 info.attributes.app_string_at_130)

-- What Create puts into the map under a new identifier.
abbrev pub new_entry : ℕ → MatchmakingInfo → MatchmakingSessionId → MatchmakingStore → StoredSession
new_entry owner requested id store = record {
  info = record requested { session_id = id; num_players = 1 };
  owner = owner;
  order = (store.next_order + 1) % 2 ^ 64;
}

-- The part of Create after a new identifier is found.
unfoldable pub store_session :
    ℕ
    → MatchmakingInfo
    → MatchmakingSessionId
    → MatchmakingStore
    → MatchmakingInfo × MatchmakingStore
store_session owner requested id store =
    let entry = new_entry owner requested id store in
    (
      entry.info,
      record store {
        next_order = entry.order;
        by_id = insert bytes_discrete id entry store.by_id;
        sessions_by_owner = increment ℕ_discrete owner store.sessions_by_owner;
      },
    )

abbrev pub Created : Type 0
Created = Result StoreError MatchmakingInfo × MatchmakingStore × Stream

abbrev created : MatchmakingInfo × MatchmakingStore → Stream → Created
created (info, store) random = (ok info, store, random)

abbrev pub is_taken : Option StoredSession → Bool
is_taken none = false
is_taken (some e) = true

-- One round of the loop, when `read` is what the random source gave; `retry` is `continue`.
unfoldable pub try_session_id :
    ℕ
    → MatchmakingInfo
    → MatchmakingStore
    → Stream
    → Result IoError MatchmakingSessionId
    → Created
    → Created
unfolding store_session
try_session_id owner requested store random (err e) retry = (err (random_failed e), store, random)
try_session_id owner requested store random (ok id) retry =
    if all_zero id || is_taken (find_id id store.by_id)
    then retry
    else created (store_session owner requested id store) random

unfoldable pub create_loop : ℕ → ℕ → MatchmakingInfo → MatchmakingStore → Stream → Created
unfolding try_session_id
create_loop zero owner requested store random = (err no_session_id, store, random)
create_loop (suc attempts) owner requested store random =
    let (read, random') = read_full matchmaking_session_id_size random in
    let retry = create_loop attempts owner requested store random' in
    try_session_id owner requested store random' read retry

-- The random source is never nil: NewHandler puts one in.
unfoldable pub create : ℕ → MatchmakingInfo → Stream → MatchmakingStore → Created
unfolding create_loop
create owner requested random store =
    if owner == 0 || not (valid_stored_info requested)
    then (err malformed, store, random)
    else if leb store.max_sessions (length store.by_id)
    then (err session_limit, store, random)
    else if leb store.max_sessions_per_owner (count ℕ_discrete owner store.sessions_by_owner)
    then (err owner_session_limit, store, random)
    else create_loop max_session_id_attempts owner requested store random

abbrev pub Changed : Type 0
Changed = Result StoreError (Unit {0}) × MatchmakingStore

-- What Update and Delete do with the session they find: a miss, the wrong owner, or `act`.
abbrev pub owned_session :
    ℕ → MatchmakingStore → Option StoredSession → (StoredSession → MatchmakingStore) → Changed
owned_session owner store none act = (err session_miss, store)
owned_session owner store (some existing) act =
    if existing.owner == owner then (ok tt, act existing) else (err session_owner, store)

abbrev pub updated : MatchmakingInfo → MatchmakingSessionId → StoredSession → StoredSession
updated requested id existing = record existing {
  info = record requested { session_id = id; num_players = existing.info.num_players };
}

unfoldable pub update : ℕ → MatchmakingSessionId → MatchmakingInfo → MatchmakingStore → Changed
update owner id requested store =
    if owner == 0 || not (valid_stored_info requested)
    then (err malformed, store)
    else owned_session owner store (find_id id store.by_id) (λ existing. record store {
      by_id = insert bytes_discrete id (updated requested id existing) store.by_id;
    })

unfoldable pub delete_locked :
    MatchmakingSessionId → StoredSession → MatchmakingStore → MatchmakingStore
delete_locked id session store = record store {
  by_id = delete bytes_discrete id store.by_id;
  sessions_by_owner = decrement ℕ_discrete session.owner store.sessions_by_owner;
}

unfoldable pub delete_session : ℕ → MatchmakingSessionId → MatchmakingStore → Changed
unfolding delete_locked
delete_session owner id store =
    owned_session owner store (find_id id store.by_id) (λ existing. delete_locked id existing store)

-- The loop of DeleteOwner over the entries that the map had when it began.
unfoldable pub delete_owned :
    ℕ → Map MatchmakingSessionId StoredSession → MatchmakingStore → MatchmakingStore
unfolding delete_locked
delete_owned owner [] store = store
delete_owned owner ((id, session) ∷ rest) store =
    delete_owned owner rest
      (if session.owner == owner then delete_locked id session store else store)

unfoldable pub delete_owner : ℕ → MatchmakingStore → MatchmakingStore
unfolding delete_owned
delete_owner owner store = delete_owned owner store.by_id store

unfoldable pub matches_query : MatchmakingInfo → MatchmakingQuery → Bool
matches_query info query =
    ite (ℤ-discrete info.attributes.app_i32_at_15c query.value)
      (if query.key == matchmaking_wildcard_key
        then true
        else info.attributes.app_u32_at_11c == query.key
          && info.attributes.app_u32_at_158 == query.key)
      false

-- The loop over the map that collects the matching sessions.
unfoldable pub matching :
    MatchmakingQuery → Map MatchmakingSessionId StoredSession → List StoredSession
unfolding matches_query
matching query [] = []
matching query ((id, session) ∷ m) =
    let rest = matching query m in if matches_query session.info query then session ∷ rest else rest

unfoldable pub insert_by_order : StoredSession → List StoredSession → List StoredSession
insert_by_order e [] = e ∷ []
insert_by_order e (x ∷ xs) = if ltb e.order x.order then e ∷ x ∷ xs else x ∷ insert_by_order e xs

-- `sort.Slice` by `order`.
unfoldable pub sort_by_order : List StoredSession → List StoredSession
unfolding insert_by_order
sort_by_order [] = []
sort_by_order (e ∷ es) = insert_by_order e (sort_by_order es)

-- `sessions[offset:end]`, and nothing for an offset past the end or a maximum of 0.
unfoldable pub page : {A : Type 0} → ℕ → ℕ → ℕ → List A → List A
page total offset maximum sessions =
    if leb total offset || maximum == 0
    then []
    else take (min (offset + maximum) total - offset) (drop offset sessions)

unfoldable pub find : MatchmakingQuery → ℕ → ℕ → MatchmakingStore → List MatchmakingInfo × ℕ
unfolding matching sort_by_order page
find query offset maximum store =
    let sessions = sort_by_order (matching query store.by_id) in
    let total = length sessions % 2 ^ 32 in
    (map (λ e. e.info) (page total offset maximum sessions), total)
