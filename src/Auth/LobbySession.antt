-- ===== src/Auth/LobbySession.antt =====
-- internal/online/auth/lobby_session.go. Each method runs under the store's lock and is one step; a
-- time is a number of nanoseconds, and `ExpiresAt.After(now)` is `now < expires_at`.
pub mod Invariant
pub mod Purge
pub mod Calls
pub mod Tickets
use codboz_nx_online.Base.{
  ℕ, ◌+◌, ◌%◌, ◌^◌, Bool, true, false, not, ◌||◌, List, [], ◌∷◌, ite, ltb, leb, ◌==◌, if◌then◌else◌,
  length, Option, none, some, Result, ok, err, ℕ_discrete, ◌++◌,
}
use codboz_nx_online.Go.Counter.{count, increment, decrement}
use codboz_nx_online.Go.Discrete.{bytes_discrete}
use codboz_nx_online.Go.Map.{Map, lookup, insert, delete}
use codboz_nx_online.Go.Net.{
  NetAddr, nil_addr, tcp_addr, other_addr, NetText, IpAddr, addr_from_slice, unmap, is_empty,
}

abbrev pub default_max_lobby_sessions : ℕ
default_max_lobby_sessions = 4096

abbrev pub default_max_lobby_sessions_per_account : ℕ
default_max_lobby_sessions_per_account = 4

-- BOZTitleID of create_account.go.
abbrev pub boz_title_id : ℕ
boz_title_id = 18436

pub data SessionError : Type 0 where
  session_limit account_limit seed_collision invalid_session bad_config : SessionError

pub record LobbySession : Type 0 where
  pub ticket_seed : ℕ
  pub user_id : ℕ
  pub account_hash : ℕ
  pub title_id : ℕ
  pub session_key : List ℕ
  pub expires_at : ℕ

pub record PendingSession : Type 0 where
  pub session : LobbySession
  pub peer : List ℕ
  pub token : ℕ

pub record SessionStore : Type 0 where
  pub max_sessions : ℕ
  pub max_sessions_per_account : ℕ
  pub by_seed : Map ℕ PendingSession
  pub sessions_by_account : Map ℕ ℕ
  pub next_token : ℕ

abbrev pub find_seed : ℕ → Map ℕ PendingSession → Option PendingSession
find_seed = lookup ℕ_discrete

abbrev or_default : ℕ → ℕ → ℕ
or_default n default = if n == 0 then default else n

abbrev out_of_range : ℕ → Bool
out_of_range n = ltb n 1 || ltb 1_000_000 n

abbrev pub empty_store : ℕ → ℕ → SessionStore
empty_store max_sessions max_per_account = record {
  max_sessions = max_sessions;
  max_sessions_per_account = max_per_account;
  by_seed = [];
  sessions_by_account = [];
  next_token = 0;
}

-- NewMemoryLobbySessionStoreWithConfig.
unfoldable pub new_session_store : ℕ → ℕ → Result SessionError SessionStore
new_session_store max_sessions max_per_account =
    let sessions = or_default max_sessions default_max_lobby_sessions in
    let per_account = or_default max_per_account default_max_lobby_sessions_per_account in
    if out_of_range sessions
    then err bad_config
    else if out_of_range per_account
    then err bad_config
    else ok (empty_store sessions per_account)

abbrev slice_identity : NetText → Option IpAddr → Option (List ℕ)
slice_identity text none = none
slice_identity text (some address) = some (text.addr_string (unmap address))

abbrev host_identity : NetText → List ℕ → Option IpAddr → Option (List ℕ)
host_identity text host none = some host
host_identity text host (some address) = some (text.addr_string (unmap address))

abbrev text_identity : NetText → List ℕ → List ℕ → Option (List ℕ) → Option (List ℕ)
text_identity text network name (some host) = host_identity text host (text.parse_addr host)
text_identity text network name none =
    if is_empty network || is_empty name then none else some (network ++ b':' ∷ name)

-- lobbyPeerIdentity, with `none` for its error.
unfoldable pub lobby_peer_identity : NetText → NetAddr → Option (List ℕ)
lobby_peer_identity text nil_addr = none
lobby_peer_identity text (tcp_addr ip port) = slice_identity text (addr_from_slice ip)
lobby_peer_identity text (other_addr network name) =
    text_identity text network name (text.split_host_port name)

abbrev pub is_live : ℕ → PendingSession → Bool
is_live now pending = ltb now pending.session.expires_at

unfoldable pub delete_locked : ℕ → PendingSession → SessionStore → SessionStore
delete_locked seed pending store = record store {
  by_seed = delete ℕ_discrete seed store.by_seed;
  sessions_by_account = decrement ℕ_discrete pending.session.user_id store.sessions_by_account;
}

-- The loop of purgeExpiredLocked over the entries that the map had when it began.
unfoldable pub purge_entries : ℕ → Map ℕ PendingSession → SessionStore → SessionStore
unfolding delete_locked
purge_entries now [] store = store
purge_entries now ((seed, pending) ∷ rest) store =
    purge_entries now rest (if is_live now pending then store else delete_locked seed pending store)

unfoldable pub purge_expired_locked : ℕ → SessionStore → SessionStore
unfolding purge_entries
purge_expired_locked now store = purge_entries now store.by_seed store

-- `nextToken++`, once more where it wrapped to 0.
abbrev pub bump_token : ℕ → ℕ
bump_token t = let t' = (t + 1) % 2 ^ 64 in if t' == 0 then 1 else t'

abbrev pub is_pending : Option PendingSession → Bool
is_pending none = false
is_pending (some p) = true

unfoldable pub store_pending : LobbySession → List ℕ → SessionStore → SessionStore
store_pending session peer store =
    let token = bump_token store.next_token in
    record store {
      next_token = token;
      by_seed =
          insert ℕ_discrete session.ticket_seed
            (record { session = session; peer = peer; token = token }) store.by_seed;
      sessions_by_account = increment ℕ_discrete session.user_id store.sessions_by_account;
    }

-- Reserve behind the purge.
unfoldable pub reserve_purged :
    LobbySession → List ℕ → SessionStore → Result SessionError ℕ × SessionStore
unfolding store_pending
reserve_purged session peer store =
    if is_pending (find_seed session.ticket_seed store.by_seed)
    then (err seed_collision, store)
    else if leb store.max_sessions_per_account
        (count ℕ_discrete session.user_id store.sessions_by_account)
    then (err account_limit, store)
    else if leb store.max_sessions (length store.by_seed)
    then (err session_limit, store)
    else (ok (bump_token store.next_token), store_pending session peer store)

unfoldable pub reserve_as :
    LobbySession → Option (List ℕ) → ℕ → SessionStore → Result SessionError ℕ × SessionStore
unfolding reserve_purged purge_expired_locked
reserve_as session none now store = (err invalid_session, store)
reserve_as session (some peer) now store =
    if session.user_id == 0
      || not (session.title_id == boz_title_id)
      || not (ltb now session.expires_at)
    then (err invalid_session, store)
    else reserve_purged session peer (purge_expired_locked now store)

unfoldable pub reserve :
    NetText → LobbySession → NetAddr → ℕ → SessionStore → Result SessionError ℕ × SessionStore
unfolding reserve_as
reserve text session peer now store = reserve_as session (lobby_peer_identity text peer) now store

abbrev same_peer : List ℕ → PendingSession → Bool
same_peer peer pending = ite (bytes_discrete pending.peer peer) true false

-- Lookup with the peer's identity and the entry that it finds; `none` is the answer false.
unfoldable pub lookup_pending :
    ℕ → List ℕ → ℕ → SessionStore → Option PendingSession → Option (LobbySession × ℕ) × SessionStore
unfolding delete_locked
lookup_pending seed peer now store none = (none, store)
lookup_pending seed peer now store (some pending) =
    if not (is_live now pending)
    then (none, delete_locked seed pending store)
    else if not (same_peer peer pending)
    then (none, store)
    else (some (pending.session, pending.token), store)

unfoldable pub lookup_as :
    ℕ → Option (List ℕ) → ℕ → SessionStore → Option (LobbySession × ℕ) × SessionStore
unfolding lookup_pending
lookup_as seed none now store = (none, store)
lookup_as seed (some peer) now store =
    lookup_pending seed peer now store (find_seed seed store.by_seed)

unfoldable pub lookup_session :
    NetText → ℕ → NetAddr → ℕ → SessionStore → Option (LobbySession × ℕ) × SessionStore
unfolding lookup_as
lookup_session text seed peer now store = lookup_as seed (lobby_peer_identity text peer) now store

unfoldable pub consume_pending :
    ℕ → ℕ → List ℕ → ℕ → SessionStore → Option PendingSession → Option LobbySession × SessionStore
unfolding delete_locked
consume_pending seed token peer now store none = (none, store)
consume_pending seed token peer now store (some pending) =
    if not (pending.token == token)
    then (none, store)
    else if not (is_live now pending)
    then (none, delete_locked seed pending store)
    else if not (same_peer peer pending)
    then (none, store)
    else (some pending.session, delete_locked seed pending store)

unfoldable pub consume_as :
    ℕ → ℕ → Option (List ℕ) → ℕ → SessionStore → Option LobbySession × SessionStore
unfolding consume_pending
consume_as seed token none now store = (none, store)
consume_as seed token (some peer) now store =
    consume_pending seed token peer now store (find_seed seed store.by_seed)

unfoldable pub consume :
    NetText → ℕ → ℕ → NetAddr → ℕ → SessionStore → Option LobbySession × SessionStore
unfolding consume_as
consume text seed token peer now store =
    consume_as seed token (lobby_peer_identity text peer) now store

unfoldable pub revoke_pending : ℕ → ℕ → SessionStore → Option PendingSession → SessionStore
unfolding delete_locked
revoke_pending seed token store none = store
revoke_pending seed token store (some pending) =
    if pending.token == token then delete_locked seed pending store else store

unfoldable pub revoke : ℕ → ℕ → SessionStore → SessionStore
unfolding revoke_pending
revoke seed token store = revoke_pending seed token store (find_seed seed store.by_seed)
