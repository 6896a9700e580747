-- ===== src/Tests/Sessions.antt =====
-- The store of lobby sessions at concrete inputs.
use codboz_nx_online.Base.{ℕ, ◌≡◌, refl, List, [], ◌∷◌, arith, ok, none, some, ℕ_discrete}
use codboz_nx_online.Go.Counter.{count}
use codboz_nx_online.Go.Discrete.{bytes_discrete}
use codboz_nx_online.Go.Map.{lookup, insert}
use codboz_nx_online.Go.Net.{NetAddr, tcp_addr, NetText, IpAddr, ip4, ip6, addr_from_slice, unmap}
use codboz_nx_online.Auth.LobbySession.{
  SessionStore, PendingSession, LobbySession, find_seed, empty_store, new_session_store, reserve,
  lookup_session, consume, purge_expired_locked, lobby_peer_identity,
}
use codboz_nx_online.Auth.LobbySession.Invariant.{Inv}
use codboz_nx_online.Auth.LobbySession.Calls.{
  Call, reserves, revokes, run, run-new_session_store-Inv,
}
use codboz_nx_online.Auth.LobbySession.Tickets.{consume_once, reserve_usable}

-- Texts of addresses that keep the bytes as they are.
abbrev address_bytes : IpAddr → List ℕ
address_bytes (ip4 bytes) = bytes
address_bytes (ip6 bytes zone) = bytes

abbrev pub plain_text : NetText
plain_text = record {
  split_host_port = λ name. none;
  parse_addr = λ host. none;
  addr_string = address_bytes;
  prefix64_string = λ bytes. bytes;
}

abbrev pub home : NetAddr
home = tcp_addr (10 ∷ 0 ∷ 0 ∷ 1 ∷ []) 3074

abbrev ticket : LobbySession
ticket = record {
  ticket_seed = 70;
  user_id = 5;
  account_hash = 99;
  title_id = 18436;
  session_key = 1 ∷ 2 ∷ [];
  expires_at = 1000;
}

abbrev pending : PendingSession
pending = record { session = ticket; peer = 10 ∷ 0 ∷ 0 ∷ 1 ∷ []; token = 1 }

abbrev new_store : SessionStore
new_store = empty_store 4096 4

abbrev reserved_store : SessionStore
reserved_store = (reserve plain_text ticket home 10 new_store).1

reserved : reserve plain_text ticket home 10 new_store ≡ (ok 1, reserved_store)
unfolding reserve lobby_peer_identity addr_from_slice unmap lookup insert count purge_expired_locked
reserved = refl

is_pending : find_seed 70 reserved_store.by_seed ≡ some pending
unfolding reserve lobby_peer_identity addr_from_slice unmap lookup insert count purge_expired_locked
    ℕ_discrete
is_pending = refl

abbrev history : List Call
history = reserves ticket home 10 ∷ revokes 70 8 ∷ []

run-new_session_store-Inv_example : Inv (run plain_text new_store history)
unfolding new_session_store
run-new_session_store-Inv_example = run-new_session_store-Inv plain_text 0 0 new_store history refl

abbrev spent_store : SessionStore
spent_store = (consume plain_text 70 1 home 20 reserved_store).1

consumed : consume plain_text 70 1 home 20 reserved_store ≡ (some ticket, spent_store)
unfolding consume reserve lobby_peer_identity addr_from_slice unmap lookup insert count
    purge_expired_locked bytes_discrete
consumed = refl

consume_once_example :
    (consume plain_text 70 1 home 30 spent_store ≡ (none, spent_store))
    × (lookup_session plain_text 70 home 30 spent_store ≡ (none, spent_store))
consume_once_example =
    consume_once plain_text 70 1 home 20 reserved_store ticket spent_store 1 home 30 consumed

reserve_usable_example :
    (lookup_session plain_text 70 home 20 reserved_store ≡ (some (ticket, 1), reserved_store))
    × ((consume plain_text 70 1 home 20 reserved_store).0 ≡ some ticket)
reserve_usable_example =
    reserve_usable plain_text ticket home home 10 20 new_store reserved_store 1 reserved refl
      (omega arith)
