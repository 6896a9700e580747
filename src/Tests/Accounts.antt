-- ===== src/Tests/Accounts.antt =====
-- The store of accounts and the admission of connections at concrete inputs.
use codboz_nx_online.Base.{ℕ, ◌≡◌, refl, true, false, List, [], ◌∷◌, arith, ok, none, some}
use codboz_nx_online.Go.Counter.{count}
use codboz_nx_online.Go.Discrete.{bytes_discrete}
use codboz_nx_online.Go.Map.{lookup, insert}
use codboz_nx_online.Go.Net.{addr_from_slice, unmap, is_unspecified, is_multicast}
use codboz_nx_online.Auth.Store.{
  Account, AccountStore, boz_account_hash, empty_store, new_account_store, register, new_account,
  lookup_username, lookup_hash, lookup_user_id,
}
use codboz_nx_online.Auth.Store.Invariant.{Inv}
use codboz_nx_online.Auth.Store.Register.{
  Call, run, register_stores, register_again, run-new_account_store-Inv, run_keeps,
}
use codboz_nx_online.Server.{
  new_server, fresh_server, default_config, reserve_tcp_connection, tcp_source_identity,
}
use codboz_nx_online.Server.Admission
use codboz_nx_online.Server.Admission.{System, Step, Reachable, normalize_config_lem, Reachable-Inv}
use codboz_nx_online.Tests.Sessions.{plain_text, home}

abbrev player : List ℕ
player = b'b' ∷ b'o' ∷ b'z' ∷ []

abbrev no_accounts : AccountStore
no_accounts = empty_store 4096 32 false

abbrev player_account : Account
player_account = new_account player (7 ∷ []) (boz_account_hash player) no_accounts

abbrev one_account : AccountStore
one_account = (register player (7 ∷ []) (some (1 ∷ [])) true no_accounts).1

player_created :
    register player (7 ∷ []) (some (1 ∷ [])) true no_accounts
    ≡ (ok (player_account, true), one_account)
unfolding register lookup count
player_created = refl

register_stores_example :
    (lookup_username player no_accounts ≡ none)
    × (player_account.username ≡ player)
    × (player_account.password_hash ≡ 7 ∷ [])
    × (lookup_username player one_account ≡ some player_account)
    × (lookup_hash (boz_account_hash player) one_account ≡ some player_account)
    × (lookup_user_id player_account.user_id one_account ≡ some player_account)
register_stores_example =
    register_stores player (7 ∷ []) (some (1 ∷ [])) true no_accounts one_account player_account
      player_created

register_again_example :
    register player (9 ∷ []) none false one_account ≡ (ok (player_account, false), one_account)
register_again_example =
    register_again player (7 ∷ []) (9 ∷ []) (some (1 ∷ [])) none true false no_accounts one_account
      player_account true player_created

abbrev registrations : List Call
registrations =
    (record { username = player; password_hash = 7 ∷ []; source = none; written = true })
    ∷ (record { username = player; password_hash = 8 ∷ []; source = none; written = true })
    ∷ []

run-new_account_store-Inv_example : Inv (run no_accounts registrations)
unfolding new_account_store
run-new_account_store-Inv_example =
    run-new_account_store-Inv 0 0 no_accounts registrations refl (omega arith)

one_account-Inv : Inv one_account
unfolding new_account_store register run
one_account-Inv =
    run-new_account_store-Inv 0 0 no_accounts
      ((record {
        username = player;
        password_hash = 7 ∷ [];
        source = some (1 ∷ []);
        written = true;
      })
        ∷ [])
      refl (omega arith)

-- A registration of the same name and one of another.
abbrev later_registrations : List Call
later_registrations =
    (record { username = player; password_hash = 8 ∷ []; source = none; written = true })
    ∷ (record { username = b'a' ∷ []; password_hash = 9 ∷ []; source = none; written = true })
    ∷ []

player_found : lookup_username player one_account ≡ some player_account
unfolding lookup_username register lookup insert count bytes_discrete
player_found = refl

run_keeps_example :
    (lookup_username player (run one_account later_registrations) ≡ some player_account)
    × (lookup_hash (boz_account_hash player) (run one_account later_registrations)
        ≡ some player_account)
    × (lookup_user_id player_account.user_id (run one_account later_registrations)
        ≡ some player_account)
unfolding register lookup count
run_keeps_example =
    run_keeps one_account later_registrations player player_account one_account-Inv (omega arith)
      player_found

abbrev fresh : System
fresh = record { server = fresh_server default_config; running = [] }

new_default : new_server default_config ≡ ok (fresh_server default_config)
unfolding new_server
new_default = refl

-- One connection was accepted.
reached : Reachable plain_text default_config (record {
  server = (reserve_tcp_connection plain_text 3 home (fresh_server default_config)).1;
  running = (3, 10 ∷ 0 ∷ 0 ∷ 1 ∷ []) ∷ [];
})
unfolding reserve_tcp_connection tcp_source_identity addr_from_slice unmap is_unspecified
    is_multicast lookup count insert
reached =
    Reachable.goes_on fresh _ (Reachable.starts (fresh_server default_config) new_default)
      (Step.accepts fresh 3 home refl)

Reachable-Inv_example : Admission.Inv (record {
  server = (reserve_tcp_connection plain_text 3 home (fresh_server default_config)).1;
  running = (3, 10 ∷ 0 ∷ 0 ∷ 1 ∷ []) ∷ [];
})
Reachable-Inv_example = Reachable-Inv plain_text default_config _ reached
