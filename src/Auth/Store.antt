-- ===== src/Auth/Store.antt =====
-- internal/online/auth/store.go. Each method runs under the store's lock and is one step. The three
-- maps hold copies of the same accounts. A state file is present or not; what writeAccountFile
-- answers is an argument of the step that calls it.
pub mod Invariant
pub mod Register
use codboz_nx_online.Base.{
  ℕ, ◌+◌, ◌%◌, ◌^◌, Bool, true, false, not, ◌&&◌, ◌||◌, List, [], ◌∷◌, ◌++◌, ltb, leb, ◌==◌,
  if◌then◌else◌, length, map, take, Option, none, some, Result, ok, err, ℕ_discrete, bind,
}
use codboz_nx_online.Go.Binary.{le_value}
use codboz_nx_online.Go.Counter.{count, increment}
use codboz_nx_online.Go.Discrete.{bytes_discrete}
use codboz_nx_online.Go.Map.{Map, lookup, insert}
use codboz_nx_online.Go.Net.{
  NetAddr, nil_addr, tcp_addr, other_addr, NetText, IpAddr, ip4, ip6, addr_from_slice, unmap,
  is_unspecified, is_multicast, is_empty,
}
use codboz_nx_online.Bitdemon.Tiger.{tiger192}

abbrev pub default_max_accounts : ℕ
default_max_accounts = 4096

abbrev pub default_max_accounts_per_source : ℕ
default_max_accounts_per_source = 32

-- `write_failed` stands for the error of writeAccountFile.
pub data AccountError : Type 0 where
  account_limit source_limit hash_collision invalid_source : AccountError
  write_failed bad_config read_failed user_ids_exhausted : AccountError

pub record Account : Type 0 where
  pub user_id : ℕ
  pub username : List ℕ
  pub password_hash : List ℕ
  pub account_hash : ℕ

pub record AccountStore : Type 0 where
  pub max_accounts : ℕ
  pub max_accounts_per_source : ℕ
  pub has_state_file : Bool
  pub next_user_id : ℕ
  pub by_username : Map (List ℕ) Account
  pub by_hash : Map ℕ Account
  pub by_user_id : Map ℕ Account
  pub accounts_by_source : Map (List ℕ) ℕ

abbrev pub find_name : List ℕ → Map (List ℕ) Account → Option Account
find_name = lookup bytes_discrete

abbrev pub find_number : ℕ → Map ℕ Account → Option Account
find_number = lookup ℕ_discrete

-- One byte of `strings.ToLower`, of a text of ASCII characters.
abbrev lower : ℕ → ℕ
lower b = if leb b'A' b && leb b b'Z' then b + 32 else b

-- BOZAccountHash. The usernames that the parsers admit are ASCII.
unfoldable pub boz_account_hash : List ℕ → ℕ
boz_account_hash username = le_value (take 8 (tiger192 (map lower username)))

abbrev or_default : ℕ → ℕ → ℕ
or_default n default = if n == 0 then default else n

abbrev out_of_range : ℕ → Bool
out_of_range n = ltb n 1 || ltb 1_000_000 n

abbrev pub empty_store : ℕ → ℕ → Bool → AccountStore
empty_store max_accounts max_per_source has_state_file = record {
  max_accounts = max_accounts;
  max_accounts_per_source = max_per_source;
  has_state_file = has_state_file;
  next_user_id = 1;
  by_username = [];
  by_hash = [];
  by_user_id = [];
  accounts_by_source = [];
}

-- What the constructor does with one account of the state file.
unfoldable pub load_account : Account → AccountStore → Result AccountError AccountStore
load_account account store =
    let next = (account.user_id + 1) % 2 ^ 64 in
    let loaded : AccountStore = record store {
      by_username = insert bytes_discrete account.username account store.by_username;
      by_hash = insert ℕ_discrete account.account_hash account store.by_hash;
      by_user_id = insert ℕ_discrete account.user_id account store.by_user_id;
    } in
    if ltb account.user_id store.next_user_id
    then ok loaded
    else if next == 0
    then err user_ids_exhausted
    else ok (record loaded { next_user_id = next })

unfoldable pub load_accounts : List Account → AccountStore → Result AccountError AccountStore
unfolding load_account
load_accounts [] store = ok store
load_accounts (account ∷ rest) store = bind (load_account account store) (load_accounts rest)

-- `none` is the empty name of a state file; otherwise what readAccountFile gives.
abbrev load_file :
    Option (Result AccountError (List Account))
    → (Bool → AccountStore)
    → Result AccountError AccountStore
load_file none store = ok (store false)
load_file (some read) store = bind read (λ accounts. load_accounts accounts (store true))

-- NewMemoryAccountStoreWithConfig.
unfoldable pub new_account_store :
    ℕ → ℕ → Option (Result AccountError (List Account)) → Result AccountError AccountStore
unfolding load_accounts
new_account_store max_accounts max_per_source file =
    let accounts = or_default max_accounts default_max_accounts in
    let per_source = or_default max_per_source default_max_accounts_per_source in
    if out_of_range accounts
    then err bad_config
    else if out_of_range per_source
    then err bad_config
    else load_file file (empty_store accounts per_source)

-- The maps after a new account is stored; a source of `none` is not counted.
abbrev count_source : Option (List ℕ) → Map (List ℕ) ℕ → Map (List ℕ) ℕ
count_source none m = m
count_source (some source) m = increment bytes_discrete source m

unfoldable pub store_account : Account → Option (List ℕ) → AccountStore → AccountStore
store_account account source store = record store {
  next_user_id = (store.next_user_id + 1) % 2 ^ 64;
  by_username = insert bytes_discrete account.username account store.by_username;
  by_hash = insert ℕ_discrete account.account_hash account store.by_hash;
  by_user_id = insert ℕ_discrete account.user_id account store.by_user_id;
  accounts_by_source = count_source source store.accounts_by_source;
}

-- (account, created) or an error, and the store afterwards.
abbrev pub Registered : Type 0
Registered = Result AccountError (Account × Bool) × AccountStore

abbrev pub new_account : List ℕ → List ℕ → ℕ → AccountStore → Account
new_account username password_hash hash store = record {
  user_id = store.next_user_id;
  username = username;
  password_hash = password_hash;
  account_hash = hash;
}

abbrev source_full : Option (List ℕ) → AccountStore → Bool
source_full none store = false
source_full (some source) store =
    leb store.max_accounts_per_source (count bytes_discrete source store.accounts_by_source)

-- register from the check for a hash collision on; `written` is true where the file is written.
-- The account that the source returns beside the collision error is left out.
unfoldable pub register_hash :
    List ℕ → List ℕ → Option (List ℕ) → ℕ → Bool → AccountStore → Option Account → Registered
unfolding store_account
register_hash username password_hash source hash written store (some other) =
    (err hash_collision, store)
register_hash username password_hash source hash written store none =
    let account = new_account username password_hash hash store in
    if store.has_state_file && not written
    then (err write_failed, store)
    else (ok (account, true), store_account account source store)

-- register with what the map of usernames gives. `source` is `none` where no limit is enforced.
unfoldable pub register_name :
    List ℕ → List ℕ → Option (List ℕ) → Bool → AccountStore → Option Account → Registered
unfolding register_hash
register_name username password_hash source written store (some existing) =
    (ok (existing, false), store)
register_name username password_hash source written store none =
    let hash = boz_account_hash username in
    if leb store.max_accounts (length store.by_username)
    then (err account_limit, store)
    else if source_full source store
    then (err source_limit, store)
    else register_hash username password_hash source hash written store
        (find_number hash store.by_hash)

unfoldable pub register : List ℕ → List ℕ → Option (List ℕ) → Bool → AccountStore → Registered
unfolding register_name
register username password_hash source written store =
    register_name username password_hash source written store (find_name username store.by_username)

abbrev checked_identity : NetText → IpAddr → Option (List ℕ)
checked_identity text (ip4 bytes) =
    if is_unspecified (ip4 bytes) || is_multicast (ip4 bytes)
    then none
    else some (text.addr_string (ip4 bytes))
checked_identity text (ip6 bytes zone) =
    if is_unspecified (ip6 bytes zone) || is_multicast (ip6 bytes zone)
    then none
    else some (text.prefix64_string bytes)

abbrev address_identity : NetText → Option IpAddr → Option (List ℕ)
address_identity text none = none
address_identity text (some address) = checked_identity text (unmap address)

abbrev text_identity : NetText → List ℕ → List ℕ → Option (List ℕ) → Option (List ℕ)
text_identity text network name (some host) = address_identity text (text.parse_addr host)
text_identity text network name none =
    if is_empty network || is_empty name then none else some (network ++ b':' ∷ name)

-- accountSourceIdentity, with `none` for its error.
unfoldable pub account_source_identity : NetText → NetAddr → Option (List ℕ)
account_source_identity text nil_addr = none
account_source_identity text (tcp_addr ip port) = address_identity text (addr_from_slice ip)
account_source_identity text (other_addr network name) =
    text_identity text network name (text.split_host_port name)

abbrev register_as : List ℕ → List ℕ → Option (List ℕ) → Bool → AccountStore → Registered
register_as username password_hash none written store = (err invalid_source, store)
register_as username password_hash (some source) written store =
    register username password_hash (some source) written store

unfoldable pub register_from_peer :
    NetText → List ℕ → List ℕ → NetAddr → Bool → AccountStore → Registered
unfolding register
register_from_peer text username password_hash peer written store =
    register_as username password_hash (account_source_identity text peer) written store

-- Lookup, LookupHash and LookupUserID.
unfoldable pub lookup_username : List ℕ → AccountStore → Option Account
lookup_username username store = find_name username store.by_username

unfoldable pub lookup_hash : ℕ → AccountStore → Option Account
lookup_hash hash store = find_number hash store.by_hash

unfoldable pub lookup_user_id : ℕ → AccountStore → Option Account
lookup_user_id user_id store = find_number user_id store.by_user_id
