-- ===== src/Auth/Store/Invariant.antt =====
-- store.go: the three maps of accounts agree, and storing a new account keeps them so.
use codboz_nx_online.Base.{
  ℕ, ◌+◌, ◌^◌, ◌≤◌, ◌<◌, ◌≡◌, ◌≢◌, Bool, List, length, Option, none, some, ℕ_discrete, arith,
}
use codboz_nx_online.Go.Discrete.{bytes_discrete}
use codboz_nx_online.Go.Map.{lookup, lookup-insert, length-insert_fresh}
use codboz_nx_online.Auth.Store.{
  Account, AccountStore, find_name, find_number, boz_account_hash, empty_store, store_account,
  new_account,
}

-- An account that the map of usernames holds stands in the other two maps too.
pub record IsNamed (s : AccountStore) (name : List ℕ) (a : Account) : Type 0 where
  pub named : a.username ≡ name
  pub hashed : a.account_hash ≡ boz_account_hash name
  pub by_hash : find_number a.account_hash s.by_hash ≡ some a
  pub by_user_id : find_number a.user_id s.by_user_id ≡ some a
  pub old : a.user_id < s.next_user_id
  pub has_id : a.user_id ≢ 0

pub record Inv (s : AccountStore) : Type 0 where
  pub names :
      (name : List ℕ) (a : Account) → find_name name s.by_username ≡ some a → IsNamed s name a
  pub hashes :
      (hash : ℕ) (a : Account)
      → find_number hash s.by_hash ≡ some a
      → (a.account_hash ≡ hash) × (find_name a.username s.by_username ≡ some a)
  pub user_ids :
      (id : ℕ) (a : Account)
      → find_number id s.by_user_id ≡ some a
      → (a.user_id ≡ id) × (find_name a.username s.by_username ≡ some a)
  pub bounded : length s.by_username ≤ s.max_accounts
  pub next : s.next_user_id ≢ 0

pub empty-Inv : (m p : ℕ) (file : Bool) → Inv (empty_store m p file)
unfolding lookup
empty-Inv m p file = record {
  names = λ name a h. cc;
  hashes = λ hash a h. cc;
  user_ids = λ id a h. cc;
  bounded = omega arith;
  next = omega arith;
}

module _ (s : AccountStore) (v : Inv s) (username password_hash : List ℕ) where
  pub store_account-Inv :
      (source : Option (List ℕ))
      → find_name username s.by_username ≡ none
      → find_number (boz_account_hash username) s.by_hash ≡ none
      → length s.by_username < s.max_accounts
      → s.next_user_id + 1 < 2 ^ 64
      → Inv (
          store_account (new_account username password_hash (boz_account_hash username) s) source s)
  unfolding store_account
  store_account-Inv source fresh free room small =
      let hash = boz_account_hash username in
      let a = new_account username password_hash hash s in
      let named = λ (n : List ℕ). lookup-insert bytes_discrete username n a s.by_username in
      let hashed = λ (h : ℕ). lookup-insert ℕ_discrete hash h a s.by_hash in
      let numbered = λ (i : ℕ). lookup-insert ℕ_discrete s.next_user_id i a s.by_user_id in
      record {
        names = λ n x found. record {
          named = ground (arith, named n, v.names n x);
          hashed = ground (arith, named n, v.names n x);
          by_hash = ground (arith, named n, v.names n x, hashed x.account_hash);
          by_user_id = ground (arith, named n, v.names n x, numbered x.user_id);
          old = ground (arith, named n, v.names n x);
          has_id = ground (arith, named n, v.names n x, v.next);
        };
        hashes = λ h x found. ground (arith, hashed h, v.hashes h x, named x.username);
        user_ids = λ i x found. ground (arith, numbered i, v.user_ids i x, named x.username);
        bounded = omega (arith, length-insert_fresh bytes_discrete username a s.by_username fresh);
        next = omega (arith, v.next);
      }
