-- ===== src/Auth/Store/Register.antt =====
-- store.go: what a registration does, alone and in a history of registrations.
use codboz_nx_online.Base.{
  ℕ, ◌+◌, ◌^◌, ◌≤◌, ◌<◌, ◌≡◌, refl, sym, subst, Bool, true, false, not, ◌&&◌, List, [], ◌∷◌, inl,
  inr, leb, length, Option, none, some, ok, err, ℕ_discrete, arith, Bool-cases, Option-cases,
}
use codboz_nx_online.Go.Discrete.{bytes_discrete}
use codboz_nx_online.Go.Map.{lookup-insert}
use codboz_nx_online.Auth.Store.{
  Account, AccountStore, AccountError, Registered, find_name, find_number, boz_account_hash,
  empty_store, store_account, new_account_store, new_account, source_full, register_hash,
  register_name, register, lookup_username, lookup_hash, lookup_user_id,
}
use codboz_nx_online.Auth.Store.Invariant.{Inv, empty-Inv, store_account-Inv}

-- A registration that creates an account has stored it with the next user identifier and the hash
-- of its name, both the hash and the name being free before; one that does not create has left the
-- store alone.
pub data Outcome (username password_hash : List ℕ) (source : Option (List ℕ)) (s : AccountStore)
    (r : Registered) : Type 0 where
  stored :
      find_name username s.by_username ≡ none
      → find_number (boz_account_hash username) s.by_hash ≡ none
      → length s.by_username < s.max_accounts
      → (let a = new_account username password_hash (boz_account_hash username) s in
          r ≡ (ok (a, true), store_account a source s))
      → Outcome username password_hash source s r
  known :
      (a : Account)
      → find_name username s.by_username ≡ some a
      → r ≡ (ok (a, false), s)
      → Outcome username password_hash source s r
  rejected :
      (e : AccountError)
      → find_name username s.by_username ≡ none
      → r ≡ (err e, s)
      → Outcome username password_hash source s r

module _ (username password_hash : List ℕ) (source : Option (List ℕ)) (written : Bool)
    (s : AccountStore) where
  register_hash-Outcome :
      find_name username s.by_username ≡ none
      → length s.by_username < s.max_accounts
      → Outcome username password_hash source s (
          register_hash username password_hash source
            (boz_account_hash username)
            written
            s
            (find_number (boz_account_hash username) s.by_hash))
  unfolding register_hash
  register_hash-Outcome fresh room =
      let unwritten = s.has_state_file && not written in
      elim (Option-cases (find_number (boz_account_hash username) s.by_hash)) [
        | inl free ↦ elim (Bool-cases unwritten) [
          | inl bad ↦ rw (free, bad) (rejected _ fresh refl)
          | inr good ↦ rw (free, good) (stored fresh free room refl)
        ]
        | inr (other, taken) ↦ rw taken (rejected _ fresh refl)
      ]

  register_name-Outcome :
      find_name username s.by_username ≡ none
      → Outcome username password_hash source s
          (register_name username password_hash source written s none)
  unfolding register_name
  register_name-Outcome fresh = elim (Bool-cases (leb s.max_accounts (length s.by_username))) [
    | inl full ↦ rw full (rejected _ fresh refl)
    | inr room ↦ elim (Bool-cases (source_full source s)) [
      | inl full ↦ rw (room, full) (rejected _ fresh refl)
      | inr free ↦ rw (room, free) (register_hash-Outcome fresh (ground arith))
    ]
  ]

  pub register-Outcome :
      Outcome username password_hash source s (register username password_hash source written s)
  unfolding register
  register-Outcome = elim (Option-cases (find_name username s.by_username)) [
    | inl fresh ↦ rw fresh (register_name-Outcome fresh)
    | inr (a, found) ↦ rw found (unfold register_name in known a found refl)
  ]

module _ (username password_hash : List ℕ) (source : Option (List ℕ)) (s : AccountStore) where
  stored_found :
      (a : Account) (s' : AccountStore) (r : Registered)
      → Outcome username password_hash source s r
      → r ≡ (ok (a, true), s')
      → (lookup_username username s ≡ none)
        × (a.username ≡ username)
        × (a.password_hash ≡ password_hash)
        × (lookup_username username s' ≡ some a)
        × (lookup_hash (boz_account_hash username) s' ≡ some a)
        × (lookup_user_id a.user_id s' ≡ some a)
  unfolding lookup_username lookup_hash lookup_user_id store_account
  stored_found a s' r (stored fresh free room e) h =
      let x = new_account username password_hash (boz_account_hash username) s in
      ground (
        arith,
        lookup-insert bytes_discrete username username x s.by_username,
        lookup-insert ℕ_discrete (boz_account_hash username) (boz_account_hash username) x
            s.by_hash,
        lookup-insert ℕ_discrete s.next_user_id s.next_user_id x s.by_user_id,
      )
  stored_found a s' r (known x found e) h = absurd (ground arith)
  stored_found a s' r (rejected x fresh e) h = absurd (ground arith)

  ok_found :
      (a : Account) (created : Bool) (s' : AccountStore) (r : Registered)
      → Outcome username password_hash source s r
      → r ≡ (ok (a, created), s')
      → find_name username s'.by_username ≡ some a
  unfolding store_account
  ok_found a created s' r (stored fresh free room e) h =
      let x = new_account username password_hash (boz_account_hash username) s in
      ground (arith, lookup-insert bytes_discrete username username x s.by_username)
  ok_found a created s' r (known x found e) h = ground arith
  ok_found a created s' r (rejected x fresh e) h = absurd (ground arith)

  outcome-Inv :
      (r : Registered)
      → Outcome username password_hash source s r
      → Inv s
      → s.next_user_id + 1 < 2 ^ 64
      → Inv r.1
  outcome-Inv r (stored fresh free room e) v small =
      subst (λ (q : Registered). Inv q.1) (sym e)
        (store_account-Inv s v username password_hash source fresh free room small)
  outcome-Inv r (known x found e) v small = subst (λ (q : Registered). Inv q.1) (sym e) v
  outcome-Inv r (rejected x fresh e) v small = subst (λ (q : Registered). Inv q.1) (sym e) v

  outcome_next :
      (r : Registered)
      → Outcome username password_hash source s r
      → r.1.next_user_id ≤ s.next_user_id + 1
  unfolding store_account
  outcome_next r (stored fresh free room e) = ground arith
  outcome_next r (known x found e) = ground arith
  outcome_next r (rejected x fresh e) = ground arith

  outcome_keeps :
      (r : Registered) (name : List ℕ) (a : Account)
      → Outcome username password_hash source s r
      → find_name name s.by_username ≡ some a
      → find_name name r.1.by_username ≡ some a
  unfolding store_account
  outcome_keeps r name a (stored fresh free room e) h =
      let x = new_account username password_hash (boz_account_hash username) s in
      ground (arith, lookup-insert bytes_discrete username name x s.by_username)
  outcome_keeps r name a (known x found e) h = ground arith
  outcome_keeps r name a (rejected x fresh e) h = ground arith

-- A registration that creates an account: the name was free, the account has the name and the
-- password hash of the call, and afterwards each of the three lookups, by the name, by its hash and
-- by the new user identifier, gives that account.
pub register_stores :
    (username password_hash : List ℕ) (source : Option (List ℕ)) (written : Bool)
    (s s' : AccountStore) (a : Account)
    → register username password_hash source written s ≡ (ok (a, true), s')
    → (lookup_username username s ≡ none)
      × (a.username ≡ username)
      × (a.password_hash ≡ password_hash)
      × (lookup_username username s' ≡ some a)
      × (lookup_hash (boz_account_hash username) s' ≡ some a)
      × (lookup_user_id a.user_id s' ≡ some a)
register_stores username password_hash source written s s' a h =
    stored_found username password_hash source s a s' _
      (register-Outcome username password_hash source written s) h

-- Registering a name again, with any password hash, source and outcome of the file, gives the
-- account that the first successful registration gave, creates nothing and leaves the store as it
-- was.
pub register_again :
    (username first second : List ℕ) (source source' : Option (List ℕ)) (written written' : Bool)
    (s s' : AccountStore) (a : Account) (created : Bool)
    → register username first source written s ≡ (ok (a, created), s')
    → register username second source' written' s' ≡ (ok (a, false), s')
unfolding register register_name
register_again username first second source source' written written' s s' a created h =
    rw
      (ok_found username first source s a created s' _
        (register-Outcome username first source written s) h)
      refl

-- A call of Register or RegisterFromPeer behind the peer's identity.
pub record Call : Type 0 where
  pub username : List ℕ
  pub password_hash : List ℕ
  pub source : Option (List ℕ)
  pub written : Bool

abbrev pub after : AccountStore → Call → AccountStore
after s c = (register c.username c.password_hash c.source c.written s).1

unfoldable pub run : AccountStore → List Call → AccountStore
run s [] = s
run s (c ∷ cs) = run (after s c) cs

run-Inv :
    (s : AccountStore) (cs : List Call)
    → Inv s
    → s.next_user_id + length cs < 2 ^ 64
    → Inv (run s cs)
unfolding run
run-Inv s [] v small = v
run-Inv s (c ∷ cs) v small =
    let out = register-Outcome c.username c.password_hash c.source c.written s in
    let next = outcome_next c.username c.password_hash c.source s _ out in
    run-Inv (after s c) cs (outcome-Inv c.username c.password_hash c.source s _ out v (omega arith))
      (omega (arith, next))

-- A store that the constructor made without a state file, after any history of fewer than 2 ^ 64 - 1
-- registrations, failed ones included: an account found by its name is found by its hash and its
-- user identifier too, its hash is that of its name, and its identifier is not 0; what is found by
-- a hash or an identifier has that hash or identifier and is found by its name; and there are no
-- more accounts than the limit.
pub run-new_account_store-Inv :
    (max_accounts max_per_source : ℕ) (s : AccountStore) (cs : List Call)
    → new_account_store max_accounts max_per_source none ≡ ok s
    → length cs + 1 < 2 ^ 64
    → Inv (run s cs)
unfolding new_account_store
run-new_account_store-Inv m p s cs made small =
    let same : s ≡ empty_store s.max_accounts s.max_accounts_per_source false = ground arith in
    run-Inv s cs (subst Inv (sym same) (empty-Inv s.max_accounts s.max_accounts_per_source false))
      (ground arith)

run_keeps_name :
    (s : AccountStore) (cs : List Call) (name : List ℕ) (a : Account)
    → find_name name s.by_username ≡ some a
    → find_name name (run s cs).by_username ≡ some a
unfolding run
run_keeps_name s [] name a h = h
run_keeps_name s (c ∷ cs) name a h = run_keeps_name (after s c) cs name a (
    outcome_keeps c.username c.password_hash c.source s _ name a
      (register-Outcome c.username c.password_hash c.source c.written s) h)

-- In a store that meets the invariant, any history of registrations that does not use up the user
-- identifiers, failed ones included, leaves every account that was found by its name as it was: its
-- name, its hash and its user identifier all lead to the same account afterwards.
pub run_keeps :
    (s : AccountStore) (cs : List Call) (name : List ℕ) (a : Account)
    → Inv s
    → s.next_user_id + length cs < 2 ^ 64
    → lookup_username name s ≡ some a
    → (lookup_username name (run s cs) ≡ some a)
      × (lookup_hash (boz_account_hash name) (run s cs) ≡ some a)
      × (lookup_user_id a.user_id (run s cs) ≡ some a)
unfolding lookup_username lookup_hash lookup_user_id
run_keeps s cs name a v small h =
    let kept = run_keeps_name s cs name a h in
    let there = (run-Inv s cs v small).names name a kept in
    (
      kept,
      subst (λ hash. find_number hash (run s cs).by_hash ≡ some a) there.hashed there.by_hash,
      there.by_user_id,
    )
