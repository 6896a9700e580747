-- ===== src/Lobby/MatchmakingStore/Owners.antt =====
-- matchmaking_store.go, DeleteOwner: the loop keeps the invariant and removes exactly the owner's
-- sessions.
use codboz_nx_online.Base.{
  ℕ, ◌≡◌, refl, [], ◌∷◌, ite, inl, inr, ◌==◌, if◌then◌else◌, Option, none, some, arith, Bool-cases,
}
use codboz_nx_online.Go.Discrete.{bytes_discrete}
use codboz_nx_online.Go.Map.{Map, lookup, Unique, lookup-delete}
use codboz_nx_online.Lobby.Matchmaking.{MatchmakingSessionId}
use codboz_nx_online.Lobby.MatchmakingStore.{
  is_taken, MatchmakingStore, StoredSession, find_id, delete_locked, delete_owned, delete_owner,
}
use codboz_nx_online.Lobby.MatchmakingStore.Invariant.{Inv, delete_locked-Inv}

-- What is left of an entry when the sessions of `owner` are gone.
abbrev pub unless_owned : ℕ → Option StoredSession → Option StoredSession
unless_owned owner none = none
unless_owned owner (some e) = if e.owner == owner then none else some e

-- One round of the loop.
abbrev round : ℕ → MatchmakingSessionId → StoredSession → MatchmakingStore → MatchmakingStore
round owner id e s = if e.owner == owner then delete_locked id e s else s

find_id-round :
    (owner : ℕ) (id j : MatchmakingSessionId) (e : StoredSession) (s : MatchmakingStore)
    → find_id id s.by_id ≡ some e
    → find_id j (round owner id e s).by_id
      ≡ ite (bytes_discrete id j) (unless_owned owner (find_id j s.by_id)) (find_id j s.by_id)
unfolding delete_locked
find_id-round owner id j e s found = ground (arith, lookup-delete bytes_discrete id j s.by_id)

round-Inv :
    (owner : ℕ) (id : MatchmakingSessionId) (e : StoredSession) (s : MatchmakingStore)
    → Inv s
    → find_id id s.by_id ≡ some e
    → Inv (round owner id e s)
round-Inv owner id e s v found = elim (Bool-cases (e.owner == owner)) [
  | inl own ↦ rw own (delete_locked-Inv s v id e found)
  | inr other ↦ rw other v
]

-- The entries that the loop has still to visit are in the store.
abbrev Pending : Map MatchmakingSessionId StoredSession → MatchmakingStore → Type 0
Pending rest s =
    (id : MatchmakingSessionId) (e : StoredSession)
    → lookup bytes_discrete id rest ≡ some e
    → find_id id s.by_id ≡ some e

module _ (owner : ℕ) (id : MatchmakingSessionId) (e : StoredSession)
    (rest : Map MatchmakingSessionId StoredSession) (s : MatchmakingStore)
    (unique : Unique bytes_discrete ((id, e) ∷ rest)) (pending : Pending ((id, e) ∷ rest) s) where
  head_found : find_id id s.by_id ≡ some e
  unfolding lookup
  head_found = ground (arith, pending id e)

  round-Pending : Pending rest (round owner id e s)
  unfolding lookup
  round-Pending j x h = ground (arith, pending j x, find_id-round owner id j e s head_found)

delete_owned-Inv :
    (owner : ℕ) (rest : Map MatchmakingSessionId StoredSession) (s : MatchmakingStore)
    → Inv s
    → Unique bytes_discrete rest
    → Pending rest s
    → Inv (delete_owned owner rest s)
unfolding delete_owned
delete_owned-Inv owner [] s v unique pending = v
delete_owned-Inv owner ((id, e) ∷ rest) s v unique pending =
    delete_owned-Inv owner rest (round owner id e s)
      (round-Inv owner id e s v (head_found owner id e rest s unique pending)) unique.1
      (round-Pending owner id e rest s unique pending)

pub delete_owner-Inv : (owner : ℕ) (s : MatchmakingStore) → Inv s → Inv (delete_owner owner s)
unfolding delete_owner
delete_owner-Inv owner s v = delete_owned-Inv owner s.by_id s v v.unique (λ id e h. h)

-- The entries of `rest` are filtered by their owner, and the others stay.
find_id-delete_owned :
    (owner : ℕ) (j : MatchmakingSessionId) (rest : Map MatchmakingSessionId StoredSession)
    (s : MatchmakingStore)
    → Unique bytes_discrete rest
    → Pending rest s
    → find_id j (delete_owned owner rest s).by_id ≡ (
        if is_taken (lookup bytes_discrete j rest)
        then unless_owned owner (find_id j s.by_id)
        else find_id j s.by_id)
unfolding delete_owned lookup
find_id-delete_owned owner j [] s unique pending = refl
find_id-delete_owned owner j ((id, e) ∷ rest) s unique pending = ground (
  arith,
  head_found owner id e rest s unique pending,
  find_id-round owner id j e s,
  find_id-delete_owned owner j rest (round owner id e s) unique.1
      (round-Pending owner id e rest s unique pending),
)

-- After DeleteOwner the sessions of that owner are gone, and every other identifier leads to what it
-- led to before.
pub find_id-delete_owner :
    (owner : ℕ) (id : MatchmakingSessionId) (s : MatchmakingStore)
    → Inv s
    → find_id id (delete_owner owner s).by_id ≡ unless_owned owner (find_id id s.by_id)
unfolding delete_owner
find_id-delete_owner owner id s v =
    ground (arith, find_id-delete_owned owner id s.by_id s v.unique (λ j e h. h))
