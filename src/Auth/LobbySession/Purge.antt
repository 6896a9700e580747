-- ===== src/Auth/LobbySession/Purge.antt =====
-- lobby_session.go, purgeExpiredLocked: the loop keeps the invariant and removes exactly the expired
-- sessions.
use codboz_nx_online.Base.{
  ℕ, ◌≡◌, refl, [], ◌∷◌, ite, inl, inr, if◌then◌else◌, Option, none, some, arith, Bool-cases,
  ℕ_discrete,
}
use codboz_nx_online.Go.Map.{Map, lookup, Unique, lookup-delete}
use codboz_nx_online.Auth.LobbySession.{
  SessionStore, PendingSession, find_seed, is_live, is_pending, delete_locked, purge_entries,
  purge_expired_locked,
}
use codboz_nx_online.Auth.LobbySession.Invariant.{Inv, delete_locked-Inv}

-- What is left of an entry when the sessions that have expired are gone.
abbrev pub unless_expired : ℕ → Option PendingSession → Option PendingSession
unless_expired now none = none
unless_expired now (some p) = if is_live now p then some p else none

-- One round of the loop.
abbrev round : ℕ → ℕ → PendingSession → SessionStore → SessionStore
round now seed p s = if is_live now p then s else delete_locked seed p s

find_seed-round :
    (now seed j : ℕ) (p : PendingSession) (s : SessionStore)
    → find_seed seed s.by_seed ≡ some p
    → find_seed j (round now seed p s).by_seed
      ≡ ite (ℕ_discrete seed j) (unless_expired now (find_seed j s.by_seed)) (find_seed j s.by_seed)
unfolding delete_locked
find_seed-round now seed j p s found = ground (arith, lookup-delete ℕ_discrete seed j s.by_seed)

round-Inv :
    (now seed : ℕ) (p : PendingSession) (s : SessionStore)
    → Inv s
    → find_seed seed s.by_seed ≡ some p
    → Inv (round now seed p s)
round-Inv now seed p s v found = elim (Bool-cases (is_live now p)) [
  | inl live ↦ rw live v
  | inr old ↦ rw old (delete_locked-Inv s v seed p found)
]

-- The entries that the loop has still to visit are in the store.
abbrev Unvisited : Map ℕ PendingSession → SessionStore → Type 0
Unvisited rest s =
    (seed : ℕ) (p : PendingSession)
    → lookup ℕ_discrete seed rest ≡ some p
    → find_seed seed s.by_seed ≡ some p

module _ (now seed : ℕ) (p : PendingSession) (rest : Map ℕ PendingSession) (s : SessionStore)
    (unique : Unique ℕ_discrete ((seed, p) ∷ rest))
    (unvisited : Unvisited ((seed, p) ∷ rest) s) where
  head_found : find_seed seed s.by_seed ≡ some p
  unfolding lookup
  head_found = ground (arith, unvisited seed p)

  round-Unvisited : Unvisited rest (round now seed p s)
  unfolding lookup
  round-Unvisited j x h = ground (arith, unvisited j x, find_seed-round now seed j p s head_found)

purge_entries-Inv :
    (now : ℕ) (rest : Map ℕ PendingSession) (s : SessionStore)
    → Inv s
    → Unique ℕ_discrete rest
    → Unvisited rest s
    → Inv (purge_entries now rest s)
unfolding purge_entries
purge_entries-Inv now [] s v unique unvisited = v
purge_entries-Inv now ((seed, p) ∷ rest) s v unique unvisited =
    purge_entries-Inv now rest (round now seed p s)
      (round-Inv now seed p s v (head_found now seed p rest s unique unvisited)) unique.1
      (round-Unvisited now seed p rest s unique unvisited)

pub purge-Inv : (now : ℕ) (s : SessionStore) → Inv s → Inv (purge_expired_locked now s)
unfolding purge_expired_locked
purge-Inv now s v = purge_entries-Inv now s.by_seed s v v.unique (λ seed p h. h)

find_seed-purge_entries :
    (now j : ℕ) (rest : Map ℕ PendingSession) (s : SessionStore)
    → Unique ℕ_discrete rest
    → Unvisited rest s
    → find_seed j (purge_entries now rest s).by_seed ≡ (
        if is_pending (lookup ℕ_discrete j rest)
        then unless_expired now (find_seed j s.by_seed)
        else find_seed j s.by_seed)
unfolding purge_entries lookup
find_seed-purge_entries now j [] s unique unvisited = refl
find_seed-purge_entries now j ((seed, p) ∷ rest) s unique unvisited = ground (
  arith,
  head_found now seed p rest s unique unvisited,
  find_seed-round now seed j p s,
  find_seed-purge_entries now j rest (round now seed p s) unique.1
      (round-Unvisited now seed p rest s unique unvisited),
)

-- After the purge the expired sessions are gone, and every live one is still found under its seed.
pub find_seed-purge :
    (now seed : ℕ) (s : SessionStore)
    → Inv s
    → find_seed seed (purge_expired_locked now s).by_seed
      ≡ unless_expired now (find_seed seed s.by_seed)
unfolding purge_expired_locked
find_seed-purge now seed s v =
    ground (arith, find_seed-purge_entries now seed s.by_seed s v.unique (λ j p h. h))

limits-purge_entries :
    (now : ℕ) (rest : Map ℕ PendingSession) (s : SessionStore)
    → let s' = purge_entries now rest s in
      (s'.max_sessions ≡ s.max_sessions)
      × (s'.max_sessions_per_account ≡ s.max_sessions_per_account)
      × (s'.next_token ≡ s.next_token)
unfolding purge_entries
limits-purge_entries now [] s = (refl, refl, refl)
limits-purge_entries now ((seed, p) ∷ rest) s =
    unfold delete_locked in ground (arith, limits-purge_entries now rest (round now seed p s))

pub limits-purge :
    (now : ℕ) (s : SessionStore)
    → let s' = purge_expired_locked now s in
      (s'.max_sessions ≡ s.max_sessions)
      × (s'.max_sessions_per_account ≡ s.max_sessions_per_account)
      × (s'.next_token ≡ s.next_token)
unfolding purge_expired_locked
limits-purge now s = limits-purge_entries now s.by_seed s
