-- ===== src/Lobby/MatchmakingStore/Find/Complete.antt =====
-- matchmaking_store.go, Find: the result holds the stored sessions that match, and no others.
use mathlib.Core.List.{Mem, mem-cons_self, mem-cons_of_mem, mem-map_of_mem}
use mathlib.Core.List.Perm
use codboz_nx_online.Base.{
  ℕ, ◌≤◌, ◌<◌, ◌^◌, ◌≡◌, sym, ap, subst, Bool, true, false, List, [], ◌∷◌, map, some, length, arith,
  if◌then◌else◌, Bool-cases, inl, inr, All, take_all,
}
use codboz_nx_online.Go.Discrete.{bytes_discrete}
use codboz_nx_online.Go.Map.{Map, lookup}
use codboz_nx_online.Lobby.Matchmaking.{MatchmakingQuery, MatchmakingSessionId}
use codboz_nx_online.Lobby.MatchmakingStore.{
  MatchmakingStore, StoredSession, matches_query, matching, sort_by_order, find_id, find,
}
use codboz_nx_online.Lobby.MatchmakingStore.Find.{
  info_of, find-slice, sort_by_order-perm, length-sort_by_order,
}

abbrev Matching : MatchmakingQuery → StoredSession → Type 0
Matching query e = matches_query e.info query ≡ true

pub matching_sound :
    (query : MatchmakingQuery) (m : Map MatchmakingSessionId StoredSession)
    → All (Matching query) (matching query m)
unfolding matching
matching_sound query [] = tt
matching_sound query ((id, e) ∷ m) = elim (Bool-cases (matches_query e.info query)) [
  | inl fits ↦ rw fits (fits, matching_sound query m)
  | inr other ↦ rw other (matching_sound query m)
]

Mem-kept :
    (b : Bool) (x e : StoredSession) (rest : List StoredSession)
    → Mem e rest
    → Mem e (if b then x ∷ rest else rest)
Mem-kept true x e rest h = mem-cons_of_mem x h
Mem-kept false x e rest h = h

matching_complete :
    (query : MatchmakingQuery) (m : Map MatchmakingSessionId StoredSession)
    (id : MatchmakingSessionId) (e : StoredSession)
    → lookup bytes_discrete id m ≡ some e
    → Matching query e
    → Mem e (matching query m)
unfolding matching lookup
matching_complete query [] id e found fits = cc
matching_complete query ((j, x) ∷ m) id e found fits = elim (bytes_discrete j id) [
  | yes here ↦
      let same : e ≡ x = ground arith in
      let fits' : Matching query x = subst (Matching query) same fits in
      rw fits' (subst (λ y. Mem e (y ∷ matching query m)) same mem-cons_self)
  | no later ↦
      Mem-kept (matches_query x.info query) x e (matching query m)
        (matching_complete query m id e (ground arith) fits)
]

-- A search from offset 0 whose maximum is at least the number of matches (fewer than 2 ^ 32) returns
-- the info of every stored session that matches the query.
pub find_complete :
    (query : MatchmakingQuery) (maximum : ℕ) (s : MatchmakingStore) (id : MatchmakingSessionId)
    (e : StoredSession)
    → length (matching query s.by_id) < 2 ^ 32
    → length (matching query s.by_id) ≤ maximum
    → find_id id s.by_id ≡ some e
    → matches_query e.info query ≡ true
    → Mem e.info (find query 0 maximum s).0
find_complete query maximum s id e small enough found fits =
    let sorted = sort_by_order (matching query s.by_id) in
    let whole : length sorted ≤ maximum =
      omega (arith, length-sort_by_order (matching query s.by_id)) in
    subst (λ l. Mem e.info l) (sym (ap (λ p. p.0) (find-slice query 0 maximum s small)))
      (subst (λ l. Mem e.info (map info_of l)) (sym (take_all maximum sorted whole))
        (mem-map_of_mem info_of (
          (Perm.mem_iff (sort_by_order-perm (matching query s.by_id))).1
            (matching_complete query s.by_id id e found fits))))
