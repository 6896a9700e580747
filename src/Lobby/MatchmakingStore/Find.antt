-- ===== src/Lobby/MatchmakingStore/Find.antt =====
-- matchmaking_store.go, Find: what a search returns, in which order, and how pages fit together.
pub mod Complete
use codboz_nx_online.Base.{
  ℕ, zero, suc, ◌+◌, ◌-◌, ◌%◌, ◌^◌, ◌≤◌, ◌<◌, ◌≡◌, refl, sym, ap, ap₂, ◌∙◌, min, Bool, true, false,
  ◌||◌, List, [], ◌∷◌, ◌++◌, map, ltb, leb, ◌==◌, if◌then◌else◌, length, take, drop, arith,
  Bool-cases, inl, inr, some, length-take, length-drop, take-add, take-min, drop-drop, All,
}
use mathlib.Core.List.{Perm, map-append}
use mathlib.Core.List.Perm
use codboz_nx_online.Go.Map.{Map}
use codboz_nx_online.Lobby.MatchmakingStore.Births.{birth}
use codboz_nx_online.Lobby.Matchmaking.{MatchmakingInfo, MatchmakingQuery, MatchmakingSessionId}
use codboz_nx_online.Lobby.MatchmakingStore.{
  MatchmakingStore, StoredSession, matching, insert_by_order, sort_by_order, page, find,
}

-- A page of fewer than 2 ^ 32 entries is the plain slice.
page_lem :
    {A : Type 0} (offset maximum : ℕ) (xs : List A)
    → page (length xs) offset maximum xs ≡ take maximum (drop offset xs)
unfolding page
page_lem offset maximum xs =
    ground (arith, length-drop offset xs, take-min maximum (drop offset xs))

take-page :
    {A : Type 0} (offset a b : ℕ) (xs : List A)
    → take (a + b) (drop offset xs) ≡ take a (drop offset xs) ++ take b (drop (offset + a) xs)
take-page offset a b xs =
    take-add a b (drop offset xs)
    ∙ ap (λ l. take a (drop offset xs) ++ take b l) (drop-drop offset a xs)

insert_by_order-perm :
    (e : StoredSession) (xs : List StoredSession) → Perm (insert_by_order e xs) (e ∷ xs)
unfolding insert_by_order
insert_by_order-perm e [] = Perm.refl (e ∷ [])
insert_by_order-perm e (x ∷ xs) = elim (Bool-cases (ltb e.order x.order)) [
  | inl before ↦ rw before (Perm.refl (e ∷ x ∷ xs))
  | inr after ↦ rw after (Perm.trans (Perm.cons x (insert_by_order-perm e xs)) (Perm.swap e x xs))
]

pub sort_by_order-perm : (xs : List StoredSession) → Perm (sort_by_order xs) xs
unfolding sort_by_order
sort_by_order-perm [] = Perm.refl []
sort_by_order-perm (x ∷ xs) =
    Perm.trans (insert_by_order-perm x (sort_by_order xs)) (Perm.cons x (sort_by_order-perm xs))

abbrev pub IsSorted : List StoredSession → Type 0
IsSorted [] = Unit {0}
IsSorted (e ∷ es) = All (λ x. e.order ≤ x.order) es × IsSorted es

length-insert_by_order :
    (e : StoredSession) (xs : List StoredSession) → length (insert_by_order e xs) ≡ length xs + 1
unfolding insert_by_order
length-insert_by_order e [] = omega arith
length-insert_by_order e (x ∷ xs) = ground (arith, length-insert_by_order e xs)

pub length-sort_by_order : (xs : List StoredSession) → length (sort_by_order xs) ≡ length xs
unfolding sort_by_order
length-sort_by_order [] = refl
length-sort_by_order (x ∷ xs) =
    omega (arith, length-insert_by_order x (sort_by_order xs), length-sort_by_order xs)

abbrev pub info_of : StoredSession → MatchmakingInfo
info_of e = e.info

pub find-slice :
    (query : MatchmakingQuery) (offset maximum : ℕ) (s : MatchmakingStore)
    → length (matching query s.by_id) < 2 ^ 32
    → find query offset maximum s ≡ (
      map info_of (take maximum (drop offset (sort_by_order (matching query s.by_id)))),
      length (matching query s.by_id),
    )
unfolding find
find-slice query offset maximum s small =
    let sessions = sort_by_order (matching query s.by_id) in
    let same : length sessions % 2 ^ 32 ≡ length (matching query s.by_id) =
      omega (arith, length-sort_by_order (matching query s.by_id)) in
    let whole : length sessions % 2 ^ 32 ≡ length sessions =
      omega (arith, length-sort_by_order (matching query s.by_id)) in
    λ i. (
      map info_of
          ((ap (λ n. page n offset maximum sessions) whole ∙ page_lem offset maximum sessions) i),
      same i,
    )

-- The session carries the identifier that the creation of its order number gave out.
abbrev pub BornIn : List MatchmakingSessionId → StoredSession → Type 0
BornIn b e = birth e.order b ≡ some e.info.session_id

-- A search over fewer than 2 ^ 32 matches gives the same when it is made in two pages, the second
-- from where the first ends: no session is skipped and none comes twice.
pub find_pages :
    (query : MatchmakingQuery) (offset first second : ℕ) (s : MatchmakingStore)
    → length (matching query s.by_id) < 2 ^ 32
    → (find query offset (first + second) s).0
      ≡ (find query offset first s).0 ++ (find query (offset + first) second s).0
find_pages query offset first second s small =
    let sorted = sort_by_order (matching query s.by_id) in
    ap (λ p. p.0) (find-slice query offset (first + second) s small)
    ∙ ap (map info_of) (take-page offset first second sorted)
    ∙ map-append info_of (take first (drop offset sorted))
        (take second (drop (offset + first) sorted))
    ∙ sym (
        ap₂ ◌++◌ (ap (λ p. p.0) (find-slice query offset first s small))
          (ap (λ p. p.0) (find-slice query (offset + first) second s small)))
