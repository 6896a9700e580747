-- ===== src/Lobby/Connection/CleanUp.antt =====
-- lsg.go: what the deferred function of HandleTCP leaves, and client.go: who is active.
use codboz_nx_online.Base.{
  ℕ, ◌≡◌, ◌≢◌, refl, ◌∙◌, sym, true, ◌==◌, if◌then◌else◌, Option, none, some, ℕ_discrete, arith,
  Bool-cases, Option-cases, inl, inr,
}
use codboz_nx_online.Go.Map.{lookup-insert, lookup-delete}
use codboz_nx_online.Lobby.Clients.{
  Lobby, account_hash_of, activate, close_connection, deactivate, lookup_client,
}
use codboz_nx_online.Lobby.Connection.{clean_up}
use codboz_nx_online.Lobby.Matchmaking.{MatchmakingSessionId}
use codboz_nx_online.Lobby.MatchmakingStore.{MatchmakingStore, find_id}
use codboz_nx_online.Lobby.MatchmakingStore.Invariant.{Inv}
use codboz_nx_online.Lobby.MatchmakingStore.Owners.{unless_owned, find_id-delete_owner}

-- What is left of the client that is active for an account when the client `me` is gone.
abbrev pub unless_client : ℕ → Option ℕ → Option ℕ
unless_client me none = none
unless_client me (some other) = if other == me then none else some other

-- No session has the owner 0.
unless_owned-0 :
    (id : MatchmakingSessionId) (s : MatchmakingStore)
    → Inv s
    → (owner : ℕ) → owner ≡ 0
    → unless_owned owner (find_id id s.by_id) ≡ find_id id s.by_id
unless_owned-0 id s v owner none_owns = elim (Option-cases (find_id id s.by_id)) [
  | inl miss ↦ rw miss refl
  | inr (e, found) ↦ rw found (ground (arith, (v.entries id e found).has_owner))
]

module _ {W : Type 0} where
  lookup_client-deactivate :
      (me : ℕ) (s : Lobby W) (hash : ℕ)
      → lookup_client hash (deactivate me s) ≡ (
          if hash == account_hash_of me s
          then unless_client me (lookup_client hash s)
          else lookup_client hash s)
  unfolding deactivate lookup_client
  lookup_client-deactivate me s hash =
      ground (arith, lookup-delete ℕ_discrete (account_hash_of me s) hash s.by_account)

  deactivate_others :
      (me : ℕ) (s : Lobby W) (hash other : ℕ)
      → other ≢ me
      → lookup_client hash s ≡ some other
      → lookup_client hash (deactivate me s) ≡ some other
  unfolding deactivate lookup_client
  deactivate_others me s hash other differs h =
      ground (arith, lookup-delete ℕ_discrete (account_hash_of me s) hash s.by_account)

  deactivate-matches : (me : ℕ) (s : Lobby W) → (deactivate me s).matches ≡ s.matches
  unfolding deactivate
  deactivate-matches me s = ground arith

  lookup_client-clean_up :
      (me : ℕ) (s : Lobby W) (hash : ℕ)
      → lookup_client hash (clean_up me s) ≡ lookup_client hash (deactivate me s)
  unfolding clean_up lookup_client
  lookup_client-clean_up me s hash = ground arith

  find_id-clean_up :
      (me : ℕ) (s : Lobby W) (id : MatchmakingSessionId)
      → Inv s.matches
      → find_id id (clean_up me s).matches.by_id
        ≡ unless_owned s.progress.connection_id (find_id id s.matches.by_id)
  unfolding clean_up
  find_id-clean_up me s id v =
      let same = deactivate-matches me s in
      elim (Bool-cases (s.progress.connection_id == 0)) [
        | inl unnumbered ↦
            rw (unnumbered, same)
              (sym (unless_owned-0 id s.matches v s.progress.connection_id (ground arith)))
        | inr numbered ↦
            rw (numbered, same) (find_id-delete_owner s.progress.connection_id id s.matches v)
      ]

  -- The deferred function, with a matchmaking store in order: of the sessions of matches exactly
  -- those that the connection owns are gone; for the account of its client nobody is active where
  -- this client was, and otherwise who was before; and every other account keeps its client.
  pub clean_up_lem :
      (me : ℕ) (s : Lobby W) (id : MatchmakingSessionId) (hash : ℕ)
      → Inv s.matches
      → (find_id id (clean_up me s).matches.by_id
          ≡ unless_owned s.progress.connection_id (find_id id s.matches.by_id))
        × (lookup_client hash (clean_up me s) ≡ (
            if hash == account_hash_of me s
            then unless_client me (lookup_client hash s)
            else lookup_client hash s))
  clean_up_lem me s id hash v = (
    find_id-clean_up me s id v,
    lookup_client-clean_up me s hash ∙ lookup_client-deactivate me s hash,
  )

  activate_found :
      (me : ℕ) (s : Lobby W) → lookup_client (account_hash_of me s) (activate me s) ≡ some me
  unfolding activate lookup_client close_connection
  activate_found me s =
      let hash = account_hash_of me s in
      ground (arith, lookup-insert ℕ_discrete hash hash me s.by_account)

  activate_closes :
      (me previous : ℕ) (s : Lobby W)
      → previous ≢ me
      → lookup_client (account_hash_of me s) s ≡ some previous
      → ((activate me s).clients previous).closed ≡ true
  unfolding activate lookup_client close_connection
  activate_closes me previous s differs h = ground arith

  -- A client that becomes active for an account for which another one was active: the other's
  -- connection is closed, the new one is found, and it is still found when the other one, closed
  -- by this, has deactivated itself.
  pub activate_takes_over :
      (me previous : ℕ) (s : Lobby W)
      → previous ≢ me
      → lookup_client (account_hash_of me s) s ≡ some previous
      → (((activate me s).clients previous).closed ≡ true)
        × (lookup_client (account_hash_of me s) (activate me s) ≡ some me)
        × (lookup_client (account_hash_of me s) (deactivate previous (activate me s)) ≡ some me)
  activate_takes_over me previous s differs h = (
    activate_closes me previous s differs h,
    activate_found me s,
    deactivate_others previous (activate me s) (account_hash_of me s) me (λ e. differs (sym e))
        (activate_found me s),
  )
