-- ===== src/Auth/LobbySession/Invariant.antt =====
-- lobby_session.go: the store's invariant, and that the steps which all methods are made of keep it.
use codboz_nx_online.Base.{
  ℕ, ◌≤◌, ◌<◌, ◌≡◌, ◌≢◌, refl, sym, subst, List, length, none, some, ok, ℕ_discrete, arith,
}
use codboz_nx_online.Go.Counter.{count}
use codboz_nx_online.Go.Map.{
  lookup, Unique, lookup-insert, lookup-delete, insert-Unique, delete-Unique, length-insert_fresh,
  length-delete-le,
}
use codboz_nx_online.Go.Tally.{
  Counted, tally, tally-insert_fresh, tally-delete, insert-Counted, delete-Counted,
}
use codboz_nx_online.Auth.LobbySession.{
  SessionStore, PendingSession, LobbySession, find_seed, empty_store, new_session_store,
  delete_locked, store_pending, bump_token, boz_title_id,
}

abbrev pub account_of : PendingSession → ℕ
account_of p = p.session.user_id

pub record IsEntry (seed : ℕ) (p : PendingSession) : Type 0 where
  pub seeded : p.session.ticket_seed ≡ seed
  pub has_user : p.session.user_id ≢ 0
  pub titled : p.session.title_id ≡ boz_title_id
  pub has_token : p.token ≢ 0

pub record Inv (s : SessionStore) : Type 0 where
  pub unique : Unique ℕ_discrete s.by_seed
  pub counted : Counted ℕ_discrete account_of s.by_seed s.sessions_by_account
  pub bounded : length s.by_seed ≤ s.max_sessions
  pub account_bounded :
      (u : ℕ) → tally ℕ_discrete account_of u s.by_seed ≤ s.max_sessions_per_account
  pub entries : (seed : ℕ) (p : PendingSession) → find_seed seed s.by_seed ≡ some p → IsEntry seed p

empty-Inv : (m p : ℕ) → Inv (empty_store m p)
unfolding lookup tally count
empty-Inv m p = record {
  unique = tt;
  counted = λ o. refl;
  bounded = omega arith;
  account_bounded = λ o. omega arith;
  entries = λ seed e h. cc;
}

new_store_inv :
    (m p : ℕ) (s : SessionStore)
    → new_session_store m p ≡ ok s
    → s ≡ empty_store s.max_sessions s.max_sessions_per_account
unfolding new_session_store
new_store_inv m p s h = ground arith

pub new-Inv : (m p : ℕ) (s : SessionStore) → new_session_store m p ≡ ok s → Inv s
new-Inv m p s h =
    subst Inv (sym (new_store_inv m p s h)) (empty-Inv s.max_sessions s.max_sessions_per_account)

module _ (s : SessionStore) (v : Inv s) where
  pub store_pending-Inv :
      (session : LobbySession) (peer : List ℕ)
      → session.user_id ≢ 0
      → session.title_id ≡ boz_title_id
      → find_seed session.ticket_seed s.by_seed ≡ none
      → length s.by_seed < s.max_sessions
      → count ℕ_discrete session.user_id s.sessions_by_account < s.max_sessions_per_account
      → Inv (store_pending session peer s)
  unfolding store_pending
  store_pending-Inv session peer has titled fresh room account_room =
      let pending : PendingSession = record {
        session = session;
        peer = peer;
        token = bump_token s.next_token;
      } in
      record {
        unique = insert-Unique ℕ_discrete session.ticket_seed pending s.by_seed v.unique;
        counted =
            insert-Counted ℕ_discrete ℕ_discrete account_of s.by_seed s.sessions_by_account
              v.counted session.ticket_seed pending fresh;
        bounded =
            omega
              (arith, length-insert_fresh ℕ_discrete session.ticket_seed pending s.by_seed fresh);
        account_bounded = λ o. ground (
          arith,
          v.counted o,
          v.account_bounded o,
          tally-insert_fresh ℕ_discrete ℕ_discrete account_of o session.ticket_seed pending
              s.by_seed fresh,
        );
        entries = λ j e h. ground (
          arith,
          lookup-insert ℕ_discrete session.ticket_seed j pending s.by_seed,
          v.entries j e,
        );
      }

  pub delete_locked-Inv :
      (seed : ℕ) (p : PendingSession)
      → find_seed seed s.by_seed ≡ some p
      → Inv (delete_locked seed p s)
  unfolding delete_locked
  delete_locked-Inv seed p found = record {
    unique = delete-Unique ℕ_discrete seed s.by_seed v.unique;
    counted =
        delete-Counted ℕ_discrete ℕ_discrete account_of s.by_seed s.sessions_by_account v.counted
          seed p v.unique found;
    bounded = omega (arith, length-delete-le ℕ_discrete seed s.by_seed, v.bounded);
    account_bounded = λ o. omega (
      arith,
      v.account_bounded o,
      tally-delete ℕ_discrete ℕ_discrete account_of o seed p s.by_seed v.unique found,
    );
    entries = λ j x h. ground (arith, lookup-delete ℕ_discrete seed j s.by_seed, v.entries j x);
  }
