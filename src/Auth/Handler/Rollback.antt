-- ===== src/Auth/Handler/Rollback.antt =====
-- handler.go: an AccountForMMP request that fails leaves no reservation behind.
use codboz_nx_online.Base.{
  ℕ, zero, suc, ◌+◌, ◌≡◌, refl, ap, ◌∙◌, sym, subst, List, Option, none, some, Result, ok, err,
  map_err,
}
use codboz_nx_online.Go.Binary.{le_value}
use codboz_nx_online.Go.Net.{NetText}
use codboz_nx_online.Go.Reading.{◌>>=◌, continue_cases}
use codboz_nx_online.Go.Stream.{IoError}
use codboz_nx_online.Bitdemon.Crypto.{Primitives}
use codboz_nx_online.Auth.AccountForMmp.{
  AccountForMmpRequest, parse_account_for_mmp_body, marshal_account_for_mmp_success_body,
}
use codboz_nx_online.Auth.LobbySession.{
  SessionStore, SessionError, session_limit, account_limit, seed_collision, invalid_session,
  bad_config, reserve, revoke, lobby_peer_identity,
}
use codboz_nx_online.Auth.LobbySession.Calls.{reserve-Inv}
use codboz_nx_online.Auth.LobbySession.Invariant.{Inv}
use codboz_nx_online.Auth.Store.{Account}
use codboz_nx_online.Auth.Handler.{
  World, Step, Connection, HandlerError, bad_message, lift, write_frame, read_random, new_session,
  after_deadline, after_attempt, reserve_session, reserve_seed, revoke_session, or_revoke,
  send_ticket, answer_account_for_mmp, look_up_hash, handle_account_for_mmp,
}
use codboz_nx_online.Auth.Handler.Reservations.{Kept, Reserved, reserve-Reserved}

Kept-same : (s s' : SessionStore) → s' ≡ s → Kept s s'
Kept-same s s' e = subst (Kept s) (sym e) (λ j p h. h)

module _ {W : Type 0} where
  -- A reservation that was made is the last one, and a failure leaves none.
  abbrev pub Attempted : SessionStore → Result HandlerError (ℕ × ℕ) × World W → Type 0
  Attempted s0 (ok (seed, token), s) = Kept s0 (revoke seed token s.sessions)
  Attempted s0 (err e, s) = Kept s0 s.sessions

  abbrev pub Rolled : SessionStore → Result HandlerError (Unit {0}) × World W → Type 0
  Rolled s0 (ok a, s) = Unit {0}
  Rolled s0 (err e, s) = Kept s0 s.sessions

  pub read_random-sessions : (n : ℕ) (s : World W) → (read_random n s).1.sessions ≡ s.sessions
  unfolding read_random
  read_random-sessions n s = refl

  after_deadline-sessions :
      (c : Connection W) (body : List ℕ) (e : Option IoError) (s : World W)
      → (after_deadline c body e s).1.sessions ≡ s.sessions
  after_deadline-sessions c body none s = refl
  after_deadline-sessions c body (some e) s = refl

  pub write_frame-sessions :
      (c : Connection W) (body : List ℕ) (s : World W)
      → (write_frame c body s).1.sessions ≡ s.sessions
  unfolding write_frame
  write_frame-sessions c body s =
      let (e, w) = c.set_write_deadline s.outgoing in
      after_deadline-sessions c body e (record s { outgoing = w })

  after_attempt-Attempted :
      (s0 : SessionStore) (seed : ℕ) (next : Step W (ℕ × ℕ)) (s : World W)
      (out : Result SessionError ℕ × SessionStore)
      → Reserved s0 seed out
      → (Kept s0 out.1 → Attempted s0 (next (record s { sessions = out.1 })))
      → Attempted s0 (after_attempt seed next out.0 (record s { sessions = out.1 }))
  after_attempt-Attempted s0 seed next s (ok token, s') reserved more = reserved
  after_attempt-Attempted s0 seed next s (err seed_collision, s') reserved more = more reserved
  after_attempt-Attempted s0 seed next s (err session_limit, s') reserved more = reserved
  after_attempt-Attempted s0 seed next s (err account_limit, s') reserved more = reserved
  after_attempt-Attempted s0 seed next s (err invalid_session, s') reserved more = reserved
  after_attempt-Attempted s0 seed next s (err bad_config, s') reserved more = reserved

  Attempted-trans :
      (s0 s1 : SessionStore) (out : Result HandlerError (ℕ × ℕ) × World W)
      → Kept s0 s1
      → Attempted s1 out
      → Attempted s0 out
  Attempted-trans s0 s1 (ok (seed, token), s) first later = λ j p h. first j p (later j p h)
  Attempted-trans s0 s1 (err e, s) first later = λ j p h. first j p (later j p h)

  module _ (p : Primitives) (text : NetText) (c : Connection W) where
    reserve_seed-Attempted :
        (account : Account) (key : List ℕ) (expires now rounds : ℕ) (s : World W)
        → Inv s.sessions
        → Attempted s.sessions (reserve_seed text c (new_session account key expires) now rounds s)
    unfolding reserve_seed
    reserve_seed-Attempted account key expires now zero s v = λ j p h. h
    reserve_seed-Attempted account key expires now (suc rounds) s v =
        let session = new_session account key expires in
        let next = reserve_seed text c session now rounds in
        continue_cases (Attempted s.sessions)
          (λ encoded.
            reserve_session text c (session (le_value encoded)) now
            >>= after_attempt (le_value encoded) next)
          (read_random 4 s)
          (λ e s1 h.
            Kept-same s.sessions s1.sessions
              (ap (λ out. out.1.sessions) (sym h) ∙ read_random-sessions 4 s))
          (λ encoded s1 h.
            let same : s1.sessions ≡ s.sessions =
              ap (λ out. out.1.sessions) (sym h) ∙ read_random-sessions 4 s in
            let v1 : Inv s1.sessions = subst Inv (sym same) v in
            let tried = reserve text (session (le_value encoded)) c.peer now s1.sessions in
            subst
              (λ x. Attempted x (
                (reserve_session text c (session (le_value encoded)) now
                    >>= after_attempt (le_value encoded) next)
                  s1))
              same
              (unfold reserve_session in
                after_attempt-Attempted s1.sessions (le_value encoded) next s1 tried
                  (reserve-Reserved text (session (le_value encoded)) c.peer now s1.sessions v1)
                  (λ kept. Attempted-trans s1.sessions tried.1 _ kept (
                    reserve_seed-Attempted account key expires now rounds
                      (record s1 { sessions = tried.1 })
                      (unfold reserve in
                        reserve-Inv text s1.sessions (session (le_value encoded))
                          (lobby_peer_identity text c.peer) now v1)))))

    or_revoke-Rolled :
        (s0 : SessionStore) (seed token : ℕ) (out : Result HandlerError (Unit {0}) × World W)
        → Kept s0 (revoke seed token out.1.sessions)
        → Rolled s0 (or_revoke seed token out)
    unfolding revoke_session
    or_revoke-Rolled s0 seed token (ok a, s) kept = tt
    or_revoke-Rolled s0 seed token (err e, s) kept = kept

    Rolled-Kept :
        (s0 : SessionStore) (out : Result HandlerError (Unit {0}) × World W)
        → Kept s0 out.1.sessions
        → Rolled s0 out
    Rolled-Kept s0 (ok a, s) kept = tt
    Rolled-Kept s0 (err e, s) kept = kept

    ticket_written-sessions :
        (reply : Result HandlerError (List ℕ)) (s : World W)
        → ((lift reply >>= λ body. write_frame c body) s).1.sessions ≡ s.sessions
    ticket_written-sessions (ok body) s = write_frame-sessions c body s
    ticket_written-sessions (err e) s = refl

    send_ticket-Rolled :
        (s0 : SessionStore) (account : Account) (key : List ℕ) (issued expires seed token : ℕ)
        (s : World W)
        → Kept s0 (revoke seed token s.sessions)
        → Rolled s0 (send_ticket p c account key issued expires (seed, token) s)
    unfolding send_ticket
    send_ticket-Rolled s0 account key issued expires seed token s kept =
        let reply = marshal_account_for_mmp_success_body p account seed key issued expires in
        or_revoke-Rolled s0 seed token
          ((lift (map_err bad_message reply) >>= λ body. write_frame c body) s)
          (subst (λ x. Kept s0 (revoke seed token x))
            (sym (ticket_written-sessions (map_err bad_message reply) s)) kept)

    answer-Rolled :
        (life now : ℕ) (found : Option Account) (s : World W)
        → Inv s.sessions
        → Rolled s.sessions (answer_account_for_mmp p text c life now found s)
    unfolding answer_account_for_mmp
    answer-Rolled life now none s v =
        Rolled-Kept s.sessions _ (Kept-same s.sessions _ (write_frame-sessions c _ s))
    answer-Rolled life now (some account) s v =
        continue_cases (Rolled s.sessions)
          (λ key.
            reserve_seed text c (new_session account key (now + life)) now 16
            >>= send_ticket p c account key now (now + life))
          (read_random 24 s)
          (λ e s1 h.
            Kept-same s.sessions s1.sessions
              (ap (λ out. out.1.sessions) (sym h) ∙ read_random-sessions 24 s))
          (λ key s1 h.
            let same : s1.sessions ≡ s.sessions =
              ap (λ out. out.1.sessions) (sym h) ∙ read_random-sessions 24 s in
            let attempts = reserve_seed text c (new_session account key (now + life)) now 16 s1 in
            let tried : Attempted s.sessions attempts =
              subst (λ x. Attempted x attempts) same
                (reserve_seed-Attempted account key (now + life) now 16 s1
                  (subst Inv (sym same) v)) in
            continue_cases (Rolled s.sessions) (send_ticket p c account key now (now + life))
              attempts (λ e s2 h2. subst (Attempted s.sessions) h2 tried)
              (λ reserved s2 h2.
                send_ticket-Rolled s.sessions account key now (now + life) reserved.0 reserved.1 s2
                  (subst (Attempted s.sessions) h2 tried)))

    request-Rolled :
        (life now : ℕ) (request : Result HandlerError AccountForMmpRequest) (s : World W)
        → Inv s.sessions
        → Rolled s.sessions (
            (lift request >>= λ r.
            look_up_hash r.account_hash >>= answer_account_for_mmp p text c life now)
              s)
    unfolding look_up_hash
    request-Rolled life now (err e) s v = λ j q h. h
    request-Rolled life now (ok r) s v = answer-Rolled life now _ s v

    -- An AccountForMMP request that fails, for whatever reason, and a store in order: every session
    -- that is pending afterwards was pending before. No ticket stays reserved when its reply is not
    -- made or not sent.
    pub handle_account_for_mmp_rolls_back :
        (life now : ℕ) (body : List ℕ) (s s' : World W) (e : HandlerError)
        → Inv s.sessions
        → handle_account_for_mmp p text c life now body s ≡ (err e, s')
        → Kept s.sessions s'.sessions
    unfolding handle_account_for_mmp
    handle_account_for_mmp_rolls_back life now body s s' e v h =
        subst (Rolled s.sessions) h
          (request-Rolled life now (map_err bad_message (parse_account_for_mmp_body body)) s v)
