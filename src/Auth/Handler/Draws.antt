-- ===== src/Auth/Handler/Draws.antt =====
-- handler.go: the session key and the ticket's seed are bytes of the random source.
use codboz_nx_online.Base.{
  ℕ, zero, suc, ◌+◌, ◌*◌, ◌<◌, ◌≡◌, ◌⊎◌, sym, ap, ◌∙◌, List, inl, inr, length, take, drop,
  length-take, drop-drop, Result, ok, err, arith,
}
use codboz_nx_online.Go.Binary.{le_value}
use codboz_nx_online.Go.Net.{NetText}
use codboz_nx_online.Go.Reading.{◌>>=◌, continue-ok}
use codboz_nx_online.Go.Stream.{read_full}
use codboz_nx_online.Auth.LobbySession.{
  SessionError, session_limit, account_limit, seed_collision, invalid_session, bad_config,
  LobbySession, reserve,
}
use codboz_nx_online.Auth.Handler.{
  World, Step, Connection, read_random, after_attempt, reserve_session, reserve_seed,
}

-- The bytes are the first `n` that the random source delivers.
abbrev pub IsRead : ℕ → List ℕ → List ℕ → Type 0
IsRead n random bytes = (length bytes ≡ n) × (bytes ≡ take n random)

-- The number is made of four bytes, behind `k` other groups of four.
abbrev pub IsDraw : ℕ → List ℕ → ℕ → Type 0
IsDraw k random seed = seed ≡ le_value (take 4 (drop (4 * k) random))

module _ {W : Type 0} (c : Connection W) (text : NetText) where
  pub read_random-IsRead :
      (n : ℕ) (bytes : List ℕ) (s s' : World W)
      → read_random n s ≡ (ok bytes, s')
      → IsRead n s.random.pending bytes
  unfolding read_random read_full
  read_random-IsRead n bytes s s' h = (
    ground (arith, ap (λ out. out.0) h, length-take n s.random.pending),
    ground (arith, ap (λ out. out.0) h),
  )

  pub read_random-rest :
      (n : ℕ) (bytes : List ℕ) (s s' : World W)
      → read_random n s ≡ (ok bytes, s')
      → s'.random.pending ≡ drop n s.random.pending
  unfolding read_random read_full
  read_random-rest n bytes s s' h = ground (arith, ap (λ out. out.0) h, ap (λ out. out.1) h)

  attempt_cases :
      (drawn seed token : ℕ) (next : Step W (ℕ × ℕ)) (out : Result SessionError ℕ) (s s' : World W)
      → after_attempt drawn next out s ≡ (ok (seed, token), s')
      → (drawn ≡ seed) ⊎ (next s ≡ (ok (seed, token), s'))
  attempt_cases drawn seed token next (ok t) s s' h = inl (ground arith)
  attempt_cases drawn seed token next (err seed_collision) s s' h = inr h
  attempt_cases drawn seed token next (err session_limit) s s' h = absurd (ground arith)
  attempt_cases drawn seed token next (err account_limit) s s' h = absurd (ground arith)
  attempt_cases drawn seed token next (err invalid_session) s s' h = absurd (ground arith)
  attempt_cases drawn seed token next (err bad_config) s s' h = absurd (ground arith)

  pub reserve_seed-IsDraw :
      (session : ℕ → LobbySession) (now rounds seed token : ℕ) (s s' : World W)
      → reserve_seed text c session now rounds s ≡ (ok (seed, token), s')
      → (k : ℕ) × (k < rounds) × IsDraw k s.random.pending seed
  unfolding reserve_seed reserve_session
  reserve_seed-IsDraw session now zero seed token s s' h = absurd (ground arith)
  reserve_seed-IsDraw session now (suc rounds) seed token s s' h =
      let next = reserve_seed text c session now rounds in
      let (encoded, s1, e, h1) =
        continue-ok
          (λ encoded.
            reserve_session text c (session (le_value encoded)) now
            >>= after_attempt (le_value encoded) next)
          (read_random 4 s) (seed, token) s' h in
      let (four, first) = read_random-IsRead 4 encoded s s1 e in
      let out = reserve text (session (le_value encoded)) c.peer now s1.sessions in
      let t : World W = record s1 { sessions = out.1 } in
      elim (attempt_cases (le_value encoded) seed token next out.0 t s' h1) [
        | inl same ↦ (0, omega arith, sym same ∙ ap le_value first)
        | inr later ↦
            let (k, few, drawn) = reserve_seed-IsDraw session now rounds seed token t s' later in
            (
              k + 1,
              omega arith,
              drawn
                  ∙ ap (λ l. le_value (take 4 (drop (4 * k) l))) (read_random-rest 4 encoded s s1 e)
                  ∙ ap (λ l. le_value (take 4 l)) (drop-drop 4 (4 * k) s.random.pending)
                  ∙ ap (λ n. le_value (take 4 (drop n s.random.pending))) (ground (arith)),
            )
      ]
