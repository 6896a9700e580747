-- ===== src/Auth/Handler/Tickets.antt =====
-- handler.go: what an AccountForMMP request that succeeds has sent and reserved.
use codboz_nx_online.Base.{
  ℕ, ◌≡◌, refl, ap, ◌∙◌, sym, subst, List, ◌++◌, inl, inr, Option, none, some, ok, arith,
}
use codboz_nx_online.Go.Net.{NetText}
use codboz_nx_online.Go.Stream.{IoError}
use codboz_nx_online.Bitdemon.Crypto.{Primitives}
use codboz_nx_online.Bitdemon.Frame.{marshal_frame}
use codboz_nx_online.Bitdemon.Frame.Write.{
  IoWriter, WriteResult, done, stuck, refused, failed, Delivers, write_frame-marshal_frame,
}
use codboz_nx_online.Bitdemon.Frame.Write
use codboz_nx_online.Auth.AccountForMmp.{build_encrypted_auth_ticket, ticket_reply_body}
use codboz_nx_online.Auth.LobbySession.{SessionStore, LobbySession, reserve}
use codboz_nx_online.Auth.Store.{Account}
use codboz_nx_online.Auth.Handler.{World, Connection, write_outcome, after_deadline, write_frame}

module _ {W : Type 0} (c : Connection W) where
  -- The frame that was sent.
  abbrev pub Sent : List ℕ → W → W → Type 0
  Sent body w w' = (f : List ℕ) × (marshal_frame body ≡ ok f) × (c.io.sent w' ≡ c.io.sent w ++ f)

  written-Sent :
      (body : List ℕ) (w w' : W) → Write.write_frame c.io body w ≡ (done, w') → Sent body w w'
  written-Sent body w w' h = elim (write_frame-marshal_frame c.io body w) [
    | inl (f, e, delivers) ↦ (f, e, subst (Delivers c.io f w) h delivers)
    | inr (e, marshalled, refusal) ↦ absurd (ground arith)
  ]

  outcome-done : (out : WriteResult) → write_outcome out ≡ ok tt → out ≡ done
  outcome-done done h = refl
  outcome-done stuck h = absurd (ground arith)
  outcome-done (refused e) h = absurd (ground arith)
  outcome-done (failed e) h = absurd (ground arith)

  after_deadline-Sent :
      (body : List ℕ) (e : Option IoError) (s s' : World W)
      → after_deadline c body e s ≡ (ok tt, s')
      → Sent body s.outgoing s'.outgoing × (s'.sessions ≡ s.sessions)
  after_deadline-Sent body (some e) s s' h = absurd (ground arith)
  after_deadline-Sent body none s s' h =
      let written = Write.write_frame c.io body s.outgoing in
      let w_same : written.1 ≡ s'.outgoing = ap (λ out. out.1.outgoing) h in
      let ended : written.0 ≡ done = outcome-done written.0 (ap (λ out. out.0) h) in
      (
        written-Sent body s.outgoing s'.outgoing (ground (arith, ended, w_same)),
        sym (ap (λ out. out.1.sessions) h),
      )

  pub write_frame-Sent :
      (body : List ℕ) (s s' : World W)
      → write_frame c body s ≡ (ok tt, s')
      → Sent body s.outgoing s'.outgoing × (s'.sessions ≡ s.sessions)
  unfolding write_frame
  write_frame-Sent body s s' h =
      let (e, w) = c.set_write_deadline s.outgoing in
      let ((f, marshalled, sent), same) =
        after_deadline-Sent body e (record s { outgoing = w }) s' h in
      ((f, marshalled, sent ∙ ap (λ l. l ++ f) (c.deadline_silent s.outgoing)), same)

  module _ (p : Primitives) (text : NetText) where
    -- The token came from a Reserve that made the store as it is.
    abbrev Drawn : (ℕ → LobbySession) → ℕ → ℕ → ℕ → World W → World W → Type 0
    Drawn session now seed token s s' =
        (before : SessionStore) × (reserve text (session seed) c.peer now before
          ≡ (ok token, s'.sessions))
        × (s'.outgoing ≡ s.outgoing)

    -- The ticket that went out is sealed for the account, with its key and its seed.
    abbrev pub Told : Account → List ℕ → ℕ → ℕ → ℕ → World W → World W → Type 0
    Told account key issued expires seed s s' =
        (ticket : List ℕ) × (build_encrypted_auth_ticket p account seed key issued expires
          ≡ ok ticket)
        × Sent (ticket_reply_body seed ticket) s.outgoing s'.outgoing
