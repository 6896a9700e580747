-- ===== src/Lobby/Envelope/Seal.antt =====
-- envelope.go: a request that a client seals is opened, and nothing is opened that does not carry
-- the HMAC of its payload.
use codboz_nx_online.Base.{
  ℕ, ◌+◌, ◌%◌, ◌≤◌, ◌<◌, ◌^◌, ◌≡◌, refl, ap, ◌∙◌, List, [], ◌∷◌, ◌++◌, if_pos, length, take, drop,
  get_or, ok, Result-cases, inl, inr, arith, length-append,
}
use codboz_nx_online.Go.Binary.{le_bytes, le_value, le_value-le_bytes}
use codboz_nx_online.Bitdemon.Crypto.{
  Primitives, derive_iv, decrypt_3des_cbc, check_triple_des, truncated_hmac_sha1,
}
use codboz_nx_online.Bitdemon.Crypto.Laws.{IsCbc}
use codboz_nx_online.Lobby.Envelope.{EncryptedRequest, open_plaintext, decrypt_request_body}

module _ (p : Primitives) where
  -- What a client encrypts: the truncated HMAC of the payload, the service and the payload.
  abbrev pub sealed_plaintext : List ℕ → ℕ → List ℕ → List ℕ
  sealed_plaintext key service payload = truncated_hmac_sha1 p key payload ++ service ∷ payload

  abbrev pub sealed_body : List ℕ → ℕ → ℕ → List ℕ → List ℕ
  sealed_body key seed service payload =
      1
      ∷ (le_bytes 4 seed
          ++ p.cbc_encrypt key (derive_iv seed) (sealed_plaintext key service payload))

  open_four :
      (key : List ℕ) (seed service : ℕ) (payload h : List ℕ)
      → length h ≡ 4
      → h ≡ truncated_hmac_sha1 p key payload
      → open_plaintext p key seed (h ++ service ∷ payload)
        ≡ ok (record { seed = seed; service = service; payload = payload })
  unfolding open_plaintext
  open_four key seed service payload (a ∷ b ∷ c ∷ d ∷ []) four e = rw (if_pos _ e) (ground arith)
  open_four key seed service payload [] four e = absurd (omega arith)
  open_four key seed service payload (a ∷ []) four e = absurd (omega arith)
  open_four key seed service payload (a ∷ b ∷ []) four e = absurd (omega arith)
  open_four key seed service payload (a ∷ b ∷ c ∷ []) four e = absurd (omega arith)
  open_four key seed service payload (a ∷ b ∷ c ∷ d ∷ x ∷ xs) four e = absurd (omega arith)

  -- Behind the guards, what was decrypted is opened.
  decrypt_request_body-opens :
      (body key plaintext : List ℕ)
      → 13 ≤ length body
      → get_or body 0 0 ≡ 1
      → length (drop 5 body) % 8 ≡ 0
      → decrypt_3des_cbc p key (derive_iv (le_value (take 4 (drop 1 body)))) (drop 5 body)
        ≡ ok plaintext
      → decrypt_request_body p body key
        ≡ open_plaintext p key (le_value (take 4 (drop 1 body))) plaintext
  unfolding decrypt_request_body
  decrypt_request_body-opens body key plaintext long first whole decrypted = ground arith

  decrypt_3des_cbc-sealed :
      (key iv plaintext : List ℕ)
      → IsCbc p
      → length key ≡ 24
      → length plaintext % 8 ≡ 0
      → decrypt_3des_cbc p key iv (p.cbc_encrypt key iv plaintext) ≡ ok plaintext
  unfolding decrypt_3des_cbc check_triple_des
  decrypt_3des_cbc-sealed key iv plaintext cbc size whole =
      ground (arith, cbc.encrypt_length key iv plaintext, cbc.decrypt_encrypt key iv plaintext)

  -- A client that pads nothing seals a payload so that the HMAC, the service and the payload make
  -- whole blocks. With a session key of 24 bytes, a primitive CBC mode that decrypts what it
  -- encrypts and an HMAC of 4 bytes at least, the server opens the sealed body to the seed, the
  -- service and the payload that went in.
  pub decrypt_request_body-sealed_body :
      (key : List ℕ) (seed service : ℕ) (payload : List ℕ)
      → IsCbc p
      → length key ≡ 24
      → seed < 2 ^ 32
      → length (truncated_hmac_sha1 p key payload) ≡ 4
      → (length payload + 5) % 8 ≡ 0
      → decrypt_request_body p (sealed_body key seed service payload) key
        ≡ ok (record { seed = seed; service = service; payload = payload })
  unfolding le_bytes
  decrypt_request_body-sealed_body key seed service payload cbc size small four whole =
      let plaintext = sealed_plaintext key service payload in
      let body = sealed_body key seed service payload in
      let iv = derive_iv seed in
      let value : le_value (take 4 (drop 1 body)) ≡ seed = le_value-le_bytes 4 seed small in
      let total : length plaintext ≡ length payload + 5 =
        omega
          (arith, length-append (truncated_hmac_sha1 p key payload) (service ∷ payload), four) in
      let kept = cbc.encrypt_length key iv plaintext in
      let decrypted : decrypt_3des_cbc p key (derive_iv (le_value (take 4 (drop 1 body))))
            (drop 5 body)
          ≡ ok plaintext =
        rw value
          (decrypt_3des_cbc-sealed key iv plaintext cbc size (omega (arith, total, whole))) in
      decrypt_request_body-opens body key plaintext (omega (arith, kept, total, whole)) refl
        (omega (arith, kept, total, whole)) decrypted
      ∙ ap (λ s. open_plaintext p key s plaintext) value
      ∙ open_four key seed service payload (truncated_hmac_sha1 p key payload) four refl

  open_plaintext_sound :
      (key plaintext : List ℕ) (seed : ℕ) (r : EncryptedRequest)
      → open_plaintext p key seed plaintext ≡ ok r
      → (take 4 plaintext ≡ truncated_hmac_sha1 p key r.payload)
        × (get_or plaintext 4 0 ≡ r.service)
        × (drop 5 plaintext ≡ r.payload)
        × (r.seed ≡ seed)
  unfolding open_plaintext
  open_plaintext_sound key plaintext seed r h = ground arith

  decrypt_request_body-opened :
      (body key plaintext : List ℕ) (r : EncryptedRequest)
      → decrypt_3des_cbc p key (derive_iv (le_value (take 4 (drop 1 body)))) (drop 5 body)
        ≡ ok plaintext
      → decrypt_request_body p body key ≡ ok r
      → open_plaintext p key (le_value (take 4 (drop 1 body))) plaintext ≡ ok r
  unfolding decrypt_request_body
  decrypt_request_body-opened body key plaintext r decrypted h = ground arith

  -- Whatever a body holds: if it is accepted, the decrypted bytes behind its header are the HMAC of
  -- the payload under the session key, the service and the payload.
  pub decrypt_request_body_sound :
      (body key : List ℕ) (r : EncryptedRequest)
      → decrypt_request_body p body key ≡ ok r
      → (plaintext : List ℕ) × (decrypt_3des_cbc p key (derive_iv r.seed) (drop 5 body)
          ≡ ok plaintext)
        × (take 4 plaintext ≡ truncated_hmac_sha1 p key r.payload)
        × (get_or plaintext 4 0 ≡ r.service)
        × (drop 5 plaintext ≡ r.payload)
        × (r.seed ≡ le_value (take 4 (drop 1 body)))
  unfolding decrypt_request_body
  decrypt_request_body_sound body key r h =
      let seed = le_value (take 4 (drop 1 body)) in
      elim (Result-cases (decrypt_3des_cbc p key (derive_iv seed) (drop 5 body))) [
        | inl (plaintext, e) ↦
            let s =
              open_plaintext_sound key plaintext seed r
                (decrypt_request_body-opened body key plaintext r e h) in
            (
              plaintext,
              ap (λ n. decrypt_3des_cbc p key (derive_iv n) (drop 5 body)) s.3 ∙ e,
              s.0,
              s.1,
              s.2,
              s.3,
            )
        | inr (problem, e) ↦ absurd (ground arith)
      ]
