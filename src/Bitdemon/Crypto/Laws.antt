-- ===== src/Bitdemon/Crypto/Laws.antt =====
-- crypto.go: padding to whole blocks, and decryption after encryption.
use codboz_nx_online.Base.{
  ℕ, ◌+◌, ◌-◌, ◌%◌, ◌≤◌, ◌<◌, ◌≡◌, List, length, take, replicate, ok, arith, length-append,
  length-replicate, take-append,
}
use codboz_nx_online.Bitdemon.Crypto.{
  Primitives, pad_to_3des_block, encrypt_3des_cbc, decrypt_3des_cbc,
}

-- What the program relies on of CBC mode: it keeps lengths, and decryption undoes encryption, on
-- whole blocks under a key of 24 bytes.
pub record IsCbc (p : Primitives) : Type 0 where
  pub encrypt_length : (key iv bytes : List ℕ) → length (p.cbc_encrypt key iv bytes) ≡ length bytes
  pub decrypt_encrypt :
      (key iv bytes : List ℕ)
      → length key ≡ 24
      → length bytes % 8 ≡ 0
      → p.cbc_decrypt key iv (p.cbc_encrypt key iv bytes) ≡ bytes

-- The padded payload begins with the payload, is a whole number of 8-byte blocks, and is longer by
-- fewer than 8 bytes; a payload of whole blocks is not padded.
pub pad_to_3des_block_lem :
    (payload : List ℕ)
    → (length (pad_to_3des_block payload) % 8 ≡ 0)
      × (length payload ≤ length (pad_to_3des_block payload))
      × (length (pad_to_3des_block payload) < length payload + 8)
      × (take (length payload) (pad_to_3des_block payload) ≡ payload)
unfolding pad_to_3des_block
pad_to_3des_block_lem payload =
    let top = length payload + 8 - 1 in
    let zeros : List ℕ = replicate (top - top % 8 - length payload) 0 in
    ground (
      arith,
      length-append payload zeros,
      length-replicate {A = ℕ} (top - top % 8 - length payload) 0,
      take-append payload zeros,
    )

-- Where encryption succeeds, decryption under the same key and vector gives the plaintext back.
pub decrypt-encrypt :
    (p : Primitives) (key iv plaintext ciphertext : List ℕ)
    → IsCbc p
    → encrypt_3des_cbc p key iv plaintext ≡ ok ciphertext
    → decrypt_3des_cbc p key iv ciphertext ≡ ok plaintext
unfolding encrypt_3des_cbc decrypt_3des_cbc
decrypt-encrypt p key iv plaintext ciphertext cbc h =
    ground (arith, cbc.encrypt_length key iv plaintext, cbc.decrypt_encrypt key iv plaintext)
