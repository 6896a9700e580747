-- ===== src/Bitdemon/Crypto.antt =====
-- internal/online/bitdemon/crypto.go. Triple DES in CBC mode and HMAC-SHA1 are the standard
-- library's, and enter as the functions of a record.
pub mod Laws
use codboz_nx_online.Base.{
  ℕ, ◌+◌, ◌-◌, ◌%◌, Bool, not, List, ◌++◌, ◌==◌, if◌then◌else◌, length, take, replicate, Result, ok,
  err,
}
use codboz_nx_online.Go.Binary.{le_bytes}
use codboz_nx_online.Bitdemon.Tiger.{tiger192}

abbrev pub session_key_size : ℕ
session_key_size = 24

abbrev pub triple_des_block_size : ℕ
triple_des_block_size = 8

abbrev pub truncated_hmac_size : ℕ
truncated_hmac_size = 4

pub data CryptoError : Type 0 where
  invalid_session_key invalid_block_length : CryptoError

-- `cipher.NewCBCEncrypter(block, iv).CryptBlocks` and its inverse under a key, and the sum of
-- `hmac.New(sha1.New, key)`.
pub record Primitives : Type 0 where
  pub cbc_encrypt : List ℕ → List ℕ → List ℕ → List ℕ
  pub cbc_decrypt : List ℕ → List ℕ → List ℕ → List ℕ
  pub hmac_sha1 : List ℕ → List ℕ → List ℕ

unfoldable pub derive_iv : ℕ → List ℕ
derive_iv counter = take triple_des_block_size (tiger192 (le_bytes 4 counter))

-- newTripleDES: `des.NewTripleDESCipher` fails on a key of another size only.
unfoldable pub check_triple_des : {A : Type 0} → List ℕ → ℕ → A → Result CryptoError A
check_triple_des key payload_length a =
    if not (length key == session_key_size)
    then err invalid_session_key
    else if not (payload_length % triple_des_block_size == 0)
    then err invalid_block_length
    else ok a

-- `(len + 7) &^ 7` clears the lowest three bits.
unfoldable pub pad_to_3des_block : List ℕ → List ℕ
pad_to_3des_block payload =
    let top = length payload + triple_des_block_size - 1 in
    let padded_length = top - top % triple_des_block_size in
    payload ++ replicate (padded_length - length payload) 0

module _ (p : Primitives) where
  unfoldable pub truncated_hmac_sha1 : List ℕ → List ℕ → List ℕ
  truncated_hmac_sha1 key payload = take truncated_hmac_size (p.hmac_sha1 key payload)

  unfoldable pub encrypt_3des_cbc : List ℕ → List ℕ → List ℕ → Result CryptoError (List ℕ)
  unfolding check_triple_des
  encrypt_3des_cbc key iv plaintext =
      check_triple_des key (length plaintext) (p.cbc_encrypt key iv plaintext)

  unfoldable pub decrypt_3des_cbc : List ℕ → List ℕ → List ℕ → Result CryptoError (List ℕ)
  unfolding check_triple_des
  decrypt_3des_cbc key iv ciphertext =
      check_triple_des key (length ciphertext) (p.cbc_decrypt key iv ciphertext)
