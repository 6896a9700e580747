-- ===== src/Lobby/Envelope.antt =====
-- internal/online/lobby/envelope.go, and the helper allZero of lsg.go.
pub mod Seal
use Prim.Native.Nat.{bit_or}
use mathlib.Core.List.{foldl}
use codboz_nx_online.Base.{
  ℕ, ◌+◌, ◌%◌, Bool, true, false, not, ◌&&◌, ◌||◌, List, [], ◌∷◌, ◌++◌, ite, ltb, ◌==◌,
  if◌then◌else◌, length, take, drop, get_or, every, Result, ok, err, map_err, bind,
}
use codboz_nx_online.Go.Binary.{le_value}
use codboz_nx_online.Go.Discrete.{bytes_discrete}
use codboz_nx_online.Bitdemon.Crypto.{
  Primitives, derive_iv, decrypt_3des_cbc, truncated_hmac_sha1, triple_des_block_size,
  truncated_hmac_size,
}

abbrev pub encrypted_envelope_header_size : ℕ
encrypted_envelope_header_size = 5

abbrev pub reserved_clear_task_reply_body_size : ℕ
reserved_clear_task_reply_body_size = 200

pub data EnvelopeError : Type 0 where
  malformed_envelope invalid_hmac : EnvelopeError

pub record EncryptedRequest : Type 0 where
  pub seed : ℕ
  pub service : ℕ
  pub payload : List ℕ

-- `combined |= current` over the bytes.
unfoldable pub all_zero : List ℕ → Bool
all_zero value = foldl bit_or 0 value == 0

-- A body of the reserved size gets one more byte.
unfoldable pub marshal_clear_task_reply_body : List ℕ → List ℕ
marshal_clear_task_reply_body logical_reply =
    let body = 0 ∷ logical_reply in
    if length body == reserved_clear_task_reply_body_size then body ++ 0 ∷ [] else body

-- decryptRequestBody behind the decryption.
unfoldable pub open_plaintext :
    Primitives → List ℕ → ℕ → List ℕ → Result EnvelopeError EncryptedRequest
open_plaintext p key seed plaintext =
    let payload = drop (truncated_hmac_size + 1) plaintext in
    if ltb (length plaintext) (truncated_hmac_size + 1)
    then err malformed_envelope
    else ite
        (bytes_discrete (take truncated_hmac_size plaintext) (truncated_hmac_sha1 p key payload))
        (ok (record {
          seed = seed;
          service = get_or plaintext truncated_hmac_size 0;
          payload = payload;
        }))
        (err invalid_hmac)

unfoldable pub decrypt_request_body :
    Primitives → List ℕ → List ℕ → Result EnvelopeError EncryptedRequest
decrypt_request_body p body session_key =
    let ciphertext = drop encrypted_envelope_header_size body in
    let seed = le_value (take 4 (drop 1 body)) in
    if ltb (length body) (encrypted_envelope_header_size + triple_des_block_size)
      || not (get_or body 0 0 == 1)
    then err malformed_envelope
    else if not (length ciphertext % triple_des_block_size == 0)
    then err malformed_envelope
    else bind
        (map_err (λ e. malformed_envelope)
          (decrypt_3des_cbc p session_key (derive_iv seed) ciphertext))
        (open_plaintext p session_key seed)

abbrev pub is_filled : ℕ → List ℕ → Bool
is_filled fill [] = false
is_filled fill (first ∷ rest) = (first == 0) && every (λ b. b == fill) rest

unfoldable pub valid_client_request_padding : List ℕ → ℕ → Bool
valid_client_request_padding padding seed =
    not (ltb (length padding) 1)
    && not (ltb triple_des_block_size (length padding))
    && is_filled (seed % 256) padding
