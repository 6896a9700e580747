-- ===== src/Auth/AccountForMmp.antt =====
-- internal/online/auth/account_for_mmp.go. A time is a number of nanoseconds since 1970, never
-- before it.
pub mod Requests
pub mod Replies
use codboz_nx_online.Base.{
  ℕ, ◌+◌, ◌/◌, ◌^◌, Bool, true, false, not, ◌||◌, List, [], ◌∷◌, ◌++◌, ltb, ◌==◌, if◌then◌else◌,
  length, drop, get_or, replicate, Result, ok, err, bind, map_err,
}
use codboz_nx_online.Go.Binary.{le_bytes}
use codboz_nx_online.Go.Reading.{pure, raise, wrap, ◌>>=◌, ◌>>◌}
use codboz_nx_online.Bitdemon.ByteBuffer.{max_uint32}
use codboz_nx_online.Bitdemon.BitBuffer.{
  BitReader, Read, new_bit_reader, set_reading_mode, read_uint64, new_bit_writer, write_uint8,
  set_type_checked, write_type_checked_flag, write_uint32, write_raw,
}
use codboz_nx_online.Bitdemon.Crypto.{Primitives, derive_iv, encrypt_3des_cbc}
use codboz_nx_online.Auth.CreateAccount.{account_username_size}
use codboz_nx_online.Auth.LobbySession.{boz_title_id}
use codboz_nx_online.Auth.Messages.{
  MessageError, malformed_message, encrypted_request, unexpected_message_type, invalid_username,
  ticket_time, read_header, check_padding, padded, marshal_status_reply_body, status_no_error,
  message_account_for_mmp_request, message_account_for_mmp_reply,
}
use codboz_nx_online.Auth.Store.{Account}

abbrev pub account_for_mmp_request_body_size : ℕ
account_for_mmp_request_body_size = 20

abbrev pub auth_ticket_size : ℕ
auth_ticket_size = 128

abbrev pub auth_ticket_signature : ℕ
auth_ticket_signature = 0xefbd_adde

abbrev pub auth_ticket_type_user_to_service : ℕ
auth_ticket_type_user_to_service = 0

pub record AccountForMmpRequest : Type 0 where
  pub iv_seed : ℕ
  pub title_id : ℕ
  pub account_hash : ℕ

unfoldable pub account_for_mmp_fields : List ℕ → Read MessageError AccountForMmpRequest
unfolding check_padding
account_for_mmp_fields body = do
  seed ← read_header
  set_reading_mode false
  account_hash ← wrap (λ _. malformed_message) read_uint64
  check_padding malformed_message body
  pure (record { iv_seed = seed; title_id = boz_title_id; account_hash = account_hash })

unfoldable pub parse_account_for_mmp_body : List ℕ → Result MessageError AccountForMmpRequest
parse_account_for_mmp_body body =
    if not (length body == account_for_mmp_request_body_size)
    then err malformed_message
    else if not (get_or body 0 0 == 0)
    then err encrypted_request
    else if not (get_or body 1 0 == message_account_for_mmp_request)
    then err unexpected_message_type
    else (account_for_mmp_fields body (new_bit_reader (drop 2 body))).0

unfoldable pub marshal_account_for_mmp_error_body : ℕ → List ℕ
marshal_account_for_mmp_error_body status =
    marshal_status_reply_body message_account_for_mmp_reply status

-- `Unix()`
abbrev pub unix : ℕ → ℕ
unix time = time / 1_000_000_000

-- The array `plaintext`, by its parts in the order of their offsets.
unfoldable pub auth_ticket_plaintext : Account → List ℕ → ℕ → ℕ → List ℕ
auth_ticket_plaintext account session_key issued_at expires_at =
    le_bytes 4 auth_ticket_signature
    ++ auth_ticket_type_user_to_service
      ∷ (le_bytes 4 boz_title_id
          ++ (le_bytes 4 (unix issued_at)
              ++ (le_bytes 4 (unix expires_at)
                  ++ (le_bytes 8 0
                      ++ (le_bytes 8 account.user_id
                          ++ (padded account_username_size account.username
                              ++ (session_key ++ replicate 7 0)))))))

unfoldable pub build_encrypted_auth_ticket :
    Primitives → Account → ℕ → List ℕ → ℕ → ℕ → Result MessageError (List ℕ)
unfolding auth_ticket_plaintext
build_encrypted_auth_ticket p account ticket_seed session_key issued_at expires_at =
    if ltb max_uint32 (unix issued_at)
      || ltb max_uint32 (unix expires_at)
      || not (ltb issued_at expires_at)
    then err ticket_time
    else if ltb account_username_size (length account.username)
    then err invalid_username
    else map_err (λ _. malformed_message)
        (encrypt_3des_cbc p account.password_hash (derive_iv ticket_seed)
          (auth_ticket_plaintext account session_key issued_at expires_at))

-- The body around a ticket.
unfoldable pub ticket_reply_body : ℕ → List ℕ → List ℕ
ticket_reply_body ticket_seed ticket =
    let w0 = write_uint8 message_account_for_mmp_reply (new_bit_writer false) in
    let w1 = write_type_checked_flag (set_type_checked true w0) in
    let w2 = write_uint32 ticket_seed (write_uint32 status_no_error w1) in
    let w3 = write_raw ticket (set_type_checked false w2) in 0 ∷ w3.written

unfoldable pub marshal_account_for_mmp_success_body :
    Primitives → Account → ℕ → List ℕ → ℕ → ℕ → Result MessageError (List ℕ)
unfolding build_encrypted_auth_ticket ticket_reply_body
marshal_account_for_mmp_success_body p account ticket_seed session_key issued_at expires_at =
    bind (build_encrypted_auth_ticket p account ticket_seed session_key issued_at expires_at)
      (λ ticket. ok (ticket_reply_body ticket_seed ticket))
