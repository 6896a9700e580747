-- ===== src/Auth/CreateAccount.antt =====
-- internal/online/auth/create_account.go. `utf8.Valid` is left out of parsePaddedUsername: text that
-- is not UTF-8 has a byte above 0x7e, which the loop behind it refuses with the same error.
pub mod Usernames
pub mod Requests
use codboz_nx_online.Base.{
  ℕ, ◌+◌, Bool, true, false, not, ◌&&◌, ◌||◌, List, [], ◌∷◌, ◌++◌, leb, ◌==◌, if◌then◌else◌, length,
  take, drop, get_or, every, replicate, Option, none, some, Result, ok, err, bind, map_err,
}
use codboz_nx_online.Go.Binary.{le_value}
use codboz_nx_online.Go.Bytes.{index_byte}
use codboz_nx_online.Go.Reading.{pure, raise, wrap, ◌>>=◌, ◌>>◌}
use codboz_nx_online.Bitdemon.BitBuffer.{
  BitReader, Read, new_bit_reader, set_reading_mode, read_uint64, read_raw,
}
use codboz_nx_online.Bitdemon.Crypto.{Primitives, derive_iv, decrypt_3des_cbc}
use codboz_nx_online.Auth.LobbySession.{boz_title_id}
use codboz_nx_online.Auth.Messages.{
  MessageError, malformed_message, encrypted_request, unexpected_message_type,
  unsupported_license_hash, invalid_account_block, invalid_username, bad_padding, bad_reserved,
  require, read_header, check_padding, all_zero, marshal_status_reply_body,
  message_create_account_request, message_create_account_reply,
}

abbrev pub create_account_body_size : ℕ
create_account_body_size = 116

abbrev pub create_account_block_size : ℕ
create_account_block_size = 96

abbrev pub account_username_size : ℕ
account_username_size = 64

abbrev pub account_password_size : ℕ
account_password_size = 24

abbrev pub account_block_signature : ℕ
account_block_signature = 0xefbd_adde

abbrev dead_beef : List ℕ
dead_beef = 0xde ∷ 0xad ∷ 0xbe ∷ 0xef ∷ []

abbrev pub create_account_key : List ℕ
create_account_key = dead_beef ++ (dead_beef ++ (dead_beef ++ (dead_beef ++ replicate 8 0)))

pub record CreateAccountRequest : Type 0 where
  pub iv_seed : ℕ
  pub title_id : ℕ
  pub license_hash : ℕ
  pub username : List ℕ
  pub password_hash : List ℕ

abbrev pub is_printable : ℕ → Bool
is_printable character = leb 0x20 character && leb character 0x7e

-- The name before `end`.
unfoldable pub check_username : List ℕ → Result MessageError (List ℕ)
check_username name =
    if length name == 0 || not (every is_printable name) then err invalid_username else ok name

abbrev end_username : List ℕ → Option ℕ → Result MessageError (List ℕ)
end_username field none = check_username field
end_username field (some end) =
    if not (all_zero (drop end field)) then err bad_padding else check_username (take end field)

unfoldable pub parse_padded_username : List ℕ → Result MessageError (List ℕ)
unfolding check_username
parse_padded_username field = end_username field (index_byte 0 field)

-- The seed and the encrypted block of a request.
unfoldable pub create_account_fields : List ℕ → Read MessageError (ℕ × List ℕ)
unfolding check_padding
create_account_fields body = do
  seed ← read_header
  set_reading_mode false
  license_hash ← wrap (λ _. malformed_message) read_uint64
  require (license_hash == 0) unsupported_license_hash
  block ← wrap (λ _. malformed_message) (read_raw create_account_block_size)
  check_padding malformed_message body
  pure (seed, block)

abbrev new_request : ℕ → List ℕ → List ℕ → CreateAccountRequest
new_request seed plaintext username = record {
  iv_seed = seed;
  title_id = boz_title_id;
  license_hash = 0;
  username = username;
  password_hash = take 24 (drop 68 plaintext);
}

unfoldable pub open_account_block : ℕ → List ℕ → Result MessageError CreateAccountRequest
open_account_block seed plaintext =
    let username = parse_padded_username (take account_username_size (drop 4 plaintext)) in
    if not (le_value (take 4 plaintext) == account_block_signature)
    then err invalid_account_block
    else bind username (λ name.
      if not (all_zero (take 4 (drop 92 plaintext)))
      then err bad_reserved
      else ok (new_request seed plaintext name))

unfoldable pub decrypt_account_block :
    Primitives → ℕ × List ℕ → Result MessageError CreateAccountRequest
decrypt_account_block p (seed, block) =
    bind
      (map_err (λ _. invalid_account_block)
        (decrypt_3des_cbc p create_account_key (derive_iv seed) block))
      (open_account_block seed)

unfoldable pub parse_create_account_body :
    Primitives → List ℕ → Result MessageError CreateAccountRequest
parse_create_account_body p body =
    let fields = (create_account_fields body (new_bit_reader (drop 2 body))).0 in
    if not (length body == create_account_body_size)
    then err malformed_message
    else if not (get_or body 0 0 == 0)
    then err encrypted_request
    else if not (get_or body 1 0 == message_create_account_request)
    then err unexpected_message_type
    else bind fields (decrypt_account_block p)

unfoldable pub marshal_create_account_reply_body : ℕ → List ℕ
marshal_create_account_reply_body status =
    marshal_status_reply_body message_create_account_reply status
