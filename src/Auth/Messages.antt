-- ===== src/Auth/Messages.antt =====
-- internal/online/auth: what create_account.go and account_for_mmp.go share: the errors, the
-- statuses, the beginning of a request and the reply with a status.
pub mod Header
use Prim.Native.Nat.{bit_and}
use codboz_nx_online.Base.{
  ℕ, ◌+◌, ◌-◌, Bool, true, false, not, ◌||◌, List, [], ◌∷◌, ◌++◌, ◌==◌, if◌then◌else◌, length,
  replicate, get_or, Result, ok, err, every,
}
use codboz_nx_online.Go.Reading.{pure, raise, wrap, ◌>>=◌, ◌>>◌}
use codboz_nx_online.Bitdemon.BitBuffer.{
  BitReader, Read, remaining_bits, read_type_checked_flag, read_uint32, new_bit_writer, write_uint8,
  set_type_checked, write_type_checked_flag, write_uint32,
}
use codboz_nx_online.Auth.LobbySession.{boz_title_id}

abbrev pub message_create_account_request : ℕ
message_create_account_request = 0x00

abbrev pub message_create_account_reply : ℕ
message_create_account_reply = 0x01

abbrev pub message_account_for_mmp_request : ℕ
message_account_for_mmp_request = 0x0a

abbrev pub message_account_for_mmp_reply : ℕ
message_account_for_mmp_reply = 0x0b

abbrev pub status_no_error : ℕ
status_no_error = 700

abbrev pub status_bad_account : ℕ
status_bad_account = 704

abbrev pub status_create_username_exists : ℕ
status_create_username_exists = 707

abbrev pub status_create_max_accounts_exceeded : ℕ
status_create_max_accounts_exceeded = 710

-- `bad_padding` and `bad_reserved` are the errors that carry a text only.
pub data MessageError : Type 0 where
  malformed_message encrypted_request unexpected_message_type : MessageError
  type_checking_required unexpected_title unsupported_license_hash : MessageError
  invalid_account_block invalid_username bad_padding bad_reserved ticket_time : MessageError

abbrev pub require : Bool → MessageError → Read MessageError (Unit {0})
require b e = if b then pure tt else raise e

-- A request begins with the mode, which must be checked, a seed and the title.
unfoldable pub read_header : Read MessageError ℕ
read_header = do
  checked ← wrap (λ _. malformed_message) read_type_checked_flag
  require checked type_checking_required
  seed ← wrap (λ _. malformed_message) read_uint32
  title ← wrap (λ _. malformed_message) read_uint32
  require (title == boz_title_id) unexpected_title
  pure seed

-- `reader.RemainingBits() != 5 || body[len(body)-1]&0xf8 != 0`
unfoldable pub check_padding : {E : Type 0} → E → List ℕ → Read E (Unit {0})
check_padding e body r =
    if not (remaining_bits r == 5) || not (bit_and (get_or body (length body - 1) 0) 0xf8 == 0)
    then (err e, r)
    else (ok tt, r)

-- allZero of create_account.go.
abbrev pub all_zero : List ℕ → Bool
all_zero = every (λ b. b == 0)

-- `copy(field[:], value)` into an array of zeros.
abbrev pub padded : ℕ → List ℕ → List ℕ
padded size value = value ++ replicate (size - length value) 0

unfoldable pub marshal_status_reply_body : ℕ → ℕ → List ℕ
marshal_status_reply_body message_type status =
    let w0 = write_uint8 message_type (new_bit_writer false) in
    let w1 = write_type_checked_flag (set_type_checked true w0) in
    let w2 = write_uint32 status w1 in 0 ∷ w2.written
