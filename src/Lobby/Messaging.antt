-- ===== src/Lobby/Messaging.antt =====
-- internal/online/lobby/messaging.go: parsing of a message request.
pub mod Requests
pub mod Push
use codboz_nx_online.Base.{
  ℕ, ◌+◌, ◌%◌, true, not, List, ltb, ◌==◌, if◌then◌else◌, length, Result, ok, err,
}
use codboz_nx_online.Go.Reading.{pure, raise, wrap, ◌>>=◌, ◌>>◌}
use codboz_nx_online.Bitdemon.ByteBuffer.Reader.{
  ByteReader, Read, new_byte_reader, remaining, read_uint8, read_uint64, read_blob,
}
use codboz_nx_online.Bitdemon.Crypto.{truncated_hmac_size, triple_des_block_size}
use codboz_nx_online.Lobby.EventLog.{read_padding}

abbrev pub messaging_task_send_global_instant_message : ℕ
messaging_task_send_global_instant_message = 0x0e

abbrev pub max_messaging_message_bytes : ℕ
max_messaging_message_bytes = 4096

pub data MessagingError : Type 0 where
  malformed_message unsupported_message_task : MessagingError

pub record MessagingRequest : Type 0 where
  pub task : ℕ
  pub recipient : ℕ
  pub message : List ℕ

unfoldable pub message_task : ℕ → Read MessagingError (Unit {0})
message_task task =
    if task == messaging_task_send_global_instant_message
    then pure tt
    else raise unsupported_message_task

-- `reader.Remaining() > bitdemon.TripleDESBlockSize`
unfoldable pub check_excess : Read MessagingError (Unit {0})
unfolding remaining
check_excess r =
    if ltb triple_des_block_size (remaining r) then (err malformed_message, r) else (ok tt, r)

unfoldable pub message_fields : ℕ → Read MessagingError MessagingRequest
unfolding message_task check_excess
message_fields seed = do
  task ← wrap (λ _. malformed_message) read_uint8
  message_task task
  recipient ← wrap (λ _. malformed_message) read_uint64
  message ← wrap (λ _. malformed_message) (read_blob max_messaging_message_bytes)
  check_excess
  read_padding seed malformed_message
  pure (record { task = task; recipient = recipient; message = message })

unfoldable pub parse_messaging_request : List ℕ → ℕ → Result MessagingError MessagingRequest
unfolding message_fields
parse_messaging_request payload seed =
    if not ((length payload + truncated_hmac_size + 1) % triple_des_block_size == 0)
    then err malformed_message
    else (message_fields seed (new_byte_reader payload true)).0
