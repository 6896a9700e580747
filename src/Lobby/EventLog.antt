-- ===== src/Lobby/EventLog.antt =====
-- internal/online/lobby/eventlog.go.
pub mod Requests
use codboz_nx_online.Base.{ℕ, ◌%◌, ◌^◌, List, [], ◌∷◌, ◌==◌, true, if◌then◌else◌, Result}
use codboz_nx_online.Bitdemon.ByteBuffer.Writer.{
  new_byte_writer, write_raw, write_uint8, write_uint32, write_uint64,
}
use codboz_nx_online.Go.Reading.{pure, raise, wrap, ◌>>=◌, ◌>>◌}
use codboz_nx_online.Bitdemon.ByteBuffer.Reader.{
  Read, new_byte_reader, remaining, read_raw, read_uint8, read_uint32, read_blob,
}
use codboz_nx_online.Lobby.Envelope.{valid_client_request_padding}

abbrev pub event_log_service_id : ℕ
event_log_service_id = 0x43

abbrev pub event_log_task_log : ℕ
event_log_task_log = 0x02

abbrev pub default_max_event_blob : ℕ
default_max_event_blob = 65536

abbrev pub task_reply_message : ℕ
task_reply_message = 0x01

abbrev pub status_no_error : ℕ
status_no_error = 0

pub data EventLogError : Type 0 where
  malformed_event unsupported_event_task : EventLogError

pub record EventLogRequest : Type 0 where
  pub task : ℕ
  pub blob : List ℕ
  pub category : ℕ

-- `reader.ReadRaw(uint32(reader.Remaining()))` and the check of what it gives, with the error `e`.
unfoldable pub read_padding : {E : Type 0} → ℕ → E → Read E (Unit {0})
unfolding read_raw
read_padding seed e r =
    (wrap (λ _. e) (read_raw (remaining r % 2 ^ 32)) >>= λ padding.
    if valid_client_request_padding padding seed then pure tt else raise e)
      r

unfoldable pub event_task : ℕ → Read EventLogError (Unit {0})
event_task task = if task == event_log_task_log then pure tt else raise unsupported_event_task

unfoldable pub event_log_fields : ℕ → Read EventLogError EventLogRequest
unfolding read_padding event_task
event_log_fields seed = do
  task ← wrap (λ _. malformed_event) read_uint8
  event_task task
  blob ← wrap (λ _. malformed_event) (read_blob default_max_event_blob)
  category ← wrap (λ _. malformed_event) read_uint32
  read_padding seed malformed_event
  pure (record { task = task; blob = blob; category = category })

unfoldable pub parse_event_log_request : List ℕ → ℕ → Result EventLogError EventLogRequest
unfolding event_log_fields
parse_event_log_request payload seed = (event_log_fields seed (new_byte_reader payload true)).0

unfoldable pub marshal_task_reply : ℕ → ℕ → ℕ → ℕ → ℕ → List ℕ
marshal_task_reply transaction_id operation error_code result_count total_result_count =
    let w0 = write_raw (task_reply_message ∷ []) (new_byte_writer true) in
    let w1 = write_uint64 transaction_id w0 in
    let w2 = write_uint32 error_code w1 in
    let w3 = write_uint8 operation w2 in
    let w4 = write_uint32 result_count w3 in
    let w5 = if result_count == 0 then w4 else write_uint32 total_result_count w4 in w5.written
