-- ===== src/Bitdemon/Frame.antt =====
-- internal/online/bitdemon/frame.go: transport records on a TCP connection.
pub mod Write
pub mod RoundTrip
use codboz_nx_online.Base.{
  ℕ, ◌+◌, ◌-◌, ◌^◌, Bool, List, [], ◌∷◌, ◌++◌, ◌==◌, ltb, if◌then◌else◌, length, Result, ok, err,
}
use codboz_nx_online.Go.Binary.{le_bytes, le_value}
use codboz_nx_online.Go.Stream.{IoError, Stream, read_full}

abbrev pub frame_prefix_size : ℕ
frame_prefix_size = 4

abbrev pub default_max_frame_body : ℕ
default_max_frame_body = 1_048_576

abbrev pub lobby_keepalive_body_len : ℕ
lobby_keepalive_body_len = 0

abbrev pub buffer_available_record_marker : ℕ
buffer_available_record_marker = 200

abbrev pub max_uint32 : ℕ
max_uint32 = 0xffff_ffff

-- `^uint(0)>>1` on a 64-bit platform.
abbrev pub max_int : ℕ
max_int = 2 ^ 63 - 1

-- TransportRecordKind with the fields of TransportRecord that the kind uses.
pub data TransportRecord : Type 0 where
  frame : List ℕ → TransportRecord
  keepalive : TransportRecord
  buffer_available : ℕ → TransportRecord

pub data FrameError : Type 0 where
  frame_too_large reserved_frame_body_size : FrameError
  io_failed : IoError → FrameError

-- The outcome of a step on the stream, with the stream after it.
abbrev pub Outcome : Type 0 → Type 0
Outcome A = Result FrameError A × Stream

abbrev pub after :
    {A : Type 0} → Result IoError (List ℕ) × Stream → (List ℕ → Stream → Outcome A) → Outcome A
after (ok bs, s) f = f bs s
after (err e, s) f = (err (io_failed e), s)

abbrev pub effective_max : ℕ → ℕ
effective_max max_body_size = if max_body_size == 0 then default_max_frame_body else max_body_size

-- The part of ReadTransportRecord behind the prefix.
unfoldable pub read_record_body : ℕ → ℕ → Stream → Outcome TransportRecord
read_record_body max_body_size body_size s =
    if body_size == lobby_keepalive_body_len
    then (ok keepalive, s)
    else if body_size == buffer_available_record_marker
    then after (read_full 4 s) (λ value s'. (ok (buffer_available (le_value value)), s'))
    else if ltb max_body_size body_size
    then (err frame_too_large, s)
    else if ltb max_int body_size
    then (err frame_too_large, s)
    else after (read_full body_size s) (λ body s'. (ok (frame body), s'))

unfoldable pub read_transport_record : ℕ → Stream → Outcome TransportRecord
unfolding read_record_body
read_transport_record max_body_size s =
    after (read_full frame_prefix_size s)
      (λ prefix s'. read_record_body (effective_max max_body_size) (le_value prefix) s')

-- The checks of MarshalFrame and WriteFrame.
abbrev pub check_body : {A : Type 0} → List ℕ → A → Result FrameError A
check_body body a =
    if ltb max_uint32 (length body)
    then err frame_too_large
    else if length body == buffer_available_record_marker
    then err reserved_frame_body_size
    else ok a

unfoldable pub marshal_frame : List ℕ → Result FrameError (List ℕ)
marshal_frame body = check_body body (le_bytes 4 (length body) ++ body)

unfoldable pub buffer_available_record : ℕ → List ℕ
buffer_available_record available =
    le_bytes 4 buffer_available_record_marker ++ le_bytes 4 available
