-- ===== src/Tests/Bitdemon.antt =====
-- The BitDemon codecs at concrete inputs.
use codboz_nx_online.Base.{
  ℕ, ◌≡◌, ◌≤◌, ◌+◌, ◌-◌, ap, ◌*◌, ◌%◌, refl, true, List, [], ◌∷◌, ◌++◌, length, take, drop, arith,
  ok, err, none, map, ◌⊎◌,
}
use codboz_nx_online.Go.Binary.{le_bytes, le_value}
use codboz_nx_online.Go.Bytes.{index_byte}
use codboz_nx_online.Go.Int32.{negsuc}
use codboz_nx_online.Go.Stream.{eof, Stream}
use codboz_nx_online.Bitdemon.ByteBuffer.Writer.{ByteWriter, new_byte_writer}
use codboz_nx_online.Bitdemon.ByteBuffer.Reader.{
  ByteReader, new_byte_reader, read_raw, read_uint8, read_int32, read_uint32, read_uint64,
  read_string, read_blob, remainder,
}
use codboz_nx_online.Bitdemon.ByteBuffer.Reader.Sound.{Sound, reads-Sound}
use codboz_nx_online.Bitdemon.ByteBuffer.RoundTrip.Values.{
  Value, uint8, int32, string, blob, kind_of, write_values, read_values, read_values-write_values,
}
use codboz_nx_online.Bitdemon.Frame.{FrameError, marshal_frame, frame, read_transport_record}
use codboz_nx_online.Bitdemon.Frame.Write.{
  IoWriter, Delivers, refused, write_all, write_frame, write_all-Delivers,
  write_frame-marshal_frame,
}
use codboz_nx_online.Bitdemon.Frame.RoundTrip.{
  Wellformed, read_transport_record-marshal_frame, read_transport_record-Wellformed,
}
use codboz_nx_online.Bitdemon.Tiger.{tiger_pad}
use codboz_nx_online.Bitdemon.Tiger.Padding.{tiger_pad_lem}
use codboz_nx_online.Bitdemon.Crypto.{Primitives}
use codboz_nx_online.Bitdemon.Crypto.Laws.{IsCbc}

abbrev message : ByteReader
message = record { type_checked = true; bytes = 3 ∷ 7 ∷ 8 ∷ 1 ∷ []; offset = 0 }

reads-Sound_example :
    Sound message (read_raw 2 message)
    × Sound message (read_uint8 message)
    × Sound message (read_int32 message)
    × Sound message (read_uint32 message)
    × Sound message (read_uint64 message)
    × Sound message (read_string 2 message)
    × Sound message (read_blob 2 message)
reads-Sound_example = reads-Sound message (omega arith) 2

abbrev values : List Value
values = uint8 7 ∷ string (b'b' ∷ b'o' ∷ b'z' ∷ []) ∷ int32 (negsuc 4) ∷ blob (0 ∷ 9 ∷ []) ∷ []

read_values-write_values_example :
    (w : ByteWriter) × (r : ByteReader) × (write_values values (new_byte_writer true) ≡ ok w)
    × (read_values 63 (map kind_of values) (new_byte_reader w.written true) ≡ (ok values, r))
    × (remainder r ≡ [])
unfolding index_byte
read_values-write_values_example =
    read_values-write_values 63 (omega arith) true values
      (omega arith, ((refl, omega arith), (omega arith, (omega arith, tt))))

take_two : (bytes : List ℕ) → take 2 bytes ≡ take (length (take 2 bytes)) bytes
take_two [] = refl
take_two (a ∷ []) = refl
take_two (a ∷ b ∷ bytes) = refl

-- A writer that takes at most two bytes at a time; its state is what was sent.
abbrev slow_writer : IoWriter (List ℕ)
slow_writer = record {
  write = λ bytes w. (record { count = length (take 2 bytes); failure = none }, w ++ take 2 bytes);
  sent = λ w. w;
  write_sends = λ bytes w e. ap (λ b. w ++ b) (take_two bytes);
}

write_all-Delivers_example :
    Delivers slow_writer (1 ∷ 2 ∷ 3 ∷ []) [] (write_all slow_writer (1 ∷ 2 ∷ 3 ∷ []) [])
write_all-Delivers_example = write_all-Delivers slow_writer (1 ∷ 2 ∷ 3 ∷ []) []

write_frame-marshal_frame_example :
    ((f : List ℕ) × (marshal_frame (5 ∷ []) ≡ ok f)
      × Delivers slow_writer f [] (write_frame slow_writer (5 ∷ []) []))
    ⊎ ((e : FrameError) × (marshal_frame (5 ∷ []) ≡ err e)
        × (write_frame slow_writer (5 ∷ []) [] ≡ (refused e, [])))
write_frame-marshal_frame_example = write_frame-marshal_frame slow_writer (5 ∷ []) []

read_transport_record-marshal_frame_example :
    read_transport_record 0
      (record { pending = (3 ∷ 0 ∷ 0 ∷ 0 ∷ 7 ∷ 8 ∷ 9 ∷ []) ++ 1 ∷ []; ending = eof })
    ≡ (ok (frame (7 ∷ 8 ∷ 9 ∷ [])), record { pending = 1 ∷ []; ending = eof })
unfolding marshal_frame le_bytes
read_transport_record-marshal_frame_example =
    read_transport_record-marshal_frame 0 (7 ∷ 8 ∷ 9 ∷ []) (3 ∷ 0 ∷ 0 ∷ 0 ∷ 7 ∷ 8 ∷ 9 ∷ []) (1 ∷ [])
      eof refl (omega arith)

abbrev one_frame : Stream
one_frame = record { pending = 2 ∷ 0 ∷ 0 ∷ 0 ∷ 5 ∷ 6 ∷ 7 ∷ []; ending = eof }

read_transport_record-Wellformed_example :
    Wellformed 0 one_frame (read_transport_record 0 one_frame)
read_transport_record-Wellformed_example = read_transport_record-Wellformed 0 one_frame

abbrev abc : List ℕ
abc = b'a' ∷ b'b' ∷ b'c' ∷ []

tiger_pad_lem_example :
    (length (tiger_pad abc) % 64 ≡ 0)
    × (3 + 9 ≤ length (tiger_pad abc))
    × (length (tiger_pad abc) ≤ 3 + 72)
    × (take (3 + 1) (tiger_pad abc) ≡ abc ++ 1 ∷ [])
    × (le_value (drop (length (tiger_pad abc) - 8) (tiger_pad abc)) ≡ 3 * 8)
tiger_pad_lem_example = tiger_pad_lem abc (omega arith)

-- A cipher that changes nothing keeps what the program relies on.
abbrev pub plain : Primitives
plain = record {
  cbc_encrypt = λ key iv bytes. bytes;
  cbc_decrypt = λ key iv bytes. bytes;
  hmac_sha1 = λ key bytes. key;
}

pub plain-IsCbc : IsCbc plain
plain-IsCbc = record {
  encrypt_length = λ key iv bytes. refl;
  decrypt_encrypt = λ key iv bytes size whole. refl;
}

abbrev pub block : List ℕ
block = 1 ∷ 2 ∷ 3 ∷ 4 ∷ 5 ∷ 6 ∷ 7 ∷ 8 ∷ []

abbrev pub session_key : List ℕ
session_key = block ++ (block ++ block)
