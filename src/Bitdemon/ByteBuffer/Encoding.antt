-- ===== src/Bitdemon/ByteBuffer/Encoding.antt =====
-- The format of bytebuffer.go on its own: the bytes of each value, with its type tag in the checked
-- mode. The writer appends them and the reader takes them off.
use codboz_nx_online.Base.{
  ℕ, ◌+◌, ◌<◌, ◌≤◌, ◌≡◌, Bool, false, List, [], ◌∷◌, ◌++◌, append_assoc, ap, ◌∙◌, length, arith,
  if◌then◌else◌, le→ltb, ok,
}
use codboz_nx_online.Go.Binary.{le_bytes}
use codboz_nx_online.Go.Bytes.{contains_byte}
use codboz_nx_online.Go.Int32.{ℤ, to_uint32}
use codboz_nx_online.Bitdemon.ByteBuffer.{
  type_uint8, type_int32, type_uint32, type_uint64, type_string, type_blob, max_uint32,
}
use codboz_nx_online.Bitdemon.ByteBuffer.Writer.{
  ByteWriter, write_raw, write_type, write_uint8, write_int32, write_uint32, write_uint64,
  write_string, write_blob,
}

abbrev pub tag : Bool → ℕ → List ℕ
tag checked t = if checked then t ∷ [] else []

abbrev pub uint8_bytes : Bool → ℕ → List ℕ
uint8_bytes checked v = tag checked type_uint8 ++ v ∷ []

abbrev pub int32_bytes : Bool → ℤ → List ℕ
int32_bytes checked v = tag checked type_int32 ++ le_bytes 4 (to_uint32 v)

abbrev pub uint32_bytes : Bool → ℕ → List ℕ
uint32_bytes checked v = tag checked type_uint32 ++ le_bytes 4 v

abbrev pub uint64_bytes : Bool → ℕ → List ℕ
uint64_bytes checked v = tag checked type_uint64 ++ le_bytes 8 v

abbrev pub string_bytes : Bool → List ℕ → List ℕ
string_bytes checked v = tag checked type_string ++ (v ++ 0 ∷ [])

abbrev pub blob_bytes : Bool → List ℕ → List ℕ
blob_bytes checked v = tag checked type_blob ++ (uint32_bytes checked (length v) ++ v)

pub write_raw-write_raw :
    (u v : List ℕ) (w : ByteWriter) → write_raw v (write_raw u w) ≡ write_raw (u ++ v) w
unfolding write_raw
write_raw-write_raw u v w = ground (arith, append_assoc w.written u v)

write_raw-write_type :
    (t : ℕ) (v : List ℕ) (w : ByteWriter)
    → write_raw v (write_type t w) ≡ write_raw (tag w.type_checked t ++ v) w
unfolding write_type
write_raw-write_type t v w = ground (arith, append_assoc w.written (t ∷ []) v)

checked-write_type : (t : ℕ) (w : ByteWriter) → (write_type t w).type_checked ≡ w.type_checked
unfolding write_type
checked-write_type t w = ground arith

pub write_uint8_lem :
    (v : ℕ) (w : ByteWriter) → write_uint8 v w ≡ write_raw (uint8_bytes w.type_checked v) w
write_uint8_lem v w = unfold write_uint8 in write_raw-write_type type_uint8 (v ∷ []) w

pub write_int32_lem :
    (v : ℤ) (w : ByteWriter) → write_int32 v w ≡ write_raw (int32_bytes w.type_checked v) w
write_int32_lem v w =
    unfold write_int32 in write_raw-write_type type_int32 (le_bytes 4 (to_uint32 v)) w

pub write_uint32_lem :
    (v : ℕ) (w : ByteWriter) → write_uint32 v w ≡ write_raw (uint32_bytes w.type_checked v) w
write_uint32_lem v w = unfold write_uint32 in write_raw-write_type type_uint32 (le_bytes 4 v) w

pub write_uint64_lem :
    (v : ℕ) (w : ByteWriter) → write_uint64 v w ≡ write_raw (uint64_bytes w.type_checked v) w
write_uint64_lem v w = unfold write_uint64 in write_raw-write_type type_uint64 (le_bytes 8 v) w

pub write_string_lem :
    (v : List ℕ) (w : ByteWriter)
    → contains_byte 0 v ≡ false
    → length v < max_uint32
    → write_string v w ≡ ok (write_raw (string_bytes w.type_checked v) w)
unfolding write_string
write_string_lem v w clean short =
    rw (clean, le→ltb max_uint32 (length v + 1) (omega arith))
      (ground (
        arith,
        append_assoc w.written (type_string ∷ []) v,
        append_assoc (w.written ++ type_string ∷ []) v (0 ∷ []),
        append_assoc w.written (type_string ∷ []) (v ++ 0 ∷ []),
        append_assoc w.written v (0 ∷ []),
      ))

write_blob_body :
    (n : ℕ) (v : List ℕ) (w : ByteWriter)
    → write_raw v (write_uint32 n (write_type type_blob w))
      ≡ write_raw (tag w.type_checked type_blob ++ (uint32_bytes w.type_checked n ++ v)) w
write_blob_body n v w =
    ap (write_raw v) (write_uint32_lem n (write_type type_blob w))
    ∙ write_raw-write_raw _ v (write_type type_blob w)
    ∙ ap (λ c. write_raw (uint32_bytes c n ++ v) (write_type type_blob w))
        (checked-write_type type_blob w)
    ∙ write_raw-write_type type_blob (uint32_bytes w.type_checked n ++ v) w

pub write_blob_lem :
    (v : List ℕ) (w : ByteWriter)
    → length v ≤ max_uint32
    → write_blob v w ≡ ok (write_raw (blob_bytes w.type_checked v) w)
write_blob_lem v w short =
    unfold write_blob in
    rw (le→ltb max_uint32 (length v) short) (ap ok (write_blob_body (length v) v w))
