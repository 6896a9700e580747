-- ===== src/Bitdemon/ByteBuffer/RoundTrip/Values.antt =====
-- bytebuffer.go: whole messages. A message is a list of values, written one after the other.
use codboz_nx_online.Base.{
  ℕ, ◌<◌, ◌≤◌, ◌^◌, ◌≡◌, refl, sym, ap, ◌∙◌, Bool, false, List, [], ◌∷◌, ◌++◌, append_assoc,
  append-nil, length, map, arith, All, Result, ok, bind,
}
use codboz_nx_online.Go.Bytes.{contains_byte}
use codboz_nx_online.Go.Int32.{ℤ, IsInt32}
use codboz_nx_online.Bitdemon.ByteBuffer.{Error, max_uint32}
use codboz_nx_online.Bitdemon.ByteBuffer.Writer.{
  ByteWriter, new_byte_writer, write_raw, write_uint8, write_int32, write_uint32, write_uint64,
  write_string, write_blob,
}
use codboz_nx_online.Go.Reading.{◌>>=◌, pure}
use codboz_nx_online.Bitdemon.ByteBuffer.Reader.{
  ByteReader, Read, new_byte_reader, read_uint8, read_int32, read_uint32, read_uint64, read_string,
  read_blob, remainder,
}
use codboz_nx_online.Bitdemon.ByteBuffer.Encoding.{
  uint8_bytes, int32_bytes, uint32_bytes, uint64_bytes, string_bytes, blob_bytes, write_uint8_lem,
  write_int32_lem, write_uint32_lem, write_uint64_lem, write_string_lem, write_blob_lem,
  write_raw-write_raw,
}
use codboz_nx_online.Bitdemon.ByteBuffer.RoundTrip.{
  Ready, Yields, bind-Yields, read_uint8-Yields, read_int32-Yields, read_uint32-Yields,
  read_uint64-Yields,
}
use codboz_nx_online.Bitdemon.ByteBuffer.RoundTrip.Texts.{read_string-Yields, read_blob-Yields}

pub data Kind : Type 0 where
  uint8_kind int32_kind uint32_kind uint64_kind string_kind blob_kind : Kind

pub data Value : Type 0 where
  uint8 uint32 uint64 : ℕ → Value
  int32 : ℤ → Value
  string blob : List ℕ → Value

abbrev pub kind_of : Value → Kind
kind_of (uint8 n) = uint8_kind
kind_of (uint32 n) = uint32_kind
kind_of (uint64 n) = uint64_kind
kind_of (int32 z) = int32_kind
kind_of (string bs) = string_kind
kind_of (blob bs) = blob_kind

-- The value is one of its Go type and no longer than the reader's limit.
abbrev pub Fits : ℕ → Value → Type 0
Fits max (uint8 n) = n < 256
Fits max (uint32 n) = n < 2 ^ 32
Fits max (uint64 n) = n < 2 ^ 64
Fits max (int32 z) = IsInt32 z
Fits max (string bs) = (contains_byte 0 bs ≡ false) × (length bs ≤ max)
Fits max (blob bs) = length bs ≤ max

unfoldable pub write_value : Value → ByteWriter → Result Error ByteWriter
write_value (uint8 n) w = ok (write_uint8 n w)
write_value (uint32 n) w = ok (write_uint32 n w)
write_value (uint64 n) w = ok (write_uint64 n w)
write_value (int32 z) w = ok (write_int32 z w)
write_value (string bs) w = write_string bs w
write_value (blob bs) w = write_blob bs w

unfoldable pub write_values : List Value → ByteWriter → Result Error ByteWriter
write_values [] w = ok w
write_values (v ∷ vs) w = bind (write_value v w) (write_values vs)

unfoldable pub read_value : ℕ → Kind → Read Error Value
read_value max uint8_kind = read_uint8 >>= λ n. pure (uint8 n)
read_value max uint32_kind = read_uint32 >>= λ n. pure (uint32 n)
read_value max uint64_kind = read_uint64 >>= λ n. pure (uint64 n)
read_value max int32_kind = read_int32 >>= λ z. pure (int32 z)
read_value max string_kind = read_string max >>= λ bs. pure (string bs)
read_value max blob_kind = read_blob max >>= λ bs. pure (blob bs)

unfoldable pub read_values : ℕ → List Kind → Read Error (List Value)
read_values max [] r = (ok [], r)
read_values max (k ∷ ks) r =
    let rest = read_values max ks in (read_value max k >>= λ v. rest >>= λ vs. pure (v ∷ vs)) r

abbrev value_bytes : Bool → Value → List ℕ
value_bytes c (uint8 n) = uint8_bytes c n
value_bytes c (uint32 n) = uint32_bytes c n
value_bytes c (uint64 n) = uint64_bytes c n
value_bytes c (int32 z) = int32_bytes c z
value_bytes c (string bs) = string_bytes c bs
value_bytes c (blob bs) = blob_bytes c bs

abbrev message_bytes : Bool → List Value → List ℕ
message_bytes c [] = []
message_bytes c (v ∷ vs) = value_bytes c v ++ message_bytes c vs

module _ (max : ℕ) (small : max < max_uint32) where
  write_value_lem :
      (v : Value) (w : ByteWriter)
      → Fits max v
      → write_value v w ≡ ok (write_raw (value_bytes w.type_checked v) w)
  unfolding write_value
  write_value_lem (uint8 n) w h = ap ok (write_uint8_lem n w)
  write_value_lem (uint32 n) w h = ap ok (write_uint32_lem n w)
  write_value_lem (uint64 n) w h = ap ok (write_uint64_lem n w)
  write_value_lem (int32 z) w h = ap ok (write_int32_lem z w)
  write_value_lem (string bs) w h = write_string_lem bs w h.0 (omega arith)
  write_value_lem (blob bs) w h = write_blob_lem bs w (omega arith)

  write_values_lem :
      (vs : List Value) (w : ByteWriter)
      → All (Fits max) vs
      → write_values vs w ≡ ok (write_raw (message_bytes w.type_checked vs) w)
  unfolding write_values write_raw
  write_values_lem [] w h = ap (λ l. ok (record w { written = l })) (sym (append-nil w.written))
  write_values_lem (v ∷ vs) w h =
      ap (λ o. bind o (write_values vs)) (write_value_lem v w h.0)
      ∙ write_values_lem vs (write_raw (value_bytes w.type_checked v) w) h.1
      ∙ ap ok (write_raw-write_raw (value_bytes w.type_checked v) _ w)

  read_value-Yields :
      (checked : Bool) (v : Value) (rest : List ℕ) (r : ByteReader)
      → Fits max v
      → Ready checked (value_bytes checked v ++ rest) r
      → Yields checked v rest (read_value max (kind_of v) r)
  unfolding read_value
  read_value-Yields c (uint8 n) rest r h at =
      bind-Yields c n (uint8 n) rest rest read_uint8 (λ x. pure (uint8 x)) r
        (read_uint8-Yields c rest r n at) (λ s g. (s, refl, g))
  read_value-Yields c (uint32 n) rest r h at =
      bind-Yields c n (uint32 n) rest rest read_uint32 (λ x. pure (uint32 x)) r
        (read_uint32-Yields c rest r n h at) (λ s g. (s, refl, g))
  read_value-Yields c (uint64 n) rest r h at =
      bind-Yields c n (uint64 n) rest rest read_uint64 (λ x. pure (uint64 x)) r
        (read_uint64-Yields c rest r n h at) (λ s g. (s, refl, g))
  read_value-Yields c (int32 z) rest r h at =
      bind-Yields c z (int32 z) rest rest read_int32 (λ x. pure (int32 x)) r
        (read_int32-Yields c rest r z h at) (λ s g. (s, refl, g))
  read_value-Yields c (string bs) rest r h at =
      bind-Yields c bs (string bs) rest rest (read_string max) (λ x. pure (string x)) r
        (read_string-Yields c rest r max bs h.1 h.0 at) (λ s g. (s, refl, g))
  read_value-Yields c (blob bs) rest r h at =
      bind-Yields c bs (blob bs) rest rest (read_blob max) (λ x. pure (blob x)) r
        (read_blob-Yields c rest r max bs h (omega arith) at) (λ s g. (s, refl, g))

  read_values-Yields :
      (checked : Bool) (vs : List Value) (rest : List ℕ) (r : ByteReader)
      → All (Fits max) vs
      → Ready checked (message_bytes checked vs ++ rest) r
      → Yields checked vs rest (read_values max (map kind_of vs) r)
  unfolding read_values
  read_values-Yields c [] rest r h ready = (r, refl, ready)
  read_values-Yields c (v ∷ vs) rest r h (at, mode) =
      let tail : Read Error (List Value) = read_values max (map kind_of vs) in
      bind-Yields c v (v ∷ vs) (message_bytes c vs ++ rest) rest (read_value max (kind_of v))
        (λ x. tail >>= λ xs. pure (x ∷ xs)) r
        (read_value-Yields c v (message_bytes c vs ++ rest) r h.0
          (at ∙ append_assoc (value_bytes c v) (message_bytes c vs) rest, mode))
        (λ s ready.
          bind-Yields c vs (v ∷ vs) rest rest tail (λ xs. pure (v ∷ xs)) s
            (read_values-Yields c vs rest s h.1 ready) (λ u g. (u, refl, g)))

  -- Take any values that are in the range of their Go types, strings without a NUL, strings and
  -- blobs no longer than a limit below the largest uint32. Writing them one after the other
  -- succeeds, in either type mode; and a reader in that mode over the bytes written reads the same
  -- values back, in order and without an error, and has nothing left.
  pub read_values-write_values :
      (checked : Bool) (vs : List Value)
      → All (Fits max) vs
      → (w : ByteWriter) × (r : ByteReader) × (write_values vs (new_byte_writer checked) ≡ ok w)
        × (read_values max (map kind_of vs) (new_byte_reader w.written checked) ≡ (ok vs, r))
        × (remainder r ≡ [])
  unfolding new_byte_writer new_byte_reader write_raw remainder
  read_values-write_values checked vs h =
      let (r, e, ready) =
        read_values-Yields checked vs [] (new_byte_reader (message_bytes checked vs) checked) h
          (sym (append-nil (message_bytes checked vs)), refl) in
      (
        write_raw (message_bytes checked vs) (new_byte_writer checked),
        r,
        write_values_lem vs (new_byte_writer checked) h,
        e,
        ready.0,
      )
