-- ===== src/Bitdemon/ByteBuffer/RoundTrip.antt =====
-- bytebuffer.go: each read takes off what the write of its kind appends, and no more.
pub mod Texts
pub mod Values
use codboz_nx_online.Base.{
  ℕ, ◌+◌, ◌<◌, ◌≤◌, ◌^◌, ◌≡◌, refl, sym, ap, subst, ◌∙◌, Bool, true, false, List, [], ◌∷◌, ◌++◌,
  append_assoc, length, take, drop, arith, if◌then◌else◌, ltb, le→ltb, ==_refl, Result, ok, err,
  take-append, drop-append, drop-drop, length-append, length-drop,
}
use codboz_nx_online.Go.Binary.{le_bytes, le_value, pow256, length-le_bytes, le_value-le_bytes}
use codboz_nx_online.Go.Bytes.{contains_byte, index_byte, index_byte-append, index_byte_absent}
use codboz_nx_online.Go.Int32.{ℤ, IsInt32, to_uint32, to_int32, to_uint32-lt, to_int32-to_uint32}
use codboz_nx_online.Bitdemon.ByteBuffer.{
  Error, type_uint8, type_int32, type_uint32, type_uint64, type_string, type_blob, max_uint32,
}
use codboz_nx_online.Go.Reading.{◌>>=◌, wrap}
use codboz_nx_online.Bitdemon.ByteBuffer.Reader.{
  ByteReader, Read, restoring, read, read_raw, read_uint8, read_int32, read_uint32, read_uint64,
  read_string, read_blob, remainder, remaining, cut_string, expect, check_type, first, check_length,
}
use codboz_nx_online.Bitdemon.ByteBuffer.Encoding.{
  tag, uint8_bytes, int32_bytes, uint32_bytes, uint64_bytes, string_bytes, blob_bytes,
}

-- The reader is in the mode `checked` and has `xs` still to read.
abbrev pub Ready : Bool → List ℕ → ByteReader → Type 0
Ready checked xs r = (remainder r ≡ xs) × (r.type_checked ≡ checked)

-- The outcome is the value `v`, and `rest` is still to read in the same mode.
abbrev pub Yields : {E A : Type 0} → Bool → A → List ℕ → Result E A × ByteReader → Type 0
Yields checked v rest out = (r : ByteReader) × (out ≡ (ok v, r)) × Ready checked rest r

pub bind-Yields :
    {E A B : Type 0} (checked : Bool) (v : A) (w : B) (rest end : List ℕ) (m : Read E A)
    (f : A → Read E B) (r : ByteReader)
    → Yields checked v rest (m r)
    → ((s : ByteReader) → Ready checked rest s → Yields checked w end (f v s))
    → Yields checked w end ((m >>= f) r)
bind-Yields checked v w rest end m f r (s, e, ready) next =
    let (t, e', ready') = next s ready in (t, rw (e, ◌>>=◌) e', ready')

pub restoring-Yields :
    {E A : Type 0} (checked : Bool) (v : A) (rest : List ℕ) (m : Read E A) (r : ByteReader)
    → Yields checked v rest (m r)
    → Yields checked v rest (restoring m r)
restoring-Yields checked v rest m r (s, e, ready) = (s, rw (e, restoring), ready)

pub wrap-Yields :
    {E F A : Type 0} (g : E → F) (checked : Bool) (v : A) (rest : List ℕ) (m : Read E A)
    (r : ByteReader)
    → Yields checked v rest (m r)
    → Yields checked v rest (wrap g m r)
wrap-Yields g checked v rest m r (s, e, ready) = (s, rw (e, wrap), ready)

pub read-Yields :
    (checked : Bool) (xs rest : List ℕ) (r : ByteReader)
    → Ready checked (xs ++ rest) r
    → Yields checked xs rest (read (length xs) r)
unfolding read remainder remaining
read-Yields checked xs rest r (at, mode) = (
  record r { offset = r.offset + length xs },
  ground (
    arith,
    length-drop r.offset r.bytes,
    ap length at,
    length-append xs rest,
    ap (take (length xs)) at,
    take-append xs rest,
  ),
  (
    sym (drop-drop r.offset (length xs) r.bytes) ∙ ap (drop (length xs)) at ∙ drop-append xs rest,
    mode,
  ),
)

pub expect-Yields :
    (checked : Bool) (t : ℕ) (rest : List ℕ) (r : ByteReader)
    → Ready checked (tag checked t ++ rest) r
    → Yields checked tt rest (expect t r)
unfolding expect
expect-Yields true t rest r (at, mode) =
    let (s, e, ready) = read-Yields true (t ∷ []) rest r (at, mode) in
    (s, ground (arith, e, ==_refl t), ready)
expect-Yields false t rest r (at, mode) = (r, ground arith, (at, mode))

-- The body of the fixed-width reads: `n` bytes behind the tag `t`, converted by `of`.
abbrev fetch : {A : Type 0} → ℕ → (List ℕ → A) → Read Error A
fetch n of = read n >>= λ bs s. (ok (of bs), s)

fetch-Yields :
    {A : Type 0} (checked : Bool) (xs rest : List ℕ) (of : List ℕ → A) (r : ByteReader)
    → Ready checked (xs ++ rest) r
    → Yields checked (of xs) rest (fetch (length xs) of r)
fetch-Yields checked xs rest of r ready =
    bind-Yields checked xs (of xs) rest rest (read (length xs)) (λ bs s. (ok (of bs), s)) r
      (read-Yields checked xs rest r ready) (λ s ready'. (s, refl, ready'))

fixed-Yields :
    {A : Type 0} (checked : Bool) (t : ℕ) (xs rest : List ℕ) (of : List ℕ → A) (r : ByteReader)
    → Ready checked (tag checked t ++ xs ++ rest) r
    → Yields checked (of xs) rest (restoring (expect t >>= λ _. fetch (length xs) of) r)
fixed-Yields {A} checked t xs rest of r (at, mode) =
    let body : Read Error A = expect t >>= λ _. fetch (length xs) of in
    restoring-Yields checked (of xs) rest body r (
      bind-Yields checked tt (of xs) (xs ++ rest) rest (expect t) (λ _. fetch (length xs) of) r
        (expect-Yields checked t (xs ++ rest) r (at ∙ append_assoc (tag checked t) xs rest, mode))
        (fetch-Yields checked xs rest of))

module _ (checked : Bool) (rest : List ℕ) (r : ByteReader) where
  pub read_raw-Yields :
      (v : List ℕ) → Ready checked (v ++ rest) r → Yields checked v rest (read_raw (length v) r)
  read_raw-Yields v ready =
      unfold read_raw in
      restoring-Yields checked v rest (read (length v)) r (read-Yields checked v rest r ready)

  pub read_uint8-Yields :
      (v : ℕ)
      → Ready checked (uint8_bytes checked v ++ rest) r
      → Yields checked v rest (read_uint8 r)
  unfolding read_uint8
  read_uint8-Yields v ready = fixed-Yields checked type_uint8 (v ∷ []) rest first r ready

  pub read_uint32-Yields :
      (v : ℕ)
      → v < 2 ^ 32
      → Ready checked (uint32_bytes checked v ++ rest) r
      → Yields checked v rest (read_uint32 r)
  unfolding read_uint32 le_bytes
  read_uint32-Yields v h ready =
      subst (λ z. Yields checked z rest (read_uint32 r)) (le_value-le_bytes 4 v h)
        (fixed-Yields checked type_uint32 (le_bytes 4 v) rest le_value r ready)

  pub read_uint64-Yields :
      (v : ℕ)
      → v < 2 ^ 64
      → Ready checked (uint64_bytes checked v ++ rest) r
      → Yields checked v rest (read_uint64 r)
  unfolding read_uint64 le_bytes
  read_uint64-Yields v h ready =
      subst (λ z. Yields checked z rest (read_uint64 r)) (le_value-le_bytes 8 v h)
        (fixed-Yields checked type_uint64 (le_bytes 8 v) rest le_value r ready)

  pub read_int32-Yields :
      (v : ℤ)
      → IsInt32 v
      → Ready checked (int32_bytes checked v ++ rest) r
      → Yields checked v rest (read_int32 r)
  unfolding read_int32 le_bytes
  read_int32-Yields v h ready =
      subst (λ z. Yields checked z rest (read_int32 r))
        (ap to_int32 (le_value-le_bytes 4 (to_uint32 v) (to_uint32-lt v)) ∙ to_int32-to_uint32 v h)
        (fixed-Yields checked type_int32 (le_bytes 4 (to_uint32 v)) rest
          (λ bs. to_int32 (le_value bs)) r ready)
