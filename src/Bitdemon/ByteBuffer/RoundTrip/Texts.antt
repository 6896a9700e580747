-- ===== src/Bitdemon/ByteBuffer/RoundTrip/Texts.antt =====
-- bytebuffer.go: the round trips of the two kinds that carry a length, strings and blobs.
use codboz_nx_online.Base.{
  ℕ, ◌+◌, ◌≤◌, ◌≡◌, sym, ap, ◌∙◌, Bool, false, List, [], ◌∷◌, ◌++◌, append_assoc, length, take,
  drop, arith, le→ltb, take-append, drop-append, drop-drop,
}
use codboz_nx_online.Go.Bytes.{contains_byte, index_byte, index_byte-append, index_byte_absent}
use codboz_nx_online.Bitdemon.ByteBuffer.{Error, type_string, type_blob, max_uint32}
use codboz_nx_online.Go.Reading.{◌>>=◌}
use codboz_nx_online.Bitdemon.ByteBuffer.Reader.{
  ByteReader, Read, read, read_uint32, read_string, read_blob, remainder, cut_string, expect,
  check_length,
}
use codboz_nx_online.Bitdemon.ByteBuffer.Encoding.{tag, string_bytes, blob_bytes, uint32_bytes}
use codboz_nx_online.Bitdemon.ByteBuffer.RoundTrip.{
  Ready, Yields, bind-Yields, restoring-Yields, read-Yields, expect-Yields, read_uint32-Yields,
}

cut_string-Yields :
    (checked : Bool) (max : ℕ) (v rest : List ℕ) (r : ByteReader)
    → contains_byte 0 v ≡ false
    → length v ≤ max
    → Ready checked (v ++ 0 ∷ rest) r
    → Yields checked v rest (cut_string max (index_byte 0 (remainder r)) r)
unfolding cut_string remainder
cut_string-Yields checked max v rest r clean short (at, mode) =
    let found = ap (index_byte 0) at ∙ index_byte-append 0 v rest (index_byte_absent 0 v clean) in
    (
      record r { offset = r.offset + (length v + 1) },
      rw (found, cut_string, le→ltb max (length v) short)
          (ground (arith, ap (take (length v)) at, take-append v (0 ∷ rest))),
      (
        sym (drop-drop r.offset (length v + 1) r.bytes)
            ∙ ap (drop (length v + 1)) at
            ∙ sym (drop-drop (length v) 1 (v ++ 0 ∷ rest))
            ∙ ap (drop 1) (drop-append v (0 ∷ rest)),
        mode,
      ),
    )

module _ (checked : Bool) (rest : List ℕ) (r : ByteReader) (max : ℕ) (v : List ℕ)
    (short : length v ≤ max) where
  pub read_string-Yields :
      contains_byte 0 v ≡ false
      → Ready checked (string_bytes checked v ++ rest) r
      → Yields checked v rest (read_string max r)
  unfolding read_string
  read_string-Yields clean (at, mode) =
      let text : List ℕ = v ++ 0 ∷ rest in
      let cut : Unit {0} → Read Error (List ℕ) =
        λ _ s. cut_string max (index_byte 0 (remainder s)) s in
      restoring-Yields checked v rest (expect type_string >>= cut) r (
        bind-Yields checked tt v text rest (expect type_string) cut r
          (expect-Yields checked type_string text r (
            at
                ∙ append_assoc (tag checked type_string) (v ++ 0 ∷ []) rest
                ∙ ap (λ l. tag checked type_string ++ l) (append_assoc v (0 ∷ []) rest),
            mode,
          ))
          (λ s. cut_string-Yields checked max v rest s clean short))

  pub read_blob-Yields :
      length v ≤ max_uint32
      → Ready checked (blob_bytes checked v ++ rest) r
      → Yields checked v rest (read_blob max r)
  unfolding read_blob
  read_blob-Yields fits (at, mode) =
      let sized : List ℕ = uint32_bytes checked (length v) in
      let take_body : ℕ → Read Error (List ℕ) = λ n. check_length max n >>= λ _. read n in
      let body : Unit {0} → Read Error (List ℕ) = λ _. read_uint32 >>= take_body in
      restoring-Yields checked v rest (expect type_blob >>= body) r (
        bind-Yields checked tt v (sized ++ (v ++ rest)) rest (expect type_blob) body r
          (expect-Yields checked type_blob (sized ++ (v ++ rest)) r (
            at
                ∙ append_assoc (tag checked type_blob) (sized ++ v) rest
                ∙ ap (λ l. tag checked type_blob ++ l) (append_assoc sized v rest),
            mode,
          ))
          (λ s ready.
            bind-Yields checked (length v) v (v ++ rest) rest read_uint32 take_body s
              (read_uint32-Yields checked (v ++ rest) s (length v) (omega arith) ready)
              (λ u ready'.
                unfold check_length in
                rw (le→ltb max (length v) short) (read-Yields checked v rest u ready'))))
