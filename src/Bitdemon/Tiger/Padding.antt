-- ===== src/Bitdemon/Tiger/Padding.antt =====
-- tiger.go, tigerPad: the padded payload is cut into whole blocks and ends with its length.
use codboz_nx_online.Base.{
  ℕ, ◌+◌, ◌-◌, ◌*◌, ◌%◌, ◌<◌, ◌≤◌, ◌^◌, ◌≡◌, List, [], ◌∷◌, ◌++◌, length, replicate, take, drop,
  arith, length-append, length-replicate, append_assoc, drop-append, take-append,
}
use codboz_nx_online.Go.Binary.{le_bytes, le_value, length-le_bytes, le_value-le_bytes}
use codboz_nx_online.Bitdemon.Tiger.{tiger_pad}

-- The padded payload is a whole number of 64-byte blocks and at least 9 and at most 72 bytes longer
-- than the payload, so the loop of Tiger192 reads every word inside it. It begins with the payload
-- and the marker 1, and its last 8 bytes hold the number of bits of the payload, where that fits 64
-- bits.
pub tiger_pad_lem :
    (payload : List ℕ)
    → length payload * 8 < 2 ^ 64
    → (length (tiger_pad payload) % 64 ≡ 0)
      × (length payload + 9 ≤ length (tiger_pad payload))
      × (length (tiger_pad payload) ≤ length payload + 72)
      × (take (length payload + 1) (tiger_pad payload) ≡ payload ++ 1 ∷ [])
      × (le_value (drop (length (tiger_pad payload) - 8) (tiger_pad payload)) ≡ length payload * 8)
unfolding tiger_pad
tiger_pad_lem payload fits =
    let zero_count = (56 + 64 - (length payload + 1) % 64) % 64 in
    let zeros : List ℕ = replicate zero_count 0 in
    let bits : List ℕ = le_bytes 8 (length payload * 8) in
    let front : List ℕ = payload ++ (1 ∷ zeros) in
    ground (
      arith,
      length-append payload (1 ∷ (zeros ++ bits)),
      length-append payload (1 ∷ zeros),
      length-append payload (1 ∷ []),
      length-append zeros bits,
      length-replicate {A = ℕ} zero_count 0,
      length-le_bytes 8 (length payload * 8),
      append_assoc payload (1 ∷ []) (zeros ++ bits),
      append_assoc payload (1 ∷ zeros) bits,
      take-append (payload ++ 1 ∷ []) (zeros ++ bits),
      drop-append front bits,
      le_value-le_bytes 8 (length payload * 8),
    )
