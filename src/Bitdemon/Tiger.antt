-- ===== src/Bitdemon/Tiger.antt =====
-- internal/online/bitdemon/tiger.go: the Tiger hash in the variant of the game. The tables are the
-- decoded text of tiger_tables.go.
mod First
mod Second
mod Third
mod Fourth
pub mod Padding
use Prim.Native.Nat.{bit_xor}
use codboz_nx_online.Base.{
  ℕ, zero, suc, ◌+◌, ◌-◌, ◌*◌, ◌/◌, ◌%◌, List, [], ◌∷◌, ◌++◌, length, replicate, get_or, take, drop,
}
use codboz_nx_online.Go.Binary.{le_bytes, le_value}
use codboz_nx_online.Go.Word64.{add64, sub64, mul64, not64, shl64, shr64, byte_at}
use First.{s_box_0}
use Second.{s_box_1}
use Third.{s_box_2}
use Fourth.{s_box_3}

abbrev pub tiger_block_size : ℕ
tiger_block_size = 64

abbrev pub tiger_digest_size : ℕ
tiger_digest_size = 24

-- The three words that the rounds change, a, b and c.
pub record Triple : Type 0 where
  pub a : ℕ
  pub b : ℕ
  pub c : ℕ

pub record Words : Type 0 where
  pub w0 : ℕ
  pub w1 : ℕ
  pub w2 : ℕ
  pub w3 : ℕ
  pub w4 : ℕ
  pub w5 : ℕ
  pub w6 : ℕ
  pub w7 : ℕ

unfoldable pub tiger_round : Triple → ℕ → ℕ → Triple
unfolding sub64 add64 mul64 byte_at
tiger_round t word multiplier =
    let value = bit_xor t.c word in
    let even : ℕ =
      bit_xor
        (bit_xor
          (bit_xor (get_or s_box_0 (byte_at value 0) 0) (get_or s_box_1 (byte_at value 16) 0))
          (get_or s_box_2 (byte_at value 32) 0))
        (get_or s_box_3 (byte_at value 48) 0) in
    let odd : ℕ =
      bit_xor
        (bit_xor
          (bit_xor (get_or s_box_3 (byte_at value 8) 0) (get_or s_box_2 (byte_at value 24) 0))
          (get_or s_box_1 (byte_at value 40) 0))
        (get_or s_box_0 (byte_at value 56) 0) in
    record { a = sub64 t.a even; b = mul64 (add64 t.b odd) multiplier; c = value }

-- A call with the pointers in the order (b, c, a), and one in the order (c, a, b), come back under
-- the names that the caller uses.
abbrev to_bca : Triple → Triple
to_bca t = record { a = t.b; b = t.c; c = t.a }

abbrev to_cab : Triple → Triple
to_cab t = record { a = t.c; b = t.a; c = t.b }

unfoldable pub round_bca : Triple → ℕ → ℕ → Triple
unfolding tiger_round
round_bca t word multiplier = to_cab (tiger_round (to_bca t) word multiplier)

unfoldable pub round_cab : Triple → ℕ → ℕ → Triple
unfolding tiger_round
round_cab t word multiplier = to_bca (tiger_round (to_cab t) word multiplier)

unfoldable pub tiger_pass : Triple → Words → ℕ → Triple
unfolding tiger_round round_bca round_cab
tiger_pass t words multiplier =
    let t0 = tiger_round t words.w0 multiplier in
    let t1 = round_bca t0 words.w1 multiplier in
    let t2 = round_cab t1 words.w2 multiplier in
    let t3 = tiger_round t2 words.w3 multiplier in
    let t4 = round_bca t3 words.w4 multiplier in
    let t5 = round_cab t4 words.w5 multiplier in
    let t6 = tiger_round t5 words.w6 multiplier in round_bca t6 words.w7 multiplier

unfoldable pub tiger_key_schedule : Words → Words
unfolding sub64 add64 not64 shl64 shr64
tiger_key_schedule w =
    let a0 = sub64 w.w0 (bit_xor w.w7 0xa5a5a5a5a5a5a5a5) in
    let a1 = bit_xor w.w1 a0 in
    let a2 = add64 w.w2 a1 in
    let a3 = sub64 w.w3 (bit_xor a2 (shl64 (not64 a1) 19)) in
    let a4 = bit_xor w.w4 a3 in
    let a5 = add64 w.w5 a4 in
    let a6 = sub64 w.w6 (bit_xor a5 (shr64 (not64 a4) 23)) in
    let a7 = bit_xor w.w7 a6 in
    let b0 = add64 a0 a7 in
    let b1 = sub64 a1 (bit_xor b0 (shl64 (not64 a7) 19)) in
    let b2 = bit_xor a2 b1 in
    let b3 = add64 a3 b2 in
    let b4 = sub64 a4 (bit_xor b3 (shr64 (not64 b2) 23)) in
    let b5 = bit_xor a5 b4 in
    let b6 = add64 a6 b5 in
    let b7 = sub64 a7 (bit_xor b6 0x0123456789abcdef) in
    record { w0 = b0; w1 = b1; w2 = b2; w3 = b3; w4 = b4; w5 = b5; w6 = b6; w7 = b7 }

unfoldable pub tiger_compress : Triple → Words → Triple
unfolding tiger_pass tiger_key_schedule sub64 add64
tiger_compress t words =
    let p1 = tiger_pass t words 5 in
    let k1 = tiger_key_schedule words in
    let p2 = to_bca (tiger_pass (to_cab p1) k1 7) in
    let k2 = tiger_key_schedule k1 in
    let p3 = to_cab (tiger_pass (to_bca p2) k2 9) in
    record { a = bit_xor p3.a t.a; b = sub64 p3.b t.b; c = add64 p3.c t.c }

unfoldable pub tiger_pad : List ℕ → List ℕ
tiger_pad payload =
    let length_with_marker = length payload + 1 in
    let zero_count =
      (56 + tiger_block_size - length_with_marker % tiger_block_size) % tiger_block_size in
    payload ++ (1 ∷ (replicate zero_count 0 ++ le_bytes 8 (length payload * 8)))

-- `words` from the bytes of a block on.
unfoldable pub block_words : List ℕ → Words
block_words bs = record {
  w0 = le_value (take 8 bs);
  w1 = le_value (take 8 (drop 8 bs));
  w2 = le_value (take 8 (drop 16 bs));
  w3 = le_value (take 8 (drop 24 bs));
  w4 = le_value (take 8 (drop 32 bs));
  w5 = le_value (take 8 (drop 40 bs));
  w6 = le_value (take 8 (drop 48 bs));
  w7 = le_value (take 8 (drop 56 bs));
}

-- The loop over the offsets, for the number of blocks that are left.
unfoldable pub tiger_blocks : ℕ → List ℕ → Triple → Triple
unfolding tiger_compress block_words
tiger_blocks zero padded t = t
tiger_blocks (suc n) padded t =
    tiger_blocks n (drop tiger_block_size padded) (tiger_compress t (block_words padded))

abbrev pub tiger_start : Triple
tiger_start = record { a = 0x0123456789abcdef; b = 0xfedcba9876543210; c = 0xf096a5b4c3b2e187 }

unfoldable pub tiger192 : List ℕ → List ℕ
unfolding tiger_pad tiger_blocks
tiger192 payload =
    let padded = tiger_pad payload in
    let t = tiger_blocks (length padded / tiger_block_size) padded tiger_start in
    le_bytes 8 t.a ++ (le_bytes 8 t.b ++ le_bytes 8 t.c)
