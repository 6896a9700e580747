-- ===== src/Bitdemon/BitBuffer/Copy.antt =====
-- bitbuffer.go: the loops copy bits. A buffer is read as the list of its bits.
use codboz_nx_online.Base.{
  ℕ, zero, suc, ◌+◌, ◌*◌, ◌/◌, ◌≤◌, ◌<◌, ◌≡◌, refl, sym, ap, ◌∙◌, Bool, true, false, List, [], ◌∷◌,
  ◌++◌, append_assoc, append-nil, length, take, drop, replicate, get_or, set, All, All-append,
  arith, subst, ◌==◌, length-append, length-replicate,
}
use codboz_nx_online.Go.Binary.{IsByte}
use codboz_nx_online.Go.Bits.{
  bits, byte_bits, test_bit, bit_at, length-bits, bits-append, bit_at-bits, bits-set_at,
}
use codboz_nx_online.Bitdemon.BitBuffer.{mark, grow, write_loop, read_loop}

abbrev pub falses : ℕ → List Bool
falses n = replicate n false

set-append : (xs ys : List Bool) → set (xs ++ false ∷ ys) (length xs) true ≡ xs ++ true ∷ ys
set-append [] ys = refl
set-append (x ∷ xs) ys = ap (λ l. x ∷ l) (set-append xs ys)

-- The bits of the buffer are these, and its bytes are bytes.
abbrev pub Shows : List Bool → List ℕ → Type 0
Shows xs buffer = (bits buffer ≡ xs) × All IsByte buffer

-- One round: the bit behind the copied ones is still clear, and becomes `b`.
pub mark-Shows :
    (b : Bool) (xs ys : List Bool) (buffer : List ℕ)
    → Shows (xs ++ false ∷ ys) buffer
    → Shows (xs ++ b ∷ ys) (mark b (length xs) buffer)
mark-Shows false xs ys buffer shows = shows
mark-Shows true xs ys buffer (e, valid) =
    let inside : length xs < 8 * length buffer =
      omega (arith, length-bits buffer, ap length e, length-append xs (false ∷ ys)) in
    let (marked, valid') = bits-set_at buffer (length xs) valid inside in
    (marked ∙ ap (λ l. set l (length xs) true) e ∙ set-append xs ys, valid')

-- The next bit to copy, and those behind it.
pub take-suc :
    (n i : ℕ) (xs : List Bool)
    → i < length xs
    → take (suc n) (drop i xs) ≡ get_or xs i false ∷ take n (drop (i + 1) xs)
take-suc n i [] h = absurd (omega arith)
take-suc n zero (x ∷ xs) h = refl
take-suc n (suc i) (x ∷ xs) h =
    let e : suc i + 1 ≡ suc (i + 1) = omega arith in
    take-suc n i xs (omega arith) ∙ ap (λ j. get_or xs i false ∷ take n (drop j (x ∷ xs))) (sym e)

append-cons : (xs : List Bool) (b : Bool) (ys : List Bool) → xs ++ b ∷ ys ≡ (xs ++ b ∷ []) ++ ys
append-cons xs b ys = sym (append_assoc xs (b ∷ []) ys)

pub length-snoc : (xs : List Bool) (b : Bool) → length (xs ++ b ∷ []) ≡ length xs + 1
length-snoc xs b = length-append xs (b ∷ [])

-- The bits of `source` from `i` on, `n` of them, behind what was copied before.
abbrev pub copied : List Bool → ℕ → ℕ → List ℕ → List Bool
copied xs n i source = xs ++ take n (drop i (bits source))

pub copied-suc :
    (xs : List Bool) (n i : ℕ) (source : List ℕ)
    → i < 8 * length source
    → copied xs (suc n) i source ≡ copied (xs ++ bit_at source i ∷ []) n (i + 1) source
copied-suc xs n i source h =
    ap (λ l. xs ++ l) (take-suc n i (bits source) (omega (arith, length-bits source)))
    ∙ ap (λ b. xs ++ b ∷ take n (drop (i + 1) (bits source))) (sym (bit_at-bits source i h))
    ∙ append-cons xs (bit_at source i) (take n (drop (i + 1) (bits source)))

-- readBits into a buffer of zeros: behind the copied bits there are only zeros.
pub read_loop-Shows :
    (n : ℕ) (xs : List Bool) (k : ℕ) (source : List ℕ) (offset : ℕ) (result : List ℕ)
    → offset + length xs + n ≤ 8 * length source
    → Shows (xs ++ falses (n + k)) result
    → Shows
        (copied xs n (offset + length xs) source ++ falses k)
        (read_loop n (length xs) source offset result)
unfolding read_loop
read_loop-Shows zero xs k source offset result inside (e, valid) =
    let same : zero + k ≡ k = omega arith in
    (e ∙ ap (λ j. xs ++ falses j) same ∙ ap (λ l. l ++ falses k) (sym (append-nil xs)), valid)
read_loop-Shows (suc n) xs k source offset result inside (e, valid) =
    let i = offset + length xs in
    let b = bit_at source i in
    let count : suc n + k ≡ suc (n + k) = omega arith in
    let marked =
      mark-Shows b xs (falses (n + k)) result (e ∙ ap (λ j. xs ++ falses j) count, valid) in
    let behind = length-snoc xs b in
    let next : offset + length (xs ++ b ∷ []) ≡ i + 1 = omega (arith, behind) in
    let rest =
      read_loop-Shows n (xs ++ b ∷ []) k source offset (mark b (length xs) result)
        (omega (arith, behind)) (marked.0 ∙ append-cons xs b (falses (n + k)), marked.1) in
    let out = λ (l : ℕ). read_loop n l source offset (mark b (length xs) result) in
    (
      ap (λ l. bits (out l)) (sym behind)
          ∙ rest.0
          ∙ ap (λ j. copied (xs ++ b ∷ []) n j source ++ falses k) next
          ∙ ap (λ l. l ++ falses k) (sym (copied-suc xs n i source (omega arith))),
      subst (λ l. All IsByte (out l)) behind rest.1,
    )

-- What a writer's buffer holds: the bits written, and at most 7 zeros that fill the last byte.
pub record Holds (xs : List Bool) (buffer : List ℕ) : Type 0 where
  pub spare : ℕ
  pub few : spare < 8
  pub shown : bits buffer ≡ xs ++ falses spare
  pub valid : All IsByte buffer

grown-Shows :
    (xs : List Bool) (buffer : List ℕ) (m : ℕ)
    → m < 8
    → Shows (xs ++ falses m) buffer
    → (k : ℕ) × (k < 8) × Shows (xs ++ false ∷ falses k) (grow (length xs) buffer)
unfolding bits byte_bits test_bit
grown-Shows xs buffer zero small (e, valid) =
    let size : 8 * length buffer ≡ length xs =
      omega (arith, length-bits buffer, ap length e, length-append xs []) in
    let full : (length xs / 8 == length buffer) ≡ true = ground arith in
    rw full (
      7,
      omega arith,
      (
        bits-append buffer (0 ∷ []) ∙ ap (λ l. l ++ falses 8) (e ∙ append-nil xs),
        All-append IsByte buffer (0 ∷ []) valid (omega arith, tt),
      ),
    )
grown-Shows xs buffer (suc m) small (e, valid) =
    let size : 8 * length buffer ≡ length xs + suc m = omega (
      arith,
      length-bits buffer,
      ap length e,
      length-append xs (falses (suc m)),
      length-replicate (suc m) false,
    ) in
    let room : (length xs / 8 == length buffer) ≡ false = ground arith in
    rw room (m, omega arith, (e, valid))

-- writeBits: the bits of the value follow those written before.
pub write_loop-Holds :
    (n i : ℕ) (xs : List Bool) (value : List ℕ) (offset : ℕ) (buffer : List ℕ)
    → i + n ≤ 8 * length value
    → offset + i ≡ length xs
    → Holds xs buffer
    → Holds (copied xs n i value) (write_loop n i value offset buffer)
unfolding write_loop
write_loop-Holds zero i xs value offset buffer inside at h =
    subst (λ l. Holds l buffer) (sym (append-nil xs)) h
write_loop-Holds (suc n) i xs value offset buffer inside at h =
    let b = bit_at value i in
    let (k, small, shows) = grown-Shows xs buffer h.spare h.few (h.shown, h.valid) in
    let (e, valid) = mark-Shows b xs (falses k) (grow (length xs) buffer) shows in
    let marked : Holds (xs ++ b ∷ []) (mark b (length xs) (grow (length xs) buffer)) = record {
      spare = k;
      few = small;
      shown = e ∙ append-cons xs b (falses k);
      valid = valid;
    } in
    let here = subst (λ j. Holds (xs ++ b ∷ []) (mark b j (grow j buffer))) (sym at) marked in
    let rest =
      write_loop-Holds n (i + 1) (xs ++ b ∷ []) value offset
        (mark b (offset + i) (grow (offset + i) buffer)) (omega arith)
        (omega (arith, length-snoc xs b)) here in
    subst
      (λ l.
        Holds l
          (write_loop n (i + 1) value offset (mark b (offset + i) (grow (offset + i) buffer))))
      (sym (copied-suc xs n i value (omega arith))) rest
