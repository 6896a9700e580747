-- ===== src/Bitdemon/BitBuffer/Writes.antt =====
-- bitbuffer.go: what a BitWriter has written, as a list of bits.
use codboz_nx_online.Base.{
  ℕ, ◌*◌, ◌≤◌, ◌≡◌, refl, sym, subst, Bool, true, false, List, [], ◌∷◌, ◌++◌, append_assoc,
  append-nil, length, take, take_all, arith, if◌then◌else◌, if_true, if_false, length-append,
  length-take,
}
use codboz_nx_online.Go.Binary.{le_bytes, length-le_bytes}
use codboz_nx_online.Go.Bits.{bits, byte_bits, test_bit, length-bits}
use codboz_nx_online.Bitdemon.ByteBuffer.{type_uint8, type_uint32}
use codboz_nx_online.Bitdemon.BitBuffer.{
  BitWriter, new_bit_writer, write_bits, set_type_checked, write_type_checked_flag, write_raw,
  write_type, write_uint8, write_uint32,
}
use codboz_nx_online.Bitdemon.BitBuffer.Copy.{Holds, write_loop-Holds}

-- The five bits of a type tag, in the checked mode.
abbrev pub tag_bits : Bool → ℕ → List Bool
tag_bits checked t = if checked then take 5 (bits (t ∷ [])) else []

-- A call of the writer. `flag` writes the mode that is set.
pub data Item : Type 0 where
  flag : Item
  mode : Bool → Item
  uint8 uint32 : ℕ → Item
  raw : List ℕ → Item

-- The stream that the calls describe: each appends the bits of its value.
abbrev pub item_bits : Bool → Item → List Bool
item_bits checked flag = checked ∷ []
item_bits checked (mode b) = []
item_bits checked (uint8 n) = tag_bits checked type_uint8 ++ bits (n ∷ [])
item_bits checked (uint32 n) = tag_bits checked type_uint32 ++ bits (le_bytes 4 n)
item_bits checked (raw bytes) = bits bytes

abbrev pub mode_after : Bool → Item → Bool
mode_after checked (mode b) = b
mode_after checked flag = checked
mode_after checked (uint8 n) = checked
mode_after checked (uint32 n) = checked
mode_after checked (raw bytes) = checked

abbrev pub items_bits : Bool → List Item → List Bool
items_bits checked [] = []
items_bits checked (x ∷ xs) = item_bits checked x ++ items_bits (mode_after checked x) xs

unfoldable pub write_item : Item → BitWriter → BitWriter
write_item flag w = write_type_checked_flag w
write_item (mode b) w = set_type_checked b w
write_item (uint8 n) w = write_uint8 n w
write_item (uint32 n) w = write_uint32 n w
write_item (raw bytes) w = write_raw bytes w

unfoldable pub write_items : List Item → BitWriter → BitWriter
write_items [] w = w
write_items (x ∷ xs) w = write_items xs (write_item x w)

-- The writer has written exactly these bits, in this mode.
pub record Wrote (checked : Bool) (xs : List Bool) (w : BitWriter) : Type 0 where
  pub held : Holds xs w.written
  pub counted : w.bit_offset ≡ length xs
  pub moded : w.type_checked ≡ checked

write_bits-Wrote :
    (checked : Bool) (xs : List Bool) (value : List ℕ) (count : ℕ) (w : BitWriter)
    → count ≤ 8 * length value
    → Wrote checked xs w
    → Wrote checked (xs ++ take count (bits value)) (write_bits value count w)
unfolding write_bits
write_bits-Wrote checked xs value count w enough wrote = record {
  held =
      write_loop-Holds count 0 xs value w.bit_offset w.written (omega arith)
        (omega (arith, wrote.counted)) wrote.held;
  counted = omega (
    arith,
    wrote.counted,
    length-append xs (take count (bits value)),
    length-take count (bits value),
    length-bits value,
  );
  moded = wrote.moded;
}

-- A value that is written whole.
whole-Wrote :
    (checked : Bool) (xs : List Bool) (value : List ℕ) (count : ℕ) (w : BitWriter)
    → count ≡ 8 * length value
    → Wrote checked xs w
    → Wrote checked (xs ++ bits value) (write_bits value count w)
whole-Wrote checked xs value count w size wrote =
    subst (λ l. Wrote checked (xs ++ l) (write_bits value count w))
      (take_all count (bits value) (omega (arith, length-bits value)))
      (write_bits-Wrote checked xs value count w (omega arith) wrote)

write_type-Wrote :
    (checked : Bool) (xs : List Bool) (t : ℕ) (w : BitWriter)
    → Wrote checked xs w
    → Wrote checked (xs ++ tag_bits checked t) (write_type t w)
unfolding write_type
write_type-Wrote true xs t w wrote =
    subst (Wrote true (xs ++ tag_bits true t))
      (sym (if_true w.type_checked (write_bits (t ∷ []) 5 w) w wrote.moded))
      (write_bits-Wrote true xs (t ∷ []) 5 w (omega arith) wrote)
write_type-Wrote false xs t w wrote =
    subst (Wrote false (xs ++ []))
      (sym (if_false w.type_checked (write_bits (t ∷ []) 5 w) w wrote.moded))
      (subst (λ l. Wrote false l w) (sym (append-nil xs)) wrote)

tagged-Wrote :
    (checked : Bool) (xs : List Bool) (t : ℕ) (value : List ℕ) (count : ℕ) (w : BitWriter)
    → count ≡ 8 * length value
    → Wrote checked xs w
    → Wrote checked
        (xs ++ (tag_bits checked t ++ bits value))
        (write_bits value count (write_type t w))
tagged-Wrote checked xs t value count w size wrote =
    subst (λ l. Wrote checked l (write_bits value count (write_type t w)))
      (append_assoc xs (tag_bits checked t) (bits value))
      (whole-Wrote checked (xs ++ tag_bits checked t) value count (write_type t w) size
        (write_type-Wrote checked xs t w wrote))

flag-Wrote :
    (checked : Bool) (xs : List Bool) (w : BitWriter)
    → Wrote checked xs w
    → Wrote checked (xs ++ checked ∷ []) (write_type_checked_flag w)
unfolding write_type_checked_flag bits byte_bits test_bit
flag-Wrote true xs w wrote =
    subst (Wrote true (xs ++ true ∷ []))
      (sym (if_true w.type_checked (write_bits (1 ∷ []) 1 w) (write_bits (0 ∷ []) 1 w) wrote.moded))
      (write_bits-Wrote true xs (1 ∷ []) 1 w (omega arith) wrote)
flag-Wrote false xs w wrote =
    subst (Wrote false (xs ++ false ∷ []))
      (sym
        (if_false w.type_checked (write_bits (1 ∷ []) 1 w) (write_bits (0 ∷ []) 1 w) wrote.moded))
      (write_bits-Wrote false xs (0 ∷ []) 1 w (omega arith) wrote)

item-Wrote :
    (checked : Bool) (xs : List Bool) (x : Item) (w : BitWriter)
    → Wrote checked xs w
    → Wrote (mode_after checked x) (xs ++ item_bits checked x) (write_item x w)
unfolding write_item
item-Wrote checked xs flag w wrote = flag-Wrote checked xs w wrote
item-Wrote checked xs (mode b) w wrote =
    subst (λ l. Wrote b l (set_type_checked b w)) (sym (append-nil xs))
      (unfold set_type_checked in
        record { held = wrote.held; counted = wrote.counted; moded = refl })
item-Wrote checked xs (uint8 n) w wrote =
    unfold write_uint8 in tagged-Wrote checked xs type_uint8 (n ∷ []) 8 w (omega arith) wrote
item-Wrote checked xs (uint32 n) w wrote =
    unfold write_uint32 in
    tagged-Wrote checked xs type_uint32 (le_bytes 4 n) 32 w (omega (arith, length-le_bytes 4 n))
      wrote
item-Wrote checked xs (raw bytes) w wrote =
    unfold write_raw in whole-Wrote checked xs bytes (8 * length bytes) w refl wrote

items-Wrote :
    (checked : Bool) (xs : List Bool) (items : List Item) (w : BitWriter)
    → Wrote checked xs w
    → (b : Bool) × Wrote b (xs ++ items_bits checked items) (write_items items w)
unfolding write_items
items-Wrote checked xs [] w wrote =
    (checked, subst (λ l. Wrote checked l w) (sym (append-nil xs)) wrote)
items-Wrote checked xs (x ∷ items) w wrote =
    let (b, rest) =
      items-Wrote (mode_after checked x) (xs ++ item_bits checked x) items (write_item x w)
        (item-Wrote checked xs x w wrote) in
    (
      b,
      subst (λ l. Wrote b l (write_items items (write_item x w)))
          (append_assoc xs (item_bits checked x) (items_bits (mode_after checked x) items)) rest,
    )

-- A BitWriter refines the append-only list of bits: after any calls from a new writer, in either
-- mode, its bytes are the bits of the values written, each behind its type tag where the mode asks
-- for one, packed from the lowest bit of each byte on and filled by fewer than 8 zeros; and the
-- offset is their number.
pub write_items-items_bits :
    (checked : Bool) (items : List Item)
    → (b : Bool) × Wrote b (items_bits checked items) (write_items items (new_bit_writer checked))
unfolding new_bit_writer bits
write_items-items_bits checked items =
    items-Wrote checked [] items (new_bit_writer checked) (record {
      held = record { spare = 0; few = omega arith; shown = refl; valid = tt };
      counted = refl;
      moded = refl;
    })
