-- ===== src/Auth/AccountForMmp/Replies.antt =====
-- account_for_mmp.go: the size of the reply with a ticket.
use codboz_nx_online.Base.{
  ℕ, ◌+◌, ◌*◌, ◌≡◌, refl, ap, ◌∙◌, List, [], ◌∷◌, ◌++◌, true, false, length, arith, length-append,
  length-replicate,
}
use codboz_nx_online.Go.Bits.{bits, byte_bits, test_bit, length-bits}
use codboz_nx_online.Bitdemon.BitBuffer.{new_bit_writer}
use codboz_nx_online.Bitdemon.BitBuffer.Copy.{falses}
use codboz_nx_online.Bitdemon.BitBuffer.Requests.{uint32_bits-length}
use codboz_nx_online.Bitdemon.BitBuffer.Writes.{
  Item, flag, mode, uint8, uint32, raw, item_bits, items_bits, write_items, write_item,
  write_items-items_bits,
}
use codboz_nx_online.Auth.AccountForMmp.{ticket_reply_body}

abbrev reply_items : ℕ → List ℕ → List Item
reply_items seed ticket =
    uint8 0x0b ∷ mode true ∷ flag ∷ uint32 700 ∷ uint32 seed ∷ mode false ∷ raw ticket ∷ []

reply_items-written :
    (seed : ℕ) (ticket : List ℕ)
    → ticket_reply_body seed ticket
      ≡ 0 ∷ (write_items (reply_items seed ticket) (new_bit_writer false)).written
unfolding ticket_reply_body write_items write_item
reply_items-written seed ticket = refl

reply_bits-length :
    (seed : ℕ) (ticket : List ℕ)
    → length (items_bits false (reply_items seed ticket)) ≡ 83 + 8 * length ticket
unfolding bits byte_bits test_bit
reply_bits-length seed ticket = omega (
  arith,
  uint32_bits-length 700,
  uint32_bits-length seed,
  length-append (item_bits true (uint32 700)) (item_bits true (uint32 seed) ++ (bits ticket ++ [])),
  length-append (item_bits true (uint32 seed)) (bits ticket ++ []),
  length-append (bits ticket) [],
  length-bits ticket,
)

-- The bits of the reply fill its bytes but the last five bits.
pub length-ticket_reply_body :
    (seed : ℕ) (ticket : List ℕ) → length (ticket_reply_body seed ticket) ≡ 12 + length ticket
length-ticket_reply_body seed ticket =
    let items = reply_items seed ticket in
    let (b, wrote) = write_items-items_bits false items in
    let h = wrote.held in
    ap length (reply_items-written seed ticket)
    ∙ omega (
      arith,
      h.few,
      reply_bits-length seed ticket,
      length-bits (write_items items (new_bit_writer false)).written,
      ap length h.shown,
      length-append (items_bits false items) (falses h.spare),
      length-replicate h.spare false,
    )
