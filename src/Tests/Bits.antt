-- ===== src/Tests/Bits.antt =====
-- The bit buffer and the messages that are made of it, at concrete inputs.
use codboz_nx_online.Base.{
  ℕ, ◌≡◌, refl, true, false, Bool, List, [], ◌∷◌, replicate, All, every, ltb, arith, ok,
}
use codboz_nx_online.Go.Binary.{IsByte}
use codboz_nx_online.Bitdemon.BitBuffer.{new_bit_writer}
use codboz_nx_online.Bitdemon.BitBuffer.Writes.{
  Item, flag, mode, uint8, uint32, raw, items_bits, write_items, Wrote, write_items-items_bits,
}
use codboz_nx_online.Auth.AccountForMmp.{parse_account_for_mmp_body}
use codboz_nx_online.Auth.AccountForMmp.Requests.{
  request_body, requested, parse_account_for_mmp_body-request_body,
}
use codboz_nx_online.Auth.CreateAccount.{parse_create_account_body}
use codboz_nx_online.Auth.CreateAccount.Requests
use codboz_nx_online.Auth.CreateAccount.Requests.{
  sealed_block, parse_create_account_body-request_body,
}
use codboz_nx_online.Lobby.Login.{parse_lsg_login_body}
use codboz_nx_online.Lobby.Login.Requests.{login_body, logged_in, parse_lsg_login_body-login_body}
use codboz_nx_online.Tests.Bitdemon.{plain, plain-IsCbc, session_key}
use codboz_nx_online.Go.Binary.{le_bytes}

abbrev calls : List Item
calls = flag ∷ uint32 70 ∷ mode false ∷ uint8 9 ∷ raw (1 ∷ 2 ∷ []) ∷ []

write_items-items_bits_example :
    (b : Bool) × Wrote b (items_bits true calls) (write_items calls (new_bit_writer true))
write_items-items_bits_example = write_items-items_bits true calls

parse_account_for_mmp_body-request_body_example :
    parse_account_for_mmp_body (request_body 70 99) ≡ ok (requested 70 99)
parse_account_for_mmp_body-request_body_example =
    parse_account_for_mmp_body-request_body 70 99 (omega arith) (omega arith)

abbrev player : List ℕ
player = b'b' ∷ b'o' ∷ b'z' ∷ []

pub are_bytes : (xs : List ℕ) → every (λ b. ltb b 256) xs ≡ true → All IsByte xs
are_bytes [] h = tt
are_bytes (x ∷ xs) h = (ground arith, are_bytes xs (ground arith))

block_bytes : All IsByte (sealed_block plain 70 player session_key)
unfolding le_bytes
block_bytes = are_bytes (sealed_block plain 70 player session_key) refl

parse_create_account_body-request_body_example :
    parse_create_account_body plain
      (Requests.request_body 70 (sealed_block plain 70 player session_key))
    ≡ ok (record {
      iv_seed = 70;
      title_id = 18436;
      license_hash = 0;
      username = player;
      password_hash = session_key;
    })
parse_create_account_body-request_body_example =
    parse_create_account_body-request_body plain 70 player session_key plain-IsCbc (omega arith)
      (omega arith) (omega arith) refl refl block_bytes

parse_lsg_login_body-login_body_example :
    parse_lsg_login_body (login_body 70 (replicate 128 0)) ≡ ok (logged_in 70 (replicate 128 0))
parse_lsg_login_body-login_body_example =
    parse_lsg_login_body-login_body 70 (replicate 128 0) (omega arith)
      (are_bytes (replicate 128 0) refl) refl
