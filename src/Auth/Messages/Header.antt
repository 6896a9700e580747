-- ===== src/Auth/Messages/Header.antt =====
-- What the beginning and the end of a request give its parser.
use Prim.Native.Nat.{bit_and}
use codboz_nx_online.Base.{ℕ, ◌^◌, ◌<◌, ◌≡◌, refl, Bool, true, false, List, arith, ◌==◌}
use Prim.Native.Nat.{bit_and}
use codboz_nx_online.Go.Reading.{Gives, then-Gives}
use codboz_nx_online.Bitdemon.BitBuffer.{BitReader}
use codboz_nx_online.Bitdemon.BitBuffer.Copy.{falses}
use codboz_nx_online.Bitdemon.BitBuffer.Padding.{last}
use codboz_nx_online.Bitdemon.BitBuffer.Reads.{Ready, remaining_bits-length}
use codboz_nx_online.Auth.LobbySession.{boz_title_id}
use codboz_nx_online.Auth.Messages.{malformed_message, read_header, check_padding}
use codboz_nx_online.Bitdemon.BitBuffer.Requests.{header_bits, flag-Gives, number-Gives}

pub read_header-Gives :
    (seed : ℕ) (rest : List Bool) (r : BitReader)
    → seed < 2 ^ 32
    → Ready false (header_bits seed boz_title_id rest) r
    → Gives (Ready true rest) seed (read_header r)
unfolding read_header
read_header-Gives seed rest r small ready =
    then-Gives _ (flag-Gives malformed_message _ r ready) (λ s1 ready1.
      then-Gives _ (number-Gives malformed_message seed _ s1 small ready1) (λ s2 ready2.
        then-Gives _ (number-Gives malformed_message boz_title_id _ s2 (omega arith) ready2)
          (λ s3 ready3. (s3, refl, ready3))))

-- The five bits that fill the last byte are the padding that is checked.
pub check_padding-Gives :
    {E : Type 0} (checked : Bool) (e : E) (body : List ℕ) (r : BitReader)
    → (bit_and (last body) 0xf8 == 0) ≡ true
    → Ready checked (falses 5) r
    → Gives (Ready checked (falses 5)) tt (check_padding e body r)
unfolding check_padding
check_padding-Gives checked e body r clear ready =
    (r, rw (clear, remaining_bits-length checked (falses 5) r ready) refl, ready)
