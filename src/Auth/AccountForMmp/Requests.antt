-- ===== src/Auth/AccountForMmp/Requests.antt =====
-- account_for_mmp.go: a request that a client writes is parsed to what went in.
use Prim.Native.Nat.{bit_and}
use codboz_nx_online.Base.{
  ℕ, ◌*◌, ◌^◌, ◌<◌, ◌≡◌, refl, ap, ◌∙◌, subst, true, false, List, [], ◌∷◌, ◌++◌, append-nil, arith,
  ◌==◌, length, ok,
}
use codboz_nx_online.Go.Binary.{le_bytes, length-le_bytes}
use codboz_nx_online.Go.Bits.{bits, length-bits}
use codboz_nx_online.Go.Reading.{Gives, wrap-Gives, then-Gives}
use codboz_nx_online.Bitdemon.BitBuffer.{BitReader, new_bit_reader, read_uint64}
use codboz_nx_online.Bitdemon.BitBuffer.Copy.{falses}
use codboz_nx_online.Bitdemon.BitBuffer.Padding.{last}
use codboz_nx_online.Bitdemon.BitBuffer.Reads.{Ready, read_uint64-Gives, set_reading_mode-Gives}
use codboz_nx_online.Bitdemon.BitBuffer.Writes.{Item, mode, raw}
use codboz_nx_online.Auth.LobbySession.{boz_title_id}
use codboz_nx_online.Auth.Messages.{malformed_message}
use codboz_nx_online.Bitdemon.BitBuffer.Requests.{header_bits, request_buffer, request_buffer-Ready}
use codboz_nx_online.Auth.Messages.Header.{read_header-Gives, check_padding-Gives}
use codboz_nx_online.Auth.AccountForMmp.{
  AccountForMmpRequest, account_for_mmp_fields, parse_account_for_mmp_body,
}

abbrev pub hash_items : ℕ → List Item
hash_items account_hash = mode false ∷ raw (le_bytes 8 account_hash) ∷ []

abbrev pub request_body : ℕ → ℕ → List ℕ
request_body seed account_hash =
    0 ∷ 0x0a ∷ request_buffer seed boz_title_id (hash_items account_hash)

abbrev pub requested : ℕ → ℕ → AccountForMmpRequest
requested seed account_hash = record {
  iv_seed = seed;
  title_id = boz_title_id;
  account_hash = account_hash;
}

account_for_mmp_fields-Gives :
    (seed account_hash : ℕ) (body : List ℕ) (r : BitReader)
    → seed < 2 ^ 32
    → account_hash < 2 ^ 64
    → (bit_and (last body) 0xf8 == 0) ≡ true
    → Ready false (header_bits seed boz_title_id (bits (le_bytes 8 account_hash) ++ falses 5)) r
    → Gives (Ready false (falses 5)) (requested seed account_hash) (account_for_mmp_fields body r)
unfolding account_for_mmp_fields
account_for_mmp_fields-Gives seed account_hash body r small short clear ready =
    then-Gives _ (read_header-Gives seed _ r small ready) (λ s1 ready1.
      then-Gives _ (set_reading_mode-Gives true false _ s1 ready1) (λ s2 ready2.
        then-Gives _
          (wrap-Gives (λ _. malformed_message) (Ready false (falses 5)) account_hash read_uint64 s2
            (read_uint64-Gives false account_hash (falses 5) s2 short ready2))
          (λ s3 ready3.
            then-Gives _ (check_padding-Gives false malformed_message body s3 clear ready3)
              (λ s4 ready4. (s4, refl, ready4)))))

hash_bits-length : (account_hash : ℕ) → length (bits (le_bytes 8 account_hash) ++ []) ≡ 64
hash_bits-length account_hash =
    ap length (append-nil (bits (le_bytes 8 account_hash)))
    ∙ length-bits (le_bytes 8 account_hash)
    ∙ ap (λ k. 8 * k) (length-le_bytes 8 account_hash)

whole_body :
    (body : List ℕ)
    → length body ≡ 18
    → parse_account_for_mmp_body (0 ∷ 0x0a ∷ body)
      ≡ (account_for_mmp_fields (0 ∷ 0x0a ∷ body) (new_bit_reader body)).0
unfolding parse_account_for_mmp_body
whole_body body size = rw (size) refl

-- A request that a BitWriter writes from a seed and an account hash that fit their fields is parsed to these two and the title.
pub parse_account_for_mmp_body-request_body :
    (seed account_hash : ℕ)
    → seed < 2 ^ 32
    → account_hash < 2 ^ 64
    → parse_account_for_mmp_body (request_body seed account_hash) ≡ ok (requested seed account_hash)
parse_account_for_mmp_body-request_body seed account_hash small short =
    let buffer = request_buffer seed boz_title_id (hash_items account_hash) in
    let hash = bits (le_bytes 8 account_hash) in
    let size = hash_bits-length account_hash in
    let (filled, clear, ready) =
      request_buffer-Ready 0x0a seed boz_title_id (hash_items account_hash) (omega (arith, size)) in
    let (r, e, done) =
      account_for_mmp_fields-Gives seed account_hash (0 ∷ 0x0a ∷ buffer) (new_bit_reader buffer)
        small short clear
        (subst
          (λ l. Ready false (header_bits seed boz_title_id (l ++ falses 5)) (new_bit_reader buffer))
          (append-nil hash) ready) in
    whole_body buffer (omega (arith, size, filled)) ∙ ap (λ out. out.0) e
