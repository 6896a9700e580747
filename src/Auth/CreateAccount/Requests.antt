-- ===== src/Auth/CreateAccount/Requests.antt =====
-- create_account.go: a request that a client writes is parsed to what went in.
use Prim.Native.Nat.{bit_and}
use codboz_nx_online.Base.{
  ℕ, ◌^◌, ◌≤◌, ◌<◌, ◌≡◌, refl, ap, ◌∙◌, subst, true, false, List, [], ◌∷◌, ◌++◌, append_assoc,
  append-nil, arith, ◌==◌, length, ok, length-append, every, All, bind,
}
use codboz_nx_online.Go.Binary.{IsByte, le_bytes, length-le_bytes}
use codboz_nx_online.Go.Bits.{bits, length-bits}
use codboz_nx_online.Go.Reading.{Gives, wrap-Gives, then-Gives}
use codboz_nx_online.Bitdemon.BitBuffer.{BitReader, new_bit_reader, read_uint64, read_raw}
use codboz_nx_online.Bitdemon.BitBuffer.Copy.{falses}
use codboz_nx_online.Bitdemon.BitBuffer.Padding.{last}
use codboz_nx_online.Bitdemon.BitBuffer.Reads.{
  Ready, read_uint64-Gives, read_raw-Gives, set_reading_mode-Gives,
}
use codboz_nx_online.Bitdemon.BitBuffer.Writes.{Item, mode, raw}
use codboz_nx_online.Bitdemon.Crypto.{Primitives, derive_iv, check_triple_des, decrypt_3des_cbc}
use codboz_nx_online.Bitdemon.Crypto.Laws.{IsCbc}
use codboz_nx_online.Auth.LobbySession.{boz_title_id}
use codboz_nx_online.Auth.Messages.{malformed_message}
use codboz_nx_online.Bitdemon.BitBuffer.Requests.{header_bits, request_buffer, request_buffer-Ready}
use codboz_nx_online.Auth.Messages.Header.{read_header-Gives, check_padding-Gives}
use codboz_nx_online.Auth.CreateAccount.{
  is_printable, create_account_key, create_account_fields, decrypt_account_block,
  parse_create_account_body,
}
use codboz_nx_online.Auth.CreateAccount.Usernames.{
  account_block, account_block-length, open_account_block-account_block,
}

abbrev pub sealed_block : Primitives → ℕ → List ℕ → List ℕ → List ℕ
sealed_block p seed username password_hash =
    p.cbc_encrypt create_account_key (derive_iv seed) (account_block username password_hash)

abbrev pub block_items : List ℕ → List Item
block_items block = mode false ∷ raw (le_bytes 8 0) ∷ raw block ∷ []

abbrev pub request_body : ℕ → List ℕ → List ℕ
request_body seed block = 0 ∷ 0 ∷ request_buffer seed boz_title_id (block_items block)

create_account_fields-Gives :
    (seed : ℕ) (block body : List ℕ) (r : BitReader)
    → seed < 2 ^ 32
    → All IsByte block
    → length block ≡ 96
    → (bit_and (last body) 0xf8 == 0) ≡ true
    → Ready false
        (header_bits seed boz_title_id (bits (le_bytes 8 0) ++ (bits block ++ falses 5)))
        r
    → Gives (Ready false (falses 5)) (seed, block) (create_account_fields body r)
unfolding create_account_fields
create_account_fields-Gives seed block body r small valid size clear ready =
    then-Gives _ (read_header-Gives seed _ r small ready) (λ s1 ready1.
      then-Gives _ (set_reading_mode-Gives true false _ s1 ready1) (λ s2 ready2.
        then-Gives _
          (wrap-Gives (λ _. malformed_message) (Ready false _) 0 read_uint64 s2
            (read_uint64-Gives false 0 (bits block ++ falses 5) s2 (omega arith) ready2))
          (λ s3 ready3.
            then-Gives _
              (wrap-Gives (λ _. malformed_message) (Ready false (falses 5)) block (read_raw 96) s3
                (subst (λ k. Gives (Ready false (falses 5)) block (read_raw k s3)) size
                  (read_raw-Gives false (falses 5) block s3 valid ready3)))
              (λ s4 ready4.
                then-Gives _ (check_padding-Gives false malformed_message body s4 clear ready4)
                  (λ s5 ready5. (s5, refl, ready5))))))

whole_body :
    (p : Primitives) (body : List ℕ)
    → length body ≡ 114
    → parse_create_account_body p (0 ∷ 0 ∷ body)
      ≡ bind
          (create_account_fields (0 ∷ 0 ∷ body) (new_bit_reader body)).0
          (decrypt_account_block p)
unfolding parse_create_account_body
whole_body p body size = rw (size) refl

opened :
    (p : Primitives) (seed : ℕ) (username password_hash : List ℕ)
    → IsCbc p
    → 1 ≤ length username
    → length username ≤ 64
    → every is_printable username ≡ true
    → length password_hash ≡ 24
    → decrypt_account_block p (seed, sealed_block p seed username password_hash)
      ≡ ok (record {
        iv_seed = seed;
        title_id = boz_title_id;
        license_hash = 0;
        username = username;
        password_hash = password_hash;
      })
unfolding decrypt_account_block decrypt_3des_cbc check_triple_des
opened p seed username password_hash cbc long short printable sized =
    let plain = account_block username password_hash in
    let size = account_block-length username password_hash short sized in
    rw
      (
        cbc.encrypt_length create_account_key (derive_iv seed) plain,
        size,
        cbc.decrypt_encrypt create_account_key (derive_iv seed) plain refl (omega (arith, size)),
      )
      (open_account_block-account_block seed username password_hash long short printable sized)

-- A request with a seed, a name of 1 to 64 printable ASCII characters and a password hash of 24
-- bytes, which a BitWriter writes around the account block that CBC encryption under the fixed key and the vector of the
-- seed makes, is parsed to the seed, the title, the name and the password hash.
pub parse_create_account_body-request_body :
    (p : Primitives) (seed : ℕ) (username password_hash : List ℕ)
    → IsCbc p
    → seed < 2 ^ 32
    → 1 ≤ length username
    → length username ≤ 64
    → every is_printable username ≡ true
    → length password_hash ≡ 24
    → All IsByte (sealed_block p seed username password_hash)
    → parse_create_account_body p (request_body seed (sealed_block p seed username password_hash))
      ≡ ok (record {
        iv_seed = seed;
        title_id = boz_title_id;
        license_hash = 0;
        username = username;
        password_hash = password_hash;
      })
parse_create_account_body-request_body p seed username password_hash cbc small long short printable
      sized valid =
    let block = sealed_block p seed username password_hash in
    let buffer = request_buffer seed boz_title_id (block_items block) in
    let license = bits (le_bytes 8 0) in
    let block_size : length block ≡ 96 =
      cbc.encrypt_length create_account_key (derive_iv seed) (account_block username password_hash)
      ∙ account_block-length username password_hash short sized in
    let size : length (license ++ (bits block ++ [])) ≡ 832 = omega (
      arith,
      block_size,
      length-append license (bits block ++ []),
      length-append (bits block) [],
      length-bits (le_bytes 8 0),
      length-le_bytes 8 0,
      length-bits block,
    ) in
    let (filled, clear, ready) =
      request_buffer-Ready 0 seed boz_title_id (block_items block) (omega (arith, size)) in
    let same : (license ++ (bits block ++ [])) ++ falses 5 ≡ license ++ (bits block ++ falses 5) =
      append_assoc license (bits block ++ []) (falses 5)
      ∙ ap (λ l. license ++ (l ++ falses 5)) (append-nil (bits block)) in
    let (r, e, done) =
      create_account_fields-Gives seed block (0 ∷ 0 ∷ buffer) (new_bit_reader buffer) small valid
        block_size clear
        (subst (λ l. Ready false (header_bits seed boz_title_id l) (new_bit_reader buffer)) same
          ready) in
    whole_body p buffer (omega (arith, size, filled))
    ∙ ap (λ out. bind out.0 (decrypt_account_block p)) e
    ∙ opened p seed username password_hash cbc long short printable sized
