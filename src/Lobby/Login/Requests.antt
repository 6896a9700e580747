-- ===== src/Lobby/Login/Requests.antt =====
-- lsg.go: a login that a client writes is parsed to what went in.
use Prim.Native.Nat.{bit_and}
use codboz_nx_online.Base.{
  ℕ, ◌^◌, ◌<◌, ◌≡◌, refl, ap, ◌∙◌, subst, true, false, List, [], ◌∷◌, ◌++◌, append-nil, arith, ◌==◌,
  length, ok, length-append, All,
}
use codboz_nx_online.Go.Binary.{IsByte}
use codboz_nx_online.Go.Bits.{bits, length-bits}
use codboz_nx_online.Go.Reading.{Gives, wrap-Gives, then-Gives}
use codboz_nx_online.Bitdemon.BitBuffer.{BitReader, new_bit_reader, read_raw}
use codboz_nx_online.Bitdemon.BitBuffer.Copy.{falses}
use codboz_nx_online.Bitdemon.BitBuffer.Padding.{last}
use codboz_nx_online.Bitdemon.BitBuffer.Reads.{Ready, read_raw-Gives, set_reading_mode-Gives}
use codboz_nx_online.Bitdemon.BitBuffer.Writes.{Item, mode, raw}
use codboz_nx_online.Bitdemon.BitBuffer.Requests.{
  header_bits, flag-Gives, number-Gives, request_buffer, request_buffer-Ready,
}
use codboz_nx_online.Auth.LobbySession.{boz_title_id}
use codboz_nx_online.Auth.Messages.Header.{check_padding-Gives}
use codboz_nx_online.Lobby.Login.{LsgLogin, malformed_login, login_fields, parse_lsg_login_body}

abbrev pub blob_items : List ℕ → List Item
blob_items blob = mode false ∷ raw blob ∷ []

abbrev pub login_body : ℕ → List ℕ → List ℕ
login_body seed blob = 0 ∷ 7 ∷ request_buffer boz_title_id seed (blob_items blob)

abbrev pub logged_in : ℕ → List ℕ → LsgLogin
logged_in seed blob = record { title_id = boz_title_id; ticket_seed = seed; auth_blob = blob }

login_fields-Gives :
    (seed : ℕ) (blob body : List ℕ) (r : BitReader)
    → seed < 2 ^ 32
    → All IsByte blob
    → length blob ≡ 128
    → (bit_and (last body) 0xf8 == 0) ≡ true
    → Ready false (header_bits boz_title_id seed (bits blob ++ falses 5)) r
    → Gives (Ready false (falses 5)) (logged_in seed blob) (login_fields body r)
unfolding login_fields
login_fields-Gives seed blob body r small valid size clear ready =
    then-Gives _ (flag-Gives malformed_login _ r ready) (λ s1 ready1.
      then-Gives _ (number-Gives malformed_login boz_title_id _ s1 (omega arith) ready1)
        (λ s2 ready2.
          then-Gives _ (number-Gives malformed_login seed _ s2 small ready2) (λ s3 ready3.
            then-Gives _ (set_reading_mode-Gives true false _ s3 ready3) (λ s4 ready4.
              then-Gives _
                (wrap-Gives (λ _. malformed_login) (Ready false (falses 5)) blob (read_raw 128) s4
                  (subst (λ k. Gives (Ready false (falses 5)) blob (read_raw k s4)) size
                    (read_raw-Gives false (falses 5) blob s4 valid ready4)))
                (λ s5 ready5.
                  then-Gives _ (check_padding-Gives false malformed_login body s5 clear ready5)
                    (λ s6 ready6. (s6, refl, ready6)))))))

whole_body :
    (body : List ℕ)
    → length body ≡ 138
    → parse_lsg_login_body (0 ∷ 7 ∷ body) ≡ (login_fields (0 ∷ 7 ∷ body) (new_bit_reader body)).0
unfolding parse_lsg_login_body
whole_body body size = rw (size) refl

-- A login that a BitWriter writes from a seed that fits its field and a blob of 128 bytes is parsed
-- to these two and the title.
pub parse_lsg_login_body-login_body :
    (seed : ℕ) (blob : List ℕ)
    → seed < 2 ^ 32
    → All IsByte blob
    → length blob ≡ 128
    → parse_lsg_login_body (login_body seed blob) ≡ ok (logged_in seed blob)
parse_lsg_login_body-login_body seed blob small valid sized =
    let buffer = request_buffer boz_title_id seed (blob_items blob) in
    let size : length (bits blob ++ []) ≡ 1024 =
      omega (arith, sized, length-append (bits blob) [], length-bits blob) in
    let (filled, clear, ready) =
      request_buffer-Ready 7 boz_title_id seed (blob_items blob) (omega (arith, size)) in
    let (r, e, done) =
      login_fields-Gives seed blob (0 ∷ 7 ∷ buffer) (new_bit_reader buffer) small valid sized clear
        (subst
          (λ l. Ready false (header_bits boz_title_id seed (l ++ falses 5)) (new_bit_reader buffer))
          (append-nil (bits blob)) ready) in
    whole_body buffer (omega (arith, size, filled)) ∙ ap (λ out. out.0) e
