-- ===== src/Auth/CreateAccount/Usernames.antt =====
-- create_account.go: the fields of the decrypted account block.
use codboz_nx_online.Base.{
  ℕ, zero, suc, ◌-◌, ◌≤◌, ◌≡◌, refl, ap, ◌∙◌, sym, subst, true, List, [], ◌∷◌, ◌++◌, append-nil,
  arith, length, take, drop, take-append, drop-append, drop-drop, length-append, length-replicate,
  replicate, every, none, ok,
}
use codboz_nx_online.Go.Binary.{le_bytes, le_value-le_bytes, length-le_bytes}
use codboz_nx_online.Go.Bytes.{index_byte, index_byte-append}
use codboz_nx_online.Auth.LobbySession.{boz_title_id}
use codboz_nx_online.Auth.Messages.{all_zero, padded}
use codboz_nx_online.Auth.CreateAccount.{
  is_printable, check_username, parse_padded_username, open_account_block, account_block_signature,
}

printable-index_byte :
    (username : List ℕ) → every is_printable username ≡ true → index_byte 0 username ≡ none
unfolding index_byte
printable-index_byte [] h = refl
printable-index_byte (x ∷ xs) h = ground (arith, printable-index_byte xs)

all_zero-replicate : (n : ℕ) → all_zero (replicate n 0) ≡ true
all_zero-replicate zero = refl
all_zero-replicate (suc n) = all_zero-replicate n

check_username-ok :
    (username : List ℕ)
    → 1 ≤ length username
    → every is_printable username ≡ true
    → check_username username ≡ ok username
unfolding check_username
check_username-ok username long printable = ground arith

-- A name of printable characters that its field holds is read back from the zeros behind it.
pub parse_padded_username-padded :
    (size : ℕ) (username : List ℕ)
    → 1 ≤ length username
    → length username ≤ size
    → every is_printable username ≡ true
    → parse_padded_username (padded size username) ≡ ok username
unfolding parse_padded_username
parse_padded_username-padded size username long short printable = go (size - length username)
  where
    none_yet : index_byte 0 username ≡ none
    none_yet = printable-index_byte username printable

    go : (n : ℕ) → parse_padded_username (username ++ replicate n 0) ≡ ok username
    go zero =
        subst (λ l. parse_padded_username l ≡ ok username) (sym (append-nil username))
          (rw (none_yet) (check_username-ok username long printable))
    go (suc n) =
        rw
          (
            index_byte-append 0 username (replicate n 0) none_yet,
            drop-append username (replicate (suc n) 0),
            take-append username (replicate (suc n) 0),
            all_zero-replicate n,
          )
          (check_username-ok username long printable)

abbrev pub account_block : List ℕ → List ℕ → List ℕ
account_block username password_hash =
    le_bytes 4 account_block_signature ++ (padded 64 username ++ (password_hash ++ replicate 4 0))

pub account_block-length :
    (username password_hash : List ℕ)
    → length username ≤ 64
    → length password_hash ≡ 24
    → length (account_block username password_hash) ≡ 96
account_block-length username password_hash short sized = omega (
  arith,
  length-le_bytes 4 account_block_signature,
  length-append (le_bytes 4 account_block_signature)
      (padded 64 username ++ (password_hash ++ replicate 4 0)),
  length-append (padded 64 username) (password_hash ++ replicate 4 0),
  length-append username (replicate (64 - length username) 0),
  length-replicate {A = ℕ} (64 - length username) 0,
  length-append password_hash (replicate 4 0),
  length-replicate {A = ℕ} 4 0,
)

take_exact : (n : ℕ) (xs ys : List ℕ) → length xs ≡ n → take n (xs ++ ys) ≡ xs
take_exact n xs ys e = subst (λ k. take k (xs ++ ys) ≡ xs) e (take-append xs ys)

drop_exact : (n : ℕ) (xs ys : List ℕ) → length xs ≡ n → drop n (xs ++ ys) ≡ ys
drop_exact n xs ys e = subst (λ k. drop k (xs ++ ys) ≡ ys) e (drop-append xs ys)

pub open_account_block-account_block :
    (seed : ℕ) (username password_hash : List ℕ)
    → 1 ≤ length username
    → length username ≤ 64
    → every is_printable username ≡ true
    → length password_hash ≡ 24
    → open_account_block seed (account_block username password_hash)
      ≡ ok (record {
        iv_seed = seed;
        title_id = boz_title_id;
        license_hash = 0;
        username = username;
        password_hash = password_hash;
      })
unfolding open_account_block
open_account_block-account_block seed username password_hash long short printable sized =
    let signature = le_bytes 4 account_block_signature in
    let name = padded 64 username in
    let tail : List ℕ = password_hash ++ replicate 4 0 in
    let name_size : length name ≡ 64 = omega (
      arith,
      length-append username (replicate (64 - length username) 0),
      length-replicate {A = ℕ} (64 - length username) 0,
    ) in
    let at4 : drop 4 (signature ++ (name ++ tail)) ≡ name ++ tail =
      drop_exact 4 signature (name ++ tail) (length-le_bytes 4 account_block_signature) in
    let at68 : drop 68 (signature ++ (name ++ tail)) ≡ tail =
      sym (drop-drop 4 64 (signature ++ (name ++ tail)))
      ∙ ap (drop 64) at4
      ∙ drop_exact 64 name tail name_size in
    let at92 : drop 92 (signature ++ (name ++ tail)) ≡ replicate 4 0 =
      sym (drop-drop 68 24 (signature ++ (name ++ tail)))
      ∙ ap (drop 24) at68
      ∙ drop_exact 24 password_hash (replicate 4 0) sized in
    rw
      (
        take_exact 4 signature (name ++ tail) (length-le_bytes 4 account_block_signature),
        le_value-le_bytes 4 account_block_signature (omega arith),
        at4,
        take_exact 64 name tail name_size,
        parse_padded_username-padded 64 username long short printable,
        at92,
        at68,
        take_exact 24 password_hash (replicate 4 0) sized,
      )
      refl
