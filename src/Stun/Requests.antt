-- ===== src/Stun/Requests.antt =====
-- binding.go: the requests that ParseBindingRequest takes.
use Prim.Native.Nat.{bit_and}
use codboz_nx_online.Base.{
  ℕ, ◌+◌, ◌≡◌, refl, sym, ap, ◌∙◌, Bool, true, false, List, [], ◌∷◌, ◌++◌, if◌then◌else◌, length,
  take, drop, ok, arith, length-append, drop-append, take-append,
}
use codboz_nx_online.Go.Binary.{be_value, be_value_from}
use codboz_nx_online.Stun.{BindingRequest, parse_change_request, parse_binding_request, parse_flags}

-- The last byte of the flags.
abbrev pub flag_byte : Bool → Bool → ℕ
flag_byte change_ip change_port = (if change_ip then 4 else 0) + (if change_port then 2 else 0)

-- The change-request attribute: type 3, length 4 and the flags.
abbrev pub change_request_bytes : Bool → Bool → List ℕ
change_request_bytes change_ip change_port =
    0 ∷ 3 ∷ 0 ∷ 4 ∷ 0 ∷ 0 ∷ 0 ∷ flag_byte change_ip change_port ∷ []

-- A Binding request: type 1, a body of 8 bytes, the transaction and the attribute.
abbrev pub request_bytes : BindingRequest → List ℕ
request_bytes r =
    0 ∷ 1 ∷ 0 ∷ 8 ∷ (r.transaction_id ++ change_request_bytes r.change_ip r.change_port)

change_request_parsed :
    (id : List ℕ) (change_ip change_port : Bool)
    → length id ≡ 16
    → parse_change_request (0 ∷ 1 ∷ 0 ∷ 8 ∷ (id ++ change_request_bytes change_ip change_port))
      ≡ ok (record { transaction_id = id; change_ip = change_ip; change_port = change_port })
unfolding parse_change_request parse_flags be_value be_value_from
change_request_parsed id change_ip change_port size =
    let tail = change_request_bytes change_ip change_port in
    let behind : drop 16 (id ++ tail) ≡ tail =
      ap (λ n. drop n (id ++ tail)) (sym size) ∙ drop-append id tail in
    let front : take 16 (id ++ tail) ≡ id =
      ap (λ n. take n (id ++ tail)) (sym size) ∙ take-append id tail in
    rw (behind, front) (flags change_ip change_port)
  where
    flags :
        (ip port : Bool)
        → parse_flags id (be_value (0 ∷ 0 ∷ 0 ∷ flag_byte ip port ∷ []))
          ≡ ok (record { transaction_id = id; change_ip = ip; change_port = port })
    flags true true = refl
    flags true false = refl
    flags false true = refl
    flags false false = refl

request_bytes-parses :
    (r : BindingRequest)
    → length r.transaction_id ≡ 16
    → parse_binding_request (request_bytes r) ≡ parse_change_request (request_bytes r)
unfolding parse_binding_request be_value be_value_from
request_bytes-parses r size =
    ground (arith, length-append r.transaction_id (change_request_bytes r.change_ip r.change_port))

-- Any request written out as RFC 3489 lays it out, with a transaction of 16 bytes, is parsed to
-- itself.
pub parse_binding_request-request_bytes :
    (r : BindingRequest)
    → length r.transaction_id ≡ 16
    → parse_binding_request (request_bytes r) ≡ ok r
parse_binding_request-request_bytes r size =
    request_bytes-parses r size
    ∙ change_request_parsed r.transaction_id r.change_ip r.change_port size

-- Whatever is parsed has 28 bytes and carries the transaction in the 16 bytes behind the first four,
-- and no flag but the two is set.
pub parse_binding_request_sound :
    (packet : List ℕ) (r : BindingRequest)
    → parse_binding_request packet ≡ ok r
    → (length packet ≡ 28)
      × (be_value (take 2 packet) ≡ 1)
      × (r.transaction_id ≡ take 16 (drop 4 packet))
      × (be_value (take 2 (drop 20 packet)) ≡ 3)
      × (bit_and (be_value (take 4 (drop 4 (drop 20 packet)))) 0xffff_fff9 ≡ 0)
unfolding parse_binding_request parse_change_request parse_flags
parse_binding_request_sound packet r h = ground arith
