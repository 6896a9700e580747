-- ===== src/Stun.antt =====
-- internal/online/stun/binding.go: parsing of a Binding request.
pub mod Requests
pub mod Responses
use Prim.Native.Nat.{bit_and}
use codboz_nx_online.Base.{
  ℕ, ◌+◌, ◌-◌, Bool, not, List, ltb, ◌==◌, if◌then◌else◌, length, take, drop, Result, ok, err,
}
use codboz_nx_online.Go.Binary.{be_value}

abbrev pub header_size : ℕ
header_size = 20

abbrev pub binding_request_size : ℕ
binding_request_size = 28

abbrev pub binding_request_type : ℕ
binding_request_type = 0x0001

abbrev pub change_request_attribute : ℕ
change_request_attribute = 0x0003

abbrev pub change_ip_flag : ℕ
change_ip_flag = 0x4

abbrev pub change_port_flag : ℕ
change_port_flag = 0x2

-- `^uint32(changeFlagMask)`
abbrev pub other_flags : ℕ
other_flags = 0xffff_ffff - (change_ip_flag + change_port_flag)

pub data BindingError : Type 0 where
  malformed_request unsupported_message_type unsupported_attribute : BindingError
  unsupported_change_request : BindingError

pub record BindingRequest : Type 0 where
  pub transaction_id : List ℕ
  pub change_ip : Bool
  pub change_port : Bool

-- The flags of the attribute, and the request that they complete.
unfoldable pub parse_flags : List ℕ → ℕ → Result BindingError BindingRequest
parse_flags transaction_id flags =
    if not (bit_and flags other_flags == 0)
    then err unsupported_change_request
    else ok (record {
      transaction_id = transaction_id;
      change_ip = not (bit_and flags change_ip_flag == 0);
      change_port = not (bit_and flags change_port_flag == 0);
    })

-- The CHANGE-REQUEST attribute of a packet whose header was accepted.
unfoldable pub parse_change_request : List ℕ → Result BindingError BindingRequest
unfolding parse_flags
parse_change_request packet =
    let attribute = drop header_size packet in
    if not (be_value (take 2 attribute) == change_request_attribute)
    then err unsupported_attribute
    else if not (be_value (take 2 (drop 2 attribute)) == 4)
    then err malformed_request
    else parse_flags (take 16 (drop 4 packet)) (be_value (take 4 (drop 4 attribute)))

unfoldable pub parse_binding_request : List ℕ → Result BindingError BindingRequest
unfolding parse_change_request
parse_binding_request packet =
    let message_length = be_value (take 2 (drop 2 packet)) in
    if ltb (length packet) header_size
    then err malformed_request
    else if not (be_value (take 2 packet) == binding_request_type)
    then err unsupported_message_type
    else if not (message_length == binding_request_size - header_size)
    then err malformed_request
    else if not (length packet == header_size + message_length)
    then err malformed_request
    else parse_change_request packet
