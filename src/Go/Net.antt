-- ===== src/Go/Net.antt =====
-- net.Addr and net/netip, as far as the program looks into them. The texts of addresses are made and
-- parsed by the standard library, and stand here as a record of functions.
use Prim.Native.Nat.{bit_and}
use codboz_nx_online.Base.{
  ℕ, Bool, true, false, ◌&&◌, List, [], ◌∷◌, ite, ◌==◌, if◌then◌else◌, length, take, drop,
  replicate, get_or, every, Option, none, some, ◌++◌,
}
use codboz_nx_online.Go.Discrete.{bytes_discrete}

-- netip.Addr: 4 bytes, or 16 bytes with a zone, which is mostly empty.
pub data IpAddr : Type 0 where
  ip4 : List ℕ → IpAddr
  ip6 : List ℕ → List ℕ → IpAddr

-- net.Addr: nil, a *net.TCPAddr by its IP slice and port, or another kind by what its methods
-- Network and String return.
pub data NetAddr : Type 0 where
  nil_addr : NetAddr
  tcp_addr : List ℕ → ℕ → NetAddr
  other_addr : List ℕ → List ℕ → NetAddr

-- `net.SplitHostPort` (the host alone), `netip.ParseAddr`, `Addr.String`, and
-- `netip.PrefixFrom(address, 64).Masked().String()`, which depends on the first 8 bytes only.
pub record NetText : Type 0 where
  pub split_host_port : List ℕ → Option (List ℕ)
  pub parse_addr : List ℕ → Option IpAddr
  pub addr_string : IpAddr → List ℕ
  pub prefix64_string : List ℕ → List ℕ

unfoldable pub addr_from_slice : List ℕ → Option IpAddr
addr_from_slice bs =
    if length bs == 4 then some (ip4 bs) else if length bs == 16 then some (ip6 bs []) else none

-- The first 12 bytes of an IPv4 address written as IPv6.
abbrev pub mapped_prefix : List ℕ
mapped_prefix = replicate 10 0 ++ 0xff ∷ 0xff ∷ []

unfoldable pub unmap : IpAddr → IpAddr
unmap (ip4 bs) = ip4 bs
unmap (ip6 bs zone) =
    ite (bytes_discrete (take 12 bs) mapped_prefix) (ip4 (drop 12 bs)) (ip6 bs zone)

unfoldable pub is_unspecified : IpAddr → Bool
is_unspecified (ip4 bs) = every (λ b. b == 0) bs
is_unspecified (ip6 bs zone) = every (λ b. b == 0) bs && (length zone == 0)

unfoldable pub is_multicast : IpAddr → Bool
is_multicast (ip4 bs) = bit_and (get_or bs 0 0) 0xf0 == 0xe0
is_multicast (ip6 bs zone) = get_or bs 0 0 == 0xff

abbrev pub is_empty : List ℕ → Bool
is_empty [] = true
is_empty (b ∷ bs) = false
