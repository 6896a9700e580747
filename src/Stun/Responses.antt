-- ===== src/Stun/Responses.antt =====
-- internal/online/stun: BuildBindingResponse of binding.go, and responder.go.
pub mod Answers
use Prim.Native.Nat.{bit_and}
use codboz_nx_online.Base.{
  ℕ, ◌+◌, ◌-◌, ◌≡◌, Bool, true, false, not, ◌&&◌, ◌||◌, List, [], ◌∷◌, ◌++◌, ltb, ◌==◌,
  if◌then◌else◌, length, replicate, get_or, every, Option, none, some, Result, ok, err, bind,
  map_err,
}
use codboz_nx_online.Go.Binary.{be_bytes}
use codboz_nx_online.Go.Net.{IpAddr, ip4, ip6, addr_from_slice, unmap, is_unspecified, is_multicast}
use codboz_nx_online.Go.Stream.{IoError}
use codboz_nx_online.Bitdemon.Frame.Write.{Written}
use codboz_nx_online.Stun.{BindingRequest, header_size, parse_binding_request}

abbrev pub binding_response_size : ℕ
binding_response_size = 56

abbrev pub binding_response_type : ℕ
binding_response_type = 0x0101

abbrev pub mapped_address_attribute : ℕ
mapped_address_attribute = 0x0001

abbrev pub source_address_attribute : ℕ
source_address_attribute = 0x0004

abbrev pub changed_address_attribute : ℕ
changed_address_attribute = 0x0005

abbrev pub address_value_size : ℕ
address_value_size = 8

abbrev pub ipv4_family : ℕ
ipv4_family = 0x01

-- netip.AddrPort, with `none` for the address of its zero value.
pub record AddrPort : Type 0 where
  pub addr : Option IpAddr
  pub port : ℕ

pub data EndpointError : Type 0 where
  invalid_endpoint ipv4_only : EndpointError

pub record Endpoints : Type 0 where
  pub mapped_address : AddrPort
  pub source_address : AddrPort
  pub changed_address : AddrPort

-- Of an IPv4 address: IsGlobalUnicast, IsLoopback or IsLinkLocalUnicast.
unfoldable pub is_specific : List ℕ → Bool
is_specific bytes =
    let loopback = get_or bytes 0 0 == 127 in
    let link_local = (get_or bytes 0 0 == 169) && (get_or bytes 1 0 == 254) in
    let global =
      not (is_unspecified (ip4 bytes))
      && not (every (λ b. b == 255) bytes)
      && not loopback
      && not (is_multicast (ip4 bytes))
      && not link_local in
    global || loopback || link_local

abbrev validate_address : ℕ → Option IpAddr → Result EndpointError (List ℕ)
validate_address port none = err invalid_endpoint
validate_address port (some (ip4 bytes)) =
    if port == 0 || is_unspecified (ip4 bytes)
    then err invalid_endpoint
    else if is_specific bytes
    then ok bytes
    else err invalid_endpoint
validate_address port (some (ip6 bytes zone)) =
    if port == 0 || is_unspecified (ip6 bytes zone) then err invalid_endpoint else err ipv4_only

-- validateEndpoint, with what As4 gives of an endpoint that it accepts.
unfoldable pub validate_endpoint : AddrPort → Result EndpointError (List ℕ)
unfolding is_specific
validate_endpoint endpoint = validate_address endpoint.port endpoint.addr

-- The twelve bytes that putAddressAttribute writes.
unfoldable pub address_attribute : ℕ → List ℕ → ℕ → List ℕ
address_attribute attribute_type address port =
    be_bytes 2 attribute_type
    ++ (be_bytes 2 address_value_size ++ 0 ∷ ipv4_family ∷ (be_bytes 2 port ++ address))

unfoldable pub response_bytes : BindingRequest → Endpoints → List ℕ → List ℕ → List ℕ → List ℕ
unfolding address_attribute
response_bytes request endpoints mapped source changed =
    be_bytes 2 binding_response_type
    ++ (be_bytes 2 (binding_response_size - header_size)
        ++ (request.transaction_id
            ++ (address_attribute mapped_address_attribute mapped endpoints.mapped_address.port
                ++ (address_attribute source_address_attribute source endpoints.source_address.port
                    ++ address_attribute changed_address_attribute changed
                        endpoints.changed_address.port))))

unfoldable pub build_binding_response : BindingRequest → Endpoints → Result EndpointError (List ℕ)
unfolding validate_endpoint response_bytes
build_binding_response request endpoints =
    bind (validate_endpoint endpoints.mapped_address) (λ mapped.
      bind (validate_endpoint endpoints.source_address) (λ source.
        bind (validate_endpoint endpoints.changed_address)
          (λ changed. ok (response_bytes request endpoints mapped source changed))))

pub record ResponderConfig : Type 0 where
  pub source_address : AddrPort
  pub changed_address : AddrPort

abbrev pub endpoints_of : ResponderConfig → AddrPort → Endpoints
endpoints_of config mapped = record {
  mapped_address = mapped;
  source_address = config.source_address;
  changed_address = config.changed_address;
}

abbrev pub zero_request : BindingRequest
zero_request = record { transaction_id = replicate 16 0; change_ip = false; change_port = false }

-- `netip.MustParseAddrPort("192.0.2.1:1")`
abbrev pub documentation_endpoint : AddrPort
documentation_endpoint = record { addr = some (ip4 (192 ∷ 0 ∷ 2 ∷ 1 ∷ [])); port = 1 }

unfoldable pub new_responder : ResponderConfig → Result EndpointError ResponderConfig
unfolding build_binding_response
new_responder config =
    bind (build_binding_response zero_request (endpoints_of config documentation_endpoint))
      (λ response. ok config)

-- net.Addr of a datagram: a *net.UDPAddr by its IP slice and port, or another kind.
pub data Peer : Type 0 where
  udp_addr : List ℕ → ℕ → Peer
  other_peer : Peer

abbrev mapped_endpoint : ℕ → Option IpAddr → Option AddrPort
mapped_endpoint port none = none
mapped_endpoint port (some (ip6 bytes zone)) = none
mapped_endpoint port (some (ip4 bytes)) =
    if is_unspecified (ip4 bytes)
    then none
    else some (record { addr = some (ip4 bytes); port = port })

abbrev unmapped : Option IpAddr → Option IpAddr
unmapped none = none
unmapped (some address) = some (unmap address)

-- udpAddrPort, with `none` for the answer false. A port below 0 is refused as 0 is.
unfoldable pub udp_addr_port : Peer → Option AddrPort
udp_addr_port other_peer = none
udp_addr_port (udp_addr ip port) =
    if ltb port 1 || ltb 65_535 port
    then none
    else mapped_endpoint port (unmapped (addr_from_slice ip))

-- What becomes of a datagram; the response is what WriteTo was given.
pub data Handled : Type 0 where
  ignored : Handled
  not_built : EndpointError → Handled
  answered short : List ℕ → Handled
  not_written : List ℕ → IoError → Handled

abbrev written_to : List ℕ → ℕ → Option IoError → Handled
written_to response n (some e) = not_written response e
written_to response n none = if n == length response then answered response else short response

abbrev respond : (List ℕ → Written) → Result EndpointError (List ℕ) → Handled
respond write_to (err e) = not_built e
respond write_to (ok response) =
    let out = write_to response in written_to response out.count out.failure

abbrev answer : ResponderConfig → (List ℕ → Written) → BindingRequest → Option AddrPort → Handled
answer config write_to request none = ignored
answer config write_to request (some mapped) =
    respond write_to (build_binding_response request (endpoints_of config mapped))

abbrev parsed :
    {E : Type 0} → ResponderConfig → (List ℕ → Written) → Peer → Result E BindingRequest → Handled
parsed config write_to peer (err e) = ignored
parsed config write_to peer (ok request) =
    if request.change_ip || request.change_port
    then ignored
    else answer config write_to request (udp_addr_port peer)

-- HandleUDP, with `ctx.Err() != nil || connection == nil` as an argument.
unfoldable pub handle_udp : ResponderConfig → Bool → (List ℕ → Written) → Peer → List ℕ → Handled
unfolding udp_addr_port build_binding_response
handle_udp config stopped write_to peer payload =
    if stopped then ignored else parsed config write_to peer (parse_binding_request payload)
