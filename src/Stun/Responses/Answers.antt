-- ===== src/Stun/Responses/Answers.antt =====
-- responder.go: what a client that sends a Binding request gets.
use codboz_nx_online.Base.{
  ℕ, ◌^◌, ◌≤◌, ◌<◌, ◌≡◌, refl, sym, ap, ◌∙◌, true, false, ==_refl, List, ◌++◌, length, take, drop,
  take-append, drop-append, drop-drop, none, some, Result, ok, err, bind, arith,
}
use codboz_nx_online.Go.Binary.{be_bytes, be_value, be_value-be_bytes}
use codboz_nx_online.Go.Net.{ip4, addr_from_slice, unmap, is_unspecified}
use codboz_nx_online.Bitdemon.Frame.Write.{Written}
use codboz_nx_online.Stun.{BindingRequest}
use codboz_nx_online.Stun.Requests.{request_bytes, parse_binding_request-request_bytes}
use codboz_nx_online.Stun.Responses.{
  AddrPort, Endpoints, ResponderConfig, is_specific, validate_endpoint, address_attribute,
  response_bytes, build_binding_response, endpoints_of, new_responder, zero_request,
  documentation_endpoint, udp_addr, udp_addr_port, answered, handle_udp,
}

bind-ok :
    {E A B : Type 0} (r : Result E A) (f : A → Result E B) (b : B)
    → bind r f ≡ ok b
    → (a : A) × (r ≡ ok a) × (f a ≡ ok b)
bind-ok (ok a) f b h = (a, refl, h)
bind-ok (err e) f b h = absurd (ground arith)

-- A response, read from the places where a client looks: the transaction, and the port and the
-- address of the first attribute.
pub record Tells (id : List ℕ) (port : ℕ) (ip : List ℕ) (response : List ℕ) : Type 0 where
  pub transaction : take 16 (drop 4 response) ≡ id
  pub its_port : be_value (take 2 (drop 26 response)) ≡ port
  pub its_address : take 4 (drop 28 response) ≡ ip

response_bytes-Tells :
    (request : BindingRequest) (endpoints : Endpoints) (ip source changed : List ℕ)
    → length request.transaction_id ≡ 16
    → length ip ≡ 4
    → endpoints.mapped_address.port < 2 ^ 16
    → Tells request.transaction_id endpoints.mapped_address.port ip
        (response_bytes request endpoints ip source changed)
unfolding response_bytes address_attribute be_bytes
response_bytes-Tells request endpoints ip source changed sized four small =
    let id = request.transaction_id in
    let port = endpoints.mapped_address.port in
    let rest : List ℕ =
      address_attribute 4 source endpoints.source_address.port
      ++ address_attribute 5 changed endpoints.changed_address.port in
    let tail : List ℕ = address_attribute 1 ip port ++ rest in
    let behind : drop 16 (id ++ tail) ≡ tail =
      ap (λ n. drop n (id ++ tail)) (sym sized) ∙ drop-append id tail in
    record {
      transaction = ap (λ n. take n (id ++ tail)) (sym sized) ∙ take-append id tail;
      its_port =
          ap (λ l. be_value (take 2 l)) (sym (drop-drop 16 6 (id ++ tail)) ∙ ap (drop 6) behind)
          ∙ be_value-be_bytes 2 port small;
      its_address =
          ap (take 4) (sym (drop-drop 16 8 (id ++ tail)) ∙ ap (drop 8) behind)
          ∙ ap (λ n. take n (ip ++ rest)) (sym four)
          ∙ take-append ip rest;
    }

peer_mapped :
    (ip : List ℕ) (port : ℕ)
    → length ip ≡ 4
    → is_unspecified (ip4 ip) ≡ false
    → 1 ≤ port
    → port < 2 ^ 16
    → udp_addr_port (udp_addr ip port) ≡ some (record { addr = some (ip4 ip); port = port })
unfolding udp_addr_port addr_from_slice unmap
peer_mapped ip port four specified low high = ground arith

peer_valid :
    (ip : List ℕ) (port : ℕ)
    → is_unspecified (ip4 ip) ≡ false
    → is_specific ip ≡ true
    → 1 ≤ port
    → validate_endpoint (record { addr = some (ip4 ip); port = port }) ≡ ok ip
unfolding validate_endpoint
peer_valid ip port specified specific low = ground arith

built_valid :
    (request : BindingRequest) (endpoints : Endpoints) (response : List ℕ)
    → build_binding_response request endpoints ≡ ok response
    → (source : List ℕ) × (changed : List ℕ) × (validate_endpoint endpoints.source_address
        ≡ ok source)
      × (validate_endpoint endpoints.changed_address ≡ ok changed)
unfolding build_binding_response
built_valid request endpoints response h =
    let (first, e1, h1) = bind-ok (validate_endpoint endpoints.mapped_address) _ response h in
    let (source, e2, h2) = bind-ok (validate_endpoint endpoints.source_address) _ response h1 in
    let (changed, e3, h3) = bind-ok (validate_endpoint endpoints.changed_address) _ response h2 in
    (source, changed, e2, e3)

responder_built :
    (config : ResponderConfig)
    → new_responder config ≡ ok config
    → (response : List ℕ) × (build_binding_response zero_request
          (endpoints_of config documentation_endpoint)
        ≡ ok response)
unfolding new_responder
responder_built config made =
    let (response, built, kept) =
      bind-ok (build_binding_response zero_request (endpoints_of config documentation_endpoint))
        (λ r. ok config) config made in
    (response, built)

-- A responder that NewResponder made builds a response for every valid endpoint.
config_builds :
    (config : ResponderConfig) (request : BindingRequest) (mapped : AddrPort) (ip : List ℕ)
    → new_responder config ≡ ok config
    → validate_endpoint mapped ≡ ok ip
    → (source : List ℕ) × (changed : List ℕ) × (build_binding_response request
          (endpoints_of config mapped)
        ≡ ok (response_bytes request (endpoints_of config mapped) ip source changed))
config_builds config request mapped ip made valid =
    let (response, built) = responder_built config made in
    let (source, changed, e2, e3) =
      built_valid zero_request (endpoints_of config documentation_endpoint) response built in
    (source, changed, unfold build_binding_response in rw (valid, e2, e3) refl)

-- A responder that NewResponder made, on a connection whose writes are whole, answers every Binding
-- request without change flags from a specific IPv4 address and a port; and the response has the
-- request's transaction and tells the client this address and this port.
pub handle_udp_answers :
    (config : ResponderConfig) (write_to : List ℕ → Written) (id ip : List ℕ) (port : ℕ)
    → new_responder config ≡ ok config
    → ((response : List ℕ) → write_to response ≡ record { count = length response; failure = none })
    → length id ≡ 16
    → length ip ≡ 4
    → is_unspecified (ip4 ip) ≡ false
    → is_specific ip ≡ true
    → 1 ≤ port
    → port < 2 ^ 16
    → (response : List ℕ) × (handle_udp config false write_to
          (udp_addr ip port)
          (request_bytes (record { transaction_id = id; change_ip = false; change_port = false }))
        ≡ answered response)
      × Tells id port ip response
unfolding handle_udp
handle_udp_answers config write_to id ip port made whole sized four specified specific low high =
    let request : BindingRequest = record {
      transaction_id = id;
      change_ip = false;
      change_port = false;
    } in
    let mapped : AddrPort = record { addr = some (ip4 ip); port = port } in
    let endpoints = endpoints_of config mapped in
    let (source, changed, built) =
      config_builds config request mapped ip made (peer_valid ip port specified specific low) in
    let response = response_bytes request endpoints ip source changed in
    (
      response,
      rw
          (
            parse_binding_request-request_bytes request sized,
            peer_mapped ip port four specified low high,
            built,
            whole response,
            ==_refl (length response),
          )
          refl,
      response_bytes-Tells request endpoints ip source changed sized four high,
    )
