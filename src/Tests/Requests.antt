-- ===== src/Tests/Requests.antt =====
-- Event log, message and Binding requests at concrete inputs.
use Prim.Native.Nat.{bit_and}
use codboz_nx_online.Base.{◌≡◌, refl, true, false, [], ◌∷◌, length, take, drop, arith, ok}
use codboz_nx_online.Go.Binary.{be_value}
use codboz_nx_online.Lobby.Envelope.{valid_client_request_padding}
use codboz_nx_online.Lobby.EventLog.{parse_event_log_request}
use codboz_nx_online.Lobby.EventLog.Requests.{
  logged, request_bytes, parse_event_log_request-request_bytes,
}
use codboz_nx_online.Go.Binary.{le_bytes}
use codboz_nx_online.Lobby.Messaging.{parse_messaging_request}
use codboz_nx_online.Lobby.Messaging.Requests.{
  sent_to, request_bytes as message_bytes, parse_messaging_request-request_bytes,
}
use codboz_nx_online.Go.Bytes.{index_byte}
use codboz_nx_online.Go.Int32.{negsuc}
use codboz_nx_online.Lobby.Matchmaking.Requests.{parse_matchmaking_request}
use codboz_nx_online.Lobby.Matchmaking.Requests.RoundTrip
use codboz_nx_online.Lobby.Matchmaking.Requests.RoundTrip.{
  Hosted, FitHosted, Wish, updates, requested, parse_matchmaking_request-request_bytes,
}
use codboz_nx_online.Base.{ℕ, List, some, none}
use codboz_nx_online.Bitdemon.Frame.Write.{Written}
use codboz_nx_online.Go.Net.{ip4, is_unspecified, is_multicast}
use codboz_nx_online.Stun.Responses.{
  ResponderConfig, new_responder, is_specific, udp_addr, answered, handle_udp,
}
use codboz_nx_online.Stun.Responses.Answers.{Tells, handle_udp_answers}
use codboz_nx_online.Stun.{BindingRequest, parse_binding_request}
use codboz_nx_online.Stun.Requests
use codboz_nx_online.Stun.Requests.{
  parse_binding_request-request_bytes, parse_binding_request_sound,
}

parse_event_log_request-request_bytes_example :
    parse_event_log_request (request_bytes (1 ∷ 2 ∷ []) 70000 (0 ∷ 9 ∷ 9 ∷ [])) 265
    ≡ ok (logged (1 ∷ 2 ∷ []) 70000)
unfolding valid_client_request_padding
parse_event_log_request-request_bytes_example =
    parse_event_log_request-request_bytes (1 ∷ 2 ∷ []) 70000 265 (0 ∷ 9 ∷ 9 ∷ []) (omega arith)
      (omega arith) refl

abbrev request : BindingRequest
request = record {
  transaction_id = 1 ∷ 2 ∷ 3 ∷ 4 ∷ 5 ∷ 6 ∷ 7 ∷ 8 ∷ 9 ∷ 10 ∷ 11 ∷ 12 ∷ 13 ∷ 14 ∷ 15 ∷ 16 ∷ [];
  change_ip = true;
  change_port = false;
}

parse_binding_request-request_bytes_example :
    parse_binding_request (Requests.request_bytes request) ≡ ok request
parse_binding_request-request_bytes_example = parse_binding_request-request_bytes request refl

parse_binding_request_sound_example :
    (length (Requests.request_bytes request) ≡ 28)
    × (be_value (take 2 (Requests.request_bytes request)) ≡ 1)
    × (request.transaction_id ≡ take 16 (drop 4 (Requests.request_bytes request)))
    × (be_value (take 2 (drop 20 (Requests.request_bytes request))) ≡ 3)
    × (bit_and (be_value (take 4 (drop 4 (drop 20 (Requests.request_bytes request))))) 0xffff_fff9
        ≡ 0)
parse_binding_request_sound_example =
    parse_binding_request_sound (Requests.request_bytes request) request
      parse_binding_request-request_bytes_example

parse_messaging_request-request_bytes_example :
    parse_messaging_request (message_bytes 42 (7 ∷ []) (0 ∷ [])) 265 ≡ ok (sent_to 42 (7 ∷ []))
unfolding valid_client_request_padding le_bytes
parse_messaging_request-request_bytes_example =
    parse_messaging_request-request_bytes 42 (7 ∷ []) 265 (0 ∷ []) (omega arith) (omega arith) refl
      refl

abbrev hosted : Hosted
hosted = record {
  host_address = 10 ∷ 0 ∷ 0 ∷ 1 ∷ [];
  game_type = 7;
  max_players = 8;
  attributes = record {
    app_u32_at_11c = 1;
    app_u32_at_120 = 2;
    app_u64_at_128 = 3;
    app_string_at_130 = b'b' ∷ b'o' ∷ b'z' ∷ [];
    app_u32_at_154 = 4;
    app_u32_at_158 = 5;
    app_i32_at_15c = negsuc 0;
  };
}

abbrev update_wish : Wish
update_wish = updates (1 ∷ 2 ∷ 3 ∷ 4 ∷ 5 ∷ 6 ∷ 7 ∷ 8 ∷ []) hosted

hosted-Fit : FitHosted hosted
unfolding index_byte
hosted-Fit = record {
  short_address = omega arith;
  fits_type = omega arith;
  fits_players = omega arith;
  fit_attributes = record {
    fits_11c = omega arith;
    fits_120 = omega arith;
    fits_128 = omega arith;
    short_130 = omega arith;
    clean_130 = refl;
    fits_154 = omega arith;
    fits_158 = omega arith;
    fits_15c = omega arith;
  };
}

parse_matchmaking_request-request_bytes_example :
    parse_matchmaking_request (RoundTrip.request_bytes update_wish (0 ∷ 9 ∷ [])) 265
    ≡ ok (requested update_wish)
unfolding valid_client_request_padding
parse_matchmaking_request-request_bytes_example =
    parse_matchmaking_request-request_bytes update_wish 265 (0 ∷ 9 ∷ []) (refl, hosted-Fit) refl

abbrev responder : ResponderConfig
responder = record {
  source_address = record { addr = some (ip4 (203 ∷ 0 ∷ 113 ∷ 1 ∷ [])); port = 3478 };
  changed_address = record { addr = some (ip4 (203 ∷ 0 ∷ 113 ∷ 2 ∷ [])); port = 3479 };
}

responder_made : new_responder responder ≡ ok responder
unfolding new_responder is_unspecified is_multicast
responder_made = refl

abbrev whole_write : List ℕ → Written
whole_write response = record { count = length response; failure = none }

handle_udp_answers_example :
    (response : List ℕ) × (handle_udp responder false whole_write
        (udp_addr (198 ∷ 51 ∷ 100 ∷ 7 ∷ []) 40000)
        (Requests.request_bytes (record {
          transaction_id = request.transaction_id;
          change_ip = false;
          change_port = false;
        }))
      ≡ answered response)
    × Tells request.transaction_id 40000 (198 ∷ 51 ∷ 100 ∷ 7 ∷ []) response
unfolding is_unspecified is_specific is_multicast
handle_udp_answers_example =
    handle_udp_answers responder whole_write request.transaction_id (198 ∷ 51 ∷ 100 ∷ 7 ∷ []) 40000
      responder_made (λ response. refl) refl refl refl refl (omega arith) (omega arith)
