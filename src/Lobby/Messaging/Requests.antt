-- ===== src/Lobby/Messaging/Requests.antt =====
-- messaging.go: a message that a client writes is parsed to what went in.
use codboz_nx_online.Base.{
  ℕ, ◌+◌, ◌%◌, ◌^◌, ◌≤◌, ◌<◌, ◌≡◌, refl, ap, ◌∙◌, true, List, [], ◌++◌, length, ok, arith,
  length-drop,
}
use codboz_nx_online.Bitdemon.ByteBuffer.{Error}
use codboz_nx_online.Bitdemon.ByteBuffer.Encoding.{uint8_bytes, uint64_bytes, blob_bytes}
use codboz_nx_online.Go.Reading.{pure, wrap, ◌>>=◌}
use codboz_nx_online.Bitdemon.ByteBuffer.Reader.{
  ByteReader, Read, new_byte_reader, remaining, remainder, read_uint8, read_uint64, read_blob,
}
use codboz_nx_online.Bitdemon.ByteBuffer.RoundTrip.{
  Ready, Yields, bind-Yields, wrap-Yields, read_uint8-Yields, read_uint64-Yields,
}
use codboz_nx_online.Bitdemon.ByteBuffer.RoundTrip.Texts.{read_blob-Yields}
use codboz_nx_online.Lobby.Envelope.{valid_client_request_padding}
use codboz_nx_online.Lobby.EventLog.{read_padding}
use codboz_nx_online.Lobby.EventLog.Requests.{padding_short, read_padding-Yields}
use codboz_nx_online.Lobby.Messaging.{
  MessagingRequest, MessagingError, malformed_message, message_task, check_excess, message_fields,
  parse_messaging_request,
}

abbrev pub sent_to : ℕ → List ℕ → MessagingRequest
sent_to recipient message = record { task = 14; recipient = recipient; message = message }

abbrev pub request_bytes : ℕ → List ℕ → List ℕ → List ℕ
request_bytes recipient message padding =
    uint8_bytes true 14 ++ (uint64_bytes true recipient ++ (blob_bytes true message ++ padding))

check_excess-Yields :
    (padding : List ℕ) (r : ByteReader)
    → length padding ≤ 8
    → Ready true padding r
    → Yields true tt padding (check_excess r)
unfolding check_excess remaining remainder
check_excess-Yields padding r short (at, mode) =
    (r, ground (arith, length-drop r.offset r.bytes, ap length at), (at, mode))

message_fields-Yields :
    (recipient : ℕ) (message : List ℕ) (seed : ℕ) (padding : List ℕ) (r : ByteReader)
    → recipient < 2 ^ 64
    → length message ≤ 4096
    → valid_client_request_padding padding seed ≡ true
    → Ready true (request_bytes recipient message padding) r
    → Yields true (sent_to recipient message) [] (message_fields seed r)
unfolding message_fields message_task
message_fields-Yields recipient message seed padding r fits small valid ready =
    let bad : Error → MessagingError = λ _. malformed_message in
    let sent = sent_to recipient message in
    let made : ℕ → ℕ → List ℕ → MessagingRequest =
      λ t n m. record { task = t; recipient = n; message = m } in
    let after_check : ℕ → ℕ → List ℕ → Read MessagingError MessagingRequest =
      λ t n m. read_padding seed malformed_message >>= λ _. pure (made t n m) in
    let after_message : ℕ → ℕ → List ℕ → Read MessagingError MessagingRequest =
      λ t n m. check_excess >>= λ _. after_check t n m in
    let after_recipient : ℕ → ℕ → Read MessagingError MessagingRequest =
      λ t n. wrap bad (read_blob 4096) >>= after_message t n in
    let after_task : ℕ → Read MessagingError MessagingRequest =
      λ t. wrap bad read_uint64 >>= after_recipient t in
    let first : ℕ → Read MessagingError MessagingRequest =
      λ t. message_task t >>= λ _. after_task t in
    let blobbed : List ℕ = blob_bytes true message ++ padding in
    let numbered : List ℕ = uint64_bytes true recipient ++ blobbed in
    bind-Yields true 14 sent numbered [] (wrap bad read_uint8) first r
      (wrap-Yields bad true 14 numbered read_uint8 r (read_uint8-Yields true numbered r 14 ready))
      (λ s1 ready1.
        bind-Yields true recipient sent blobbed [] (wrap bad read_uint64) (after_recipient 14) s1
          (wrap-Yields bad true recipient blobbed read_uint64 s1
            (read_uint64-Yields true blobbed s1 recipient fits ready1))
          (λ s2 ready2.
            bind-Yields true message sent padding [] (wrap bad (read_blob 4096))
              (after_message 14 recipient) s2
              (wrap-Yields bad true message padding (read_blob 4096) s2
                (read_blob-Yields true padding s2 4096 message small (omega arith) ready2))
              (λ s3 ready3.
                bind-Yields true tt sent padding [] check_excess
                  (λ _. after_check 14 recipient message) s3
                  (check_excess-Yields padding s3 (padding_short padding seed valid) ready3)
                  (λ s4 ready4.
                    bind-Yields true tt sent [] [] (read_padding seed malformed_message)
                      (λ _. pure sent) s4
                      (read_padding-Yields seed malformed_message padding s4 valid ready4)
                      (λ s5 ready5. (s5, refl, ready5))))))

whole_blocks :
    (payload : List ℕ) (seed : ℕ)
    → (length payload + 5) % 8 ≡ 0
    → parse_messaging_request payload seed ≡ (message_fields seed (new_byte_reader payload true)).0
unfolding parse_messaging_request
whole_blocks payload seed whole = ground arith

-- A message of 4096 bytes at most to a recipient, written with type tags and followed by padding
-- that is valid for its seed and fills the encrypted blocks, is parsed to its recipient and its
-- bytes.
pub parse_messaging_request-request_bytes :
    (recipient : ℕ) (message : List ℕ) (seed : ℕ) (padding : List ℕ)
    → recipient < 2 ^ 64
    → length message ≤ 4096
    → valid_client_request_padding padding seed ≡ true
    → (length (request_bytes recipient message padding) + 5) % 8 ≡ 0
    → parse_messaging_request (request_bytes recipient message padding) seed
      ≡ ok (sent_to recipient message)
unfolding new_byte_reader remainder
parse_messaging_request-request_bytes recipient message seed padding fits small valid whole =
    let bytes = request_bytes recipient message padding in
    let (r, e, ready) =
      message_fields-Yields recipient message seed padding (new_byte_reader bytes true) fits small
        valid (refl, refl) in
    whole_blocks bytes seed whole ∙ ap (λ out. out.0) e
