-- ===== src/Lobby/EventLog/Requests.antt =====
-- eventlog.go: a request that a client writes is parsed to what went in.
use codboz_nx_online.Base.{
  ℕ, ◌%◌, ◌^◌, ◌≤◌, ◌<◌, ◌≡◌, refl, sym, ap, ◌∙◌, true, List, [], ◌++◌, append-nil, if◌then◌else◌,
  length, ok, arith, length-drop,
}
use codboz_nx_online.Bitdemon.ByteBuffer.{Error}
use codboz_nx_online.Bitdemon.ByteBuffer.Encoding.{uint8_bytes, uint32_bytes, blob_bytes}
use codboz_nx_online.Go.Reading.{pure, raise, wrap, ◌>>=◌}
use codboz_nx_online.Bitdemon.ByteBuffer.Reader.{
  ByteReader, Read, new_byte_reader, remaining, remainder, read_raw, read_uint8, read_uint32,
  read_blob,
}
use codboz_nx_online.Bitdemon.ByteBuffer.RoundTrip.{
  Ready, Yields, bind-Yields, wrap-Yields, read_raw-Yields, read_uint8-Yields, read_uint32-Yields,
}
use codboz_nx_online.Bitdemon.ByteBuffer.RoundTrip.Texts.{read_blob-Yields}
use codboz_nx_online.Lobby.Envelope.{valid_client_request_padding}
use codboz_nx_online.Lobby.EventLog.{
  EventLogRequest, EventLogError, malformed_event, read_padding, event_task, event_log_fields,
  parse_event_log_request,
}

pub padding_short :
    (padding : List ℕ) (seed : ℕ)
    → valid_client_request_padding padding seed ≡ true
    → length padding ≤ 8
unfolding valid_client_request_padding
padding_short padding seed valid = ground arith

Ready-remaining :
    (padding : List ℕ) (r : ByteReader)
    → length padding ≤ 8
    → Ready true padding r
    → remaining r % 2 ^ 32 ≡ length padding
unfolding remaining remainder
Ready-remaining padding r short (at, mode) =
    omega (arith, length-drop r.offset r.bytes, ap length at)

-- The last bytes of a request, when they are valid padding.
pub read_padding-Yields :
    {E : Type 0} (seed : ℕ) (e : E) (padding : List ℕ) (r : ByteReader)
    → valid_client_request_padding padding seed ≡ true
    → Ready true padding r
    → Yields true tt [] (read_padding seed e r)
unfolding read_padding
read_padding-Yields {E} seed e padding r valid (at, mode) =
    let size = Ready-remaining padding r (padding_short padding seed valid) (at, mode) in
    let check : List ℕ → Read E (Unit {0}) =
      λ bs. if valid_client_request_padding bs seed then pure tt else raise e in
    rw size (
      bind-Yields true padding tt [] [] (wrap (λ _. e) (read_raw (length padding))) check r
        (wrap-Yields (λ _. e) true padding [] (read_raw (length padding)) r
          (read_raw-Yields true [] r padding (at ∙ sym (append-nil padding), mode)))
        (λ s ready. (s, rw valid refl, ready)))

abbrev pub logged : List ℕ → ℕ → EventLogRequest
logged blob category = record { task = 2; blob = blob; category = category }

abbrev pub request_bytes : List ℕ → ℕ → List ℕ → List ℕ
request_bytes blob category padding =
    uint8_bytes true 2 ++ (blob_bytes true blob ++ (uint32_bytes true category ++ padding))

event_log_fields-Yields :
    (blob : List ℕ) (category seed : ℕ) (padding : List ℕ) (r : ByteReader)
    → length blob ≤ 65536
    → category < 2 ^ 32
    → valid_client_request_padding padding seed ≡ true
    → Ready true (request_bytes blob category padding) r
    → Yields true (logged blob category) [] (event_log_fields seed r)
unfolding event_log_fields event_task
event_log_fields-Yields blob category seed padding r small fits valid ready =
    let bad : Error → EventLogError = λ _. malformed_event in
    let made : ℕ → List ℕ → ℕ → EventLogRequest =
      λ t b c. record { task = t; blob = b; category = c } in
    let after_category : ℕ → List ℕ → ℕ → Read EventLogError EventLogRequest =
      λ t b c. read_padding seed malformed_event >>= λ _. pure (made t b c) in
    let after_blob : ℕ → List ℕ → Read EventLogError EventLogRequest =
      λ t b. wrap bad read_uint32 >>= after_category t b in
    let after_task : ℕ → Read EventLogError EventLogRequest =
      λ t. wrap bad (read_blob 65536) >>= after_blob t in
    let first : ℕ → Read EventLogError EventLogRequest = λ t. event_task t >>= λ _. after_task t in
    let sized : List ℕ = uint32_bytes true category ++ padding in
    bind-Yields true 2 (logged blob category) (blob_bytes true blob ++ sized) []
      (wrap bad read_uint8) first r
      (wrap-Yields bad true 2 (blob_bytes true blob ++ sized) read_uint8 r
        (read_uint8-Yields true (blob_bytes true blob ++ sized) r 2 ready))
      (λ s1 ready1.
        bind-Yields true blob (logged blob category) sized [] (wrap bad (read_blob 65536))
          (after_blob 2) s1
          (wrap-Yields bad true blob sized (read_blob 65536) s1
            (read_blob-Yields true sized s1 65536 blob small (omega arith) ready1))
          (λ s2 ready2.
            bind-Yields true category (logged blob category) padding [] (wrap bad read_uint32)
              (after_category 2 blob) s2
              (wrap-Yields bad true category padding read_uint32 s2
                (read_uint32-Yields true padding s2 category fits ready2))
              (λ s3 ready3.
                bind-Yields true tt (logged blob category) [] [] (read_padding seed malformed_event)
                  (λ _. pure (logged blob category)) s3
                  (read_padding-Yields seed malformed_event padding s3 valid ready3)
                  (λ s4 ready4. (s4, refl, ready4)))))

-- A log request with a blob of 65536 bytes at most, written with type tags and followed by padding
-- that is valid for its seed, is parsed to its blob and its category.
pub parse_event_log_request-request_bytes :
    (blob : List ℕ) (category seed : ℕ) (padding : List ℕ)
    → length blob ≤ 65536
    → category < 2 ^ 32
    → valid_client_request_padding padding seed ≡ true
    → parse_event_log_request (request_bytes blob category padding) seed ≡ ok (logged blob category)
unfolding parse_event_log_request new_byte_reader remainder
parse_event_log_request-request_bytes blob category seed padding small fits valid =
    let (r, e, ready) =
      event_log_fields-Yields blob category seed padding
        (new_byte_reader (request_bytes blob category padding) true) small fits valid
        (refl, refl) in
    ap (λ out. out.0) e
