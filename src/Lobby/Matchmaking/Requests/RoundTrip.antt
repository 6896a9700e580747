-- ===== src/Lobby/Matchmaking/Requests/RoundTrip.antt =====
-- matchmaking.go: a request that a client writes is parsed to what went in.
use codboz_nx_online.Base.{
  ℕ, ◌^◌, ◌≤◌, ◌<◌, ◌≡◌, refl, ap, true, false, List, [], ◌++◌, length, ok, arith, le→ltb,
}
use codboz_nx_online.Go.Bytes.{contains_byte}
use codboz_nx_online.Go.Int32.{IsInt32}
use codboz_nx_online.Go.Reading.{wrap, then-Gives}
use codboz_nx_online.Bitdemon.ByteBuffer.Encoding.{
  uint8_bytes, uint32_bytes, uint64_bytes, int32_bytes, string_bytes, blob_bytes,
}
use codboz_nx_online.Bitdemon.ByteBuffer.Reader.{
  ByteReader, new_byte_reader, remainder, read_uint8, read_uint32, read_uint64, read_int32,
  read_string, read_blob,
}
use codboz_nx_online.Bitdemon.ByteBuffer.RoundTrip.{
  Ready, Yields, wrap-Yields, read_uint8-Yields, read_uint32-Yields, read_uint64-Yields,
  read_int32-Yields,
}
use codboz_nx_online.Bitdemon.ByteBuffer.RoundTrip.Texts.{read_string-Yields, read_blob-Yields}
use codboz_nx_online.Lobby.Envelope.{valid_client_request_padding}
use codboz_nx_online.Lobby.EventLog.Requests.{read_padding-Yields}
use codboz_nx_online.Lobby.Matchmaking.{
  MatchmakingSessionId, MatchmakingAttributes, MatchmakingInfo, MatchmakingQuery,
  MatchmakingRequest, MatchmakingError, malformed,
}
use codboz_nx_online.Lobby.Matchmaking.Requests.{
  zero_info, request_of, read_matchmaking_session_id, read_matchmaking_attributes,
  read_matchmaking_request_info, create_arguments, update_arguments, delete_arguments, check_find,
  find_arguments, task_arguments, matchmaking_fields, parse_matchmaking_request,
}

abbrev bad : {E : Type 0} → E → MatchmakingError
bad e = malformed

module _ (rest : List ℕ) (r : ByteReader) where
  number-Yields :
      (n : ℕ)
      → n < 2 ^ 32
      → Ready true (uint32_bytes true n ++ rest) r
      → Yields true n rest (wrap (λ _. malformed) read_uint32 r)
  number-Yields n small ready =
      wrap-Yields bad true n rest read_uint32 r (read_uint32-Yields true rest r n small ready)

  blob-Yields :
      (max : ℕ) (v : List ℕ)
      → length v ≤ max
      → max ≤ 255
      → Ready true (blob_bytes true v ++ rest) r
      → Yields true v rest (wrap (λ _. malformed) (read_blob max) r)
  blob-Yields max v short small ready =
      wrap-Yields bad true v rest (read_blob max) r
        (read_blob-Yields true rest r max v short (omega arith) ready)

  session_id-Yields :
      (id : MatchmakingSessionId)
      → length id ≡ 8
      → Ready true (blob_bytes true id ++ rest) r
      → Yields true id rest (read_matchmaking_session_id r)
  unfolding read_matchmaking_session_id
  session_id-Yields id size ready =
      then-Gives _ (blob-Yields 8 id (omega arith) (omega arith) ready)
        (λ s ready1. (s, rw size refl, ready1))

abbrev attributes_bytes : MatchmakingAttributes → List ℕ → List ℕ
attributes_bytes a rest =
    uint32_bytes true a.app_u32_at_11c
    ++ (uint32_bytes true a.app_u32_at_120
        ++ (uint64_bytes true a.app_u64_at_128
            ++ (string_bytes true a.app_string_at_130
                ++ (uint32_bytes true a.app_u32_at_154
                    ++ (uint32_bytes true a.app_u32_at_158
                        ++ (int32_bytes true a.app_i32_at_15c ++ rest))))))

-- The numbers fit their fields, and the text is short and holds no zero byte.
pub record FitAttributes (a : MatchmakingAttributes) : Type 0 where
  pub fits_11c : a.app_u32_at_11c < 2 ^ 32
  pub fits_120 : a.app_u32_at_120 < 2 ^ 32
  pub fits_128 : a.app_u64_at_128 < 2 ^ 64
  pub short_130 : length a.app_string_at_130 ≤ 31
  pub clean_130 : contains_byte 0 a.app_string_at_130 ≡ false
  pub fits_154 : a.app_u32_at_154 < 2 ^ 32
  pub fits_158 : a.app_u32_at_158 < 2 ^ 32
  pub fits_15c : IsInt32 a.app_i32_at_15c

attributes-Yields :
    (a : MatchmakingAttributes) (rest : List ℕ) (r : ByteReader)
    → FitAttributes a
    → Ready true (attributes_bytes a rest) r
    → Yields true a rest (read_matchmaking_attributes r)
unfolding read_matchmaking_attributes
attributes-Yields a rest r fit ready =
    then-Gives _ (number-Yields _ r a.app_u32_at_11c fit.fits_11c ready) (λ s1 ready1.
      then-Gives _ (number-Yields _ s1 a.app_u32_at_120 fit.fits_120 ready1) (λ s2 ready2.
        then-Gives _
          (wrap-Yields bad true a.app_u64_at_128 _ read_uint64 s2
            (read_uint64-Yields true _ s2 a.app_u64_at_128 fit.fits_128 ready2))
          (λ s3 ready3.
            then-Gives _
              (wrap-Yields bad true a.app_string_at_130 _ (read_string 31) s3 (
                read_string-Yields true _ s3 31 a.app_string_at_130 fit.short_130 fit.clean_130
                  ready3))
              (λ s4 ready4.
                then-Gives _ (number-Yields _ s4 a.app_u32_at_154 fit.fits_154 ready4) (λ s5 ready5.
                  then-Gives _ (number-Yields _ s5 a.app_u32_at_158 fit.fits_158 ready5)
                    (λ s6 ready6.
                      then-Gives _
                        (wrap-Yields bad true a.app_i32_at_15c rest read_int32 s6
                          (read_int32-Yields true rest s6 a.app_i32_at_15c fit.fits_15c ready6))
                        (λ s7 ready7. (s7, refl, ready7))))))))

-- What a client tells of its session.
pub record Hosted : Type 0 where
  pub host_address : List ℕ
  pub game_type : ℕ
  pub max_players : ℕ
  pub attributes : MatchmakingAttributes

pub record FitHosted (h : Hosted) : Type 0 where
  pub short_address : length h.host_address ≤ 255
  pub fits_type : h.game_type < 2 ^ 32
  pub fits_players : h.max_players < 2 ^ 32
  pub fit_attributes : FitAttributes h.attributes

abbrev pub info_of : Hosted → MatchmakingInfo
info_of h = record zero_info {
  host_address = h.host_address;
  game_type = h.game_type;
  max_players = h.max_players;
  attributes = h.attributes;
}

abbrev hosted_bytes : Hosted → List ℕ → List ℕ
hosted_bytes h rest =
    blob_bytes true h.host_address
    ++ (uint32_bytes true h.game_type
        ++ (uint32_bytes true h.max_players ++ attributes_bytes h.attributes rest))

info-Yields :
    (h : Hosted) (rest : List ℕ) (r : ByteReader)
    → FitHosted h
    → Ready true (hosted_bytes h rest) r
    → Yields true (info_of h) rest (read_matchmaking_request_info r)
unfolding read_matchmaking_request_info
info-Yields h rest r fit ready =
    then-Gives _ (blob-Yields _ r 255 h.host_address fit.short_address (omega arith) ready)
      (λ s1 ready1. then-Gives _ (number-Yields _ s1 h.game_type fit.fits_type ready1) (λ s2 ready2.
        then-Gives _ (number-Yields _ s2 h.max_players fit.fits_players ready2) (λ s3 ready3.
          then-Gives _ (attributes-Yields h.attributes rest s3 fit.fit_attributes ready3)
            (λ s4 ready4. (s4, refl, ready4)))))

-- A request as a client means it.
pub data Wish : Type 0 where
  creates : Hosted → Wish
  updates : MatchmakingSessionId → Hosted → Wish
  deletes : MatchmakingSessionId → Wish
  finds : ℕ → ℕ → MatchmakingQuery → Wish

abbrev pub Fit : Wish → Type 0
Fit (creates h) = FitHosted h
Fit (updates id h) = (length id ≡ 8) × FitHosted h
Fit (deletes id) = length id ≡ 8
Fit (finds offset limit query) =
    (offset < 2 ^ 32) × (limit ≤ 50) × (query.key < 2 ^ 32) × IsInt32 query.value

abbrev pub task_of : Wish → ℕ
task_of (creates h) = 1
task_of (updates id h) = 2
task_of (deletes id) = 3
task_of (finds offset limit query) = 5

abbrev pub argument_bytes : Wish → List ℕ → List ℕ
argument_bytes (creates h) rest = hosted_bytes h rest
argument_bytes (updates id h) rest = blob_bytes true id ++ hosted_bytes h rest
argument_bytes (deletes id) rest = blob_bytes true id ++ rest
argument_bytes (finds offset limit query) rest =
    uint32_bytes true 1
    ++ (uint32_bytes true offset
        ++ (uint32_bytes true limit
            ++ (uint32_bytes true query.key ++ (int32_bytes true query.value ++ rest))))

abbrev pub request_bytes : Wish → List ℕ → List ℕ
request_bytes wish padding = uint8_bytes true (task_of wish) ++ argument_bytes wish padding

abbrev pub requested : Wish → MatchmakingRequest
requested (creates h) = record (request_of 1) { info = info_of h }
requested (updates id h) = record (request_of 2) { session_id = id; info = info_of h }
requested (deletes id) = record (request_of 3) { session_id = id }
requested (finds offset limit query) = record (request_of 5) {
  num_params = 1;
  offset = offset;
  max_results = limit;
  query = query;
}

arguments-Yields :
    (wish : Wish) (rest : List ℕ) (r : ByteReader)
    → Fit wish
    → Ready true (argument_bytes wish rest) r
    → Yields true (requested wish) rest (task_arguments (task_of wish) r)
unfolding task_arguments
arguments-Yields (creates h) rest r fit ready =
    unfold create_arguments in
    then-Gives _ (info-Yields h rest r fit ready) (λ s ready1. (s, refl, ready1))
arguments-Yields (updates id h) rest r (size, fit) ready =
    unfold update_arguments in
    then-Gives _ (session_id-Yields _ r id size ready) (λ s1 ready1.
      then-Gives _ (info-Yields h rest s1 fit ready1) (λ s2 ready2. (s2, refl, ready2)))
arguments-Yields (deletes id) rest r size ready =
    unfold delete_arguments in
    then-Gives _ (session_id-Yields rest r id size ready) (λ s ready1. (s, refl, ready1))
arguments-Yields (finds offset limit query) rest r (far, few, keyed, valued) ready =
    unfold find_arguments in
    then-Gives _ (number-Yields _ r 1 (omega arith) ready) (λ s1 ready1.
      then-Gives _ (number-Yields _ s1 offset far ready1) (λ s2 ready2.
        then-Gives _ (number-Yields _ s2 limit (omega arith) ready2) (λ s3 ready3.
          then-Gives _ (check_find-Yields s3 ready3) (λ s4 ready4.
            then-Gives _ (number-Yields _ s4 query.key keyed ready4) (λ s5 ready5.
              then-Gives _
                (wrap-Yields bad true query.value rest read_int32 s5
                  (read_int32-Yields true rest s5 query.value valued ready5))
                (λ s6 ready6. (s6, refl, ready6)))))))
  where
    check_find-Yields :
        (s : ByteReader) {xs : List ℕ} → Ready true xs s → Yields true tt xs (check_find 1 limit s)
    check_find-Yields s ready = (s, unfold check_find in rw (le→ltb 50 limit few) refl, ready)

fields-Yields :
    (wish : Wish) (seed : ℕ) (padding : List ℕ) (r : ByteReader)
    → Fit wish
    → valid_client_request_padding padding seed ≡ true
    → Ready true (request_bytes wish padding) r
    → Yields true (requested wish) [] (matchmaking_fields seed r)
unfolding matchmaking_fields
fields-Yields wish seed padding r fit valid ready =
    then-Gives _
      (wrap-Yields bad true (task_of wish) _ read_uint8 r
        (read_uint8-Yields true (argument_bytes wish padding) r (task_of wish) ready))
      (λ s1 ready1. then-Gives _ (arguments-Yields wish padding s1 fit ready1) (λ s2 ready2.
        then-Gives _ (read_padding-Yields seed malformed padding s2 valid ready2)
          (λ s3 ready3. (s3, refl, ready3))))

-- A request to create, to update, to delete or to find sessions, whose numbers fit their fields and
-- whose address and text fit their limits, written with type tags and followed by padding that is
-- valid for its seed, is parsed to what went in.
pub parse_matchmaking_request-request_bytes :
    (wish : Wish) (seed : ℕ) (padding : List ℕ)
    → Fit wish
    → valid_client_request_padding padding seed ≡ true
    → parse_matchmaking_request (request_bytes wish padding) seed ≡ ok (requested wish)
unfolding parse_matchmaking_request new_byte_reader remainder
parse_matchmaking_request-request_bytes wish seed padding fit valid =
    let (r, e, ready) =
      fields-Yields wish seed padding (new_byte_reader (request_bytes wish padding) true) fit valid
        (refl, refl) in
    ap (λ out. out.0) e
