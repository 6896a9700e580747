-- ===== src/Lobby/Matchmaking/Requests.antt =====
-- matchmaking.go: parsing of the requests, and what is written of a session in a reply.
pub mod RoundTrip
use codboz_nx_online.Base.{
  ℕ, Bool, true, false, not, ◌||◌, List, [], ltb, ◌==◌, if◌then◌else◌, length, replicate, Result,
  ok, err, bind, map_err,
}
use codboz_nx_online.Go.Int32.{ℤ, pos}
use codboz_nx_online.Go.Reading.{pure, raise, wrap, ◌>>=◌, ◌>>◌}
use codboz_nx_online.Bitdemon.ByteBuffer.Reader.{
  Read, new_byte_reader, read_uint8, read_uint32, read_uint64, read_int32, read_string, read_blob,
}
use codboz_nx_online.Bitdemon.ByteBuffer.Writer.{
  ByteWriter, write_uint32, write_uint64, write_int32, write_string, write_blob,
}
use codboz_nx_online.Lobby.EventLog.{read_padding}
use codboz_nx_online.Lobby.Matchmaking.{
  MatchmakingSessionId, MatchmakingAttributes, MatchmakingInfo, MatchmakingQuery,
  MatchmakingRequest, MatchmakingError, malformed, unsupported_task, unsupported_query,
  matchmaking_task_create, matchmaking_task_update, matchmaking_task_delete, matchmaking_task_find,
  matchmaking_session_id_size, max_host_address_size, max_matchmaking_text_bytes, max_find_results,
}

-- The zero values of the types.
abbrev pub zero_attributes : MatchmakingAttributes
zero_attributes = record {
  app_u32_at_11c = 0;
  app_u32_at_120 = 0;
  app_u64_at_128 = 0;
  app_string_at_130 = [];
  app_u32_at_154 = 0;
  app_u32_at_158 = 0;
  app_i32_at_15c = pos 0;
}

abbrev pub zero_info : MatchmakingInfo
zero_info = record {
  host_address = [];
  session_id = replicate 8 0;
  game_type = 0;
  max_players = 0;
  num_players = 0;
  attributes = zero_attributes;
}

-- `MatchmakingRequest{Task: task}`
abbrev pub request_of : ℕ → MatchmakingRequest
request_of task = record {
  task = task;
  session_id = replicate 8 0;
  info = zero_info;
  num_params = 0;
  offset = 0;
  max_results = 0;
  query = record { key = 0; value = pos 0 };
}

-- Each reader's errors end in malformedMatchmaking, whatever the step.
unfoldable pub read_matchmaking_session_id : Read MatchmakingError MatchmakingSessionId
read_matchmaking_session_id = do
  encoded ← wrap (λ _. malformed) (read_blob matchmaking_session_id_size)
  if length encoded == matchmaking_session_id_size then pure encoded else raise malformed

unfoldable pub read_matchmaking_attributes : Read MatchmakingError MatchmakingAttributes
read_matchmaking_attributes = do
  at_11c ← wrap (λ _. malformed) read_uint32
  at_120 ← wrap (λ _. malformed) read_uint32
  at_128 ← wrap (λ _. malformed) read_uint64
  at_130 ← wrap (λ _. malformed) (read_string max_matchmaking_text_bytes)
  at_154 ← wrap (λ _. malformed) read_uint32
  at_158 ← wrap (λ _. malformed) read_uint32
  at_15c ← wrap (λ _. malformed) read_int32
  pure (record {
    app_u32_at_11c = at_11c;
    app_u32_at_120 = at_120;
    app_u64_at_128 = at_128;
    app_string_at_130 = at_130;
    app_u32_at_154 = at_154;
    app_u32_at_158 = at_158;
    app_i32_at_15c = at_15c;
  })

unfoldable pub read_matchmaking_request_info : Read MatchmakingError MatchmakingInfo
unfolding read_matchmaking_attributes
read_matchmaking_request_info = do
  host_address ← wrap (λ _. malformed) (read_blob max_host_address_size)
  game_type ← wrap (λ _. malformed) read_uint32
  max_players ← wrap (λ _. malformed) read_uint32
  attributes ← read_matchmaking_attributes
  pure (record zero_info {
    host_address = host_address;
    game_type = game_type;
    max_players = max_players;
    attributes = attributes;
  })

-- The cases of the switch on the task.
unfoldable pub create_arguments : Read MatchmakingError MatchmakingRequest
unfolding read_matchmaking_request_info
create_arguments = do
  info ← read_matchmaking_request_info
  pure (record (request_of matchmaking_task_create) { info = info })

unfoldable pub update_arguments : Read MatchmakingError MatchmakingRequest
unfolding read_matchmaking_session_id read_matchmaking_request_info
update_arguments = do
  session_id ← read_matchmaking_session_id
  info ← read_matchmaking_request_info
  pure (record (request_of matchmaking_task_update) { session_id = session_id; info = info })

unfoldable pub delete_arguments : Read MatchmakingError MatchmakingRequest
unfolding read_matchmaking_session_id
delete_arguments = do
  session_id ← read_matchmaking_session_id
  pure (record (request_of matchmaking_task_delete) { session_id = session_id })

unfoldable pub check_find : ℕ → ℕ → Read MatchmakingError (Unit {0})
check_find num_params max_results =
    if not (num_params == 1) || ltb max_find_results max_results
    then raise unsupported_query
    else pure tt

unfoldable pub find_arguments : Read MatchmakingError MatchmakingRequest
unfolding check_find
find_arguments = do
  num_params ← wrap (λ _. malformed) read_uint32
  offset ← wrap (λ _. malformed) read_uint32
  max_results ← wrap (λ _. malformed) read_uint32
  check_find num_params max_results
  key ← wrap (λ _. malformed) read_uint32
  value ← wrap (λ _. malformed) read_int32
  pure (record (request_of matchmaking_task_find) {
    num_params = num_params;
    offset = offset;
    max_results = max_results;
    query = record { key = key; value = value };
  })

unfoldable pub task_arguments : ℕ → Read MatchmakingError MatchmakingRequest
unfolding create_arguments update_arguments delete_arguments find_arguments
task_arguments task =
    if task == matchmaking_task_create
    then create_arguments
    else if task == matchmaking_task_update
    then update_arguments
    else if task == matchmaking_task_delete
    then delete_arguments
    else if task == matchmaking_task_find
    then find_arguments
    else raise unsupported_task

unfoldable pub matchmaking_fields : ℕ → Read MatchmakingError MatchmakingRequest
unfolding task_arguments
matchmaking_fields seed = do
  task ← wrap (λ _. malformed) read_uint8
  request ← task_arguments task
  read_padding seed malformed
  pure request

unfoldable pub parse_matchmaking_request : List ℕ → ℕ → Result MatchmakingError MatchmakingRequest
unfolding matchmaking_fields
parse_matchmaking_request payload seed = (matchmaking_fields seed (new_byte_reader payload true)).0

unfoldable pub write_matchmaking_session_id :
    MatchmakingSessionId → ByteWriter → Result MatchmakingError ByteWriter
write_matchmaking_session_id session_id w = map_err (λ _. malformed) (write_blob session_id w)

abbrev write_numbers : MatchmakingInfo → ByteWriter → ByteWriter
write_numbers info w =
    let w1 =
      write_uint32 info.num_players
        (write_uint32 info.max_players (write_uint32 info.game_type w)) in
    let w2 =
      write_uint32 info.attributes.app_u32_at_120
        (write_uint32 info.attributes.app_u32_at_11c w1) in
    write_uint64 info.attributes.app_u64_at_128 w2

abbrev write_last : MatchmakingInfo → ByteWriter → ByteWriter
write_last info w =
    let w1 =
      write_uint32 info.attributes.app_u32_at_158 (write_uint32 info.attributes.app_u32_at_154 w) in
    write_int32 info.attributes.app_i32_at_15c w1

-- The errors of the writer are written as `malformed` too: its callers only pass them on.
unfoldable pub write_matchmaking_result :
    MatchmakingInfo → ByteWriter → Result MatchmakingError ByteWriter
unfolding write_matchmaking_session_id
write_matchmaking_result info w =
    let write_text = λ (w' : ByteWriter).
      map_err (λ _. malformed) (write_string info.attributes.app_string_at_130 w') in
    if ltb max_host_address_size (length info.host_address)
      || ltb max_matchmaking_text_bytes (length info.attributes.app_string_at_130)
    then err malformed
    else bind (map_err (λ _. malformed) (write_blob info.host_address w)) (λ w1.
      bind (write_matchmaking_session_id info.session_id w1)
        (λ w2. bind (write_text (write_numbers info w2)) (λ w3. ok (write_last info w3))))
