-- ===== src/Lobby/Matchmaking.antt =====
-- internal/online/lobby/matchmaking.go: the data of a matchmaking session and of a request. A string
-- is the list of its bytes. The attributes keep the offsets that the source names them by.
pub mod Requests
use codboz_nx_online.Base.{ℕ, not, ◌&&◌, List, ltb, ◌==◌, if◌then◌else◌, length, Result, ok, err}
use codboz_nx_online.Go.Int32.{ℤ}

abbrev pub matchmaking_service_id : ℕ
matchmaking_service_id = 0x15

abbrev pub matchmaking_task_create : ℕ
matchmaking_task_create = 0x01

abbrev pub matchmaking_task_update : ℕ
matchmaking_task_update = 0x02

abbrev pub matchmaking_task_delete : ℕ
matchmaking_task_delete = 0x03

abbrev pub matchmaking_task_find : ℕ
matchmaking_task_find = 0x05

abbrev pub matchmaking_session_id_size : ℕ
matchmaking_session_id_size = 8

abbrev pub max_host_address_size : ℕ
max_host_address_size = 255

abbrev pub max_matchmaking_text_bytes : ℕ
max_matchmaking_text_bytes = 31

abbrev pub max_find_results : ℕ
max_find_results = 50

abbrev pub matchmaking_wildcard_key : ℕ
matchmaking_wildcard_key = 5381

-- MatchmakingSessionID, an array of 8 bytes.
abbrev pub MatchmakingSessionId : Type 0
MatchmakingSessionId = List ℕ

pub record MatchmakingAttributes : Type 0 where
  pub app_u32_at_11c : ℕ
  pub app_u32_at_120 : ℕ
  pub app_u64_at_128 : ℕ
  pub app_string_at_130 : List ℕ
  pub app_u32_at_154 : ℕ
  pub app_u32_at_158 : ℕ
  pub app_i32_at_15c : ℤ

pub record MatchmakingInfo : Type 0 where
  pub host_address : List ℕ
  pub session_id : MatchmakingSessionId
  pub game_type : ℕ
  pub max_players : ℕ
  pub num_players : ℕ
  pub attributes : MatchmakingAttributes

pub record MatchmakingQuery : Type 0 where
  pub key : ℕ
  pub value : ℤ

pub record MatchmakingRequest : Type 0 where
  pub task : ℕ
  pub session_id : MatchmakingSessionId
  pub info : MatchmakingInfo
  pub num_params : ℕ
  pub offset : ℕ
  pub max_results : ℕ
  pub query : MatchmakingQuery

pub data MatchmakingError : Type 0 where
  malformed identity_too_long unsupported_task unsupported_query : MatchmakingError

-- The account's name replaces the one in a create or update request.
unfoldable pub bind_matchmaking_identity :
    MatchmakingRequest → List ℕ → Result MatchmakingError MatchmakingRequest
bind_matchmaking_identity request username =
    if not (request.task == matchmaking_task_create)
      && not (request.task == matchmaking_task_update)
    then ok request
    else if ltb max_matchmaking_text_bytes (length username)
    then err identity_too_long
    else ok (record request {
      info = record request.info {
        attributes = record request.info.attributes { app_string_at_130 = username };
      };
    })
