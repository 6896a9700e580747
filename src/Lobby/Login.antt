-- ===== src/Lobby/Login.antt =====
-- internal/online/lobby/lsg.go: the login that a client sends first.
pub mod Requests
use codboz_nx_online.Base.{
  ℕ, Bool, true, false, not, ◌||◌, List, [], ◌∷◌, ◌==◌, if◌then◌else◌, length, drop, get_or, Result,
  err,
}
use codboz_nx_online.Go.Reading.{pure, raise, wrap, ◌>>=◌, ◌>>◌}
use codboz_nx_online.Bitdemon.BitBuffer.{
  Read, new_bit_reader, set_reading_mode, read_type_checked_flag, read_uint32, read_raw,
}
use codboz_nx_online.Auth.LobbySession.{boz_title_id}
use codboz_nx_online.Auth.Messages.{check_padding}

abbrev pub lsg_service_id : ℕ
lsg_service_id = 0x07

abbrev pub lsg_login_body_size : ℕ
lsg_login_body_size = 140

abbrev pub lsg_auth_blob_size : ℕ
lsg_auth_blob_size = 128

pub data LoginError : Type 0 where
  malformed_login invalid_identity : LoginError

pub record LsgLogin : Type 0 where
  pub title_id : ℕ
  pub ticket_seed : ℕ
  pub auth_blob : List ℕ

abbrev require : Bool → LoginError → Read LoginError (Unit {0})
require b e = if b then pure tt else raise e

unfoldable pub login_fields : List ℕ → Read LoginError LsgLogin
unfolding check_padding
login_fields body = do
  checked ← wrap (λ _. malformed_login) read_type_checked_flag
  require checked malformed_login
  title_id ← wrap (λ _. malformed_login) read_uint32
  require (title_id == boz_title_id) invalid_identity
  ticket_seed ← wrap (λ _. malformed_login) read_uint32
  set_reading_mode false
  auth_blob ← wrap (λ _. malformed_login) (read_raw lsg_auth_blob_size)
  check_padding malformed_login body
  pure (record { title_id = title_id; ticket_seed = ticket_seed; auth_blob = auth_blob })

unfoldable pub parse_lsg_login_body : List ℕ → Result LoginError LsgLogin
unfolding login_fields
parse_lsg_login_body body =
    if not (length body == lsg_login_body_size)
    then err malformed_login
    else if not (get_or body 0 0 == 0) || not (get_or body 1 0 == lsg_service_id)
    then err malformed_login
    else (login_fields body (new_bit_reader (drop 2 body))).0
