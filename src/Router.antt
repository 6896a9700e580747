-- ===== src/Router.antt =====
-- internal/online/backend/router.go: which service a connection is for, by its first frame. The
-- buffered reader holds 4096 bytes, more than the router looks at, and Peek takes nothing off.
pub mod Routes
use codboz_nx_online.Base.{
  ℕ, zero, suc, ◌+◌, Bool, true, false, not, ◌||◌, List, [], ◌∷◌, ltb, ◌==◌, if◌then◌else◌, length,
  take, drop, get_or, Result, ok, err,
}
use codboz_nx_online.Go.Binary.{le_value}
use codboz_nx_online.Go.Stream.{IoError, eof, Stream}
use codboz_nx_online.Bitdemon.Frame.{
  frame_prefix_size, lobby_keepalive_body_len, buffer_available_record_marker,
}
use codboz_nx_online.Auth.Messages.{message_create_account_request, message_account_for_mmp_request}
use codboz_nx_online.Lobby.Login.{lsg_service_id}

abbrev pub max_leading_control_records : ℕ
max_leading_control_records = 32

abbrev pub max_initial_frame_body : ℕ
max_initial_frame_body = 256

-- Where HandleTCP goes: a service's handler, or it returns, with an error or without.
pub data Route : Type 0 where
  to_auth to_lobby returned unsupported_initial : Route
  peek_failed : IoError → Route

-- `reader.Peek(n)`: fewer bytes than `n` come with the error that ends the connection.
unfoldable pub peek : ℕ → Stream → Result IoError (List ℕ)
peek n s = if ltb (length s.pending) n then err s.ending else ok (take n s.pending)

unfoldable pub route_message : ℕ → Route
route_message message_type =
    if message_type == message_create_account_request
      || message_type == message_account_for_mmp_request
    then to_auth
    else if message_type == lsg_service_id
    then to_lobby
    else unsupported_initial

abbrev whole_frame : ℕ → Result IoError (List ℕ) → Route
whole_frame message_type (ok frame) = route_message message_type
whole_frame message_type (err e) = peek_failed e

abbrev frame_header : ℕ → ℕ → Stream → Result IoError (List ℕ) → Route
frame_header offset body_size s (err e) = peek_failed e
frame_header offset body_size s (ok header) =
    let body_offset = offset + frame_prefix_size in
    if not (get_or header body_offset 0 == 0)
    then unsupported_initial
    else whole_frame (get_or header (body_offset + 1) 0) (peek (body_offset + body_size) s)

-- The first record that is not a control record.
unfoldable pub route_frame : ℕ → ℕ → Stream → Route
unfolding peek route_message
route_frame offset body_size s =
    if ltb body_size 2 || ltb max_initial_frame_body body_size
    then unsupported_initial
    else frame_header offset body_size s (peek (offset + frame_prefix_size + 2) s)

-- A round behind its prefix; `next` is the loop from another offset on.
abbrev pub after_prefix : ℕ → Stream → (ℕ → Route) → Result IoError (List ℕ) → Route
after_prefix offset s next (err eof) = returned
after_prefix offset s next (err e) = peek_failed e
after_prefix offset s next (ok prefix) =
    let body_size = le_value (take frame_prefix_size (drop offset prefix)) in
    if body_size == lobby_keepalive_body_len
    then next (offset + frame_prefix_size)
    else if body_size == buffer_available_record_marker
    then next (offset + 8)
    else route_frame offset body_size s

-- The loop over the leading records, with the rounds that are left.
unfoldable pub route_records : ℕ → Stream → ℕ → Route
unfolding peek route_frame
route_records zero s offset = unsupported_initial
route_records (suc rounds) s offset =
    after_prefix offset s (route_records rounds s) (peek (offset + frame_prefix_size) s)

-- HandleTCP, where its read deadline can be set.
unfoldable pub handle_tcp : Stream → Route
unfolding route_records
handle_tcp s = route_records (max_leading_control_records + 1) s 0
