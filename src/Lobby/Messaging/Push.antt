-- ===== src/Lobby/Messaging/Push.antt =====
-- messaging.go: the message that a recipient gets.
use codboz_nx_online.Base.{
  ℕ, ◌||◌, true, List, ◌∷◌, ◌++◌, ltb, if◌then◌else◌, length, Result, ok, err, bind, map_err,
}
use codboz_nx_online.Go.Binary.{le_bytes}
use codboz_nx_online.Go.Bytes.{contains_byte}
use codboz_nx_online.Bitdemon.ByteBuffer.Writer.{
  ByteWriter, new_byte_writer, write_uint32, write_uint64, write_string, write_blob,
}
use codboz_nx_online.Bitdemon.Crypto.{Primitives, derive_iv, encrypt_3des_cbc, pad_to_3des_block}
use codboz_nx_online.Lobby.Messaging.{max_messaging_message_bytes}

abbrev pub global_instant_message_event : ℕ
global_instant_message_event = 21

abbrev pub max_messaging_sender_name_bytes : ℕ
max_messaging_sender_name_bytes = 63

abbrev pub server_reply_signature : ℕ
server_reply_signature = 0xdead_beef

abbrev pub push_message_type : ℕ
push_message_type = 0x02

-- `unsealed` stands for the error of Encrypt3DESCBC.
pub data PushError : Type 0 where
  invalid_message unsealed : PushError

-- The writer's bytes behind the signature and the type.
abbrev pub push_plaintext : ByteWriter → List ℕ
push_plaintext w =
    pad_to_3des_block (le_bytes 4 server_reply_signature ++ push_message_type ∷ w.written)

abbrev pub push_envelope : ℕ → List ℕ → List ℕ
push_envelope seed ciphertext = 1 ∷ (le_bytes 4 seed ++ ciphertext)

unfoldable pub push_fields : ℕ → List ℕ → List ℕ → Result PushError ByteWriter
push_fields sender_id sender_name message =
    let w =
      write_uint64 sender_id (write_uint32 global_instant_message_event (new_byte_writer true)) in
    bind (map_err (λ _. invalid_message) (write_string sender_name w))
      (λ w'. map_err (λ _. invalid_message) (write_blob message w'))

unfoldable pub marshal_global_instant_message_push :
    Primitives → List ℕ → ℕ → ℕ → List ℕ → List ℕ → Result PushError (List ℕ)
unfolding push_fields
marshal_global_instant_message_push p session_key seed sender_id sender_name message =
    let fields = push_fields sender_id sender_name message in
    if ltb max_messaging_sender_name_bytes (length sender_name)
      || contains_byte 0 sender_name
      || ltb max_messaging_message_bytes (length message)
    then err invalid_message
    else bind fields (λ w.
      bind
        (map_err (λ _. unsealed)
          (encrypt_3des_cbc p session_key (derive_iv seed) (push_plaintext w)))
        (λ ciphertext. ok (push_envelope seed ciphertext)))
