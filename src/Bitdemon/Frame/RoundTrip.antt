-- ===== src/Bitdemon/Frame/RoundTrip.antt =====
-- frame.go: ReadTransportRecord on what the writing functions produce, and on any input.
use codboz_nx_online.Base.{
  ℕ, ◌+◌, ◌≤◌, ◌<◌, ◌^◌, ◌≡◌, ◌≢◌, refl, ap, ◌∙◌, List, [], ◌∷◌, ◌++◌, append_assoc, length, take,
  arith, drop, length-drop, ok, err, length-take,
}
use codboz_nx_online.Go.Binary.{le_bytes, le_value, le_value-le_bytes}
use codboz_nx_online.Go.Stream.{IoError, Stream, read_full, read_full_front}
use codboz_nx_online.Bitdemon.Frame.{
  TransportRecord, frame, keepalive, buffer_available, Outcome, after, effective_max, max_uint32,
  read_record_body, read_transport_record, marshal_frame, buffer_available_record,
}

-- Behind a prefix that holds `n` the record is read from what follows.
prefix_read :
    (max n : ℕ) (rest : List ℕ) (s : Stream)
    → n < 2 ^ 32
    → s.pending ≡ le_bytes 4 n ++ rest
    → read_transport_record max s
      ≡ read_record_body (effective_max max) n (record s { pending = rest })
unfolding read_transport_record le_bytes
prefix_read max n rest s h at =
    ap (λ o. after o (λ prefix s'. read_record_body (effective_max max) (le_value prefix) s'))
      (read_full_front (le_bytes 4 n) rest s at)
    ∙ ap (λ k. read_record_body (effective_max max) k (record s { pending = rest }))
        (le_value-le_bytes 4 n h)

body_read :
    (max : ℕ) (body rest : List ℕ) (s : Stream)
    → length body ≢ 0
    → length body ≢ 200
    → length body ≤ max
    → length body ≤ max_uint32
    → s.pending ≡ body ++ rest
    → read_record_body max (length body) s ≡ (ok (frame body), record s { pending = rest })
unfolding read_record_body
body_read max body rest s nonempty plain within short at =
    ground (arith, read_full_front body rest s at)

-- What a reader makes of a frame: the empty one is a keepalive.
abbrev pub record_of : List ℕ → TransportRecord
record_of [] = keepalive
record_of (b ∷ bs) = frame (b ∷ bs)

record_read :
    (max : ℕ) (body rest : List ℕ) (s : Stream)
    → length body ≢ 200
    → length body ≤ max
    → length body ≤ max_uint32
    → s.pending ≡ body ++ rest
    → read_record_body max (length body) s ≡ (ok (record_of body), record s { pending = rest })
record_read max [] rest s plain within short at =
    unfold read_record_body in ap (λ l. (ok keepalive, record s { pending = l })) at
record_read max (b ∷ bs) rest s plain within short at =
    body_read max (b ∷ bs) rest s (omega arith) plain within short at

marshal_frame_inv :
    (body f : List ℕ)
    → marshal_frame body ≡ ok f
    → (length body ≤ max_uint32) × (length body ≢ 200) × (f ≡ le_bytes 4 (length body) ++ body)
unfolding marshal_frame
marshal_frame_inv body f h = ground arith

-- A body that MarshalFrame accepts and that is no longer than the reader's limit comes back from
-- ReadTransportRecord, as a keepalive if it is empty and as a frame otherwise; exactly the bytes of
-- the frame are consumed, whatever follows them.
pub read_transport_record-marshal_frame :
    (max : ℕ) (body f rest : List ℕ) (ending : IoError)
    → marshal_frame body ≡ ok f
    → length body ≤ effective_max max
    → read_transport_record max (record { pending = f ++ rest; ending = ending })
      ≡ (ok (record_of body), record { pending = rest; ending = ending })
read_transport_record-marshal_frame max body f rest ending h within =
    let (short, plain, e) = marshal_frame_inv body f h in
    let at = ap (λ l. l ++ rest) e ∙ append_assoc (le_bytes 4 (length body)) body rest in
    prefix_read max (length body) (body ++ rest) (record { pending = f ++ rest; ending = ending })
      (omega arith) at
    ∙ record_read (effective_max max) body rest (record { pending = body ++ rest; ending = ending })
        plain within short refl

value_read :
    (max available : ℕ) (rest : List ℕ) (s : Stream)
    → available < 2 ^ 32
    → s.pending ≡ le_bytes 4 available ++ rest
    → read_record_body max 200 s ≡ (ok (buffer_available available), record s { pending = rest })
unfolding read_record_body le_bytes
value_read max available rest s h at =
    ap (λ o. after o (λ value s'. (ok (buffer_available (le_value value)), s')))
      (read_full_front (le_bytes 4 available) rest s at)
    ∙ ap (λ n. (ok (buffer_available n), record s { pending = rest }))
        (le_value-le_bytes 4 available h)

-- WriteBufferAvailableRecord's eight bytes come back with their value, whatever the frame limit.
pub read_transport_record-buffer_available :
    (max available : ℕ) (rest : List ℕ) (ending : IoError)
    → available < 2 ^ 32
    → read_transport_record max
        (record { pending = buffer_available_record available ++ rest; ending = ending })
      ≡ (ok (buffer_available available), record { pending = rest; ending = ending })
unfolding buffer_available_record
read_transport_record-buffer_available max available rest ending h =
    prefix_read max 200 (le_bytes 4 available ++ rest) _ (omega arith)
      (append_assoc (le_bytes 4 200) (le_bytes 4 available) rest)
    ∙ value_read (effective_max max) available rest _ h refl

-- What a read of one record does to the stream.
abbrev pub Wellformed : ℕ → Stream → Outcome TransportRecord → Type 0
Wellformed max s (ok (frame body), s') =
    (0 < length body)
    × (length body ≢ 200)
    × (length body ≤ effective_max max)
    × (length s.pending ≡ 4 + length body + length s'.pending)
Wellformed max s (ok keepalive, s') = length s.pending ≡ 4 + length s'.pending
Wellformed max s (ok (buffer_available n), s') = length s.pending ≡ 8 + length s'.pending
Wellformed max s (err e, s') = length s'.pending ≤ length s.pending

-- Of any input: a frame that is returned is not empty, has not the reserved size and keeps to the
-- limit; a record consumes exactly its own bytes, and an error never makes the stream longer.
pub read_transport_record-Wellformed :
    (max : ℕ) (s : Stream) → Wellformed max s (read_transport_record max s)
unfolding read_transport_record read_full
read_transport_record-Wellformed max s = ground (
  arith,
  length-drop 4 s.pending,
  length-take 4 s.pending,
  length-drop 4 (drop 4 s.pending),
  length-drop (le_value (take 4 s.pending)) (drop 4 s.pending),
  length-take (le_value (take 4 s.pending)) (drop 4 s.pending),
)
