-- ===== src/Bitdemon/Frame/Write.antt =====
-- frame.go: writeAll, WriteFrame and WriteBufferAvailableRecord over an io.Writer that may take only
-- a part of what it is given.
use codboz_nx_online.Base.{
  ℕ, zero, suc, ◌≤◌, ◌≡◌, refl, ap, sym, ◌∙◌, Bool-cases, ◌⊎◌, inl, inr, ◌||◌, List, [], ◌∷◌, ◌++◌,
  append_assoc, append-nil, ◌==◌, ltb, if◌then◌else◌, length, take, drop, arith, Result, ok, err,
  Option, none, some, length-drop, take-append-drop,
}
use codboz_nx_online.Go.Binary.{le_bytes}
use codboz_nx_online.Go.Stream.{IoError, short_write}
use codboz_nx_online.Bitdemon.Frame.{
  FrameError, frame_too_large, reserved_frame_body_size, max_uint32, buffer_available_record_marker,
  check_body, marshal_frame, buffer_available_record,
}

-- What one `Write` answers: the count that it reports, and its error.
pub record Written : Type 0 where
  pub count : ℕ
  pub failure : Option IoError

-- An io.Writer with state `W`. A `Write` without an error has sent exactly the first `count` bytes.
pub record IoWriter (W : Type 0) : Type 0 where
  pub write : List ℕ → W → Written × W
  pub sent : W → List ℕ
  pub write_sends :
      (bytes : List ℕ) (w : W)
      → (write bytes w).0.failure ≡ none
      → sent (write bytes w).1 ≡ sent w ++ take (write bytes w).0.count bytes

-- The error of a write, `done` for nil. `stuck` is no Go value: the loop ran out of fuel.
pub data WriteResult : Type 0 where
  done stuck : WriteResult
  refused : FrameError → WriteResult
  failed : IoError → WriteResult

module _ {W : Type 0} (io : IoWriter W) where
  -- What the loop does after a `Write`; `rest` is the loop on what is left.
  unfoldable pub write_round : List ℕ → ℕ → Option IoError → W → WriteResult × W → WriteResult × W
  write_round bytes n (some e) w rest = (failed e, w)
  write_round bytes n none w rest =
      if ltb n 1 || ltb (length bytes) n then (failed short_write, w) else rest

  unfoldable pub write_all_loop : ℕ → List ℕ → W → WriteResult × W
  unfolding write_round
  write_all_loop fuel [] w = (done, w)
  write_all_loop zero (b ∷ bs) w = (stuck, w)
  write_all_loop (suc fuel) (b ∷ bs) w =
      let (out, w') = io.write (b ∷ bs) w in
      let rest = write_all_loop fuel (drop out.count (b ∷ bs)) w' in
      write_round (b ∷ bs) out.count out.failure w' rest

  -- Each round sends a byte at least, so as many rounds as bytes are enough.
  unfoldable pub write_all : List ℕ → W → WriteResult × W
  unfolding write_all_loop
  write_all bytes w = write_all_loop (length bytes) bytes w

  abbrev and_then : WriteResult × W → (W → WriteResult × W) → WriteResult × W
  and_then (done, w) f = f w
  and_then (r, w) f = (r, w)

  -- The checked bytes go out in the pieces given.
  abbrev send_pieces : Result FrameError (List ℕ × List ℕ) → W → WriteResult × W
  send_pieces (err e) w = (refused e, w)
  send_pieces (ok (prefix, body)) w = and_then (write_all prefix w) (write_all body)

  unfoldable pub write_frame : List ℕ → W → WriteResult × W
  unfolding write_all
  write_frame body w = send_pieces (check_body body (le_bytes 4 (length body), body)) w

  unfoldable pub write_buffer_available_record : ℕ → W → WriteResult × W
  unfolding write_all buffer_available_record
  write_buffer_available_record available w = write_all (buffer_available_record available) w

  -- The write ended, and if it reports no error then it has sent exactly these bytes.
  abbrev pub Delivers : List ℕ → W → WriteResult × W → Type 0
  Delivers bytes w (done, w') = io.sent w' ≡ io.sent w ++ bytes
  Delivers bytes w (stuck, w') = ⊥
  Delivers bytes w (refused e, w') = ⊥
  Delivers bytes w (failed e, w') = Unit {0}

  Delivers-later :
      (n : ℕ) (bytes : List ℕ) (w w' : W) (out : WriteResult × W)
      → io.sent w' ≡ io.sent w ++ take n bytes
      → Delivers (drop n bytes) w' out
      → Delivers bytes w out
  Delivers-later n bytes w w' (done, w'') first later =
      later
      ∙ ap (λ l. l ++ drop n bytes) first
      ∙ append_assoc (io.sent w) (take n bytes) (drop n bytes)
      ∙ ap (λ l. io.sent w ++ l) (take-append-drop n bytes)
  Delivers-later n bytes w w' (stuck, w'') first later = later
  Delivers-later n bytes w w' (refused e, w'') first later = later
  Delivers-later n bytes w w' (failed e, w'') first later = tt

  write_round-Delivers :
      (bytes : List ℕ) (w : W) (n : ℕ) (failure : Option IoError) (w' : W) (rest : WriteResult × W)
      → (failure ≡ none → io.sent w' ≡ io.sent w ++ take n bytes)
      → (1 ≤ n → Delivers (drop n bytes) w' rest)
      → Delivers bytes w (write_round bytes n failure w' rest)
  unfolding write_round
  write_round-Delivers bytes w n (some e) w' rest sends next = tt
  write_round-Delivers bytes w n none w' rest sends next =
      elim (Bool-cases (ltb n 1 || ltb (length bytes) n)) [
        | inl bad ↦ rw bad tt
        | inr good ↦ rw good (Delivers-later n bytes w w' rest (sends refl) (next (ground arith)))
      ]

  write_all_loop-Delivers :
      (fuel : ℕ) (bytes : List ℕ) (w : W)
      → length bytes ≤ fuel
      → Delivers bytes w (write_all_loop fuel bytes w)
  unfolding write_all_loop
  write_all_loop-Delivers fuel [] w h = sym (append-nil (io.sent w))
  write_all_loop-Delivers zero (b ∷ bs) w h = absurd (omega arith)
  write_all_loop-Delivers (suc fuel) (b ∷ bs) w h =
      let (out, w') = io.write (b ∷ bs) w in
      write_round-Delivers (b ∷ bs) w out.count out.failure w'
        (write_all_loop fuel (drop out.count (b ∷ bs)) w') (io.write_sends (b ∷ bs) w)
        (λ some_sent.
          write_all_loop-Delivers fuel (drop out.count (b ∷ bs)) w'
            (omega (arith, length-drop out.count (b ∷ bs))))

  -- For every writer that sends what it reports, also one that takes a few bytes at a time: the loop
  -- of writeAll ends, and where it ends without an error the whole of the data has been sent, once
  -- and in order.
  pub write_all-Delivers : (bytes : List ℕ) (w : W) → Delivers bytes w (write_all bytes w)
  unfolding write_all
  write_all-Delivers bytes w = write_all_loop-Delivers (length bytes) bytes w (omega arith)

  and_then-Delivers :
      (xs ys : List ℕ) (w : W) (out : WriteResult × W) (next : W → WriteResult × W)
      → Delivers xs w out
      → ((w' : W) → Delivers ys w' (next w'))
      → Delivers (xs ++ ys) w (and_then out next)
  and_then-Delivers xs ys w (done, w') next first later = extend (next w') (later w')
    where
      extend : (out : WriteResult × W) → Delivers ys w' out → Delivers (xs ++ ys) w out
      extend (done, w'') d = d ∙ ap (λ l. l ++ ys) first ∙ append_assoc (io.sent w) xs ys
      extend (stuck, w'') d = d
      extend (refused e, w'') d = d
      extend (failed e, w'') d = tt
  and_then-Delivers xs ys w (stuck, w') next first later = first
  and_then-Delivers xs ys w (refused e, w') next first later = first
  and_then-Delivers xs ys w (failed e, w') next first later = tt

  -- WriteFrame and MarshalFrame agree. On a body that MarshalFrame turns into a frame, WriteFrame
  -- ends, and without an error it has sent that frame and nothing else; on a body that MarshalFrame
  -- refuses, WriteFrame gives the same error and sends nothing.
  pub write_frame-marshal_frame :
      (body : List ℕ) (w : W)
      → ((f : List ℕ) × (marshal_frame body ≡ ok f) × Delivers f w (write_frame body w))
        ⊎ ((e : FrameError) × (marshal_frame body ≡ err e) × (write_frame body w ≡ (refused e, w)))
  unfolding write_frame marshal_frame
  write_frame-marshal_frame body w = elim (Bool-cases (ltb max_uint32 (length body))) [
    | inl big ↦ inr (frame_too_large, rw big, rw big)
    | inr small ↦ elim (Bool-cases (length body == buffer_available_record_marker)) [
      | inl marker ↦ inr (reserved_frame_body_size, rw (small, marker), rw (small, marker))
      | inr plain ↦ inl (
        le_bytes 4 (length body) ++ body,
        rw (small, plain),
        rw (small, plain)
            (and_then-Delivers (le_bytes 4 (length body)) body w
              (write_all (le_bytes 4 (length body)) w) (write_all body)
              (write_all-Delivers (le_bytes 4 (length body)) w) (write_all-Delivers body)),
      )
    ]
  ]
