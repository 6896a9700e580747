-- ===== src/Go/Stream.antt =====
-- io.Reader and io.ReadFull. A reader is the bytes that it will still deliver, and the error that it
-- gives when they are used up.
use codboz_nx_online.Base.{
  ℕ, ◌≡◌, List, [], ◌∷◌, ◌++◌, ltb, if◌then◌else◌, length, take, drop, arith, Result, ok, err,
  length-append, take-append, drop-append, ap,
}

pub data IoError : Type 0 where
  eof unexpected_eof timeout closed short_write : IoError

pub record Stream : Type 0 where
  pub pending : List ℕ
  pub ending : IoError

-- An end of file in the middle of the wanted bytes is `io.ErrUnexpectedEOF`.
abbrev pub cut_short : List ℕ → IoError → IoError
cut_short [] e = e
cut_short (x ∷ xs) eof = unexpected_eof
cut_short (x ∷ xs) e = e

-- `io.ReadFull(reader, buffer)` for a buffer of `n` bytes. What there was is consumed either way.
unfoldable pub read_full : ℕ → Stream → Result IoError (List ℕ) × Stream
read_full n s =
    if ltb (length s.pending) n
    then (err (cut_short s.pending s.ending), record s { pending = [] })
    else (ok (take n s.pending), record s { pending = drop n s.pending })

pub read_full_front :
    (xs rest : List ℕ) (s : Stream)
    → s.pending ≡ xs ++ rest
    → read_full (length xs) s ≡ (ok xs, record s { pending = rest })
unfolding read_full
read_full_front xs rest s at = ground (
  arith,
  ap length at,
  length-append xs rest,
  ap (take (length xs)) at,
  ap (drop (length xs)) at,
  take-append xs rest,
  drop-append xs rest,
)
