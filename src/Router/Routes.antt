-- ===== src/Router/Routes.antt =====
-- router.go: a connection is routed by its first frame, whatever control records stand before it.
use codboz_nx_online.Base.{
  ℕ, zero, suc, ◌+◌, ◌^◌, ◌≤◌, ◌<◌, ◌≡◌, ◌≢◌, refl, sym, ap, ◌∙◌, subst, ◌==◌, if◌then◌else◌, List,
  [], ◌∷◌, ◌++◌, append_assoc, length, take, drop, get_or, arith, ok, length-append, take-append,
  take-length, drop-append, le→ltb, ℕ_discrete,
}
use codboz_nx_online.Go.Binary.{le_bytes, le_value, length-le_bytes, le_value-le_bytes}
use codboz_nx_online.Go.Stream.{Stream}
use codboz_nx_online.Router.{
  Route, to_auth, to_lobby, unsupported_initial, peek, route_message, route_frame, after_prefix,
  route_records, handle_tcp,
}

-- A control record, and its bytes.
pub data Control : Type 0 where
  keeps_alive : Control
  tells_available : ℕ → Control

abbrev pub control_bytes : List Control → List ℕ
control_bytes [] = []
control_bytes (keeps_alive ∷ rest) = le_bytes 4 0 ++ control_bytes rest
control_bytes (tells_available n ∷ rest) = le_bytes 4 200 ++ (le_bytes 4 n ++ control_bytes rest)

peek_front :
    (front xs rest : List ℕ) (s : Stream) (n : ℕ)
    → s.pending ≡ front ++ (xs ++ rest)
    → n ≡ length front + length xs
    → peek n s ≡ ok (front ++ xs)
unfolding peek
peek_front front xs rest s n at size =
    let whole : s.pending ≡ (front ++ xs) ++ rest = at ∙ sym (append_assoc front xs rest) in
    let long : length (front ++ xs) ≡ n = length-append front xs ∙ sym size in
    ground (
      arith,
      ap length whole,
      length-append (front ++ xs) rest,
      ap (take n) whole,
      subst (λ k. take k ((front ++ xs) ++ rest) ≡ front ++ xs) long
          (take-append (front ++ xs) rest),
    )

-- What a round does at a prefix of the number `size`.
prefix_read :
    (front rest : List ℕ) (s : Stream) (next : ℕ → Route) (size : ℕ)
    → s.pending ≡ front ++ (le_bytes 4 size ++ rest)
    → size < 2 ^ 32
    → after_prefix (length front) s next (peek (length front + 4) s) ≡ (
        if size == 0
        then next (length front + 4)
        else if size == 200
        then next (length front + 8)
        else route_frame (length front) size s)
prefix_read front rest s next size at small =
    let four : length front + 4 ≡ length front + length (le_bytes 4 size) =
      omega (arith, length-le_bytes 4 size) in
    let value : le_value (take 4 (drop (length front) (front ++ le_bytes 4 size))) ≡ size =
      ap (λ l. le_value (take 4 l)) (drop-append front (le_bytes 4 size))
      ∙ ap le_value (
          subst (λ k. take k (le_bytes 4 size) ≡ le_bytes 4 size) (length-le_bytes 4 size)
            (take-length (le_bytes 4 size)))
      ∙ le_value-le_bytes 4 size small in
    rw (peek_front front (le_bytes 4 size) rest s (length front + 4) at four, value) refl

-- The loop goes over control records to the first frame.
route_controls :
    (controls : List Control) (front rest : List ℕ) (s : Stream) (rounds size : ℕ)
    → s.pending ≡ front ++ (control_bytes controls ++ (le_bytes 4 size ++ rest))
    → length controls < rounds
    → size < 2 ^ 32
    → size ≢ 0
    → size ≢ 200
    → (before : List ℕ) × (s.pending ≡ before ++ (le_bytes 4 size ++ rest))
      × (route_records rounds s (length front) ≡ route_frame (length before) size s)
unfolding route_records
route_controls controls front rest s zero size at enough small some_body no_marker =
    absurd (omega arith)
route_controls [] front rest s (suc rounds) size at enough small some_body no_marker =
    (front, at, prefix_read front rest s (route_records rounds s) size at small ∙ ground arith)
route_controls (keeps_alive ∷ controls) front rest s (suc rounds) size at enough small some_body
      no_marker =
    let behind = control_bytes controls ++ (le_bytes 4 size ++ rest) in
    let at1 : s.pending ≡ front ++ (le_bytes 4 0 ++ behind) =
      at ∙ ap (λ l. front ++ l) (append_assoc (le_bytes 4 0) (control_bytes controls) _) in
    let moved : length (front ++ le_bytes 4 0) ≡ length front + 4 =
      omega (arith, length-append front (le_bytes 4 0), length-le_bytes 4 0) in
    let (before, found, routed) =
      route_controls controls (front ++ le_bytes 4 0) rest s rounds size
        (at1 ∙ sym (append_assoc front (le_bytes 4 0) behind)) (omega arith) small some_body
        no_marker in
    (
      before,
      found,
      prefix_read front behind s (route_records rounds s) 0 at1 (omega arith)
          ∙ ap (route_records rounds s) (sym moved)
          ∙ routed,
    )
route_controls (tells_available n ∷ controls) front rest s (suc rounds) size at enough small
      some_body no_marker =
    let behind = control_bytes controls ++ (le_bytes 4 size ++ rest) in
    let told : List ℕ = le_bytes 4 200 ++ le_bytes 4 n in
    let at1 : s.pending ≡ front ++ (le_bytes 4 200 ++ (le_bytes 4 n ++ behind)) =
      at
      ∙ ap (λ l. front ++ l)
          (append_assoc (le_bytes 4 200) (le_bytes 4 n ++ control_bytes controls) _
            ∙ ap (λ l. le_bytes 4 200 ++ l)
                (append_assoc (le_bytes 4 n) (control_bytes controls) _)) in
    let moved : length (front ++ told) ≡ length front + 8 = omega (
      arith,
      length-append front told,
      length-append (le_bytes 4 200) (le_bytes 4 n),
      length-le_bytes 4 200,
      length-le_bytes 4 n,
    ) in
    let (before, found, routed) =
      route_controls controls (front ++ told) rest s rounds size
        (at1
          ∙ ap (λ l. front ++ l) (sym (append_assoc (le_bytes 4 200) (le_bytes 4 n) behind))
          ∙ sym (append_assoc front told behind))
        (omega arith) small some_body no_marker in
    (
      before,
      found,
      prefix_read front (le_bytes 4 n ++ behind) s (route_records rounds s) 200 at1 (omega arith)
          ∙ ap (route_records rounds s) (sym moved)
          ∙ routed,
    )

get_or-append : (xs ys : List ℕ) (y d : ℕ) → get_or (xs ++ y ∷ ys) (length xs) d ≡ y
get_or-append [] ys y d = refl
get_or-append (x ∷ xs) ys y d = get_or-append xs ys y d

-- A frame behind its prefix: the bytes 0 and `kind`, and the rest of its body.
route_frame-kind :
    (before rest later : List ℕ) (s : Stream) (kind : ℕ)
    → s.pending ≡ before ++ (le_bytes 4 (2 + length rest) ++ ((0 ∷ kind ∷ rest) ++ later))
    → 2 + length rest ≤ 256
    → route_frame (length before) (2 + length rest) s ≡ route_message kind
unfolding route_frame
route_frame-kind before rest later s kind at short =
    let prefix = le_bytes 4 (2 + length rest) in
    let front : List ℕ = before ++ prefix in
    let behind : length front ≡ length before + 4 =
      omega (arith, length-append before prefix, length-le_bytes 4 (2 + length rest)) in
    let at1 : s.pending ≡ front ++ ((0 ∷ kind ∷ rest) ++ later) =
      at ∙ sym (append_assoc before prefix ((0 ∷ kind ∷ rest) ++ later)) in
    let header : List ℕ = front ++ 0 ∷ kind ∷ [] in
    let seen : peek (length before + 4 + 2) s ≡ ok header =
      peek_front front (0 ∷ kind ∷ []) (rest ++ later) s (length before + 4 + 2) at1
        (omega (arith, behind)) in
    let whole : peek (length before + 4 + (2 + length rest)) s ≡ ok (front ++ 0 ∷ kind ∷ rest) =
      peek_front front (0 ∷ kind ∷ rest) later s (length before + 4 + (2 + length rest)) at1
        (omega (arith, behind)) in
    let clear : get_or header (length before + 4) 0 ≡ 0 =
      ap (λ i. get_or header i 0) (sym behind) ∙ get_or-append front (kind ∷ []) 0 0 in
    let place : length before + 4 + 1 ≡ length (front ++ 0 ∷ []) =
      omega (arith, behind, length-append front (0 ∷ [])) in
    let told : get_or header (length before + 4 + 1) 0 ≡ kind =
      ap (λ i. get_or header i 0) place
      ∙ ap (λ l. get_or l (length (front ++ 0 ∷ [])) 0)
          (sym (append_assoc front (0 ∷ []) (kind ∷ [])))
      ∙ get_or-append (front ++ 0 ∷ []) [] kind 0 in
    rw
      (
        le→ltb (2 + length rest) 2 (omega arith),
        le→ltb 256 (2 + length rest) short,
        seen,
        clear,
        told,
        whole,
      )
      refl

-- The types of the requests for a new account and for a ticket are 0 and 10, the service of the
-- login is 7.
pub data Routed (kind : ℕ) : Route → Type 0 where
  creates_account : kind ≡ 0 → Routed kind to_auth
  asks_for_ticket : kind ≡ 10 → Routed kind to_auth
  logs_in : kind ≡ 7 → Routed kind to_lobby
  is_unknown : kind ≢ 0 → kind ≢ 10 → kind ≢ 7 → Routed kind unsupported_initial

route_message-Routed : (kind : ℕ) → Routed kind (route_message kind)
unfolding route_message
route_message-Routed kind = elim (ℕ_discrete kind 0) [
  | yes new ↦ rw new (creates_account refl)
  | no other ↦ elim (ℕ_discrete kind 10) [
    | yes asks ↦ rw asks (asks_for_ticket refl)
    | no other' ↦ elim (ℕ_discrete kind 7) [
      | yes joins ↦ rw joins (logs_in refl)
      | no last ↦ subst (Routed kind) (ground arith) (is_unknown other other' last)
    ]
  ]
]

-- A connection that begins with at most 32 control records and a frame in the clear, of 2 to 256
-- bytes but not 200, goes to the authentication handler where the second byte of the frame is 0 or
-- 10, the types of its two requests, to the lobby handler where it is 7, the login service, and is
-- refused where it is none of these; the control records make no difference.
pub handle_tcp_routes :
    (controls : List Control) (kind : ℕ) (rest later : List ℕ) (s : Stream)
    → s.pending
      ≡ control_bytes controls ++ (le_bytes 4 (2 + length rest) ++ ((0 ∷ kind ∷ rest) ++ later))
    → length controls ≤ 32
    → 2 + length rest ≤ 256
    → 2 + length rest ≢ 200
    → Routed kind (handle_tcp s)
unfolding handle_tcp
handle_tcp_routes controls kind rest later s at few short no_marker =
    let (before, found, routed) =
      route_controls controls [] ((0 ∷ kind ∷ rest) ++ later) s 33 (2 + length rest) at
        (omega arith) (omega arith) (omega arith) no_marker in
    subst (Routed kind) (sym (routed ∙ route_frame-kind before rest later s kind found short))
      (route_message-Routed kind)
