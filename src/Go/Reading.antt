-- ===== src/Go/Reading.antt =====
-- Methods of a reader with state `S`, and parsers that call them: a method returns its (value, error)
-- pair and the reader afterwards, for a failed method may change the reader too.
use codboz_nx_online.Base.{◌≡◌, refl, arith, Result, ok, err}

abbrev pub Reading : Type 0 → Type 0 → Type 0 → Type 0
Reading S E A = S → Result E A × S

module _ {S E : Type 0} where
  abbrev pub pure : {A : Type 0} → A → Reading S E A
  pure a r = (ok a, r)

  abbrev pub raise : {A : Type 0} → E → Reading S E A
  raise e r = (err e, r)

  abbrev pub continue : {A B : Type 0} → Result E A × S → (A → Reading S E B) → Result E B × S
  continue (ok a, r) f = f a r
  continue (err e, r) f = (err e, r)

  infixl 5 ◌>>=◌ ◌>>◌
  abbrev pub ◌>>=◌ : {A B : Type 0} → Reading S E A → (A → Reading S E B) → Reading S E B
  ◌>>=◌ m f r = continue (m r) f

  abbrev pub ◌>>◌ : {A B : Type 0} → Reading S E A → Reading S E B → Reading S E B
  m >> n = m >>= λ _. n

-- `fmt.Errorf("%w: …: %v", sentinel, err)` around a call of the reader.
abbrev pub relabel : {S E F A : Type 0} → (E → F) → Result E A × S → Result F A × S
relabel f (ok a, r) = (ok a, r)
relabel f (err e, r) = (err (f e), r)

abbrev pub wrap : {S E F A : Type 0} → (E → F) → Reading S E A → Reading S F A
wrap f m r = relabel f (m r)

-- The outcome is the value `v`, and the reader afterwards has the property `P`.
abbrev pub Gives : {S E A : Type 0} → (S → Type 0) → A → Result E A × S → Type 0
Gives {S = S} P v out = (r : S) × (out ≡ (ok v, r)) × P r

pub bind-Gives :
    {S E A B : Type 0} (P Q : S → Type 0) (v : A) (w : B) (m : Reading S E A)
    (f : A → Reading S E B) (r : S)
    → Gives P v (m r)
    → ((s : S) → P s → Gives Q w (f v s))
    → Gives Q w ((m >>= f) r)
bind-Gives P Q v w m f r (s, e, ready) next =
    let (t, e', ready') = next s ready in (t, rw (e, ◌>>=◌) e', ready')

pub wrap-Gives :
    {S E F A : Type 0} (g : E → F) (P : S → Type 0) (v : A) (m : Reading S E A) (r : S)
    → Gives P v (m r)
    → Gives P v (wrap g m r)
wrap-Gives g P v m r (s, e, ready) = (s, rw (e, wrap), ready)

-- `m >>= f`, where the outcome of `m` is known.
pub then-Gives :
    {S E A B : Type 0} {P Q : S → Type 0} {v : A} {w : B} {out : Result E A × S}
    → (f : A → Reading S E B) → Gives P v out
    → ((s : S) → P s → Gives Q w (f v s))
    → Gives Q w (continue out f)
then-Gives f (s, e, ready) next = let (t, e', ready') = next s ready in (t, rw e e', ready')

-- A property of the outcome of `m >>= f`, by the outcome of `m`.
pub continue_cases :
    {S E A B : Type 0} (Q : Result E B × S → Type 0) (f : A → Reading S E B) (out : Result E A × S)
    → ((e : E) (s : S) → out ≡ (err e, s) → Q (err e, s))
    → ((a : A) (s : S) → out ≡ (ok a, s) → Q (f a s))
    → Q (continue out f)
continue_cases Q f (ok a, s) bad good = good a s refl
continue_cases Q f (err e, s) bad good = bad e s refl

-- A success of `m >>= f` is one of `m` and one of `f` behind it.
pub continue-ok :
    {S E A B : Type 0} (f : A → Reading S E B) (out : Result E A × S) (b : B) (s' : S)
    → continue out f ≡ (ok b, s')
    → (a : A) × (s : S) × (out ≡ (ok a, s)) × (f a s ≡ (ok b, s'))
continue-ok f (ok a, s) b s' h = (a, s, refl, h)
continue-ok f (err e, s) b s' h = absurd (ground arith)

-- The same of `m >> n`.
pub sequence-ok :
    {S E B : Type 0} (n : Reading S E B) (out : Result E (Unit {0}) × S) (b : B) (s' : S)
    → continue out (λ _. n) ≡ (ok b, s')
    → (s : S) × (out ≡ (ok tt, s)) × (n s ≡ (ok b, s'))
sequence-ok n (ok a, s) b s' h = (s, refl, h)
sequence-ok n (err e, s) b s' h = absurd (ground arith)
