-- ===== src/Wire/Suffix.antt =====
-- What it is to leave a suffix of the stream, in an error too: to read forward, and not to change what
-- was not read.
use imap_go.Prelude.{
  ◌<◌, ℕ, Bool, true, false, [], ◌∷◌, ◌++◌, append-nil, append_assoc, ◌≡◌, refl, arith, Bytes,
  if◌then◌else◌, ◌∙◌, ap, sym, length, ◌≤◌, length-append,
}
use imap_go.Wire.Decoder.{LiteralInfo, read_literal_info, max_alloc}
use imap_go.Wire.Reader.{
  Error, eof, unexpected_eof, expected_atom, expected, expected_crlf, unexpected_character,
  number_syntax, number_range, makeslice_panic, bad_set, bad_date, bad_action, out_of_fuel, Out, ok,
  err, Reader, continue,
}

abbrev pub Suffix : Bytes → Bytes → Type 0
Suffix s t = (u : Bytes) × (t ≡ u ++ s)

pub Suffix-refl : (s : Bytes) → Suffix s s
Suffix-refl s = ([], refl)

pub Suffix-trans : (s t u : Bytes) → Suffix s t → Suffix t u → Suffix s u
Suffix-trans s t u (v, hv) (w, hw) = (w ++ v, hw ∙ ap (◌++◌ w) hv ∙ sym (append_assoc w v s))

Suffix-cons : (b : ℕ) (s t : Bytes) → Suffix s t → Suffix s (b ∷ t)
Suffix-cons b s t (u, h) = (b ∷ u, ap (◌∷◌ b) h)

pub Suffix-nil : (t : Bytes) → Suffix [] t
Suffix-nil t = (t, sym (append-nil t))

pub Suffix-length : (s t : Bytes) → Suffix s t → length s ≤ length t
Suffix-length s t (u, h) = omega (arith, ap length h, length-append u s)

-- Somewhere in the stream stands the head of a literal that is longer than the longest slice.
abbrev pub HasOversize : Bytes → Type 0
HasOversize t =
    (s : Bytes) × Suffix s t
    × ((info : LiteralInfo) × (u : Bytes) × (read_literal_info s ≡ ok info u)
        × (max_alloc < info.size))

-- How reading of a stream can fail: with an error of the source, or, where there is a literal that is
-- too long, by the panic of `make`; the model does not run out of fuel.
abbrev pub CanFail : Bytes → Error → Type 0
CanFail t out_of_fuel = ⊥
CanFail t makeslice_panic = HasOversize t
CanFail t _ = Unit

-- The stream that is left is a suffix, and a failure is one that can be.
abbrev pub Leaves {ℓ} : {A : Type ℓ} → Bytes → Out A → Type 0
Leaves t (ok a s) = Suffix s t
Leaves t (err e s) = Suffix s t × CanFail t e

CanFail-trans : (s t : Bytes) (e : Error) → Suffix s t → CanFail s e → CanFail t e
CanFail-trans s t eof h k = tt
CanFail-trans s t unexpected_eof h k = tt
CanFail-trans s t expected_atom h k = tt
CanFail-trans s t (expected c d) h k = tt
CanFail-trans s t (expected_crlf c d) h k = tt
CanFail-trans s t (unexpected_character c) h k = tt
CanFail-trans s t number_syntax h k = tt
CanFail-trans s t number_range h k = tt
CanFail-trans s t makeslice_panic h k = let (u, i, rest) = k in (u, Suffix-trans u s t i h, rest)
CanFail-trans s t bad_set h k = tt
CanFail-trans s t bad_date h k = tt
CanFail-trans s t bad_action h k = tt
CanFail-trans s t out_of_fuel h k = absurd k

pub Leaves-trans {ℓ} : {A : Type ℓ} (s t : Bytes) (r : Out A) → Suffix s t → Leaves s r → Leaves t r
Leaves-trans s t (ok a u) h k = Suffix-trans u s t k h
Leaves-trans s t (err e u) h (k, n) = (Suffix-trans u s t k h, CanFail-trans s t e h n)

pub Leaves-continue {ℓ κ} :
    {A : Type ℓ} {B : Type κ} (t : Bytes) (r : Out A) (f : A → Reader B)
    → Leaves t r
    → ((a : A) (s : Bytes) → Leaves s (f a s))
    → Leaves t (continue r f)
Leaves-continue t (ok a s) f h k = Leaves-trans s t (f a s) h (k a s)
Leaves-continue t (err e s) f h k = h

-- The same where the continuation is told that it starts in a suffix.
pub Leaves-continue-within {ℓ κ} :
    {A : Type ℓ} {B : Type κ} (t : Bytes) (r : Out A) (f : A → Reader B)
    → Leaves t r
    → ((a : A) (s : Bytes) → Suffix s t → Leaves s (f a s))
    → Leaves t (continue r f)
Leaves-continue-within t (ok a s) f h k = Leaves-trans s t (f a s) h (k a s h)
Leaves-continue-within t (err e s) f h k = h

pub Leaves-if {ℓ} :
    {A : Type ℓ} (t : Bytes) (b : Bool) (x y : Out A)
    → Leaves t x
    → Leaves t y
    → Leaves t (if b then x else y)
Leaves-if t true x y h k = h
Leaves-if t false x y h k = k

-- The same where the branches are readers.
pub Leaves-choice {ℓ} :
    {A : Type ℓ} (t : Bytes) (b : Bool) (m k : Reader A)
    → Leaves t (m t)
    → Leaves t (k t)
    → Leaves t ((if b then m else k) t)
Leaves-choice t true m k h i = h
Leaves-choice t false m k h i = i

pub Leaves-cons {ℓ} : {A : Type ℓ} (b : ℕ) (t : Bytes) (r : Out A) → Leaves t r → Leaves (b ∷ t) r
Leaves-cons b t r h = Leaves-trans t (b ∷ t) r (b ∷ [], refl) h
