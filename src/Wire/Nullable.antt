-- ===== src/Wire/Nullable.antt =====
-- Nullable strings, numbers and flag lists: what is read back, and what is not.
use imap_go.Prelude.{
  Bool-cases, inl, inr, ℕ, true, false, ◌||◌, [], ◌∷◌, ◌++◌, ◌≡◌, refl, arith, Bytes, none, some,
  All, length, ◌≤◌, ◌==◌, codes, equal_fold, upper, ltb,
}
use imap_go.Wire.Atom.{IsAtom, Stops, read_atom-append, needs_quoting-IsAtom}
use imap_go.Wire.Chars.{is_atom_char, needs_literal, needs_quoting}
use imap_go.Wire.Decimal.{
  format_uint, parse_uint-format_uint, IsDigit, format_uint-All, format_uint-ne-nil,
}
use imap_go.Wire.Decoder.{
  read_atom, ends_atom, is_nil, read_nstring, read_string, read_number, read_number64, max_alloc,
  max_uint32, max_uint64,
}
use imap_go.Wire.Encoder.{literal, quoted_string, string, nstring, number, number64}
use imap_go.Wire.Quoted.{quoted_string-escaped}
use imap_go.Wire.Literal.{literal_head-head_text}
use imap_go.Wire.Reader.{eof, ok, err}
use imap_go.Wire.RoundTrip.{tilde_atom, read_string-string, literal-append}

Stops-ends_atom : (s : Bytes) → Stops s → ends_atom s ≡ true
unfolding ends_atom
Stops-ends_atom [] h = refl
Stops-ends_atom (b ∷ s) h = rw h

-- `NIL` is read back as no string.
pub read_nstring-nil :
    (rest : Bytes) → Stops rest → read_nstring (nstring none [] ++ rest) ≡ ok none rest
unfolding read_nstring nstring equal_fold
read_nstring-nil rest h = rw (Stops-ends_atom rest h)

IsDigit-atom : (b : ℕ) → IsDigit b → is_atom_char b ≡ true
unfolding is_atom_char
IsDigit-atom b h = ground arith

digits-IsAtom : (s : Bytes) → All IsDigit s → IsAtom s
digits-IsAtom [] h = tt
digits-IsAtom (b ∷ s) h = (IsDigit-atom b h.0, digits-IsAtom s h.1)

read_digits :
    (n : ℕ) (rest : Bytes)
    → Stops rest
    → read_atom (format_uint n ++ rest) ≡ ok (format_uint n) rest
read_digits n rest h =
    read_atom-append (format_uint n) rest (format_uint-ne-nil n)
      (digits-IsAtom (format_uint n) (format_uint-All n)) h

-- A number of 32 bits is read back by `ReadNumber`, and one of 64 bits by `ReadNumber64`.
read_number-number :
    (n m : ℕ) (rest : Bytes)
    → n ≤ max_uint32
    → m ≤ max_uint64
    → Stops rest
    → (read_number (number n [] ++ rest) ≡ ok n rest)
      × (read_number64 (number64 m [] ++ rest) ≡ ok m rest)
unfolding read_number read_number64 number number64
read_number-number n m rest h k st = (
  rw (read_digits n rest st, parse_uint-format_uint max_uint32 n h),
  rw (read_digits m rest st, parse_uint-format_uint max_uint64 m k),
)

-- No byte outside the atoms is a letter.
upper-ne : (b c : ℕ) → is_atom_char b ≡ false → b'A' ≤ c → c ≤ b'Z' → (upper b == c) ≡ false
unfolding upper is_atom_char
upper-ne b c h lo hi = ground arith

is_nil-atom :
    (s rest : Bytes)
    → IsAtom s
    → Stops rest
    → equal_fold s (codes "NIL") ≡ false
    → is_nil (s ++ rest) ≡ false
unfolding is_nil equal_fold
is_nil-atom [] [] h st k = refl
is_nil-atom [] (r ∷ rest) h st k = rw (upper-ne r b'N' st (omega arith) (omega arith))
is_nil-atom (a ∷ []) [] h st k = ground arith
is_nil-atom (a ∷ []) (r ∷ rest) h st k = ground (arith, upper-ne r b'I' st)
is_nil-atom (a ∷ b ∷ []) [] h st k = ground arith
is_nil-atom (a ∷ b ∷ []) (r ∷ rest) h st k = ground (arith, upper-ne r b'L' st)
is_nil-atom (a ∷ b ∷ c ∷ []) rest h st k = rw k
is_nil-atom (a ∷ b ∷ c ∷ d ∷ s) rest h st k = ground arith

read_string_nil : read_string [] ≡ err eof []
unfolding read_string
read_string_nil = refl

is_nil-literal : (s rest : Bytes) → is_nil (literal s [] ++ rest) ≡ false
unfolding is_nil equal_fold
is_nil-literal s rest = rw (literal-append, literal_head-head_text) refl

is_nil-quoted_string : (s rest : Bytes) → is_nil (quoted_string s [] ++ rest) ≡ false
unfolding is_nil equal_fold
is_nil-quoted_string s rest = rw quoted_string-escaped refl

-- A byte whose upper case is a letter is written in an atom.
letter_atom :
    (a c : ℕ)
    → (upper a == c) ≡ true
    → b'A' ≤ c
    → c ≤ b'Z'
    → (is_atom_char a ≡ true)
      × ((a == b'\r' || a == b'\n' || a == 0) ≡ false)
      × (ltb 0x7e a ≡ false)
unfolding upper is_atom_char
letter_atom a c h lo hi = ground arith

nil_letters :
    (a b c : ℕ)
    → equal_fold (a ∷ b ∷ c ∷ []) (codes "NIL") ≡ true
    → ((upper a == b'N') ≡ true) × ((upper b == b'I') ≡ true) × ((upper c == b'L') ≡ true)
unfolding equal_fold
nil_letters a b c h = ground arith

-- The texts that fold to `NIL` are atoms of three bytes.
string_nil : (s : Bytes) → equal_fold s (codes "NIL") ≡ true → string s [] ≡ s
unfolding string needs_literal needs_quoting
string_nil [] n = unfold equal_fold in cc
string_nil (a ∷ []) n = unfold equal_fold in ground arith
string_nil (a ∷ b ∷ []) n = unfold equal_fold in ground arith
string_nil (a ∷ b ∷ c ∷ []) n =
    let (ha, hb, hc) = nil_letters a b c n in
    let (a0, a1, a2) = letter_atom a b'N' ha (omega arith) (omega arith) in
    let (b0, b1, b2) = letter_atom b b'I' hb (omega arith) (omega arith) in
    let (c0, c1, c2) = letter_atom c b'L' hc (omega arith) (omega arith) in
    rw (a0, a1, a2, b0, b1, b2, c0, c1, c2) refl
string_nil (a ∷ b ∷ c ∷ d ∷ s) n = unfold equal_fold in ground arith

read_nil :
    (s rest : Bytes)
    → equal_fold s (codes "NIL") ≡ true
    → Stops rest
    → read_nstring (s ++ rest) ≡ ok none rest
unfolding read_nstring equal_fold
read_nil [] rest n st = cc
read_nil (a ∷ []) rest n st = ground arith
read_nil (a ∷ b ∷ []) rest n st = ground arith
read_nil (a ∷ b ∷ c ∷ []) rest n st = rw (n, Stops-ends_atom rest st)
read_nil (a ∷ b ∷ c ∷ d ∷ s) rest n st = ground arith

read_nstring-some :
    (t s rest : Bytes)
    → is_nil t ≡ false
    → read_string t ≡ ok s rest
    → read_nstring t ≡ ok (some s) rest
unfolding read_nstring
read_nstring-some [] s rest n h = cc (rw read_string_nil at h)
read_nstring-some (b ∷ t) s rest n h = rw (n, h)

is_nil-string :
    (s rest : Bytes)
    → equal_fold s (codes "NIL") ≡ false
    → Stops rest
    → is_nil (string s [] ++ rest) ≡ false
unfolding string
is_nil-string s rest k st = elim (Bool-cases (needs_literal s)) [
  | inl e ↦ rw e (is_nil-literal s rest)
  | inr e ↦ elim (Bool-cases (needs_quoting s)) [
    | inl q ↦ rw (e, q) (is_nil-quoted_string s rest)
    | inr q ↦ rw (e, q) (is_nil-atom s rest (needs_quoting-IsAtom s q).1 st k)
  ]
]

-- `ReadNString` gives back the text that `NString` wrote, under the conditions of `ReadString`, if
-- the text is not `NIL` in any case.
read_nstring-nstring :
    (s rest : Bytes)
    → length s ≤ max_alloc
    → tilde_atom s ≡ false
    → equal_fold s (codes "NIL") ≡ false
    → Stops rest
    → read_nstring (nstring (some s) [] ++ rest) ≡ ok (some s) rest
unfolding nstring
read_nstring-nstring s rest h k n st =
    read_nstring-some _ s rest (is_nil-string s rest n st) (read_string-string s rest h k st)

-- A text that is `NIL` in some case is written as a bare atom, and read back as no string.
pub read_nstring-nstring_nil :
    (s rest : Bytes)
    → equal_fold s (codes "NIL") ≡ true
    → Stops rest
    → read_nstring (nstring (some s) [] ++ rest) ≡ ok none rest
unfolding nstring
read_nstring-nstring_nil s rest n st = rw (string_nil s n) (read_nil s rest n st)
