-- ===== src/Wire/RoundTrip.antt =====
-- What the encoder writes, the decoder reads back: strings, nullable strings and numbers.
use imap_go.Prelude.{
  Bool-cases, inl, inr, ℕ, Bool, true, false, not, ◌&&◌, [], ◌∷◌, ◌++◌, append_assoc, ◌≡◌, ◌≢◌,
  refl, arith, Bytes, ◌∙◌, length, ◌≤◌, ◌==◌,
}
use imap_go.Wire.Atom.{IsAtom, Stops, read_atom-append, needs_quoting-IsAtom}
use imap_go.Wire.Chars.{is_atom_char, needs_literal, needs_quoting}
use imap_go.Wire.Decoder.{
  read_string, read_quoted_string, read_literal_info, read_full, read_atom, max_alloc,
}
use imap_go.Wire.Encoder.{literal, literal_head, quoted_string, string}
use imap_go.Wire.Literal.{literal_head-head_text, read_literal_info-literal_head, read_full-append}
use imap_go.Wire.Quoted.{quoted_string-escaped, read_quoted_string-quoted_string}
use imap_go.Wire.Reader.{expected, ok, err, ◌>>=◌}

-- The branch of `ReadString` for each first byte.
read_string_quoted : (t : Bytes) → read_string (b'"' ∷ t) ≡ read_quoted_string (b'"' ∷ t)
unfolding read_string
read_string_quoted t = refl

read_string_literal :
    (t : Bytes)
    → read_string (b'{' ∷ t) ≡ (read_literal_info >>= λ info. read_full info.size) (b'{' ∷ t)
unfolding read_string
read_string_literal t = refl

abbrev is_tilde : Bytes → Bool
is_tilde [] = false
is_tilde (b ∷ s) = b == b'~'

read_string_atom :
    (b : ℕ) (t : Bytes)
    → is_atom_char b ≡ true
    → (b == b'~') ≡ false
    → read_string (b ∷ t) ≡ read_atom (b ∷ t)
unfolding read_string is_atom_char
read_string_atom b t h k = ground arith

pub read_string-quoted_string :
    (s rest : Bytes) → read_string (quoted_string s [] ++ rest) ≡ ok s rest
read_string-quoted_string s rest =
    rw quoted_string-escaped (read_string_quoted _)
    ∙ rw quoted_string-escaped at (read_quoted_string-quoted_string s rest)

pub literal-append :
    (s rest : Bytes) → literal s [] ++ rest ≡ literal_head (length s) [] [] ++ (s ++ rest)
unfolding literal
literal-append s rest = append_assoc (literal_head (length s) [] []) s rest

info_then_full :
    (s rest : Bytes)
    → length s ≤ max_alloc
    → (read_literal_info >>= λ info. read_full info.size)
        (literal_head (length s) [] [] ++ (s ++ rest))
      ≡ ok s rest
info_then_full s rest h =
    rw (read_literal_info-literal_head (length s) false false (s ++ rest) (omega arith))
      (read_full-append s rest h)

read_string-literal_head :
    (n : ℕ) (t : Bytes)
    → read_string (literal_head n [] [] ++ t)
      ≡ (read_literal_info >>= λ info. read_full info.size) (literal_head n [] [] ++ t)
read_string-literal_head n t = rw literal_head-head_text (read_string_literal _)

pub read_string-literal :
    (s rest : Bytes) → length s ≤ max_alloc → read_string (literal s [] ++ rest) ≡ ok s rest
read_string-literal s rest h =
    rw literal-append (read_string-literal_head (length s) (s ++ rest) ∙ info_then_full s rest h)

read_string-atom :
    (s rest : Bytes)
    → s ≢ []
    → IsAtom s
    → is_tilde s ≡ false
    → Stops rest
    → read_string (s ++ rest) ≡ ok s rest
read_string-atom [] rest ne h k st = absurd (ne refl)
read_string-atom (b ∷ s) rest ne h k st =
    read_string_atom b (s ++ rest) h.0 k ∙ read_atom-append (b ∷ s) rest ne h st

-- The texts that `String` writes as an atom which starts with a tilde.
abbrev pub tilde_atom : Bytes → Bool
tilde_atom s = not (needs_literal s) && not (needs_quoting s) && is_tilde s

-- `ReadString` gives back the text that `String` wrote, in each of its three forms, and leaves what
-- follows, if that does not go on with a byte of an atom, the text is no longer than the longest
-- slice, and it is not written as an atom that starts with a tilde.
pub read_string-string :
    (s rest : Bytes)
    → length s ≤ max_alloc
    → tilde_atom s ≡ false
    → Stops rest
    → read_string (string s [] ++ rest) ≡ ok s rest
unfolding string
read_string-string s rest h k st = elim (Bool-cases (needs_literal s)) [
  | inl e ↦ rw e (read_string-literal s rest h)
  | inr e ↦ elim (Bool-cases (needs_quoting s)) [
    | inl q ↦ rw (e, q) (read_string-quoted_string s rest)
    | inr q ↦
        let (ne, is_atom) = needs_quoting-IsAtom s q in
        rw (e, q) (read_string-atom s rest ne is_atom (rw (e, q) at k) st)
  ]
]

atom-ne-brace : (b : ℕ) → is_atom_char b ≡ true → (b == b'{') ≡ false
unfolding is_atom_char
atom-ne-brace b h = ground arith

tilde_rejected :
    (t : Bytes) (b : ℕ)
    → is_atom_char b ≡ true
    → read_string (b'~' ∷ b ∷ t) ≡ err (expected b'{' b) t
unfolding read_string read_literal_info
tilde_rejected t b h = rw (atom-ne-brace b h)

tilde_atom_parts :
    (s : Bytes) → tilde_atom s ≡ true → (needs_literal s ≡ false) × (needs_quoting s ≡ false)
tilde_atom_parts s h = ground arith

-- A text of two bytes or more that is written as an atom starting with a tilde is never read back:
-- the decoder takes the tilde for the start of a binary literal, and fails at the next byte.
pub read_string-string_tilde :
    (b : ℕ) (s rest : Bytes)
    → tilde_atom (b'~' ∷ b ∷ s) ≡ true
    → read_string (string (b'~' ∷ b ∷ s) [] ++ rest) ≡ err (expected b'{' b) (s ++ rest)
unfolding string
read_string-string_tilde b s rest h =
    let (l, q) = tilde_atom_parts (b'~' ∷ b ∷ s) h in
    let is_atom = (needs_quoting-IsAtom (b'~' ∷ b ∷ s) q).1 in
    rw (l, q) (tilde_rejected (s ++ rest) b is_atom.1.0)
