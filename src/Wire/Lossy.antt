-- ===== src/Wire/Lossy.antt =====
-- What the encoder writes in a form that the decoder does not read as the same.
use imap_go.Prelude.{ℕ, true, false, List, [], ◌∷◌, ◌++◌, ◌≡◌, none, some, Bytes, codes, equal_fold}
use imap_go.Wire.Atom.{Stops}
use imap_go.Wire.Chars.{needs_literal}
use imap_go.Wire.Encoder.{string, nstring, flags}
use imap_go.Wire.Decoder.{read_string, read_nstring}
use imap_go.Wire.Flags.{read_flags-flags_system}
use imap_go.Wire.ListReader.{read_flags}
use imap_go.Wire.Nullable.{read_nstring-nstring_nil}
use imap_go.Wire.Reader.{expected, expected_atom, ok, err}
use imap_go.Wire.RoundTrip.{tilde_atom, read_string-string_tilde}

-- Three texts that are not read back: a list of flags whose first starts with a backslash, as every
-- system flag does, is refused by `ReadFlags` as `Flags` writes it and bare; a text of two bytes or
-- more that `String` writes as an atom with a tilde in front fails at the byte behind the tilde; and
-- a text that is `NIL` in some case, given to `NString`, is read as no string.
pub not_read_back :
    (t : Bytes) (fs : List Bytes) (b : ℕ) (s n rest : Bytes)
    → needs_literal (b'\\' ∷ t) ≡ false
    → tilde_atom (b'~' ∷ b ∷ s) ≡ true
    → equal_fold n (codes "NIL") ≡ true
    → Stops rest
    → (((u : Bytes) × (read_flags (flags ((b'\\' ∷ t) ∷ fs) [] ++ rest) ≡ err expected_atom u))
        × (read_flags (b'(' ∷ b'\\' ∷ t ++ rest) ≡ err expected_atom (b'\\' ∷ t ++ rest)))
      × (read_string (string (b'~' ∷ b ∷ s) [] ++ rest) ≡ err (expected b'{' b) (s ++ rest))
      × (read_nstring (nstring (some n) [] ++ rest) ≡ ok none rest)
not_read_back t fs b s n rest hf ht hn st = (
  read_flags-flags_system t fs rest hf,
  read_string-string_tilde b s rest ht,
  read_nstring-nstring_nil n rest hn st,
)
