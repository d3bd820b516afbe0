-- ===== src/Tests/Wire.antt =====
-- The wire format at concrete inputs.
use imap_go.Prelude.{
  ℕ, suc, [], ◌∷◌, ◌++◌, none, some, ◌≡◌, refl, arith, Bytes, codes, All, equal_fold,
}
use imap_go.Wire.Atom.{ReadsAtom, read_atom-ReadsAtom}
use imap_go.Wire.Chars.{is_atom_char, needs_literal, needs_quoting}
use imap_go.Wire.Decimal.{format_uint}
use imap_go.Wire.Decoder.{
  read_quoted_string, read_astring, read_number64, expect_byte, read_crlf, read_atom, read_string,
  read_nstring, read_literal_info, read_number,
}
use imap_go.Wire.Encoder.{string, nstring, flags}
use imap_go.Wire.Flags.{IsKeyword, read_flags-flags}
use imap_go.Wire.ListReader.{read_list, read_flags}
use imap_go.Wire.Lists.{decoder_forward}
use imap_go.Wire.Lossy.{not_read_back}
use imap_go.Wire.Reader.{Reader, continue, ok, err, expected, expected_atom}
use imap_go.Wire.RoundTrip.{read_string-string}
use imap_go.Wire.Safe.{IsLineByte, string-IsLineByte}
use imap_go.Wire.Reads.{read_atom-Leaves}
use imap_go.Wire.Suffix.{Suffix-refl, Leaves, Leaves-continue}

quoted_run :
    read_string (string (codes "a \"b\"") [] ++ codes " c") ≡ ok (codes "a \"b\"") (codes " c")
unfolding string read_string needs_literal needs_quoting is_atom_char read_quoted_string
quoted_run = refl

-- A text with a line break goes as a literal.
literal_text : string (codes "a\r\nb") [] ≡ codes "{4}\r\na\r\nb"
unfolding string needs_literal format_uint
literal_text = refl

read_string-string_example :
    read_string (string (codes "a\nb") [] ++ codes " c") ≡ ok (codes "a\nb") (codes " c")
unfolding string is_atom_char needs_literal
read_string-string_example = read_string-string (codes "a\nb") (codes " c") (omega arith) refl refl

keywords : All IsKeyword (codes "$Junk" ∷ codes "NoSpam" ∷ [])
unfolding is_atom_char
keywords = (
  record { ne_nil = cc; is_atom = (refl, (refl, (refl, (refl, (refl, tt))))) },
  (record { ne_nil = cc; is_atom = (refl, (refl, (refl, (refl, (refl, (refl, tt)))))) }, tt),
)

read_flags-flags_example :
    read_flags (flags (codes "$Junk" ∷ codes "NoSpam" ∷ []) [] ++ codes "\r\n")
    ≡ ok (codes "$Junk" ∷ codes "NoSpam" ∷ []) (codes "\r\n")
read_flags-flags_example =
    read_flags-flags (codes "$Junk" ∷ codes "NoSpam" ∷ []) (codes "\r\n") keywords

read_atom-ReadsAtom_example : ReadsAtom [] (codes "UID FETCH") (read_atom (codes "UID FETCH"))
read_atom-ReadsAtom_example = read_atom-ReadsAtom (codes "UID FETCH")

string-IsLineByte_example : All IsLineByte (string (codes "a\"b") [])
unfolding needs_literal
string-IsLineByte_example = string-IsLineByte (codes "a\"b") refl

-- Atoms are counted.
abbrev count_atom : ℕ → Reader ℕ
count_atom n t = continue (read_atom t) (λ a u. ok (suc n) u)

count_atom-Leaves : (n : ℕ) (t : Bytes) → Leaves t (count_atom n t)
count_atom-Leaves n t = Leaves-continue t _ _ (read_atom-Leaves t) λ a s. Suffix-refl s

decoder_forward_example :
    let t = codes "(a b) c" in
    Leaves t (read_atom t)
    × Leaves t (read_string t)
    × Leaves t (read_astring t)
    × Leaves t (read_nstring t)
    × Leaves t (read_quoted_string t)
    × Leaves t (read_literal_info t)
    × Leaves t (read_number t)
    × Leaves t (read_number64 t)
    × Leaves t (read_flags t)
    × Leaves t (expect_byte b'(' t)
    × Leaves t (read_crlf t)
    × Leaves t (read_list count_atom 0 t)
decoder_forward_example = decoder_forward count_atom 0 b'(' (codes "(a b) c") count_atom-Leaves

not_read_back_example :
    (((u : Bytes) × (read_flags (flags (codes "\\Seen" ∷ []) [] ++ codes ")")
          ≡ err expected_atom u))
      × (read_flags (codes "(\\Seen" ++ codes ")")
          ≡ err expected_atom (codes "\\Seen" ++ codes ")")))
    × (read_string (string (codes "~x") [] ++ codes ")") ≡ err (expected b'{' b'x') (codes ")"))
    × (read_nstring (nstring (some (codes "Nil")) [] ++ codes ")") ≡ ok none (codes ")"))
unfolding needs_literal needs_quoting is_atom_char equal_fold
not_read_back_example =
    not_read_back (codes "Seen") [] b'x' [] (codes "Nil") (codes ")") refl refl refl refl
