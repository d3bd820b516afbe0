-- ===== src/Wire/Quoted.antt =====
-- Quoted strings: what the encoder writes between the quotes is read back.
use imap_go.Prelude.{
  Bool-cases, inl, inr, false, [], ◌∷◌, ◌++◌, append-nil, append_assoc, ◌≡◌, arith, Bytes,
  if◌then◌else◌, ◌∙◌, sym,
}
use imap_go.Wire.Chars.{is_quoted_special}
use imap_go.Wire.Decoder.{quoted_loop, read_quoted_string}
use imap_go.Wire.Encoder.{Encoder, quoted_bytes, quoted_string}
use imap_go.Wire.Reader.{ok}

-- The bytes that stand for `s` between the quotes.
abbrev pub escaped : Bytes → Bytes
escaped [] = []
escaped (b ∷ s) = if is_quoted_special b then b'\\' ∷ b ∷ escaped s else b ∷ escaped s

pub quoted_bytes-escaped : (s : Bytes) (w : Encoder) → quoted_bytes s w ≡ w ++ escaped s
unfolding quoted_bytes
quoted_bytes-escaped [] w = sym (append-nil w)
quoted_bytes-escaped (b ∷ s) w = elim (Bool-cases (is_quoted_special b)) [
  | inl e ↦ rw e (quoted_bytes-escaped s _ ∙ simp append_assoc)
  | inr e ↦ rw e (quoted_bytes-escaped s _ ∙ simp append_assoc)
]

pub quoted_string-escaped :
    (s : Bytes) (w : Encoder) → quoted_string s w ≡ w ++ b'"' ∷ (escaped s ++ b'"' ∷ [])
unfolding quoted_string
quoted_string-escaped s w = rw quoted_bytes-escaped (simp append_assoc)

quoted_loop-escaped :
    (s rest buf : Bytes) → quoted_loop false buf (escaped s ++ b'"' ∷ rest) ≡ ok (buf ++ s) rest
unfolding quoted_loop is_quoted_special
quoted_loop-escaped [] rest buf = rw append-nil
quoted_loop-escaped (b ∷ s) rest buf =
    ground (arith, quoted_loop-escaped s rest (buf ++ b ∷ []), append_assoc buf (b ∷ []) s)

-- Whatever bytes a text holds, it is read back from its quoted form, and what follows is left.
pub read_quoted_string-quoted_string :
    (s rest : Bytes) → read_quoted_string (quoted_string s [] ++ rest) ≡ ok s rest
unfolding read_quoted_string
read_quoted_string-quoted_string s rest =
    rw (quoted_string-escaped, append_assoc) (quoted_loop-escaped s rest [])
