-- ===== src/Wire/Chars.antt =====
-- The byte classes of wire/decoder.go: `isAtomChar`, `IsAtomSpecial`, `IsQuotedSpecial`,
-- `NeedsQuoting` and `NeedsLiteral`.
use imap_go.Prelude.{ℕ, Bool, true, false, not, ◌||◌, [], ◌∷◌, ltb, ◌==◌, if◌then◌else◌, Bytes}

unfoldable pub is_atom_char : ℕ → Bool
is_atom_char b =
    if ltb b 0x20 || ltb 0x7e b
    then false
    else if b == b'('
        || b == b')'
        || b == b'{'
        || b == b' '
        || b == b'%'
        || b == b'*'
        || b == b'"'
        || b == b'\\'
        || b == b']'
    then false
    else true

unfoldable pub is_atom_special : ℕ → Bool
is_atom_special b = not (is_atom_char b)

unfoldable pub is_quoted_special : ℕ → Bool
is_quoted_special b = b == b'"' || b == b'\\'

-- The loop returns at the first byte that is no atom byte.
unfoldable pub has_atom_special : Bytes → Bool
has_atom_special [] = false
has_atom_special (b ∷ s) = if not (is_atom_char b) then true else has_atom_special s

unfoldable pub needs_quoting : Bytes → Bool
unfolding has_atom_special
needs_quoting [] = true
needs_quoting (b ∷ s) = has_atom_special (b ∷ s)

unfoldable pub needs_literal : Bytes → Bool
needs_literal [] = false
needs_literal (b ∷ s) =
    if b == b'\r' || b == b'\n' || b == 0
    then true
    else if ltb 0x7e b
    then true
    else needs_literal s
