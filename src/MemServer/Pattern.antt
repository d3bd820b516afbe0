-- ===== src/MemServer/Pattern.antt =====
-- The patterns of LIST in server/memserver/mailbox.go: `matchPattern` and `HasChildren`, with the
-- delimiter a byte.
use imap_go.Prelude.{
  ℕ, suc, ◌==◌, Bool, true, false, not, List, [], ◌∷◌, ◌++◌, Bytes, any, equal, take, length,
  if◌then◌else◌,
}
pub mod Matches

-- `strings.ContainsRune` of a delimiter.
abbrev pub contains_byte : Bytes → ℕ → Bool
contains_byte name delim = any (λ c. c == delim) name

-- The loops over the suffixes of the name; `rest` matches what follows the wildcard.
unfoldable pub match_star : (Bytes → Bool) → Bytes → Bool
match_star rest [] = rest []
match_star rest (c ∷ name) = if rest (c ∷ name) then true else match_star rest name

unfoldable pub match_percent : ℕ → (Bytes → Bool) → Bytes → Bool
match_percent delim rest [] = rest []
match_percent delim rest (c ∷ name) =
    let onward = match_percent delim rest name in
    if rest (c ∷ name) then true else if c == delim then false else onward

abbrev pub is_empty : Bytes → Bool
is_empty [] = true
is_empty (c ∷ s) = false

unfoldable pub match_byte : ℕ → (Bytes → Bool) → Bytes → Bool
match_byte p rest [] = false
match_byte p rest (c ∷ name) = if p == c then rest name else false

-- `matchPatternRecursive`; a wildcard at the end has a case of its own.
unfoldable pub match_pattern : ℕ → Bytes → Bytes → Bool
unfolding match_star match_percent match_byte
match_pattern delim [] name = is_empty name
match_pattern delim (p ∷ pattern) name =
    let rest : Bytes → Bool = match_pattern delim pattern in
    if p == b'*'
    then (if is_empty pattern then true else match_star rest name)
    else if p == b'%'
    then (if is_empty pattern
        then not (contains_byte name delim)
        else match_percent delim rest name)
    else match_byte p rest name

-- `strings.HasPrefix` is the test of `equal`.
unfoldable pub has_children : Bytes → List Bytes → ℕ → Bool
unfolding equal
has_children name [] delim = false
has_children name (other ∷ all_names) delim =
    let prefix = name ++ delim ∷ [] in
    if equal (take (length prefix) other) prefix then true else has_children name all_names delim
