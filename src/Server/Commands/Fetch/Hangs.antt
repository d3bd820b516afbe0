-- ===== src/Server/Commands/Fetch/Hangs.antt =====
-- A partial range behind the section of a FETCH item: the loop that passes over it makes no progress
-- at a byte of no atom.
use mathlib.Core.Path.{subst}
use imap_go.Imap.Fetch.{FetchOptions, no_section, no_options}
use imap_go.Prelude.{
  ℕ, zero, suc, ◌+◌, true, false, [], ◌∷◌, ◌++◌, ◌≡◌, refl, sym, arith, Bytes, codes, length, equal,
  ◌==◌,
}
use imap_go.Server.Commands.Fetch.{
  add_body, skip_loop, skip_partial, body_section_from_atom, parse_single_fetch_item,
  parse_fetch_items, rest_of,
}
use imap_go.Wire.Atom.{IsAtom, read_atom-append}
use imap_go.Wire.Chars.{is_atom_char}
use imap_go.Wire.Decoder.{read_atom}
use imap_go.Wire.ListReader.{read_list, list_loop}
use imap_go.Wire.Reader.{out_of_fuel, Out, ok, err}

-- The reader has run out of fuel.
abbrev pub RanOut {ℓ} : {A : Type ℓ} → Out A → Type ℓ
RanOut {A = A} r = (u : Bytes) × (r ≡ err out_of_fuel u)

no_progress : (b : ℕ) (s : Bytes) → is_atom_char b ≡ false → rest_of (read_atom (b ∷ s)) ≡ b ∷ s
unfolding read_atom
no_progress b s h = rw h refl

not_close : (b : ℕ) → is_atom_char b ≡ false → (b == b'>') ≡ false
unfolding is_atom_char
not_close b h = ground arith

skip_loop-RanOut :
    (fuel b : ℕ) (s : Bytes) → is_atom_char b ≡ false → RanOut (skip_loop fuel (b ∷ s))
unfolding skip_loop
skip_loop-RanOut zero b s h = (b ∷ s, refl)
skip_loop-RanOut (suc fuel) b s h =
    rw (not_close b h, no_progress b s h) (skip_loop-RanOut fuel b s h)

-- The range itself is one atom, its closing bracket included.
skip_partial-RanOut :
    (fuel : ℕ) (a : Bytes) (b : ℕ) (s : Bytes)
    → IsAtom a
    → is_atom_char b ≡ false
    → RanOut (skip_partial fuel (b'<' ∷ a ++ b ∷ s))
unfolding skip_partial skip_loop is_atom_char
skip_partial-RanOut zero a b s ha hb = (_, refl)
skip_partial-RanOut (suc fuel) a b s ha hb =
    rw (read_atom-append (b'<' ∷ a) (b ∷ s) (λ e. cc) (refl, ha) hb) (skip_loop-RanOut fuel b s hb)

skip_partial-end :
    (fuel : ℕ) (a : Bytes) → IsAtom a → skip_partial (suc (suc fuel)) (b'<' ∷ a ++ []) ≡ ok tt []
unfolding skip_partial skip_loop is_atom_char
skip_partial-end fuel a ha = rw (read_atom-append (b'<' ∷ a) [] (λ e. cc) (refl, ha) tt) refl

item-RanOut :
    (fuel : ℕ) (o : FetchOptions) (t : Bytes)
    → RanOut (skip_partial fuel t)
    → RanOut (parse_single_fetch_item fuel o (codes "BODY[]" ++ t))
unfolding parse_single_fetch_item is_atom_char equal body_section_from_atom
item-RanOut fuel o t (u, h) = (u, rw h refl)

item-end :
    (fuel : ℕ) (o : FetchOptions) (t : Bytes)
    → skip_partial fuel t ≡ ok tt []
    → parse_single_fetch_item fuel o (codes "BODY[]" ++ t) ≡ ok (add_body no_section o) []
unfolding parse_single_fetch_item is_atom_char equal body_section_from_atom
item-end fuel o t h = rw h refl

list-RanOut :
    (fuel n : ℕ) (t : Bytes)
    → RanOut (skip_partial fuel t)
    → RanOut
        (list_loop (parse_single_fetch_item fuel) (suc n) true no_options (codes "BODY[]" ++ t))
unfolding list_loop
list-RanOut fuel n t h = let (u, e) = item-RanOut fuel no_options t h in (u, rw e refl)

items-RanOut :
    (fuel : ℕ) (t : Bytes)
    → RanOut (skip_partial fuel t)
    → RanOut (parse_fetch_items fuel (codes "(BODY[]" ++ t))
unfolding parse_fetch_items read_list
items-RanOut fuel t h =
    let n = length t + 7 in
    let more : length (codes "BODY[]" ++ t) + 2 ≡ suc n = omega arith in
    subst
      (λ k.
        RanOut (list_loop (parse_single_fetch_item fuel) k true no_options (codes "BODY[]" ++ t)))
      (sym more) (list-RanOut fuel n t h)

-- A FETCH of `BODY[]` with a partial range, which is an atom: in a list, with the bracket of the list
-- or a space behind the range, the parser never returns, whatever the number of rounds; without
-- brackets and at the end of the text it returns, within two rounds, and without the range.
pub fetch_never_ends :
    (fuel : ℕ) (a : Bytes) (b : ℕ) (s : Bytes)
    → IsAtom a
    → is_atom_char b ≡ false
    → RanOut (parse_fetch_items fuel (codes "(BODY[]" ++ b'<' ∷ a ++ b ∷ s))
      × (parse_fetch_items (suc (suc fuel)) (codes "BODY[]" ++ b'<' ∷ a ++ [])
          ≡ ok (add_body no_section no_options) [])
unfolding parse_fetch_items
fetch_never_ends fuel a b s ha hb = (
  items-RanOut fuel (b'<' ∷ a ++ b ∷ s) (skip_partial-RanOut fuel a b s ha hb),
  item-end (suc (suc fuel)) no_options (b'<' ∷ a ++ []) (skip_partial-end fuel a ha),
)
