-- ===== src/Wire/Atom.antt =====
-- What `ReadAtom` takes: the bytes of the longest atom in front of the stream.
use mathlib.Core.List.{concat-ne-nil, cons-ne-nil}
use imap_go.Prelude.{
  Bool-cases, inl, inr, All-append, ℕ, true, false, [], ◌∷◌, ◌++◌, append-nil, append_assoc, ◌≡◌,
  ◌≢◌, refl, arith, Bytes, All, ◌∙◌, sym,
}
use imap_go.Wire.Chars.{is_atom_char, has_atom_special, needs_quoting}
use imap_go.Wire.Decoder.{finish_atom, atom_loop, read_atom}
use imap_go.Wire.Reader.{Error, eof, expected_atom, Out, ok, err}

abbrev pub IsAtom : Bytes → Type 0
IsAtom = All (λ b. is_atom_char b ≡ true)

-- The stream ends, or goes on with a byte of no atom.
abbrev pub Stops : Bytes → Type 0
Stops [] = Unit
Stops (b ∷ s) = is_atom_char b ≡ false

finish_atom_lem : (e : Error) (buf s : Bytes) → buf ≢ [] → finish_atom e buf s ≡ ok buf s
unfolding finish_atom
finish_atom_lem e [] s h = absurd (h refl)
finish_atom_lem e (b ∷ buf) s h = refl

atom_loop-append :
    (s rest buf : Bytes)
    → IsAtom s
    → Stops rest
    → buf ++ s ≢ []
    → atom_loop buf (s ++ rest) ≡ ok (buf ++ s) rest
unfolding atom_loop
atom_loop-append [] [] buf hs hr ne =
    rw append-nil (finish_atom_lem eof buf [] (rw append-nil at ne))
atom_loop-append [] (b ∷ rest) buf hs hr ne =
    rw (append-nil, hr) (finish_atom_lem expected_atom buf (b ∷ rest) (rw append-nil at ne))
atom_loop-append (b ∷ s) rest buf (hb, hs) hr ne =
    rw hb (atom_loop-append s rest (buf ++ b ∷ []) hs hr (rw append_assoc ne) ∙ rw append_assoc)

-- An atom that is not empty, before a byte of no atom, is read whole and nothing more.
pub read_atom-append :
    (s rest : Bytes) → s ≢ [] → IsAtom s → Stops rest → read_atom (s ++ rest) ≡ ok s rest
unfolding read_atom
read_atom-append s rest ne hs hr = atom_loop-append s rest [] hs hr ne

-- The error of a stream that does not start with an atom.
abbrev pub no_atom_error : Bytes → Error
no_atom_error [] = eof
no_atom_error (b ∷ s) = expected_atom

abbrev pub ReadsAtom : Bytes → Bytes → Out Bytes → Type 0
ReadsAtom buf t (ok s rest) = (buf ++ t ≡ s ++ rest) × (s ≢ []) × IsAtom s × Stops rest
ReadsAtom buf t (err e rest) = (buf ≡ []) × (rest ≡ t) × Stops t × (e ≡ no_atom_error t)

finish_atom-ReadsAtom :
    (buf s : Bytes) → IsAtom buf → Stops s → ReadsAtom buf s (finish_atom (no_atom_error s) buf s)
unfolding finish_atom
finish_atom-ReadsAtom [] s hb hs = (refl, refl, hs, refl)
finish_atom-ReadsAtom (b ∷ buf) s hb hs = (refl, cc, hb, hs)

ReadsAtom-shift :
    (buf s : Bytes) (b : ℕ) (r : Out Bytes)
    → ReadsAtom (buf ++ b ∷ []) s r
    → ReadsAtom buf (b ∷ s) r
ReadsAtom-shift buf s b (ok t rest) (e, ne, h, st) =
    (sym (append_assoc buf (b ∷ []) s) ∙ e, ne, h, st)
ReadsAtom-shift buf s b (err e rest) (n, h, st, k) = absurd (concat-ne-nil b buf n)

atom_loop-ReadsAtom : (t buf : Bytes) → IsAtom buf → ReadsAtom buf t (atom_loop buf t)
unfolding atom_loop
atom_loop-ReadsAtom [] buf h = finish_atom-ReadsAtom buf [] h tt
atom_loop-ReadsAtom (b ∷ t) buf h = elim (Bool-cases (is_atom_char b)) [
  | inl e ↦ rw e (
      ReadsAtom-shift buf t b _
        (atom_loop-ReadsAtom t (buf ++ b ∷ []) (All-append _ buf (b ∷ []) h (e, tt))))
  | inr e ↦ rw e (finish_atom-ReadsAtom buf (b ∷ t) h e)
]

-- Whatever the stream holds, `ReadAtom` splits it into an atom that is not empty and a rest that
-- does not go on with a byte of an atom, or takes nothing and fails,
-- with `EOF` exactly at the end of the stream.
pub read_atom-ReadsAtom : (t : Bytes) → ReadsAtom [] t (read_atom t)
unfolding read_atom
read_atom-ReadsAtom t = atom_loop-ReadsAtom t [] tt

-- `NeedsQuoting` is false exactly of the atoms that are not empty.
has_atom_special-IsAtom : (s : Bytes) → has_atom_special s ≡ false → IsAtom s
unfolding has_atom_special
has_atom_special-IsAtom [] h = tt
has_atom_special-IsAtom (b ∷ s) h = ground (arith, has_atom_special-IsAtom s)

pub needs_quoting-IsAtom : (s : Bytes) → needs_quoting s ≡ false → (s ≢ []) × IsAtom s
unfolding needs_quoting
needs_quoting-IsAtom [] h = absurd (ground arith)
needs_quoting-IsAtom (b ∷ s) h = (cons-ne-nil b s, has_atom_special-IsAtom (b ∷ s) h)
