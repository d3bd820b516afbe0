-- ===== src/Wire/Flags.antt =====
-- Lists of flags: `Flags` of the encoder against `ReadFlags` of the decoder.
use imap_go.Prelude.{
  Bool-cases, inl, inr, ℕ, zero, suc, true, false, List, [], ◌∷◌, ◌++◌, append-nil, append_assoc,
  ◌≡◌, ◌≢◌, refl, arith, Bytes, All, ◌∙◌, ap, sym, length, ◌≤◌, ◌<◌, ◌+◌, ◌==◌, length-append,
}
use imap_go.Wire.Atom.{IsAtom, Stops, read_atom-append}
use imap_go.Wire.Chars.{is_atom_char, needs_literal, needs_quoting, has_atom_special}
use imap_go.Wire.Decoder.{read_atom, read_sp, expect_byte}
use imap_go.Wire.Encoder.{Encoder, string, list_items, flags, quoted_string}
use imap_go.Wire.ListReader.{list_loop, read_flag, read_flags}
use imap_go.Wire.Literal.{head_text, literal_head-head_text}
use imap_go.Wire.Quoted.{escaped, quoted_string-escaped}
use imap_go.Wire.Reader.{ok, err, expected_atom}

-- A flag that is written as it is: a keyword, such as `$Forwarded`.
pub record IsKeyword (f : Bytes) : Type 0 where
  pub ne_nil : f ≢ []
  pub is_atom : IsAtom f

atom_no_literal : (s : Bytes) → IsAtom s → needs_literal s ≡ false
unfolding needs_literal is_atom_char
atom_no_literal [] h = refl
atom_no_literal (b ∷ s) h = ground (arith, atom_no_literal s h.1)

atom_no_special : (s : Bytes) → IsAtom s → has_atom_special s ≡ false
unfolding has_atom_special
atom_no_special [] h = refl
atom_no_special (b ∷ s) h = rw h.0 (atom_no_special s h.1)

atom_no_quoting : (s : Bytes) → s ≢ [] → IsAtom s → needs_quoting s ≡ false
unfolding needs_quoting
atom_no_quoting [] ne h = absurd (ne refl)
atom_no_quoting (b ∷ s) ne h = atom_no_special (b ∷ s) h

string_keyword : (f : Bytes) (w : Encoder) → IsKeyword f → string f w ≡ w ++ f
unfolding string
string_keyword f w k = rw (atom_no_literal f k.is_atom, atom_no_quoting f k.ne_nil k.is_atom) refl

-- The flags behind the first, each after a space.
abbrev spaced : List Bytes → Bytes
spaced [] = []
spaced (f ∷ fs) = b' ' ∷ (f ++ spaced fs)

list_items-spaced :
    (fs : List Bytes) (w : Encoder) → All IsKeyword fs → list_items true fs w ≡ w ++ spaced fs
unfolding list_items
list_items-spaced [] w h = sym (append-nil w)
list_items-spaced (f ∷ fs) w (k, h) =
    rw (string_keyword f _ k) (list_items-spaced fs _ h ∙ simp append_assoc)

spaced-Stops : (fs : List Bytes) (rest : Bytes) → Stops (spaced fs ++ b')' ∷ rest)
unfolding is_atom_char
spaced-Stops [] rest = refl
spaced-Stops (f ∷ fs) rest = refl

read_flag_lem :
    (acc : List Bytes) (f rest : Bytes)
    → IsKeyword f
    → Stops rest
    → read_flag acc (f ++ rest) ≡ ok (acc ++ f ∷ []) rest
unfolding read_flag
read_flag_lem acc f rest k st = rw (read_atom-append f rest k.ne_nil k.is_atom st)

read_sp_lem : (t : Bytes) → read_sp (b' ' ∷ t) ≡ ok tt t
unfolding read_sp
read_sp_lem t = refl

list_loop-spaced :
    (fs acc : List Bytes) (fuel : ℕ) (rest : Bytes)
    → length fs < fuel
    → All IsKeyword fs
    → list_loop read_flag fuel false acc (spaced fs ++ b')' ∷ rest) ≡ ok (acc ++ fs) rest
unfolding list_loop
list_loop-spaced fs acc zero rest h ks = absurd (omega arith)
list_loop-spaced [] acc (suc fuel) rest h ks = rw append-nil
list_loop-spaced (f ∷ fs) acc (suc fuel) rest h (k, ks) =
    rw (read_sp_lem, append_assoc, read_flag_lem acc f _ k (spaced-Stops fs rest))
      (list_loop-spaced fs (acc ++ f ∷ []) fuel rest (omega arith) ks ∙ rw append_assoc)

-- The list as it is written, from the parenthesis on.
abbrev flag_text : List Bytes → Bytes
flag_text [] = []
flag_text (f ∷ fs) = f ++ spaced fs

list_items-flag_text :
    (fs : List Bytes) (w : Encoder) → All IsKeyword fs → list_items false fs w ≡ w ++ flag_text fs
unfolding list_items
list_items-flag_text [] w h = sym (append-nil w)
list_items-flag_text (f ∷ fs) w (k, h) =
    rw (string_keyword f _ k) (list_items-spaced fs _ h ∙ simp append_assoc)

flags-flag_text :
    (fs : List Bytes) (rest : Bytes)
    → All IsKeyword fs
    → flags fs [] ++ rest ≡ b'(' ∷ (flag_text fs ++ b')' ∷ rest)
unfolding flags
flags-flag_text fs rest h = rw (list_items-flag_text fs _ h) (simp append_assoc)

keyword_head : (b : ℕ) → is_atom_char b ≡ true → (b == b')') ≡ false
unfolding is_atom_char
keyword_head b h = ground arith

list_loop-flag_text :
    (fs : List Bytes) (fuel : ℕ) (rest : Bytes)
    → length fs < fuel
    → All IsKeyword fs
    → list_loop read_flag (suc fuel) true [] (flag_text fs ++ b')' ∷ rest) ≡ ok fs rest
unfolding list_loop
list_loop-flag_text [] fuel rest h ks = refl
list_loop-flag_text ([] ∷ fs) fuel rest h (k, ks) = absurd (k.ne_nil refl)
list_loop-flag_text ((b ∷ f) ∷ fs) fuel rest h (k, ks) =
    rw
      (
        keyword_head b k.is_atom.0,
        append_assoc,
        read_flag_lem [] (b ∷ f) _ k (spaced-Stops fs rest),
      )
      (list_loop-spaced fs ((b ∷ f) ∷ []) fuel rest (omega arith) ks)

length-spaced : (fs : List Bytes) → length fs ≤ length (spaced fs)
length-spaced [] = omega arith
length-spaced (f ∷ fs) = omega (arith, length-spaced fs, length-append f (spaced fs))

length-flag_text :
    (fs : List Bytes) (rest : Bytes) → length fs ≤ length (flag_text fs ++ b')' ∷ rest)
length-flag_text [] rest = omega arith
length-flag_text (f ∷ fs) rest = omega (
  arith,
  length-append (f ++ spaced fs) (b')' ∷ rest),
  length-append f (spaced fs),
  length-spaced fs,
)

read_flags-list_loop :
    (t : Bytes) → read_flags (b'(' ∷ t) ≡ list_loop read_flag (length t + 2) true [] t
unfolding read_flags expect_byte
read_flags-list_loop t = refl

-- A list of keywords is read back by `ReadFlags`, in order.
pub read_flags-flags :
    (fs : List Bytes) (rest : Bytes)
    → All IsKeyword fs
    → read_flags (flags fs [] ++ rest) ≡ ok fs rest
read_flags-flags fs rest h =
    let t = flag_text fs ++ b')' ∷ rest in
    let enough : length t + 2 ≡ suc (length t + 1) = omega arith in
    rw (flags-flag_text fs rest h, read_flags-list_loop, enough)
      (list_loop-flag_text fs (length t + 1) rest (omega (arith, length-flag_text fs rest)) h)

-- What `String` and the loop of `List` write stands behind what was written before.
abbrev pub Extends : Bytes → Bytes → Type 0
Extends w out = (u : Bytes) × (out ≡ w ++ u)

string-Extends : (s : Bytes) (w : Encoder) → Extends w (string s w)
unfolding string
string-Extends s w = elim (Bool-cases (needs_literal s)) [
  | inl e ↦ (
    head_text (length s) [] ++ s,
    rw e (ap (λ t. t ++ s) (literal_head-head_text (length s) [] w) ∙ append_assoc w _ s),
  )
  | inr e ↦ elim (Bool-cases (needs_quoting s)) [
    | inl q ↦ (b'"' ∷ (escaped s ++ b'"' ∷ []), rw (e, q) (quoted_string-escaped s w))
    | inr q ↦ (s, rw (e, q) refl)
  ]
]

list_items-Extends : (fs : List Bytes) (w : Encoder) → Extends w (list_items true fs w)
unfolding list_items
list_items-Extends [] w = ([], sym (append-nil w))
list_items-Extends (f ∷ fs) w =
    let (v, hv) = string-Extends f (w ++ b' ' ∷ []) in
    let (u, hu) = list_items-Extends fs (string f (w ++ b' ' ∷ [])) in
    (b' ' ∷ (v ++ u), hu ∙ ap (λ t. t ++ u) hv ∙ simp append_assoc)

pub flags-Extends : (fs : List Bytes) (w : Encoder) → Extends w (flags fs w)
unfolding flags list_items
flags-Extends [] w = (b'(' ∷ b')' ∷ [], append_assoc w (b'(' ∷ []) (b')' ∷ []))
flags-Extends (f ∷ fs) w =
    let (v, hv) = string-Extends f (w ++ b'(' ∷ []) in
    let (u, hu) = list_items-Extends fs (string f (w ++ b'(' ∷ [])) in
    (
      b'(' ∷ (v ++ (u ++ b')' ∷ [])),
      ap (λ t. t ++ b')' ∷ []) (hu ∙ ap (λ t. t ++ u) hv) ∙ simp append_assoc,
    )

system_flag_quoted :
    (t : Bytes) (w : Encoder)
    → needs_literal (b'\\' ∷ t) ≡ false
    → string (b'\\' ∷ t) w ≡ quoted_string (b'\\' ∷ t) w
unfolding string needs_quoting is_atom_char
system_flag_quoted t w h = rw h

-- `ReadFlags` refuses a list whose first flag does not start with a byte of an atom.
read_flags_refuses :
    (b : ℕ) (t : Bytes)
    → is_atom_char b ≡ false
    → (b == b')') ≡ false
    → read_flags (b'(' ∷ b ∷ t) ≡ err expected_atom (b ∷ t)
unfolding read_flags read_flag read_atom expect_byte
read_flags_refuses b t h k =
    let enough : length (b ∷ t) + 2 ≡ suc (length t + 2) = omega arith in rw (enough, k, h) refl

system_flags_text :
    (t : Bytes) (fs : List Bytes) (rest : Bytes)
    → needs_literal (b'\\' ∷ t) ≡ false
    → (u : Bytes) × (flags ((b'\\' ∷ t) ∷ fs) [] ++ rest ≡ b'(' ∷ b'"' ∷ u)
unfolding flags
system_flags_text t fs rest h =
    let (u, hu) = list_items-Extends fs (string (b'\\' ∷ t) (b'(' ∷ [])) in
    let q = system_flag_quoted t (b'(' ∷ []) h ∙ quoted_string-escaped (b'\\' ∷ t) (b'(' ∷ []) in
    (
      (escaped (b'\\' ∷ t) ++ b'"' ∷ []) ++ u ++ b')' ∷ [] ++ rest,
      ap (λ o. (o ++ b')' ∷ []) ++ rest) (hu ∙ ap (λ o. o ++ u) q) ∙ simp append_assoc,
    )

-- A flag that starts with a backslash, as every system flag does, is written between quotes by
-- `Flags`; `ReadFlags` refuses the list that starts with it, and the list with the bare flag too.
pub read_flags-flags_system :
    (t : Bytes) (fs : List Bytes) (rest : Bytes)
    → needs_literal (b'\\' ∷ t) ≡ false
    → ((u : Bytes) × (read_flags (flags ((b'\\' ∷ t) ∷ fs) [] ++ rest) ≡ err expected_atom u))
      × (read_flags (b'(' ∷ b'\\' ∷ t ++ rest) ≡ err expected_atom (b'\\' ∷ t ++ rest))
unfolding is_atom_char
read_flags-flags_system t fs rest h =
    let (u, hu) = system_flags_text t fs rest h in
    (
      (b'"' ∷ u, rw hu (read_flags_refuses b'"' u refl refl)),
      read_flags_refuses b'\\' (t ++ rest) refl refl,
    )
