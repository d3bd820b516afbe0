-- ===== src/Wire/Reads.antt =====
-- What the methods of the decoder leave of the stream, and how they fail.
use mathlib.Core.Path.{subst}
use imap_go.Prelude.{
  ◌<◌, ◌⊎◌, Bool-cases, inl, inr, ℕ, Bool, true, false, not, ◌&&◌, ◌||◌, [], ◌∷◌, ◌++◌, ◌≡◌, refl,
  arith, Bytes, if◌then◌else◌, sym, length, ◌≤◌, ◌==◌, take, take-append-drop, leb, ltb,
}
use imap_go.Wire.Atom.{no_atom_error, ReadsAtom, read_atom-ReadsAtom}
use imap_go.Wire.Decimal.{ParsedUint, parsed, bad_syntax, out_of_range, parse_uint}
use imap_go.Wire.Decoder.{
  LiteralInfo, read_atom, quoted_loop, read_quoted_string, read_crlf, expect_byte, literal_loop,
  number_of, literal_header, read_literal_info, read_full, read_string, is_nil, read_nstring,
  read_number, read_number64, max_int64, max_alloc, max_uint32, max_uint64,
}
use imap_go.Wire.Reader.{eof, unexpected_eof, makeslice_panic, Out, ok, err, continue, read_byte}
use imap_go.Wire.Suffix.{
  CanFail, Suffix-refl, Suffix-nil, Leaves, Leaves-trans, Leaves-continue, Leaves-if, Leaves-choice,
  Leaves-cons,
}

read_byte-Leaves : (t : Bytes) → Leaves t (read_byte t)
unfolding read_byte
read_byte-Leaves [] = (Suffix-refl [], tt)
read_byte-Leaves (b ∷ t) = (b ∷ [], refl)

no_atom_error-CanFail : (u t : Bytes) → CanFail u (no_atom_error t)
no_atom_error-CanFail u [] = tt
no_atom_error-CanFail u (b ∷ t) = tt

ReadsAtom-Leaves : (t : Bytes) (r : Out Bytes) → ReadsAtom [] t r → Leaves t r
ReadsAtom-Leaves t (ok s rest) (e, ne, h, st) = (s, e)
ReadsAtom-Leaves t (err e rest) (n, h, st, k) =
    (rw h (Suffix-refl t), rw k (no_atom_error-CanFail t t))

pub read_atom-Leaves : (t : Bytes) → Leaves t (read_atom t)
read_atom-Leaves t = ReadsAtom-Leaves t (read_atom t) (read_atom-ReadsAtom t)

quoted_loop-Leaves : (t buf : Bytes) (after : Bool) → Leaves t (quoted_loop after buf t)
unfolding quoted_loop
quoted_loop-Leaves [] buf after = (Suffix-refl [], tt)
quoted_loop-Leaves (b ∷ t) buf true = Leaves-cons b t _ (quoted_loop-Leaves t (buf ++ b ∷ []) false)
quoted_loop-Leaves (b ∷ t) buf false =
    Leaves-if (b ∷ t) (b == b'"') _ _ (b ∷ [], refl)
      (Leaves-if (b ∷ t) (b == b'\\') _ _ (Leaves-cons b t _ (quoted_loop-Leaves t buf true))
        (Leaves-cons b t _ (quoted_loop-Leaves t (buf ++ b ∷ []) false)))

pub read_quoted_string-Leaves : (t : Bytes) → Leaves t (read_quoted_string t)
unfolding read_quoted_string
read_quoted_string-Leaves [] = (Suffix-refl [], tt)
read_quoted_string-Leaves (b ∷ t) =
    Leaves-cons b t _
      (Leaves-choice t (b == b'"') _ _ (quoted_loop-Leaves t [] false) (Suffix-refl t, tt))

pub read_crlf-Leaves : (t : Bytes) → Leaves t (read_crlf t)
unfolding read_crlf
read_crlf-Leaves [] = (Suffix-refl [], tt)
read_crlf-Leaves (b ∷ []) = (Suffix-nil (b ∷ []), tt)
read_crlf-Leaves (b ∷ c ∷ t) = Leaves-cons b (c ∷ t) _ (
    Leaves-cons c t _ (
      Leaves-choice t (not (b == b'\r') || not (c == b'\n')) _ _ (Suffix-refl t, tt)
        (Suffix-refl t)))

pub expect_byte-Leaves : (want : ℕ) (t : Bytes) → Leaves t (expect_byte want t)
unfolding expect_byte
expect_byte-Leaves want [] = (Suffix-refl [], tt)
expect_byte-Leaves want (b ∷ t) =
    Leaves-cons b t _ (Leaves-choice t (not (b == want)) _ _ (Suffix-refl t, tt) (Suffix-refl t))

literal_loop-Leaves : (t num : Bytes) (non_sync : Bool) → Leaves t (literal_loop non_sync num t)
unfolding literal_loop
literal_loop-Leaves [] num ns = (Suffix-refl [], tt)
literal_loop-Leaves (b ∷ t) num ns =
    Leaves-if (b ∷ t) (b == b'+') _ _ (Leaves-cons b t _ (literal_loop-Leaves t num true)) (
      Leaves-if (b ∷ t) (b == b'}') _ _ (b ∷ [], refl)
        (Leaves-if (b ∷ t) (leb b'0' b && leb b b'9') _ _
          (Leaves-cons b t _ (literal_loop-Leaves t (num ++ b ∷ []) ns)) ((b ∷ [], refl), tt)))

number_of-Leaves : (p : ParsedUint) (t : Bytes) → Leaves t (number_of p t)
unfolding number_of
number_of-Leaves (parsed n) t = Suffix-refl t
number_of-Leaves bad_syntax t = (Suffix-refl t, tt)
number_of-Leaves out_of_range t = (Suffix-refl t, tt)

literal_header-Leaves : (binary : Bool) (b : ℕ) (t : Bytes) → Leaves t (literal_header binary b t)
unfolding literal_header
literal_header-Leaves binary b t = elim (Bool-cases (b == b'{')) [
  | inr e ↦ rw e (Suffix-refl t, tt)
  | inl e ↦ rw e (
      Leaves-continue t _ _ (literal_loop-Leaves t [] false) λ info s.
        Leaves-continue s _ _ (number_of-Leaves (parse_uint max_int64 info.1) s)
          λ size u. Leaves-continue u _ _ (read_crlf-Leaves u) λ x v. Suffix-refl v)
]

pub read_literal_info-Leaves : (t : Bytes) → Leaves t (read_literal_info t)
unfolding read_literal_info
read_literal_info-Leaves [] = (Suffix-refl [], tt)
read_literal_info-Leaves (b ∷ t) = Leaves-cons b t _ (
    Leaves-choice t (b == b'~') _ _
      (Leaves-continue t _ _ (read_byte-Leaves t) λ c s. literal_header-Leaves true c s)
      (literal_header-Leaves false b t))

read_full-Leaves : (n : ℕ) (t : Bytes) → n ≤ max_alloc → Leaves t (read_full n t)
unfolding read_full
read_full-Leaves n t h = rw (in_bounds n h) (
    Leaves-if t (leb n (length t)) _ _ (take n t, sym (take-append-drop n t))
      (Suffix-nil t, short_error (length t == 0)))
  where
    in_bounds : (n : ℕ) → n ≤ max_alloc → ltb max_alloc n ≡ false
    in_bounds n h = ground arith

    short_error : (b : Bool) → CanFail t (if b then eof else unexpected_eof)
    short_error true = tt
    short_error false = tt

read_full-panics : (n : ℕ) (t : Bytes) → max_alloc < n → read_full n t ≡ err makeslice_panic t
unfolding read_full
read_full-panics n t h = rw (too_long n h) refl
  where
    too_long : (n : ℕ) → max_alloc < n → ltb max_alloc n ≡ true
    too_long n h = ground arith

size-cases : (n : ℕ) → (n ≤ max_alloc) ⊎ (max_alloc < n)
size-cases n = omega arith

-- The contents of a literal, behind its head.
contents-Leaves :
    (t : Bytes) (r : Out LiteralInfo)
    → read_literal_info t ≡ r
    → Leaves t r
    → Leaves t (continue r (λ info s. read_full info.size s))
contents-Leaves t (err e s) eq k = k
contents-Leaves t (ok info s) eq k = elim (size-cases info.size) [
  | inl h ↦ Leaves-trans s t _ k (read_full-Leaves info.size s h)
  | inr h ↦
      subst (Leaves t) (sym (read_full-panics info.size s h))
        (k, (t, Suffix-refl t, (info, s, eq, h)))
]

pub read_string-Leaves : (t : Bytes) → Leaves t (read_string t)
unfolding read_string
read_string-Leaves [] = (Suffix-refl [], tt)
read_string-Leaves (b ∷ t) =
    Leaves-choice (b ∷ t) (b == b'"') _ _ (read_quoted_string-Leaves (b ∷ t)) (
      Leaves-choice (b ∷ t) (b == b'{' || b == b'~') _ _
        (contents-Leaves (b ∷ t) (read_literal_info (b ∷ t)) refl
          (read_literal_info-Leaves (b ∷ t)))
        (read_atom-Leaves (b ∷ t)))

pub read_nstring-Leaves : (t : Bytes) → Leaves t (read_nstring t)
unfolding read_nstring
read_nstring-Leaves [] = (Suffix-refl [], tt)
read_nstring-Leaves (b ∷ t) =
    Leaves-if (b ∷ t) (is_nil (b ∷ t)) _ _ (take 3 (b ∷ t), sym (take-append-drop 3 (b ∷ t)))
      (Leaves-continue (b ∷ t) _ _ (read_string-Leaves (b ∷ t)) λ u s. Suffix-refl s)

pub read_number-Leaves : (t : Bytes) → Leaves t (read_number t) × Leaves t (read_number64 t)
unfolding read_number read_number64
read_number-Leaves t = (
  Leaves-continue t _ _ (read_atom-Leaves t)
      λ atom s. number_of-Leaves (parse_uint max_uint32 atom) s,
  Leaves-continue t _ _ (read_atom-Leaves t)
      λ atom s. number_of-Leaves (parse_uint max_uint64 atom) s,
)
