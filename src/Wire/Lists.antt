-- ===== src/Wire/Lists.antt =====
-- `ReadList` ends: its rounds are bounded by the length of the stream, whatever the function does
-- that it calls, as long as that reads forward.
use imap_go.Prelude.{
  Bool-cases, inl, inr, ℕ, zero, suc, Bool, true, false, List, [], ◌∷◌, ◌≡◌, refl, arith, Bytes,
  ◌⊎◌, if◌then◌else◌, length, ◌<◌, ◌+◌, ◌==◌,
}
use imap_go.Wire.Decoder.{
  read_sp, read_atom, read_string, read_astring, read_quoted_string, read_number64, expect_byte,
  read_crlf, read_nstring, read_literal_info, read_number,
}
use imap_go.Wire.ListReader.{list_loop, read_list, read_flag, read_flags}
use imap_go.Wire.Reader.{expected, Out, ok, err, Reader, continue}
use imap_go.Wire.Reads.{
  expect_byte-Leaves, read_quoted_string-Leaves, read_crlf-Leaves, read_atom-Leaves,
  read_string-Leaves, read_nstring-Leaves, read_literal_info-Leaves, read_number-Leaves,
}
use imap_go.Wire.Suffix.{Suffix, Suffix-refl, Suffix-length, Leaves, Leaves-trans, Leaves-continue}

Leaves-continue_suffix {ℓ κ} :
    {A : Type ℓ} {B : Type κ} (t : Bytes) (r : Out A) (f : A → Reader B)
    → Leaves t r
    → ((a : A) (s : Bytes) → Suffix s t → Leaves s (f a s))
    → Leaves t (continue r f)
Leaves-continue_suffix t (ok a s) f h k = Leaves-trans s t (f a s) h (k a s h)
Leaves-continue_suffix t (err e s) f h k = h

read_sp-cases :
    (b : ℕ) (t : Bytes) → (read_sp (b ∷ t) ≡ ok tt t) ⊎ (read_sp (b ∷ t) ≡ err (expected b' ' b) t)
unfolding read_sp
read_sp-cases b t = elim (Bool-cases (b == b' ')) [ inl e ↦ inl (rw e) | inr e ↦ inr (rw e) ]

module _ {ℓ} {A : Type ℓ} (fn : A → Reader A)
    (forward : (a : A) (t : Bytes) → Leaves t (fn a t)) where
  list_loop-Leaves :
      (fuel : ℕ) (first : Bool) (a : A) (t : Bytes)
      → length t + (if first then 1 else 0) < fuel
      → Leaves t (list_loop fn fuel first a t)
  unfolding list_loop
  list_loop-Leaves zero first a t h = absurd (omega arith)
  list_loop-Leaves (suc fuel) first a [] h = (Suffix-refl [], tt)
  list_loop-Leaves (suc fuel) true a (b ∷ t) h = elim (Bool-cases (b == b')')) [
    | inl e ↦ rw e (b ∷ [], refl)
    | inr e ↦ rw e (
        Leaves-continue_suffix (b ∷ t) (fn a (b ∷ t)) _ (forward a (b ∷ t))
          λ a' s k. list_loop-Leaves fuel false a' s (omega (arith, Suffix-length s (b ∷ t) k)))
  ]
  list_loop-Leaves (suc fuel) false a (b ∷ t) h = elim (Bool-cases (b == b')')) [
    | inl e ↦ rw e (b ∷ [], refl)
    | inr e ↦ elim (read_sp-cases b t) [
      | inr r ↦ rw (e, r) ((b ∷ [], refl), tt)
      | inl r ↦
          rw (e, r)
            (Leaves-trans t (b ∷ t) _ (b ∷ [], refl)
              (Leaves-continue_suffix t (fn a t) _ (forward a t)
                λ a' s k. list_loop-Leaves fuel false a' s (omega (arith, Suffix-length s t k))))
    ]
  ]

  read_list-Leaves : (a : A) (t : Bytes) → Leaves t (read_list fn a t)
  unfolding read_list
  read_list-Leaves a t =
      Leaves-continue t _ _ (expect_byte-Leaves b'(' t)
        λ x s. list_loop-Leaves (length s + 2) true a s (omega arith)

-- `ReadList` ends, if the function that it calls reads forward and ends.
read_list_ends {ℓ} :
    {A : Type ℓ} (fn : A → Reader A) (a : A) (t : Bytes)
    → ((a' : A) (s : Bytes) → Leaves s (fn a' s))
    → Leaves t (read_list fn a t)
read_list_ends fn a t forward = read_list-Leaves fn forward a t

read_flag-Leaves : (flags : List Bytes) (t : Bytes) → Leaves t (read_flag flags t)
unfolding read_flag
read_flag-Leaves flags t = Leaves-continue t _ _ (read_atom-Leaves t) λ flag s. Suffix-refl s

-- `ReadAtom`, `ReadString`, `ReadAString`, `ReadNString`, `ReadQuotedString`, `ReadLiteralInfo`,
-- `ReadNumber`, `ReadNumber64`, `ReadFlags`, `ExpectByte` and `ReadCRLF` end on every stream and leave
-- a suffix of it, also when they fail, and so does `ReadList` with any function that reads forward
-- so: they do not change what they have not read. They fail with an error of the source, or by the
-- panic of `make`, which needs a literal longer than the longest slice somewhere in the stream.
pub decoder_forward {ℓ} :
    {A : Type ℓ} (fn : A → Reader A) (a : A) (want : ℕ) (t : Bytes)
    → ((a' : A) (s : Bytes) → Leaves s (fn a' s))
    → Leaves t (read_atom t)
      × Leaves t (read_string t)
      × Leaves t (read_astring t)
      × Leaves t (read_nstring t)
      × Leaves t (read_quoted_string t)
      × Leaves t (read_literal_info t)
      × Leaves t (read_number t)
      × Leaves t (read_number64 t)
      × Leaves t (read_flags t)
      × Leaves t (expect_byte want t)
      × Leaves t (read_crlf t)
      × Leaves t (read_list fn a t)
unfolding read_flags read_astring
decoder_forward fn a want t forward = (
  read_atom-Leaves t,
  read_string-Leaves t,
  read_string-Leaves t,
  read_nstring-Leaves t,
  read_quoted_string-Leaves t,
  read_literal_info-Leaves t,
  (read_number-Leaves t).0,
  (read_number-Leaves t).1,
  read_list_ends read_flag [] t read_flag-Leaves,
  expect_byte-Leaves want t,
  read_crlf-Leaves t,
  read_list_ends fn a t forward,
)
