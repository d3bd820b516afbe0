-- ===== src/Imap/NumSet/Atoms.antt =====
-- Which printed sets are atoms, and what is left of a set that is cut at its star.
use imap_go.Imap.NumSet.Parse.{
  bad_number, parse_seq_num, parse_range_at, parse_range, parse_parts, parse_num_set,
}
use imap_go.Imap.NumSet.{NumRange, format_range, join_ranges, format_num_set}
use imap_go.Prelude.Result.{err}
use imap_go.Prelude.Split.{
  split_loop, is_space, split_loop-append, index_byte-append, trim_space_none,
}
use imap_go.Prelude.{
  All-map, ℕ, ◌≤◌, true, false, List, [], ◌∷◌, ◌++◌, ◌≡◌, ◌≢◌, refl, arith, ◌⊎◌, inl, inr,
  Bool-cases, All, All-append, ◌==◌, equal, take-append, append-nil, ◌∙◌, ap, sym,
}
use imap_go.Wire.Atom.{IsAtom}
use imap_go.Wire.Chars.{is_atom_char}
use imap_go.Wire.Decimal.{format_uint, IsDigit, format_uint-All, format_uint-ne-nil, parse_uint}
use imap_go.Wire.Decoder.{max_uint32}
use imap_go.Imap.NumSet.RoundTrip.{
  IsRangeByte, parse_range-ne-nil, append-ne-nil, digits_lack, drop_one, parse_seq_num-format_uint,
  digits_range_bytes, parse_num_set-ne-nil, format_range-ne-nil,
}

parse_empty : parse_seq_num [] ≡ err bad_number
unfolding parse_seq_num equal parse_uint
parse_empty = refl

parse_range_open :
    (n : ℕ) → 1 ≤ n → n ≤ max_uint32 → parse_range (format_uint n ++ (b':' ∷ [])) ≡ err bad_number
unfolding parse_range_at
parse_range_open n h k =
    let s = format_uint n in
    rw
      (
        parse_range-ne-nil _ (append-ne-nil s (b':' ∷ []) (format_uint-ne-nil n)),
        index_byte-append b':' s [] (digits_lack n b':' (inr refl)),
        take-append s (b':' ∷ []),
        drop_one s [],
        parse_seq_num-format_uint n h k,
        parse_empty,
      )
      refl

open_range_bytes : (n : ℕ) → All IsRangeByte (format_uint n ++ (b':' ∷ []))
open_range_bytes n =
    All-append IsRangeByte (format_uint n) (b':' ∷ []) (digits_range_bytes n)
      (inl (omega arith, omega arith), tt)

-- A set of one range whose end is missing is refused.
pub parse_num_set_open :
    (n : ℕ) → 1 ≤ n → n ≤ max_uint32 → parse_num_set (format_uint n ++ (b':' ∷ [])) ≡ err bad_number
unfolding parse_parts is_space split_loop
parse_num_set_open n h k =
    let t = format_uint n ++ (b':' ∷ []) in
    let bytes = open_range_bytes n in
    let no_comma = All-map IsRangeByte (λ c. (c == b',') ≡ false) (λ c d. ground arith) t bytes in
    let no_space = All-map IsRangeByte (λ c. is_space c ≡ false) (λ c d. ground arith) t bytes in
    parse_num_set-ne-nil t (append-ne-nil (format_uint n) (b':' ∷ []) (format_uint-ne-nil n))
    ∙ ap (parse_parts [])
        (ap (split_loop b',' []) (sym (append-nil t)) ∙ split_loop-append b',' t [] [] no_comma)
    ∙ rw (trim_space_none t no_space, parse_range_open n h k) refl

-- The bytes of a set without a star.
abbrev IsNumberByte : ℕ → Type 0
IsNumberByte c = (b'0' ≤ c) × (c ≤ b':') ⊎ (c ≡ b',')

format_range-IsNumberByte : (r : NumRange) → r.stop ≢ 0 → All IsNumberByte (format_range r)
unfolding format_range
format_range-IsNumberByte r h = elim (Bool-cases (r.start == r.stop)) [
  | inl e ↦ rw e (digits r.start)
  | inr e ↦
      rw (e, not_zero r.stop h)
        (All-append IsNumberByte (format_uint r.start) (b':' ∷ format_uint r.stop) (digits r.start)
          (inl (omega arith, omega arith), digits r.stop))
]
  where
    digits : (n : ℕ) → All IsNumberByte (format_uint n)
    digits n =
        All-map IsDigit IsNumberByte (λ c d. inl (d.0, omega arith)) (format_uint n)
          (format_uint-All n)

    not_zero : (n : ℕ) → n ≢ 0 → (n == 0) ≡ false
    not_zero n h = ground arith

join_ranges-IsNumberByte :
    (rs : List NumRange) → All (λ r. r.stop ≢ 0) rs → All IsNumberByte (join_ranges rs)
unfolding join_ranges
join_ranges-IsNumberByte [] h = tt
join_ranges-IsNumberByte (r ∷ rs) (hr, h) = (
  inr refl,
  All-append IsNumberByte (format_range r) (join_ranges rs) (format_range-IsNumberByte r hr)
      (join_ranges-IsNumberByte rs h),
)

-- A set without a star is printed as an atom.
pub format_num_set-IsAtom :
    (rs : List NumRange)
    → rs ≢ []
    → All (λ r. r.stop ≢ 0) rs
    → (format_num_set rs ≢ []) × IsAtom (format_num_set rs)
unfolding format_num_set is_atom_char
format_num_set-IsAtom [] ne h = absurd (ne refl)
format_num_set-IsAtom (r ∷ rs) ne (hr, h) = (
  append-ne-nil (format_range r) (join_ranges rs) (format_range-ne-nil r),
  All-map IsNumberByte (λ c. is_atom_char c ≡ true) (λ c d. ground arith)
      (format_range r ++ join_ranges rs)
      (All-append IsNumberByte (format_range r) (join_ranges rs) (format_range-IsNumberByte r hr)
        (join_ranges-IsNumberByte rs h)),
)
