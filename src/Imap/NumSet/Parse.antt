-- ===== src/Imap/NumSet/Parse.antt =====
-- `parseNumSet` and `parseSeqNum` of numset.go, and what they accept.
use mathlib.Core.List.{concat-ne-nil, cons-ne-nil}
use imap_go.Imap.NumSet.{NumRange, NumSet}
use imap_go.Prelude.Result.{Result, ok, err, ◌>>=◌, bind-eq-ok}
use imap_go.Prelude.Split.{split_loop, split, index_byte, trim_space}
use imap_go.Prelude.{
  ℕ, suc, ◌≤◌, List, [], ◌∷◌, ◌++◌, Option, none, some, ◌≡◌, ◌≢◌, refl, arith, inl, inr, Bool-cases,
  All, All-append, ◌==◌, if◌then◌else◌, Bytes, equal, codes, take, drop,
}
use imap_go.Wire.Decimal.{
  ParsedUint, parsed, bad_syntax, out_of_range, parse_uint, parse_uint_sound,
}
use imap_go.Wire.Decoder.{max_uint32}

pub data SetError : Type 0 where
  empty_set empty_range : SetError
  bad_number number_too_large zero_number : SetError

-- `ParseUint` and the test for zero.
unfoldable pub non_zero : ParsedUint → Result SetError ℕ
non_zero (parsed n) = if n == 0 then err zero_number else ok n
non_zero bad_syntax = err bad_number
non_zero out_of_range = err number_too_large

unfoldable pub parse_seq_num : Bytes → Result SetError ℕ
unfolding non_zero
parse_seq_num s = if equal s (codes "*") then ok 0 else non_zero (parse_uint max_uint32 s)

-- The branch on the place of the colon.
unfoldable pub parse_range_at : Bytes → Option ℕ → Result SetError NumRange
parse_range_at part none = do num ← parse_seq_num part; ok (record { start = num; stop = num })
parse_range_at part (some colon) = do
  start ← parse_seq_num (take colon part)
  stop ← parse_seq_num (drop (suc colon) part)
  ok (record { start = start; stop = stop })

unfoldable pub parse_range : Bytes → Result SetError NumRange
unfolding parse_range_at
parse_range [] = err empty_range
parse_range (c ∷ part) = parse_range_at (c ∷ part) (index_byte b':' (c ∷ part))

unfoldable pub parse_parts : List NumRange → List Bytes → Result SetError (List NumRange)
parse_parts ranges [] = ok ranges
parse_parts ranges (part ∷ parts) = do
  r ← parse_range (trim_space part)
  parse_parts (ranges ++ r ∷ []) parts

unfoldable pub parse_num_set : Bytes → Result SetError (List NumRange)
unfolding parse_parts
parse_num_set [] = err empty_set
parse_num_set (c ∷ s) = parse_parts [] (split b',' (c ∷ s))

-- `ParseSeqSet` and `ParseUIDSet`.
unfoldable pub parse_set : Bytes → Result SetError NumSet
unfolding parse_num_set
parse_set s = do ranges ← parse_num_set s; ok (record { ranges = ranges })

-- Both ends fit 32 bits.
pub record InRange (r : NumRange) : Type 0 where
  pub start_le : r.start ≤ max_uint32
  pub stop_le : r.stop ≤ max_uint32

non_zero-le :
    (p : ParsedUint) (s : Bytes) (n : ℕ)
    → parse_uint max_uint32 s ≡ p
    → non_zero p ≡ ok n
    → n ≤ max_uint32
unfolding non_zero
non_zero-le (parsed m) s n e k = ground (arith, (parse_uint_sound max_uint32 s {r = m} e).0)
non_zero-le bad_syntax s n e k = cc
non_zero-le out_of_range s n e k = cc

zero_le : (n : ℕ) (r : Result SetError ℕ) → r ≡ ok 0 → r ≡ ok n → n ≤ max_uint32
zero_le n r e h = ground arith

parse_seq_num-le : (s : Bytes) (n : ℕ) → parse_seq_num s ≡ ok n → n ≤ max_uint32
unfolding parse_seq_num
parse_seq_num-le s n h = elim (Bool-cases (equal s (codes "*"))) [
  | inl e ↦ zero_le n _ (rw e) h
  | inr e ↦ non_zero-le (parse_uint max_uint32 s) s n refl (rw e at h)
]

parse_range_at-InRange :
    (part : Bytes) (colon : Option ℕ) (r : NumRange) → parse_range_at part colon ≡ ok r → InRange r
unfolding parse_range_at
parse_range_at-InRange part none r h =
    let (n, e, k) = bind-eq-ok (parse_seq_num part) _ h in ground (arith, parse_seq_num-le part n e)
parse_range_at-InRange part (some colon) r h =
    let (a, e, k) = bind-eq-ok (parse_seq_num (take colon part)) _ h in
    let (b, f, l) = bind-eq-ok (parse_seq_num (drop (suc colon) part)) _ k in
    ground (arith, parse_seq_num-le _ a e, parse_seq_num-le _ b f)

parse_range-InRange : (part : Bytes) (r : NumRange) → parse_range part ≡ ok r → InRange r
unfolding parse_range
parse_range-InRange [] r h = absurd (ground arith)
parse_range-InRange (c ∷ part) r h = parse_range_at-InRange (c ∷ part) _ r h

parse_parts-InRange :
    (parts : List Bytes) (done rs : List NumRange)
    → All InRange done
    → parse_parts done parts ≡ ok rs
    → All InRange rs
unfolding parse_parts
parse_parts-InRange [] done rs hd h = ground arith
parse_parts-InRange (part ∷ parts) done rs hd h =
    let (r, e, k) = bind-eq-ok (parse_range (trim_space part)) _ h in
    parse_parts-InRange parts (done ++ r ∷ []) rs
      (All-append InRange done (r ∷ []) hd (parse_range-InRange _ r e, tt)) k

parse_parts-ne-nil :
    (parts : List Bytes) (done rs : List NumRange)
    → done ≢ []
    → parse_parts done parts ≡ ok rs
    → rs ≢ []
unfolding parse_parts
parse_parts-ne-nil [] done rs hd h = ground arith
parse_parts-ne-nil (part ∷ parts) done rs hd h =
    let (r, e, k) = bind-eq-ok (parse_range (trim_space part)) _ h in
    parse_parts-ne-nil parts (done ++ r ∷ []) rs (concat-ne-nil r done) k

parse_parts_some :
    (part : Bytes) (parts : List Bytes) (rs : List NumRange)
    → parse_parts [] (part ∷ parts) ≡ ok rs
    → rs ≢ []
unfolding parse_parts
parse_parts_some part parts rs h =
    let (r, e, k) = bind-eq-ok (parse_range (trim_space part)) _ h in
    parse_parts-ne-nil parts (r ∷ []) rs (cons-ne-nil r []) k

split_some :
    (s cur : Bytes) → (part : Bytes) × (parts : List Bytes) × (split_loop b',' cur s ≡ part ∷ parts)
unfolding split_loop
split_some [] cur = (cur, [], refl)
split_some (c ∷ s) cur = elim (Bool-cases (c == b',')) [
  | inl e ↦ (cur, split_loop b',' [] s, rw e)
  | inr e ↦ let (part, parts, h) = split_some s (cur ++ c ∷ []) in (part, parts, rw e h)
]

-- A text that is accepted stands for at least one range, and each end fits 32 bits.
pub parse_num_set-InRange :
    (s : Bytes) (rs : List NumRange)
    → parse_num_set s ≡ ok rs
    → (s ≢ []) × (rs ≢ []) × All InRange rs
unfolding parse_num_set split
parse_num_set-InRange [] rs h = absurd (ground arith)
parse_num_set-InRange (c ∷ s) rs h =
    let (part, parts, e) = split_some (c ∷ s) [] in
    (
      cons-ne-nil c s,
      parse_parts_some part parts rs (rw e at h),
      parse_parts-InRange (split_loop b',' [] (c ∷ s)) [] rs tt h,
    )
