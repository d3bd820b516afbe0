-- ===== src/Imap/NumSet/RoundTrip.antt =====
-- Parsing a printed number set.
use mathlib.Core.List.{cons-ne-nil, map}
use imap_go.Imap.NumSet.Parse.{
  parse_seq_num, parse_range_at, parse_range, parse_parts, parse_num_set, zero_number,
}
use imap_go.Imap.NumSet.{NumRange, format_range, join_ranges, format_num_set}
use imap_go.Prelude.Result.{ok, err}
use imap_go.Prelude.Split.{
  split_loop, split, index_byte, is_space, Lacks, split_loop-append, split_loop-sep,
  index_byte-append, index_byte-none, trim_space_none,
}
use imap_go.Prelude.{
  All-map, ℕ, suc, ◌≤◌, true, false, List, [], ◌∷◌, ◌++◌, ◌≡◌, ◌≢◌, refl, arith, ◌⊎◌, inl, inr,
  Bool-cases, All, All-append, ◌==◌, if◌then◌else◌, Bytes, equal, codes, drop, length, take-append,
  append_assoc, append-nil, ◌∙◌, ap,
}
use imap_go.Wire.Decimal.{
  format_uint, IsDigit, format_uint-All, format_uint-ne-nil, parse_uint-format_uint, parse_uint,
}
use imap_go.Wire.Decoder.{max_uint32}

-- A range that has a printed form: it starts at a number, and may end at `*`.
pub record IsWritable (r : NumRange) : Type 0 where
  pub start_pos : 1 ≤ r.start
  pub start_le : r.start ≤ max_uint32
  pub stop_le : r.stop ≤ max_uint32

-- The bytes of a printed range.
abbrev pub IsRangeByte : ℕ → Type 0
IsRangeByte c = (b'0' ≤ c) × (c ≤ b':') ⊎ (c ≡ b'*')

pub digits_lack : (n b : ℕ) → (b ≡ b',') ⊎ (b ≡ b':') → Lacks b (format_uint n)
digits_lack n b h =
    All-map IsDigit (λ c. (c == b) ≡ false) (λ c d. ground arith) (format_uint n)
      (format_uint-All n)

pub digits_range_bytes : (n : ℕ) → All IsRangeByte (format_uint n)
digits_range_bytes n =
    All-map IsDigit IsRangeByte (λ c d. inl (d.0, omega arith)) (format_uint n) (format_uint-All n)

stop_text : ℕ → Bytes
stop_text n = if n == 0 then b'*' ∷ [] else format_uint n

stop_range_bytes : (n : ℕ) → All IsRangeByte (stop_text n)
unfolding stop_text
stop_range_bytes n = elim (Bool-cases (n == 0)) [
  | inl e ↦ rw e (inr refl, tt)
  | inr e ↦ rw e (digits_range_bytes n)
]

format_range-All : (r : NumRange) → All IsRangeByte (format_range r)
unfolding format_range
format_range-All r = elim (Bool-cases (r.start == r.stop)) [
  | inl e ↦ rw e (digits_range_bytes r.start)
  | inr e ↦ rw e (
      All-append IsRangeByte (format_uint r.start) _ (digits_range_bytes r.start)
        (inl (omega arith, omega arith), unfold stop_text in stop_range_bytes r.stop))
]

range_no_comma : (r : NumRange) → Lacks b',' (format_range r)
range_no_comma r =
    All-map IsRangeByte (λ c. (c == b',') ≡ false) (λ c d. ground arith) (format_range r)
      (format_range-All r)

range_no_space : (r : NumRange) → All (λ c. is_space c ≡ false) (format_range r)
unfolding is_space
range_no_space r =
    All-map IsRangeByte (λ c. is_space c ≡ false) (λ c d. ground arith) (format_range r)
      (format_range-All r)

equal_star : (s : Bytes) → All IsDigit s → equal s (codes "*") ≡ false
unfolding equal
equal_star [] h = refl
equal_star (c ∷ s) (hc, h) = ground arith

pub parse_seq_num-format_uint :
    (n : ℕ) → 1 ≤ n → n ≤ max_uint32 → parse_seq_num (format_uint n) ≡ ok n
unfolding parse_seq_num
parse_seq_num-format_uint n h k =
    rw (equal_star (format_uint n) (format_uint-All n), parse_uint-format_uint max_uint32 n k)
      (ground arith)

parse_star : (n : ℕ) → (n == 0) ≡ true → parse_seq_num (b'*' ∷ []) ≡ ok n
unfolding parse_seq_num equal
parse_star n e = ground arith

parse_seq_num-stop_text : (n : ℕ) → n ≤ max_uint32 → parse_seq_num (stop_text n) ≡ ok n
unfolding stop_text
parse_seq_num-stop_text n k = elim (Bool-cases (n == 0)) [
  | inl e ↦ rw e (parse_star n e)
  | inr e ↦ rw e (parse_seq_num-format_uint n (ground arith) k)
]

abbrev range : ℕ → ℕ → NumRange
range a b = record { start = a; stop = b }

pub parse_range-ne-nil : (t : Bytes) → t ≢ [] → parse_range t ≡ parse_range_at t (index_byte b':' t)
unfolding parse_range
parse_range-ne-nil [] h = absurd (h refl)
parse_range-ne-nil (c ∷ t) h = refl

pub append-ne-nil : (s t : Bytes) → s ≢ [] → s ++ t ≢ []
append-ne-nil [] t h = absurd (h refl)
append-ne-nil (c ∷ s) t h = cons-ne-nil c (s ++ t)

parse_single : (n : ℕ) → 1 ≤ n → n ≤ max_uint32 → parse_range (format_uint n) ≡ ok (range n n)
unfolding parse_range_at
parse_single n h k =
    rw
      (
        parse_range-ne-nil _ (format_uint-ne-nil n),
        index_byte-none b':' (format_uint n) (digits_lack n b':' (inr refl)),
        parse_seq_num-format_uint n h k,
      )
      refl

pub drop_one : (s t : Bytes) → drop (suc (length s)) (s ++ (b':' ∷ t)) ≡ t
drop_one [] t = refl
drop_one (c ∷ s) t = drop_one s t

parse_double :
    (a b : ℕ)
    → 1 ≤ a
    → a ≤ max_uint32
    → b ≤ max_uint32
    → parse_range (format_uint a ++ (b':' ∷ stop_text b)) ≡ ok (range a b)
unfolding parse_range_at
parse_double a b h k l =
    let s = format_uint a in
    rw
      (
        parse_range-ne-nil _ (append-ne-nil s (b':' ∷ stop_text b) (format_uint-ne-nil a)),
        index_byte-append b':' s (stop_text b) (digits_lack a b':' (inr refl)),
        take-append s (b':' ∷ stop_text b),
        drop_one s (stop_text b),
        parse_seq_num-format_uint a h k,
        parse_seq_num-stop_text b l,
      )
      refl

parse_range-format_range : (r : NumRange) → IsWritable r → parse_range (format_range r) ≡ ok r
unfolding format_range
parse_range-format_range r w = elim (Bool-cases (r.start == r.stop)) [
  | inl e ↦
      rw e (
        parse_single r.start w.start_pos w.start_le ∙ ap (λ n. ok (range r.start n)) (ground arith))
  | inr e ↦ rw e (unfold stop_text in parse_double r.start r.stop w.start_pos w.start_le w.stop_le)
]

abbrev texts : List NumRange → List Bytes
texts = map format_range

split-join_ranges :
    (rs : List NumRange) (cur : Bytes) → split_loop b',' cur (join_ranges rs) ≡ cur ∷ texts rs
unfolding join_ranges
split-join_ranges [] cur = unfold split_loop in refl
split-join_ranges (r ∷ rs) cur =
    split_loop-sep b',' _ cur
    ∙ ap (◌∷◌ cur) (
        split_loop-append b',' (format_range r) (join_ranges rs) [] (range_no_comma r)
        ∙ split-join_ranges rs (format_range r))

parse_parts-texts :
    (rs done : List NumRange) → All IsWritable rs → parse_parts done (texts rs) ≡ ok (done ++ rs)
unfolding parse_parts
parse_parts-texts [] done h = rw append-nil
parse_parts-texts (r ∷ rs) done (hr, h) =
    rw (trim_space_none (format_range r) (range_no_space r), parse_range-format_range r hr)
      (parse_parts-texts rs (done ++ r ∷ []) h ∙ rw append_assoc)

pub parse_num_set-ne-nil :
    (t : Bytes) → t ≢ [] → parse_num_set t ≡ parse_parts [] (split_loop b',' [] t)
unfolding parse_num_set split
parse_num_set-ne-nil [] h = absurd (h refl)
parse_num_set-ne-nil (c ∷ t) h = refl

pub format_range-ne-nil : (r : NumRange) → format_range r ≢ []
unfolding format_range
format_range-ne-nil r = elim (Bool-cases (r.start == r.stop)) [
  | inl e ↦ rw e (format_uint-ne-nil r.start)
  | inr e ↦ rw e (append-ne-nil (format_uint r.start) _ (format_uint-ne-nil r.start))
]

split-format_num_set :
    (r : NumRange) (rs : List NumRange)
    → parse_num_set (format_num_set (r ∷ rs)) ≡ parse_parts [] (texts (r ∷ rs))
unfolding format_num_set
split-format_num_set r rs =
    parse_num_set-ne-nil _ (append-ne-nil (format_range r) _ (format_range-ne-nil r))
    ∙ ap (parse_parts []) (
        split_loop-append b',' (format_range r) (join_ranges rs) [] (range_no_comma r)
        ∙ split-join_ranges rs (format_range r))

-- A set of at least one range, each from a number of 32 bits that is not 0 to such a number or `*`,
-- is read back from its printed form, range by range.
pub parse_num_set-format_num_set :
    (rs : List NumRange) → rs ≢ [] → All IsWritable rs → parse_num_set (format_num_set rs) ≡ ok rs
parse_num_set-format_num_set [] ne h = absurd (ne refl)
parse_num_set-format_num_set (r ∷ rs) ne h =
    split-format_num_set r rs ∙ parse_parts-texts (r ∷ rs) [] h

parse_zero : parse_seq_num (format_uint 0) ≡ err zero_number
unfolding parse_seq_num format_uint equal parse_uint
parse_zero = refl

parse_range-format_range_star :
    (r : NumRange) → r.start ≡ 0 → parse_range (format_range r) ≡ err zero_number
unfolding format_range parse_range_at
parse_range-format_range_star r z = elim (Bool-cases (r.start == r.stop)) [
  | inl e ↦
      rw
        (
          e,
          z,
          parse_range-ne-nil _ (format_uint-ne-nil 0),
          index_byte-none b':' (format_uint 0) (digits_lack 0 b':' (inr refl)),
          parse_zero,
        )
        refl
  | inr e ↦ rw e (unfold stop_text in zero_first r.start r.stop z)
]
  where
    zero_first :
        (a b : ℕ) → a ≡ 0 → parse_range (format_uint a ++ (b':' ∷ stop_text b)) ≡ err zero_number
    zero_first a b e =
        let s = format_uint a in
        rw
          (
            parse_range-ne-nil _ (append-ne-nil s (b':' ∷ stop_text b) (format_uint-ne-nil a)),
            index_byte-append b':' s (stop_text b) (digits_lack a b':' (inr refl)),
            take-append s (b':' ∷ stop_text b),
            e,
            parse_zero,
          )
          refl

parse_parts-texts_star :
    (before : List NumRange) (r : NumRange) (after done : List NumRange)
    → All IsWritable before
    → r.start ≡ 0
    → parse_parts done (texts (before ++ r ∷ after)) ≡ err zero_number
unfolding parse_parts
parse_parts-texts_star [] r after done h z =
    rw (trim_space_none (format_range r) (range_no_space r), parse_range-format_range_star r z) refl
parse_parts-texts_star (p ∷ before) r after done (hp, h) z =
    rw (trim_space_none (format_range p) (range_no_space p), parse_range-format_range p hp)
      (parse_parts-texts_star before r after (done ++ p ∷ []) h z)

-- A range that starts at `*`, as the parser makes of `*` and of `*:5`, is printed with a zero: a set
-- that holds one, behind ranges that are printed well, is not read back.
parse_num_set-format_num_set_star :
    (before : List NumRange) (r : NumRange) (after : List NumRange)
    → All IsWritable before
    → r.start ≡ 0
    → parse_num_set (format_num_set (before ++ r ∷ after)) ≡ err zero_number
parse_num_set-format_num_set_star [] r after h z =
    split-format_num_set r after ∙ parse_parts-texts_star [] r after [] h z
parse_num_set-format_num_set_star (p ∷ before) r after h z =
    split-format_num_set p (before ++ r ∷ after)
    ∙ parse_parts-texts_star (p ∷ before) r after [] h z
