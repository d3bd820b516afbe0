-- ===== src/Imap/NumSet/Values.antt =====
-- The numbers that `ParseNumSet` reads, against the values of the digits of the text.
use mathlib.Core.Path.{subst}
use imap_go.Imap.NumSet.Parse.{
  InRange, SetError, non_zero, parse_seq_num, parse_range_at, parse_range, parse_parts,
  parse_num_set, parse_num_set-InRange,
}
use imap_go.Imap.NumSet.{NumRange}
use imap_go.Prelude.Result.{Result, ok, err, bind-eq-ok}
use imap_go.Prelude.Split.{split, index_byte, trim_space}
use imap_go.Prelude.{
  ℕ, suc, ◌+◌, ◌*◌, ◌-◌, List, [], ◌∷◌, ◌++◌, Option, none, some, Option-cases, ◌≡◌, ◌≢◌, refl, sym,
  ap, ◌∙◌, arith, ◌⊎◌, inl, inr, Bool-cases, All, ◌==◌, ==_iff, append_assoc, append-nil, Bytes,
  equal, equal_iff, codes, take, drop,
}
use imap_go.Wire.Decimal.{
  ParsedUint, parsed, bad_syntax, out_of_range, IsDigit, scan_uint, parse_uint, parse_uint_sound,
}
use imap_go.Wire.Decoder.{max_uint32}

-- The number that digits stand for behind the number `n`, with no bound.
abbrev pub value : ℕ → Bytes → ℕ
value n [] = n
value n (c ∷ s) = value (n * 10 + (c - b'0')) s

-- A text for an end of a range: the star, or digits.
abbrev pub IsEnd : Bytes → ℕ → Type 0
IsEnd s n = ((s ≡ codes "*") × (n ≡ 0)) ⊎ ((s ≢ []) × All IsDigit s × (value 0 s ≡ n) × (n ≢ 0))

-- A text for a range: an end, or two with a colon between them.
abbrev pub IsRangeText : Bytes → NumRange → Type 0
IsRangeText t r =
    (IsEnd t r.start × (r.stop ≡ r.start))
    ⊎ ((a : Bytes) × (b : Bytes) × (t ≡ a ++ b':' ∷ b) × IsEnd a r.start × IsEnd b r.stop)

-- The ranges stand for the parts, one by one, without the space round them.
abbrev pub Stand : List Bytes → List NumRange → Type 0
Stand [] [] = Unit
Stand [] (r ∷ rs) = ⊥
Stand (p ∷ ps) [] = ⊥
Stand (p ∷ ps) (r ∷ rs) = IsRangeText (trim_space p) r × Stand ps rs

scan_uint-value :
    (most : ℕ) (s : Bytes) (n : ℕ) {r : ℕ} → scan_uint most s n ≡ parsed r → value n s ≡ r
unfolding scan_uint
scan_uint-value most [] n e = ground arith
scan_uint-value most (c ∷ s) n {r} e =
    ground (arith, scan_uint-value most s (n * 10 + (c - b'0')) {r = r})

parse_uint-value : (most : ℕ) (s : Bytes) {r : ℕ} → parse_uint most s ≡ parsed r → value 0 s ≡ r
unfolding parse_uint
parse_uint-value most [] e = absurd (ground arith)
parse_uint-value most (c ∷ s) {r} e = scan_uint-value most (c ∷ s) 0 {r = r} e

same_ok : {A : Type 0} (x y : A) → ◌≡◌ {A = Result SetError A} (ok x) (ok y) → x ≡ y
same_ok x y h = cc

ok-err : {x : ℕ} {y : SetError} → ◌≡◌ {A = Result SetError ℕ} (ok x) (err y) → ⊥
ok-err h = cc

non_zero-IsEnd :
    (p : ParsedUint) (s : Bytes) (n : ℕ)
    → parse_uint max_uint32 s ≡ p
    → non_zero p ≡ ok n
    → IsEnd s n
unfolding non_zero
non_zero-IsEnd (parsed m) s n e k = elim (Bool-cases (m == 0)) [
  | inl z ↦ absurd (ok-err (sym (rw z at k)))
  | inr z ↦
      let same : m ≡ n = same_ok m n (rw z at k) in
      let (b, d, ne) = parse_uint_sound max_uint32 s {r = m} e in
      inr (ne, d, parse_uint-value max_uint32 s {r = m} e ∙ same, ground (arith, same, z))
]
non_zero-IsEnd bad_syntax s n e k = cc
non_zero-IsEnd out_of_range s n e k = cc

zero_end : (n : ℕ) (r : Result SetError ℕ) → r ≡ ok 0 → r ≡ ok n → n ≡ 0
zero_end n r e h = ground arith

parse_seq_num-IsEnd : (s : Bytes) (n : ℕ) → parse_seq_num s ≡ ok n → IsEnd s n
unfolding parse_seq_num
parse_seq_num-IsEnd s n h = elim (Bool-cases (equal s (codes "*"))) [
  | inl e ↦ inl ((equal_iff s (codes "*")).0 e, zero_end n _ (rw e) h)
  | inr e ↦ non_zero-IsEnd (parse_uint max_uint32 s) s n refl (rw e at h)
]

none-some : (k : ℕ) → none ≡ some k → ⊥
none-some k h = cc

some-same : (j k : ℕ) → some j ≡ some k → j ≡ k
some-same j k h = cc

index_byte-parts :
    (c : ℕ) (s : Bytes) (k : ℕ) → index_byte c s ≡ some k → s ≡ take k s ++ c ∷ drop (suc k) s
unfolding index_byte
index_byte-parts c [] k h = absurd (none-some k h)
index_byte-parts c (x ∷ s) k h = elim (Bool-cases (x == c)) [
  | inl e ↦
      subst (λ j. x ∷ s ≡ take j (x ∷ s) ++ c ∷ drop (suc j) (x ∷ s)) (some-same 0 k (rw e at h))
        (ap (λ y. y ∷ s) ((==_iff x c).0 e))
  | inr e ↦ elim (Option-cases (index_byte c s)) [
    | inl n ↦ absurd (none-some k (rw (e, n) at h))
    | inr (j, f) ↦
        subst (λ i. x ∷ s ≡ take i (x ∷ s) ++ c ∷ drop (suc i) (x ∷ s))
          (some-same (suc j) k (rw (e, f) at h)) (ap (◌∷◌ x) (index_byte-parts c s j f))
  ]
]

parse_range_at-IsRangeText :
    (part : Bytes) (colon : Option ℕ) (r : NumRange)
    → index_byte b':' part ≡ colon
    → parse_range_at part colon ≡ ok r
    → IsRangeText part r
unfolding parse_range_at
parse_range_at-IsRangeText part none r i h =
    let (n, e, k) = bind-eq-ok (parse_seq_num part) _ h in
    subst (IsRangeText part) (same_ok _ r k) (inl (parse_seq_num-IsEnd part n e, refl))
parse_range_at-IsRangeText part (some colon) r i h =
    let (a, e, k) = bind-eq-ok (parse_seq_num (take colon part)) _ h in
    let (b, f, l) = bind-eq-ok (parse_seq_num (drop (suc colon) part)) _ k in
    subst (IsRangeText part) (same_ok _ r l) (
      inr (
        take colon part,
        drop (suc colon) part,
        index_byte-parts b':' part colon i,
        parse_seq_num-IsEnd (take colon part) a e,
        parse_seq_num-IsEnd (drop (suc colon) part) b f,
      ))

parse_range-IsRangeText :
    (part : Bytes) (r : NumRange) → parse_range part ≡ ok r → IsRangeText part r
unfolding parse_range
parse_range-IsRangeText [] r h = absurd (ground arith)
parse_range-IsRangeText (c ∷ part) r h = parse_range_at-IsRangeText (c ∷ part) _ r refl h

parse_parts-Stand :
    (parts : List Bytes) (done rs : List NumRange)
    → parse_parts done parts ≡ ok rs
    → (new : List NumRange) × (rs ≡ done ++ new) × Stand parts new
unfolding parse_parts
parse_parts-Stand [] done rs h = ([], sym (same_ok done rs h) ∙ sym (append-nil done), tt)
parse_parts-Stand (part ∷ parts) done rs h =
    let (r, e, k) = bind-eq-ok (parse_range (trim_space part)) _ h in
    let (new, f, st) = parse_parts-Stand parts (done ++ r ∷ []) rs k in
    (
      r ∷ new,
      f ∙ append_assoc done (r ∷ []) new,
      (parse_range-IsRangeText (trim_space part) r e, st),
    )

-- A text that is accepted is not empty, and its ranges stand for the parts between its commas, one by
-- one: each end is the star, for which 0 stands, or digits whose value it is, which is not 0 and fits
-- 32 bits, so nothing wrapped around.
pub parse_num_set_sound :
    (s : Bytes) (rs : List NumRange)
    → parse_num_set s ≡ ok rs
    → (s ≢ []) × (rs ≢ []) × All InRange rs × Stand (split b',' s) rs
unfolding parse_num_set
parse_num_set_sound [] rs h = absurd (ground arith)
parse_num_set_sound (c ∷ s) rs h =
    let (ne, some_range, small) = parse_num_set-InRange (c ∷ s) rs h in
    let (new, e, st) = parse_parts-Stand (split b',' (c ∷ s)) [] rs h in
    (ne, some_range, small, subst (Stand (split b',' (c ∷ s))) (sym e) st)
