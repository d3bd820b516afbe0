-- ===== src/Wire/Decimal.antt =====
-- The decimal numerals that the source prints and reads by `strconv`: `FormatUint`, `FormatInt` and
-- `Itoa` of a natural number, and `ParseUint` in base 10 with the largest value that is accepted.
use imap_go.Prelude.{
  ℕ, zero, suc, ◌+◌, ◌-◌, ◌*◌, ◌/◌, ◌%◌, ◌≤◌, ◌<◌, [], ◌∷◌, ◌||◌, ◌≡◌, ◌≢◌, refl, ◌∙◌, arith, ltb,
  ◌==◌, if◌then◌else◌, Bytes, All,
}

-- The digits of `n` in front of `out`; the fuel is more than the number of digits.
unfoldable pub emit_digits : ℕ → ℕ → Bytes → Bytes
emit_digits zero n out = out
emit_digits (suc fuel) n out =
    let rest = emit_digits fuel (n / 10) ((b'0' + n % 10) ∷ out) in
    if n / 10 == 0 then (b'0' + n % 10) ∷ out else rest

unfoldable pub format_uint : ℕ → Bytes
unfolding emit_digits
format_uint n = emit_digits (suc n) n []

-- `ErrSyntax` and `ErrRange`.
pub data ParsedUint : Type 0 where
  parsed : ℕ → ParsedUint
  bad_syntax out_of_range : ParsedUint

unfoldable pub scan_uint : ℕ → Bytes → ℕ → ParsedUint
scan_uint most [] n = parsed n
scan_uint most (c ∷ s) n =
    if ltb c b'0' || ltb b'9' c
    then bad_syntax
    else if ltb most (n * 10 + (c - b'0'))
    then out_of_range
    else scan_uint most s (n * 10 + (c - b'0'))

unfoldable pub parse_uint : ℕ → Bytes → ParsedUint
unfolding scan_uint
parse_uint most [] = bad_syntax
parse_uint most (c ∷ s) = scan_uint most (c ∷ s) 0

abbrev pub IsDigit : ℕ → Type 0
IsDigit c = (b'0' ≤ c) × (c ≤ b'9')

scan-emit :
    (most fuel n : ℕ) (out : Bytes)
    → n < fuel
    → n ≤ most
    → scan_uint most (emit_digits fuel n out) 0 ≡ scan_uint most out n
unfolding emit_digits scan_uint
scan-emit most zero n out h m = elim h [ ]
scan-emit most (suc fuel) n out h m =
    ground (arith, scan-emit most fuel (n / 10) ((b'0' + n % 10) ∷ out))

emit-ne-nil : (fuel n : ℕ) (out : Bytes) → out ≢ [] → emit_digits fuel n out ≢ []
unfolding emit_digits
emit-ne-nil zero n out h = h
emit-ne-nil (suc fuel) n out h = ground (arith, emit-ne-nil fuel (n / 10) ((b'0' + n % 10) ∷ out))

pub emit_digits-All :
    (fuel n : ℕ) (out : Bytes) → All IsDigit out → All IsDigit (emit_digits fuel n out)
unfolding emit_digits
emit_digits-All zero n out h = h
emit_digits-All (suc fuel) n out h =
    ground (arith, emit_digits-All fuel (n / 10) ((b'0' + n % 10) ∷ out))

-- A printed number is digits only.
pub format_uint-All : (n : ℕ) → All IsDigit (format_uint n)
unfolding format_uint
format_uint-All n = emit_digits-All (suc n) n [] tt

pub format_uint-ne-nil : (n : ℕ) → format_uint n ≢ []
unfolding format_uint
format_uint-ne-nil n = ground (arith, emit-ne-nil n (n / 10) ((b'0' + n % 10) ∷ []))

parse-scan : (most : ℕ) (s : Bytes) → s ≢ [] → parse_uint most s ≡ scan_uint most s 0
unfolding parse_uint
parse-scan most [] h = absurd (h refl)
parse-scan most (c ∷ s) h = refl

-- A number in range is read back from its print.
pub parse_uint-format_uint : (most n : ℕ) → n ≤ most → parse_uint most (format_uint n) ≡ parsed n
unfolding format_uint
parse_uint-format_uint most n h =
    parse-scan most _ (format_uint-ne-nil n)
    ∙ scan-emit most (suc n) n [] (omega arith) h
    ∙ unfold scan_uint in refl

scan_bound :
    (most : ℕ) (s : Bytes) (n : ℕ) {r : ℕ}
    → n ≤ most
    → scan_uint most s n ≡ parsed r
    → (r ≤ most) × All IsDigit s
unfolding scan_uint
scan_bound most [] n h e = ground arith
scan_bound most (c ∷ s) n {r} h e = ground (arith, scan_bound most s (n * 10 + (c - b'0')) {r = r})

-- What is accepted is digits, and in range.
pub parse_uint_sound :
    (most : ℕ) (s : Bytes) {r : ℕ}
    → parse_uint most s ≡ parsed r
    → (r ≤ most) × All IsDigit s × (s ≢ [])
unfolding parse_uint
parse_uint_sound most [] e = absurd (ground arith)
parse_uint_sound most (c ∷ s) {r} e =
    let (b, d) = scan_bound most (c ∷ s) 0 {r = r} (omega arith) e in (b, d, ground arith)
