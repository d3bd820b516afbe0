-- ===== src/Wire/Safe.antt =====
-- A text cannot break out of the line that it is written into.
use imap_go.Prelude.{
  Bool-cases, inl, inr, ℕ, false, [], ◌∷◌, ◌≡◌, ◌≢◌, arith, Bytes, All, ◌≤◌, All-append,
}
use imap_go.Wire.Chars.{needs_literal, is_quoted_special, needs_quoting}
use imap_go.Wire.Encoder.{string}
use imap_go.Wire.Quoted.{escaped, quoted_string-escaped}

-- No CR, LF or NUL, and seven bits.
abbrev pub IsLineByte : ℕ → Type 0
IsLineByte b = (b ≢ b'\r') × (b ≢ b'\n') × (b ≢ 0) × (b ≤ 0x7e)

needs_literal-All : (s : Bytes) → needs_literal s ≡ false → All IsLineByte s
unfolding needs_literal
needs_literal-All [] h = tt
needs_literal-All (b ∷ s) h = ground (arith, needs_literal-All s)

escaped-All : (s : Bytes) → All IsLineByte s → All IsLineByte (escaped s)
escaped-All [] h = tt
escaped-All (b ∷ s) (hb, h) = elim (Bool-cases (is_quoted_special b)) [
  | inl e ↦ rw e ((omega arith, omega arith, omega arith, omega arith), (hb, escaped-All s h))
  | inr e ↦ rw e (hb, escaped-All s h)
]

-- A text that `String` does not write as a literal is written with no CR, LF, NUL or 8-bit byte,
-- whatever the caller gave: it can end no line and start no response of its own.
pub string-IsLineByte : (s : Bytes) → needs_literal s ≡ false → All IsLineByte (string s [])
unfolding string
string-IsLineByte s h = elim (Bool-cases (needs_quoting s)) [
  | inl q ↦
      rw (h, q, quoted_string-escaped s [])
        (
          (omega arith, omega arith, omega arith, omega arith),
          All-append IsLineByte (escaped s) (b'"' ∷ []) (escaped-All s (needs_literal-All s h))
              ((omega arith, omega arith, omega arith, omega arith), tt),
        )
  | inr q ↦ rw (h, q) (needs_literal-All s h)
]
