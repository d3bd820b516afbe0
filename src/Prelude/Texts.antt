-- ===== src/Prelude/Texts.antt =====
-- Go's byte strings as lists of numbers, and the parts of `strings` that the source uses.
use Prim.Native.Char.{code}
use Prim.Native.Nat.{ℕ, ◌-◌, ◌+◌}
use Prim.Native.String.{String}
use mathlib.Core.Bool.{Bool, true, false, ◌&&◌, ◌||◌}
use mathlib.Core.List.{List, [], ◌∷◌, ◌++◌, map}
use mathlib.Core.Logic.{◌↔◌, ◌≢◌}
use mathlib.Core.Path.{◌≡◌, refl, sym, ap, ◌∙◌}
use native.Mathlib.Omega.{arith}
use imap_go.Prelude.Tests.{◌==◌, leb, if◌then◌else◌}

abbrev pub Bytes : Type 0
Bytes = List ℕ

-- The bytes of an ASCII literal.
abbrev pub codes : String → Bytes
codes String.[] = []
codes (String.◌∷◌ c s) = code c ∷ codes s

-- `==` on strings.
unfoldable pub equal : Bytes → Bytes → Bool
equal [] [] = true
equal (x ∷ xs) (y ∷ ys) = x == y && equal xs ys
equal _ _ = false

pub equal_iff : (s t : Bytes) → (equal s t ≡ true) ↔ (s ≡ t)
unfolding equal
equal_iff [] [] = ground arith
equal_iff [] (d ∷ t) = ground arith
equal_iff (c ∷ s) [] = ground arith
equal_iff (c ∷ s) (d ∷ t) = ground (arith, equal_iff s t)

pub equal_sym : (s t : Bytes) → equal s t ≡ equal t s
unfolding equal
equal_sym [] [] = refl
equal_sym [] (d ∷ t) = refl
equal_sym (c ∷ s) [] = refl
equal_sym (c ∷ s) (d ∷ t) = ground (arith, equal_sym s t)

-- A text equal to one of two different texts is not equal to the other.
pub equal_differs : (k s t : Bytes) → equal k s ≡ false → equal k t ≡ true → equal s t ≡ false
equal_differs k s t e f = ap (equal s) (sym ((equal_iff k t).0 f)) ∙ equal_sym s k ∙ e

pub equal_refl : (a : Bytes) → equal a a ≡ true
equal_refl a = (equal_iff a a).1 refl

pub equal-nil : (s : Bytes) → s ≢ [] → equal s [] ≡ false
unfolding equal
equal-nil [] h = absurd (h refl)
equal-nil (c ∷ s) h = refl

-- `strings.ToUpper` of one ASCII byte, and of an ASCII text.
unfoldable pub upper : ℕ → ℕ
upper c = if leb b'a' c && leb c b'z' then c - 32 else c

unfoldable pub to_upper : Bytes → Bytes
unfolding upper
to_upper = map upper

-- `strings.EqualFold` of ASCII texts.
unfoldable pub equal_fold : Bytes → Bytes → Bool
unfolding to_upper equal
equal_fold a b = equal (to_upper a) (to_upper b)

-- `strings.HasPrefix(s, prefix)`, the prefix first.
unfoldable pub has_prefix : Bytes → Bytes → Bool
has_prefix [] s = true
has_prefix (p ∷ ps) [] = false
has_prefix (p ∷ ps) (c ∷ s) = p == c && has_prefix ps s

pub has_prefix-append : (p s : Bytes) → has_prefix p (p ++ s) ≡ true
unfolding has_prefix
has_prefix-append [] s = refl
has_prefix-append (c ∷ p) s = ground (arith, has_prefix-append p s)

-- `strings.ToLower` of an ASCII text.
unfoldable pub lower : ℕ → ℕ
lower c = if leb b'A' c && leb c b'Z' then c + 32 else c

unfoldable pub to_lower : Bytes → Bytes
unfolding lower
to_lower = map lower

-- `strings.Contains`, and `bytes.Index`: what stands before and behind the first occurrence.
unfoldable pub contains_text : Bytes → Bytes → Bool
unfolding has_prefix
contains_text [] sub = has_prefix sub []
contains_text (c ∷ s) sub = has_prefix sub (c ∷ s) || contains_text s sub
