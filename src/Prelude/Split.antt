-- ===== src/Prelude/Split.antt =====
-- The functions of `strings` that cut texts: `Split` at one byte, `IndexByte`, and `TrimSpace` of
-- ASCII space.
use Prim.Native.Nat.{ℕ, zero, suc}
use imap_go.Prelude.Lists.{All, length}
use imap_go.Prelude.Tests.{◌==◌, leb, if◌then◌else◌, ==_refl, ==_iff, Bool-cases}
use imap_go.Prelude.Texts.{Bytes}
use mathlib.Core.Bool.{Bool, false, ◌&&◌, ◌||◌}
use mathlib.Core.List.{List, [], ◌∷◌, ◌++◌, append-nil, append_assoc}
use mathlib.Core.Option
use mathlib.Core.Option.{Option, none, some}
use mathlib.Core.Logic.{inl, inr}
use mathlib.Core.Path.{◌≡◌, refl, ap, ◌∙◌}

unfoldable pub split_loop : ℕ → Bytes → Bytes → List Bytes
split_loop sep cur [] = cur ∷ []
split_loop sep cur (c ∷ s) =
    let next = split_loop sep [] s in
    let more = split_loop sep (cur ++ c ∷ []) s in if c == sep then cur ∷ next else more

unfoldable pub split : ℕ → Bytes → List Bytes
unfolding split_loop
split sep s = split_loop sep [] s

unfoldable pub index_byte : ℕ → Bytes → Option ℕ
index_byte c [] = none
index_byte c (x ∷ s) = if x == c then some 0 else Option.map suc (index_byte c s)

-- What stands before and behind the first `sep`.
unfoldable pub cut : ℕ → Bytes → Option (Bytes × Bytes)
cut sep [] = none
cut sep (c ∷ s) = if c == sep then some ([], s) else Option.map (λ p. (c ∷ p.0, p.1)) (cut sep s)

abbrev pub pieces : (Bytes → List Bytes) → Bytes → Option (Bytes × Bytes) → List Bytes
pieces f s none = s ∷ []
pieces f s (some (a, b)) = a ∷ f b

-- `SplitN` with one piece more than the number of cuts.
unfoldable pub split_n : ℕ → ℕ → Bytes → List Bytes
unfolding cut
split_n zero sep s = s ∷ []
split_n (suc n) sep s = pieces (split_n n sep) s (cut sep s)

unfoldable pub is_space : ℕ → Bool
is_space c = leb 9 c && leb c 13 || c == b' '

unfoldable pub trim_left : Bytes → Bytes
unfolding is_space
trim_left [] = []
trim_left (c ∷ s) = if is_space c then trim_left s else c ∷ s

abbrev unless_blank : ℕ → Bytes → Bytes
unless_blank c [] = if is_space c then [] else c ∷ []
unless_blank c (d ∷ s) = c ∷ d ∷ s

unfoldable pub trim_right : Bytes → Bytes
unfolding is_space
trim_right [] = []
trim_right (c ∷ s) = unless_blank c (trim_right s)

unfoldable pub trim_space : Bytes → Bytes
unfolding trim_left trim_right
trim_space s = trim_right (trim_left s)

abbrev pub Lacks : ℕ → Bytes → Type 0
Lacks b = All (λ c. (c == b) ≡ false)

pub split_loop-append :
    (sep : ℕ) (s rest cur : Bytes)
    → Lacks sep s
    → split_loop sep cur (s ++ rest) ≡ split_loop sep (cur ++ s) rest
unfolding split_loop
split_loop-append sep [] rest cur h = rw append-nil
split_loop-append sep (c ∷ s) rest cur (hc, h) =
    rw hc (split_loop-append sep s rest (cur ++ c ∷ []) h ∙ rw append_assoc)

pub split_loop-sep :
    (sep : ℕ) (s cur : Bytes) → split_loop sep cur (sep ∷ s) ≡ cur ∷ split_loop sep [] s
unfolding split_loop
split_loop-sep sep s cur = rw ==_refl

pub split-append :
    (sep : ℕ) (s rest : Bytes) → Lacks sep s → split sep (s ++ sep ∷ rest) ≡ s ∷ split sep rest
unfolding split
split-append sep s rest h = split_loop-append sep s (sep ∷ rest) [] h ∙ split_loop-sep sep rest s

pub index_byte-append :
    (c : ℕ) (s rest : Bytes) → Lacks c s → index_byte c (s ++ c ∷ rest) ≡ some (length s)
unfolding index_byte
index_byte-append c [] rest h = rw ==_refl
index_byte-append c (x ∷ s) rest (hx, h) = rw (hx, index_byte-append c s rest h) refl

pub index_byte-none : (c : ℕ) (s : Bytes) → Lacks c s → index_byte c s ≡ none
unfolding index_byte
index_byte-none c [] h = refl
index_byte-none c (x ∷ s) (hx, h) = rw (hx, index_byte-none c s h) refl

trim_right_none : (s : Bytes) → All (λ c. is_space c ≡ false) s → trim_right s ≡ s
unfolding trim_right
trim_right_none [] h = refl
trim_right_none (c ∷ []) h = rw h.0
trim_right_none (c ∷ d ∷ s) (hc, h) = rw (trim_right_none (d ∷ s) h, trim_right) refl

pub trim_space_none : (s : Bytes) → All (λ c. is_space c ≡ false) s → trim_space s ≡ s
unfolding trim_space
trim_space_none [] h = refl
trim_space_none (c ∷ s) (hc, h) = rw hc (trim_right_none (c ∷ s) (hc, h))

pub cut-append :
    (sep : ℕ) (s rest : Bytes) → Lacks sep s → cut sep (s ++ sep ∷ rest) ≡ some (s, rest)
unfolding cut
cut-append sep [] rest h = rw ==_refl
cut-append sep (c ∷ s) rest (hc, h) = rw (hc, cut-append sep s rest h) refl

pub cut-none : (sep : ℕ) (s : Bytes) → Lacks sep s → cut sep s ≡ none
unfolding cut
cut-none sep [] h = refl
cut-none sep (c ∷ s) (hc, h) = rw (hc, cut-none sep s h) refl

abbrev pub IsCut : ℕ → Bytes → Option (Bytes × Bytes) → Type 0
IsCut sep s none = Lacks sep s
IsCut sep s (some (a, b)) = (s ≡ a ++ sep ∷ b) × Lacks sep a

IsCut-cons :
    (sep c : ℕ) (s : Bytes) (o : Option (Bytes × Bytes))
    → (c == sep) ≡ false
    → IsCut sep s o
    → IsCut sep (c ∷ s) (Option.map (λ p. (c ∷ p.0, p.1)) o)
IsCut-cons sep c s none h i = (h, i)
IsCut-cons sep c s (some (a, b)) h (e, l) = (ap (◌∷◌ c) e, (h, l))

-- `cut` finds the first `sep`, if there is one.
pub cut-IsCut : (sep : ℕ) (s : Bytes) → IsCut sep s (cut sep s)
unfolding cut
cut-IsCut sep [] = tt
cut-IsCut sep (c ∷ s) = elim (Bool-cases (c == sep)) [
  | inl e ↦ rw e (ap (λ x. x ∷ s) ((==_iff c sep).0 e), tt)
  | inr e ↦ rw e (IsCut-cons sep c s (cut sep s) e (cut-IsCut sep s))
]
