-- ===== src/MemServer/Pattern/Matches.antt =====
-- What a pattern matches, as a relation, against the code.
use imap_go.MemServer.Pattern.{
  contains_byte, match_star, match_percent, is_empty, match_byte, match_pattern,
}
use mathlib.Core.Bool.{false≢true}
use mathlib.Core.Path.{subst}
use imap_go.Prelude.{
  ℕ, ◌==◌, ==_iff, ==_refl, Bool, true, false, not, ◌≡◌, refl, sym, ◌↔◌, inl, inr, arith,
  Bool-cases, [], ◌∷◌, Bytes, if◌then◌else◌,
}

-- The name is what the pattern stands for: `*` for any text, `%` for any text without the delimiter,
-- and every other byte for itself.
pub data Matches (delim : ℕ) : Bytes → Bytes → Type 0 where
  ends : Matches delim [] []
  byte :
      {c : ℕ} {pattern name : Bytes}
      → (c == b'*') ≡ false
      → (c == b'%') ≡ false
      → Matches delim pattern name
      → Matches delim (c ∷ pattern) (c ∷ name)
  star_done :
      {pattern name : Bytes} → Matches delim pattern name → Matches delim (b'*' ∷ pattern) name
  star_takes :
      {c : ℕ} {pattern name : Bytes}
      → Matches delim (b'*' ∷ pattern) name
      → Matches delim (b'*' ∷ pattern) (c ∷ name)
  percent_done :
      {pattern name : Bytes} → Matches delim pattern name → Matches delim (b'%' ∷ pattern) name
  percent_takes :
      {c : ℕ} {pattern name : Bytes}
      → (c == delim) ≡ false
      → Matches delim (b'%' ∷ pattern) name
      → Matches delim (b'%' ∷ pattern) (c ∷ name)

all_star : (delim : ℕ) (name : Bytes) → Matches delim (b'*' ∷ []) name
all_star delim [] = star_done ends
all_star delim (c ∷ name) = star_takes (all_star delim name)

all_percent :
    (delim : ℕ) (name : Bytes) → contains_byte name delim ≡ false → Matches delim (b'%' ∷ []) name
all_percent delim [] h = percent_done ends
all_percent delim (c ∷ name) h =
    percent_takes (ground arith) (all_percent delim name (ground arith))

module _ (delim : ℕ) (pattern : Bytes) (rest : Bytes → Bool)
    (sound : (name : Bytes) → rest name ≡ true → Matches delim pattern name) where
  star_sound : (name : Bytes) → match_star rest name ≡ true → Matches delim (b'*' ∷ pattern) name
  unfolding match_star
  star_sound [] h = star_done (sound [] h)
  star_sound (c ∷ name) h = elim (Bool-cases (rest (c ∷ name))) [
    | inl e ↦ star_done (sound (c ∷ name) e)
    | inr e ↦ star_takes (star_sound name (rw e at h))
  ]

  percent_sound :
      (name : Bytes) → match_percent delim rest name ≡ true → Matches delim (b'%' ∷ pattern) name
  unfolding match_percent
  percent_sound [] h = percent_done (sound [] h)
  percent_sound (c ∷ name) h = elim (Bool-cases (rest (c ∷ name))) [
    | inl e ↦ percent_done (sound (c ∷ name) e)
    | inr e ↦ elim (Bool-cases (c == delim)) [
      | inl d ↦ absurd (false≢true (rw d at (rw e at h)))
      | inr d ↦ percent_takes d (percent_sound name (rw d at (rw e at h)))
    ]
  ]

  byte_sound :
      (p : ℕ) (name : Bytes)
      → (p == b'*') ≡ false
      → (p == b'%') ≡ false
      → match_byte p rest name ≡ true
      → Matches delim (p ∷ pattern) name
  unfolding match_byte
  byte_sound p [] s t h = absurd (false≢true h)
  byte_sound p (c ∷ name) s t h = elim (Bool-cases (p == c)) [
    | inl e ↦
        subst (λ x. Matches delim (p ∷ pattern) (x ∷ name)) ((==_iff p c).0 e)
          (byte s t (sound name (rw e at h)))
    | inr e ↦ absurd (false≢true (rw e at h))
  ]

module _ (delim : ℕ) (rest : Bytes → Bool) where
  star_complete : (name : Bytes) → rest name ≡ true → match_star rest name ≡ true
  unfolding match_star
  star_complete [] h = h
  star_complete (c ∷ name) h = rw h refl

  percent_complete : (name : Bytes) → rest name ≡ true → match_percent delim rest name ≡ true
  unfolding match_percent
  percent_complete [] h = h
  percent_complete (c ∷ name) h = rw h refl

  star_step :
      (c : ℕ) (name : Bytes) → match_star rest name ≡ true → match_star rest (c ∷ name) ≡ true
  unfolding match_star
  star_step c name h = elim (Bool-cases (rest (c ∷ name))) [ inl e ↦ rw e refl | inr e ↦ rw e h ]

  percent_step :
      (c : ℕ) (name : Bytes)
      → (c == delim) ≡ false
      → match_percent delim rest name ≡ true
      → match_percent delim rest (c ∷ name) ≡ true
  unfolding match_percent
  percent_step c name d h = elim (Bool-cases (rest (c ∷ name))) [
    | inl e ↦ rw e refl
    | inr e ↦ rw e (rw d h)
  ]

star_case :
    (delim : ℕ) (pattern : Bytes) (rest : Bytes → Bool)
    → ((name : Bytes) → rest name ≡ true → Matches delim pattern name)
    → (name : Bytes) → (if is_empty pattern then true else match_star rest name) ≡ true
    → Matches delim (b'*' ∷ pattern) name
star_case delim [] rest s name h = all_star delim name
star_case delim (p ∷ pattern) rest s name h = star_sound delim (p ∷ pattern) rest s name h

percent_case :
    (delim : ℕ) (pattern : Bytes) (rest : Bytes → Bool)
    → ((name : Bytes) → rest name ≡ true → Matches delim pattern name)
    → (name : Bytes)
    → (if is_empty pattern then not (contains_byte name delim) else match_percent delim rest name)
      ≡ true
    → Matches delim (b'%' ∷ pattern) name
percent_case delim [] rest s name h = all_percent delim name (ground (arith, h))
percent_case delim (p ∷ pattern) rest s name h = percent_sound delim (p ∷ pattern) rest s name h

sound :
    (delim : ℕ) (pattern name : Bytes)
    → match_pattern delim pattern name ≡ true
    → Matches delim pattern name
unfolding match_pattern
sound delim [] [] h = ends
sound delim [] (c ∷ name) h = absurd (false≢true h)
sound delim (p ∷ pattern) name h = elim (Bool-cases (p == b'*')) [
  | inl e ↦
      subst (λ x. Matches delim (x ∷ pattern) name) (sym ((==_iff p b'*').0 e))
        (star_case delim pattern _ (sound delim pattern) name (rw e at h))
  | inr e ↦ elim (Bool-cases (p == b'%')) [
    | inl f ↦
        subst (λ x. Matches delim (x ∷ pattern) name) (sym ((==_iff p b'%').0 f))
          (percent_case delim pattern _ (sound delim pattern) name (rw f at (rw e at h)))
    | inr f ↦ byte_sound delim pattern _ (sound delim pattern) p name e f (rw f at (rw e at h))
  ]
]

star_first :
    (delim : ℕ) (pattern : Bytes) (rest : Bytes → Bool) (name : Bytes)
    → rest name ≡ true
    → (if is_empty pattern then true else match_star rest name) ≡ true
star_first delim [] rest name h = refl
star_first delim (p ∷ pattern) rest name h = star_complete delim rest name h

star_again :
    (delim c : ℕ) (pattern : Bytes) (rest : Bytes → Bool) (name : Bytes)
    → (if is_empty pattern then true else match_star rest name) ≡ true
    → (if is_empty pattern then true else match_star rest (c ∷ name)) ≡ true
star_again delim c [] rest name h = refl
star_again delim c (p ∷ pattern) rest name h = star_step delim rest c name h

none_in_empty :
    (delim : ℕ) (name : Bytes) → is_empty name ≡ true → not (contains_byte name delim) ≡ true
none_in_empty delim [] h = refl
none_in_empty delim (c ∷ name) h = absurd (false≢true h)

percent_first :
    (delim : ℕ) (pattern name : Bytes)
    → match_pattern delim pattern name ≡ true
    → (if is_empty pattern
        then not (contains_byte name delim)
        else match_percent delim (match_pattern delim pattern) name)
      ≡ true
unfolding match_pattern
percent_first delim [] name h = none_in_empty delim name h
percent_first delim (p ∷ pattern) name h =
    percent_complete delim (match_pattern delim (p ∷ pattern)) name h

percent_again :
    (delim c : ℕ) (pattern : Bytes) (rest : Bytes → Bool) (name : Bytes)
    → (c == delim) ≡ false
    → (if is_empty pattern then not (contains_byte name delim) else match_percent delim rest name)
      ≡ true
    → (if is_empty pattern
        then not (contains_byte (c ∷ name) delim)
        else match_percent delim rest (c ∷ name))
      ≡ true
percent_again delim c [] rest name d h = rw d h
percent_again delim c (p ∷ pattern) rest name d h = percent_step delim rest c name d h

complete :
    (delim : ℕ) (pattern name : Bytes)
    → Matches delim pattern name
    → match_pattern delim pattern name ≡ true
unfolding match_pattern match_byte
complete delim pattern name ends = refl
complete delim pattern name (byte {c = c} {pattern = ps} {name = cs} s t m) =
    rw s (rw t (rw (==_refl c) (complete delim ps cs m)))
complete delim pattern name (star_done {pattern = ps} m) =
    star_first delim ps (match_pattern delim ps) name (complete delim ps name m)
complete delim pattern name (star_takes {c = c} {pattern = ps} {name = cs} m) =
    star_again delim c ps (match_pattern delim ps) cs (complete delim (b'*' ∷ ps) cs m)
complete delim pattern name (percent_done {pattern = ps} m) =
    percent_first delim ps name (complete delim ps name m)
complete delim pattern name (percent_takes {c = c} {pattern = ps} {name = cs} d m) =
    percent_again delim c ps (match_pattern delim ps) cs d (complete delim (b'%' ∷ ps) cs m)

-- `matchPattern` decides the relation: a name is accepted exactly if it is what the pattern stands
-- for, `*` for any text and `%` for any text without the delimiter.
pub match_pattern_iff :
    (delim : ℕ) (pattern name : Bytes)
    → (match_pattern delim pattern name ≡ true) ↔ Matches delim pattern name
match_pattern_iff delim pattern name = (sound delim pattern name, complete delim pattern name)
