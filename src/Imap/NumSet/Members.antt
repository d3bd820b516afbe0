-- ===== src/Imap/NumSet/Members.antt =====
-- Which numbers a set contains.
use imap_go.Imap.NumSet.{NumRange, NumSet, range_contains, some_contains, contains, add_num}
use imap_go.Prelude.{
  ℕ, ◌≤◌, Bool, true, false, List, [], ◌∷◌, ◌++◌, ◌≡◌, ◌≢◌, ◌↔◌, refl, arith, ◌⊎◌, All, ◌==◌, ◌||◌,
  if◌then◌else◌, ◌∙◌, any, either_iff,
}

-- The numbers of a range: those between the ends, in either order, or all from the start on where
-- the end is `*`.
abbrev pub InsideRange : NumRange → ℕ → Type 0
InsideRange r n =
    ((r.stop ≡ 0) × (r.start ≤ n))
    ⊎ ((r.stop ≢ 0) × (r.start ≤ n) × (n ≤ r.stop))
    ⊎ ((r.stop ≢ 0) × (r.stop ≤ n) × (n ≤ r.start))

range_contains_iff : (r : NumRange) (n : ℕ) → (range_contains r n ≡ true) ↔ InsideRange r n
unfolding range_contains
range_contains_iff r n = ground arith

abbrev pub SomeRange : (NumRange → Type 0) → List NumRange → Type 0
SomeRange P [] = ⊥
SomeRange P (r ∷ rs) = P r ⊎ SomeRange P rs

some_contains_iff :
    (rs : List NumRange) (n : ℕ) → (some_contains rs n ≡ true) ↔ SomeRange (λ r. InsideRange r n) rs
unfolding some_contains
some_contains_iff [] n = (λ h. absurd (ground arith), λ h. absurd h)
some_contains_iff (r ∷ rs) n = either_iff _ _ (range_contains_iff r n) (some_contains_iff rs n)

-- `Contains` is true exactly of the numbers inside some range of the set.
pub contains_iff :
    (ss : NumSet) (n : ℕ) → (contains ss n ≡ true) ↔ SomeRange (λ r. InsideRange r n) ss.ranges
unfolding contains
contains_iff ss n = some_contains_iff ss.ranges n

some_contains-append :
    (rs qs : List NumRange) (n : ℕ)
    → some_contains (rs ++ qs) n ≡ some_contains rs n || some_contains qs n
unfolding some_contains
some_contains-append [] qs n = refl
some_contains-append (r ∷ rs) qs n = ground (arith, some_contains-append rs qs n)

range_contains_single :
    (k n : ℕ) → k ≢ 0 → range_contains (record { start = k; stop = k }) n ≡ (k == n)
unfolding range_contains
range_contains_single k n h = ground arith

some_single : (k n : ℕ) → k ≢ 0 → some_contains (record { start = k; stop = k } ∷ []) n ≡ (k == n)
unfolding some_contains
some_single k n h = rw (range_contains_single k n h) (if_self (k == n))
  where
    if_self : (b : Bool) → (if b then true else false) ≡ b
    if_self true = refl
    if_self false = refl

-- After `AddNum` of numbers that are not 0 a set contains what it did and those numbers, and no
-- others.
contains-add_num :
    (nums : List ℕ) (ss : NumSet) (n : ℕ)
    → All (λ k. k ≢ 0) nums
    → contains (add_num nums ss) n ≡ contains ss n || any (λ k. k == n) nums
unfolding contains add_num
contains-add_num [] ss n h = or_false (some_contains ss.ranges n)
  where
    or_false : (b : Bool) → b ≡ b || false
    or_false true = refl
    or_false false = refl
contains-add_num (k ∷ nums) ss n (hk, h) =
    contains-add_num nums (record { ranges = ss.ranges ++ record { start = k; stop = k } ∷ [] }) n h
    ∙ rw (some_contains-append, some_single k n hk)
        (or_assoc (some_contains ss.ranges n) (k == n) _)
  where
    or_assoc : (a b c : Bool) → a || b || c ≡ a || (b || c)
    or_assoc true b c = refl
    or_assoc false b c = refl
