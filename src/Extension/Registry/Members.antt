-- ===== src/Extension/Registry/Members.antt =====
-- Lists of names without repetition, and the dependencies that a sort has still to come to.
use mathlib.Core.Bool.{false≢true}
use imap_go.Extension.Registry.{drop_name}
use imap_go.Prelude.{
  Bool-cases, inl, inr, ℕ, suc, ◌≤◌, Bool, true, false, ◌||◌, List, [], ◌∷◌, ◌++◌, ◌≡◌, refl, sym,
  ap, ◌∙◌, arith, Bytes, equal, equal_iff, equal_refl, length, if◌then◌else◌,
}

abbrev pub mem : Bytes → List Bytes → Bool
mem k [] = false
mem k (x ∷ xs) = equal x k || mem k xs

abbrev pub NoDup : List Bytes → Type 0
NoDup [] = Unit
NoDup (x ∷ xs) = (mem x xs ≡ false) × NoDup xs

pub mem-append : (k : Bytes) (xs ys : List Bytes) → mem k (xs ++ ys) ≡ (mem k xs || mem k ys)
mem-append k [] ys = refl
mem-append k (x ∷ xs) ys =
    ap (◌||◌ (equal x k)) (mem-append k xs ys) ∙ or_assoc (equal x k) (mem k xs) (mem k ys)
  where
    or_assoc : (a b c : Bool) → (a || (b || c)) ≡ (a || b || c)
    or_assoc true b c = refl
    or_assoc false b c = refl

pub mem-cons : (k x : Bytes) (xs : List Bytes) → equal x k ≡ false → mem k (x ∷ xs) ≡ mem k xs
mem-cons k x xs h = rw h refl

pub mem_cons_differs :
    (k x : Bytes) (xs : List Bytes)
    → mem k (x ∷ xs) ≡ false
    → (equal x k ≡ false) × (mem k xs ≡ false)
mem_cons_differs k x xs h = ground arith

pub NoDup-append :
    (xs ys : List Bytes)
    → NoDup xs
    → NoDup ys
    → ((k : Bytes) → mem k xs ≡ true → mem k ys ≡ false)
    → NoDup (xs ++ ys)
NoDup-append [] ys hx hy h = hy
NoDup-append (x ∷ xs) ys (n, hx) hy h = (
  mem-append x xs ys ∙ rw (n, h x (rw equal_refl refl)) refl,
  NoDup-append xs ys hx hy λ k m. h k (at_tail k m),
)
  where
    at_tail : (k : Bytes) → mem k xs ≡ true → mem k (x ∷ xs) ≡ true
    at_tail k m = ground arith

length-drop_name :
    (k : Bytes) (xs : List Bytes) → mem k xs ≡ true → suc (length (drop_name k xs)) ≡ length xs
unfolding drop_name
length-drop_name k [] h = absurd (ground arith)
length-drop_name k (x ∷ xs) h = elim (Bool-cases (equal x k)) [
  | inl e ↦ rw e refl
  | inr e ↦ rw e (ap suc (length-drop_name k xs (rw e at h)))
]

mem-drop_name :
    (k j : Bytes) (xs : List Bytes)
    → equal k j ≡ false
    → mem j xs ≡ true
    → mem j (drop_name k xs) ≡ true
unfolding drop_name
mem-drop_name k j [] d h = h
mem-drop_name k j (x ∷ xs) d h = elim (Bool-cases (equal x k)) [
  | inl e ↦ rw e (rw (ap (λ y. equal y j) ((equal_iff x k).0 e) ∙ d) at h)
  | inr e ↦ rw e (elim (Bool-cases (equal x j)) [
    | inl f ↦ rw f refl
    | inr f ↦ rw f (mem-drop_name k j xs d (rw f at h))
  ])
]

-- Names without repetition that all stand in a list are no more than the list has.
pub NoDup-length :
    (xs ys : List Bytes)
    → NoDup xs
    → ((k : Bytes) → mem k xs ≡ true → mem k ys ≡ true)
    → length xs ≤ length ys
NoDup-length [] ys d h = omega arith
NoDup-length (x ∷ xs) ys (n, d) h =
    let there : mem x ys ≡ true = h x (rw equal_refl refl) in
    let shorter = length-drop_name x ys there in
    let rest =
      NoDup-length xs (drop_name x ys) d
        (λ k m. mem-drop_name x k ys (apart k m) (h k (at_tail k m))) in
    omega (arith, shorter, rest)
  where
    apart : (k : Bytes) → mem k xs ≡ true → equal x k ≡ false
    apart k m = elim (Bool-cases (equal x k)) [
      | inl e ↦ absurd (false≢true (sym n ∙ ap (λ y. mem y xs) ((equal_iff x k).0 e) ∙ m))
      | inr e ↦ e
    ]

    at_tail : (k : Bytes) → mem k xs ≡ true → mem k (x ∷ xs) ≡ true
    at_tail k m = ground arith

-- How many entries of a list of dependencies are not sorted yet.
abbrev pub pending : List Bytes → List Bytes → ℕ
pending done [] = 0
pending done (d ∷ ds) = if mem d done then pending done ds else suc (pending done ds)

pub pending-smaller :
    (done done' ds : List Bytes)
    → ((k : Bytes) → mem k done ≡ true → mem k done' ≡ true)
    → pending done' ds ≤ pending done ds
pending-smaller done done' [] h = omega arith
pending-smaller done done' (d ∷ ds) h = elim (Bool-cases (mem d done)) [
  | inl e ↦ rw (e, h d e) (pending-smaller done done' ds h)
  | inr e ↦ rw e (elim (Bool-cases (mem d done')) [
    | inl f ↦ rw f (omega (arith, pending-smaller done done' ds h))
    | inr f ↦ rw f (omega (arith, pending-smaller done done' ds h))
  ])
]

-- No dependency is left exactly if all are sorted.
pub pending_zero :
    (done ds : List Bytes) → pending done ds ≡ 0 → (k : Bytes) → mem k ds ≡ true → mem k done ≡ true
pending_zero done [] h k m = absurd (ground arith)
pending_zero done (d ∷ ds) h k m = elim (Bool-cases (mem d done)) [
  | inr e ↦ absurd (suc-ne-zero (rw e at h))
  | inl e ↦ elim (Bool-cases (equal d k)) [
    | inl f ↦ ap (λ y. mem y done) (sym ((equal_iff d k).0 f)) ∙ e
    | inr f ↦ pending_zero done ds (rw e at h) k (rw f at m)
  ]
]
  where
    suc-ne-zero : {n : ℕ} → suc n ≡ 0 → ⊥
    suc-ne-zero e = omega arith
