-- ===== src/Extension/Registry/Ready.antt =====
-- Which extensions the sort of `Resolve` may take next, and orders in which each comes after its
-- dependencies.
use mathlib.Core.Path.{subst}
use mathlib.Core.Bool.{false≢true}
use imap_go.Extension.Registry.{Extension}
use imap_go.Extension.Registry.Members.{mem, mem-append, NoDup, pending, pending-smaller}
use imap_go.Extension.Registry.Relax.{falls}
use imap_go.Extension.Registry.Woken.{keys, IsPart}
use imap_go.Prelude.{
  Bool-cases, inl, inr, ◌⊎◌, ℕ, zero, suc, Bool, true, false, ◌||◌, List, [], ◌∷◌, ◌++◌, append-nil,
  append_assoc, ◌≡◌, ◌≢◌, refl, sym, ap, ◌∙◌, arith, some, Bytes, All, equal, equal_iff, equal_refl,
  lookup,
}

-- What a `range` over the map `es` visits: its entries, each once.
abbrev pub IsRange : List (Bytes × Extension) → List (Bytes × Extension) → Type 0
IsRange es xs =
    IsPart es xs × ((k : Bytes) (x : Extension) → lookup k es ≡ some x → mem k (keys xs) ≡ true)

-- The extension is registered, and its dependencies are all in the list.
abbrev pub IsReady : List (Bytes × Extension) → List Bytes → Bytes → Type 0
IsReady es done k = (x : Extension) × (lookup k es ≡ some x) × (pending done x.dependencies ≡ 0)

-- Each name of the second list is ready when what stands before it is sorted.
abbrev pub IsOrdered : List (Bytes × Extension) → List Bytes → List Bytes → Type 0
IsOrdered es before [] = Unit
IsOrdered es before (k ∷ ks) = IsReady es before k × IsOrdered es (before ++ k ∷ []) ks

pub some_inj : (x y : Extension) → some x ≡ some y → x ≡ y
some_inj x y h = cc

pub or_true : (b : Bool) → (b || true) ≡ true
or_true true = refl
or_true false = refl

pub NoDup-middle : (xs ys : List Bytes) (k : Bytes) → NoDup (xs ++ k ∷ ys) → mem k xs ≡ false
NoDup-middle [] ys k h = refl
NoDup-middle (x ∷ xs) ys k (n, h) = elim (Bool-cases (equal x k)) [
  | inr e ↦ rw e (NoDup-middle xs ys k h)
  | inl e ↦
      absurd (false≢true (sym n ∙ ap (λ z. mem z (xs ++ k ∷ ys)) ((equal_iff x k).0 e) ∙ inside))
]
  where
    inside : mem k (xs ++ k ∷ ys) ≡ true
    inside = mem-append k xs (k ∷ ys) ∙ rw equal_refl (or_true (mem k xs))

pub falls-cases : (m n : ℕ) → n ≡ 0 → (m ≡ 0) ⊎ (falls m n ≡ true)
falls-cases zero n h = inl refl
falls-cases (suc m) n h = inr (ground arith)

pub falls-positive : (m n : ℕ) → falls m n ≡ true → (m ≢ 0) × (n ≡ 0)
falls-positive zero n h = absurd (false≢true h)
falls-positive (suc m) n h = ground arith

module _ (es : List (Bytes × Extension)) where
  pub IsReady-grows :
      (done done' : List Bytes) (k : Bytes)
      → ((j : Bytes) → mem j done ≡ true → mem j done' ≡ true)
      → IsReady es done k
      → IsReady es done' k
  IsReady-grows done done' k h (x, l, z) =
      (x, l, omega (arith, z, pending-smaller done done' x.dependencies h))

  pub in_front : (j : Bytes) (xs ys : List Bytes) → mem j xs ≡ true → mem j (xs ++ ys) ≡ true
  in_front j xs ys h = mem-append j xs ys ∙ rw h refl

  pub IsOrdered-snoc :
      (before ks : List Bytes) (k : Bytes)
      → IsOrdered es before ks
      → IsReady es (before ++ ks) k
      → IsOrdered es before (ks ++ k ∷ [])
  IsOrdered-snoc before [] k o r = (subst (λ p. IsReady es p k) (append-nil before) r, tt)
  IsOrdered-snoc before (j ∷ ks) k (h, o) r = (
    h,
    IsOrdered-snoc (before ++ j ∷ []) ks k o
        (subst (λ p. IsReady es p k) (sym (append_assoc before (j ∷ []) ks)) r),
  )

  pub IsOrdered-IsReady :
      (before ks : List Bytes) (k : Bytes)
      → IsOrdered es before ks
      → mem k ks ≡ true
      → IsReady es (before ++ ks) k
  IsOrdered-IsReady before [] k o m = absurd (false≢true m)
  IsOrdered-IsReady before (j ∷ ks) k (h, o) m = elim (Bool-cases (equal j k)) [
    | inl e ↦
        IsReady-grows before (before ++ j ∷ ks) k (λ i. in_front i before (j ∷ ks))
          (subst (IsReady es before) ((equal_iff j k).0 e) h)
    | inr e ↦
        subst (λ p. IsReady es p k) (append_assoc before (j ∷ []) ks)
          (IsOrdered-IsReady (before ++ j ∷ []) ks k o (rw e at m))
  ]

  pub All-mem :
      (P : Bytes → Type 0) (ks : List Bytes) (k : Bytes) → All P ks → mem k ks ≡ true → P k
  All-mem P [] k h m = absurd (false≢true m)
  All-mem P (j ∷ ks) k (p, h) m = elim (Bool-cases (equal j k)) [
    | inl e ↦ subst P ((equal_iff j k).0 e) p
    | inr e ↦ All-mem P ks k h (rw e at m)
  ]

  pub All-mem-All :
      (P : Bytes → Type 0) (ks : List Bytes) → ((k : Bytes) → mem k ks ≡ true → P k) → All P ks
  All-mem-All P [] h = tt
  All-mem-All P (j ∷ ks) h = (h j (rw equal_refl refl), All-mem-All P ks λ k m. h k (at_tail k m))
    where
      at_tail : (k : Bytes) → mem k ks ≡ true → mem k (j ∷ ks) ≡ true
      at_tail k m = ground arith
