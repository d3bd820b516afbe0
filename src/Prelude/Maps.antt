-- ===== src/Prelude/Maps.antt =====
-- Maps: memory by pointers, which are numbers, and Go's maps with texts for keys, as lists of entries.
use Prim.Native.Nat.{ℕ}
use mathlib.Core.Bool.{false}
use mathlib.Core.List.{List, [], ◌∷◌}
use mathlib.Core.Option.{Option, none, some}
use mathlib.Core.Path.{◌≡◌, refl, sym, ap, ◌∙◌, subst}
use mathlib.Core.Logic.{inl, inr}
use imap_go.Prelude.Lists.{All}
use imap_go.Prelude.Tests.{◌==◌, if◌then◌else◌, Bool-cases}
use imap_go.Prelude.Texts.{Bytes, equal, equal_iff, equal_differs}

-- A write through a pointer.
abbrev pub set_at : {A : Type 0} → (ℕ → A) → ℕ → A → ℕ → A
set_at f p x q = if q == p then x else f q

module _ {ℓ} {A : Type ℓ} where
  unfoldable pub lookup : Bytes → List (Bytes × A) → Option A
  lookup key [] = none
  lookup key ((k, x) ∷ es) = if equal k key then some x else lookup key es

  -- `m[key] = x` and `delete(m, key)`.
  unfoldable pub store : Bytes → A → List (Bytes × A) → List (Bytes × A)
  store key x [] = (key, x) ∷ []
  store key x ((k, y) ∷ es) = if equal k key then (key, x) ∷ es else (k, y) ∷ store key x es

  unfoldable pub erase : Bytes → List (Bytes × A) → List (Bytes × A)
  erase key [] = []
  erase key ((k, y) ∷ es) = if equal k key then erase key es else (k, y) ∷ erase key es

  pub lookup-store :
      (key q : Bytes) (x : A) (es : List (Bytes × A))
      → lookup q (store key x es) ≡ (if equal key q then some x else lookup q es)
  unfolding lookup store
  lookup-store key q x [] = refl
  lookup-store key q x ((k, y) ∷ es) = elim (Bool-cases (equal k key)) [
    | inl e ↦ rw e (elim (Bool-cases (equal key q)) [
      | inl s ↦ rw s refl
      | inr s ↦ rw s (
          ap (λ b. if b then some y else lookup q es)
            (sym (ap (λ t. equal t q) ((equal_iff k key).0 e) ∙ s)))
    ])
    | inr e ↦ rw e (elim (Bool-cases (equal k q)) [
      | inl s ↦ rw s (rw (equal_differs k key q e s) refl)
      | inr s ↦ rw s (lookup-store key q x es)
    ])
  ]

  pub lookup-erase :
      (key q : Bytes) (es : List (Bytes × A))
      → lookup q (erase key es) ≡ (if equal key q then none else lookup q es)
  unfolding lookup erase
  lookup-erase key q [] = elim (Bool-cases (equal key q)) [ inl s ↦ rw s refl | inr s ↦ rw s refl ]
  lookup-erase key q ((k, y) ∷ es) = elim (Bool-cases (equal k key)) [
    | inl e ↦ rw e (
        lookup-erase key q es ∙ elim (Bool-cases (equal key q)) [
          | inl s ↦ rw s refl
          | inr s ↦ rw s (rw (ap (λ t. equal t q) ((equal_iff k key).0 e) ∙ s) refl)
        ])
    | inr e ↦ rw e (elim (Bool-cases (equal k q)) [
      | inl s ↦ rw s (rw (equal_differs k key q e s) refl)
      | inr s ↦ rw s (lookup-erase key q es)
    ])
  ]

module _ {ℓ κ} {A : Type ℓ} (P : Bytes × A → Type κ) where
  pub All-store :
      (key : Bytes) (x : A) (es : List (Bytes × A)) → P (key, x) → All P es → All P (store key x es)
  unfolding store
  All-store key x [] p h = (p, tt)
  All-store key x ((k, y) ∷ es) p (q, h) = elim (Bool-cases (equal k key)) [
    | inl e ↦ rw e (p, h)
    | inr e ↦ rw e (q, All-store key x es p h)
  ]

  -- What is left after `delete` has other keys.
  pub All-erase :
      (key : Bytes) (es : List (Bytes × A))
      → All P es
      → All (λ e. P e × (equal e.0 key ≡ false)) (erase key es)
  unfolding erase
  All-erase key [] h = tt
  All-erase key ((k, y) ∷ es) (q, h) = elim (Bool-cases (equal k key)) [
    | inl e ↦ rw e (All-erase key es h)
    | inr e ↦ rw e ((q, e), All-erase key es h)
  ]

  some_inj : (x y : A) → some x ≡ some y → x ≡ y
  some_inj x y h = cc

  pub All-lookup :
      (key : Bytes) (x : A) (es : List (Bytes × A)) → All P es → lookup key es ≡ some x → P (key, x)
  unfolding lookup
  All-lookup key x [] h e = cc
  All-lookup key x ((k, y) ∷ es) (q, h) e = elim (Bool-cases (equal k key)) [
    | inl s ↦
        subst (λ t. P (t, x)) ((equal_iff k key).0 s)
          (subst (λ z. P (k, z)) (some_inj y x (rw s at e)) q)
    | inr s ↦ All-lookup key x es h (rw s at e)
  ]
