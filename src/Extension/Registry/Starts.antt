-- ===== src/Extension/Registry/Starts.antt =====
-- The state that `Resolve` starts its loop from satisfies the invariant of the loop.
use mathlib.Core.Bool.{false≢true}
use imap_go.Extension.Registry.{
  Extension, Degrees, dependencies_of, set_degree, is_zero, fill_degrees, first_degrees,
  first_queue,
}
use imap_go.Extension.Registry.Members.{mem, NoDup, pending}
use imap_go.Extension.Registry.Ready.{IsRange, IsReady, All-mem-All}
use imap_go.Extension.Registry.Sorted.{IsSorting}
use imap_go.Extension.Registry.Woken.{keys, IsPart-lookup, and_right}
use imap_go.Prelude.{
  Bool-cases, inl, inr, ◌⊎◌, ℕ, suc, ℤ, pos, Bool, true, false, ◌&&◌, List, [], ◌∷◌, ◌≡◌, refl, sym,
  ap, ◌∙◌, arith, some, Bytes, equal, equal_iff, lookup, length, ◌==◌,
}

pending_all : (ds : List Bytes) → pending [] ds ≡ length ds
pending_all [] = refl
pending_all (d ∷ ds) = ap suc (pending_all ds)

and_left : (a b : Bool) → (a && b) ≡ true → a ≡ true
and_left a b h = ground arith

module _ (es : List (Bytes × Extension)) where
  abbrev count_at : Bytes → ℤ
  count_at k = pos (length (dependencies_of (lookup k es)))

  fill_degrees_lem :
      (xs : List (Bytes × Extension)) (degree : Degrees) (k : Bytes)
      → (mem k (keys xs) ≡ true) ⊎ (degree k ≡ count_at k)
      → fill_degrees es xs degree k ≡ count_at k
  unfolding fill_degrees
  fill_degrees_lem [] degree k (inl h) = absurd (false≢true h)
  fill_degrees_lem [] degree k (inr h) = h
  fill_degrees_lem ((o, x) ∷ xs) degree k h =
      fill_degrees_lem xs (set_degree o (count_at o) degree) k (elim (Bool-cases (equal o k)) [
        | inl e ↦ inr (rw e (ap count_at ((equal_iff o k).0 e)))
        | inr e ↦ elim h [ inl m ↦ inl (rw e at m) | inr d ↦ inr (rw e d) ]
      ])

  pub first_degrees_lem :
      (ranges : ℕ → List (Bytes × Extension)) (k : Bytes) (x : Extension)
      → IsRange es (ranges 3)
      → lookup k es ≡ some x
      → first_degrees ranges es k ≡ pos (pending [] x.dependencies)
  unfolding first_degrees
  first_degrees_lem ranges k x range l =
      fill_degrees_lem (ranges 3) _ k (inl (range.1 k x l))
      ∙ ap (λ o. pos (length (dependencies_of o))) l
      ∙ ap pos (sym (pending_all x.dependencies))

  mem-first_queue :
      (degree : Degrees) (xs : List (Bytes × Extension)) (k : Bytes)
      → mem k (first_queue degree xs) ≡ (mem k (keys xs) && is_zero (degree k))
  unfolding first_queue
  mem-first_queue degree [] k = refl
  mem-first_queue degree ((o, x) ∷ xs) k = elim (Bool-cases (equal o k)) [
    | inr e ↦ elim (Bool-cases (is_zero (degree o))) [
      | inl z ↦ rw (z, e) (mem-first_queue degree xs k)
      | inr z ↦ rw (z, e) (mem-first_queue degree xs k)
    ]
    | inl e ↦ elim (Bool-cases (is_zero (degree o))) [
      | inl z ↦ rw (z, e) (sym (ap (λ q. is_zero (degree q)) (sym ((equal_iff o k).0 e)) ∙ z))
      | inr z ↦
          let at_k = ap (λ q. is_zero (degree q)) (sym ((equal_iff o k).0 e)) ∙ z in
          rw (z, e) (mem-first_queue degree xs k ∙ rw at_k (and_false (mem k (keys xs))) ∙ sym at_k)
    ]
  ]
    where
      and_false : (b : Bool) → (b && false) ≡ false
      and_false true = refl
      and_false false = refl

  first_queue-NoDup :
      (degree : Degrees) (xs : List (Bytes × Extension))
      → NoDup (keys xs)
      → NoDup (first_queue degree xs)
  unfolding first_queue
  first_queue-NoDup degree [] h = tt
  first_queue-NoDup degree ((o, x) ∷ xs) (n, h) = elim (Bool-cases (is_zero (degree o))) [
    | inl z ↦ rw z (mem-first_queue degree xs o ∙ rw n refl, first_queue-NoDup degree xs h)
    | inr z ↦ rw z (first_queue-NoDup degree xs h)
  ]

  is_zero_pos : (z : ℤ) (n : ℕ) → z ≡ pos n → is_zero z ≡ true → n ≡ 0
  is_zero_pos z n e h = number n (ap is_zero (sym e) ∙ h)
    where
      number : (n : ℕ) → (n == 0) ≡ true → n ≡ 0
      number n h = ground arith

  pub first-IsSorting :
      (degree : Degrees) (xs : List (Bytes × Extension))
      → IsRange es xs
      → ((k : Bytes) (x : Extension)
          → lookup k es ≡ some x
          → degree k ≡ pos (pending [] x.dependencies))
      → IsSorting es degree (first_queue degree xs) []
  first-IsSorting degree xs range c = record {
    counts = c;
    listed = λ k x l z. mem-first_queue degree xs k ∙ rw (range.1 k x l, c k x l, z) refl;
    ready = All-mem-All es (IsReady es []) (first_queue degree xs) λ k m.
        let both = sym (mem-first_queue degree xs k) ∙ m in
        let (x, l) = IsPart-lookup es xs k range.0.0 (and_left (mem k (keys xs)) _ both) in
        (x, l, is_zero_pos (degree k) _ (c k x l) (and_right (mem k (keys xs)) _ both));
    once = first_queue-NoDup degree xs range.0.1;
    ordered = tt;
  }
