-- ===== src/Extension/Registry/Outcomes.antt =====
-- What `Resolve` returns, for every order in which it may visit the entries of the map.
use imap_go.Extension.Registry.Missing.{
  IsRegistered, WaitsOutside, IsOutcome, MissingIn, missing-MissingIn, lookup-mem,
}
use imap_go.Extension.Registry.Ready.{or_true}
use mathlib.Core.Bool.{false≢true}
use mathlib.Core.Path.{subst}
use imap_go.Extension.Registry.{
  Extension, Registry, RegistryError, already_registered, not_registered, circular_dependency,
  out_of_fuel, missing, first_degrees, first_queue, sort, finish, resolve_at, resolve,
}
use imap_go.Extension.Registry.Members.{mem, NoDup, NoDup-length, pending}
use imap_go.Extension.Registry.Ready.{IsRange, IsOrdered, IsOrdered-IsReady}
use imap_go.Extension.Registry.Sorted.{sort_loop-IsSorting}
use imap_go.Extension.Registry.Starts.{first-IsSorting, first_degrees_lem}
use imap_go.Extension.Registry.Woken.{keys, IsPart, IsPart-lookup}
use imap_go.Prelude.Result.{Result, ok, err}
use imap_go.Prelude.{
  Bool-cases, inl, inr, ◌⊎◌, ℕ, zero, suc, ◌+◌, ◌≤◌, ◌<◌, true, false, List, [], ◌∷◌, append-nil,
  ◌≡◌, ◌≢◌, refl, sym, ap, ◌∙◌, arith, Option, none, some, Bytes, equal, equal_iff, equal_refl,
  lookup, length, ◌==◌,
}

module _ (es : List (Bytes × Extension)) where
  -- A list that has not all the dependencies.
  pending-outside :
      (done ds : List Bytes)
      → pending done ds ≢ 0
      → (d : Bytes) × (mem d ds ≡ true) × (mem d done ≡ false)
  pending-outside done [] h = absurd (h refl)
  pending-outside done (d ∷ ds) h = elim (Bool-cases (mem d done)) [
    | inr e ↦ (d, rw equal_refl refl, e)
    | inl e ↦
        let (c, m, n) = pending-outside done ds (rw e at h) in (c, rw m (or_true (equal d c)), n)
  ]

  all_or_one :
      (done ks : List Bytes)
      → ((k : Bytes) → mem k ks ≡ true → mem k done ≡ true)
        ⊎ ((k : Bytes) × (mem k ks ≡ true) × (mem k done ≡ false))
  all_or_one done [] = inl λ k h. absurd (false≢true h)
  all_or_one done (k ∷ ks) = elim (Bool-cases (mem k done)) [
    | inr e ↦ inr (k, rw equal_refl refl, e)
    | inl e ↦ elim (all_or_one done ks) [
      | inr (j, m, n) ↦ inr (j, rw m (or_true (equal k j)), n)
      | inl h ↦ inl (extend k e h)
    ]
  ]
    where
      extend :
          (k : Bytes)
          → mem k done ≡ true
          → ((j : Bytes) → mem j ks ≡ true → mem j done ≡ true)
          → (j : Bytes) → mem j (k ∷ ks) ≡ true
          → mem j done ≡ true
      extend k e h j m = elim (Bool-cases (equal k j)) [
        | inl f ↦ ap (λ z. mem z done) (sym ((equal_iff k j).0 f)) ∙ e
        | inr f ↦ h j (rw f at m)
      ]

  length-keys : (xs : List (Bytes × Extension)) → length (keys xs) ≡ length xs
  length-keys [] = refl
  length-keys (x ∷ xs) = ap suc (length-keys xs)

  -- What `finish` is given: the sort is over, and every dependency is registered.
  module _ (names : List Bytes) (part : IsPart es es) (d : NoDup names) (o : IsOrdered es [] names)
      (listed : (k : Bytes) (x : Extension)
        → lookup k es ≡ some x
        → pending names x.dependencies ≡ 0
        → mem k names ≡ true)
      (there : (k : Bytes) (x : Extension)
        → lookup k es ≡ some x
        → (c : Bytes) → mem c x.dependencies ≡ true
        → IsRegistered es c) where
    inside : (k : Bytes) → mem k names ≡ true → mem k (keys es) ≡ true
    inside k m = let (x, l, z) = IsOrdered-IsReady es [] names k o m in lookup-mem es k x l

    complete :
        length names ≡ length es
        → (k : Bytes) (x : Extension) → lookup k es ≡ some x
        → mem k names ≡ true
    complete e k x l = elim (Bool-cases (mem k names)) [
      | inl m ↦ m
      | inr n ↦ absurd (
          too_many (
            NoDup-length (k ∷ names) (keys es) (n, d)
              λ j m. elim (Bool-cases (equal k j)) [
                | inl f ↦
                    ap (λ z. mem z (keys es)) (sym ((equal_iff k j).0 f)) ∙ lookup-mem es k x l
                | inr f ↦ inside j (rw f at m)
              ]))
    ]
      where
        too_many : suc (length names) ≤ length (keys es) → ⊥
        too_many h = omega (arith, h, e, length-keys es)

    stuck : length names ≢ length es → (k : Bytes) × IsRegistered es k × (mem k names ≡ false)
    stuck ne = elim (all_or_one names (keys es)) [
      | inr (k, m, n) ↦ (k, IsPart-lookup es es k part.0 m, n)
      | inl all ↦ absurd (
          ne (
            same (NoDup-length names (keys es) d inside) (NoDup-length (keys es) names part.1 all)))
    ]
      where
        same :
            length names ≤ length (keys es)
            → length (keys es) ≤ length names
            → length names ≡ length es
        same h k = omega (arith, length-keys es)

    waits :
        (k : Bytes) (x : Extension)
        → lookup k es ≡ some x
        → mem k names ≡ false
        → WaitsOutside es names x
    waits k x l n =
        let (c, m, out) =
          pending-outside names x.dependencies λ z. false≢true (sym n ∙ listed k x l z) in
        (c, m, out, there k x l c m)

    finish-IsOutcome : IsOutcome es (finish es (some names))
    unfolding finish
    finish-IsOutcome = elim (Bool-cases (length names == length es)) [
      | inl e ↦ rw e (names, refl, d, o, complete (equal_numbers e))
      | inr e ↦ rw e (names, stuck (different_numbers e), waits)
    ]
      where
        equal_numbers : {m n : ℕ} → (m == n) ≡ true → m ≡ n
        equal_numbers h = ground arith

        different_numbers : {m n : ℕ} → (m == n) ≡ false → m ≢ n
        different_numbers h = ground arith

  module _ (ranges : ℕ → List (Bytes × Extension)) (part : IsPart es es)
      (range : (i : ℕ) → IsRange es (ranges i)) where
    room : (i : ℕ) → length (keys (ranges i)) ≤ length {A = Bytes} [] + length es
    room i =
        let fits = NoDup-length (keys (ranges i)) (keys es) (range i).0.1 λ k m.
          let (x, l) = IsPart-lookup es (ranges i) k (range i).0.0 m in lookup-mem es k x l in
        omega (arith, fits, length-keys es)

    sort-IsOutcome :
        ((k : Bytes) (x : Extension)
          → lookup k es ≡ some x
          → (c : Bytes) → mem c x.dependencies ≡ true
          → IsRegistered es c)
        → IsOutcome es (finish es (sort ranges es))
    unfolding sort
    sort-IsOutcome there =
        let degree = first_degrees ranges es in
        let (degree', names, e, s) =
          sort_loop-IsSorting es ranges (length es) 5 degree (first_queue degree (ranges 4)) []
            range room
            (first-IsSorting es degree (ranges 4) (range 4)
              λ k x l. first_degrees_lem es ranges k x (range 3) l) in
        subst (λ r. IsOutcome es (finish es r)) (sym e)
          (finish-IsOutcome names part (subst NoDup (append-nil names) s.once) s.ordered
            (λ k x l z. ap (mem k) (sym (append-nil names)) ∙ s.listed k x l z) there)

    resolve_at-IsOutcome :
        (e : Option RegistryError)
        → MissingIn es (ranges 0) e
        → IsOutcome es (resolve_at ranges es e)
    unfolding resolve_at
    resolve_at-IsOutcome (some e) h = h
    resolve_at-IsOutcome none h = sort-IsOutcome λ k x l c m. h k x ((range 0).1 k x l) l c m

-- `Resolve` returns for every registry and every order of the visits: with all the extensions, each
-- once and after the ones it depends on; or with an extension that has a dependency which is not
-- registered; or with a circle, and then there are extensions that each wait for another of them.
pub resolve-IsOutcome :
    (r : Registry) (ranges : ℕ → List (Bytes × Extension))
    → IsPart r.extensions r.extensions
    → ((i : ℕ) → IsRange r.extensions (ranges i))
    → IsOutcome r.extensions (resolve ranges r)
unfolding resolve
resolve-IsOutcome r ranges part range =
    let es = r.extensions in
    resolve_at-IsOutcome es ranges part range (missing es (ranges 0))
      (missing-MissingIn es (ranges 0) (range 0).0.0)

module _ (es : List (Bytes × Extension)) (rank : Bytes → ℕ)
    (falls : (k : Bytes) (x : Extension)
      → lookup k es ≡ some x
      → (d : Bytes) → mem d x.dependencies ≡ true
      → IsRegistered es d × (rank d < rank k)) where
  no_circle :
      (done : List Bytes)
      → ((k : Bytes) (x : Extension)
          → lookup k es ≡ some x
          → mem k done ≡ false
          → WaitsOutside es done x)
      → (n : ℕ) (k : Bytes) (x : Extension) → rank k < n
      → lookup k es ≡ some x
      → mem k done ≡ false
      → ⊥
  no_circle done waits zero k x h l m = omega arith
  no_circle done waits (suc n) k x h l m =
      let (d, i, o, (y, ly)) = waits k x l m in
      no_circle done waits n d y (omega (arith, h, (falls k x l d i).1)) ly o

  all_sorted :
      (r : Result RegistryError (List (Option Extension)))
      → IsOutcome es r
      → (exts : List (Option Extension)) × (r ≡ ok exts)
  all_sorted (ok exts) h = (exts, refl)
  all_sorted (err (not_registered name d)) (k, x, l, e, m, n) =
      absurd (none_some (sym n ∙ (falls k x l d m).0.1))
    where
      none_some : {y : Extension} → none ≡ some y → ⊥
      none_some e = cc
  all_sorted (err circular_dependency) (done, (k, (x, l), m), waits) =
      absurd (no_circle done waits (suc (rank k)) k x (omega arith) l m)
  all_sorted (err (already_registered name)) h = absurd h
  all_sorted (err out_of_fuel) h = absurd h

-- If every dependency is registered and has a lower rank than what depends on it, `Resolve` succeeds.
pub resolve-ranked :
    (r : Registry) (ranges : ℕ → List (Bytes × Extension)) (rank : Bytes → ℕ)
    → IsPart r.extensions r.extensions
    → ((i : ℕ) → IsRange r.extensions (ranges i))
    → ((k : Bytes) (x : Extension)
        → lookup k r.extensions ≡ some x
        → (d : Bytes) → mem d x.dependencies ≡ true
        → IsRegistered r.extensions d × (rank d < rank k))
    → (exts : List (Option Extension)) × (resolve ranges r ≡ ok exts)
resolve-ranked r ranges rank part range falls =
    all_sorted r.extensions rank falls (resolve ranges r) (resolve-IsOutcome r ranges part range)
