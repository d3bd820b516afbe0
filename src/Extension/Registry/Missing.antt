-- ===== src/Extension/Registry/Missing.antt =====
-- What `Resolve` may return, and its first loop, which looks for dependencies that are not registered.
use mathlib.Core.Bool.{false≢true}
use imap_go.Extension.Registry.{
  Extension, RegistryError, already_registered, not_registered, circular_dependency, out_of_fuel,
  missing_of, missing, or_missing, look_up,
}
use imap_go.Extension.Registry.Members.{mem, NoDup}
use imap_go.Extension.Registry.Ready.{IsOrdered, some_inj}
use imap_go.Extension.Registry.Woken.{keys}
use imap_go.Prelude.Result.{Result, ok, err}
use imap_go.Prelude.{
  Bool-cases, inl, inr, ◌⊎◌, true, false, List, [], ◌∷◌, ◌≡◌, refl, sym, ap, ◌∙◌, Option, none,
  some, Bytes, All, equal, equal_iff, equal_refl, lookup,
}
use imap_go.Extension.Registry.Ready.{or_true}

abbrev pub IsRegistered : List (Bytes × Extension) → Bytes → Type 0
IsRegistered es k = (x : Extension) × (lookup k es ≡ some x)

-- A dependency that is not in the list.
abbrev pub WaitsOutside : List (Bytes × Extension) → List Bytes → Extension → Type 0
WaitsOutside es done x =
    (d : Bytes) × (mem d x.dependencies ≡ true) × (mem d done ≡ false) × IsRegistered es d

-- All the extensions, each once and after its dependencies; or an extension with a dependency that is
-- not registered; or extensions left outside a list that each depend on another one outside.
abbrev pub IsOutcome :
    List (Bytes × Extension) → Result RegistryError (List (Option Extension)) → Type 0
IsOutcome es (ok exts) =
    (names : List Bytes) × (exts ≡ look_up es names)
    × NoDup names
    × IsOrdered es [] names
    × ((k : Bytes) (x : Extension) → lookup k es ≡ some x → mem k names ≡ true)
IsOutcome es (err (not_registered name dep)) =
    (k : Bytes) × (x : Extension) × (lookup k es ≡ some x)
    × (x.name ≡ name)
    × (mem dep x.dependencies ≡ true)
    × (lookup dep es ≡ none)
IsOutcome es (err circular_dependency) =
    (done : List Bytes) × ((k : Bytes) × IsRegistered es k × (mem k done ≡ false))
    × ((k : Bytes) (x : Extension)
        → lookup k es ≡ some x
        → mem k done ≡ false
        → WaitsOutside es done x)
IsOutcome es (err (already_registered name)) = ⊥
IsOutcome es (err out_of_fuel) = ⊥

option-cases : (o : Option Extension) → ((x : Extension) × (o ≡ some x)) ⊎ (o ≡ none)
option-cases (some x) = inl (x, refl)
option-cases none = inr refl

pub lookup-mem :
    (xs : List (Bytes × Extension)) (k : Bytes) (x : Extension)
    → lookup k xs ≡ some x
    → mem k (keys xs) ≡ true
unfolding lookup
lookup-mem [] k x l = cc
lookup-mem ((o, y) ∷ xs) k x l = elim (Bool-cases (equal o k)) [
  | inl e ↦ rw e refl
  | inr e ↦ rw e (lookup-mem xs k x (rw e at l))
]

module _ (es : List (Bytes × Extension)) where
  -- What the search for a missing dependency tells.
  abbrev pub Missing : List Bytes → Option Bytes → Type 0
  Missing deps none = (d : Bytes) → mem d deps ≡ true → IsRegistered es d
  Missing deps (some d) = (mem d deps ≡ true) × (lookup d es ≡ none)

  Missing-cons :
      (dep : Bytes) (deps : List Bytes) (r : Option Bytes)
      → IsRegistered es dep
      → Missing deps r
      → Missing (dep ∷ deps) r
  Missing-cons dep deps none h m = λ d i. elim (Bool-cases (equal dep d)) [
    | inl e ↦ (h.0, ap (λ z. lookup z es) (sym ((equal_iff dep d).0 e)) ∙ h.1)
    | inr e ↦ m d (rw e at i)
  ]
  Missing-cons dep deps (some d) h (m, l) = (rw m (or_true (equal dep d)), l)

  missing_of-Missing : (deps : List Bytes) → Missing deps (missing_of es deps)
  unfolding missing_of
  missing_of-Missing [] = λ d h. absurd (false≢true h)
  missing_of-Missing (dep ∷ deps) = elim (option-cases (lookup dep es)) [
    | inl (x, e) ↦
        rw e (Missing-cons dep deps (missing_of es deps) (x, e) (missing_of-Missing deps))
    | inr e ↦ rw e (rw equal_refl refl, e)
  ]

  abbrev pub MissingIn : List (Bytes × Extension) → Option RegistryError → Type 0
  MissingIn xs none =
      (k : Bytes) (x : Extension)
      → mem k (keys xs) ≡ true
      → lookup k es ≡ some x
      → (d : Bytes) → mem d x.dependencies ≡ true
      → IsRegistered es d
  MissingIn xs (some e) = IsOutcome es (err e)

  MissingIn-cons :
      (o : Bytes) (y : Extension) (xs : List (Bytes × Extension)) (r : Option Bytes)
      (e : Option RegistryError)
      → lookup o es ≡ some y
      → Missing y.dependencies r
      → MissingIn xs e
      → MissingIn ((o, y) ∷ xs) (or_missing y.name r e)
  MissingIn-cons o y xs (some d) e l (m, n) h = (o, y, l, refl, m, n)
  MissingIn-cons o y xs none (some e) l m h = h
  MissingIn-cons o y xs none none l m h = λ k x i lk d j. elim (Bool-cases (equal o k)) [
    | inl e ↦
        let same = some_inj x y (sym lk ∙ ap (λ z. lookup z es) (sym ((equal_iff o k).0 e)) ∙ l) in
        m d (ap (λ z. mem d z.dependencies) (sym same) ∙ j)
    | inr e ↦ h k x (rw e at i) lk d j
  ]

  pub missing-MissingIn :
      (xs : List (Bytes × Extension))
      → All (λ x. lookup x.0 es ≡ some x.1) xs
      → MissingIn xs (missing es xs)
  unfolding missing
  missing-MissingIn [] h = λ k x m l d i. absurd (false≢true m)
  missing-MissingIn ((o, y) ∷ xs) (l, h) =
      MissingIn-cons o y xs (missing_of es y.dependencies) (missing es xs) l
        (missing_of-Missing y.dependencies) (missing-MissingIn xs h)
