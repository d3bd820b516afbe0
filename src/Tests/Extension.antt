-- ===== src/Tests/Extension.antt =====
-- The registry at concrete inputs: three extensions, and visits that go forth and back.
use mathlib.Core.Bool.{false≢true}
use mathlib.Core.Path.{subst}
use imap_go.Extension.Registry.{
  Extension, Registry, circular_dependency, new_registry, register, get, remove, resolve,
}
use imap_go.Extension.Registry.Kept.{
  IsWellFormed, IsKept, registry-IsWellFormed, IsWellFormed-IsPart,
}
use imap_go.Extension.Registry.Members.{mem}
use imap_go.Extension.Registry.Missing.{IsOutcome, IsRegistered, lookup-mem}
use imap_go.Extension.Registry.Outcomes.{resolve-IsOutcome, resolve-ranked}
use imap_go.Extension.Registry.Ready.{IsRange, some_inj}
use imap_go.Prelude.Result.{ok, err}
use imap_go.Prelude.{
  Bool-cases, inl, inr, ◌||◌, ◌<◌, Bool, true, false, arith, ℕ, ◌%◌, List, [], ◌∷◌, ◌≡◌, refl,
  Option, some, none, Bytes, codes, ap, ◌∙◌, equal_iff, lookup, equal, if◌then◌else◌, ◌==◌,
}

abbrev extension : Bytes → List Bytes → Bytes × Extension
extension name deps = (name, record { name = name; dependencies = deps })

-- The first needs the others, the second the third.
abbrev three : Registry
three = record {
  extensions =
      extension (codes "A") (codes "B" ∷ codes "C" ∷ [])
      ∷ extension (codes "B") (codes "C" ∷ [])
      ∷ extension (codes "C") []
      ∷ [];
  order = codes "A" ∷ codes "B" ∷ codes "C" ∷ [];
}

abbrev backwards : List (Bytes × Extension)
backwards =
    extension (codes "C") []
    ∷ extension (codes "A") (codes "B" ∷ codes "C" ∷ [])
    ∷ extension (codes "B") (codes "C" ∷ [])
    ∷ []

abbrev visits : ℕ → List (Bytes × Extension)
visits i = if i % 2 == 0 then three.extensions else backwards

three-IsWellFormed : IsWellFormed three
unfolding equal
three-IsWellFormed = record {
  named = (refl, (refl, (refl, tt)));
  once = (refl, (refl, (refl, tt)));
  order_once = (refl, (refl, (refl, tt)));
  same = λ k. refl;
}

resolve-three :
    resolve visits three
    ≡ ok (get three (codes "C") ∷ get three (codes "B") ∷ get three (codes "A") ∷ [])
unfolding resolve get equal
resolve-three = refl

forth-IsRange : IsRange three.extensions three.extensions
forth-IsRange = (IsWellFormed-IsPart three three-IsWellFormed, lookup-mem three.extensions)

back-IsRange : IsRange three.extensions backwards
unfolding lookup equal
back-IsRange = (
  ((refl, (refl, (refl, tt))), (refl, (refl, (refl, tt)))),
  λ k x l.
      turned (equal (codes "A") k) (equal (codes "B") k) (equal (codes "C") k)
        (lookup-mem three.extensions k x l),
)
  where
    turned : (a b c : Bool) → (a || (b || (c || false))) ≡ true → (c || (a || (b || false))) ≡ true
    turned a b c h = ground arith

visits-IsRange : (i : ℕ) → IsRange three.extensions (visits i)
visits-IsRange i = elim (Bool-cases (i % 2 == 0)) [
  | inl e ↦ rw e forth-IsRange
  | inr e ↦ rw e back-IsRange
]

resolve-IsOutcome_example : IsOutcome three.extensions (resolve visits three)
resolve-IsOutcome_example =
    resolve-IsOutcome three visits (IsWellFormed-IsPart three three-IsWellFormed) visits-IsRange

registry-IsWellFormed_example :
    IsWellFormed new_registry
    × IsKept
        (record { name = codes "B"; dependencies = [] })
        three
        (register (record { name = codes "B"; dependencies = [] }) three)
    × IsWellFormed (remove (codes "C") three)
registry-IsWellFormed_example =
    registry-IsWellFormed three (record { name = codes "B"; dependencies = [] }) (codes "C")
      three-IsWellFormed

-- One extension that depends on another.
abbrev two : Registry
two = record {
  extensions = extension (codes "B") (codes "C" ∷ []) ∷ extension (codes "C") [] ∷ [];
  order = codes "B" ∷ codes "C" ∷ [];
}

two-IsWellFormed : IsWellFormed two
unfolding equal
two-IsWellFormed = record {
  named = (refl, (refl, tt));
  once = (refl, (refl, tt));
  order_once = (refl, (refl, tt));
  same = λ k. refl;
}

abbrev rank : Bytes → ℕ
rank k = if equal k (codes "B") then 1 else 0

two-falls :
    (k : Bytes) (x : Extension)
    → lookup k two.extensions ≡ some x
    → (d : Bytes) → mem d x.dependencies ≡ true
    → IsRegistered two.extensions d × (rank d < rank k)
unfolding lookup equal
two-falls k x l d m = elim (Bool-cases (equal (codes "B") k)) [
  | inl e ↦
      let needs = ap (λ z. mem d z.dependencies) (some_inj _ x (rw e at l)) ∙ m in
      elim (Bool-cases (equal (codes "C") d)) [
        | inl f ↦
            subst (λ z. IsRegistered two.extensions z × (rank z < rank k))
              ((equal_iff (codes "C") d).0 f)
              (subst (λ z. IsRegistered two.extensions (codes "C") × (rank (codes "C") < rank z))
                ((equal_iff (codes "B") k).0 e) c_below_b)
        | inr f ↦ absurd (false≢true (rw f at needs))
      ]
  | inr e ↦ elim (Bool-cases (equal (codes "C") k)) [
    | inl f ↦
        absurd (false≢true (ap (λ z. mem d z.dependencies) (some_inj _ x (rw (e, f) at l)) ∙ m))
    | inr f ↦ absurd (none_some (rw (e, f) at l))
  ]
]
  where
    c_below_b : IsRegistered two.extensions (codes "C") × (rank (codes "C") < rank (codes "B"))
    c_below_b = ((_, refl), omega arith)

    none_some : {y : Extension} → none ≡ some y → ⊥
    none_some e = cc

resolve-ranked_example :
    (exts : List (Option Extension)) × (resolve (λ i. two.extensions) two ≡ ok exts)
resolve-ranked_example =
    resolve-ranked two (λ i. two.extensions) rank (IsWellFormed-IsPart two two-IsWellFormed)
      (λ i. (IsWellFormed-IsPart two two-IsWellFormed, lookup-mem two.extensions)) two-falls

-- An extension that depends on itself.
resolve-circle :
    resolve
      (λ i. extension (codes "A") (codes "A" ∷ []) ∷ [])
      (record { extensions = extension (codes "A") (codes "A" ∷ []) ∷ []; order = codes "A" ∷ [] })
    ≡ err circular_dependency
unfolding resolve equal
resolve-circle = refl
