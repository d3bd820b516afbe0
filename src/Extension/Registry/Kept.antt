-- ===== src/Extension/Registry/Kept.antt =====
-- What `Register` and `Remove` keep: each extension stands under its own name, and the order has the
-- same names as the map, each once.
use mathlib.Core.Bool.{false≢true}
use mathlib.Core.Path.{subst}
use imap_go.Extension.Registry.{
  Extension, Registry, RegistryError, already_registered, new_registry, register_at, register,
  drop_name, remove,
}
use imap_go.Extension.Registry.Members.{mem, mem-append, NoDup, NoDup-append}
use imap_go.Extension.Registry.Missing.{lookup-mem}
use imap_go.Extension.Registry.Woken.{keys, IsPart}
use imap_go.Prelude.Result.{Result, ok, err}
use imap_go.Prelude.{
  Bool-cases, inl, inr, Bool, true, false, not, ◌||◌, ◌&&◌, List, [], ◌∷◌, ◌++◌, ◌≡◌, refl, sym, ap,
  ◌∙◌, Option, none, some, Bytes, All, All-append, All-map, All-erase, equal, equal_iff, equal_refl,
  equal_sym, lookup, lookup-store, store, erase,
}

abbrev IsNamed : Bytes × Extension → Type 0
IsNamed e = e.1.name ≡ e.0

pub record IsWellFormed (r : Registry) : Type 0 where
  pub named : All IsNamed r.extensions
  pub once : NoDup (keys r.extensions)
  pub order_once : NoDup r.order
  pub same : (k : Bytes) → mem k r.order ≡ mem k (keys r.extensions)

lookup-none :
    (es : List (Bytes × Extension)) (k : Bytes) → lookup k es ≡ none → mem k (keys es) ≡ false
unfolding lookup
lookup-none [] k h = refl
lookup-none ((o, x) ∷ es) k h = elim (Bool-cases (equal o k)) [
  | inl e ↦ absurd (some-ne-none (rw e at h))
  | inr e ↦ rw e (lookup-none es k (rw e at h))
]
  where
    some-ne-none : some x ≡ none → ⊥
    some-ne-none e = cc

store_new :
    (es : List (Bytes × Extension)) (k : Bytes) (x : Extension)
    → mem k (keys es) ≡ false
    → store k x es ≡ es ++ (k, x) ∷ []
unfolding store
store_new [] k x h = refl
store_new ((o, y) ∷ es) k x h = elim (Bool-cases (equal o k)) [
  | inl e ↦ absurd (false≢true (sym h ∙ rw e refl))
  | inr e ↦ rw e (ap (◌∷◌ (o, y)) (store_new es k x (rw e at h)))
]

keys-append : (es ds : List (Bytes × Extension)) → keys (es ++ ds) ≡ keys es ++ keys ds
keys-append [] ds = refl
keys-append ((o, y) ∷ es) ds = ap (◌∷◌ o) (keys-append es ds)

NoDup-snoc : (ks : List Bytes) (k : Bytes) → NoDup ks → mem k ks ≡ false → NoDup (ks ++ k ∷ [])
NoDup-snoc ks k d h =
    NoDup-append ks (k ∷ []) d (refl, tt)
      λ j m. elim (Bool-cases (equal k j)) [
        | inl e ↦ absurd (false≢true (sym h ∙ ap (λ z. mem z ks) ((equal_iff k j).0 e) ∙ m))
        | inr e ↦ rw e refl
      ]

pass_over :
    (k n j : Bytes) (b c : Bool)
    → c ≡ (not (equal n j) && b)
    → equal k n ≡ false
    → (equal k j || c) ≡ (not (equal n j) && (equal k j || b))
pass_over k n j b c h d = elim (Bool-cases (equal n j)) [
  | inr e ↦ rw (h, e) refl
  | inl e ↦ rw (h, e, sym (ap (λ z. equal k z) ((equal_iff n j).0 e)) ∙ d) refl
]

taken_out :
    (k n j : Bytes) (b : Bool)
    → equal k n ≡ true
    → (not (equal n j) && b) ≡ (not (equal n j) && (equal k j || b))
taken_out k n j b h = elim (Bool-cases (equal n j)) [
  | inl e ↦ rw e refl
  | inr e ↦ rw (e, ap (λ z. equal z j) ((equal_iff k n).0 h) ∙ e) refl
]

and_false : (b : Bool) → (b && false) ≡ false
and_false true = refl
and_false false = refl

mem-erase :
    (es : List (Bytes × Extension)) (n j : Bytes)
    → mem j (keys (erase n es)) ≡ (not (equal n j) && mem j (keys es))
unfolding erase
mem-erase [] n j = sym (and_false (not (equal n j)))
mem-erase ((k, x) ∷ es) n j = elim (Bool-cases (equal k n)) [
  | inr e ↦
      rw e (pass_over k n j (mem j (keys es)) (mem j (keys (erase n es))) (mem-erase es n j) e)
  | inl e ↦ rw e (mem-erase es n j ∙ taken_out k n j (mem j (keys es)) e)
]

erase-NoDup :
    (es : List (Bytes × Extension)) (n : Bytes) → NoDup (keys es) → NoDup (keys (erase n es))
unfolding erase
erase-NoDup [] n d = tt
erase-NoDup ((k, x) ∷ es) n (h, d) = elim (Bool-cases (equal k n)) [
  | inl e ↦ rw e (erase-NoDup es n d)
  | inr e ↦ rw e (mem-erase es n k ∙ rw (h, equal_sym n k, e) refl, erase-NoDup es n d)
]

-- Only the first occurrence is taken out, which is the only one.
mem-drop_name_once :
    (ks : List Bytes) (n j : Bytes)
    → NoDup ks
    → mem j (drop_name n ks) ≡ (not (equal n j) && mem j ks)
unfolding drop_name
mem-drop_name_once [] n j d = sym (and_false (not (equal n j)))
mem-drop_name_once (k ∷ ks) n j (h, d) = elim (Bool-cases (equal k n)) [
  | inr e ↦
      rw e (pass_over k n j (mem j ks) (mem j (drop_name n ks)) (mem-drop_name_once ks n j d) e)
  | inl e ↦ rw e (absent e ∙ taken_out k n j (mem j ks) e)
]
  where
    absent : equal k n ≡ true → mem j ks ≡ (not (equal n j) && mem j ks)
    absent e = elim (Bool-cases (equal n j)) [
      | inr f ↦ rw f refl
      | inl f ↦ rw f (ap (λ z. mem z ks) (sym ((equal_iff k n).0 e ∙ (equal_iff n j).0 f)) ∙ h)
    ]

drop_name-NoDup : (ks : List Bytes) (n : Bytes) → NoDup ks → NoDup (drop_name n ks)
unfolding drop_name
drop_name-NoDup [] n d = tt
drop_name-NoDup (k ∷ ks) n (h, d) = elim (Bool-cases (equal k n)) [
  | inl e ↦ rw e d
  | inr e ↦
      rw e (mem-drop_name_once ks n k d ∙ rw (h, equal_sym n k, e) refl, drop_name-NoDup ks n d)
]

remove-IsWellFormed : (r : Registry) (name : Bytes) → IsWellFormed r → IsWellFormed (remove name r)
unfolding remove
remove-IsWellFormed r name w = record {
  named =
      All-map (λ e. IsNamed e × (equal e.0 name ≡ false)) IsNamed (λ e p. p.0)
        (erase name r.extensions) (All-erase IsNamed name r.extensions w.named);
  once = erase-NoDup r.extensions name w.once;
  order_once = drop_name-NoDup r.order name w.order_once;
  same = λ k.
      mem-drop_name_once r.order name k w.order_once
      ∙ ap (λ b. not (equal name k) && b) (w.same k)
      ∙ sym (mem-erase r.extensions name k);
}

-- A refused registration has the name in the registry already.
abbrev pub IsKept : Extension → Registry → Result RegistryError Registry → Type 0
IsKept ext r (ok r') =
    IsWellFormed r'
    × (lookup ext.name r.extensions ≡ none)
    × (lookup ext.name r'.extensions ≡ some ext)
IsKept ext r (err e) = (e ≡ already_registered ext.name) × (mem ext.name r.order ≡ true)

register_at-IsKept :
    (r : Registry) (ext : Extension) (old : Option Extension)
    → lookup ext.name r.extensions ≡ old
    → IsWellFormed r
    → IsKept ext r (register_at old ext r)
register_at-IsKept r ext (some x) l w =
    (refl, w.same ext.name ∙ lookup-mem r.extensions ext.name x l)
register_at-IsKept r ext none l w =
    let absent = lookup-none r.extensions ext.name l in
    let added = store_new r.extensions ext.name ext absent in
    let names = ap keys added ∙ keys-append r.extensions ((ext.name, ext) ∷ []) in
    (
      record {
        named =
            subst (All IsNamed) (sym added)
              (All-append IsNamed r.extensions ((ext.name, ext) ∷ []) w.named (refl, tt));
        once = subst NoDup (sym names) (NoDup-snoc (keys r.extensions) ext.name w.once absent);
        order_once = NoDup-snoc r.order ext.name w.order_once (w.same ext.name ∙ absent);
        same = λ k.
            mem-append k r.order (ext.name ∷ [])
            ∙ ap (λ b. b || mem k (ext.name ∷ [])) (w.same k)
            ∙ sym (mem-append k (keys r.extensions) (ext.name ∷ []))
            ∙ ap (mem k) (sym names);
      },
      l,
      lookup-store ext.name ext.name ext r.extensions ∙ rw equal_refl refl,
    )

-- `NewRegistry`, `Register` and `Remove` keep each extension under its own name and the order with the
-- same names as the map, each once; `Register` enters an extension exactly if its name is free.
pub registry-IsWellFormed :
    (r : Registry) (ext : Extension) (name : Bytes)
    → IsWellFormed r
    → IsWellFormed new_registry × IsKept ext r (register ext r) × IsWellFormed (remove name r)
unfolding new_registry register
registry-IsWellFormed r ext name w = (
  record { named = tt; once = tt; order_once = tt; same = λ k. refl },
  register_at-IsKept r ext (lookup ext.name r.extensions) refl w,
  remove-IsWellFormed r name w,
)

-- In a well-formed registry the entries of the map are found under their names.
pub IsWellFormed-IsPart : (r : Registry) → IsWellFormed r → IsPart r.extensions r.extensions
unfolding lookup
IsWellFormed-IsPart r w = (found r.extensions w.once, w.once)
  where
    first :
        (es : List (Bytes × Extension)) (k : Bytes) (x : Extension) (y : Bytes × Extension)
        → mem k (keys es) ≡ false
        → lookup y.0 es ≡ some y.1
        → lookup y.0 ((k, x) ∷ es) ≡ some y.1
    first es k x y h l = elim (Bool-cases (equal k y.0)) [
      | inl e ↦ absurd (
          false≢true
            (sym h ∙ ap (λ z. mem z (keys es)) ((equal_iff k y.0).0 e) ∙ lookup-mem es y.0 y.1 l))
      | inr e ↦ rw e l
    ]

    found :
        (es : List (Bytes × Extension)) → NoDup (keys es) → All (λ x. lookup x.0 es ≡ some x.1) es
    found [] d = tt
    found ((k, x) ∷ es) (h, d) = (
      rw equal_refl refl,
      All-map (λ y. lookup y.0 es ≡ some y.1) (λ y. lookup y.0 ((k, x) ∷ es) ≡ some y.1)
          (λ y l. first es k x y h l) es (found es d),
    )
