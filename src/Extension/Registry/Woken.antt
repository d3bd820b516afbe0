-- ===== src/Extension/Registry/Woken.antt =====
-- What a turn of the loop of `Resolve` does to all the extensions: the ones whose last dependency is
-- sorted in this turn go into the queue.
use mathlib.Core.Bool.{false≢true}
use imap_go.Extension.Registry.{Extension, Sort, relax, relax_all}
use imap_go.Extension.Registry.Members.{
  mem, mem-append, NoDup, NoDup-append, pending, mem_cons_differs,
}
use imap_go.Extension.Registry.Relax.{falls, queued, Lowered, relax-counts}
use imap_go.Prelude.{
  Bool-cases, inl, inr, ℕ, pos, Bool, true, false, ◌||◌, ◌&&◌, List, [], ◌∷◌, ◌++◌, append-nil,
  append_assoc, ◌≡◌, refl, sym, ap, ◌∙◌, arith, some, Bytes, All, equal, equal_iff, equal_refl,
  lookup,
}

and_false : (b : Bool) → (b && false) ≡ false
and_false true = refl
and_false false = refl

pub and_right : (a b : Bool) → (a && b) ≡ true → b ≡ true
and_right a b h = ground arith

abbrev pub keys : List (Bytes × Extension) → List Bytes
keys [] = []
keys ((k, x) ∷ xs) = k ∷ keys xs

-- The entries stand in the map `es`, no two under one name.
abbrev pub IsPart : List (Bytes × Extension) → List (Bytes × Extension) → Type 0
IsPart es xs = All (λ x. lookup x.0 es ≡ some x.1) xs × NoDup (keys xs)

pub IsPart-lookup :
    (es xs : List (Bytes × Extension)) (k : Bytes)
    → All (λ x. lookup x.0 es ≡ some x.1) xs
    → mem k (keys xs) ≡ true
    → (x : Extension) × (lookup k es ≡ some x)
IsPart-lookup es [] k h m = absurd (false≢true m)
IsPart-lookup es ((o, x) ∷ xs) k (ho, h) m = elim (Bool-cases (equal o k)) [
  | inl e ↦ (x, ap (λ z. lookup z es) (sym ((equal_iff o k).0 e)) ∙ ho)
  | inr e ↦ IsPart-lookup es xs k h (rw e at m)
]

module _ (es : List (Bytes × Extension)) (done : List Bytes) (name : Bytes)
    (fresh : mem name done ≡ false) where
  abbrev pub after : List Bytes → ℕ
  after ds = pending (done ++ name ∷ []) ds

  abbrev pub woken : List (Bytes × Extension) → List Bytes
  woken [] = []
  woken ((k, x) ∷ xs) =
      queued k (falls (pending done x.dependencies) (after x.dependencies)) ++ woken xs

  -- The degrees of the extensions in the list are the numbers of their dependencies to come.
  abbrev Counts : (List Bytes → ℕ) → List (Bytes × Extension) → Sort → Type 0
  Counts count xs s =
      (k : Bytes) (x : Extension)
      → lookup k es ≡ some x
      → mem k (keys xs) ≡ true
      → s.degree k ≡ pos (count x.dependencies)

  abbrev Relaxed : List (Bytes × Extension) → Sort → Sort → Type 0
  Relaxed xs s t =
      (t.queue ≡ s.queue ++ woken xs)
      × (t.sorted ≡ s.sorted)
      × Counts after xs t
      × ((k : Bytes) → mem k (keys xs) ≡ false → t.degree k ≡ s.degree k)

  some_inj : (x y : Extension) → some x ≡ some y → x ≡ y
  some_inj x y h = cc

  Relaxed-cons :
      (o : Bytes) (x : Extension) (xs : List (Bytes × Extension)) (s u t : Sort)
      → lookup o es ≡ some x
      → mem o (keys xs) ≡ false
      → Lowered done name fresh o (pending done x.dependencies) (after x.dependencies) s u
      → Relaxed xs u t
      → Relaxed ((o, x) ∷ xs) s t
  Relaxed-cons o x xs s u t ho n (uq, us, ud) (tq, ts, tc, td) = (
    tq
        ∙ ap (λ q. q ++ woken xs) uq
        ∙ append_assoc s.queue
            (queued o (falls (pending done x.dependencies) (after x.dependencies))) (woken xs),
    ts ∙ us,
    λ k y hk m. elim (Bool-cases (equal o k)) [
      | inl e ↦
          let same = (equal_iff o k).0 e in
          let x_y = some_inj x y (sym ho ∙ ap (λ z. lookup z es) same ∙ hk) in
          td k (ap (λ z. mem z (keys xs)) (sym same) ∙ n)
          ∙ ud k
          ∙ rw e (ap (λ z. pos (after z.dependencies)) x_y)
      | inr e ↦ tc k y hk (rw e at m)
    ],
    λ k m. let (d, l) = mem_cons_differs k o (keys xs) m in td k l ∙ ud k ∙ rw d refl,
  )

  pub relax_all-Relaxed :
      (xs : List (Bytes × Extension)) (s : Sort)
      → IsPart es xs
      → Counts (pending done) xs s
      → Relaxed xs s (relax_all name xs s)
  unfolding relax_all
  relax_all-Relaxed [] s h c =
      (sym (append-nil s.queue), refl, (λ k y hk m. absurd (false≢true m)), λ k m. refl)
  relax_all-Relaxed ((o, x) ∷ xs) s ((ho, h), (n, d)) c =
      let u = relax name o x.dependencies s in
      let l = relax-counts done name fresh o x.dependencies s (c o x ho (rw equal_refl refl)) in
      Relaxed-cons o x xs s u _ ho n l (
        relax_all-Relaxed xs u (h, d)
          (λ k y hk m. let apart = elsewhere k m in l.2 k ∙ rw apart (c k y hk (rw apart m))))
    where
      elsewhere : (k : Bytes) → mem k (keys xs) ≡ true → equal o k ≡ false
      elsewhere k m = elim (Bool-cases (equal o k)) [
        | inl e ↦ absurd (false≢true (sym n ∙ ap (λ z. mem z (keys xs)) ((equal_iff o k).0 e) ∙ m))
        | inr e ↦ e
      ]

  -- The extension of that name has its last dependency sorted in this turn.
  abbrev pub IsWoken : Bytes → Type 0
  IsWoken k =
      (x : Extension) × (lookup k es ≡ some x)
      × (falls (pending done x.dependencies) (after x.dependencies) ≡ true)

  mem-queued : (k o : Bytes) (b : Bool) → mem k (queued o b) ≡ (b && equal o k)
  mem-queued k o true = or_false (equal o k)
    where
      or_false : (b : Bool) → (b || false) ≡ b
      or_false true = refl
      or_false false = refl
  mem-queued k o false = refl

  not_queued : (k o : Bytes) (b : Bool) → equal o k ≡ false → mem k (queued o b) ≡ false
  not_queued k o b e = mem-queued k o b ∙ rw e (and_false b)

  is_queued : (k o : Bytes) (b : Bool) → b ≡ true → equal o k ≡ true → mem k (queued o b) ≡ true
  is_queued k o b f e = mem-queued k o b ∙ rw (f, e) refl

  pub woken-IsWoken :
      (xs : List (Bytes × Extension)) (k : Bytes)
      → All (λ x. lookup x.0 es ≡ some x.1) xs
      → mem k (woken xs) ≡ true
      → IsWoken k × (mem k (keys xs) ≡ true)
  woken-IsWoken [] k h m = absurd (false≢true m)
  woken-IsWoken ((o, x) ∷ xs) k (ho, h) m = elim (Bool-cases (equal o k)) [
    | inl e ↦ elim (Bool-cases (falls (pending done x.dependencies) (after x.dependencies))) [
      | inl f ↦ ((x, ap (λ z. lookup z es) (sym ((equal_iff o k).0 e)) ∙ ho, f), rw e refl)
      | inr f ↦ let (w, there) = woken-IsWoken xs k h (rw f at m) in (w, rw e refl)
    ]
    | inr e ↦ let (w, there) = woken-IsWoken xs k h (sym (behind e) ∙ m) in (w, rw e there)
  ]
    where
      b : Bool
      b = falls (pending done x.dependencies) (after x.dependencies)

      behind : equal o k ≡ false → mem k (queued o b ++ woken xs) ≡ mem k (woken xs)
      behind e =
          mem-append k (queued o b) (woken xs)
          ∙ ap (λ z. z || mem k (woken xs)) (not_queued k o b e)

  pub woken-mem :
      (xs : List (Bytes × Extension)) (k : Bytes) (x : Extension)
      → All (λ y. lookup y.0 es ≡ some y.1) xs
      → mem k (keys xs) ≡ true
      → lookup k es ≡ some x
      → falls (pending done x.dependencies) (after x.dependencies) ≡ true
      → mem k (woken xs) ≡ true
  woken-mem [] k x h m l f = absurd (false≢true m)
  woken-mem ((o, y) ∷ xs) k x (ho, h) m l f = elim (Bool-cases (equal o k)) [
    | inl e ↦
        let same = some_inj x y (sym l ∙ ap (λ z. lookup z es) (sym ((equal_iff o k).0 e)) ∙ ho) in
        mem-append k (queued o (b y)) (woken xs)
        ∙ ap (λ z. z || mem k (woken xs)) (is_queued k o (b y) (ap b (sym same) ∙ f) e)
    | inr e ↦
        mem-append k (queued o (b y)) (woken xs)
        ∙ rw (woken-mem xs k x h (rw e at m) l f) (or_true (mem k (queued o (b y))))
  ]
    where
      b : Extension → Bool
      b z = falls (pending done z.dependencies) (after z.dependencies)

      or_true : (b : Bool) → (b || true) ≡ true
      or_true true = refl
      or_true false = refl

  pub woken-NoDup : (xs : List (Bytes × Extension)) → IsPart es xs → NoDup (woken xs)
  woken-NoDup [] h = tt
  woken-NoDup ((o, x) ∷ xs) ((ho, h), (n, d)) =
      NoDup-append (queued o b) (woken xs) (once b) (woken-NoDup xs (h, d)) (λ k m. apart k m)
    where
      b : Bool
      b = falls (pending done x.dependencies) (after x.dependencies)

      once : (b : Bool) → NoDup (queued o b)
      once true = (refl, tt)
      once false = tt

      apart : (k : Bytes) → mem k (queued o b) ≡ true → mem k (woken xs) ≡ false
      apart k m = elim (Bool-cases (mem k (woken xs))) [
        | inr e ↦ e
        | inl e ↦
            let is_o = (equal_iff o k).0 (and_right b (equal o k) (sym (mem-queued k o b) ∙ m)) in
            absurd
              (false≢true (sym n ∙ ap (λ z. mem z (keys xs)) is_o ∙ (woken-IsWoken xs k h e).1))
      ]
