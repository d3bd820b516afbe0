-- ===== src/Extension/Registry/Relax.antt =====
-- What one turn of the loop of `Resolve` does to the degrees and to the queue.
use imap_go.Extension.Registry.{Sort, decrement, is_zero, lower, relax}
use imap_go.Extension.Registry.Members.{mem, pending, mem-append, pending-smaller}
use imap_go.Prelude.{
  Bool-cases, inl, inr, ℕ, zero, suc, ◌+◌, ◌≤◌, ℤ, pos, Bool, true, false, List, [], ◌∷◌, ◌++◌,
  append-nil, ◌≡◌, refl, sym, ap, ◌∙◌, arith, Bytes, equal, equal_iff, equal_refl, equal_sym, ◌||◌,
  ◌==◌, if◌then◌else◌,
}

-- The name goes into the queue if the count falls from a positive number to none.
abbrev pub falls : ℕ → ℕ → Bool
falls zero after = false
falls (suc before) after = after == 0

abbrev pub queued : Bytes → Bool → List Bytes
queued other b = if b then other ∷ [] else []

-- What is sorted before a turn and after it.
module _ (done : List Bytes) (name : Bytes) (fresh : mem name done ≡ false) where
  abbrev pub done' : List Bytes
  done' = done ++ name ∷ []

  -- The state after the loop over the dependencies of one extension, of which `before` were to come
  -- and `after` are.
  abbrev pub Lowered : Bytes → ℕ → ℕ → Sort → Sort → Type 0
  Lowered other before after s t =
      (t.queue ≡ s.queue ++ queued other (falls before after))
      × (t.sorted ≡ s.sorted)
      × ((k : Bytes) → t.degree k ≡ (if equal other k then pos after else s.degree k))

  Lowered-at :
      (other : Bytes) (s t u : Sort) (b b' a a' : ℕ)
      → b' ≡ b
      → a' ≡ a
      → u ≡ t
      → Lowered other b a s t
      → Lowered other b' a' s u
  Lowered-at other s t u b b' a a' p q r l = rw (p, q, r) l

  queue_once :
      (q : List Bytes) (other : Bytes) (m n : ℕ)
      → n ≤ m
      → (q ++ queued other (m == 0)) ++ queued other (falls m n) ≡ q ++ queued other (n == 0)
  queue_once q other zero zero h = append-nil (q ++ other ∷ [])
  queue_once q other zero (suc n) h = absurd (omega arith)
  queue_once q other (suc m) n h =
      rw (positive m) (ap (λ r. r ++ queued other (n == 0)) (append-nil q))
    where
      positive : (m : ℕ) → (suc m == 0) ≡ false
      positive m = ground arith

  Lowered-same : (other : Bytes) (s : Sort) (m : ℕ) → s.degree other ≡ pos m → Lowered other m m s s
  Lowered-same other s m h = (
    rw (falls_self m) (sym (append-nil s.queue)),
    refl,
    λ k. elim (Bool-cases (equal other k)) [
      | inl e ↦ rw e (ap s.degree (sym ((equal_iff other k).0 e)) ∙ h)
      | inr e ↦ rw e refl
    ],
  )
    where
      falls_self : (m : ℕ) → falls m m ≡ false
      falls_self zero = refl
      falls_self (suc m) = ground arith

  lower-degree :
      (other : Bytes) (s : Sort) (m : ℕ)
      → s.degree other ≡ pos (suc m)
      → (lower other s).degree other ≡ pos m
  lower-degree other s m h = rw equal_refl (ap decrement h)

  lower-Lowered :
      (other : Bytes) (s t : Sort) (m n : ℕ)
      → s.degree other ≡ pos (suc m)
      → n ≤ m
      → Lowered other m n (lower other s) t
      → Lowered other (suc m) n s t
  lower-Lowered other s t m n h le (hq, hs, hd) = (
    hq
        ∙ ap (λ z. (s.queue ++ queued other (is_zero (decrement z))) ++ queued other (falls m n)) h
        ∙ queue_once s.queue other m n le,
    hs,
    λ k. hd k ∙ twice (equal other k) (pos n) (decrement (s.degree other)) (s.degree k),
  )
    where
      twice : (b : Bool) (x y z : ℤ) → (if b then x else if b then y else z) ≡ (if b then x else z)
      twice true x y z = refl
      twice false x y z = refl

  grows : (k : Bytes) → mem k done ≡ true → mem k done' ≡ true
  grows k h = mem-append k done (name ∷ []) ∙ rw h refl

  pending-sorted :
      (ds : List Bytes) (d : Bytes) (ks : List Bytes)
      → mem d ks ≡ true
      → pending ks (d ∷ ds) ≡ pending ks ds
  pending-sorted ds d ks h = rw h refl

  pending-unsorted :
      (ds : List Bytes) (d : Bytes) (ks : List Bytes)
      → mem d ks ≡ false
      → pending ks (d ∷ ds) ≡ suc (pending ks ds)
  pending-unsorted ds d ks h = rw h refl

  relax_skips :
      (other d : Bytes) (ds : List Bytes) (s : Sort)
      → equal d name ≡ false
      → relax name other (d ∷ ds) s ≡ relax name other ds s
  unfolding relax
  relax_skips other d ds s h = ap (λ b. relax name other ds (if b then lower other s else s)) h

  relax_lowers :
      (other d : Bytes) (ds : List Bytes) (s : Sort)
      → equal d name ≡ true
      → relax name other (d ∷ ds) s ≡ relax name other ds (lower other s)
  unfolding relax
  relax_lowers other d ds s h = ap (λ b. relax name other ds (if b then lower other s else s)) h

  -- A dependency that is not the name is sorted after the turn exactly if it was before.
  others_stay : (d : Bytes) → equal d name ≡ false → mem d done' ≡ mem d done
  others_stay d h = mem-append d done (name ∷ []) ∙ rw (equal_sym name d, h) (or_false (mem d done))
    where
      or_false : (b : Bool) → (b || (false || false)) ≡ b
      or_false true = refl
      or_false false = refl

  is_name : (d : Bytes) → equal d name ≡ true → (mem d done ≡ false) × (mem d done' ≡ true)
  is_name d h = (
    ap (λ k. mem k done) ((equal_iff d name).0 h) ∙ fresh,
    ap (λ k. mem k done') ((equal_iff d name).0 h)
        ∙ mem-append name done (name ∷ [])
        ∙ rw (fresh, equal_refl) refl,
  )

  relax-Lowered :
      (other : Bytes) (ds : List Bytes) (a : ℕ) (s : Sort)
      → s.degree other ≡ pos (a + pending done ds)
      → Lowered other (a + pending done ds) (a + pending done' ds) s (relax name other ds s)
  unfolding relax
  relax-Lowered other [] a s h = Lowered-same other s (a + 0) h
  relax-Lowered other (d ∷ ds) a s h = elim (Bool-cases (equal d name)) [
    | inl e ↦
        let (was, now) = is_name d e in
        let before : a + pending done (d ∷ ds) ≡ suc (a + pending done ds) =
          omega (arith, pending-unsorted ds d done was) in
        let m = a + pending done ds in
        Lowered-at other s _ _ (suc m) _ (a + pending done' ds) _ before
          (ap (◌+◌ a) (pending-sorted ds d done' now)) (relax_lowers other d ds s e)
          (lower-Lowered other s (relax name other ds (lower other s)) m (a + pending done' ds)
            (h ∙ ap pos before) (omega (arith, pending-smaller done done' ds grows))
            (relax-Lowered other ds a (lower other s) (lower-degree other s m (h ∙ ap pos before))))
    | inr e ↦ elim (Bool-cases (mem d done)) [
      | inl f ↦
          let was = pending-sorted ds d done f in
          let now = pending-sorted ds d done' (others_stay d e ∙ f) in
          Lowered-at other s _ _ (a + pending done ds) _ (a + pending done' ds) _ (ap (◌+◌ a) was)
            (ap (◌+◌ a) now) (relax_skips other d ds s e)
            (relax-Lowered other ds a s (h ∙ ap (λ n. pos (a + n)) was))
      | inr f ↦
          let was = pending-unsorted ds d done f in
          let now = pending-unsorted ds d done' (others_stay d e ∙ f) in
          let before : a + pending done (d ∷ ds) ≡ suc a + pending done ds = omega (arith, was) in
          Lowered-at other s _ _ (suc a + pending done ds) _ (suc a + pending done' ds) _ before
            (omega (arith, now)) (relax_skips other d ds s e)
            (relax-Lowered other ds (suc a) s (h ∙ ap pos before))
    ]
  ]

  -- The loop over the dependencies of one extension, from a degree that counts those to come.
  pub relax-counts :
      (other : Bytes) (ds : List Bytes) (s : Sort)
      → s.degree other ≡ pos (pending done ds)
      → Lowered other (pending done ds) (pending done' ds) s (relax name other ds s)
  relax-counts other ds s h =
      Lowered-at other s _ _ (0 + pending done ds) _ (0 + pending done' ds) _ (omega arith)
        (omega arith) refl (relax-Lowered other ds 0 s (h ∙ ap pos (none_more (pending done ds))))
    where
      none_more : (n : ℕ) → n ≡ 0 + n
      none_more n = omega arith
