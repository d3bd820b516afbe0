-- ===== src/Extension/Registry/Sorted.antt =====
-- The invariant of the loop of `Resolve`: the degrees count the dependencies to come, and the queue has
-- the extensions that are not sorted and wait for none.
use imap_go.Extension.Registry.Ready.{
  IsRange, IsReady, IsOrdered, some_inj, or_true, NoDup-middle, falls-cases, falls-positive,
  IsReady-grows, in_front, IsOrdered-snoc, IsOrdered-IsReady, All-mem, All-mem-All,
}
use mathlib.Core.Path.{subst}
use imap_go.Extension.Registry.{Extension, Degrees, Sort, relax_all, sort_loop}
use imap_go.Extension.Registry.Members.{mem, mem-append, NoDup, NoDup-append, NoDup-length, pending}
use imap_go.Extension.Registry.Woken.{
  keys, woken, relax_all-Relaxed, woken-IsWoken, woken-mem, woken-NoDup,
}
use imap_go.Prelude.{
  Bool-cases, inl, inr, ℕ, zero, suc, ◌+◌, ◌≤◌, pos, true, false, List, [], ◌∷◌, ◌++◌, append_assoc,
  ◌≡◌, refl, sym, ap, ◌∙◌, arith, some, Bytes, All, All-append, All-map, lookup, length,
  length-append,
}

module _ (es : List (Bytes × Extension)) where
  -- The state between two turns.
  pub record IsSorting (degree : Degrees) (queue sorted : List Bytes) : Type 0 where
    pub counts :
        (k : Bytes) (x : Extension)
        → lookup k es ≡ some x
        → degree k ≡ pos (pending sorted x.dependencies)
    pub listed :
        (k : Bytes) (x : Extension)
        → lookup k es ≡ some x
        → pending sorted x.dependencies ≡ 0
        → mem k (sorted ++ queue) ≡ true
    pub ready : All (IsReady es sorted) queue
    pub once : NoDup (sorted ++ queue)
    pub ordered : IsOrdered es [] sorted

  -- Nothing that is sorted or in the queue waits for a dependency.
  settled :
      (degree : Degrees) (queue sorted : List Bytes) (k : Bytes) (x : Extension)
      → IsSorting degree queue sorted
      → mem k (sorted ++ queue) ≡ true
      → lookup k es ≡ some x
      → pending sorted x.dependencies ≡ 0
  settled degree queue sorted k x s m l = elim (Bool-cases (mem k sorted)) [
    | inl e ↦ of_ready (IsOrdered-IsReady es [] sorted k s.ordered e)
    | inr e ↦
        of_ready
          (All-mem es (IsReady es sorted) queue k s.ready (rw (mem-append k sorted queue, e) at m))
  ]
    where
      of_ready : IsReady es sorted k → pending sorted x.dependencies ≡ 0
      of_ready (y, ly, z) = ap (λ w. pending sorted w.dependencies) (some_inj x y (sym l ∙ ly)) ∙ z

  -- One turn, where `w` are the names that it puts into the queue.
  module _ (degree degree' : Degrees) (queue sorted : List Bytes) (name : Bytes)
      (visited : List (Bytes × Extension)) (fresh : mem name sorted ≡ false)
      (range : IsRange es visited) (s : IsSorting degree (name ∷ queue) sorted)
      (counts' : (k : Bytes) (x : Extension)
        → lookup k es ≡ some x
        → degree' k ≡ pos (pending (sorted ++ name ∷ []) x.dependencies)) where
    abbrev w : List Bytes
    w = woken es sorted name fresh visited

    abbrev now : List Bytes
    now = sorted ++ name ∷ []

    moved : (now ++ (queue ++ w)) ≡ ((sorted ++ name ∷ queue) ++ w)
    moved = simp append_assoc

    listed' :
        (k : Bytes) (x : Extension)
        → lookup k es ≡ some x
        → pending now x.dependencies ≡ 0
        → mem k (now ++ (queue ++ w)) ≡ true
    listed' k x l z =
        ap (mem k) moved
        ∙ mem-append k (sorted ++ name ∷ queue) w
        ∙ elim (falls-cases (pending sorted x.dependencies) (pending now x.dependencies) z) [
          | inl e ↦ rw (s.listed k x l e) refl
          | inr f ↦
              rw (woken-mem es sorted name fresh visited k x range.0.0 (range.1 k x l) l f)
                (or_true (mem k (sorted ++ name ∷ queue)))
        ]

    ready' : All (IsReady es now) (queue ++ w)
    ready' =
        All-append (IsReady es now) queue w
          (All-map (IsReady es sorted) (IsReady es now)
            (λ k. IsReady-grows es sorted now k (λ j. in_front es j sorted (name ∷ []))) queue
            s.ready.1)
          (All-mem-All es (IsReady es now) w λ k m.
            let ((x, l, f), there) = woken-IsWoken es sorted name fresh visited k range.0.0 m in
            (
              x,
              l,
              (falls-positive (pending sorted x.dependencies) (pending now x.dependencies) f).1,
            ))

    once' : NoDup (now ++ (queue ++ w))
    once' = subst NoDup (sym moved) (
        NoDup-append (sorted ++ name ∷ queue) w s.once
          (woken-NoDup es sorted name fresh visited range.0)
          λ k m. elim (Bool-cases (mem k w)) [
            | inr e ↦ e
            | inl e ↦
                let ((x, l, f), there) = woken-IsWoken es sorted name fresh visited k range.0.0 e in
                absurd (
                  (falls-positive (pending sorted x.dependencies) (pending now x.dependencies) f).0
                    (settled degree (name ∷ queue) sorted k x s m l))
          ])

    next : IsSorting degree' (queue ++ w) now
    next = record {
      counts = counts';
      listed = listed';
      ready = ready';
      once = once';
      ordered = IsOrdered-snoc es [] sorted name s.ordered s.ready.0;
    }

  abbrev turned : Degrees → List Bytes → List Bytes → Bytes → List (Bytes × Extension) → Sort
  turned degree queue sorted name visited =
      relax_all name visited
        (record { degree = degree; queue = queue; sorted = sorted ++ name ∷ [] })

  pub IsSorting-turn :
      (degree : Degrees) (queue sorted : List Bytes) (name : Bytes)
      (visited : List (Bytes × Extension))
      → IsRange es visited
      → IsSorting degree (name ∷ queue) sorted
      → let t = turned degree queue sorted name visited in
        IsSorting t.degree t.queue t.sorted × (t.sorted ≡ sorted ++ name ∷ [])
  IsSorting-turn degree queue sorted name visited range s =
      let fresh = NoDup-middle sorted queue name s.once in
      let t = turned degree queue sorted name visited in
      let (tq, ts, tc, td) =
        relax_all-Relaxed es sorted name fresh visited
          (record { degree = degree; queue = queue; sorted = sorted ++ name ∷ [] }) range.0
          (λ k x l m. s.counts k x l) in
      (
        rw (tq, ts)
            (next degree t.degree queue sorted name visited fresh range s
              (λ k x l. tc k x l (range.1 k x l))),
        ts,
      )

  -- What is sorted and in the queue is registered, without repetition, so it is no more than there is.
  enough_room :
      (degree : Degrees) (queue sorted : List Bytes) (visited : List (Bytes × Extension))
      → IsRange es visited
      → IsSorting degree queue sorted
      → length (sorted ++ queue) ≤ length (keys visited)
  enough_room degree queue sorted visited range s =
      NoDup-length (sorted ++ queue) (keys visited) s.once λ k m. elim (Bool-cases (mem k sorted)) [
        | inl e ↦ registered k (IsOrdered-IsReady es [] sorted k s.ordered e)
        | inr e ↦ registered k (
            All-mem es (IsReady es sorted) queue k s.ready (rw (mem-append k sorted queue, e) at m))
      ]
    where
      registered : (k : Bytes) → IsReady es sorted k → mem k (keys visited) ≡ true
      registered k (x, l, z) = range.1 k x l

  -- With fuel for every extension that is not sorted the loop ends, and the queue is then empty.
  pub sort_loop-IsSorting :
      (ranges : ℕ → List (Bytes × Extension)) (fuel n : ℕ) (degree : Degrees)
      (queue sorted : List Bytes)
      → ((i : ℕ) → IsRange es (ranges i))
      → ((i : ℕ) → length (keys (ranges i)) ≤ length sorted + fuel)
      → IsSorting degree queue sorted
      → (degree' : Degrees) × (result : List Bytes) × (sort_loop ranges fuel n degree queue sorted
          ≡ some result)
        × IsSorting degree' [] result
  unfolding sort_loop
  sort_loop-IsSorting ranges fuel n degree [] sorted hr hl s = (degree, sorted, refl, s)
  sort_loop-IsSorting ranges zero n degree (name ∷ queue) sorted hr hl s = absurd (
      omega (
        arith,
        hl 0,
        enough_room degree (name ∷ queue) sorted (ranges 0) (hr 0) s,
        length-append sorted (name ∷ queue),
      ))
  sort_loop-IsSorting ranges (suc fuel) n degree (name ∷ queue) sorted hr hl s =
      let (s', e) = IsSorting-turn degree queue sorted name (ranges n) (hr n) s in
      let t = turned degree queue sorted name (ranges n) in
      sort_loop-IsSorting ranges fuel (n + 1) t.degree t.queue t.sorted hr
        (λ i. omega (arith, hl i, ap length e, length-append sorted (name ∷ []))) s'
