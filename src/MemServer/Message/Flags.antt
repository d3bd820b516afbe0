-- ===== src/MemServer/Message/Flags.antt =====
-- What the flag operations do to what `HasFlag` answers.
use imap_go.MemServer.Message.{Flag, Message, some_flag, drop_flag, has_flag, set_flag, remove_flag}
use imap_go.Prelude.{
  Bool, true, false, not, ◌&&◌, ◌||◌, List, [], ◌∷◌, ◌++◌, ◌≡◌, refl, sym, ◌∙◌, ap, arith, inl, inr,
  Bool-cases, equal_fold, equal, equal_iff, to_upper,
}

-- `EqualFold` is equality of the upper case.
fold→upper : (a b : Flag) → equal_fold a b ≡ true → to_upper a ≡ to_upper b
unfolding equal_fold
fold→upper a b h = (equal_iff _ _).0 h

upper→fold : (a b : Flag) → to_upper a ≡ to_upper b → equal_fold a b ≡ true
unfolding equal_fold
upper→fold a b h = (equal_iff _ _).1 h

pub fold_refl : (a : Flag) → equal_fold a a ≡ true
fold_refl a = upper→fold a a refl

-- Flags that fold to one text are not told apart.
fold_congr : (a b c : Flag) → equal_fold a b ≡ true → equal_fold c a ≡ equal_fold c b
unfolding equal_fold
fold_congr a b c h = ap (equal (to_upper c)) (fold→upper a b h)

some_flag_congr :
    (fs : List Flag) (a b : Flag) → equal_fold a b ≡ true → some_flag fs a ≡ some_flag fs b
unfolding some_flag
some_flag_congr [] a b h = refl
some_flag_congr (f ∷ fs) a b h = rw (fold_congr a b f h, some_flag_congr fs a b h)

some_flag-append :
    (fs gs : List Flag) (a : Flag) → some_flag (fs ++ gs) a ≡ some_flag fs a || some_flag gs a
unfolding some_flag
some_flag-append [] gs a = refl
some_flag-append (f ∷ fs) gs a = ground (arith, some_flag-append fs gs a)

-- No two flags of the list fold to one text.
abbrev pub Distinct : List Flag → Type 0
Distinct [] = Unit
Distinct (f ∷ fs) = (some_flag fs f ≡ false) × Distinct fs

fold_sym : (a b : Flag) → equal_fold a b ≡ equal_fold b a
fold_sym a b = elim (Bool-cases (equal_fold a b)) [
  | inl e ↦ e ∙ sym (upper→fold b a (sym (fold→upper a b e)))
  | inr e ↦ elim (Bool-cases (equal_fold b a)) [
    | inl k ↦ upper→fold a b (sym (fold→upper b a k)) ∙ sym k
    | inr k ↦ e ∙ sym k
  ]
]

fold_congr_left : (a b c : Flag) → equal_fold a b ≡ true → equal_fold a c ≡ equal_fold b c
unfolding equal_fold
fold_congr_left a b c h = ap (λ t. equal t (to_upper c)) (fold→upper a b h)

set-some_flag :
    (fs : List Flag) (f g : Flag)
    → some_flag fs f ≡ true
    → some_flag fs g ≡ equal_fold f g || some_flag fs g
set-some_flag fs f g h = elim (Bool-cases (equal_fold f g)) [
  | inl e ↦ rw e (sym (some_flag_congr fs f g e) ∙ h)
  | inr e ↦ rw e refl
]

append-some_flag :
    (fs : List Flag) (f g : Flag) → some_flag (fs ++ f ∷ []) g ≡ equal_fold f g || some_flag fs g
append-some_flag fs f g = rw some_flag-append (unfold some_flag in ground arith)

drop-some_flag :
    (fs : List Flag) (f g : Flag)
    → Distinct fs
    → some_flag (drop_flag fs f) g ≡ not (equal_fold f g) && some_flag fs g
unfolding some_flag drop_flag
drop-some_flag [] f g d = ground arith
drop-some_flag (h ∷ fs) f g (dh, d) = elim (Bool-cases (equal_fold h f)) [
  | inl e ↦
      rw (e, fold_congr_left h f g e)
        (elim (Bool-cases (equal_fold f g)) [
          | inl k ↦ rw k (sym (some_flag_congr fs f g k) ∙ sym (some_flag_congr fs h f e) ∙ dh)
          | inr k ↦ rw k refl
        ])
  | inr e ↦
      rw (e, drop-some_flag fs f g d)
        (elim (Bool-cases (equal_fold f g)) [
          | inl k ↦ rw (k, sym (fold_congr f g h k) ∙ e) refl
          | inr k ↦ rw k refl
        ])
]

drop-Distinct : (fs : List Flag) (f : Flag) → Distinct fs → Distinct (drop_flag fs f)
unfolding drop_flag
drop-Distinct [] f d = tt
drop-Distinct (h ∷ fs) f (dh, d) = elim (Bool-cases (equal_fold h f)) [
  | inl e ↦ rw e d
  | inr e ↦ rw e (drop-some_flag fs f h d ∙ rw dh (and_false _), drop-Distinct fs f d)
]
  where
    and_false : (b : Bool) → b && false ≡ false
    and_false true = refl
    and_false false = refl

lacks-cons :
    (h : Flag) (fs : List Flag) (f : Flag)
    → some_flag (h ∷ fs) f ≡ false
    → (equal_fold h f ≡ false) × (some_flag fs f ≡ false)
unfolding some_flag
lacks-cons h fs f n = ground arith

some_flag-skip :
    (p : Flag) (fs : List Flag) (k : Flag)
    → equal_fold p k ≡ false
    → some_flag (p ∷ fs) k ≡ some_flag fs k
unfolding some_flag
some_flag-skip p fs k e = rw e refl

append-Distinct :
    (fs : List Flag) (f : Flag) → some_flag fs f ≡ false → Distinct fs → Distinct (fs ++ f ∷ [])
append-Distinct [] f n d = unfold some_flag in (refl, tt)
append-Distinct (h ∷ fs) f n (dh, d) =
    let (hf, ff) = lacks-cons h fs f n in
    (append-some_flag fs f h ∙ rw (fold_sym f h, hf, dh) refl, append-Distinct fs f ff d)

-- A flag that is in the list is found there.
some_flag-middle :
    (fs gs : List Flag) (f k : Flag) → equal_fold f k ≡ true → some_flag (fs ++ f ∷ gs) k ≡ true
unfolding some_flag
some_flag-middle [] gs f k h = rw h refl
some_flag-middle (p ∷ fs) gs f k h = ground (arith, some_flag-middle fs gs f k h)

drop_flag_twice :
    (fs gs hs : List Flag) (f g k : Flag)
    → equal_fold f k ≡ true
    → equal_fold g k ≡ true
    → some_flag (drop_flag (fs ++ f ∷ (gs ++ g ∷ hs)) k) k ≡ true
unfolding drop_flag
drop_flag_twice [] gs hs f g k hf hg = rw hf (some_flag-middle gs hs g k hg)
drop_flag_twice (p ∷ fs) gs hs f g k hf hg = elim (Bool-cases (equal_fold p k)) [
  | inl e ↦ rw e (some_flag-middle fs (gs ++ g ∷ hs) f k hf)
  | inr e ↦ rw e (some_flag-skip p _ k e ∙ drop_flag_twice fs gs hs f g k hf hg)
]

module _ {Time : Type 0} where
  -- `SetFlag` makes `HasFlag` true of what folds to the flag, and changes it for nothing else; a list
  -- of flags that are distinct up to case stays so.
  has_flag-set_flag :
      (m : Message Time) (f g : Flag)
      → (has_flag (set_flag f m) g ≡ equal_fold f g || has_flag m g)
        × (Distinct m.flags → Distinct (set_flag f m).flags)
  unfolding set_flag
  has_flag-set_flag m f g = elim (Bool-cases (some_flag m.flags f)) [
    | inl e ↦ rw e (set-some_flag m.flags f g e, λ d. d)
    | inr e ↦ rw e (append-some_flag m.flags f g, append-Distinct m.flags f e)
  ]

  -- `RemoveFlag` makes `HasFlag` false of what folds to the flag, and changes it for nothing else, if
  -- the flags are distinct up to case; and they stay so.
  has_flag-remove_flag :
      (m : Message Time) (f g : Flag)
      → Distinct m.flags
      → (has_flag (remove_flag f m) g ≡ not (equal_fold f g) && has_flag m g)
        × Distinct (remove_flag f m).flags
  unfolding remove_flag has_flag
  has_flag-remove_flag m f g d = (drop-some_flag m.flags f g d, drop-Distinct m.flags f d)

  -- A message that carries a flag twice still has it after one `RemoveFlag`.
  has_flag-remove_flag_twice :
      (m : Message Time) (fs gs hs : List Flag) (f g k : Flag)
      → m.flags ≡ fs ++ f ∷ (gs ++ g ∷ hs)
      → equal_fold f k ≡ true
      → equal_fold g k ≡ true
      → has_flag (remove_flag k m) k ≡ true
  unfolding remove_flag has_flag
  has_flag-remove_flag_twice m fs gs hs f g k e hf hg = rw e (drop_flag_twice fs gs hs f g k hf hg)
