-- ===== src/Server/Commands/Search/Ends.antt =====
-- The loop of `parseSearchCriteria` ends for every text: a key takes a byte at least, so the length of
-- the text is fuel enough, and more fuel changes nothing.
use imap_go.Server.Commands.Search.Forward.{read_sp-Leaves, act_on-Leaves}
use imap_go.Imap.Search.{SearchCriteria, blank}
use imap_go.Prelude.{
  Bool-cases, inl, inr, ℕ, suc, zero, ◌+◌, ◌<◌, true, false, [], ◌∷◌, ◌++◌, ◌≡◌, ◌≢◌, refl, sym, ap,
  ◌∙◌, arith, Bytes, Option, none, some, length, length-append, lookup, to_upper, ◌==◌,
}
use imap_go.Server.Commands.Search.{
  KeyAction, all_key, new_key, keyword, unkeyword, larger_key, smaller_key, body_key, text_key,
  any_header, uid_key, mod_seq_key, not_key, saved_before_key, saved_since_key, saved_on_key,
  flag_key, not_flag_key, header_key, search_keys, with_arg, add_not_criteria, act, act_on,
  after_space, after_key, parse_search_criteria, parse_search,
}
use imap_go.Wire.Atom.{IsAtom, Stops, ReadsAtom, read_atom-ReadsAtom, read_atom-append}
use imap_go.Wire.Chars.{is_atom_char}
use imap_go.Wire.Decoder.{read_sp, read_atom}
use imap_go.Wire.Reader.{Out, ok, err, Reader, continue}
use imap_go.Wire.Suffix.{
  Suffix, Suffix-refl, Suffix-length, Leaves, Leaves-trans, Leaves-continue-within,
}

module _ {Time : Type 0} (zero_time : Time) (parse_date : Bytes → Option Time) where
  -- The recursive call sees what stands behind the key only.
  act-same :
      (sub sub' : Reader (SearchCriteria Time)) (k : KeyAction) (c : SearchCriteria Time)
      (t : Bytes)
      → ((s : Bytes) → Suffix s t → sub s ≡ sub' s)
      → act zero_time parse_date sub k c t ≡ act zero_time parse_date sub' k c t
  unfolding act with_arg
  act-same sub sub' all_key c t h = refl
  act-same sub sub' (flag_key flag) c t h = refl
  act-same sub sub' (not_flag_key flag) c t h = refl
  act-same sub sub' new_key c t h = refl
  act-same sub sub' keyword c t h = refl
  act-same sub sub' unkeyword c t h = refl
  act-same sub sub' larger_key c t h = refl
  act-same sub sub' smaller_key c t h = refl
  act-same sub sub' body_key c t h = refl
  act-same sub sub' text_key c t h = refl
  act-same sub sub' (header_key key) c t h = refl
  act-same sub sub' any_header c t h = refl
  act-same sub sub' uid_key c t h = refl
  act-same sub sub' mod_seq_key c t h = refl
  act-same sub sub' saved_before_key c t h = refl
  act-same sub sub' saved_since_key c t h = refl
  act-same sub sub' saved_on_key c t h = refl
  act-same sub sub' not_key c t h = at_space (read_sp t) (read_sp-Leaves t)
    where
      at_space :
          (r : Out (Unit {0}))
          → Leaves t r
          → continue r
              (λ x s. continue (sub s) (λ d u. ok (add_not_criteria zero_time parse_date d c) u))
            ≡ continue r
                (λ x s. continue (sub' s) (λ d u. ok (add_not_criteria zero_time parse_date d c) u))
      at_space (ok x s) i =
          ap (λ r. continue r (λ d u. ok (add_not_criteria zero_time parse_date d c) u)) (h s i)
      at_space (err e s) i = refl

  act_on-same :
      (sub sub' : Reader (SearchCriteria Time)) (k : Option KeyAction) (key : Bytes)
      (c : SearchCriteria Time) (t : Bytes)
      → ((s : Bytes) → Suffix s t → sub s ≡ sub' s)
      → act_on zero_time parse_date sub k key c t ≡ act_on zero_time parse_date sub' k key c t
  unfolding act_on
  act_on-same sub sub' (some k) key c t h = act-same sub sub' k c t h
  act_on-same sub sub' none key c t h = refl

  abbrev loop : ℕ → SearchCriteria Time → Reader (SearchCriteria Time)
  loop fuel c = parse_search_criteria zero_time parse_date fuel c

  -- Behind an atom there is less left.
  ReadsAtom-shorter : (t key s : Bytes) → ReadsAtom [] t (ok key s) → length s < length t
  ReadsAtom-shorter t [] s (e, ne, h, st) = absurd (ne refl)
  ReadsAtom-shorter t (b ∷ key) s (e, ne, h, st) =
      omega (arith, ap length e, length-append (b ∷ key) s)

  -- The recursive call leaves a suffix of a text shorter than `n`.
  abbrev LeavesBelow : ℕ → (SearchCriteria Time → Reader (SearchCriteria Time)) → Type 0
  LeavesBelow n go = (d : SearchCriteria Time) (u : Bytes) → length u < n → Leaves u (go d u)

  after_space-Leaves :
      (n : ℕ) (go : SearchCriteria Time → Reader (SearchCriteria Time)) (d : SearchCriteria Time)
      (u : Bytes) (r : Out (Unit {0}))
      → LeavesBelow n go
      → length u < n
      → Leaves u r
      → Leaves u (after_space zero_time parse_date go d r)
  after_space-Leaves n go d u (ok x v) h i k =
      Leaves-trans v u _ k (h d v (omega (arith, i, Suffix-length v u k)))
  after_space-Leaves n go d u (err e v) h i k = k.0

  after_key-Leaves :
      (n : ℕ) (go : SearchCriteria Time → Reader (SearchCriteria Time)) (c : SearchCriteria Time)
      (t : Bytes) (r : Out Bytes)
      → LeavesBelow n go
      → length t < n + 1
      → ReadsAtom [] t r
      → Leaves t (after_key zero_time parse_date go c r)
  after_key-Leaves n go c t (err e s) h i (m, j, st, k) = ([], sym j)
  after_key-Leaves n go c t (ok key s) h i k =
      Leaves-trans s t _ (key, k.0)
        (Leaves-continue-within s _ _
          (act_on-Leaves zero_time parse_date _ (lookup (to_upper key) search_keys) key c s
            λ u j. h (blank zero_time) u (within u j))
          λ d u j. after_space-Leaves n go d u (read_sp u) h (within u j) (read_sp-Leaves u))
    where
      within : (u : Bytes) → Suffix u s → length u < n
      within u j = omega (arith, i, ReadsAtom-shorter t key s k, Suffix-length u s j)

  loop-Leaves : (n : ℕ) → LeavesBelow n (loop n)
  unfolding parse_search_criteria
  loop-Leaves zero c t h = absurd (omega arith)
  loop-Leaves (suc n) c [] h = Suffix-refl []
  loop-Leaves (suc n) c (b ∷ t) h = elim (Bool-cases (b == b')')) [
    | inl e ↦ rw e (Suffix-refl (b ∷ t))
    | inr e ↦ rw e (
        after_key-Leaves n (loop n) c (b ∷ t) (read_atom (b ∷ t)) (loop-Leaves n) (omega (arith, h))
          (read_atom-ReadsAtom (b ∷ t)))
  ]

  -- The loop with fuel enough.
  unfoldable pub parse_from : SearchCriteria Time → Reader (SearchCriteria Time)
  unfolding parse_search_criteria
  parse_from c t = loop (length t + 1) c t

  -- `parseSearchCriteria` ends for every text and leaves a suffix of it: with the criteria, with an
  -- error of the source, or by the panic of `make` for a literal that is longer than the longest slice,
  -- which then stands somewhere in the text.
  pub parse_search-Leaves : (t : Bytes) → Leaves t (parse_search zero_time parse_date t)
  unfolding parse_search
  parse_search-Leaves t = loop-Leaves (length t + 1) (blank zero_time) t (omega arith)

  -- Two readers that give the same for texts shorter than `n`.
  abbrev SameBelow :
      ℕ
      → (SearchCriteria Time → Reader (SearchCriteria Time))
      → (SearchCriteria Time → Reader (SearchCriteria Time))
      → Type 0
  SameBelow n go go' = (d : SearchCriteria Time) (u : Bytes) → length u < n → go d u ≡ go' d u

  continue-same :
      {A B : Type 0} (t : Bytes) (r : Out A) (f g : A → Reader B)
      → Leaves t r
      → ((a : A) (s : Bytes) → Suffix s t → f a s ≡ g a s)
      → continue r f ≡ continue r g
  continue-same t (ok a s) f g h k = k a s h
  continue-same t (err e s) f g h k = refl

  after_space-same :
      (n : ℕ) (go go' : SearchCriteria Time → Reader (SearchCriteria Time))
      (d : SearchCriteria Time) (u : Bytes) (r : Out (Unit {0}))
      → SameBelow n go go'
      → length u < n
      → Leaves u r
      → after_space zero_time parse_date go d r ≡ after_space zero_time parse_date go' d r
  after_space-same n go go' d u (ok x v) h i k = h d v (omega (arith, i, Suffix-length v u k))
  after_space-same n go go' d u (err e v) h i k = refl

  after_key-same :
      (n : ℕ) (go go' : SearchCriteria Time → Reader (SearchCriteria Time))
      (c : SearchCriteria Time) (t : Bytes) (r : Out Bytes)
      → LeavesBelow n go
      → SameBelow n go go'
      → length t < n + 1
      → ReadsAtom [] t r
      → after_key zero_time parse_date go c r ≡ after_key zero_time parse_date go' c r
  after_key-same n go go' c t (err e s) l h i k = refl
  after_key-same n go go' c t (ok key s) l h i k =
      continue-same s _ _ _
        (act_on-Leaves zero_time parse_date (go (blank zero_time))
          (lookup (to_upper key) search_keys) key c s λ u j. l (blank zero_time) u (within u j))
        (λ d u j. after_space-same n go go' d u (read_sp u) h (within u j) (read_sp-Leaves u))
      ∙ ap (λ r. continue r λ d u. after_space zero_time parse_date go' d (read_sp u))
          (act_on-same (go (blank zero_time)) (go' (blank zero_time))
            (lookup (to_upper key) search_keys) key c s λ u j. h (blank zero_time) u (within u j))
    where
      within : (u : Bytes) → Suffix u s → length u < n
      within u j = omega (arith, i, ReadsAtom-shorter t key s k, Suffix-length u s j)

  loop-same :
      (n m : ℕ) (c : SearchCriteria Time) (t : Bytes)
      → length t < n
      → length t < m
      → loop n c t ≡ loop m c t
  unfolding parse_search_criteria
  loop-same zero m c t h k = absurd (omega arith)
  loop-same (suc n) zero c t h k = absurd (omega arith)
  loop-same (suc n) (suc m) c [] h k = refl
  loop-same (suc n) (suc m) c (b ∷ t) h k = elim (Bool-cases (b == b')')) [
    | inl e ↦ rw e refl
    | inr e ↦ rw e (
        after_key-same (length (b ∷ t)) (loop n) (loop m) c (b ∷ t) (read_atom (b ∷ t))
          (λ d u i. loop-Leaves n d u (omega (arith, h, i)))
          (λ d u i. loop-same n m d u (omega (arith, h, i)) (omega (arith, k, i))) (omega arith)
          (read_atom-ReadsAtom (b ∷ t)))
  ]

  loop-step :
      (n : ℕ) (c : SearchCriteria Time) (b : ℕ) (t : Bytes)
      → is_atom_char b ≡ true
      → loop (suc n) c (b ∷ t) ≡ after_key zero_time parse_date (loop n) c (read_atom (b ∷ t))
  unfolding parse_search_criteria is_atom_char
  loop-step n c b t h = rw not_paren refl
    where
      not_paren : (b == b')') ≡ false
      not_paren = ground arith

  -- An atom and a byte that ends it: the key is looked up, and the rest is read after a space.
  pub parse_from-key :
      (c : SearchCriteria Time) (key rest : Bytes)
      → key ≢ []
      → IsAtom key
      → Stops rest
      → parse_from c (key ++ rest) ≡ after_key zero_time parse_date parse_from c (ok key rest)
  unfolding parse_from
  parse_from-key c [] rest ne h st = absurd (ne refl)
  parse_from-key c (b ∷ key) rest ne (hb, h) st =
      let t = b ∷ key ++ rest in
      let n = length t in
      ap (λ fuel. loop fuel c t) (one_more n)
      ∙ loop-step n c b (key ++ rest) hb
      ∙ ap (after_key zero_time parse_date (loop n) c)
          (read_atom-append (b ∷ key) rest ne (hb, h) st)
      ∙ after_key-same n (loop n) parse_from c t (ok (b ∷ key) rest) (loop-Leaves n)
          (λ d u i. loop-same n (length u + 1) d u i (omega arith)) (omega arith)
          (refl, ne, (hb, h), st)
    where
      one_more : (n : ℕ) → n + 1 ≡ suc n
      one_more n = omega arith
