-- ===== src/Server/Commands/Sets/Stores.antt =====
-- A STORE that is put together from its arguments is parsed back; a set with a star is refused.
use mathlib.Core.List.{concat-ne-nil}
use imap_go.Imap.NumSet.Parse.{parse_set, parse_num_set}
use imap_go.Imap.NumSet.RoundTrip.{IsWritable, parse_num_set-format_num_set}
use imap_go.Imap.NumSet.Atoms.{parse_num_set_open, format_num_set-IsAtom}
use imap_go.Imap.NumSet.{NumRange, NumSet, format_num_set}
use imap_go.MemServer.Mailbox.{NumKind}
use imap_go.Prelude.Result.{Result}
use imap_go.Prelude.{
  ◌+◌, ◌-◌, ◌&&◌, ◌↔◌, length, length-append, leb, take, drop, take-append-drop, drop-append,
  equal_iff, equal_refl, Bool, false, sym, ap, ◌∙◌, ℕ, ◌≤◌, true, List, [], ◌∷◌, ◌++◌, ◌≡◌, ◌≢◌,
  refl, arith, All, All-append, All-map, Bytes, codes, to_upper, has_prefix,
}
use imap_go.Server.Commands.Search.{lift_set}
use imap_go.Server.Commands.Sets.{
  StoreAction, store_flags_set, store_flags_add, store_flags_del, read_num_set, has_suffix,
  action_of, parse_store, parse_copy, parse_fetch,
}
use imap_go.Wire.Atom.{IsAtom, Stops, read_atom-append}
use imap_go.Wire.Chars.{is_atom_char}
use imap_go.Wire.Decimal.{format_uint, IsDigit, format_uint-All}
use imap_go.Wire.Decoder.{read_sp, expect_byte, max_uint32}
use imap_go.Wire.Encoder.{flags}
use imap_go.Wire.Flags.{IsKeyword, read_flags-flags}
use imap_go.Wire.ListReader.{read_flags}
use imap_go.Wire.Reader.{bad_set, ok, err, read_byte}

-- How the word for an action starts, in upper case.
abbrev pub stem : StoreAction → Bytes
stem store_flags_set = codes "FLAGS"
stem store_flags_add = codes "+FLAGS"
stem store_flags_del = codes "-FLAGS"

abbrev pub EndsIn : Bytes → Bytes → Type 0
EndsIn suffix s = (u : Bytes) × (s ≡ u ++ suffix)

-- A word that starts with that of an action and ends in `.SILENT` exactly if it is to be silent, in
-- any case.
abbrev pub IsActionWord : Bytes → StoreAction → Bool → Type 0
IsActionWord w a silent =
    (w ≢ [])
    × IsAtom w
    × ((t : Bytes) × (to_upper w ≡ stem a ++ t))
    × ((silent ≡ true) ↔ EndsIn (codes ".SILENT") (to_upper w))

has_suffix-EndsIn : (suffix s : Bytes) → has_suffix suffix s ≡ true → EndsIn suffix s
unfolding has_suffix
has_suffix-EndsIn suffix s h =
    let n = length s - length suffix in
    (
      take n s,
      sym (take-append-drop n s)
          ∙ ap (◌++◌ (take n s)) ((equal_iff (drop n s) suffix).0 (second _ _ h)),
    )
  where
    second : (b c : Bool) → (b && c) ≡ true → c ≡ true
    second true c h = h
    second false c h = cc

EndsIn-has_suffix : (suffix u : Bytes) → has_suffix suffix (u ++ suffix) ≡ true
unfolding has_suffix
EndsIn-has_suffix suffix u =
    let n = length u + length suffix in
    let len : length (u ++ suffix) ≡ n = length-append u suffix in
    let left : length (u ++ suffix) - length suffix ≡ length u = omega arith in
    rw (fits (length suffix) (length (u ++ suffix)) (omega arith), left, drop-append u suffix)
      (equal_refl suffix)
  where
    fits : (m n : ℕ) → m ≤ n → leb m n ≡ true
    fits m n h = ground arith

same_truth : (b c : Bool) → (b ≡ true → c ≡ true) → (c ≡ true → b ≡ true) → b ≡ c
same_truth true c f g = sym (f refl)
same_truth false true f g = g refl
same_truth false false f g = refl

has_suffix_lem :
    (suffix s : Bytes) (silent : Bool)
    → (silent ≡ true) ↔ EndsIn suffix s
    → has_suffix suffix s ≡ silent
has_suffix_lem suffix s silent h =
    same_truth (has_suffix suffix s) silent (λ e. h.1 (has_suffix-EndsIn suffix s e))
      λ e. let (u, k) = h.0 e in ap (has_suffix suffix) k ∙ EndsIn-has_suffix suffix u

action_of-stem : (a : StoreAction) (t s : Bytes) → action_of (stem a ++ t) s ≡ ok a s
unfolding action_of has_prefix
action_of-stem store_flags_set t s = refl
action_of-stem store_flags_add t s = refl
action_of-stem store_flags_del t s = refl

read_num_set-text :
    (s t : Bytes) (ss : NumSet)
    → s ≢ []
    → IsAtom s
    → Stops t
    → parse_set s ≡ Result.ok ss
    → read_num_set (s ++ t) ≡ ok ss t
unfolding read_num_set lift_set
read_num_set-text s t ss ne h st e = rw (read_atom-append s t ne h st, e) refl

parse_store-text :
    (set word list rest : Bytes) (ss : NumSet) (a : StoreAction) (silent : Bool) (fs : List Bytes)
    → set ≢ []
    → IsAtom set
    → parse_set set ≡ Result.ok ss
    → IsActionWord word a silent
    → read_flags (list ++ rest) ≡ ok fs rest
    → parse_store (set ++ (b' ' ∷ (word ++ (b' ' ∷ (list ++ rest)))))
      ≡ ok (ss, record { action = a; silent = silent; flags = fs }) rest
unfolding parse_store is_atom_char read_sp expect_byte read_byte
parse_store-text set word list rest ss a silent fs ne h e (nw, hw, (u, k), hs) l =
    rw
      (
        read_num_set-text set (b' ' ∷ (word ++ (b' ' ∷ (list ++ rest)))) ss ne h refl e,
        read_atom-append word (b' ' ∷ (list ++ rest)) nw hw refl,
        has_suffix_lem (codes ".SILENT") (to_upper word) silent hs,
        k,
        action_of-stem a u (b' ' ∷ (list ++ rest)),
        l,
      )
      refl

parse_set-ok :
    (t : Bytes) (rs : List NumRange)
    → parse_num_set t ≡ Result.ok rs
    → parse_set t ≡ Result.ok (record { ranges = rs })
unfolding parse_set
parse_set-ok t rs e = rw e refl

-- A STORE is parsed back from a printed set without a star, a word that starts with `FLAGS`,
-- `+FLAGS` or `-FLAGS`, in any case, and a list of keywords, each after a space: with the set, the
-- word's action and the keywords, and silent exactly if the word ends in `.SILENT`, in any case.
pub parse_store-flags :
    (rs : List NumRange) (word : Bytes) (a : StoreAction) (silent : Bool) (fs : List Bytes)
    (rest : Bytes)
    → rs ≢ []
    → All IsWritable rs
    → All (λ r. r.stop ≢ 0) rs
    → IsActionWord word a silent
    → All IsKeyword fs
    → parse_store (format_num_set rs ++ (b' ' ∷ (word ++ (b' ' ∷ (flags fs [] ++ rest)))))
      ≡ ok (record { ranges = rs }, record { action = a; silent = silent; flags = fs }) rest
parse_store-flags rs word a silent fs rest ne hw hs ha hf =
    let (set_ne, is_atom) = format_num_set-IsAtom rs ne hs in
    parse_store-text (format_num_set rs) word (flags fs []) rest (record { ranges = rs }) a silent
      fs set_ne is_atom
      (parse_set-ok (format_num_set rs) rs (parse_num_set-format_num_set rs ne hw)) ha
      (read_flags-flags fs rest hf)

-- What `ReadAtom` leaves of a set from a number to the star.
read_num_set-star :
    (n : ℕ) (rest : Bytes)
    → 1 ≤ n
    → n ≤ max_uint32
    → read_num_set ((format_uint n ++ b':' ∷ []) ++ b'*' ∷ rest) ≡ err bad_set (b'*' ∷ rest)
unfolding read_num_set lift_set parse_set is_atom_char
read_num_set-star n rest h k =
    rw
      (
        read_atom-append (format_uint n ++ b':' ∷ []) (b'*' ∷ rest)
            (concat-ne-nil b':' (format_uint n))
            (All-append (λ c. is_atom_char c ≡ true) (format_uint n) (b':' ∷ []) digits (refl, tt))
            refl,
        parse_num_set_open n h k,
      )
      refl
  where
    digits : IsAtom (format_uint n)
    digits =
        All-map IsDigit (λ c. is_atom_char c ≡ true) (λ c d. ground arith) (format_uint n)
          (format_uint-All n)

-- STORE, COPY and FETCH of the messages from a number to the last, `n:*`, are refused, whatever
-- follows: the star is no byte of an atom, so the set is cut in front of it.
pub star_refused :
    (n : ℕ) (rest : Bytes) (fuel : ℕ) (kind : NumKind)
    → 1 ≤ n
    → n ≤ max_uint32
    → let t = (format_uint n ++ b':' ∷ []) ++ b'*' ∷ rest in
      (parse_store t ≡ err bad_set (b'*' ∷ rest))
      × (parse_copy t ≡ err bad_set (b'*' ∷ rest))
      × (parse_fetch fuel kind t ≡ err bad_set (b'*' ∷ rest))
unfolding parse_store parse_copy parse_fetch
star_refused n rest fuel kind h k =
    let e = read_num_set-star n rest h k in (rw e refl, rw e refl, rw e refl)
