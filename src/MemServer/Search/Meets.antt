-- ===== src/MemServer/Search/Meets.antt =====
-- The messages that a search finds: the criteria that the parser builds from keys about flags, and the
-- criterion `NOT`.
use imap_go.Imap.Search.{
  Fields, SearchCriteria, criteria, no_nots, no_ors, add_not, blank_fields, blank, on_fields,
  snoc_not,
}
use imap_go.MemServer.Mailbox.{Mailbox, NumKind, num_of, u32}
use imap_go.MemServer.Message.{Message, has_flag}
use imap_go.MemServer.Search.{
  Backend, fields_match, matches_criteria, none_match, each_matches, search_loop, search_messages,
  dates_fit, in_set, too_small, too_large, header_fits, text_bytes,
}
use imap_go.Prelude.{
  Bool-cases, inl, inr, ℕ, ◌+◌, Bool, true, false, not, ◌&&◌, List, [], ◌∷◌, ◌++◌, ◌≡◌, refl, sym,
  ap, ◌∙◌, Option, Bytes, all, All, contains_text, to_lower, if◌then◌else◌,
}
use imap_go.Server.Commands.Search.{not_key, parse_search}
use imap_go.Server.Commands.Search.Ends.{parse_from}
use imap_go.Server.Commands.Search.Keys.{
  FlagTest, has, lacks, IsWordFor, IsFlagWord, spaced, test_fields, gather, parse_from-spaced,
  parse_from-not,
}
use imap_go.Wire.Reader.{ok}

and_assoc : (a b c : Bool) → (a && (b && c)) ≡ (a && b && c)
and_assoc true b c = refl
and_assoc false b c = refl

and_true : (b : Bool) → (b && true) ≡ b
and_true true = refl
and_true false = refl

all-snoc :
    {A : Type 0} (p : A → Bool) (xs : List A) (x : A) → all p (xs ++ x ∷ []) ≡ (all p xs && p x)
all-snoc p [] x = and_true (p x)
all-snoc p (y ∷ xs) x = ap (◌&&◌ (p y)) (all-snoc p xs x) ∙ and_assoc (p y) (all p xs) (p x)

-- A chain of tests, and a test that moves to its end.
abbrev chain : Bool → List Bool → Bool
chain q [] = q
chain q (r ∷ rs) = chain (q && r) rs

chain-out : (q y : Bool) (rs : List Bool) → chain (q && y) rs ≡ (chain q rs && y)
chain-out q y [] = refl
chain-out q y (r ∷ rs) = ap (λ b. chain b rs) (swap q y r) ∙ chain-out (q && r) y rs
  where
    swap : (q y r : Bool) → (q && y && r) ≡ (q && r && y)
    swap false y r = refl
    swap true false false = refl
    swap true false true = refl
    swap true true false = refl
    swap true true true = refl

chain-snoc :
    {A : Type 0} (q : Bool) (p : A → Bool) (xs : List A) (x : A) (rs : List Bool)
    → chain (q && all p (xs ++ x ∷ [])) rs ≡ (chain (q && all p xs) rs && p x)
chain-snoc q p xs x rs =
    ap (λ v. chain v rs) (ap (◌&&◌ q) (all-snoc p xs x) ∙ and_assoc q (all p xs) (p x))
    ∙ chain-out (q && all p xs) (p x) rs

module _ {Time : Type 0} (zero_time : Time) (parse_date : Bytes → Option Time)
    (b : Backend Time) where
  abbrev pub fits : Message Time → FlagTest → Bool
  fits msg (has flag) = has_flag msg flag
  fits msg (lacks flag) = not (has_flag msg flag)

  abbrev numbered : Message Time → ℕ → Fields Time → Bool
  numbered msg n c = in_set c.seq_num n && in_set c.uid msg.uid

  -- The tests of `fields_match` behind those of the flags.
  abbrev late : Message Time → Fields Time → List Bool
  late msg c =
      dates_fit b c.since c.before c.on msg.internal_date
      ∷ dates_fit b c.sent_since c.sent_before c.sent_on (b.sent_date msg.body)
      ∷ not (too_small c.larger msg.size)
      ∷ not (too_large c.smaller msg.size)
      ∷ all (header_fits (b.header_of msg.body)) c.header
      ∷ all (λ t. contains_text (to_lower (text_bytes msg.body)) (to_lower t)) c.body
      ∷ all (λ t. contains_text (to_lower msg.body) (to_lower t)) c.text
      ∷ []

  abbrev lacks_all : Message Time → Fields Time → Bool
  lacks_all msg c = all (λ f. not (has_flag msg f)) c.not_flag

  fields_match-test_fields :
      (msg : Message Time) (n : ℕ) (t : FlagTest) (f : Fields Time)
      → fields_match b msg n (test_fields zero_time parse_date t f)
        ≡ (fields_match b msg n f && fits msg t)
  unfolding fields_match
  fields_match-test_fields msg n (has flag) f =
      chain-snoc (numbered msg n f) (λ f. has_flag msg f) f.flag flag (lacks_all msg f ∷ late msg f)
  fields_match-test_fields msg n (lacks flag) f =
      chain-snoc (numbered msg n f && all (λ f. has_flag msg f) f.flag) (λ f. not (has_flag msg f))
        f.not_flag flag (late msg f)

  matches-test_fields :
      (msg : Message Time) (n : ℕ) (t : FlagTest) (c : SearchCriteria Time)
      → matches_criteria b msg n (on_fields (test_fields zero_time parse_date t) c)
        ≡ (matches_criteria b msg n c && fits msg t)
  unfolding matches_criteria
  matches-test_fields msg n t (criteria f ns os) =
      ap (λ q. chain q (none_match b msg n ns ∷ each_matches b msg n os ∷ []))
        (fields_match-test_fields msg n t f)
      ∙ chain-out (fields_match b msg n f) (fits msg t)
          (none_match b msg n ns ∷ each_matches b msg n os ∷ [])

  matches-gather :
      (msg : Message Time) (n : ℕ) (ks : List (Bytes × FlagTest)) (c : SearchCriteria Time)
      → matches_criteria b msg n (gather zero_time parse_date ks c)
        ≡ (matches_criteria b msg n c && all (λ k. fits msg k.1) ks)
  matches-gather msg n [] c = sym (and_true (matches_criteria b msg n c))
  matches-gather msg n (k ∷ ks) c =
      matches-gather msg n ks (on_fields (test_fields zero_time parse_date k.1) c)
      ∙ ap (λ q. q && all (λ l. fits msg l.1) ks) (matches-test_fields msg n k.1 c)
      ∙ sym (and_assoc (matches_criteria b msg n c) (fits msg k.1) (all (λ l. fits msg l.1) ks))

  -- A criterion with no condition.
  matches-blank :
      (msg : Message Time) (n : ℕ)
      → b.is_zero zero_time ≡ true
      → matches_criteria b msg n (blank zero_time) ≡ true
  unfolding matches_criteria fields_match
  matches-blank msg n h = rw h refl

  -- A criterion with nothing but one criterion under `Not`.
  abbrev negation : SearchCriteria Time → SearchCriteria Time
  negation d = criteria (blank_fields zero_time) (add_not d no_nots) no_ors

  matches-negation :
      (msg : Message Time) (n : ℕ) (d : SearchCriteria Time)
      → b.is_zero zero_time ≡ true
      → matches_criteria b msg n (negation d) ≡ not (matches_criteria b msg n d)
  unfolding matches_criteria fields_match
  matches-negation msg n d h = rw h (
      and_true (not (matches_criteria b msg n d) && true)
      ∙ and_true (not (matches_criteria b msg n d)))

  -- The messages with their numbers, and the entries that pass a test.
  abbrev pub numbered_from : ℕ → List (Message Time) → List (ℕ × Message Time)
  numbered_from i [] = []
  numbered_from i (msg ∷ msgs) = (u32 (i + 1), msg) ∷ numbered_from (i + 1) msgs

  abbrev pub passing : (Message Time → Bool) → List (ℕ × Message Time) → List (ℕ × Message Time)
  passing p [] = []
  passing p (e ∷ es) = if p e.1 then e ∷ passing p es else passing p es

  abbrev pub report : NumKind → List (ℕ × Message Time) → List ℕ
  report kind [] = []
  report kind (e ∷ es) = num_of kind e.0 e.1.uid ∷ report kind es

  -- A search finds the messages that pass the test, in the order of the mailbox.
  abbrev pub Finds : SearchCriteria Time → (Message Time → Bool) → Type 0
  Finds c p =
      (kind : NumKind) (mbox : Mailbox Time)
      → search_messages b kind c mbox ≡ report kind (passing p (numbered_from 0 mbox.messages))

  search_loop_lem :
      (c : SearchCriteria Time) (p : Message Time → Bool) (kind : NumKind)
      → ((msg : Message Time) (n : ℕ) → matches_criteria b msg n c ≡ p msg)
      → (i : ℕ) (msgs : List (Message Time))
      → search_loop b kind c i msgs ≡ report kind (passing p (numbered_from i msgs))
  unfolding search_loop
  search_loop_lem c p kind h i [] = refl
  search_loop_lem c p kind h i (msg ∷ msgs) = elim (Bool-cases (p msg)) [
    | inl e ↦
        rw (h msg (u32 (i + 1)), e)
          (ap (◌∷◌ (num_of kind (u32 (i + 1)) msg.uid)) (search_loop_lem c p kind h (i + 1) msgs))
    | inr e ↦ rw (h msg (u32 (i + 1)), e) (search_loop_lem c p kind h (i + 1) msgs)
  ]

  Finds-test :
      (c : SearchCriteria Time) (p : Message Time → Bool)
      → ((msg : Message Time) (n : ℕ) → matches_criteria b msg n c ≡ p msg)
      → Finds c p
  unfolding search_messages
  Finds-test c p h kind mbox = search_loop_lem c p kind h 0 mbox.messages

  abbrev pub ParsedAs : Bytes → SearchCriteria Time → Type 0
  ParsedAs t c = parse_search zero_time parse_date t ≡ ok c []

  gather-blank :
      (msg : Message Time) (n : ℕ) (ks : List (Bytes × FlagTest))
      → b.is_zero zero_time ≡ true
      → matches_criteria b msg n (gather zero_time parse_date ks (blank zero_time))
        ≡ all (λ k. fits msg k.1) ks
  gather-blank msg n ks h =
      matches-gather msg n ks (blank zero_time)
      ∙ ap (λ q. q && all (λ k. fits msg k.1) ks) (matches-blank msg n h)

  -- Words about flags, in any case and with a space between them, are parsed to the end of the text,
  -- and the search with the criteria finds exactly the messages that have, or lack, the flag that each
  -- of the words names, in order, if `IsZero` is true of the zero time. The words are those of the
  -- six system flags, of the lack of five, and OLD for the lack of \Recent.
  pub search-spaced :
      (ks : List (Bytes × FlagTest))
      → All IsFlagWord ks
      → b.is_zero zero_time ≡ true
      → (c : SearchCriteria Time) × ParsedAs (spaced ks) c
        × Finds c (λ msg. all (λ k. fits msg k.1) ks)
  unfolding parse_search parse_from
  search-spaced ks h z =
      let c = gather zero_time parse_date ks (blank zero_time) in
      (
        c,
        parse_from-spaced zero_time parse_date ks (blank zero_time) h,
        Finds-test c (λ msg. all (λ k. fits msg k.1) ks) (λ msg n. gather-blank msg n ks z),
      )

  -- `NOT` before words about flags: all of them are under it, so that the search finds the messages
  -- that fail one of them at least.
  pub search-not :
      (w : Bytes) (ks : List (Bytes × FlagTest))
      → IsWordFor not_key w
      → All IsFlagWord ks
      → b.is_zero zero_time ≡ true
      → (c : SearchCriteria Time) × ParsedAs (w ++ b' ' ∷ spaced ks) c
        × Finds c (λ msg. not (all (λ k. fits msg k.1) ks))
  unfolding parse_search parse_from snoc_not
  search-not w ks hw h z =
      let d = gather zero_time parse_date ks (blank zero_time) in
      (
        negation d,
        parse_from-not zero_time parse_date (blank zero_time) d w (spaced ks) hw
            (parse_from-spaced zero_time parse_date ks (blank zero_time) h),
        Finds-test (negation d) (λ msg. not (all (λ k. fits msg k.1) ks))
            (λ msg n. matches-negation msg n d z ∙ ap not (gather-blank msg n ks z)),
      )
