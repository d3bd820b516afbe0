-- ===== src/Server/Commands/Search/Keys.antt =====
-- What the keys of a search about flags mean, and `NOT` and the keys that the parser does not know.
use mathlib.Core.List.{cons-ne-nil}
use imap_go.Imap.NumSet.Parse.{SetError, parse_set}
use imap_go.Imap.Search.{Fields, SearchCriteria, blank, on_fields}
use imap_go.MemServer.Message.{Flag}
use imap_go.Prelude.Result.{Result}
use imap_go.Prelude.{
  List, [], ◌∷◌, ◌++◌, append-nil, ◌≡◌, ◌≢◌, refl, sym, ap, ◌∙◌, Bytes, Option, none, some, All,
  lookup, to_upper, codes, equal,
}
use imap_go.Server.Commands.Search.{
  KeyAction, not_key, flag_key, not_flag_key, search_keys, with_arg, add_flag, add_not_flag,
  add_not_criteria, set_or_skip, act, act_on, after_space, parse_search,
}
use imap_go.Server.Commands.Search.Ends.{parse_from, parse_from-key}
use imap_go.Wire.Atom.{IsAtom, Stops}
use imap_go.Wire.Chars.{is_atom_char}
use imap_go.Wire.Decoder.{read_sp, expect_byte}
use imap_go.Wire.Reader.{Reader, ok, continue, read_byte}

-- A key that asks for a flag, or for the lack of one.
pub data FlagTest : Type 0 where
  has lacks : Flag → FlagTest

abbrev action_of : FlagTest → KeyAction
action_of (has flag) = flag_key flag
action_of (lacks flag) = not_flag_key flag

-- A word that the parser knows, in any case, for the action.
abbrev pub IsWordFor : KeyAction → Bytes → Type 0
IsWordFor k w = (w ≢ []) × IsAtom w × (lookup (to_upper w) search_keys ≡ some k)

-- The words about flags, as RFC 3501 has them, with the flag that each asks for, or the lack of it.
pub data Names : Bytes → FlagTest → Type 0 where
  answered : Names (codes "ANSWERED") (has (codes "\\Answered"))
  deleted : Names (codes "DELETED") (has (codes "\\Deleted"))
  draft : Names (codes "DRAFT") (has (codes "\\Draft"))
  flagged : Names (codes "FLAGGED") (has (codes "\\Flagged"))
  seen : Names (codes "SEEN") (has (codes "\\Seen"))
  recent : Names (codes "RECENT") (has (codes "\\Recent"))
  unanswered : Names (codes "UNANSWERED") (lacks (codes "\\Answered"))
  undeleted : Names (codes "UNDELETED") (lacks (codes "\\Deleted"))
  undraft : Names (codes "UNDRAFT") (lacks (codes "\\Draft"))
  unflagged : Names (codes "UNFLAGGED") (lacks (codes "\\Flagged"))
  unseen : Names (codes "UNSEEN") (lacks (codes "\\Seen"))
  old : Names (codes "OLD") (lacks (codes "\\Recent"))

-- One of the words, in any case.
abbrev pub IsFlagWord : Bytes × FlagTest → Type 0
IsFlagWord (w, t) = IsAtom w × Names (to_upper w) t

lookup-Names : (u : Bytes) (t : FlagTest) → Names u t → lookup u search_keys ≡ some (action_of t)
unfolding lookup equal
lookup-Names u t answered = refl
lookup-Names u t deleted = refl
lookup-Names u t draft = refl
lookup-Names u t flagged = refl
lookup-Names u t seen = refl
lookup-Names u t recent = refl
lookup-Names u t unanswered = refl
lookup-Names u t undeleted = refl
lookup-Names u t undraft = refl
lookup-Names u t unflagged = refl
lookup-Names u t unseen = refl
lookup-Names u t old = refl

no_empty_name : (t : FlagTest) → Names [] t → ⊥
unfolding lookup equal
no_empty_name t n = some-none (lookup-Names [] t n)
  where
    some-none : none ≡ some (action_of t) → ⊥
    some-none e = cc

IsFlagWord-ne : (w : Bytes) (t : FlagTest) → IsFlagWord (w, t) → w ≢ []
unfolding to_upper
IsFlagWord-ne [] t (h, n) e = no_empty_name t n
IsFlagWord-ne (c ∷ w) t h e = cons-ne-nil c w e

word_for : (w : Bytes) (t : FlagTest) → IsFlagWord (w, t) → IsWordFor (action_of t) w
word_for w t h = (IsFlagWord-ne w t h, h.0, lookup-Names (to_upper w) t h.1)

-- The words with a space between them.
abbrev pub spaced : List (Bytes × FlagTest) → Bytes
spaced [] = []
spaced (k ∷ []) = k.0
spaced (k ∷ l ∷ ks) = k.0 ++ b' ' ∷ spaced (l ∷ ks)

-- A word that the parser does not know.
abbrev pub IsUnknown : Bytes → Type 0
IsUnknown w =
    (w ≢ [])
    × IsAtom w
    × (lookup (to_upper w) search_keys ≡ none)
    × ((e : SetError) × (parse_set w ≡ Result.err e))

module _ {Time : Type 0} (zero_time : Time) (parse_date : Bytes → Option Time) where
  abbrev pub test_fields : FlagTest → Fields Time → Fields Time
  test_fields (has flag) f = add_flag zero_time parse_date flag f
  test_fields (lacks flag) f = add_not_flag zero_time parse_date flag f

  -- The criteria with the tests in the order of the words.
  abbrev pub gather : List (Bytes × FlagTest) → SearchCriteria Time → SearchCriteria Time
  gather [] c = c
  gather (k ∷ ks) c = gather ks (on_fields (test_fields k.1) c)

  abbrev pub from : SearchCriteria Time → Reader (SearchCriteria Time)
  from c t = parse_from zero_time parse_date c t

  -- The loop behind a key.
  abbrev behind : SearchCriteria Time → Reader (SearchCriteria Time)
  behind d u = after_space zero_time parse_date from d (read_sp u)

  act_on-FlagTest :
      (sub : Reader (SearchCriteria Time)) (t : FlagTest) (w : Bytes) (c : SearchCriteria Time)
      (s : Bytes)
      → act_on zero_time parse_date sub (some (action_of t)) w c s
        ≡ ok (on_fields (test_fields t) c) s
  unfolding act_on act
  act_on-FlagTest sub (has flag) w c s = refl
  act_on-FlagTest sub (lacks flag) w c s = refl

  after_key-word :
      (k : KeyAction) (c : SearchCriteria Time) (w rest : Bytes)
      → IsWordFor k w
      → Stops rest
      → from c (w ++ rest)
        ≡ continue (act_on zero_time parse_date (from (blank zero_time)) (some k) w c rest) behind
  after_key-word k c w rest (ne, h, e) st =
      parse_from-key zero_time parse_date c w rest ne h st
      ∙ ap (λ a. continue (act_on zero_time parse_date (from (blank zero_time)) a w c rest) behind)
          e

  pub parse_from-flag_word :
      (k : Bytes × FlagTest) (c : SearchCriteria Time) (t : Bytes)
      → IsFlagWord k
      → from c (k.0 ++ b' ' ∷ t) ≡ from (on_fields (test_fields k.1) c) t
  unfolding read_sp expect_byte read_byte is_atom_char
  parse_from-flag_word (w, k) c t h =
      after_key-word (action_of k) c w (b' ' ∷ t) (word_for w k h) refl
      ∙ ap (λ r. continue r behind) (act_on-FlagTest (from (blank zero_time)) k w c (b' ' ∷ t))

  parse_from-last_word :
      (k : Bytes × FlagTest) (c : SearchCriteria Time)
      → IsFlagWord k
      → from c k.0 ≡ ok (on_fields (test_fields k.1) c) []
  unfolding read_sp expect_byte read_byte
  parse_from-last_word (w, k) c h =
      ap (from c) (sym (append-nil w))
      ∙ after_key-word (action_of k) c w [] (word_for w k h) tt
      ∙ ap (λ r. continue r behind) (act_on-FlagTest (from (blank zero_time)) k w c [])

  pub parse_from-spaced :
      (ks : List (Bytes × FlagTest)) (c : SearchCriteria Time)
      → All IsFlagWord ks
      → from c (spaced ks) ≡ ok (gather ks c) []
  unfolding parse_from
  parse_from-spaced [] c h = refl
  parse_from-spaced (k ∷ []) c (h, hs) = parse_from-last_word k c h
  parse_from-spaced (k ∷ l ∷ ks) c (h, hs) =
      parse_from-flag_word k c (spaced (l ∷ ks)) h
      ∙ parse_from-spaced (l ∷ ks) (on_fields (test_fields k.1) c) hs

  -- `NOT` takes everything behind it.
  pub parse_from-not :
      (c d : SearchCriteria Time) (w t : Bytes)
      → IsWordFor not_key w
      → from (blank zero_time) t ≡ ok d []
      → from c (w ++ b' ' ∷ t) ≡ ok (add_not_criteria zero_time parse_date d c) []
  unfolding act_on act with_arg read_sp expect_byte read_byte is_atom_char
  parse_from-not c d w t h e =
      after_key-word not_key c w (b' ' ∷ t) h refl
      ∙ ap
          (λ r.
            continue (continue r (λ a u. ok (add_not_criteria zero_time parse_date a c) u)) behind)
          e

  pub parse_from-unknown :
      (c : SearchCriteria Time) (w t : Bytes) → IsUnknown w → from c (w ++ b' ' ∷ t) ≡ from c t
  unfolding act_on read_sp expect_byte read_byte is_atom_char
  parse_from-unknown c w t (ne, h, e, (x, k)) =
      parse_from-key zero_time parse_date c w (b' ' ∷ t) ne h refl
      ∙ ap
          (λ a.
            continue (act_on zero_time parse_date (from (blank zero_time)) a w c (b' ' ∷ t)) behind)
          e
      ∙ ap (λ r. behind (set_or_skip zero_time parse_date r c) (b' ' ∷ t)) k

  -- A word that is neither a key nor a number set, as `OR` is, is passed over.
  pub parse_search-unknown :
      (w t : Bytes)
      → IsUnknown w
      → parse_search zero_time parse_date (w ++ b' ' ∷ t) ≡ parse_search zero_time parse_date t
  unfolding parse_search parse_from
  parse_search-unknown w t h = parse_from-unknown (blank zero_time) w t h
