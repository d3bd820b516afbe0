-- ===== src/Tests/Search.antt =====
-- Searches at concrete inputs: time is a number, and there are no headers.
use imap_go.Imap.Search.{SearchCriteria, blank}
use imap_go.MemServer.Message.{flag_seen, flag_deleted}
use imap_go.MemServer.Search.{Backend}
use imap_go.MemServer.Search.Meets.{ParsedAs, Finds, fits, search-spaced, search-not}
use imap_go.Prelude.{
  ℕ, false, not, List, [], ◌∷◌, ◌++◌, ◌≡◌, refl, Option, none, some, Bytes, codes, all, ltb, ◌==◌,
  lookup, to_upper, All, equal,
}
use imap_go.Imap.NumSet.Parse.{parse_set, parse_num_set, parse_range, parse_seq_num}
use imap_go.Prelude.Split.{split, index_byte, trim_space}
use imap_go.Wire.Atom.{needs_quoting-IsAtom}
use imap_go.Wire.Chars.{is_atom_char, needs_quoting}
use imap_go.Wire.Decimal.{parse_uint}
use imap_go.Server.Commands.Search.{KeyAction, not_key, search_keys, parse_search}
use imap_go.Server.Commands.Search.Ends.{parse_search-Leaves}
use imap_go.Server.Commands.Search.Keys.{
  IsWordFor, IsFlagWord, IsUnknown, Names, FlagTest, has, lacks, spaced, parse_search-unknown,
}
use imap_go.Wire.Reader.{ok}
use imap_go.Wire.Suffix.{Leaves}

abbrev numbers : Backend ℕ
numbers = record {
  is_zero = λ t. t == 0;
  is_before = ltb;
  same_day = λ s t. s == t;
  header_of = λ body. none;
  sent_date = λ body. 0;
}

abbrev no_date : Bytes → Option ℕ
no_date s = none

abbrev words : List (Bytes × FlagTest)
words = (codes "seen", has flag_seen) ∷ (codes "UNDELETED", lacks flag_deleted) ∷ []

known :
    (k : KeyAction) (w : Bytes)
    → needs_quoting w ≡ false
    → lookup (to_upper w) search_keys ≡ some k
    → IsWordFor k w
known k w h e = let (ne, atom) = needs_quoting-IsAtom w h in (ne, atom, e)

words-IsFlagWord : All IsFlagWord words
unfolding to_upper is_atom_char needs_quoting
words-IsFlagWord = (
  ((needs_quoting-IsAtom (codes "seen") refl).1, Names.seen),
  (((needs_quoting-IsAtom (codes "UNDELETED") refl).1, Names.undeleted), tt),
)

not-IsWord : IsWordFor not_key (codes "NOT")
unfolding lookup equal to_upper is_atom_char needs_quoting
not-IsWord = known not_key (codes "NOT") refl refl

or-IsUnknown : IsUnknown (codes "OR")
unfolding lookup equal to_upper is_atom_char needs_quoting parse_num_set split parse_range
    trim_space index_byte parse_seq_num parse_uint parse_set
or-IsUnknown =
    let (ne, atom) = needs_quoting-IsAtom (codes "OR") refl in (ne, atom, refl, (_, refl))

parse_search-Leaves_example :
    Leaves
      (codes "NOT UNSEEN SUBJECT {3}")
      (parse_search 0 no_date (codes "NOT UNSEEN SUBJECT {3}"))
parse_search-Leaves_example = parse_search-Leaves 0 no_date (codes "NOT UNSEEN SUBJECT {3}")

search-spaced_example :
    (c : SearchCriteria ℕ) × ParsedAs 0 no_date numbers (spaced words) c
    × Finds 0 no_date numbers c (λ msg. all (λ k. fits 0 no_date numbers msg k.1) words)
search-spaced_example = search-spaced 0 no_date numbers words words-IsFlagWord refl

search-not_example :
    (c : SearchCriteria ℕ) × ParsedAs 0 no_date numbers (codes "NOT" ++ b' ' ∷ spaced words) c
    × Finds 0 no_date numbers c (λ msg. not (all (λ k. fits 0 no_date numbers msg k.1) words))
search-not_example =
    search-not 0 no_date numbers (codes "NOT") words not-IsWord words-IsFlagWord refl

parse_search-unknown_example :
    parse_search 0 no_date (codes "OR" ++ b' ' ∷ codes "SEEN DELETED")
    ≡ parse_search 0 no_date (codes "SEEN DELETED")
parse_search-unknown_example =
    parse_search-unknown 0 no_date (codes "OR") (codes "SEEN DELETED") or-IsUnknown

-- The atom ends at the star, and `1:` is no set, so that the criteria stay empty.
star_passed_over : parse_search 0 no_date (codes "1:*") ≡ ok (blank 0) []
unfolding parse_search is_atom_char lookup equal to_upper parse_set split parse_range trim_space
    index_byte parse_seq_num parse_uint
star_passed_over = refl
