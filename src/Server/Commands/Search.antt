-- ===== src/Server/Commands/Search.antt =====
-- `parseSearchCriteria` of server/commands/search.go. `parse_date` is `time.Parse` with the layout
-- "2-Jan-2006", and the reader is the decoder of the line's rest.
use imap_go.Imap.NumSet.Parse.{SetError, parse_set}
use imap_go.Imap.NumSet.{NumSet}
use imap_go.Imap.Search.{
  SearchCriteriaModSeq, Fields, SearchCriteria, criteria, Nots, no_nots, blank, on_fields, snoc_not,
}
use imap_go.MemServer.Message.{
  Flag, flag_seen, flag_answered, flag_flagged, flag_deleted, flag_draft, flag_recent,
}
use imap_go.Prelude.Result
use imap_go.Prelude.Result.{Result}
use imap_go.Prelude.{
  ℕ, zero, suc, ◌+◌, ℤ, to_int64, List, [], ◌∷◌, ◌++◌, Option, none, some, Bytes, codes, equal,
  to_upper, to_lower, length, lookup, ◌==◌, if◌then◌else◌,
}
use imap_go.Wire.Decoder.{read_sp, read_atom, read_astring, read_quoted_string, read_number64}
use imap_go.Wire.Reader.{
  Error, eof, bad_set, bad_date, out_of_fuel, Out, ok, err, Reader, ◌>>=◌, ◌>>◌, continue, pure,
  fail, peek_byte,
}
pub mod Keys
pub mod Ends
pub mod Forward

-- What a key does, one for each kind of branch of the switch.
pub data KeyAction : Type 0 where
  all_key new_key keyword unkeyword larger_key smaller_key body_key text_key : KeyAction
  any_header uid_key mod_seq_key not_key : KeyAction
  saved_before_key saved_since_key saved_on_key : KeyAction
  flag_key not_flag_key : Flag → KeyAction
  header_key : Bytes → KeyAction

-- The cases of the switch.
abbrev pub search_keys : List (Bytes × KeyAction)
search_keys =
    (codes "ALL", all_key)
    ∷ (codes "ANSWERED", flag_key flag_answered)
    ∷ (codes "DELETED", flag_key flag_deleted)
    ∷ (codes "DRAFT", flag_key flag_draft)
    ∷ (codes "FLAGGED", flag_key flag_flagged)
    ∷ (codes "SEEN", flag_key flag_seen)
    ∷ (codes "RECENT", flag_key flag_recent)
    ∷ (codes "UNANSWERED", not_flag_key flag_answered)
    ∷ (codes "UNDELETED", not_flag_key flag_deleted)
    ∷ (codes "UNDRAFT", not_flag_key flag_draft)
    ∷ (codes "UNFLAGGED", not_flag_key flag_flagged)
    ∷ (codes "UNSEEN", not_flag_key flag_seen)
    ∷ (codes "NEW", new_key)
    ∷ (codes "OLD", not_flag_key flag_recent)
    ∷ (codes "KEYWORD", keyword)
    ∷ (codes "UNKEYWORD", unkeyword)
    ∷ (codes "LARGER", larger_key)
    ∷ (codes "SMALLER", smaller_key)
    ∷ (codes "BODY", body_key)
    ∷ (codes "TEXT", text_key)
    ∷ (codes "SUBJECT", header_key (codes "Subject"))
    ∷ (codes "FROM", header_key (codes "From"))
    ∷ (codes "TO", header_key (codes "To"))
    ∷ (codes "CC", header_key (codes "Cc"))
    ∷ (codes "BCC", header_key (codes "Bcc"))
    ∷ (codes "HEADER", any_header)
    ∷ (codes "UID", uid_key)
    ∷ (codes "MODSEQ", mod_seq_key)
    ∷ (codes "SAVEDBEFORE", saved_before_key)
    ∷ (codes "SAVEDSINCE", saved_since_key)
    ∷ (codes "SAVEDON", saved_on_key)
    ∷ (codes "NOT", not_key)
    ∷ []

-- A space, and what the reader gives to the update.
unfoldable pub with_arg : {A B : Type 0} → Reader A → (A → B) → Reader B
with_arg m f = do read_sp; a ← m; pure (f a)

unfoldable pub lift_set : Result SetError NumSet → Reader NumSet
lift_set (Result.ok ss) = pure ss
lift_set (Result.err e) = fail bad_set

unfoldable pub read_header : Reader (Bytes × Bytes)
unfolding read_astring
read_header = do key ← read_astring; read_sp; value ← read_astring; pure (key, value)

unfoldable pub read_uid_set : Reader NumSet
unfolding lift_set
read_uid_set = do s ← read_atom; lift_set (parse_set s)

-- `MODSEQ`, with the name and the type of an entry or without.
unfoldable pub read_entry : Reader (Bytes × Bytes)
unfolding read_quoted_string
read_entry = do
  entry_name ← read_quoted_string
  read_sp
  entry_type ← read_atom
  read_sp
  pure (entry_name, to_lower entry_type)

unfoldable pub read_mod_seq : Reader SearchCriteriaModSeq
unfolding read_entry peek_byte
read_mod_seq = do
  b ← peek_byte
  entry ← if b == b'"' then read_entry else pure ([], [])
  n ← read_number64
  pure (record { mod_seq = n; metadata_name = entry.0; metadata_type = entry.1 })

module _ {Time : Type 0} (zero_time : Time) (parse_date : Bytes → Option Time) where
  abbrev pub lift_date : Option Time → Reader Time
  lift_date none = fail bad_date
  lift_date (some t) = pure t

  unfoldable pub read_date : Reader Time
  unfolding read_astring
  read_date = do s ← read_astring; lift_date (parse_date s)

  abbrev pub add_flag : Flag → Fields Time → Fields Time
  add_flag flag c = record c { flag = c.flag ++ flag ∷ [] }

  abbrev pub add_not_flag : Flag → Fields Time → Fields Time
  add_not_flag flag c = record c { not_flag = c.not_flag ++ flag ∷ [] }

  abbrev pub add_header : Bytes × Bytes → Fields Time → Fields Time
  add_header hdr c = record c { header = c.header ++ hdr ∷ [] }

  abbrev pub add_not_criteria : SearchCriteria Time → SearchCriteria Time → SearchCriteria Time
  add_not_criteria sub (criteria f ns os) = criteria f (snoc_not ns sub) os

  -- The body of a case; `sub` is the recursive call for `NOT`.
  unfoldable pub act :
      Reader (SearchCriteria Time) → KeyAction → SearchCriteria Time → Reader (SearchCriteria Time)
  unfolding with_arg read_header read_uid_set read_mod_seq read_date read_number64 read_astring
  act sub all_key c = pure c
  act sub (flag_key flag) c = pure (on_fields (add_flag flag) c)
  act sub (not_flag_key flag) c = pure (on_fields (add_not_flag flag) c)
  act sub new_key c = pure (on_fields (λ f. add_not_flag flag_seen (add_flag flag_recent f)) c)
  act sub keyword c = with_arg read_atom (λ kw. on_fields (add_flag kw) c)
  act sub unkeyword c = with_arg read_atom (λ kw. on_fields (add_not_flag kw) c)
  act sub larger_key c =
      with_arg read_number64 (λ n. on_fields (λ f. record f { larger = to_int64 n }) c)
  act sub smaller_key c =
      with_arg read_number64 (λ n. on_fields (λ f. record f { smaller = to_int64 n }) c)
  act sub body_key c =
      with_arg read_astring (λ s. on_fields (λ f. record f { body = f.body ++ s ∷ [] }) c)
  act sub text_key c =
      with_arg read_astring (λ s. on_fields (λ f. record f { text = f.text ++ s ∷ [] }) c)
  act sub (header_key key) c = with_arg read_astring (λ s. on_fields (add_header (key, s)) c)
  act sub any_header c = with_arg read_header (λ hdr. on_fields (add_header hdr) c)
  act sub uid_key c = with_arg read_uid_set (λ ss. on_fields (λ f. record f { uid = some ss }) c)
  act sub mod_seq_key c =
      with_arg read_mod_seq (λ m. on_fields (λ f. record f { mod_seq = some m }) c)
  act sub saved_before_key c =
      with_arg read_date (λ t. on_fields (λ f. record f { saved_before = t }) c)
  act sub saved_since_key c =
      with_arg read_date (λ t. on_fields (λ f. record f { saved_since = t }) c)
  act sub saved_on_key c = with_arg read_date (λ t. on_fields (λ f. record f { saved_on = t }) c)
  act sub not_key c = with_arg sub (λ d. add_not_criteria d c)

  -- The case `default`.
  abbrev pub set_or_skip : Result SetError NumSet → SearchCriteria Time → SearchCriteria Time
  set_or_skip (Result.ok ss) c = on_fields (λ f. record f { seq_num = some ss }) c
  set_or_skip (Result.err e) c = c

  unfoldable pub act_on :
      Reader (SearchCriteria Time)
      → Option KeyAction
      → Bytes
      → SearchCriteria Time
      → Reader (SearchCriteria Time)
  unfolding act
  act_on sub (some action) key c = act sub action c
  act_on sub none key c = pure (set_or_skip (parse_set key) c)

  -- Behind a key: its space, or the end.
  abbrev pub after_space :
      (SearchCriteria Time → Reader (SearchCriteria Time))
      → SearchCriteria Time
      → Out (Unit {0})
      → Out (SearchCriteria Time)
  after_space go c (ok x s) = go c s
  after_space go c (err e s) = ok c s

  abbrev pub after_key :
      (SearchCriteria Time → Reader (SearchCriteria Time))
      → SearchCriteria Time
      → Out Bytes
      → Out (SearchCriteria Time)
  after_key go c (err e s) = ok c s
  after_key go c (ok key s) =
      continue (act_on (go (blank zero_time)) (lookup (to_upper key) search_keys) key c s)
        (λ c' t. after_space go c' (read_sp t))

  -- One unit of fuel for each key.
  unfoldable pub parse_search_criteria : ℕ → SearchCriteria Time → Reader (SearchCriteria Time)
  unfolding act_on read_sp read_atom
  parse_search_criteria zero c s = err out_of_fuel s
  parse_search_criteria (suc fuel) c [] = ok c []
  parse_search_criteria (suc fuel) c (b ∷ s) =
      let go = λ (d : SearchCriteria Time). parse_search_criteria fuel d in
      if b == b')' then ok c (b ∷ s) else after_key go c (read_atom (b ∷ s))

  -- The length of the text is fuel enough.
  unfoldable pub parse_search : Reader (SearchCriteria Time)
  unfolding parse_search_criteria
  parse_search s = parse_search_criteria (length s + 1) (blank zero_time) s
