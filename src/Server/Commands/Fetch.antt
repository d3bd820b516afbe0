-- ===== src/Server/Commands/Fetch.antt =====
-- The parser of the items of a FETCH, server/commands/fetch.go.
use imap_go.Imap.Fetch.{
  SectionPartial, FetchItemBodySection, FetchItemBinarySection, FetchOptions, no_section,
  no_options,
}
use imap_go.Prelude.Split.{cut, split, split_n}
use imap_go.Prelude.{
  ℕ, zero, suc, ◌+◌, ◌-◌, ◌^◌, ℤ, pos, negsuc, Bool, true, false, ◌||◌, List, [], ◌∷◌, ◌++◌, Option,
  none, some, Bytes, codes, equal, has_prefix, to_upper, lookup, length, drop, leb, ltb, ◌==◌,
  if◌then◌else◌,
}
use imap_go.Wire.Decimal.{ParsedUint, parsed, bad_syntax, out_of_range, parse_uint}
use imap_go.Wire.Decoder.{read_sp, read_atom, read_astring, expect_byte, max_uint64}
use imap_go.Wire.ListReader.{read_list}
use imap_go.Wire.Reader.{
  Error, eof, out_of_fuel, Out, ok, err, Reader, continue, ◌>>=◌, ◌>>◌, pure, peek_byte,
}
pub mod Hangs

-- `strconv.ParseInt` with base 10 and 64 bits, and `strconv.Atoi`.
abbrev signed : Bool → ParsedUint → Option ℤ
signed negative bad_syntax = none
signed negative out_of_range = none
signed false (parsed n) = if ltb n (2 ^ 63) then some (pos n) else none
signed true (parsed zero) = some (pos 0)
signed true (parsed (suc n)) = if ltb n (2 ^ 63) then some (negsuc n) else none

unfoldable pub parse_int : Bytes → Option ℤ
unfolding parse_uint
parse_int [] = none
parse_int (c ∷ s) =
    if c == b'-'
    then signed true (parse_uint max_uint64 s)
    else if c == b'+'
    then signed false (parse_uint max_uint64 s)
    else signed false (parse_uint max_uint64 (c ∷ s))

abbrev push_some : Option ℤ → List ℤ → List ℤ
push_some none ns = ns
push_some (some n) ns = n ∷ ns

unfoldable pub parse_parts : List Bytes → List ℤ
unfolding parse_int
parse_parts [] = []
parse_parts (p ∷ ps) = push_some (parse_int p) (parse_parts ps)

unfoldable pub parse_binary_part : Bytes → List ℤ
unfolding parse_parts split
parse_binary_part [] = []
parse_binary_part (c ∷ s) = parse_parts (split b'.' (c ∷ s))

-- What an ignored result leaves of the stream.
abbrev pub rest_of {ℓ} : {A : Type ℓ} → Out A → Bytes
rest_of (ok a s) = s
rest_of (err e s) = s

-- The loop that passes over `<offset.count>`; the source has no bound on its rounds.
unfoldable pub skip_loop : ℕ → Reader (Unit {0})
unfolding read_atom expect_byte
skip_loop zero s = err out_of_fuel s
skip_loop (suc fuel) [] = ok tt []
skip_loop (suc fuel) (ch ∷ s) =
    let rest = skip_loop fuel (rest_of (read_atom (ch ∷ s))) in
    if ch == b'>' then ok tt (rest_of (expect_byte b'>' (ch ∷ s))) else rest

-- The check for a partial range behind a section.
unfoldable pub skip_partial : ℕ → Reader (Unit {0})
unfolding skip_loop
skip_partial fuel [] = ok tt []
skip_partial fuel (b ∷ s) = if b == b'<' then skip_loop fuel (b ∷ s) else ok tt (b ∷ s)

abbrev partial_of : Option ℤ → Option ℤ → Option SectionPartial
partial_of (some offset) (some count) = some (record { offset = offset; count = count })
partial_of (some offset) none = none
partial_of none count = none

abbrev two_parts : List Bytes → Option SectionPartial
two_parts (a ∷ b ∷ []) = partial_of (parse_int a) (parse_int b)
two_parts _ = none

abbrev after_partial : Out Bytes → Out (Option SectionPartial)
after_partial (err e s) = ok none s
after_partial (ok atom s) = ok (two_parts (split_n 1 b'.' atom)) (rest_of (expect_byte b'>' s))

unfoldable pub consume_partial : Reader (Option SectionPartial)
unfolding parse_int split_n read_atom expect_byte
consume_partial [] = ok none []
consume_partial (b ∷ s) =
    if b == b'<'
    then after_partial (read_atom (rest_of (expect_byte b'<' (b ∷ s))))
    else ok none (b ∷ s)

unfoldable pub read_field : List Bytes → Reader (List Bytes)
unfolding read_astring
read_field fields = do field ← read_astring; pure (fields ++ field ∷ [])

unfoldable pub read_field_list : Reader (List Bytes)
unfolding read_list read_field
read_field_list = read_list read_field []

-- A space and a list of fields, for the section.
unfoldable pub with_fields : (List Bytes → FetchItemBodySection) → Reader FetchItemBodySection
unfolding read_sp read_field_list
with_fields f = do read_sp; fields ← read_field_list; pure (f fields)

-- The switch on the name of a section in upper case, in `parseFetchBodySection` and
-- `parseFetchBodySectionFromAtom`.
unfoldable pub read_section : Bytes → FetchItemBodySection → Reader FetchItemBodySection
unfolding with_fields equal has_prefix
read_section name section =
    if equal name (codes "HEADER") || equal name (codes "TEXT") || equal name (codes "MIME")
    then pure (record section { specifier = name })
    else if has_prefix (codes "HEADER.FIELDS.NOT") name
    then with_fields (λ fields. record section {
      specifier = codes "HEADER.FIELDS.NOT";
      not_fields = true;
      fields = fields;
    })
    else if has_prefix (codes "HEADER.FIELDS") name
    then with_fields
        (λ fields. record section { specifier = codes "HEADER.FIELDS"; fields = fields })
    else pure section

-- The end of a section: its bracket, and a partial range that is passed over.
unfoldable pub close_section : ℕ → FetchItemBodySection → Reader FetchItemBodySection
unfolding expect_byte skip_partial
close_section fuel section = do expect_byte b']'; skip_partial fuel; pure section

abbrev behind_bracket : Bytes → Option (Bytes × Bytes) → Bytes
behind_bracket item none = item
behind_bracket item (some (a, b)) = b

-- `parseFetchBodySectionFromAtom`; an item without a bracket is taken whole, its index being -1.
unfoldable pub body_section_from_atom : ℕ → Bytes → Bool → Reader FetchItemBodySection
unfolding cut to_upper read_section close_section
body_section_from_atom fuel item peek = do
  section ←
      read_section (to_upper (behind_bracket item (cut b'[' item)))
        (record no_section { peek = peek })
  close_section fuel section

abbrev section_name : FetchItemBodySection → Reader FetchItemBodySection
section_name section [] = err eof []
section_name section (b ∷ s) =
    if b == b']'
    then ok section (b ∷ s)
    else continue (read_atom (b ∷ s)) (λ spec. read_section (to_upper spec) section)

-- `parseFetchBodySection`.
unfoldable pub body_section : ℕ → Bool → Reader FetchItemBodySection
unfolding expect_byte read_atom to_upper read_section close_section
body_section fuel peek = do
  expect_byte b'['
  section ← section_name (record no_section { peek = peek })
  close_section fuel section

-- The items that set members of the options and read nothing more.
abbrev fast : FetchOptions → FetchOptions
fast o = record o { flags = true; internal_date = true; rfc822_size = true }

abbrev pub add_body : FetchItemBodySection → FetchOptions → FetchOptions
add_body section o = record o { body_section = o.body_section ++ section ∷ [] }

abbrev add_binary : FetchItemBinarySection → FetchOptions → FetchOptions
add_binary section o = record o { binary_section = o.binary_section ++ section ∷ [] }

abbrev pub plain_items : List (Bytes × (FetchOptions → FetchOptions))
plain_items =
    (codes "ALL", λ o. record (fast o) { envelope = true })
    ∷ (codes "FAST", fast)
    ∷ (codes "FULL", λ o. record (fast o) { envelope = true; body_structure = true })
    ∷ (codes "ENVELOPE", λ o. record o { envelope = true })
    ∷ (codes "FLAGS", λ o. record o { flags = true })
    ∷ (codes "INTERNALDATE", λ o. record o { internal_date = true })
    ∷ (codes "RFC822.SIZE", λ o. record o { rfc822_size = true })
    ∷ (codes "UID", λ o. record o { uid = true })
    ∷ (codes "BODYSTRUCTURE", λ o. record o { body_structure = true })
    ∷ (codes "MODSEQ", λ o. record o { mod_seq = true })
    ∷ (codes "PREVIEW", λ o. record o { preview = true })
    ∷ (codes "EMAILID", λ o. record o { email_id = true })
    ∷ (codes "THREADID", λ o. record o { thread_id = true })
    ∷ (codes "SAVEDATE", λ o. record o { save_date = true })
    ∷ (codes "RFC822", add_body no_section)
    ∷ (
      codes "RFC822.HEADER",
      add_body (record no_section { specifier = codes "HEADER"; peek = true }),
    )
    ∷ (codes "RFC822.TEXT", add_body (record no_section { specifier = codes "TEXT" }))
    ∷ []

-- An item `BINARY[` or `BINARY.PEEK[`, whose parts stand behind the prefix.
unfoldable pub read_binary : Bytes → Bytes → Bool → FetchOptions → Reader FetchOptions
unfolding expect_byte consume_partial parse_binary_part
read_binary prefix item peek o = do
  expect_byte b']'
  partial ← consume_partial
  pure (
      add_binary
        (record {
          part = parse_binary_part (drop (length prefix) item);
          peek = peek;
          partial = partial;
        })
        o)

unfoldable pub read_binary_size : Bytes → FetchOptions → Reader FetchOptions
unfolding expect_byte parse_binary_part
read_binary_size item o = do
  expect_byte b']'
  pure (record o {
    binary_size_section =
        o.binary_size_section ++ parse_binary_part (drop (length (codes "BINARY.SIZE[")) item) ∷ [];
  })

abbrev read_body : Reader FetchItemBodySection → FetchOptions → Reader FetchOptions
read_body m o = do section ← m; pure (add_body section o)

-- `BODY` and `BODY.PEEK`, which a bracket may follow, and else what the item does without.
unfoldable pub body_or : ℕ → Bool → FetchOptions → FetchOptions → Reader FetchOptions
unfolding body_section
body_or fuel peek bare o [] = ok bare []
body_or fuel peek bare o (b ∷ s) =
    if b == b'[' then read_body (body_section fuel peek) o (b ∷ s) else ok bare (b ∷ s)

-- The cases of the switch that are no fixed text, and the bare `BODY`.
unfoldable pub other_item : ℕ → Bytes → FetchOptions → Reader FetchOptions
unfolding body_section_from_atom body_or read_binary read_binary_size has_prefix equal to_upper
other_item fuel item o =
    let upper = to_upper item in
    if has_prefix (codes "BODY.PEEK[") upper
    then read_body (body_section_from_atom fuel item true) o
    else if has_prefix (codes "BODY[") upper
    then read_body (body_section_from_atom fuel item false) o
    else if equal upper (codes "BODY.PEEK")
    then body_or fuel true o o
    else if equal upper (codes "BODY")
    then body_or fuel false (record o { body_structure = true }) o
    else if has_prefix (codes "BINARY.SIZE[") upper
    then read_binary_size item o
    else if has_prefix (codes "BINARY.PEEK[") upper
    then read_binary (codes "BINARY.PEEK[") item true o
    else if has_prefix (codes "BINARY[") upper
    then read_binary (codes "BINARY[") item false o
    else pure o

unfoldable pub item_at :
    ℕ → Option (FetchOptions → FetchOptions) → Bytes → FetchOptions → Reader FetchOptions
unfolding other_item
item_at fuel (some set) item o = pure (set o)
item_at fuel none item o = other_item fuel item o

-- `parseSingleFetchItem`.
unfoldable pub parse_single_fetch_item : ℕ → FetchOptions → Reader FetchOptions
unfolding read_atom item_at lookup to_upper
parse_single_fetch_item fuel o = do
  item ← read_atom
  item_at fuel (lookup (to_upper item) plain_items) item o

-- `parseFetchItems`.
unfoldable pub parse_fetch_items : ℕ → Reader FetchOptions
unfolding parse_single_fetch_item read_list
parse_fetch_items fuel [] = err eof []
parse_fetch_items fuel (b ∷ s) =
    if b == b'('
    then read_list (parse_single_fetch_item fuel) no_options (b ∷ s)
    else parse_single_fetch_item fuel no_options (b ∷ s)
