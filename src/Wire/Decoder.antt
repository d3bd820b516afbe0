-- ===== src/Wire/Decoder.antt =====
-- The methods of `Decoder` in wire/decoder.go.
use imap_go.Prelude.{
  ℕ, ◌^◌, ◌-◌, Bool, true, false, not, ◌&&◌, ◌||◌, [], ◌∷◌, ◌++◌, Option, none, some, ltb, leb,
  ◌==◌, if◌then◌else◌, Bytes, codes, equal_fold, length, take, drop,
}
use imap_go.Wire.Chars.{is_atom_char}
use imap_go.Wire.Decimal.{ParsedUint, parsed, bad_syntax, out_of_range, parse_uint}
use imap_go.Wire.Reader.{
  Error, eof, unexpected_eof, expected_atom, expected, expected_crlf, unexpected_character,
  number_syntax, number_range, makeslice_panic, ok, err, Reader, ◌>>=◌, ◌>>◌, pure, fail, continue,
  read_byte, peek_byte,
}

-- The end of the loop of `ReadAtom`, with the error that it reports if no byte was taken.
unfoldable pub finish_atom : Error → Bytes → Reader Bytes
finish_atom e [] = fail e
finish_atom e (b ∷ buf) = pure (b ∷ buf)

-- The loop of `ReadAtom`: `buf` holds the bytes taken so far.
unfoldable pub atom_loop : Bytes → Reader Bytes
unfolding finish_atom
atom_loop buf [] = finish_atom eof buf []
atom_loop buf (b ∷ s) =
    if is_atom_char b then atom_loop (buf ++ b ∷ []) s else finish_atom expected_atom buf (b ∷ s)

unfoldable pub read_atom : Reader Bytes
unfolding atom_loop
read_atom = atom_loop []

-- The loop of `ReadQuotedString`; the flag says that the byte before was a backslash.
unfoldable pub quoted_loop : Bool → Bytes → Reader Bytes
quoted_loop after buf [] = err eof []
quoted_loop true buf (ch ∷ s) = quoted_loop false (buf ++ ch ∷ []) s
quoted_loop false buf (ch ∷ s) =
    let escaped = quoted_loop true buf s in
    let plain = quoted_loop false (buf ++ ch ∷ []) s in
    if ch == b'"' then ok buf s else if ch == b'\\' then escaped else plain

unfoldable pub read_quoted_string : Reader Bytes
unfolding quoted_loop read_byte
read_quoted_string = do
  b ← read_byte
  if b == b'"' then quoted_loop false [] else fail (expected b'"' b)

unfoldable pub read_crlf : Reader (Unit {0})
unfolding read_byte
read_crlf = do
  b1 ← read_byte
  b2 ← read_byte
  if not (b1 == b'\r') || not (b2 == b'\n') then fail (expected_crlf b1 b2) else pure tt

unfoldable pub expect_byte : ℕ → Reader (Unit {0})
unfolding read_byte
expect_byte want = do b ← read_byte; if not (b == want) then fail (expected want b) else pure tt

unfoldable pub read_sp : Reader (Unit {0})
unfolding expect_byte
read_sp = expect_byte b' '

pub record LiteralInfo : Type 0 where
  pub size : ℕ
  pub non_sync : Bool
  pub binary : Bool

-- The loop of `ReadLiteralInfo`: whether a `+` was seen, and the digits.
unfoldable pub literal_loop : Bool → Bytes → Reader (Bool × Bytes)
literal_loop non_sync num [] = err eof []
literal_loop non_sync num (ch ∷ s) =
    let plus = literal_loop true num s in
    let digit = literal_loop non_sync (num ++ ch ∷ []) s in
    if ch == b'+'
    then plus
    else if ch == b'}'
    then ok (non_sync, num) s
    else if leb b'0' ch && leb ch b'9'
    then digit
    else err (unexpected_character ch) s

-- `strconv.ParseUint` and `strconv.ParseInt` of a text that was read.
unfoldable pub number_of : ParsedUint → Reader ℕ
number_of (parsed n) = pure n
number_of bad_syntax = fail number_syntax
number_of out_of_range = fail number_range

abbrev pub max_int64 : ℕ
max_int64 = 2 ^ 63 - 1

-- What follows the optional `~`.
unfoldable pub literal_header : Bool → ℕ → Reader LiteralInfo
unfolding literal_loop number_of read_crlf
literal_header binary b = if not (b == b'{') then fail (expected b'{' b) else do
  info ← literal_loop false []
  size ← number_of (parse_uint max_int64 info.1)
  read_crlf
  pure (record { size = size; non_sync = info.0; binary = binary })

unfoldable pub read_literal_info : Reader LiteralInfo
unfolding read_byte literal_header
read_literal_info = do
  b ← read_byte
  if b == b'~' then (do c ← read_byte; literal_header true c) else literal_header false b

-- The longest slice of bytes that `make` gives on a 64-bit system; a longer one panics.
abbrev pub max_alloc : ℕ
max_alloc = 2 ^ 48

-- `make([]byte, n)`, whose panic is the outcome `makeslice_panic`, and `io.ReadFull`.
unfoldable pub read_full : ℕ → Reader Bytes
read_full n s =
    if ltb max_alloc n
    then err makeslice_panic s
    else if leb n (length s)
    then ok (take n s) (drop n s)
    else err (if length s == 0 then eof else unexpected_eof) []

unfoldable pub read_string : Reader Bytes
unfolding peek_byte
read_string = do
  b ← peek_byte
  if b == b'"'
      then read_quoted_string
      else if b == b'{' || b == b'~'
      then (do info ← read_literal_info; read_full info.size)
      else read_atom

unfoldable pub read_astring : Reader Bytes
unfolding read_string
read_astring = read_string

-- The look ahead of `ReadNString`: `NIL` in any case, at the end or before a byte of no atom.
unfoldable pub ends_atom : Bytes → Bool
ends_atom [] = true
ends_atom (b ∷ s) = not (is_atom_char b)

unfoldable pub is_nil : Bytes → Bool
unfolding ends_atom
is_nil s = equal_fold (take 3 s) (codes "NIL") && ends_atom (drop 3 s)

-- `none` for `NIL`.
unfoldable pub read_nstring : Reader (Option Bytes)
unfolding is_nil
read_nstring [] = err eof []
read_nstring (b ∷ s) =
    if is_nil (b ∷ s)
    then ok none (drop 3 (b ∷ s))
    else continue (read_string (b ∷ s)) (λ t. pure (some t))

abbrev pub max_uint32 : ℕ
max_uint32 = 2 ^ 32 - 1

abbrev pub max_uint64 : ℕ
max_uint64 = 2 ^ 64 - 1

unfoldable pub read_number : Reader ℕ
unfolding number_of
read_number = do atom ← read_atom; number_of (parse_uint max_uint32 atom)

unfoldable pub read_number64 : Reader ℕ
unfolding number_of
read_number64 = do atom ← read_atom; number_of (parse_uint max_uint64 atom)
