-- ===== src/Wire/Encoder.antt =====
-- The methods of `Encoder` in wire/encoder.go. An encoder is the text written so far, and a method
-- gives the longer text; the errors of the `bufio.Writer` are ignored, as in the source.
use imap_go.Prelude.{
  ℕ, Bool, true, false, List, [], ◌∷◌, ◌++◌, Option, none, some, if◌then◌else◌, Bytes, codes, equal,
  equal_fold, length, ◌||◌,
}
use imap_go.Wire.Chars.{is_quoted_special, needs_quoting, needs_literal}
use imap_go.Wire.Decimal.{format_uint}

abbrev pub Encoder : Type 0
Encoder = Bytes

unfoldable pub raw : Bytes → Encoder → Encoder
raw s w = w ++ s

unfoldable pub write_byte : ℕ → Encoder → Encoder
write_byte b w = w ++ b ∷ []

unfoldable pub atom : Bytes → Encoder → Encoder
unfolding raw
atom = raw

unfoldable pub sp : Encoder → Encoder
unfolding write_byte
sp = write_byte b' '

unfoldable pub crlf : Encoder → Encoder
unfolding raw
crlf = raw (b'\r' ∷ b'\n' ∷ [])

unfoldable pub quoted_bytes : Bytes → Encoder → Encoder
unfolding write_byte is_quoted_special
quoted_bytes [] w = w
quoted_bytes (b ∷ s) w =
    quoted_bytes s (write_byte b (if is_quoted_special b then write_byte b'\\' w else w))

unfoldable pub quoted_string : Bytes → Encoder → Encoder
unfolding write_byte quoted_bytes
quoted_string s w = write_byte b'"' (quoted_bytes s (write_byte b'"' w))

-- `{n}` and CR LF, with the text that stands before `}`.
unfoldable pub literal_head : ℕ → Bytes → Encoder → Encoder
unfolding write_byte raw crlf
literal_head n mark w = crlf (write_byte b'}' (raw mark (raw (format_uint n) (write_byte b'{' w))))

unfoldable pub literal : Bytes → Encoder → Encoder
unfolding literal_head raw
literal s w = raw s (literal_head (length s) [] w)

unfoldable pub literal_non_sync : Bytes → Encoder → Encoder
unfolding literal_head raw
literal_non_sync s w = raw s (literal_head (length s) (b'+' ∷ []) w)

unfoldable pub binary_literal : Bytes → Encoder → Encoder
unfolding literal_head raw write_byte
binary_literal s w = raw s (literal_head (length s) [] (write_byte b'~' w))

-- `LiteralWriter`: the header; the caller writes the data.
unfoldable pub literal_writer : ℕ → Bool → Encoder → Encoder
unfolding literal_head
literal_writer size non_sync = literal_head size (if non_sync then b'+' ∷ [] else [])

unfoldable pub string : Bytes → Encoder → Encoder
unfolding literal quoted_string atom
string s w =
    if needs_literal s then literal s w else if needs_quoting s then quoted_string s w else atom s w

unfoldable pub astring : Bytes → Encoder → Encoder
unfolding string
astring = string

unfoldable pub nil : Encoder → Encoder
unfolding raw
nil = raw (codes "NIL")

unfoldable pub nstring : Option Bytes → Encoder → Encoder
unfolding nil string
nstring none = nil
nstring (some s) = string s

unfoldable pub number : ℕ → Encoder → Encoder
unfolding raw
number n = raw (format_uint n)

unfoldable pub number64 : ℕ → Encoder → Encoder
unfolding raw
number64 n = raw (format_uint n)

unfoldable pub begin_list : Encoder → Encoder
unfolding write_byte
begin_list = write_byte b'('

unfoldable pub end_list : Encoder → Encoder
unfolding write_byte
end_list = write_byte b')'

-- The loop of `List`; the flag is `i > 0`.
unfoldable pub list_items : Bool → List Bytes → Encoder → Encoder
unfolding sp string
list_items later [] w = w
list_items later (item ∷ items) w = list_items true items (string item (if later then sp w else w))

unfoldable pub list : List Bytes → Encoder → Encoder
unfolding begin_list end_list list_items
list items w = end_list (list_items false items (begin_list w))

unfoldable pub flags : List Bytes → Encoder → Encoder
unfolding list
flags = list

unfoldable pub tag : Bytes → Encoder → Encoder
unfolding raw
tag = raw

unfoldable pub star : Encoder → Encoder
unfolding raw
star = raw (codes "* ")

unfoldable pub plus : Encoder → Encoder
unfolding raw
plus = raw (codes "+ ")

abbrev is_empty : Bytes → Bool
is_empty s = equal s []

unfoldable pub status_response : Bytes → Bytes → Bytes → Bytes → Encoder → Encoder
unfolding star tag sp atom raw write_byte crlf equal
status_response t status code text w =
    let w1 = if is_empty t || equal t (codes "*") then star w else sp (tag t w) in
    let w2 = atom status w1 in
    let w3 = if is_empty code then w2 else write_byte b']' (raw code (raw (codes " [") w2)) in
    let w4 = if is_empty text then w3 else raw text (sp w3) in crlf w4

unfoldable pub begin_response : Bytes → Encoder → Encoder
unfolding star atom sp
begin_response name w = sp (atom name (star w))

unfoldable pub num_response : ℕ → Bytes → Encoder → Encoder
unfolding star number sp atom crlf
num_response num name w = crlf (atom name (sp (number num (star w))))

unfoldable pub continuation_request : Bytes → Encoder → Encoder
unfolding plus raw crlf equal
continuation_request text w = crlf (if is_empty text then plus w else raw text (plus w))

unfoldable pub mailbox_name : Bytes → Encoder → Encoder
unfolding atom astring
mailbox_name name w =
    if equal_fold name (codes "INBOX") then atom (codes "INBOX") w else astring name w

-- The arguments as `fmt.Fprint` prints them.
unfoldable pub response_args : List Bytes → Encoder → Encoder
unfolding write_byte raw
response_args [] w = w
response_args (arg ∷ args) w = response_args args (raw arg (write_byte b' ' w))

unfoldable pub response_code : Bytes → List Bytes → Encoder → Encoder
unfolding raw response_args
response_code code args w = raw (codes "] ") (response_args args (raw code (raw (codes "[") w)))
