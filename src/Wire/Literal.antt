-- ===== src/Wire/Literal.antt =====
-- Literals: the header that the encoder writes is read back, with the bytes that it announces.
use imap_go.Prelude.{
  ℕ, Bool, true, false, [], ◌∷◌, ◌++◌, append-nil, append_assoc, ◌≡◌, refl, arith, Bytes, All,
  if◌then◌else◌, ◌∙◌, ap, length, ◌≤◌, take-append, drop-append, length-append,
}
use imap_go.Wire.Decimal.{format_uint, IsDigit, format_uint-All, parse_uint-format_uint}
use imap_go.Wire.Decoder.{
  LiteralInfo, literal_loop, literal_header, read_literal_info, read_full, max_alloc, max_int64,
  read_crlf,
}
use imap_go.Wire.Encoder.{Encoder, literal_head}
use imap_go.Wire.Reader.{ok}

literal_loop-digits :
    (ds rest num : Bytes) (non_sync : Bool)
    → All IsDigit ds
    → literal_loop non_sync num (ds ++ b'}' ∷ rest) ≡ ok (non_sync, num ++ ds) rest
unfolding literal_loop
literal_loop-digits [] rest num ns h = rw append-nil
literal_loop-digits (d ∷ ds) rest num ns (hd, h) =
    ground (arith, literal_loop-digits ds rest (num ++ d ∷ []) ns h, append_assoc num (d ∷ []) ds)

literal_loop-plus :
    (ds rest num : Bytes)
    → All IsDigit ds
    → literal_loop false num (ds ++ b'+' ∷ b'}' ∷ rest) ≡ ok (true, num ++ ds) rest
unfolding literal_loop
literal_loop-plus [] rest num h = rw append-nil
literal_loop-plus (d ∷ ds) rest num (hd, h) =
    ground (arith, literal_loop-plus ds rest (num ++ d ∷ []) h, append_assoc num (d ∷ []) ds)

-- The text that `literal_head` appends.
abbrev pub head_text : ℕ → Bytes → Bytes
head_text n mark = b'{' ∷ (format_uint n ++ (mark ++ b'}' ∷ b'\r' ∷ b'\n' ∷ []))

pub literal_head-head_text :
    (n : ℕ) (mark : Bytes) (w : Encoder) → literal_head n mark w ≡ w ++ head_text n mark
unfolding literal_head
literal_head-head_text n mark w = simp append_assoc

abbrev pub info_of : ℕ → Bool → Bool → LiteralInfo
info_of n non_sync binary = record { size = n; non_sync = non_sync; binary = binary }

-- `{n}` or `{n+}`: the flag is the `+`.
abbrev pub mark_of : Bool → Bytes
mark_of non_sync = if non_sync then b'+' ∷ [] else []

literal_loop-mark :
    (n : ℕ) (rest : Bytes) (non_sync : Bool)
    → literal_loop false [] (format_uint n ++ (mark_of non_sync ++ b'}' ∷ rest))
      ≡ ok (non_sync, format_uint n) rest
literal_loop-mark n rest true = literal_loop-plus (format_uint n) rest [] (format_uint-All n)
literal_loop-mark n rest false =
    literal_loop-digits (format_uint n) rest [] false (format_uint-All n)

read_crlf_lem : (rest : Bytes) → read_crlf (b'\r' ∷ b'\n' ∷ rest) ≡ ok tt rest
unfolding read_crlf
read_crlf_lem rest = refl

literal_header_lem :
    (n : ℕ) (binary non_sync : Bool) (rest : Bytes)
    → n ≤ max_int64
    → literal_header binary b'{'
        (format_uint n ++ (mark_of non_sync ++ b'}' ∷ b'\r' ∷ b'\n' ∷ rest))
      ≡ ok (info_of n non_sync binary) rest
unfolding literal_header
literal_header_lem n binary ns rest h =
    rw (literal_loop-mark n (b'\r' ∷ b'\n' ∷ rest) ns, parse_uint-format_uint max_int64 n h) refl

head_text-append :
    (n : ℕ) (non_sync : Bool) (rest : Bytes)
    → head_text n (mark_of non_sync) ++ rest
      ≡ b'{' ∷ (format_uint n ++ (mark_of non_sync ++ b'}' ∷ b'\r' ∷ b'\n' ∷ rest))
head_text-append n non_sync rest = simp append_assoc

abbrev pub tilde_of : Bool → Bytes
tilde_of binary = if binary then b'~' ∷ [] else []

abbrev header_text : ℕ → Bool → Bytes → Bytes
header_text n non_sync rest = format_uint n ++ (mark_of non_sync ++ b'}' ∷ b'\r' ∷ b'\n' ∷ rest)

literal_head_text :
    (n : ℕ) (binary non_sync : Bool) (rest : Bytes)
    → literal_head n (mark_of non_sync) (tilde_of binary) ++ rest
      ≡ tilde_of binary ++ b'{' ∷ header_text n non_sync rest
literal_head_text n binary ns rest =
    rw (literal_head-head_text, append_assoc)
      (ap (◌++◌ (tilde_of binary)) (head_text-append n ns rest))

read_mark :
    (n : ℕ) (binary non_sync : Bool) (rest : Bytes)
    → read_literal_info (tilde_of binary ++ b'{' ∷ header_text n non_sync rest)
      ≡ literal_header binary b'{' (header_text n non_sync rest)
unfolding read_literal_info
read_mark n true ns rest = refl
read_mark n false ns rest = refl

-- The header of a literal, binary or not, synchronising or not, is read back, as long as its size
-- fits an `int64`, and the bytes behind it are left.
pub read_literal_info-literal_head :
    (n : ℕ) (binary non_sync : Bool) (rest : Bytes)
    → n ≤ max_int64
    → read_literal_info (literal_head n (mark_of non_sync) (tilde_of binary) ++ rest)
      ≡ ok (info_of n non_sync binary) rest
read_literal_info-literal_head n binary ns rest h =
    ap read_literal_info (literal_head_text n binary ns rest)
    ∙ read_mark n binary ns rest
    ∙ literal_header_lem n binary ns rest h

pub read_full-append :
    (s rest : Bytes) → length s ≤ max_alloc → read_full (length s) (s ++ rest) ≡ ok s rest
unfolding read_full
read_full-append s rest h =
    ground (arith, length-append s rest, take-append s rest, drop-append s rest)
