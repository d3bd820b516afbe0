-- ===== src/Wire/Reader.antt =====
-- The stream that wire/decoder.go reads: a `bufio.Reader` over a finite text. A method is a function
-- of the bytes not yet read, and hands on those that it leaves, after an error too.
use imap_go.Prelude.{ℕ, [], ◌∷◌, Bytes}

pub data Error : Type 0 where
  -- `io.EOF`, and `io.ErrUnexpectedEOF` of `io.ReadFull`.
  eof unexpected_eof : Error
  expected_atom : Error
  -- "expected X, got Y".
  expected : ℕ → ℕ → Error
  expected_crlf : ℕ → ℕ → Error
  unexpected_character : ℕ → Error
  -- The two errors of `strconv.ParseUint`.
  number_syntax number_range : Error
  -- `make([]byte, n)` with a length that the runtime refuses: a panic, not an error.
  makeslice_panic : Error
  -- The errors of `ParseUIDSet` and `time.Parse`, where a command hands them on.
  bad_set bad_date : Error
  -- "invalid store action".
  bad_action : Error
  -- No error of the source: a loop of the model ran out of fuel.
  out_of_fuel : Error

pub data Out {ℓ} (A : Type ℓ) : Type ℓ where
  ok : A → Bytes → Out A
  err : Error → Bytes → Out A

abbrev pub Reader {ℓ} : Type ℓ → Type ℓ
Reader A = Bytes → Out A

infixl 5 ◌>>=◌ ◌>>◌
abbrev pub continue {ℓ κ} : {A : Type ℓ} {B : Type κ} → Out A → (A → Reader B) → Out B
continue (ok a s) f = f a s
continue (err e s) f = err e s

abbrev pub ◌>>=◌ {ℓ κ} : {A : Type ℓ} {B : Type κ} → Reader A → (A → Reader B) → Reader B
◌>>=◌ m f s = continue (m s) f

abbrev pub ◌>>◌ {ℓ} : {B : Type ℓ} → Reader (Unit {0}) → Reader B → Reader B
m >> k = m >>= λ _. k

abbrev pub pure {ℓ} : {A : Type ℓ} → A → Reader A
pure a s = ok a s

abbrev pub fail {ℓ} : {A : Type ℓ} → Error → Reader A
fail e s = err e s

-- `ReadByte`.
unfoldable pub read_byte : Reader ℕ
read_byte [] = err eof []
read_byte (b ∷ s) = ok b s

-- `Peek(1)`.
unfoldable pub peek_byte : Reader ℕ
peek_byte [] = err eof []
peek_byte (b ∷ s) = ok b (b ∷ s)
