-- ===== src/Wire/ListReader.antt =====
-- `ReadList`, `ReadFlags`, `DiscardLine` and `DiscardN` of wire/decoder.go. The function that
-- `ReadList` calls is a reader that updates what its closure holds.
use imap_go.Prelude.{
  ℕ, zero, suc, ◌+◌, Bool, true, false, List, [], ◌∷◌, ◌++◌, leb, ◌==◌, if◌then◌else◌, Bytes,
  length, drop,
}
use imap_go.Wire.Decoder.{expect_byte, read_sp, read_atom}
use imap_go.Wire.Reader.{eof, out_of_fuel, ok, err, Reader, ◌>>=◌, ◌>>◌, continue, pure, peek_byte}

module _ {ℓ} {A : Type ℓ} (fn : A → Reader A) where
  -- The loop of `ReadList`; the flag is `first`.
  unfoldable pub list_loop : ℕ → Bool → A → Reader A
  unfolding peek_byte
  list_loop zero first a s = err out_of_fuel s
  list_loop (suc fuel) first a [] = err eof []
  list_loop (suc fuel) first a (b ∷ s) =
      let rest = λ (a' : A). list_loop fuel false a' in
      if b == b')'
      then ok a s
      else if first
      then continue (fn a (b ∷ s)) rest
      else continue (read_sp (b ∷ s)) (λ _ t. continue (fn a t) rest)

  -- Each round but the first takes a byte, so the length of the text bounds the rounds.
  unfoldable pub read_list : A → Reader A
  unfolding list_loop
  read_list a = do expect_byte b'('; λ s. list_loop (length s + 2) true a s

unfoldable pub read_flag : List Bytes → Reader (List Bytes)
read_flag flags = do flag ← read_atom; pure (flags ++ flag ∷ [])

unfoldable pub read_flags : Reader (List Bytes)
unfolding read_list read_flag
read_flags = read_list read_flag []

unfoldable pub discard_line : Reader (Unit {0})
discard_line [] = err eof []
discard_line (b ∷ s) = if b == b'\n' then ok tt s else discard_line s

unfoldable pub discard_n : ℕ → Reader (Unit {0})
discard_n n s = if leb n (length s) then ok tt (drop n s) else err eof []
