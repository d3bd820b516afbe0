-- ===== src/Server/Dispatch.antt =====
-- server/dispatch.go: the table of command handlers, and the split of a command line.
use imap_go.Prelude.{
  ℕ, suc, List, [], ◌∷◌, Option, none, some, Bytes, to_upper, take, drop, lookup, store,
}
use imap_go.Prelude.Result.{Result, ok, err}
use imap_go.Prelude.Split.{index_byte}
pub mod Lines
pub mod Handlers
pub mod Route

abbrev pub Dispatcher : Type 0 → Type 0
Dispatcher Handler = List (Bytes × Handler)

module _ {Handler : Type 0} where
  unfoldable pub register : Bytes → Handler → Dispatcher Handler → Dispatcher Handler
  unfolding to_upper store
  register name handler d = store (to_upper name) handler d

  unfoldable pub get : Dispatcher Handler → Bytes → Option Handler
  unfolding to_upper lookup
  get d name = lookup (to_upper name) d

  unfoldable pub wrap_at :
      Option Handler → Bytes → (Handler → Handler) → Dispatcher Handler → Dispatcher Handler
  unfolding store
  wrap_at none upper wrapper d = d
  wrap_at (some h) upper wrapper d = store upper (wrapper h) d

  unfoldable pub wrap : Bytes → (Handler → Handler) → Dispatcher Handler → Dispatcher Handler
  unfolding to_upper lookup wrap_at
  wrap name wrapper d = wrap_at (lookup (to_upper name) d) (to_upper name) wrapper d

pub data LineError : Type 0 where
  empty_command missing_name empty_tag empty_name : LineError

pub record Command : Type 0 where
  pub tag : Bytes
  pub name : Bytes
  pub rest : Bytes

-- The name and the rest, by the index of the space between them.
unfoldable pub cut_name : Option ℕ → Bytes → Bytes × Bytes
cut_name none remaining = (remaining, [])
cut_name (some i) remaining = (take i remaining, drop (suc i) remaining)

unfoldable pub check_parts : Bytes → Bytes × Bytes → Result LineError Command
check_parts [] (name, rest) = err empty_tag
check_parts (t ∷ tag) ([], rest) = err empty_name
check_parts (t ∷ tag) (n ∷ name, rest) = ok (record { tag = t ∷ tag; name = n ∷ name; rest = rest })

unfoldable pub cut_tag : Option ℕ → Bytes → Result LineError Command
unfolding index_byte cut_name check_parts
cut_tag none line = err missing_name
cut_tag (some i) line =
    let remaining = drop (suc i) line in
    check_parts (take i line) (cut_name (index_byte b' ' remaining) remaining)

unfoldable pub parse_line : Bytes → Result LineError Command
unfolding cut_tag index_byte
parse_line [] = err empty_command
parse_line (b ∷ line) = cut_tag (index_byte b' ' (b ∷ line)) (b ∷ line)
