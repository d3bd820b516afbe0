-- ===== src/Server/Commands/Sets.antt =====
-- The commands that start with a number set: the argument parsers of STORE, COPY and FETCH in
-- server/commands/store.go, copy.go and fetch.go. An error of a reader becomes a BAD answer, and then
-- the session is not called.
use imap_go.Imap.Fetch.{FetchOptions}
use imap_go.Imap.NumSet.Parse.{parse_set}
use imap_go.Imap.NumSet.{NumSet}
use imap_go.MemServer.Mailbox.{NumKind, num_kind_seq, num_kind_uid}
use imap_go.MemServer.Message.{Flag}
use imap_go.Prelude.{
  ℕ, ◌-◌, Bool, true, false, ◌&&◌, List, [], ◌∷◌, Bytes, codes, equal, has_prefix, to_upper, length,
  drop, leb, if◌then◌else◌,
}
use imap_go.Server.Commands.Fetch.{parse_fetch_items}
use imap_go.Server.Commands.Search.{lift_set}
use imap_go.Wire.Decoder.{read_sp, read_atom, read_astring}
use imap_go.Wire.ListReader.{read_flags}
use imap_go.Wire.Reader.{bad_action, Out, Reader, ◌>>=◌, ◌>>◌, pure, fail}
pub mod Stores

-- `StoreAction` and `StoreFlags` of store.go.
pub data StoreAction : Type 0 where
  store_flags_set store_flags_add store_flags_del : StoreAction

pub record StoreFlags : Type 0 where
  pub action : StoreAction
  pub silent : Bool
  pub flags : List Flag

-- `ParseUIDSet` and `ParseSeqSet` are one function here, so the kind of numbers makes no difference.
unfoldable pub read_num_set : Reader NumSet
unfolding read_atom lift_set
read_num_set = do s ← read_atom; lift_set (parse_set s)

-- `strings.HasSuffix(s, suffix)`, the suffix first.
unfoldable pub has_suffix : Bytes → Bytes → Bool
unfolding equal
has_suffix suffix s =
    leb (length suffix) (length s) && equal (drop (length s - length suffix) s) suffix

-- The switch on the prefix of the action, in upper case.
unfoldable pub action_of : Bytes → Reader StoreAction
unfolding has_prefix
action_of upper =
    if has_prefix (codes "+FLAGS") upper
    then pure store_flags_add
    else if has_prefix (codes "-FLAGS") upper
    then pure store_flags_del
    else if has_prefix (codes "FLAGS") upper
    then pure store_flags_set
    else fail bad_action

unfoldable pub parse_store : Reader (NumSet × StoreFlags)
unfolding read_num_set read_sp read_atom action_of has_suffix to_upper read_flags
parse_store = do
  num_set ← read_num_set
  read_sp
  word ← read_atom
  action ← action_of (to_upper word)
  read_sp
  flags ← read_flags
  pure (
    num_set,
    record {
      action = action;
      silent = has_suffix (codes ".SILENT") (to_upper word);
      flags = flags;
    },
  )

unfoldable pub parse_copy : Reader (NumSet × Bytes)
unfolding read_num_set read_sp read_astring
parse_copy = do num_set ← read_num_set; read_sp; dest ← read_astring; pure (num_set, dest)

-- "Always include UID for UID FETCH".
abbrev with_uid : NumKind → FetchOptions → FetchOptions
with_uid num_kind_seq o = o
with_uid num_kind_uid o = record o { uid = true }

unfoldable pub parse_fetch : ℕ → NumKind → Reader (NumSet × FetchOptions)
unfolding read_num_set read_sp parse_fetch_items
parse_fetch fuel kind = do
  num_set ← read_num_set
  read_sp
  options ← parse_fetch_items fuel
  pure (num_set, with_uid kind options)
