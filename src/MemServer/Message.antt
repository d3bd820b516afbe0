-- ===== src/MemServer/Message.antt =====
-- The flags of `Message` in server/memserver/message.go. A flag is its text. `time.Time` is the
-- parameter `Time`. The source copies a slice of flags wherever two messages could share one.
pub mod Flags
use imap_go.Prelude.{
  ℕ, Bool, true, false, List, [], ◌∷◌, ◌++◌, if◌then◌else◌, Bytes, codes, equal_fold,
}

abbrev pub Flag : Type 0
Flag = Bytes

abbrev pub flag_seen : Flag
flag_seen = codes "\\Seen"

abbrev pub flag_answered : Flag
flag_answered = codes "\\Answered"

abbrev pub flag_flagged : Flag
flag_flagged = codes "\\Flagged"

abbrev pub flag_deleted : Flag
flag_deleted = codes "\\Deleted"

abbrev pub flag_draft : Flag
flag_draft = codes "\\Draft"

abbrev pub flag_recent : Flag
flag_recent = codes "\\Recent"

abbrev pub flag_wildcard : Flag
flag_wildcard = codes "\\*"

pub record Message (Time : Type 0) : Type 0 where
  pub uid : ℕ
  pub flags : List Flag
  pub internal_date : Time
  pub size : ℕ
  pub body : Bytes

-- The loop of `HasFlag`.
unfoldable pub some_flag : List Flag → Flag → Bool
some_flag [] flag = false
some_flag (f ∷ fs) flag = if equal_fold f flag then true else some_flag fs flag

-- The loop of `RemoveFlag`: the first flag that fits is taken out.
unfoldable pub drop_flag : List Flag → Flag → List Flag
drop_flag [] flag = []
drop_flag (f ∷ fs) flag = if equal_fold f flag then fs else f ∷ drop_flag fs flag

module _ {Time : Type 0} where
  unfoldable pub has_flag : Message Time → Flag → Bool
  unfolding some_flag
  has_flag m flag = some_flag m.flags flag

  unfoldable pub set_flag : Flag → Message Time → Message Time
  unfolding has_flag
  set_flag flag m = if has_flag m flag then m else record m { flags = m.flags ++ flag ∷ [] }

  unfoldable pub remove_flag : Flag → Message Time → Message Time
  unfolding drop_flag
  remove_flag flag m = record m { flags = drop_flag m.flags flag }

  unfoldable pub copy_flags : Message Time → List Flag
  copy_flags m = m.flags
