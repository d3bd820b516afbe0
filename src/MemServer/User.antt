-- ===== src/MemServer/User.antt =====
-- server/memserver/user.go: the mailboxes of a user, by name. Sessions keep pointers to mailboxes, so
-- the mailboxes stand on a heap; `next` is the next free pointer. The caller's lock is held.
use imap_go.MemServer.Mailbox.{Mailbox, new_mailbox}
use imap_go.Prelude.{
  ℕ, ◌+◌, true, List, [], ◌∷◌, Option, none, some, Bytes, codes, length, equal, to_upper, ◌==◌,
  if◌then◌else◌, set_at, lookup, store, erase,
}
pub mod Names

pub data UserError : Type 0 where
  mailbox_already_exists no_such_mailbox cannot_delete_inbox : UserError

pub record UserData (Time : Type 0) : Type 0 where
  pub entries : List (Bytes × ℕ)
  pub boxes : ℕ → Mailbox Time
  pub next : ℕ

abbrev pub inbox_name : Bytes
inbox_name = codes "INBOX"

-- The first of two lookups that finds something.
abbrev pub or_else : Option ℕ → Option ℕ → Option ℕ
or_else none o = o
or_else (some p) o = some p

unfoldable pub normalize_inbox : Bytes → Bytes
unfolding to_upper equal
normalize_inbox name =
    if length name == 5
    then (if equal (to_upper name) inbox_name then inbox_name else name)
    else name

module _ {Time : Type 0} where
  -- `NewUserData`, on a heap of its own.
  unfoldable pub new_user_data : UserData Time
  unfolding new_mailbox
  new_user_data = record {
    entries = (inbox_name, 0) ∷ [];
    boxes = λ p. record (new_mailbox inbox_name) { subscribed = true };
    next = 1;
  }

  -- `getMailboxLocked`.
  unfoldable pub get_mailbox : UserData Time → Bytes → Option ℕ
  unfolding lookup normalize_inbox
  get_mailbox u name =
      or_else (lookup name u.entries)
        (if equal (normalize_inbox name) inbox_name then lookup inbox_name u.entries else none)

  -- The part of `CreateMailbox` behind the lookup, whose result comes first; the others are cut too.
  unfoldable pub create_at : Option ℕ → Bytes → UserData Time → Option UserError × UserData Time
  unfolding store new_mailbox
  create_at (some p) name u = (some mailbox_already_exists, u)
  create_at none name u = (
    none,
    record {
      entries = store name u.next u.entries;
      boxes = set_at u.boxes u.next (new_mailbox name);
      next = u.next + 1;
    },
  )

  unfoldable pub create_mailbox : Bytes → UserData Time → Option UserError × UserData Time
  unfolding get_mailbox create_at
  create_mailbox name u = create_at (get_mailbox u name) name u

  unfoldable pub delete_at : Option ℕ → Bytes → UserData Time → Option UserError × UserData Time
  unfolding erase
  delete_at none name u = (some no_such_mailbox, u)
  delete_at (some p) name u = (none, record u { entries = erase name u.entries })

  unfoldable pub delete_mailbox : Bytes → UserData Time → Option UserError × UserData Time
  unfolding get_mailbox delete_at
  delete_mailbox name u =
      if equal (normalize_inbox name) inbox_name
      then (some cannot_delete_inbox, u)
      else delete_at (get_mailbox u name) name u

  unfoldable pub rename_at :
      Option ℕ → Option ℕ → Bytes → Bytes → UserData Time → Option UserError × UserData Time
  unfolding store erase
  rename_at none other old_name new_name u = (some no_such_mailbox, u)
  rename_at (some p) (some q) old_name new_name u = (some mailbox_already_exists, u)
  rename_at (some p) none old_name new_name u = (
    none,
    record u {
      entries = store new_name p (erase old_name u.entries);
      boxes = set_at u.boxes p (record (u.boxes p) { name = new_name });
    },
  )

  unfoldable pub rename_mailbox : Bytes → Bytes → UserData Time → Option UserError × UserData Time
  unfolding get_mailbox rename_at
  rename_mailbox old_name new_name u =
      rename_at (get_mailbox u old_name) (get_mailbox u new_name) old_name new_name u
