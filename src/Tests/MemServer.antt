-- ===== src/Tests/MemServer.antt =====
-- Mailboxes at concrete inputs. A time is a number here, and 0 is the zero time.
use imap_go.Imap.NumSet.{NumRange, NumSet, range_contains, contains}
use imap_go.MemServer.Mailbox.Expunge.{replay, Keeps, replay-expunge}
use imap_go.MemServer.Mailbox.Lookup.{message_by_uid_iff}
use imap_go.MemServer.Mailbox.Sets.{WithinSome, IsEntry, num_set_contains_iff, matches_messages_iff}
use imap_go.MemServer.Mailbox.Uids.{IsWellFormed, operations-IsWellFormed}
use imap_go.MemServer.Mailbox.{
  Mailbox, num_kind_seq, num_of, new_mailbox, append, expunge, message_by_seq_num, message_by_uid,
  num_set_contains, matches_messages, copy_message_to,
}
use imap_go.MemServer.Message.{Flag, Message, flag_seen, flag_deleted, has_flag}
use imap_go.Prelude.{
  ℕ, Bool, true, List, [], ◌∷◌, Option, none, some, ◌≡◌, ◌↔◌, refl, arith, ◌==◌, codes, length,
  equal_fold,
}

abbrev letter : ℕ → List Flag → Message ℕ
letter u fs = record { uid = u; flags = fs; internal_date = 5; size = 2; body = codes "hi" }

-- UIDs 2, 4, 5 and 9; the second and the third are deleted.
abbrev inbox : Mailbox ℕ
inbox = record {
  name = codes "INBOX";
  messages =
      letter 2 (flag_seen ∷ [])
      ∷ letter 4 (codes "\\DELETED" ∷ [])
      ∷ letter 5 (flag_seen ∷ flag_deleted ∷ [])
      ∷ letter 9 []
      ∷ [];
  flags = [];
  permanent_flags = [];
  uid_next = 10;
  uid_validity = 1;
  subscribed = true;
}

-- Both are reported as number 2: the third message has moved up by then.
expunge_run : (expunge none inbox).0 ≡ 2 ∷ 2 ∷ []
unfolding expunge has_flag equal_fold
expunge_run = refl

-- Of the two that are deleted only the one with UID 5 is in the set.
abbrev from_five : Option NumSet
from_five = some (record { ranges = record { start = 5; stop = 0 } ∷ [] })

replay-expunge_example :
    Keeps from_five inbox.messages (expunge from_five inbox).1.messages
    × (replay (expunge from_five inbox).0 inbox.messages ≡ (expunge from_five inbox).1.messages)
replay-expunge_example = replay-expunge from_five inbox (omega arith)

expunge_set_run : (expunge from_five inbox).0 ≡ 3 ∷ []
unfolding expunge has_flag equal_fold contains range_contains
expunge_set_run = refl

inbox-IsWellFormed : IsWellFormed inbox
inbox-IsWellFormed = omega arith

abbrev no_time : ℕ → Bool
no_time t = t == 0

operations-IsWellFormed_example :
    IsWellFormed (new_mailbox {Time = ℕ} (codes "x"))
    × IsWellFormed (append no_time 7 (codes "hey") [] 0 inbox).1
    × IsWellFormed (copy_message_to no_time 7 (letter 1 []) inbox).1
    × IsWellFormed (expunge none inbox).1
    × ((append no_time 7 (codes "hey") [] 0 inbox).0.uid ≡ 10)
    × ((copy_message_to no_time 7 (letter 1 []) inbox).0 ≡ 10)
    × ((append no_time 7 (codes "hey") [] 0 inbox).1.uid_next ≡ 11)
    × ((copy_message_to no_time 7 (letter 1 []) inbox).1.uid_next ≡ 11)
    × ((expunge none inbox).1.uid_next ≡ 10)
operations-IsWellFormed_example =
    operations-IsWellFormed no_time 7 (codes "hey") [] 0 (letter 1 []) none (codes "x") inbox
      (omega arith) inbox-IsWellFormed

message_by_uid_iff_example :
    (message_by_uid inbox 5 ≡ some (letter 5 (flag_seen ∷ flag_deleted ∷ []), 3)) ↔ (
      (message_by_seq_num inbox 3 ≡ some (letter 5 (flag_seen ∷ flag_deleted ∷ [])))
      × (◌≡◌ {A = ℕ} 5 5))
message_by_uid_iff_example =
    message_by_uid_iff inbox 5 3 (letter 5 (flag_seen ∷ flag_deleted ∷ [])) inbox-IsWellFormed
      (omega arith)

abbrev from_three : List NumRange
from_three = record { start = 3; stop = 0 } ∷ []

num_set_contains_iff_example : (num_set_contains from_three 4 6 ≡ true) ↔ WithinSome 6 from_three 4
num_set_contains_iff_example = num_set_contains_iff from_three 4 6

matches_messages_iff_example :
    IsEntry (matches_messages inbox (record { ranges = from_three }) num_kind_seq) 4 (letter 9 [])
    ↔ ((message_by_seq_num inbox 4 ≡ some (letter 9 []))
        × WithinSome (length inbox.messages) from_three (num_of num_kind_seq 4 9))
matches_messages_iff_example =
    matches_messages_iff inbox (record { ranges = from_three }) num_kind_seq 4 (letter 9 [])
      (omega arith)
