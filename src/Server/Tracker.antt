-- ===== src/Server/Tracker.antt =====
-- server/tracker.go: trackers of mailboxes and of sessions, which point at each other, on a heap;
-- and the writers of server/writers.go that `Flush` calls. A pointer is a number.
use imap_go.MemServer.Message.{Flag}
use imap_go.Prelude.{
  ℕ, ◌+◌, ◌-◌, ◌%◌, ◌^◌, List, [], ◌∷◌, ◌++◌, Option, none, some, Bool, Bytes, codes, ltb, ◌==◌,
  if◌then◌else◌, set_at,
}
use imap_go.Wire.Encoder.{
  Encoder, num_response, star, number, sp, atom, begin_list, flags, end_list, crlf,
}
pub mod Registered
pub mod Counts
pub mod Heard
pub mod Watched

pub data Update : Type 0 where
  exists_update : ℕ → Update
  expunge_update : ℕ → Update
  fetch_flags_update : ℕ → List Flag → Update

-- `sessions` is the set of the map's keys.
pub record MailboxTracker : Type 0 where
  name : Bytes
  pub num_messages : ℕ
  uid_next : ℕ
  uid_validity : ℕ
  sessions : List ℕ

pub record SessionTracker : Type 0 where
  mailbox : Option ℕ
  pub updates : List Update

-- Every tracker there is, by its pointer.
pub record Heap : Type 0 where
  pub mailboxes : ℕ → MailboxTracker
  pub clients : ℕ → SessionTracker

unfoldable pub new_mailbox_tracker : Bytes → ℕ → ℕ → ℕ → MailboxTracker
new_mailbox_tracker name num_messages uid_validity uid_next = record {
  name = name;
  num_messages = num_messages;
  uid_next = uid_next;
  uid_validity = uid_validity;
  sessions = [];
}

unfoldable pub new_session_tracker : SessionTracker
new_session_tracker = record { mailbox = none; updates = [] }

abbrev pub put_mailbox : ℕ → MailboxTracker → Heap → Heap
put_mailbox t m h = record h { mailboxes = set_at h.mailboxes t m }

abbrev pub put_client : ℕ → SessionTracker → Heap → Heap
put_client st s h = record h { clients = set_at h.clients st s }

-- `t.sessions[st] = struct{}{}` and `delete(t.sessions, st)`.
unfoldable pub insert : ℕ → List ℕ → List ℕ
insert st [] = st ∷ []
insert st (p ∷ ps) = if p == st then p ∷ ps else p ∷ insert st ps

unfoldable pub delete : ℕ → List ℕ → List ℕ
delete st [] = []
delete st (p ∷ ps) = if p == st then delete st ps else p ∷ delete st ps

unfoldable pub add_session : ℕ → ℕ → Heap → Heap
unfolding insert
add_session t st h =
    put_mailbox t (record (h.mailboxes t) { sessions = insert st (h.mailboxes t).sessions }) h

unfoldable pub remove_session : ℕ → ℕ → Heap → Heap
unfolding delete
remove_session t st h =
    put_mailbox t (record (h.mailboxes t) { sessions = delete st (h.mailboxes t).sessions }) h

-- `if st.mailbox != nil { st.mailbox.removeSession(st) }`
unfoldable pub leave_from : Option ℕ → ℕ → Heap → Heap
unfolding remove_session
leave_from none st h = h
leave_from (some t) st h = remove_session t st h

unfoldable pub leave : ℕ → Heap → Heap
unfolding leave_from
leave st h = leave_from (h.clients st).mailbox st h

unfoldable pub enter : ℕ → Option ℕ → Heap → Heap
unfolding add_session
enter st none h = h
enter st (some t) h = add_session t st h

unfoldable pub select : ℕ → Option ℕ → Heap → Heap
unfolding leave enter
select st mbox h =
    enter st mbox (put_client st (record { mailbox = mbox; updates = [] }) (leave st h))

unfoldable pub unselect : ℕ → Heap → Heap
unfolding leave
unselect st h = put_client st (record { mailbox = none; updates = [] }) (leave st h)

-- `queueUpdate` of a session.
unfoldable pub queue_one : ℕ → Update → Heap → Heap
queue_one st u h =
    put_client st (record (h.clients st) { updates = (h.clients st).updates ++ u ∷ [] }) h

unfoldable pub queue_all : List ℕ → Update → Heap → Heap
unfolding queue_one
queue_all [] u h = h
queue_all (st ∷ sts) u h = queue_all sts u (queue_one st u h)

unfoldable pub queue_update : ℕ → Update → Heap → Heap
unfolding queue_all
queue_update t u h = queue_all (h.mailboxes t).sessions u h

unfoldable pub set_num_messages : ℕ → ℕ → Heap → Heap
set_num_messages t n h = put_mailbox t (record (h.mailboxes t) { num_messages = n }) h

unfoldable pub queue_expunge : ℕ → ℕ → Heap → Heap
unfolding queue_update set_num_messages
queue_expunge t seq_num h =
    let n = (h.mailboxes t).num_messages in
    queue_update t (expunge_update seq_num) (set_num_messages t (if ltb 0 n then n - 1 else n) h)

unfoldable pub queue_new_message : ℕ → Heap → Heap
unfolding queue_update set_num_messages
queue_new_message t h =
    let num = ((h.mailboxes t).num_messages + 1) % 2 ^ 32 in
    queue_update t (exists_update num) (set_num_messages t num h)

unfoldable pub queue_flags_update : ℕ → ℕ → List Flag → Heap → Heap
unfolding queue_update
queue_flags_update t seq_num fs h = queue_update t (fetch_flags_update seq_num fs) h

unfoldable pub write_exists : ℕ → Encoder → Encoder
unfolding num_response
write_exists num w = num_response num (codes "EXISTS") w

unfoldable pub write_expunge : ℕ → Encoder → Encoder
unfolding num_response
write_expunge seq_num w = num_response seq_num (codes "EXPUNGE") w

unfoldable pub write_message_flags : ℕ → List Flag → Encoder → Encoder
unfolding star number sp atom begin_list flags end_list crlf
write_message_flags seq_num fs w =
    let head = begin_list (sp (atom (codes "FETCH") (sp (number seq_num (star w))))) in
    crlf (end_list (flags fs (sp (atom (codes "FLAGS") head))))

-- One round of the loop of `Flush`.
unfoldable pub write_update : Bool → Update → Encoder → Encoder
unfolding write_exists write_expunge write_message_flags
write_update allow_expunge (exists_update n) w = write_exists n w
write_update allow_expunge (expunge_update n) w = if allow_expunge then write_expunge n w else w
write_update allow_expunge (fetch_flags_update n fs) w = write_message_flags n fs w

unfoldable pub write_updates : Bool → List Update → Encoder → Encoder
unfolding write_update
write_updates allow_expunge [] w = w
write_updates allow_expunge (u ∷ us) w =
    write_updates allow_expunge us (write_update allow_expunge u w)

unfoldable pub flush : ℕ → Bool → Encoder → Heap → Encoder × Heap
unfolding write_updates
flush st allow_expunge w h = (
  write_updates allow_expunge (h.clients st).updates w,
  put_client st (record (h.clients st) { updates = [] }) h,
)
