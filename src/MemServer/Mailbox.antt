-- ===== src/MemServer/Mailbox.antt =====
-- `Mailbox` of server/memserver/mailbox.go: a list of messages, and the counter of UIDs. The caller
-- holds the lock. Conversions to `uint32` are written out.
pub mod Uids
pub mod Expunge
pub mod Lookup
pub mod Counts
pub mod Sets
use imap_go.Imap.NumSet.{NumRange, NumSet, contains}
use imap_go.MemServer.Message.{
  Flag, Message, flag_seen, flag_answered, flag_flagged, flag_deleted, flag_draft, flag_recent,
  flag_wildcard, has_flag, copy_flags, drop_flag,
}
use imap_go.Prelude.{
  ℕ, zero, suc, ◌+◌, ◌-◌, ◌^◌, ◌%◌, Bool, true, false, not, ◌&&◌, List, [], ◌∷◌, ◌++◌, Option, none,
  some, ltb, leb, ◌==◌, if◌then◌else◌, Bytes, length, get_elem?,
}

-- `uint32(n)`.
abbrev pub u32 : ℕ → ℕ
u32 n = n % 2 ^ 32

-- `a - b` on `uint32`.
abbrev pub sub32 : ℕ → ℕ → ℕ
sub32 a b = (a + 2 ^ 32 - b) % 2 ^ 32

pub data NumKind : Type 0 where
  num_kind_seq num_kind_uid : NumKind

-- The switch of `MatchesMessages` and `SearchMessages`.
abbrev pub num_of : NumKind → ℕ → ℕ → ℕ
num_of num_kind_seq seq_num uid = seq_num
num_of num_kind_uid seq_num uid = uid

pub record Mailbox (Time : Type 0) : Type 0 where
  pub name : Bytes
  pub messages : List (Message Time)
  pub flags : List Flag
  pub permanent_flags : List Flag
  pub uid_next : ℕ
  pub uid_validity : ℕ
  pub subscribed : Bool

abbrev standard_flags : List Flag
standard_flags = flag_seen ∷ flag_answered ∷ flag_flagged ∷ flag_deleted ∷ flag_draft ∷ []

-- `adjusted[i] = seq - uint32(i)`.
unfoldable pub adjust : ℕ → List ℕ → List ℕ
adjust i [] = []
adjust i (seq ∷ seqs) = sub32 seq (u32 i) ∷ adjust (i + 1) seqs

unfoldable pub in_uid_set : Option NumSet → ℕ → Bool
in_uid_set none uid = true
in_uid_set (some uids) uid = contains uids uid

-- `numSetContains`, for one range and for all.
unfoldable pub resolved_contains : ℕ → ℕ → ℕ → Bool
resolved_contains start stop num =
    if ltb stop start then leb stop num && leb num start else leb start num && leb num stop

unfoldable pub num_set_contains : List NumRange → ℕ → ℕ → Bool
unfolding resolved_contains
num_set_contains [] num max_num = false
num_set_contains (r ∷ rs) num max_num =
    let start = if r.start == 0 then max_num else r.start in
    let stop = if r.stop == 0 then max_num else r.stop in
    if resolved_contains start stop num then true else num_set_contains rs num max_num

module _ {Time : Type 0} where
  unfoldable pub new_mailbox : Bytes → Mailbox Time
  new_mailbox name = record {
    name = name;
    messages = [];
    flags = standard_flags;
    permanent_flags = standard_flags ++ flag_wildcard ∷ [];
    uid_next = 1;
    uid_validity = 1;
    subscribed = false;
  }

  -- `Append`; `is_zero` is `time.Time.IsZero` and `now` the value of `time.Now`.
  unfoldable pub append :
      (Time → Bool) → Time → Bytes → List Flag → Time → Mailbox Time → Message Time × Mailbox Time
  append is_zero now body flags date mbox =
      let msg : Message Time = record {
        uid = mbox.uid_next;
        flags = flags;
        internal_date = if is_zero date then now else date;
        size = length body;
        body = body;
      } in
      (
        msg,
        record mbox { messages = mbox.messages ++ msg ∷ []; uid_next = u32 (mbox.uid_next + 1) },
      )

  -- The test of the loop of `Expunge`.
  unfoldable pub is_expunged : Option NumSet → Message Time → Bool
  unfolding in_uid_set
  is_expunged uids msg = has_flag msg flag_deleted && in_uid_set uids msg.uid

  -- The loop: the sequence numbers taken out, and the messages that stay.
  unfoldable pub expunge_loop :
      Option NumSet → ℕ → List (Message Time) → List ℕ × List (Message Time)
  unfolding is_expunged
  expunge_loop uids i [] = ([], [])
  expunge_loop uids i (msg ∷ msgs) =
      let (expunged, remaining) = expunge_loop uids (i + 1) msgs in
      if is_expunged uids msg
      then (u32 (i + 1) ∷ expunged, remaining)
      else (expunged, msg ∷ remaining)

  unfoldable pub expunge : Option NumSet → Mailbox Time → List ℕ × Mailbox Time
  unfolding expunge_loop adjust
  expunge uids mbox =
      let (expunged, remaining) = expunge_loop uids 0 mbox.messages in
      (adjust 0 expunged, record mbox { messages = remaining })

  -- `none` is a nil message.
  unfoldable pub message_by_seq_num : Mailbox Time → ℕ → Option (Message Time)
  message_by_seq_num mbox zero = none
  message_by_seq_num mbox (suc i) = get_elem? mbox.messages i

  unfoldable pub find_uid : ℕ → ℕ → List (Message Time) → Option (Message Time × ℕ)
  find_uid uid i [] = none
  find_uid uid i (msg ∷ msgs) =
      if msg.uid == uid then some (msg, u32 (i + 1)) else find_uid uid (i + 1) msgs

  -- `none` is the pair of nil and 0.
  unfoldable pub message_by_uid : Mailbox Time → ℕ → Option (Message Time × ℕ)
  unfolding find_uid
  message_by_uid mbox uid = find_uid uid 0 mbox.messages

  unfoldable pub num_messages : Mailbox Time → ℕ
  num_messages mbox = u32 (length mbox.messages)

  -- The loops of `NumUnseen`, `NumRecent` and `NumDeleted`.
  unfoldable pub count_where : (Message Time → Bool) → List (Message Time) → ℕ → ℕ
  count_where p [] count = count
  count_where p (msg ∷ msgs) count = count_where p msgs (if p msg then u32 (count + 1) else count)

  unfoldable pub num_unseen : Mailbox Time → ℕ
  unfolding count_where
  num_unseen mbox = count_where (λ msg. not (has_flag msg flag_seen)) mbox.messages 0

  unfoldable pub num_recent : Mailbox Time → ℕ
  unfolding count_where
  num_recent mbox = count_where (λ msg. has_flag msg flag_recent) mbox.messages 0

  unfoldable pub num_deleted : Mailbox Time → ℕ
  unfolding count_where
  num_deleted mbox = count_where (λ msg. has_flag msg flag_deleted) mbox.messages 0

  unfoldable pub first_unseen_from : ℕ → List (Message Time) → ℕ
  first_unseen_from i [] = 0
  first_unseen_from i (msg ∷ msgs) =
      if not (has_flag msg flag_seen) then u32 (i + 1) else first_unseen_from (i + 1) msgs

  unfoldable pub first_unseen : Mailbox Time → ℕ
  unfolding first_unseen_from
  first_unseen mbox = first_unseen_from 0 mbox.messages

  -- The sum of the sizes; the `int64` of the source does not overflow on texts that fit in memory.
  unfoldable pub sum_sizes : List (Message Time) → ℕ → ℕ
  sum_sizes [] total = total
  sum_sizes (msg ∷ msgs) total = sum_sizes msgs (total + msg.size)

  unfoldable pub total_size : Mailbox Time → ℕ
  unfolding sum_sizes
  total_size mbox = sum_sizes mbox.messages 0

  unfoldable pub match_loop :
      List NumRange → NumKind → ℕ → ℕ → List (Message Time) → List (ℕ × Message Time)
  unfolding num_set_contains
  match_loop ranges kind max_num i [] = []
  match_loop ranges kind max_num i (msg ∷ msgs) =
      let rest = match_loop ranges kind max_num (i + 1) msgs in
      let num = num_of kind (u32 (i + 1)) msg.uid in
      if num_set_contains ranges num max_num then (u32 (i + 1), msg) ∷ rest else rest

  -- A match is a sequence number and a message.
  unfoldable pub matches_messages : Mailbox Time → NumSet → NumKind → List (ℕ × Message Time)
  unfolding match_loop
  matches_messages mbox set kind =
      match_loop set.ranges kind (u32 (length mbox.messages)) 0 mbox.messages

  -- `CopyMessageTo`: the UID of the copy, and the destination.
  unfoldable pub copy_message_to :
      (Time → Bool) → Time → Message Time → Mailbox Time → ℕ × Mailbox Time
  unfolding append copy_flags drop_flag
  copy_message_to is_zero now msg dest =
      let flags = drop_flag (copy_flags msg) flag_recent in
      let (new_msg, dest') = append is_zero now msg.body flags msg.internal_date dest in
      (new_msg.uid, dest')
