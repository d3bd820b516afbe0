-- ===== src/MemServer/Mailbox/Uids.antt =====
-- The UIDs of a mailbox ascend and stay below the next UID, through every operation.
use imap_go.Imap.NumSet.{NumSet}
use imap_go.MemServer.Mailbox.{
  Mailbox, new_mailbox, append, is_expunged, expunge_loop, expunge, copy_message_to,
}
use imap_go.MemServer.Message.{Flag, Message, flag_recent, drop_flag, copy_flags}
use imap_go.Prelude.{
  ℕ, ◌+◌, ◌^◌, ◌≤◌, ◌<◌, Bool, List, [], ◌∷◌, ◌++◌, Option, ◌≡◌, refl, arith, inl, inr, Bool-cases,
  Bytes,
}

module _ {Time : Type 0} where
  -- From `lo` on and below `hi`, ascending.
  abbrev pub Ascends : ℕ → List (Message Time) → ℕ → Type 0
  Ascends lo [] hi = lo ≤ hi
  Ascends lo (msg ∷ msgs) hi = (lo ≤ msg.uid) × Ascends (msg.uid + 1) msgs hi

  abbrev pub IsWellFormed : Mailbox Time → Type 0
  IsWellFormed mbox = Ascends 1 mbox.messages mbox.uid_next

  Ascends-lower :
      (lo lo' : ℕ) (msgs : List (Message Time)) (hi : ℕ)
      → lo ≤ lo'
      → Ascends lo' msgs hi
      → Ascends lo msgs hi
  Ascends-lower lo lo' [] hi h a = omega arith
  Ascends-lower lo lo' (msg ∷ msgs) hi h (a, as') = (omega arith, as')

  Ascends-append :
      (lo : ℕ) (msgs : List (Message Time)) (msg : Message Time) (hi : ℕ)
      → Ascends lo msgs msg.uid
      → msg.uid + 1 ≤ hi
      → Ascends lo (msgs ++ msg ∷ []) hi
  Ascends-append lo [] msg hi a h = (a, h)
  Ascends-append lo (m ∷ msgs) msg hi (a, as') h = (a, Ascends-append (m.uid + 1) msgs msg hi as' h)

  expunge_loop-Ascends :
      (uids : Option NumSet) (i lo : ℕ) (msgs : List (Message Time)) (hi : ℕ)
      → Ascends lo msgs hi
      → Ascends lo (expunge_loop uids i msgs).1 hi
  unfolding expunge_loop
  expunge_loop-Ascends uids i lo [] hi a = a
  expunge_loop-Ascends uids i lo (msg ∷ msgs) hi (a, as') =
      let ih = expunge_loop-Ascends uids (i + 1) (msg.uid + 1) msgs hi as' in
      elim (Bool-cases (is_expunged uids msg)) [
        | inl e ↦ rw e (Ascends-lower lo (msg.uid + 1) _ hi (omega arith) ih)
        | inr e ↦ rw e (a, ih)
      ]

  append-IsWellFormed :
      (is_zero : Time → Bool) (now : Time) (body : Bytes) (flags : List Flag) (date : Time)
      (mbox : Mailbox Time)
      → mbox.uid_next + 1 < 2 ^ 32
      → IsWellFormed mbox
      → IsWellFormed (append is_zero now body flags date mbox).1
  unfolding append
  append-IsWellFormed is_zero now body flags date mbox h w =
      Ascends-append 1 mbox.messages _ _ w (omega arith)

  -- A new mailbox is well formed, and `Append`, `CopyMessageTo` and `Expunge` keep a mailbox so, as
  -- long as the UIDs are not used up: the UIDs ascend with the sequence numbers and lie below the
  -- next one, which is the UID that a new message gets, and which no operation lowers.
  pub operations-IsWellFormed :
      (is_zero : Time → Bool) (now : Time) (body : Bytes) (flags : List Flag) (date : Time)
      (msg : Message Time) (uids : Option NumSet) (name : Bytes) (mbox : Mailbox Time)
      → mbox.uid_next + 1 < 2 ^ 32
      → IsWellFormed mbox
      → IsWellFormed (new_mailbox {Time = Time} name)
        × IsWellFormed (append is_zero now body flags date mbox).1
        × IsWellFormed (copy_message_to is_zero now msg mbox).1
        × IsWellFormed (expunge uids mbox).1
        × ((append is_zero now body flags date mbox).0.uid ≡ mbox.uid_next)
        × ((copy_message_to is_zero now msg mbox).0 ≡ mbox.uid_next)
        × ((append is_zero now body flags date mbox).1.uid_next ≡ mbox.uid_next + 1)
        × ((copy_message_to is_zero now msg mbox).1.uid_next ≡ mbox.uid_next + 1)
        × ((expunge uids mbox).1.uid_next ≡ mbox.uid_next)
  unfolding copy_message_to expunge new_mailbox
  operations-IsWellFormed is_zero now body flags date msg uids name mbox h w = (
    omega arith,
    append-IsWellFormed is_zero now body flags date mbox h w,
    append-IsWellFormed is_zero now msg.body (drop_flag (copy_flags msg) flag_recent)
        msg.internal_date mbox h w,
    expunge_loop-Ascends uids 0 1 mbox.messages mbox.uid_next w,
    refl,
    refl,
    omega arith,
    omega arith,
    refl,
  )
