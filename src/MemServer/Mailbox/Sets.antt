-- ===== src/MemServer/Mailbox/Sets.antt =====
-- Which messages a number set of a command selects.
use imap_go.Imap.NumSet.{NumRange, NumSet}
use imap_go.MemServer.Mailbox.{
  u32, Mailbox, NumKind, num_kind_uid, num_of, resolved_contains, num_set_contains, match_loop,
  matches_messages, message_by_seq_num,
}
use imap_go.MemServer.Message.{Message}
use imap_go.Prelude.{
  ℕ, zero, suc, ◌+◌, ◌^◌, ◌≤◌, ◌<◌, Bool, true, false, List, [], ◌∷◌, some, ◌≡◌, ◌↔◌, sym, ap,
  arith, ◌⊎◌, inl, inr, Bool-cases, if◌then◌else◌, length, get_elem?, ◌==◌, either_iff,
}

-- The value of an end: 0 stands for `*`, which is the largest number.
abbrev pub resolve : ℕ → ℕ → ℕ
resolve max_num n = if n == 0 then max_num else n

abbrev pub Within : ℕ → NumRange → ℕ → Type 0
Within max_num r num =
    ((resolve max_num r.start ≤ num) × (num ≤ resolve max_num r.stop))
    ⊎ ((resolve max_num r.stop ≤ num) × (num ≤ resolve max_num r.start))

abbrev pub WithinSome : ℕ → List NumRange → ℕ → Type 0
WithinSome max_num [] num = ⊥
WithinSome max_num (r ∷ rs) num = Within max_num r num ⊎ WithinSome max_num rs num

resolved_iff :
    (a b num : ℕ)
    → (resolved_contains a b num ≡ true) ↔ (((a ≤ num) × (num ≤ b)) ⊎ ((b ≤ num) × (num ≤ a)))
unfolding resolved_contains
resolved_iff a b num = ground arith

-- `numSetContains` is true exactly of the numbers between the ends of some range, in either order,
-- with `*` read as the largest number.
pub num_set_contains_iff :
    (rs : List NumRange) (num max_num : ℕ)
    → (num_set_contains rs num max_num ≡ true) ↔ WithinSome max_num rs num
unfolding num_set_contains
num_set_contains_iff [] num max_num = (λ h. absurd (ground arith), λ h. absurd h)
num_set_contains_iff (r ∷ rs) num max_num =
    either_iff _ _ (resolved_iff (resolve max_num r.start) (resolve max_num r.stop) num)
      (num_set_contains_iff rs num max_num)

abbrev Holds : List NumRange → NumKind → ℕ → ℕ → ℕ → Type 0
Holds ranges kind max_num n uid = WithinSome max_num ranges (num_of kind n uid)

module _ {Time : Type 0} where
  abbrev pub IsEntry : List (ℕ × Message Time) → ℕ → Message Time → Type 0
  IsEntry [] n msg = ⊥
  IsEntry ((k, m) ∷ ms) n msg = ((k ≡ n) × (m ≡ msg)) ⊎ IsEntry ms n msg

  match_sound :
      (ranges : List NumRange) (kind : NumKind) (max_num i : ℕ) (msgs : List (Message Time)) (n : ℕ)
      (msg : Message Time)
      → i + length msgs < 2 ^ 32
      → IsEntry (match_loop ranges kind max_num i msgs) n msg
      → (j : ℕ) × (n ≡ i + j + 1)
        × (get_elem? msgs j ≡ some msg)
        × Holds ranges kind max_num n msg.uid
  unfolding match_loop
  match_sound ranges kind max_num i [] n msg h e = absurd e
  match_sound ranges kind max_num i (m ∷ msgs) n msg h e =
      elim (Bool-cases (num_set_contains ranges (num_of kind (u32 (i + 1)) m.uid) max_num)) [
        | inl x ↦
            let more = λ (e' : IsEntry (match_loop ranges kind max_num (i + 1) msgs) n msg).
              later (match_sound ranges kind max_num (i + 1) msgs n msg (omega arith) e') in
            first x more (rw x at e)
        | inr x ↦
            later (match_sound ranges kind max_num (i + 1) msgs n msg (omega arith) (rw x at e))
      ]
    where
      Goal : Type 0
      Goal =
          (j : ℕ) × (n ≡ i + j + 1)
          × (get_elem? (m ∷ msgs) j ≡ some msg)
          × Holds ranges kind max_num n msg.uid

      later :
          (j : ℕ) × (n ≡ i + 1 + j + 1)
            × (get_elem? msgs j ≡ some msg)
            × Holds ranges kind max_num n msg.uid
          → Goal
      later (j, a, b, c) = (suc j, omega arith, b, c)

      first :
          num_set_contains ranges (num_of kind (u32 (i + 1)) m.uid) max_num ≡ true
          → (IsEntry (match_loop ranges kind max_num (i + 1) msgs) n msg → Goal)
          → ((u32 (i + 1) ≡ n) × (m ≡ msg))
            ⊎ IsEntry (match_loop ranges kind max_num (i + 1) msgs) n msg
          → Goal
      first x more (inl (a, b)) = (
        zero,
        omega arith,
        ap some b,
        rw (sym a, sym b) ((num_set_contains_iff ranges _ max_num).0 x),
      )
      first x more (inr e') = more e'

  match_complete :
      (ranges : List NumRange) (kind : NumKind) (max_num i j : ℕ) (msgs : List (Message Time))
      (msg : Message Time)
      → i + length msgs < 2 ^ 32
      → get_elem? msgs j ≡ some msg
      → Holds ranges kind max_num (i + j + 1) msg.uid
      → IsEntry (match_loop ranges kind max_num i msgs) (i + j + 1) msg
  unfolding match_loop
  match_complete ranges kind max_num i j [] msg h g w = absurd (ground arith)
  match_complete ranges kind max_num i zero (m ∷ msgs) msg h g w =
      let same : m ≡ msg = cc in
      let place : u32 (i + 1) ≡ i + 0 + 1 = omega arith in
      let holds : num_set_contains ranges (num_of kind (u32 (i + 1)) m.uid) max_num ≡ true =
        rw (place, same) ((num_set_contains_iff ranges _ max_num).1 w) in
      rw holds (inl (place, same))
  match_complete ranges kind max_num i (suc j) (m ∷ msgs) msg h g w =
      let place : i + 1 + j + 1 ≡ i + suc j + 1 = omega arith in
      let ih = match_complete ranges kind max_num (i + 1) j msgs msg (omega arith) g (rw place w) in
      later (num_set_contains ranges (num_of kind (u32 (i + 1)) m.uid) max_num) (rw place at ih)
    where
      later :
          (b : Bool)
          → IsEntry (match_loop ranges kind max_num (i + 1) msgs) (i + suc j + 1) msg
          → IsEntry
              (if b
                then (u32 (i + 1), m) ∷ match_loop ranges kind max_num (i + 1) msgs
                else match_loop ranges kind max_num (i + 1) msgs)
              (i + suc j + 1)
              msg
      later true e = inr e
      later false e = e

  -- `MatchesMessages` gives exactly the messages whose sequence number, or UID, lies in the set, each
  -- with its sequence number; `*` stands for the number of messages.
  pub matches_messages_iff :
      (mbox : Mailbox Time) (set : NumSet) (kind : NumKind) (n : ℕ) (msg : Message Time)
      → length mbox.messages < 2 ^ 32
      → IsEntry (matches_messages mbox set kind) n msg ↔ (
          (message_by_seq_num mbox n ≡ some msg)
          × WithinSome (length mbox.messages) set.ranges (num_of kind n msg.uid))
  unfolding matches_messages message_by_seq_num
  matches_messages_iff mbox set kind n msg h =
      let len : u32 (length mbox.messages) ≡ length mbox.messages = omega arith in
      (
        λ e.
            let (j, a, b, c) =
              match_sound set.ranges kind _ 0 mbox.messages n msg (omega arith) e in
            let place : n ≡ suc j = omega arith in (rw place b, rw len at c),
        λ (s, w). to_entry n s (rw len w),
      )
    where
      to_entry :
          (k : ℕ)
          → message_by_seq_num mbox k ≡ some msg
          → WithinSome (u32 (length mbox.messages)) set.ranges (num_of kind k msg.uid)
          → IsEntry (matches_messages mbox set kind) k msg
      to_entry zero s w = cc
      to_entry (suc j) s w =
          let place : 0 + j + 1 ≡ suc j = omega arith in
          rw place at (
            match_complete set.ranges kind (u32 (length mbox.messages)) 0 j mbox.messages msg
              (omega arith) s (rw place w))

  -- A UID set of `*` alone selects the message whose UID is the number of messages, if there is one,
  -- and not the message with the largest UID.
  uid_star :
      (mbox : Mailbox Time) (n : ℕ) (msg : Message Time)
      → length mbox.messages < 2 ^ 32
      → IsEntry
          (matches_messages mbox
            (record { ranges = record { start = 0; stop = 0 } ∷ [] })
            num_kind_uid)
          n
          msg
        ↔ ((message_by_seq_num mbox n ≡ some msg) × (msg.uid ≡ length mbox.messages))
  uid_star mbox n msg h =
      let i =
        matches_messages_iff mbox (record { ranges = record { start = 0; stop = 0 } ∷ [] })
          num_kind_uid n msg h in
      (λ e. ((i.0 e).0, exact (i.0 e).1), λ (s, e). i.1 (s, inl (inl (omega arith, omega arith))))
    where
      exact :
          WithinSome (length mbox.messages) (record { start = 0; stop = 0 } ∷ []) msg.uid
          → msg.uid ≡ length mbox.messages
      exact w = ground arith
