-- ===== src/MemServer/Mailbox/Expunge.antt =====
-- `Expunge` against a client that removes the reported sequence numbers one after the other.
use mathlib.Core.Bool.{false≢true}
use imap_go.Imap.NumSet.Members.{InsideRange, SomeRange, contains_iff}
use imap_go.Imap.NumSet.{NumSet}
use imap_go.MemServer.Mailbox.{
  u32, sub32, Mailbox, in_uid_set, adjust, is_expunged, expunge_loop, expunge,
}
use imap_go.MemServer.Message.{Flag, Message, flag_deleted, some_flag, has_flag}
use imap_go.Prelude.{
  Bool, true, false, none, some, ◌⊎◌, ◌↔◌, ◌&&◌, codes, to_upper, equal_fold, equal_iff, either_iff,
  ℕ, zero, suc, ◌+◌, ◌^◌, ◌<◌, List, [], ◌∷◌, ◌++◌, Option, ◌≡◌, refl, sym, ap, ◌∙◌, arith, inl,
  inr, Bool-cases, length, length-append, append_assoc,
}

module _ {ℓ} {A : Type ℓ} where
  -- What an EXPUNGE response of a number asks of a client: to take that message out and to close the
  -- gap. A number that is 0 or too large takes out nothing.
  abbrev pub remove_at : ℕ → List A → List A
  remove_at zero xs = xs
  remove_at (suc n) [] = []
  remove_at (suc zero) (x ∷ xs) = xs
  remove_at (suc (suc n)) (x ∷ xs) = x ∷ remove_at (suc n) xs

  abbrev pub replay : List ℕ → List A → List A
  replay [] xs = xs
  replay (n ∷ ns) xs = replay ns (remove_at n xs)

  remove_at-append :
      (xs : List A) (y : A) (ys : List A) → remove_at (suc (length xs)) (xs ++ y ∷ ys) ≡ xs ++ ys
  remove_at-append [] y ys = refl
  remove_at-append (x ∷ xs) y ys = ap (◌∷◌ x) (remove_at-append xs y ys)

-- A flag among them reads \Deleted, in some case.
abbrev pub IsDeleted : List Flag → Type 0
IsDeleted [] = ⊥
IsDeleted (f ∷ fs) = (to_upper f ≡ codes "\\DELETED") ⊎ IsDeleted fs

abbrev pub IsInSet : Option NumSet → ℕ → Type 0
IsInSet none uid = Unit
IsInSet (some uids) uid = SomeRange (λ r. InsideRange r uid) uids.ranges

abbrev pub IsGone : {Time : Type 0} → Option NumSet → Message Time → Type 0
IsGone uids msg = IsDeleted msg.flags × IsInSet uids msg.uid

-- The messages that an EXPUNGE keeps, in order.
pub data Keeps {Time : Type 0} (uids : Option NumSet)
    : List (Message Time) → List (Message Time) → Type 0 where
  ends : Keeps uids [] []
  goes :
      {msg : Message Time} {msgs rest : List (Message Time)}
      → IsGone uids msg
      → Keeps uids msgs rest
      → Keeps uids (msg ∷ msgs) rest
  stays :
      {msg : Message Time} {msgs rest : List (Message Time)}
      → ¬ IsGone uids msg
      → Keeps uids msgs rest
      → Keeps uids (msg ∷ msgs) (msg ∷ rest)

some_flag_iff : (fs : List Flag) → (some_flag fs flag_deleted ≡ true) ↔ IsDeleted fs
unfolding some_flag equal_fold to_upper
some_flag_iff [] = (λ h. absurd (false≢true h), λ h. absurd h)
some_flag_iff (f ∷ fs) =
    either_iff _ _ (equal_iff (to_upper f) (codes "\\DELETED")) (some_flag_iff fs)

in_uid_set_iff : (uids : Option NumSet) (uid : ℕ) → (in_uid_set uids uid ≡ true) ↔ IsInSet uids uid
unfolding in_uid_set
in_uid_set_iff none uid = (λ h. tt, λ h. refl)
in_uid_set_iff (some uids) uid = contains_iff uids uid

both_iff :
    {P Q : Type 0} (b c : Bool) → (b ≡ true) ↔ P → (c ≡ true) ↔ Q → ((b && c) ≡ true) ↔ (P × Q)
both_iff true c p q = (λ h. (p.0 refl, q.0 h), λ h. q.1 h.1)
both_iff false c p q = (λ h. absurd (false≢true h), λ h. absurd (false≢true (p.1 h.0)))

module _ {Time : Type 0} (uids : Option NumSet) where
  -- `kept` are the messages behind the loop that stay, and `k` is the number of those taken out.
  replay-loop :
      (msgs kept : List (Message Time)) (i k : ℕ)
      → length kept + k ≡ i
      → i + length msgs < 2 ^ 32
      → replay (adjust k (expunge_loop uids i msgs).0) (kept ++ msgs)
        ≡ kept ++ (expunge_loop uids i msgs).1
  unfolding expunge_loop adjust
  replay-loop [] kept i k e h = refl
  replay-loop (msg ∷ msgs) kept i k e h =
      let place : sub32 (u32 (i + 1)) (u32 k) ≡ suc (length kept) = omega arith in
      elim (Bool-cases (is_expunged uids msg)) [
        | inl x ↦
            rw (x, place, remove_at-append kept msg msgs)
              (replay-loop msgs kept (i + 1) (k + 1) (omega arith) (omega arith))
        | inr x ↦ rw x (
            ap (replay (adjust k (expunge_loop uids (i + 1) msgs).0))
              (sym (append_assoc kept (msg ∷ []) msgs))
            ∙ replay-loop msgs (kept ++ msg ∷ []) (i + 1) k
                (omega (arith, length-append kept (msg ∷ []))) (omega arith)
            ∙ append_assoc kept (msg ∷ []) _)
      ]

  is_expunged_iff : (msg : Message Time) → (is_expunged uids msg ≡ true) ↔ IsGone uids msg
  unfolding is_expunged has_flag
  is_expunged_iff msg =
      both_iff (some_flag msg.flags flag_deleted) (in_uid_set uids msg.uid)
        (some_flag_iff msg.flags) (in_uid_set_iff uids msg.uid)

  expunge_loop-Keeps :
      (msgs : List (Message Time)) (i : ℕ) → Keeps uids msgs (expunge_loop uids i msgs).1
  unfolding expunge_loop
  expunge_loop-Keeps [] i = ends
  expunge_loop-Keeps (msg ∷ msgs) i = elim (Bool-cases (is_expunged uids msg)) [
    | inl x ↦ rw x (goes ((is_expunged_iff msg).0 x) (expunge_loop-Keeps msgs (i + 1)))
    | inr x ↦ rw x (
        stays (λ g. false≢true (sym x ∙ (is_expunged_iff msg).1 g))
          (expunge_loop-Keeps msgs (i + 1)))
  ]

  -- `Expunge` takes out exactly the messages that have a flag that reads \Deleted in some case and,
  -- where there is a set, a UID of the set, and keeps the others in order; and a client that holds the
  -- old messages and removes the reported numbers, one after the other, holds the same. There are
  -- fewer than 2^32 messages.
  pub replay-expunge :
      (mbox : Mailbox Time)
      → length mbox.messages < 2 ^ 32
      → Keeps uids mbox.messages (expunge uids mbox).1.messages
        × (replay (expunge uids mbox).0 mbox.messages ≡ (expunge uids mbox).1.messages)
  unfolding expunge
  replay-expunge mbox h = (
    expunge_loop-Keeps mbox.messages 0,
    replay-loop mbox.messages [] 0 0 (omega arith) (omega arith),
  )
