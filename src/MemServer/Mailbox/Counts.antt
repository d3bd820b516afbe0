-- ===== src/MemServer/Mailbox/Counts.antt =====
-- The counters of a mailbox, and the first unseen message.
use mathlib.Core.Path.{subst}
use imap_go.MemServer.Mailbox.{
  u32, Mailbox, expunge_loop, expunge, adjust, num_messages, count_where, num_unseen, num_deleted,
  first_unseen_from, first_unseen, message_by_seq_num,
}
use imap_go.MemServer.Message.{Message, has_flag, flag_seen, flag_deleted}
use imap_go.Prelude.{
  ℕ, zero, suc, ◌+◌, ◌^◌, ◌<◌, Bool, true, false, not, List, [], ◌∷◌, none, some, ◌≡◌, refl, sym,
  ap, ◌∙◌, arith, ◌⊎◌, inl, inr, Bool-cases, if◌then◌else◌, length, get_elem?, take, All,
}

length-adjust : (i : ℕ) (seqs : List ℕ) → length (adjust i seqs) ≡ length seqs
unfolding adjust
length-adjust i [] = refl
length-adjust i (n ∷ seqs) = ap suc (length-adjust (i + 1) seqs)

module _ {Time : Type 0} where
  abbrev pub how_many : (Message Time → Bool) → List (Message Time) → ℕ
  how_many p [] = 0
  how_many p (msg ∷ msgs) = (if p msg then 1 else 0) + how_many p msgs

  count_where-how_many :
      (p : Message Time → Bool) (msgs : List (Message Time)) (c : ℕ)
      → c + length msgs < 2 ^ 32
      → count_where p msgs c ≡ c + how_many p msgs
  unfolding count_where
  count_where-how_many p [] c h = omega arith
  count_where-how_many p (msg ∷ msgs) c h = elim (Bool-cases (p msg)) [
    | inl e ↦ rw e (count_where-how_many p msgs (u32 (c + 1)) (omega arith) ∙ omega arith)
    | inr e ↦ rw e (count_where-how_many p msgs c (omega arith) ∙ omega arith)
  ]

  abbrev pub deleted : Message Time → Bool
  deleted msg = has_flag msg flag_deleted

  -- The loop of `Expunge` with no set takes out the deleted messages, all of them.
  loop_counts :
      (msgs : List (Message Time)) (i : ℕ)
      → (length (expunge_loop none i msgs).0 ≡ how_many deleted msgs)
        × (length (expunge_loop none i msgs).1 + how_many deleted msgs ≡ length msgs)
        × (how_many deleted (expunge_loop none i msgs).1 ≡ 0)
  unfolding expunge_loop
  loop_counts [] i = (refl, omega arith, refl)
  loop_counts (msg ∷ msgs) i = elim (Bool-cases (has_flag msg flag_deleted)) [
    | inl e ↦ let (a, b, c) = loop_counts msgs (i + 1) in rw e (omega arith, omega arith, c)
    | inr e ↦
        let (a, b, c) = loop_counts msgs (i + 1) in
        rw (e, e) (omega arith, omega arith, omega (arith, c))
  ]

  -- An `Expunge` with no set reports as many numbers as there were deleted messages, takes out that
  -- many, and leaves none that is deleted.
  expunge-counts :
      (mbox : Mailbox Time)
      → length mbox.messages < 2 ^ 32
      → (length (expunge none mbox).0 ≡ num_deleted mbox)
        × (num_messages (expunge none mbox).1 + num_deleted mbox ≡ num_messages mbox)
        × (num_deleted (expunge none mbox).1 ≡ 0)
  unfolding expunge num_messages num_deleted
  expunge-counts mbox h =
      let (a, b, c) = loop_counts mbox.messages 0 in
      let before = count_where-how_many deleted mbox.messages 0 (omega arith) in
      let after =
        count_where-how_many deleted (expunge_loop none 0 mbox.messages).1 0 (omega arith) in
      (
        omega (arith, length-adjust 0 (expunge_loop none 0 mbox.messages).0),
        omega arith,
        omega arith,
      )

  abbrev pub unseen : Message Time → Bool
  unseen msg = not (has_flag msg flag_seen)

  abbrev FirstUnseen : ℕ → List (Message Time) → ℕ → Type 0
  FirstUnseen i msgs n =
      ((n ≡ 0) × (how_many unseen msgs ≡ 0))
      ⊎ ((j : ℕ) × (msg : Message Time) × (n ≡ i + j + 1)
          × (get_elem? msgs j ≡ some msg)
          × (unseen msg ≡ true)
          × All (λ m. unseen m ≡ false) (take j msgs))

  seen_first :
      (msg : Message Time) (msgs : List (Message Time)) (i : ℕ)
      → unseen msg ≡ false
      → first_unseen_from i (msg ∷ msgs) ≡ first_unseen_from (i + 1) msgs
  unfolding first_unseen_from
  seen_first msg msgs i e = rw e refl

  loop-FirstUnseen :
      (msgs : List (Message Time)) (i : ℕ)
      → i + length msgs < 2 ^ 32
      → FirstUnseen i msgs (first_unseen_from i msgs)
  unfolding first_unseen_from
  loop-FirstUnseen [] i h = inl (refl, refl)
  loop-FirstUnseen (msg ∷ msgs) i h = elim (Bool-cases (unseen msg)) [
    | inl e ↦ rw e (inr (zero, msg, omega arith, refl, e, tt))
    | inr e ↦
        subst (FirstUnseen i (msg ∷ msgs)) (sym (seen_first msg msgs i e))
          (later e (loop-FirstUnseen msgs (i + 1) (omega arith)))
  ]
    where
      later :
          unseen msg ≡ false
          → FirstUnseen (i + 1) msgs (first_unseen_from (i + 1) msgs)
          → FirstUnseen i (msg ∷ msgs) (first_unseen_from (i + 1) msgs)
      later e (inl (a, b)) = inl (a, rw e (omega arith))
      later e (inr (j, m, a, b, c, d)) = inr (suc j, m, omega arith, b, c, (e, d))

  -- `FirstUnseen` is 0 exactly if `NumUnseen` is; otherwise it is the sequence number of a message
  -- without the seen flag, and each message before it has the flag.
  first_unseen-cases :
      (mbox : Mailbox Time)
      → length mbox.messages < 2 ^ 32
      → ((first_unseen mbox ≡ 0) × (num_unseen mbox ≡ 0))
        ⊎ ((j : ℕ) × (msg : Message Time) × (first_unseen mbox ≡ suc j)
            × (message_by_seq_num mbox (suc j) ≡ some msg)
            × (unseen msg ≡ true)
            × All (λ m. unseen m ≡ false) (take j mbox.messages))
  unfolding first_unseen num_unseen message_by_seq_num
  first_unseen-cases mbox h = cases (loop-FirstUnseen mbox.messages 0 (omega arith))
    where
      cases :
          FirstUnseen 0 mbox.messages (first_unseen_from 0 mbox.messages)
          → ((first_unseen mbox ≡ 0) × (num_unseen mbox ≡ 0))
            ⊎ ((j : ℕ) × (msg : Message Time) × (first_unseen mbox ≡ suc j)
                × (message_by_seq_num mbox (suc j) ≡ some msg)
                × (unseen msg ≡ true)
                × All (λ m. unseen m ≡ false) (take j mbox.messages))
      cases (inl (a, b)) =
          inl (a, count_where-how_many unseen mbox.messages 0 (omega arith) ∙ omega arith)
      cases (inr (j, m, a, b, c, d)) = inr (j, m, a ∙ omega arith, b, c, d)
