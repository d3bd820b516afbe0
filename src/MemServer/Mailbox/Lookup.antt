-- ===== src/MemServer/Mailbox/Lookup.antt =====
-- Messages by sequence number and by UID.
use imap_go.MemServer.Mailbox.Uids.{Ascends, IsWellFormed}
use imap_go.MemServer.Mailbox.{u32, Mailbox, find_uid, message_by_seq_num, message_by_uid}
use imap_go.MemServer.Message.{Message}
use imap_go.Prelude.{
  ℕ, zero, suc, ◌+◌, ◌^◌, ◌≤◌, ◌<◌, false, List, [], ◌∷◌, Option, some, ◌≡◌, ◌↔◌, sym, ap, ◌∙◌,
  arith, inl, inr, Bool-cases, length, get_elem?, ◌==◌, ==_refl, ==_iff,
}

get_elem?-lt {ℓ} :
    {A : Type ℓ} (xs : List A) (j : ℕ) {x : A} → get_elem? xs j ≡ some x → j < length xs
get_elem?-lt [] j h = absurd (ground arith)
get_elem?-lt (y ∷ xs) zero h = omega arith
get_elem?-lt (y ∷ xs) (suc j) h = omega (arith, get_elem?-lt xs j h)

pair_injective {ℓ κ} :
    {A : Type ℓ} {B : Type κ} {a c : A} {b d : B}
    → ◌≡◌ {A = Option (A × B)} (some (a, b)) (some (c, d))
    → (c ≡ a) × (d ≡ b)
pair_injective e = (cc, cc)

module _ {Time : Type 0} where
  Ascends-get :
      (lo : ℕ) (msgs : List (Message Time)) (hi j : ℕ) {msg : Message Time}
      → Ascends lo msgs hi
      → get_elem? msgs j ≡ some msg
      → lo ≤ msg.uid
  Ascends-get lo [] hi j a h = cc
  Ascends-get lo (m ∷ msgs) hi zero (a, as') h = ground arith
  Ascends-get lo (m ∷ msgs) hi (suc j) (a, as') h =
      omega (arith, Ascends-get (m.uid + 1) msgs hi j as' h)

  -- The message at place `j` is the one that the loop finds by its UID.
  find-get :
      (msgs : List (Message Time)) (lo hi i j : ℕ) (msg : Message Time)
      → Ascends lo msgs hi
      → get_elem? msgs j ≡ some msg
      → find_uid msg.uid i msgs ≡ some (msg, u32 (i + j + 1))
  unfolding find_uid
  find-get [] lo hi i j msg a h = cc
  find-get (m ∷ msgs) lo hi i zero msg (a, as') h =
      let same : msg ≡ m = cc in
      rw (same, ==_refl m.uid) (ap (λ (n : ℕ). some (m, u32 n)) (omega arith))
  find-get (m ∷ msgs) lo hi i (suc j) msg (a, as') h =
      let later = Ascends-get (m.uid + 1) msgs hi j as' h in
      let differ : (m.uid == msg.uid) ≡ false = ground arith in
      let place : i + 1 + j + 1 ≡ i + suc j + 1 = omega arith in
      rw differ
        (find-get msgs (m.uid + 1) hi (i + 1) j msg as' h ∙ ap (λ n. some (msg, u32 n)) place)

  get-find :
      (msgs : List (Message Time)) (u i n : ℕ) (msg : Message Time)
      → i + length msgs < 2 ^ 32
      → find_uid u i msgs ≡ some (msg, n)
      → (j : ℕ) × (n ≡ i + j + 1) × (get_elem? msgs j ≡ some msg) × (msg.uid ≡ u)
  unfolding find_uid
  get-find [] u i n msg h e = absurd (ground arith)
  get-find (m ∷ msgs) u i n msg h e = elim (Bool-cases (m.uid == u)) [
    | inl x ↦
        let (p, q) = pair_injective (rw x at e) in
        (zero, q ∙ omega arith, ap some (sym p), rw p ((==_iff m.uid u).0 x))
    | inr x ↦
        let (j, a, b, c) = get-find msgs u (i + 1) n msg (omega arith) (rw x at e) in
        (suc j, omega arith, b, c)
  ]

  -- In a well-formed mailbox the two lookups agree: a UID leads to a message and its sequence number
  -- exactly if that number leads to the message and the UID is its own.
  pub message_by_uid_iff :
      (mbox : Mailbox Time) (u n : ℕ) (msg : Message Time)
      → IsWellFormed mbox
      → length mbox.messages < 2 ^ 32
      → (message_by_uid mbox u ≡ some (msg, n))
        ↔ ((message_by_seq_num mbox n ≡ some msg) × (msg.uid ≡ u))
  unfolding message_by_uid message_by_seq_num
  message_by_uid_iff mbox u n msg w h = (
    λ e.
        let (j, a, b, c) = get-find mbox.messages u 0 n msg (omega arith) e in
        let place : n ≡ suc j = omega arith in (rw place b, c),
    λ (s, e). to_uid n s e,
  )
    where
      to_uid :
          (k : ℕ)
          → message_by_seq_num mbox k ≡ some msg
          → msg.uid ≡ u
          → message_by_uid mbox u ≡ some (msg, k)
      to_uid zero s e = cc
      to_uid (suc j) s e =
          let inside = get_elem?-lt mbox.messages j s in
          let place : u32 (0 + j + 1) ≡ suc j = omega arith in
          rw (sym e) (
            find-get mbox.messages 1 mbox.uid_next 0 j msg w s
            ∙ ap (λ (k : ℕ). some (msg, k)) place)
