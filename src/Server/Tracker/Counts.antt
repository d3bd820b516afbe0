-- ===== src/Server/Tracker/Counts.antt =====
-- The number of messages that a session's client knows, against the one of the mailbox's tracker.
use imap_go.Prelude.{
  ℕ, ◌-◌, Bool, true, false, List, [], ◌∷◌, ◌++◌, append-nil, Option, none, some, ◌≡◌, refl, sym,
  ap, ◌∙◌, inl, inr, arith, Bool-cases, ◌==◌, ==_iff, ==_refl, if◌then◌else◌,
}
use imap_go.Server.Tracker.Registered.{
  IsConsistent, Step, selects, sessions_of, copies, queue_all-mailboxes, queue_all-mailbox,
  queue_all-updates, set_num_messages-IsConsistent, leave_from-clients, enter-clients,
}
use imap_go.Server.Tracker.{
  Update, exists_update, expunge_update, fetch_flags_update, Heap, MailboxTracker, add_session,
  remove_session, enter, leave_from, leave, select, unselect, queue_update, set_num_messages, flush,
}
use imap_go.Wire.Encoder.{Encoder}

-- What a client that knows of `n` messages knows after the updates.
abbrev pub replay : ℕ → List Update → ℕ
replay n [] = n
replay n (exists_update m ∷ us) = replay m us
replay n (expunge_update seq_num ∷ us) = replay (n - 1) us
replay n (fetch_flags_update seq_num fs ∷ us) = replay n us

replay-snoc :
    (n : ℕ) (us : List Update) (u : Update)
    → replay n (us ++ u ∷ []) ≡ replay (replay n us) (u ∷ [])
replay-snoc n [] u = refl
replay-snoc n (exists_update m ∷ us) u = replay-snoc m us u
replay-snoc n (expunge_update seq_num ∷ us) u = replay-snoc (n - 1) us u
replay-snoc n (fetch_flags_update seq_num fs ∷ us) u = replay-snoc n us u

abbrev pub count : Heap → ℕ → ℕ
count h x = (h.mailboxes x).num_messages

abbrev pub pending : Heap → ℕ → List Update
pending h st = (h.clients st).updates

pub replay-queue_update :
    (known st t x : ℕ) (u : Update) (h : Heap)
    → IsConsistent h
    → (h.clients st).mailbox ≡ some x
    → replay known (pending (queue_update t u h) st) ≡ (
        if t == x
        then replay (replay known (pending h st)) (u ∷ [])
        else replay known (pending h st))
unfolding queue_update
replay-queue_update known st t x u h c m =
    ap (replay known) (queue_all-updates (sessions_of h t) u h st)
    ∙ ap (λ n. replay known (pending h st ++ copies n u)) (c st t ∙ ap (λ o. selects o t) m)
    ∙ elim (Bool-cases (t == x)) [
      | inl e ↦ rw e (replay-snoc known (pending h st) u)
      | inr e ↦ rw e (ap (replay known) (append-nil (pending h st)))
    ]

pub count-queue_update :
    (t x : ℕ) (u : Update) (h : Heap) → count (queue_update t u h) x ≡ count h x
unfolding queue_update
count-queue_update t x u h =
    ap (λ f. (f x).num_messages) (queue_all-mailboxes (sessions_of h t) u h)

count-if :
    (b : Bool) (m k : MailboxTracker)
    → (if b then m else k).num_messages ≡ (if b then m.num_messages else k.num_messages)
count-if true m k = refl
count-if false m k = refl

pub count-set_num_messages :
    (t n x : ℕ) (h : Heap) → count (set_num_messages t n h) x ≡ (if x == t then n else count h x)
unfolding set_num_messages
count-set_num_messages t n x h = count-if (x == t) _ (h.mailboxes x)

pub queue_update-mailbox :
    (t st : ℕ) (u : Update) (h : Heap)
    → ((queue_update t u h).clients st).mailbox ≡ (h.clients st).mailbox
unfolding queue_update
queue_update-mailbox t st u h = queue_all-mailbox (sessions_of h t) u h st

==_sym : (a b : ℕ) → (a == b) ≡ (b == a)
==_sym a b = ground arith

-- A session that is selected on `x`, and whose client will know how many messages there are once it
-- has the updates that are pending.
abbrev pub IsInStep : ℕ → ℕ → ℕ → Heap → Type 0
IsInStep known st x h =
    ((h.clients st).mailbox ≡ some x)
    × (replay known (h.clients st).updates ≡ (h.mailboxes x).num_messages)

pub queue_update-IsInStep :
    (known st t x : ℕ) (u : Update) (n : ℕ) (h : Heap)
    → n ≡ replay (count h t) (u ∷ [])
    → IsConsistent h
    → IsInStep known st x h
    → IsInStep known st x (queue_update t u (set_num_messages t n h))
unfolding set_num_messages
queue_update-IsInStep known st t x u n h e c (m, r) = (
  queue_update-mailbox t st u _ ∙ m,
  replay-queue_update known st t x u _ (set_num_messages-IsConsistent t n h c) m
      ∙ ap (λ k. if t == x then replay k (u ∷ []) else k) r
      ∙ elim (Bool-cases (t == x)) [
        | inl s ↦ rw s (ap (λ y. replay (count h y) (u ∷ [])) (sym ((==_iff t x).0 s)) ∙ sym e)
        | inr s ↦ rw s refl
      ]
      ∙ ap (λ b. if b then n else count h x) (==_sym t x)
      ∙ sym (count-queue_update t x u (set_num_messages t n h) ∙ count-set_num_messages t n x h),
)

-- A write of a set leaves every count alone.
count-same :
    (b : Bool) (h : Heap) (x t : ℕ) (sts : List ℕ)
    → (b ≡ true → x ≡ t)
    → (if b then record (h.mailboxes t) { sessions = sts } else h.mailboxes x).num_messages
      ≡ count h x
count-same true h x t sts e = ap (count h) (sym (e refl))
count-same false h x t sts e = refl

pub count-leave_from :
    (o : Option ℕ) (st : ℕ) (h : Heap) (x : ℕ) → count (leave_from o st h) x ≡ count h x
unfolding leave_from remove_session
count-leave_from none st h x = refl
count-leave_from (some t) st h x = count-same (x == t) h x t _ (==_iff x t).0

pub count-enter : (o : Option ℕ) (st : ℕ) (h : Heap) (x : ℕ) → count (enter st o h) x ≡ count h x
unfolding enter add_session
count-enter none st h x = refl
count-enter (some t) st h x = count-same (x == t) h x t _ (==_iff x t).0

-- What another session does with its own tracker.
pub data Elsewhere (st : ℕ) (h : Heap) : Heap → Type 0 where
  selects_other : (q : ℕ) (mbox : Option ℕ) → (st == q) ≡ false → Elsewhere st h (select q mbox h)
  unselects_other : (q : ℕ) → (st == q) ≡ false → Elsewhere st h (unselect q h)
  flushes_other :
      (q : ℕ) (allow_expunge : Bool) (w : Encoder)
      → (st == q) ≡ false
      → Elsewhere st h (flush q allow_expunge w h).1

pub Elsewhere-clients : (st : ℕ) (h k : Heap) → Elsewhere st h k → k.clients st ≡ h.clients st
unfolding select unselect leave flush
Elsewhere-clients st h k (selects_other q o e) =
    ap (λ f. f st) (enter-clients o q _)
    ∙ rw e (ap (λ f. f st) (leave_from-clients (h.clients q).mailbox q h))
Elsewhere-clients st h k (unselects_other q e) =
    rw e (ap (λ f. f st) (leave_from-clients (h.clients q).mailbox q h))
Elsewhere-clients st h k (flushes_other q b w e) = rw e refl

pub Elsewhere-count : (st : ℕ) (h k : Heap) → Elsewhere st h k → (x : ℕ) → count k x ≡ count h x
unfolding select unselect leave flush
Elsewhere-count st h k (selects_other q o e) x =
    count-enter o q _ x ∙ count-leave_from (h.clients q).mailbox q h x
Elsewhere-count st h k (unselects_other q e) x = count-leave_from (h.clients q).mailbox q h x
Elsewhere-count st h k (flushes_other q b w e) x = refl

pub Elsewhere-Step : (st : ℕ) (h k : Heap) → Elsewhere st h k → Step h k
Elsewhere-Step st h k (selects_other q o e) = Step.selected q o
Elsewhere-Step st h k (unselects_other q e) = Step.unselected q
Elsewhere-Step st h k (flushes_other q b w e) = Step.flushed q b w

pub queue_update-pending :
    (st t : ℕ) (u : Update) (h : Heap)
    → IsConsistent h
    → (h.clients st).mailbox ≡ some t
    → pending (queue_update t u h) st ≡ pending h st ++ u ∷ []
unfolding queue_update
queue_update-pending st t u h c m =
    queue_all-updates (sessions_of h t) u h st
    ∙ ap (λ n. pending h st ++ copies n u)
        (c st t ∙ ap (λ o. selects o t) m ∙ ap (λ b. if b then 1 else 0) (==_refl t))
