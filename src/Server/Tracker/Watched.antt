-- ===== src/Server/Tracker/Watched.antt =====
-- What the client of a selected session knows of the number of messages, through all that happens.
use imap_go.MemServer.Message.{Flag}
use mathlib.Core.Path.{subst}
use imap_go.Server.Tracker.Heard.{Hears, write_updates-Hears}
use imap_go.Prelude.{
  Bool, Bytes, ℕ, ◌+◌, ◌-◌, ◌<◌, true, false, List, [], ◌∷◌, ◌++◌, Option, some, ◌≡◌, refl, sym, ap,
  ◌∙◌, arith, ◌==◌, ==_refl, ltb, if◌then◌else◌, set_at,
}
use imap_go.Server.Tracker.Registered.{
  IsConsistent, Step, Step-IsConsistent, set_num_messages-IsConsistent, enter-clients,
}
use imap_go.Server.Tracker.Counts.{
  replay, count, pending, IsInStep, Elsewhere, count-enter, count-leave_from, queue_update-mailbox,
  replay-queue_update, count-queue_update, Elsewhere-clients, Elsewhere-count, Elsewhere-Step,
  queue_update-IsInStep, count-set_num_messages, queue_update-pending,
}
use imap_go.Server.Tracker.{
  Update, SessionTracker, put_client, exists_update, expunge_update, fetch_flags_update, Heap,
  select, leave, set_num_messages, queue_expunge, queue_new_message, queue_flags_update,
  queue_update, write_update, write_updates, flush,
}
use imap_go.Wire.Encoder.{Encoder}

-- What can happen while the session `st` is selected on `x`, from the selection on: `known` is the
-- number of messages that its client knows of, which it learns at the selection and from each
-- `Flush` that allows expunges. A direct call of `QueueUpdate` is for another mailbox.
pub data Watch (st x : ℕ) (h : Heap) : ℕ → Heap → Type 0 where
  selects_it : Watch st x h (h.mailboxes x).num_messages (select st (some x) h)
  then_expunged :
      {known : ℕ} {k : Heap} (t seq_num : ℕ)
      → Watch st x h known k
      → Watch st x h known (queue_expunge t seq_num k)
  then_grown :
      {known : ℕ} {k : Heap} (t : ℕ)
      → Watch st x h known k
      → Watch st x h known (queue_new_message t k)
  then_flagged :
      {known : ℕ} {k : Heap} (t seq_num : ℕ) (fs : List Flag)
      → Watch st x h known k
      → Watch st x h known (queue_flags_update t seq_num fs k)
  then_queued :
      {known : ℕ} {k : Heap} (t : ℕ) (u : Update)
      → (t == x) ≡ false
      → Watch st x h known k
      → Watch st x h known (queue_update t u k)
  then_elsewhere :
      {known : ℕ} {k l : Heap} → Watch st x h known k → Elsewhere st k l → Watch st x h known l
  then_flushed :
      {known : ℕ} {k : Heap} (w : Encoder)
      → Watch st x h known k
      → Watch st x h (replay known (k.clients st).updates) (flush st true w k).1

set_at-same : (f : ℕ → SessionTracker) (st : ℕ) (s : SessionTracker) → set_at f st s st ≡ s
set_at-same f st s = rw (==_refl st) refl

select-client :
    (st : ℕ) (o : Option ℕ) (h : Heap)
    → (select st o h).clients st ≡ record { mailbox = o; updates = [] }
unfolding select leave
select-client st o h = ap (λ f. f st) (enter-clients o st _) ∙ set_at-same (leave st h).clients st _

test_pred : (n : ℕ) → (if ltb 0 n then n - 1 else n) ≡ n - 1
test_pred n = ground arith

select-IsInStep : (st x : ℕ) (h : Heap) → IsInStep (count h x) st x (select st (some x) h)
unfolding select leave
select-IsInStep st x h = (
  ap (λ s. s.mailbox) (select-client st (some x) h),
  ap (λ s. replay (count h x) s.updates) (select-client st (some x) h)
      ∙ sym (
          count-enter (some x) st
            (put_client st (record { mailbox = some x; updates = [] }) (leave st h)) x
          ∙ count-leave_from (h.clients st).mailbox st h x),
)

flush-IsInStep :
    (known st x : ℕ) (w : Encoder) (h : Heap)
    → IsInStep known st x h
    → IsInStep (replay known (pending h st)) st x (flush st true w h).1
unfolding flush
flush-IsInStep known st x w h (m, r) = rw (==_refl st) (m, r)

same_count-IsInStep :
    (known st x t : ℕ) (u : Update) (h : Heap)
    → (if t == x then replay (count h x) (u ∷ []) else count h x) ≡ count h x
    → IsConsistent h
    → IsInStep known st x h
    → IsInStep known st x (queue_update t u h)
same_count-IsInStep known st x t u h same c (m, r) = (
  queue_update-mailbox t st u h ∙ m,
  replay-queue_update known st t x u h c m
      ∙ ap (λ n. if t == x then replay n (u ∷ []) else n) r
      ∙ same
      ∙ sym (count-queue_update t x u h),
)

if_same : (b : Bool) (n : ℕ) → (if b then n else n) ≡ n
if_same true n = refl
if_same false n = refl

queue_flags_update-IsInStep :
    (known st x t seq_num : ℕ) (fs : List Flag) (h : Heap)
    → IsConsistent h
    → IsInStep known st x h
    → IsInStep known st x (queue_flags_update t seq_num fs h)
unfolding queue_flags_update
queue_flags_update-IsInStep known st x t seq_num fs h =
    same_count-IsInStep known st x t (fetch_flags_update seq_num fs) h (if_same (t == x) _)

queue_expunge-IsInStep :
    (known st x t seq_num : ℕ) (h : Heap)
    → IsConsistent h
    → IsInStep known st x h
    → IsInStep known st x (queue_expunge t seq_num h)
unfolding queue_expunge
queue_expunge-IsInStep known st x t seq_num h =
    queue_update-IsInStep known st t x (expunge_update seq_num) _ h (test_pred (count h t))

queue_new_message-IsInStep :
    (known st x t : ℕ) (h : Heap)
    → IsConsistent h
    → IsInStep known st x h
    → IsInStep known st x (queue_new_message t h)
unfolding queue_new_message
queue_new_message-IsInStep known st x t h =
    queue_update-IsInStep known st t x (exists_update _) _ h refl

watch_lem :
    (st x : ℕ) (h : Heap)
    → IsConsistent h
    → (known : ℕ) (k : Heap) → Watch st x h known k
    → IsConsistent k × IsInStep known st x k
watch_lem st x h c known k selects_it =
    (Step-IsConsistent h k (Step.selected st (some x)) c, select-IsInStep st x h)
watch_lem st x h c known k (then_expunged {k = j} t n r) =
    let ih = watch_lem st x h c known j r in
    (
      Step-IsConsistent j k (Step.expunged t n) ih.0,
      queue_expunge-IsInStep known st x t n j ih.0 ih.1,
    )
watch_lem st x h c known k (then_grown {k = j} t r) =
    let ih = watch_lem st x h c known j r in
    (Step-IsConsistent j k (Step.grown t) ih.0, queue_new_message-IsInStep known st x t j ih.0 ih.1)
watch_lem st x h c known k (then_flagged {k = j} t n fs r) =
    let ih = watch_lem st x h c known j r in
    (
      Step-IsConsistent j k (Step.flagged t n fs) ih.0,
      queue_flags_update-IsInStep known st x t n fs j ih.0 ih.1,
    )
watch_lem st x h c known k (then_queued {k = j} t u e r) =
    let ih = watch_lem st x h c known j r in
    (
      Step-IsConsistent j k (Step.queued t u) ih.0,
      same_count-IsInStep known st x t u j
          (ap (λ b. if b then replay (count j x) (u ∷ []) else count j x) e) ih.0 ih.1,
    )
watch_lem st x h c known k (then_elsewhere {k = j} r e) =
    let ih = watch_lem st x h c known j r in
    let same = Elsewhere-clients st j k e in
    (
      Step-IsConsistent j k (Elsewhere-Step st j k e) ih.0,
      (
        ap (λ s. s.mailbox) same ∙ ih.1.0,
        ap (λ s. replay known s.updates) same ∙ ih.1.1 ∙ sym (Elsewhere-count st j k e x),
      ),
    )
watch_lem st x h c known k (then_flushed {known = n} {k = j} w r) =
    let ih = watch_lem st x h c n j r in
    (Step-IsConsistent j k (Step.flushed st true w) ih.0, flush-IsInStep n st x w j ih.1)

-- However the sessions and the mailboxes go on once a session has selected a mailbox of a
-- consistent heap, a flush that allows expunges writes responses from which its client, with what it
-- knows, hears how many messages the mailbox's tracker counts: the number that it is taken to know
-- behind the flush. All its flushes so far allowed expunges, and `QueueUpdate` was called directly
-- for other mailboxes only.
pub client_in_step :
    (st x : ℕ) (h : Heap)
    → IsConsistent h
    → (known : ℕ) (k : Heap) → Watch st x h known k
    → (w : Encoder)
    → (replay known (k.clients st).updates ≡ (k.mailboxes x).num_messages)
      × ((t : Bytes) × ((flush st true w k).0 ≡ w ++ t)
          × Hears known t (k.mailboxes x).num_messages)
unfolding flush
client_in_step st x h c known k r w =
    let same = (watch_lem st x h c known k r).1.1 in
    let (t, e, l) = write_updates-Hears (k.clients st).updates known w in
    (same, (t, e, subst (Hears known t) same l))

test_pred_suc : (n : ℕ) → 0 < n → (if ltb 0 n then n - 1 else n) + 1 ≡ n
test_pred_suc n h = ground arith

queue_expunge-count :
    (x seq_num : ℕ) (h : Heap)
    → count (queue_expunge x seq_num h) x ≡ (if ltb 0 (count h x) then count h x - 1 else count h x)
unfolding queue_expunge
queue_expunge-count x seq_num h =
    let n : ℕ = if ltb 0 (count h x) then count h x - 1 else count h x in
    count-queue_update x x (expunge_update seq_num) (set_num_messages x n h)
    ∙ count-set_num_messages x n x h
    ∙ ap (λ b. if b then n else count h x) (==_refl x)

write_updates_snoc :
    (us : List Update) (seq_num : ℕ) (w : Encoder)
    → write_updates false (us ++ expunge_update seq_num ∷ []) w ≡ write_updates false us w
unfolding write_updates
write_updates_snoc [] seq_num w = refl
write_updates_snoc (u ∷ us) seq_num w = write_updates_snoc us seq_num (write_update false u w)

-- An expunge of a mailbox that is not empty is queued for a session that is selected on it, in a
-- consistent heap, behind what is pending. A flush that does not allow expunges then loses it: the
-- flush writes what it would have written without the expunge and empties the queue, though the
-- mailbox's tracker counts a message less than before.
pub lost_expunge :
    (st x seq_num : ℕ) (w : Encoder) (h : Heap)
    → IsConsistent h
    → (h.clients st).mailbox ≡ some x
    → 0 < (h.mailboxes x).num_messages
    → let expunged = queue_expunge x seq_num h in
      let after = flush st false w expunged in
      ((expunged.clients st).updates ≡ (h.clients st).updates ++ expunge_update seq_num ∷ [])
      × (after.0 ≡ (flush st false w h).0)
      × ((after.1.clients st).updates ≡ [])
      × ((after.1.mailboxes x).num_messages + 1 ≡ (h.mailboxes x).num_messages)
unfolding flush queue_expunge set_num_messages
lost_expunge st x seq_num w h c m p =
    let queued =
      queue_update-pending st x (expunge_update seq_num) _ (set_num_messages-IsConsistent x _ h c)
        m in
    (
      queued,
      ap (λ us. write_updates false us w) queued
          ∙ write_updates_snoc (h.clients st).updates seq_num w,
      ap (λ s. s.updates) (set_at-same (queue_expunge x seq_num h).clients st _),
      ap (λ n. n + 1) (queue_expunge-count x seq_num h) ∙ test_pred_suc (count h x) p,
    )
