-- ===== src/Server/Tracker/Registered.antt =====
-- A session stands in the set of the mailbox that it points at, once, and in no other.
use imap_go.MemServer.Message.{Flag}
use imap_go.Prelude.{
  ℕ, ◌≤◌, Bool, true, false, List, [], ◌∷◌, ◌++◌, append-nil, append_assoc, Option, none, some, ◌≡◌,
  refl, sym, ap, ◌∙◌, inl, inr, arith, Bool-cases, ◌==◌, ==_iff, ==_refl, suc, zero, if◌then◌else◌,
}
use imap_go.Server.Tracker.{
  Update, MailboxTracker, SessionTracker, Heap, insert, delete, leave_from, add_session,
  remove_session, leave, enter, select, unselect, queue_one, queue_all, queue_update,
  set_num_messages, queue_expunge, queue_new_message, queue_flags_update, flush,
}
use imap_go.Wire.Encoder.{Encoder}

abbrev pub occurrences : ℕ → List ℕ → ℕ
occurrences q [] = 0
occurrences q (p ∷ ps) = if q == p then suc (occurrences q ps) else occurrences q ps

-- How often a session that points at `mbox` has to stand in the set of `t`.
abbrev pub selects : Option ℕ → ℕ → ℕ
selects none t = 0
selects (some m) t = if t == m then 1 else 0

abbrev pub IsConsistent : Heap → Type 0
IsConsistent h =
    (q t : ℕ) → occurrences q (h.mailboxes t).sessions ≡ selects (h.clients q).mailbox t

occurrences-insert :
    (q st : ℕ) (ps : List ℕ)
    → occurrences st ps ≤ 0
    → occurrences q (insert st ps) ≡ (if q == st then 1 else occurrences q ps)
unfolding insert
occurrences-insert q st [] h = ground arith
occurrences-insert q st (p ∷ ps) h = ground (arith, occurrences-insert q st ps)

occurrences-delete :
    (q st : ℕ) (ps : List ℕ)
    → occurrences q (delete st ps) ≡ (if q == st then 0 else occurrences q ps)
unfolding delete
occurrences-delete q st [] = ground arith
occurrences-delete q st (p ∷ ps) = ground (arith, occurrences-delete q st ps)

pub leave_from-clients :
    (o : Option ℕ) (st : ℕ) (h : Heap) → (leave_from o st h).clients ≡ h.clients
unfolding leave_from remove_session
leave_from-clients none st h = refl
leave_from-clients (some m) st h = refl

-- The set of `t` in a heap.
abbrev pub sessions_of : Heap → ℕ → List ℕ
sessions_of h t = (h.mailboxes t).sessions

occurrences-if :
    (b : Bool) (x y : MailboxTracker) (q : ℕ)
    → occurrences q (if b then x else y).sessions
      ≡ (if b then occurrences q x.sessions else occurrences q y.sessions)
occurrences-if true x y q = refl
occurrences-if false x y q = refl

occurrences-leave_from :
    (o : Option ℕ) (st : ℕ) (h : Heap)
    → ((t : ℕ) → occurrences st (sessions_of h t) ≡ selects o t)
    → (q t : ℕ)
    → occurrences q (sessions_of (leave_from o st h) t)
      ≡ (if q == st then 0 else occurrences q (sessions_of h t))
unfolding leave_from remove_session
occurrences-leave_from none st h c q t = elim (Bool-cases (q == st)) [
  | inl s ↦ rw s (rw ((==_iff q st).0 s) (c t))
  | inr s ↦ rw s refl
]
occurrences-leave_from (some m) st h c q t =
    occurrences-if (t == m) _ (h.mailboxes t) q ∙ elim (Bool-cases (t == m)) [
      | inl s ↦ rw s (
          occurrences-delete q st (sessions_of h m)
          ∙ ap (λ x. if q == st then 0 else occurrences q (sessions_of h x))
              (sym ((==_iff t m).0 s)))
      | inr s ↦ rw s (elim (Bool-cases (q == st)) [
        | inl e ↦ rw e (rw ((==_iff q st).0 e) (c t ∙ ap (λ b. if b then 1 else 0) s))
        | inr e ↦ rw e refl
      ])
    ]

-- What a session's set becomes once it has left its mailbox and enters another, or none.
occurrences-enter :
    (o : Option ℕ) (st : ℕ) (h : Heap)
    → ((t : ℕ) → occurrences st (sessions_of h t) ≡ 0)
    → (q t : ℕ)
    → occurrences q (sessions_of (enter st o h) t)
      ≡ (if q == st then selects o t else occurrences q (sessions_of h t))
unfolding enter add_session
occurrences-enter none st h c q t = elim (Bool-cases (q == st)) [
  | inl s ↦ rw s (rw ((==_iff q st).0 s) (c t))
  | inr s ↦ rw s refl
]
occurrences-enter (some m) st h c q t =
    occurrences-if (t == m) _ (h.mailboxes t) q ∙ elim (Bool-cases (t == m)) [
      | inl s ↦ rw s (
          occurrences-insert q st (sessions_of h m) (omega (arith, c m))
          ∙ ap (λ x. if q == st then 1 else occurrences q (sessions_of h x))
              (sym ((==_iff t m).0 s)))
      | inr s ↦ rw s (elim (Bool-cases (q == st)) [
        | inl e ↦ rw e (rw ((==_iff q st).0 e) (c t))
        | inr e ↦ rw e refl
      ])
    ]

pub enter-clients : (o : Option ℕ) (st : ℕ) (h : Heap) → (enter st o h).clients ≡ h.clients
unfolding enter add_session
enter-clients none st h = refl
enter-clients (some m) st h = refl

mailbox-if :
    (b : Bool) (x y : SessionTracker)
    → (if b then x else y).mailbox ≡ (if b then x.mailbox else y.mailbox)
mailbox-if true x y = refl
mailbox-if false x y = refl

-- Selecting or unselecting: what the session leaves and enters, and where it points.
moved :
    (o : Option ℕ) (st : ℕ) (h : Heap)
    → IsConsistent h
    → (q t : ℕ)
    → (if q == st then selects o t else if q == st then 0 else occurrences q (sessions_of h t))
      ≡ selects (if q == st then o else (h.clients q).mailbox) t
moved o st h c q t = elim (Bool-cases (q == st)) [ inl e ↦ rw e refl | inr e ↦ rw e (c q t) ]

select-IsConsistent :
    (o : Option ℕ) (st : ℕ) (h : Heap) → IsConsistent h → IsConsistent (select st o h)
unfolding select leave
select-IsConsistent o st h c q t =
    let from = (h.clients st).mailbox in
    let left = occurrences-leave_from from st h (c st) in
    occurrences-enter o st _
      (λ x. left st x ∙ ap (λ b. if b then 0 else occurrences st (sessions_of h x)) (==_refl st)) q
      t
    ∙ ap (λ n. if q == st then selects o t else n) (left q t)
    ∙ moved o st h c q t
    ∙ ap (λ m. selects m t) (sym (clients_at))
  where
    clients_at :
        ((select st o h).clients q).mailbox ≡ (if q == st then o else (h.clients q).mailbox)
    clients_at =
        ap (λ f. (f q).mailbox) (enter-clients o st _)
        ∙ mailbox-if (q == st) _ _
        ∙ ap (λ f. if q == st then o else (f q).mailbox)
            (leave_from-clients (h.clients st).mailbox st h)

unselect-IsConsistent : (st : ℕ) (h : Heap) → IsConsistent h → IsConsistent (unselect st h)
unfolding unselect leave
unselect-IsConsistent st h c q t =
    occurrences-leave_from (h.clients st).mailbox st h (c st) q t ∙ (elim (Bool-cases (q == st)) [
      | inl e ↦ rw e refl
      | inr e ↦ rw e (
          c q t
          ∙ ap (λ f. selects (f q).mailbox t)
              (sym (leave_from-clients (h.clients st).mailbox st h)))
    ])

-- What queueing an update leaves as it was, and what it adds to each session.
abbrev pub copies : ℕ → Update → List Update
copies zero u = []
copies (suc n) u = u ∷ copies n u

pub queue_all-mailboxes :
    (sts : List ℕ) (u : Update) (h : Heap) → (queue_all sts u h).mailboxes ≡ h.mailboxes
unfolding queue_all queue_one
queue_all-mailboxes [] u h = refl
queue_all-mailboxes (st ∷ sts) u h = queue_all-mailboxes sts u _

pub queue_all-mailbox :
    (sts : List ℕ) (u : Update) (h : Heap) (q : ℕ)
    → ((queue_all sts u h).clients q).mailbox ≡ (h.clients q).mailbox
unfolding queue_all queue_one
queue_all-mailbox [] u h q = refl
queue_all-mailbox (st ∷ sts) u h q =
    queue_all-mailbox sts u _ q
    ∙ mailbox-if (q == st) _ (h.clients q)
    ∙ elim (Bool-cases (q == st)) [
      | inl e ↦ rw e (ap (λ x. (h.clients x).mailbox) (sym ((==_iff q st).0 e)))
      | inr e ↦ rw e refl
    ]

updates-if :
    (b : Bool) (x y : SessionTracker)
    → (if b then x else y).updates ≡ (if b then x.updates else y.updates)
updates-if true x y = refl
updates-if false x y = refl

pub queue_all-updates :
    (sts : List ℕ) (u : Update) (h : Heap) (q : ℕ)
    → ((queue_all sts u h).clients q).updates
      ≡ (h.clients q).updates ++ copies (occurrences q sts) u
unfolding queue_all queue_one
queue_all-updates [] u h q = sym (append-nil _)
queue_all-updates (st ∷ sts) u h q =
    queue_all-updates sts u _ q
    ∙ ap (λ us. us ++ copies (occurrences q sts) u) (updates-if (q == st) _ (h.clients q))
    ∙ elim (Bool-cases (q == st)) [
      | inl e ↦ rw e (
          append_assoc _ (u ∷ []) (copies (occurrences q sts) u)
          ∙ ap (λ x. (h.clients x).updates ++ u ∷ copies (occurrences q sts) u)
              (sym ((==_iff q st).0 e)))
      | inr e ↦ rw e refl
    ]

queue_update-IsConsistent :
    (t : ℕ) (u : Update) (h : Heap) → IsConsistent h → IsConsistent (queue_update t u h)
unfolding queue_update
queue_update-IsConsistent t u h c q x =
    ap (λ f. occurrences q (f x).sessions) (queue_all-mailboxes (sessions_of h t) u h)
    ∙ c q x
    ∙ ap (λ m. selects m x) (sym (queue_all-mailbox (sessions_of h t) u h q))

set_num_messages-sessions :
    (t n : ℕ) (h : Heap) (x : ℕ) → sessions_of (set_num_messages t n h) x ≡ sessions_of h x
unfolding set_num_messages
set_num_messages-sessions t n h x = go (x == t) (==_iff x t).0
  where
    go :
        (b : Bool)
        → (b ≡ true → x ≡ t)
        → (if b then record (h.mailboxes t) { num_messages = n } else h.mailboxes x).sessions
          ≡ sessions_of h x
    go true e = ap (sessions_of h) (sym (e refl))
    go false e = refl

pub set_num_messages-IsConsistent :
    (t n : ℕ) (h : Heap) → IsConsistent h → IsConsistent (set_num_messages t n h)
unfolding set_num_messages
set_num_messages-IsConsistent t n h c q x =
    ap (occurrences q) (set_num_messages-sessions t n h x) ∙ c q x

flush-mailbox :
    (st : ℕ) (b : Bool) (w : Encoder) (h : Heap) (q : ℕ)
    → ((flush st b w h).1.clients q).mailbox ≡ (h.clients q).mailbox
unfolding flush
flush-mailbox st b w h q = go (q == st) (==_iff q st).0
  where
    go :
        (b : Bool)
        → (b ≡ true → q ≡ st)
        → (if b then record (h.clients st) { updates = [] } else h.clients q).mailbox
          ≡ (h.clients q).mailbox
    go true e = ap (λ x. (h.clients x).mailbox) (sym (e refl))
    go false e = refl

flush-IsConsistent :
    (st : ℕ) (b : Bool) (w : Encoder) (h : Heap) → IsConsistent h → IsConsistent (flush st b w h).1
unfolding flush
flush-IsConsistent st b w h c q x = c q x ∙ ap (λ m. selects m x) (sym (flush-mailbox st b w h q))

-- One call of a method of a tracker: any of those that change a tracker once it is made.
pub data Step (h : Heap) : Heap → Type 0 where
  selected : (st : ℕ) (mbox : Option ℕ) → Step h (select st mbox h)
  unselected : (st : ℕ) → Step h (unselect st h)
  expunged : (t seq_num : ℕ) → Step h (queue_expunge t seq_num h)
  grown : (t : ℕ) → Step h (queue_new_message t h)
  flagged : (t seq_num : ℕ) (fs : List Flag) → Step h (queue_flags_update t seq_num fs h)
  queued : (t : ℕ) (u : Update) → Step h (queue_update t u h)
  flushed : (st : ℕ) (allow_expunge : Bool) (w : Encoder) → Step h (flush st allow_expunge w h).1

-- Every exported method that changes a tracker, `QueueUpdate` with any update among them, keeps the
-- trackers consistent: a session stands in the set of the mailbox that it points at, once, and in the
-- set of no other mailbox.
pub Step-IsConsistent : (h k : Heap) → Step h k → IsConsistent h → IsConsistent k
unfolding queue_expunge queue_new_message queue_flags_update
Step-IsConsistent h k (selected st mbox) c = select-IsConsistent mbox st h c
Step-IsConsistent h k (unselected st) c = unselect-IsConsistent st h c
Step-IsConsistent h k (expunged t n) c =
    queue_update-IsConsistent t _ _ (set_num_messages-IsConsistent t _ h c)
Step-IsConsistent h k (grown t) c =
    queue_update-IsConsistent t _ _ (set_num_messages-IsConsistent t _ h c)
Step-IsConsistent h k (flagged t n fs) c = queue_update-IsConsistent t _ h c
Step-IsConsistent h k (queued t u) c = queue_update-IsConsistent t u h c
Step-IsConsistent h k (flushed st b w) c = flush-IsConsistent st b w h c
