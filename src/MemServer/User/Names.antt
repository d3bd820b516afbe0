-- ===== src/MemServer/User/Names.antt =====
-- Entries and the names of the mailboxes that they lead to, through creation, deletion and renaming.
use imap_go.MemServer.Mailbox.{Mailbox, new_mailbox}
use imap_go.MemServer.User.{
  UserData, UserError, cannot_delete_inbox, inbox_name, normalize_inbox, or_else, get_mailbox,
  create_at, create_mailbox, delete_at, delete_mailbox, rename_at, rename_mailbox,
}
use mathlib.Core.Bool.{false≢true}
use mathlib.Core.Path.{subst}
use imap_go.Prelude.{
  ℕ, ◌<◌, Bool, true, false, List, Option, none, some, Option-cases, ◌≡◌, refl, sym, ap, ◌∙◌, inl,
  inr, arith, Bool-cases, Bytes, equal, equal_iff, equal_refl, ◌==◌, ==_iff, ==_refl, if◌then◌else◌,
  All, All-map, lookup, store, erase, lookup-store, lookup-erase, All-store, All-erase, All-lookup,
}

lookup-moved :
    (old_name new_name q : Bytes) (p : ℕ) (es : List (Bytes × ℕ))
    → lookup q (store new_name p (erase old_name es))
      ≡ (if equal new_name q then some p else if equal old_name q then none else lookup q es)
lookup-moved old_name new_name q p es =
    lookup-store new_name q p (erase old_name es)
    ∙ ap (λ o. if equal new_name q then some p else o) (lookup-erase old_name q es)

not_inbox :
    (old_name : Bytes) (p : ℕ) (es : List (Bytes × ℕ))
    → lookup old_name es ≡ none
    → lookup inbox_name es ≡ some p
    → equal old_name inbox_name ≡ false
not_inbox old_name p es l i = elim (Bool-cases (equal old_name inbox_name)) [
  | inr e ↦ e
  | inl e ↦
      absurd (none≢some p (sym l ∙ ap (λ n. lookup n es) ((equal_iff old_name inbox_name).0 e) ∙ i))
]
  where
    none≢some : (x : ℕ) → none ≡ some x → ⊥
    none≢some x h = cc

module _ {Time : Type 0} where
  abbrev pub IsNamed : (ℕ → Mailbox Time) → ℕ → Bytes × ℕ → Type 0
  IsNamed boxes next e = ((boxes e.1).name ≡ e.0) × (e.1 < next)

  -- Every entry leads to a mailbox in use that bears the entry's name.
  abbrev pub IsWellNamed : UserData Time → Type 0
  IsWellNamed u = All (IsNamed u.boxes u.next) u.entries

  name-set_at :
      (b : Bool) (x y : Mailbox Time) → (if b then x else y).name ≡ (if b then x.name else y.name)
  name-set_at true x y = refl
  name-set_at false x y = refl

  create_at-IsWellNamed :
      (o : Option ℕ) (name : Bytes) (u : UserData Time)
      → IsWellNamed u
      → IsWellNamed (create_at o name u).1
  unfolding create_at new_mailbox
  create_at-IsWellNamed (some p) name u w = w
  create_at-IsWellNamed none name u w =
      All-store _ name u.next u.entries
        (name-set_at (u.next == u.next) _ _ ∙ rw (==_refl u.next) refl, omega arith)
        (All-map _ _
          (λ e h. (name-set_at (e.1 == u.next) _ _ ∙ rw (older e.1 h.1) h.0, omega (arith, h.1)))
          u.entries w)
    where
      older : (p : ℕ) → p < u.next → (p == u.next) ≡ false
      older p h = ground arith

  delete_at-IsWellNamed :
      (o : Option ℕ) (name : Bytes) (u : UserData Time)
      → IsWellNamed u
      → IsWellNamed (delete_at o name u).1
  unfolding delete_at
  delete_at-IsWellNamed none name u w = w
  delete_at-IsWellNamed (some p) name u w =
      All-map _ _ (λ e h. h.0) (erase name u.entries) (All-erase _ name u.entries w)

  -- Two entries of different names lead to different mailboxes.
  differ :
      (boxes : ℕ → Mailbox Time) (p q : ℕ) (s t : Bytes)
      → (boxes p).name ≡ s
      → (boxes q).name ≡ t
      → equal t s ≡ false
      → (q == p) ≡ false
  differ boxes p q s t hp hq e = elim (Bool-cases (q == p)) [
    | inr d ↦ d
    | inl d ↦ absurd (
        false≢true
          (sym e ∙ (equal_iff t s).1 (sym hq ∙ ap (λ z. (boxes z).name) ((==_iff q p).0 d) ∙ hp)))
  ]

  rename_at-IsWellNamed :
      (p : ℕ) (o : Option ℕ) (old_name new_name : Bytes) (u : UserData Time)
      → lookup old_name u.entries ≡ some p
      → IsWellNamed u
      → IsWellNamed (rename_at (some p) o old_name new_name u).1
  unfolding rename_at
  rename_at-IsWellNamed p (some q) old_name new_name u l w = w
  rename_at-IsWellNamed p none old_name new_name u l w =
      let at : IsNamed u.boxes u.next (old_name, p) = All-lookup _ old_name p u.entries w l in
      All-store _ new_name p (erase old_name u.entries)
        (name-set_at (p == p) _ _ ∙ rw (==_refl p) refl, at.1)
        (All-map _ _
          (λ e h. (
            name-set_at (e.1 == p) _ _
                ∙ rw (differ u.boxes p e.1 old_name e.0 at.0 h.0.0 h.1) h.0.0,
            h.0.1,
          ))
          (erase old_name u.entries) (All-erase _ old_name u.entries w))

  get_mailbox-direct :
      (u : UserData Time) (name : Bytes) (p : ℕ)
      → lookup name u.entries ≡ some p
      → get_mailbox u name ≡ some p
  unfolding get_mailbox
  get_mailbox-direct u name p l = rw l refl

  get_mailbox-inbox :
      (u : UserData Time) (name : Bytes)
      → lookup name u.entries ≡ none
      → equal (normalize_inbox name) inbox_name ≡ true
      → get_mailbox u name ≡ lookup inbox_name u.entries
  unfolding get_mailbox
  get_mailbox-inbox u name l e =
      ap
        (λ o.
          or_else o
            (if equal (normalize_inbox name) inbox_name then lookup inbox_name u.entries else none))
        l
      ∙ ap (λ b. if b then lookup inbox_name u.entries else none) e

  rename-at :
      (old_name new_name : Bytes) (u : UserData Time) (o o' : Option ℕ)
      → get_mailbox u old_name ≡ o
      → get_mailbox u new_name ≡ o'
      → rename_at o o' old_name new_name u ≡ rename_mailbox old_name new_name u
  unfolding rename_mailbox
  rename-at old_name new_name u o o' g f =
      ap (λ x. rename_at x o' old_name new_name u) (sym g)
      ∙ ap (λ y. rename_at (get_mailbox u old_name) y old_name new_name u) (sym f)

  rename_mailbox-IsWellNamed :
      (name new_name : Bytes) (u : UserData Time)
      → IsWellNamed u
      → lookup name u.entries ≡ get_mailbox u name
      → IsWellNamed (rename_mailbox name new_name u).1
  unfolding rename_at
  rename_mailbox-IsWellNamed name new_name u w direct = elim (Option-cases (get_mailbox u name)) [
    | inl e ↦
        subst (λ r. IsWellNamed r.1)
          (rename-at name new_name u none (get_mailbox u new_name) e refl) w
    | inr (p, e) ↦
        subst (λ r. IsWellNamed r.1)
          (rename-at name new_name u (some p) (get_mailbox u new_name) e refl)
          (rename_at-IsWellNamed p (get_mailbox u new_name) name new_name u (direct ∙ e) w)
  ]

  refused :
      (b : Bool) (u : UserData Time) (r : Option UserError × UserData Time)
      → IsWellNamed u
      → IsWellNamed r.1
      → IsWellNamed (if b then (some cannot_delete_inbox, u) else r).1
  refused true u r w h = w
  refused false u r w h = h

  -- `CreateMailbox` and `DeleteMailbox` of any name keep the entries of a user well named: each leads
  -- to a mailbox in use that bears the entry's name. `RenameMailbox` does so if its old name is looked
  -- up as it stands, not as another spelling of INBOX.
  pub operations-IsWellNamed :
      (name old_name new_name : Bytes) (u : UserData Time)
      → IsWellNamed u
      → lookup old_name u.entries ≡ get_mailbox u old_name
      → IsWellNamed (create_mailbox name u).1
        × IsWellNamed (delete_mailbox name u).1
        × IsWellNamed (rename_mailbox old_name new_name u).1
  unfolding create_mailbox delete_mailbox
  operations-IsWellNamed name old_name new_name u w direct = (
    create_at-IsWellNamed (get_mailbox u name) name u w,
    refused (equal (normalize_inbox name) inbox_name) u (delete_at (get_mailbox u name) name u) w
        (delete_at-IsWellNamed (get_mailbox u name) name u w),
    rename_mailbox-IsWellNamed old_name new_name u w direct,
  )

  get_mailbox-plain :
      (u : UserData Time) (name : Bytes)
      → equal (normalize_inbox name) inbox_name ≡ false
      → get_mailbox u name ≡ lookup name u.entries
  unfolding get_mailbox
  get_mailbox-plain u name e =
      ap (λ b. or_else (lookup name u.entries) (if b then lookup inbox_name u.entries else none)) e
      ∙ or_none (lookup name u.entries)
    where
      or_none : (o : Option ℕ) → or_else o none ≡ o
      or_none none = refl
      or_none (some p) = refl

  -- What `RenameMailbox` of an entry to a free name does to `GetMailbox` of a name that is no
  -- spelling of INBOX: it succeeds, the new name leads to the mailbox that the old one led to, the old
  -- one leads nowhere, unless it is the new one, and each other name leads where it did.
  pub get_mailbox-rename_mailbox :
      (old_name new_name q : Bytes) (p : ℕ) (u : UserData Time)
      → lookup old_name u.entries ≡ some p
      → get_mailbox u new_name ≡ none
      → equal (normalize_inbox q) inbox_name ≡ false
      → ((rename_mailbox old_name new_name u).0 ≡ none)
        × (get_mailbox (rename_mailbox old_name new_name u).1 q ≡ (
            if equal new_name q
            then some p
            else if equal old_name q
            then none
            else get_mailbox u q))
  unfolding rename_at
  get_mailbox-rename_mailbox old_name new_name q p u l f n =
      let at = rename-at old_name new_name u (some p) none (get_mailbox-direct u old_name p l) f in
      (
        ap (λ r. r.0) (sym at),
        get_mailbox-plain (rename_mailbox old_name new_name u).1 q n
            ∙ ap (λ r. lookup q r.1.entries) (sym at)
            ∙ lookup-moved old_name new_name q p u.entries
            ∙ ap (λ o. if equal new_name q then some p else if equal old_name q then none else o)
                (sym (get_mailbox-plain u q n)),
      )

  -- A `RenameMailbox` of INBOX under another spelling deletes no entry: the mailbox stands under
  -- both names then, and bears the new one.
  pub rename_inbox :
      (old_name new_name : Bytes) (p : ℕ) (u : UserData Time)
      → lookup old_name u.entries ≡ none
      → equal (normalize_inbox old_name) inbox_name ≡ true
      → lookup inbox_name u.entries ≡ some p
      → get_mailbox u new_name ≡ none
      → let after = (rename_mailbox old_name new_name u).1 in
        (lookup inbox_name after.entries ≡ some p)
        × (lookup new_name after.entries ≡ some p)
        × ((after.boxes p).name ≡ new_name)
  unfolding rename_at
  rename_inbox old_name new_name p u l e i f =
      let at =
        rename-at old_name new_name u (some p) none (get_mailbox-inbox u old_name l e ∙ i) f in
      (
        ap (λ r. lookup inbox_name r.1.entries) (sym at)
            ∙ lookup-moved old_name new_name inbox_name p u.entries
            ∙ rw (not_inbox old_name p u.entries l i)
                (elim (Bool-cases (equal new_name inbox_name)) [
                  | inl s ↦ rw s refl
                  | inr s ↦ rw s i
                ]),
        ap (λ r. lookup new_name r.1.entries) (sym at)
            ∙ lookup-moved old_name new_name new_name p u.entries
            ∙ rw (equal_refl new_name) refl,
        ap (λ r. (r.1.boxes p).name) (sym at) ∙ name-set_at (p == p) _ _ ∙ rw (==_refl p) refl,
      )
