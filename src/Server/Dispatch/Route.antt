-- ===== src/Server/Dispatch/Route.antt =====
-- `dispatch` of server/dispatch.go up to the call of the handler: the prefix `UID`, the check of the
-- state, and the search for the handler. `run` is the call, with its context.
use mathlib.Core.Bool.{false≢true}
use mathlib.Core.List.{cons-ne-nil}
use imap_go.Imap.ConnState.{ConnState}
use imap_go.MemServer.Mailbox.{NumKind, num_kind_seq, num_kind_uid}
use imap_go.Prelude.Split.{Lacks, IsCut, pieces, cut, split_n, cut-append, cut-IsCut}
use imap_go.Prelude.{
  Bool-cases, inl, inr, ◌⊎◌, true, List, [], ◌∷◌, ◌++◌, ◌≡◌, ◌≢◌, refl, sym, ap, ◌∙◌, Option, none,
  some, Bytes, codes, equal, equal_iff, to_upper, if◌then◌else◌,
}
use imap_go.Server.Dispatch.{Dispatcher, get}
use imap_go.State.Machine.Reach.{require_state_logout, require_state-cases}
use imap_go.State.Machine.{Machine, StateError, not_allowed, require_state}
use imap_go.State.Transitions.{command_allowed_states, admits}

-- The answers of `dispatch` itself, and the call.
pub data Routed (E Handler : Type 0) : Type 0 where
  missing_command : Routed E Handler
  unknown_command not_implemented : Bytes → Routed E Handler
  refused : StateError E → Routed E Handler
  run : Handler → Bytes → NumKind → Bytes → Routed E Handler

-- What a line asks for: the command in upper case, the kind of its numbers, and what stands behind it.
pub data Asks (name args : Bytes) : Bytes → NumKind → Bytes → Type 0 where
  plain : to_upper name ≢ codes "UID" → Asks name args (to_upper name) num_kind_seq args
  by_uid :
      (cmd rest : Bytes)
      → to_upper name ≡ codes "UID"
      → cmd ≢ []
      → Lacks b' ' cmd
      → args ≡ cmd ++ b' ' ∷ rest
      → Asks name args (to_upper cmd) num_kind_uid rest
  by_uid_only :
      to_upper name ≡ codes "UID"
      → args ≢ []
      → Lacks b' ' args
      → Asks name args (to_upper args) num_kind_uid []

module _ {W E Handler : Type 0} (d : Dispatcher Handler) (m : Machine W E) where
  abbrev run_or : Routed E Handler → Option Handler → Bytes → NumKind → Bytes → Routed E Handler
  run_or otherwise none upper kind rest = otherwise
  run_or otherwise (some h) upper kind rest = run h upper kind rest

  abbrev refused_or : Option (StateError E) → Routed E Handler → Routed E Handler
  refused_or (some e) r = refused e
  refused_or none r = r

  unfoldable pub choose_at : Option (List ConnState) → Bytes → NumKind → Bytes → Routed E Handler
  unfolding get require_state
  choose_at none upper kind rest = run_or (unknown_command upper) (get d upper) upper kind rest
  choose_at (some allowed) upper kind rest =
      refused_or (require_state m allowed)
        (run_or (not_implemented upper) (get d upper) upper kind rest)

  unfoldable pub choose : Bytes → NumKind → Bytes → Routed E Handler
  unfolding choose_at command_allowed_states
  choose upper kind rest = choose_at (command_allowed_states upper) upper kind rest

  -- What stands behind `UID`: the command, and the rest if there is a space.
  unfoldable pub after_uid : List Bytes → Routed E Handler
  unfolding choose to_upper
  after_uid [] = missing_command
  after_uid ([] ∷ ps) = missing_command
  after_uid ((c ∷ p) ∷ []) = choose (to_upper (c ∷ p)) num_kind_uid []
  after_uid ((c ∷ p) ∷ rest ∷ ps) = choose (to_upper (c ∷ p)) num_kind_uid rest

  unfoldable pub dispatch : Bytes → Bytes → Routed E Handler
  unfolding choose after_uid split_n equal to_upper
  dispatch name rest =
      let upper = to_upper name in
      if equal upper (codes "UID")
      then after_uid (split_n 1 b' ' rest)
      else choose upper num_kind_seq rest

  -- Each answer is about what the line asks for: no command stands behind `UID`; the command is in
  -- no row and has no handler; it is in a row and has no handler; its row does not have the state of
  -- the machine; or its handler is called, in a state of its row if it has one.
  abbrev pub IsSafe : Bytes → Bytes → Routed E Handler → Type 0
  IsSafe name args missing_command =
      (to_upper name ≡ codes "UID") × ((args ≡ []) ⊎ ((rest : Bytes) × (args ≡ b' ' ∷ rest)))
  IsSafe name args (unknown_command upper) =
      ((kind : NumKind) × (rest : Bytes) × Asks name args upper kind rest)
      × (command_allowed_states upper ≡ none)
      × (get d upper ≡ none)
  IsSafe name args (not_implemented upper) =
      ((kind : NumKind) × (rest : Bytes) × Asks name args upper kind rest)
      × (command_allowed_states upper ≢ none)
      × (get d upper ≡ none)
  IsSafe name args (refused e) =
      ((upper : Bytes) × (kind : NumKind) × (rest : Bytes) × Asks name args upper kind rest
        × (command_allowed_states upper ≢ none)
        × (admits (command_allowed_states upper) m.state ≢ true))
      × (e ≡ not_allowed m.state)
  IsSafe name args (run h upper kind rest) =
      Asks name args upper kind rest
      × (get d upper ≡ some h)
      × ((command_allowed_states upper ≡ none)
          ⊎ (admits (command_allowed_states upper) m.state ≡ true))

  some-none : (e : StateError E) → some e ≡ none → ⊥
  some-none e h = cc

  some_same : (e f : StateError E) → some e ≡ some f → e ≡ f
  some_same e f h = cc

  run_or-IsSafe :
      (name args : Bytes) (otherwise : Routed E Handler) (g : Option Handler) (upper : Bytes)
      (kind : NumKind) (rest : Bytes)
      → Asks name args upper kind rest
      → get d upper ≡ g
      → (g ≡ none → IsSafe name args otherwise)
      → (command_allowed_states upper ≡ none)
        ⊎ (admits (command_allowed_states upper) m.state ≡ true)
      → IsSafe name args (run_or otherwise g upper kind rest)
  run_or-IsSafe name args otherwise none upper kind rest k e o a = o refl
  run_or-IsSafe name args otherwise (some h) upper kind rest k e o a = (k, e, a)

  refused_or-IsSafe :
      (name args upper : Bytes) (kind : NumKind) (rest : Bytes) (allowed : List ConnState)
      (r : Option (StateError E)) (routed : Routed E Handler)
      → Asks name args upper kind rest
      → command_allowed_states upper ≡ some allowed
      → require_state m allowed ≡ r
      → (r ≡ none → IsSafe name args routed)
      → IsSafe name args (refused_or r routed)
  refused_or-IsSafe name args upper kind rest allowed none routed k l e h = h refl
  refused_or-IsSafe name args upper kind rest allowed (some x) routed k l e h =
      elim (require_state-cases m allowed) [
        | inl n ↦ absurd (some-none x (sym e ∙ n))
        | inr n ↦ (
          (
            upper,
            kind,
            rest,
            k,
            (λ z. cc),
            λ z. some-none x (
                sym e
                ∙ (require_state_logout m upper allowed l).0.1
                    (ap (λ o. admits o m.state) (sym l) ∙ z)),
          ),
          some_same x (not_allowed m.state) (sym e ∙ n),
        )
      ]

  choose_at-IsSafe :
      (name args : Bytes) (o : Option (List ConnState)) (upper : Bytes) (kind : NumKind)
      (rest : Bytes)
      → Asks name args upper kind rest
      → command_allowed_states upper ≡ o
      → IsSafe name args (choose_at o upper kind rest)
  unfolding choose_at
  choose_at-IsSafe name args none upper kind rest k e =
      run_or-IsSafe name args (unknown_command upper) (get d upper) upper kind rest k refl
        (λ g. ((kind, rest, k), e, g)) (inl e)
  choose_at-IsSafe name args (some allowed) upper kind rest k e =
      refused_or-IsSafe name args upper kind rest allowed (require_state m allowed) _ k e refl λ r.
        run_or-IsSafe name args (not_implemented upper) (get d upper) upper kind rest k refl
          (λ g. ((kind, rest, k), (λ z. cc), g))
          (inr (ap (λ o. admits o m.state) e ∙ (require_state_logout m upper allowed e).0.0 r))

  choose-IsSafe :
      (name args upper : Bytes) (kind : NumKind) (rest : Bytes)
      → Asks name args upper kind rest
      → IsSafe name args (choose upper kind rest)
  unfolding choose
  choose-IsSafe name args upper kind rest k =
      choose_at-IsSafe name args (command_allowed_states upper) upper kind rest k refl

  after_uid-IsSafe :
      (name args : Bytes) (o : Option (Bytes × Bytes))
      → to_upper name ≡ codes "UID"
      → IsCut b' ' args o
      → IsSafe name args (after_uid (pieces (split_n 0 b' ') args o))
  unfolding after_uid split_n
  after_uid-IsSafe name [] none e i = (e, inl refl)
  after_uid-IsSafe name (c ∷ args) none e i =
      choose-IsSafe name (c ∷ args) (to_upper (c ∷ args)) num_kind_uid []
        (by_uid_only e (cons-ne-nil c args) i)
  after_uid-IsSafe name args (some ([], rest)) e (h, l) = (e, inr (rest, h))
  after_uid-IsSafe name args (some (c ∷ cmd, rest)) e (h, l) =
      choose-IsSafe name args (to_upper (c ∷ cmd)) num_kind_uid rest
        (by_uid (c ∷ cmd) rest e (cons-ne-nil c cmd) l h)

  -- Behind `UID`, in any case, every command is chosen as it is by itself but for the kind of numbers.
  dispatch_uid :
      (uid cmd rest : Bytes)
      → to_upper uid ≡ codes "UID"
      → cmd ≢ []
      → Lacks b' ' cmd
      → dispatch uid (cmd ++ b' ' ∷ rest) ≡ choose (to_upper cmd) num_kind_uid rest
  unfolding dispatch split_n after_uid equal
  dispatch_uid uid [] rest e ne l = absurd (ne refl)
  dispatch_uid uid (c ∷ cmd) rest e ne l = rw (e, cut-append b' ' (c ∷ cmd) rest l) refl

  -- Whatever the line, the answer is about the command that it asks for, in upper case, behind `UID`
  -- or not: a handler is called only if it is that command's, with the numbers' kind and the rest of
  -- the line, and for a listed command only in a state of its row; a command that is refused is
  -- listed, in a state that is not of its row. Behind `UID`, in any case, any command that has no
  -- space is chosen as it would be by itself, with the kind of numbers changed.
  pub dispatch-IsSafe :
      (name args uid cmd rest : Bytes)
      → to_upper uid ≡ codes "UID"
      → cmd ≢ []
      → Lacks b' ' cmd
      → IsSafe name args (dispatch name args)
        × (dispatch uid (cmd ++ b' ' ∷ rest) ≡ choose (to_upper cmd) num_kind_uid rest)
  unfolding dispatch split_n
  dispatch-IsSafe name args uid cmd rest e ne l = (safe, dispatch_uid uid cmd rest e ne l)
    where
      safe : IsSafe name args (dispatch name args)
      safe = elim (Bool-cases (equal (to_upper name) (codes "UID"))) [
        | inl e ↦ rw e (
            after_uid-IsSafe name args (cut b' ' args)
              ((equal_iff (to_upper name) (codes "UID")).0 e) (cut-IsCut b' ' args))
        | inr e ↦ rw e (
            choose-IsSafe name args (to_upper name) num_kind_seq args
              (plain λ z. false≢true (sym e ∙ (equal_iff (to_upper name) (codes "UID")).1 z)))
      ]
