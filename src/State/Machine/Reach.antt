-- ===== src/State/Machine/Reach.antt =====
-- The states that a machine reaches by `Transition`, with the default transitions and any hooks.
use mathlib.Core.Bool.{false≢true}
use imap_go.Imap.ConnState.{
  ConnState, not_authenticated, authenticated, selected, logout, same_state,
}
use imap_go.Prelude.{
  true, false, List, [], ◌∷◌, Option, none, some, ◌≡◌, refl, sym, ap, ◌∙◌, ◌⊎◌, inl, inr,
  Bool-cases, arith, Bytes, ◌↔◌,
}
use imap_go.State.Machine.Hooks.{Branches, transition-Branches}
use imap_go.State.Machine.{
  Machine, StateError, allows, can_transition, transition, require_state, not_allowed,
}
use imap_go.State.Transitions.{default_transitions, command_allowed_states, admits}

no_way_out : (target : ConnState) → allows (some default_transitions) logout target ≡ false
unfolding allows default_transitions
no_way_out target = refl

into_selected :
    (s : ConnState)
    → allows (some default_transitions) s selected ≡ true
    → (s ≡ authenticated) ⊎ (s ≡ selected)
unfolding allows default_transitions
into_selected not_authenticated h = cc
into_selected authenticated h = inl refl
into_selected selected h = inr refl
into_selected logout h = cc

module _ {W E : Type 0} where
  abbrev pub IsDefault : Machine W E → Type 0
  IsDefault m = m.transitions ≡ some default_transitions

  -- Any number of calls of `Transition`, to any states and in any worlds.
  pub data Reach (m : Machine W E) : Machine W E → Type 0 where
    here : Reach m m
    next :
        {k : Machine W E} (target : ConnState) (w : W)
        → Reach m k
        → Reach m (transition k target w).0

  -- A call changes the state alone, and only to a target that the map allows.
  transition-cases :
      (m : Machine W E) (target : ConnState) (w : W)
      → ((transition m target w).0 ≡ m)
        ⊎ (((transition m target w).0 ≡ record m { state = target })
            × (can_transition m target ≡ true))
  transition-cases m target w = cases (transition m target w) (transition-Branches m target w)
    where
      cases :
          (r : Machine W E × Option (StateError E) × W)
          → Branches m target w r
          → (r.0 ≡ m) ⊎ ((r.0 ≡ record m { state = target }) × (can_transition m target ≡ true))
      cases r (inl (c, e, x, y)) = inl e
      cases r (inr (inl (c, x, e, y))) = inl e
      cases r (inr (inr (c, x, e, y))) = inr (e, c)

  step-IsDefault :
      (m : Machine W E) (target : ConnState) (w : W)
      → IsDefault m
      → IsDefault (transition m target w).0
  step-IsDefault m target w h = elim (transition-cases m target w) [
    | inl e ↦ ap (λ k. k.transitions) e ∙ h
    | inr (e, c) ↦ ap (λ k. k.transitions) e ∙ h
  ]

  Reach-IsDefault : {m k : Machine W E} → Reach m k → IsDefault m → IsDefault k
  Reach-IsDefault here h = h
  Reach-IsDefault (next {k} target w r) h = step-IsDefault k target w (Reach-IsDefault r h)

  allowed-default :
      (m : Machine W E) (target : ConnState)
      → IsDefault m
      → can_transition m target ≡ allows (some default_transitions) m.state target
  unfolding can_transition
  allowed-default m target h = ap (λ t. allows t m.state target) h

  -- With the default transitions the logout state is final: whatever transitions are tried, and
  -- whatever the hooks do, the machine stays as it is.
  pub logout_final : {m k : Machine W E} → IsDefault m → m.state ≡ logout → Reach m k → k ≡ m
  logout_final d l here = refl
  logout_final {m} d l (next {k} target w r) =
      let same = logout_final d l r in
      let d' = Reach-IsDefault r d in
      let stuck =
        allowed-default k target d'
        ∙ ap (λ s. allows (some default_transitions) s target) (ap (λ q. q.state) same ∙ l)
        ∙ no_way_out target in
      elim (transition-cases k target w) [
        | inl e ↦ e ∙ same
        | inr (e, c) ↦ absurd (false≢true (sym stuck ∙ c))
      ]

  -- With the default transitions a machine that starts in the not authenticated state and is in the
  -- selected state has been in the authenticated state on the way.
  pub selected_after_authenticated :
      {m k : Machine W E}
      → IsDefault m
      → m.state ≡ not_authenticated
      → Reach m k
      → k.state ≡ selected
      → (j : Machine W E) × Reach m j × (j.state ≡ authenticated) × Reach j k
  selected_after_authenticated d n here s = absurd (apart (sym n ∙ s))
    where
      apart : not_authenticated ≡ selected → ⊥
      apart e = cc
  selected_after_authenticated {m} d n (next {k} target w r) s =
      cases (transition-cases k target w) (selected_after_authenticated d n r)
    where
      Via : Machine W E → Type 0
      Via q = (j : Machine W E) × Reach m j × (j.state ≡ authenticated) × Reach j q

      onward : Via k → Via (transition k target w).0
      onward (j, a, e, b) = (j, a, e, next target w b)

      from : (k.state ≡ authenticated) ⊎ (k.state ≡ selected) → (k.state ≡ selected → Via k) → Via k
      from (inl e) ih = (k, r, e, here)
      from (inr e) ih = ih e

      cases :
          ((transition k target w).0 ≡ k)
            ⊎ (((transition k target w).0 ≡ record k { state = target })
                × (can_transition k target ≡ true))
          → (k.state ≡ selected → Via k)
          → Via (transition k target w).0
      cases (inl e) ih = onward (ih (ap (λ q. q.state) (sym e) ∙ s))
      cases (inr (e, c)) ih =
          let t = sym (ap (λ q. q.state) e) ∙ s in
          onward (
            from
              (into_selected k.state (
                sym (allowed-default k selected (Reach-IsDefault r d))
                ∙ ap (can_transition k) (sym t)
                ∙ c))
              ih)

-- A command that is listed is valid in no state but those of its row: never after logout, and in
-- the selected state whenever in the authenticated one, but not before authentication unless it is
-- valid in every state or only there.
command_allowed_states_rows :
    (cmd : Bytes)
    → let rows = command_allowed_states cmd in
      (admits rows logout ≡ false)
      × (admits rows authenticated ≡ true → admits rows selected ≡ true)
      × (admits rows not_authenticated ≡ true → admits rows authenticated ≡ admits rows selected)
unfolding command_allowed_states same_state
command_allowed_states_rows cmd = (ground arith, ground arith, ground arith)

require_state-admits :
    {W E : Type 0} (m : Machine W E) (allowed : List ConnState)
    → (require_state m allowed ≡ none) ↔ (admits (some allowed) m.state ≡ true)
unfolding require_state
require_state-admits m [] = ground arith
require_state-admits m (s ∷ allowed) = ground (arith, require_state-admits m allowed)

pub require_state-cases :
    {W E : Type 0} (m : Machine W E) (allowed : List ConnState)
    → (require_state m allowed ≡ none) ⊎ (require_state m allowed ≡ some (not_allowed m.state))
unfolding require_state
require_state-cases m [] = inr refl
require_state-cases m (s ∷ allowed) = elim (Bool-cases (same_state m.state s)) [
  | inl e ↦ inl (rw e refl)
  | inr e ↦ rw e (require_state-cases m allowed)
]

-- `RequireState` lets a listed command through exactly in the states of its row; so a machine that
-- has logged out lets no listed command through.
pub require_state_logout :
    {W E : Type 0} (m : Machine W E) (cmd : Bytes) (allowed : List ConnState)
    → command_allowed_states cmd ≡ some allowed
    → ((require_state m allowed ≡ none) ↔ (admits (some allowed) m.state ≡ true))
      × (m.state ≡ logout → require_state m allowed ≡ some (not_allowed logout))
require_state_logout m cmd allowed h = (
  require_state-admits m allowed,
  λ l. elim (require_state-cases m allowed) [
    | inr e ↦ e ∙ ap (λ s. some (not_allowed s)) l
    | inl e ↦ absurd (
        false≢true (
          sym (rw h at (command_allowed_states_rows cmd).0)
          ∙ sym (ap (admits (some allowed)) l)
          ∙ (require_state-admits m allowed).0 e))
  ],
)
