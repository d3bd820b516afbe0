-- ===== src/State/Machine/Runs.antt =====
-- What the loops of the machine do, by descriptions of their own: the runs of hooks, and the targets
-- that the map of transitions lists.
use mathlib.Core.Bool.{false≢true}
use imap_go.Imap.ConnState.{
  ConnState, not_authenticated, authenticated, selected, logout, same_state,
}
use imap_go.State.Transitions.{Transitions}
use imap_go.Prelude.{
  true, false, List, [], ◌∷◌, Option, none, some, ◌≡◌, refl, sym, ap, ◌∙◌, ◌⊎◌, inl, inr,
  Bool-cases,
}
use imap_go.State.Machine.{
  TransitionHook, Machine, contains_state, transition_in, allows, can_transition, after_hook,
  run_hooks,
}

-- The same states, by the test of the code.
same_state_eq : (s t : ConnState) → same_state s t ≡ true → s ≡ t
unfolding same_state
same_state_eq not_authenticated not_authenticated h = refl
same_state_eq not_authenticated authenticated h = cc
same_state_eq not_authenticated selected h = cc
same_state_eq not_authenticated logout h = cc
same_state_eq authenticated not_authenticated h = cc
same_state_eq authenticated authenticated h = refl
same_state_eq authenticated selected h = cc
same_state_eq authenticated logout h = cc
same_state_eq selected not_authenticated h = cc
same_state_eq selected authenticated h = cc
same_state_eq selected selected h = refl
same_state_eq selected logout h = cc
same_state_eq logout not_authenticated h = cc
same_state_eq logout authenticated h = cc
same_state_eq logout selected h = cc
same_state_eq logout logout h = refl

same_state_refl : (s : ConnState) → same_state s s ≡ true
unfolding same_state
same_state_refl not_authenticated = refl
same_state_refl authenticated = refl
same_state_refl selected = refl
same_state_refl logout = refl

abbrev pub IsListed : ConnState → List ConnState → Type 0
IsListed target [] = ⊥
IsListed target (s ∷ allowed) = (s ≡ target) ⊎ IsListed target allowed

contains_state_lem :
    (allowed : List ConnState) (target : ConnState)
    → (contains_state allowed target ≡ true → IsListed target allowed)
      × (IsListed target allowed → contains_state allowed target ≡ true)
unfolding contains_state
contains_state_lem [] target = (λ h. absurd (false≢true h), λ h. absurd h)
contains_state_lem (s ∷ allowed) target =
    let ih = contains_state_lem allowed target in
    elim (Bool-cases (same_state s target)) [
      | inl e ↦ (λ h. inl (same_state_eq s target e), λ h. rw e refl)
      | inr e ↦ (
        λ h. inr (ih.0 (rw e at h)),
        λ h. elim h [
          | inl k ↦ absurd (false≢true (sym e ∙ ap (same_state s) (sym k) ∙ same_state_refl s))
          | inr k ↦ rw e (ih.1 k)
        ],
      )
    ]

module _ {W E : Type 0} where
  -- A machine's map has a row for its state, and the target stands in it.
  abbrev pub IsAllowed : Machine W E → ConnState → Type 0
  IsAllowed m target =
      (ts : Transitions) × (row : List ConnState) × (m.transitions ≡ some ts)
      × (ts m.state ≡ some row)
      × IsListed target row

  -- Hooks that run one after the other on a world, the first failure being the last to run: the error
  -- that is returned, and the world that they leave.
  pub data Runs (from target : ConnState)
      : List (TransitionHook W E) → W → Option E × W → Type 0 where
    ends : {w : W} → Runs from target [] w (none, w)
    stops :
        {hook : TransitionHook W E} {hooks : List (TransitionHook W E)} {w v : W} {why : E}
        → hook from target w ≡ (some why, v)
        → Runs from target (hook ∷ hooks) w (some why, v)
    goes_on :
        {hook : TransitionHook W E} {hooks : List (TransitionHook W E)} {w v : W} {r : Option E × W}
        → hook from target w ≡ (none, v)
        → Runs from target hooks v r
        → Runs from target (hook ∷ hooks) w r

  pub can_transition-IsAllowed :
      (m : Machine W E) (target : ConnState) → can_transition m target ≡ true → IsAllowed m target
  unfolding can_transition allows transition_in
  can_transition-IsAllowed m target h = by_map m.transitions refl h
    where
      by_row :
          (ts : Transitions) (o : Option (List ConnState))
          → m.transitions ≡ some ts
          → ts m.state ≡ o
          → transition_in o target ≡ true
          → IsAllowed m target
      by_row ts none e f k = absurd (false≢true k)
      by_row ts (some row) e f k = (ts, row, e, f, (contains_state_lem row target).0 k)

      by_map :
          (o : Option Transitions)
          → m.transitions ≡ o
          → allows o m.state target ≡ true
          → IsAllowed m target
      by_map none e k = absurd (false≢true k)
      by_map (some ts) e k = by_row ts (ts m.state) e refl k

  pub can_transition-refuses :
      (m : Machine W E) (target : ConnState)
      → can_transition m target ≡ false
      → ¬ IsAllowed m target
  unfolding can_transition allows transition_in
  can_transition-refuses m target h (ts, row, e, f, l) = false≢true (
      sym h
      ∙ ap (λ o. allows o m.state target) e
      ∙ ap (λ o. transition_in o target) f
      ∙ (contains_state_lem row target).1 l)

  -- What a run of hooks does to the world, and the error that it returns.
  pub run_hooks-Runs :
      (from target : ConnState) (hooks : List (TransitionHook W E)) (w : W)
      → Runs from target hooks w (run_hooks hooks from target w)
  unfolding run_hooks
  run_hooks-Runs from target [] w = ends
  run_hooks-Runs from target (hook ∷ hooks) w =
      by_result (hook from target w) (λ v. run_hooks-Runs from target hooks v) refl
    where
      by_result :
          (r : Option E × W)
          → ((v : W) → Runs from target hooks v (run_hooks hooks from target v))
          → hook from target w ≡ r
          → Runs from target (hook ∷ hooks) w (after_hook r (run_hooks hooks from target))
      by_result (none, v) ih e = goes_on e (ih v)
      by_result (some why, v) ih e = stops e
