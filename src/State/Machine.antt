-- ===== src/State/Machine.antt =====
-- state/machine.go. A hook may read and change a world `W` of its own, and may fail. The mutex makes
-- each method atomic; a hook that calls the machine would wait for itself, and is not modelled.
pub mod Runs
pub mod Hooks
pub mod Reach
use imap_go.Imap.ConnState.{ConnState, same_state}
use imap_go.Prelude.{Bool, true, false, List, [], ◌∷◌, ◌++◌, Option, none, some, if◌then◌else◌}
use imap_go.State.Transitions.{Transitions, default_transitions}

module _ (W E : Type 0) where
  -- `TransitionHook`.
  abbrev pub TransitionHook : Type 0
  TransitionHook = ConnState → ConnState → W → Option E × W

  -- `transitions` is `none` for a nil map.
  pub record Machine : Type 0 where
    pub state : ConnState
    pub transitions : Option Transitions
    pub before_hooks : List TransitionHook
    pub after_hooks : List TransitionHook

-- The errors of `Transition` and of `RequireState`.
pub data StateError (E : Type 0) : Type 0 where
  invalid_transition : ConnState → ConnState → StateError E
  before_hook_failed after_hook_failed : E → StateError E
  not_allowed : ConnState → StateError E

unfoldable pub contains_state : List ConnState → ConnState → Bool
contains_state [] target = false
contains_state (s ∷ allowed) target =
    if same_state s target then true else contains_state allowed target

-- The method `canTransition`, over the map.
unfoldable pub transition_in : Option (List ConnState) → ConnState → Bool
unfolding contains_state same_state
transition_in none target = false
transition_in (some allowed) target = contains_state allowed target

unfoldable pub allows : Option Transitions → ConnState → ConnState → Bool
unfolding transition_in
allows none from target = false
allows (some transitions) from target = transition_in (transitions from) target

-- `append(m.transitions[from], to)`.
unfoldable pub append_to : Option (List ConnState) → ConnState → List ConnState
append_to none target = target ∷ []
append_to (some allowed) target = allowed ++ target ∷ []

unfoldable pub extend : Transitions → ConnState → ConnState → Transitions
unfolding append_to same_state
extend transitions from target s =
    if same_state s from then some (append_to (transitions from) target) else transitions s

-- The error that `Transition` returns for that of an after hook.
abbrev pub after_error : {E : Type 0} → Option E → Option (StateError E)
after_error none = none
after_error (some why) = some (after_hook_failed why)

module _ {W E : Type 0} where
  unfoldable pub new : ConnState → Machine W E
  new initial = record {
    state = initial;
    transitions = some default_transitions;
    before_hooks = [];
    after_hooks = [];
  }

  unfoldable pub can_transition : Machine W E → ConnState → Bool
  unfolding allows
  can_transition m target = allows m.transitions m.state target

  -- A hook that fails stops the loop.
  abbrev pub after_hook : Option E × W → (W → Option E × W) → Option E × W
  after_hook (some why, w) rest = (some why, w)
  after_hook (none, w) rest = rest w

  unfoldable pub run_hooks : List (TransitionHook W E) → ConnState → ConnState → W → Option E × W
  run_hooks [] from target w = (none, w)
  run_hooks (hook ∷ hooks) from target w =
      after_hook (hook from target w) (run_hooks hooks from target)

  -- The part of `Transition` behind the before hooks.
  unfoldable pub finish_transition :
      Machine W E → ConnState → Option E × W → Machine W E × Option (StateError E) × W
  unfolding run_hooks
  finish_transition m target (some why, w) = (m, some (before_hook_failed why), w)
  finish_transition m target (none, w) =
      let (e, w') = run_hooks m.after_hooks m.state target w in
      (record m { state = target }, after_error e, w')

  unfoldable pub transition : Machine W E → ConnState → W → Machine W E × Option (StateError E) × W
  unfolding finish_transition can_transition
  transition m target w =
      if can_transition m target
      then finish_transition m target (run_hooks m.before_hooks m.state target w)
      else (m, some (invalid_transition m.state target), w)

  unfoldable pub require_state : Machine W E → List ConnState → Option (StateError E)
  require_state m [] = some (not_allowed m.state)
  require_state m (s ∷ allowed) = if same_state m.state s then none else require_state m allowed

  unfoldable pub on_before : TransitionHook W E → Machine W E → Machine W E
  on_before hook m = record m { before_hooks = m.before_hooks ++ hook ∷ [] }

  unfoldable pub on_after : TransitionHook W E → Machine W E → Machine W E
  on_after hook m = record m { after_hooks = m.after_hooks ++ hook ∷ [] }

  unfoldable pub set_transitions : Option Transitions → Machine W E → Machine W E
  set_transitions transitions m = record m { transitions = transitions }

  -- A write to a nil map panics: `none`.
  unfoldable pub add_transition : ConnState → ConnState → Machine W E → Option (Machine W E)
  unfolding extend
  add_transition from target m = elim m.transitions [
    | none ↦ none
    | some transitions ↦ some (record m { transitions = some (extend transitions from target) })
  ]
