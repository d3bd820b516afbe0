-- ===== src/State/Machine/Hooks.antt =====
-- What `Transition` does on each branch, and the order of the hooks.
use mathlib.Core.Path.{subst}
use imap_go.Imap.ConnState.{ConnState}
use imap_go.Prelude.{
  true, false, List, [], ◌∷◌, ◌++◌, Option, none, some, ◌≡◌, refl, sym, ◌⊎◌, inl, inr, Bool-cases,
}
use imap_go.State.Machine.Runs.{
  IsAllowed, Runs, run_hooks-Runs, can_transition-IsAllowed, can_transition-refuses,
}
use imap_go.State.Machine.{
  TransitionHook, Machine, StateError, invalid_transition, before_hook_failed, after_error,
  can_transition, after_hook, run_hooks, finish_transition, transition, on_before, on_after,
}

module _ {W E : Type 0} where
  -- The branches: refused, stopped by a before hook, and made.
  abbrev pub Branches :
      Machine W E → ConnState → W → Machine W E × Option (StateError E) × W → Type 0
  Branches m target w r =
      ((can_transition m target ≡ false)
        × (r.0 ≡ m)
        × (r.1 ≡ some (invalid_transition m.state target))
        × (r.2 ≡ w))
      ⊎ ((can_transition m target ≡ true)
          × ((why : E) × ((run_hooks m.before_hooks m.state target w).0 ≡ some why)
              × (r.1 ≡ some (before_hook_failed why)))
          × (r.0 ≡ m)
          × (r.2 ≡ (run_hooks m.before_hooks m.state target w).1))
      ⊎ ((can_transition m target ≡ true)
          × ((run_hooks m.before_hooks m.state target w).0 ≡ none)
          × (r.0 ≡ record m { state = target })
          × (let after =
                run_hooks m.after_hooks m.state target
                  (run_hooks m.before_hooks m.state target w).1 in
              (r.1 ≡ after_error after.0) × (r.2 ≡ after.1)))

  finish-Branches :
      (m : Machine W E) (target : ConnState) (w : W) (b : Option E × W)
      → run_hooks m.before_hooks m.state target w ≡ b
      → can_transition m target ≡ true
      → Branches m target w (finish_transition m target b)
  unfolding finish_transition
  finish-Branches m target w (some why, w') e c =
      inr (inl (c, (why, rw e refl, refl), refl, rw e refl))
  finish-Branches m target w (none, w') e c = inr (inr (c, rw e refl, refl, (rw e refl, rw e refl)))

  pub transition_allowed :
      (m : Machine W E) (target : ConnState) (w : W)
      → can_transition m target ≡ true
      → transition m target w
        ≡ finish_transition m target (run_hooks m.before_hooks m.state target w)
  unfolding transition
  transition_allowed m target w e = rw e refl

  pub transition_refused :
      (m : Machine W E) (target : ConnState) (w : W)
      → can_transition m target ≡ false
      → transition m target w ≡ (m, some (invalid_transition m.state target), w)
  unfolding transition
  transition_refused m target w e = rw e refl

  -- The branches of `Transition`, in terms of its own helpers.
  pub transition-Branches :
      (m : Machine W E) (target : ConnState) (w : W) → Branches m target w (transition m target w)
  transition-Branches m target w = elim (Bool-cases (can_transition m target)) [
    | inl e ↦
        subst (Branches m target w) (sym (transition_allowed m target w e))
          (finish-Branches m target w (run_hooks m.before_hooks m.state target w) refl e)
    | inr e ↦
        subst (Branches m target w) (sym (transition_refused m target w e))
          (inl (e, refl, refl, refl))
  ]

  -- What can come of `Transition`, with the runs of the hooks described by themselves.
  abbrev pub Outcome :
      Machine W E → ConnState → W → Machine W E × Option (StateError E) × W → Type 0
  Outcome m target w r =
      (¬ IsAllowed m target × (r ≡ (m, some (invalid_transition m.state target), w)))
      ⊎ (IsAllowed m target
          × ((why : E) × (v : W) × Runs m.state target m.before_hooks w (some why, v)
              × (r ≡ (m, some (before_hook_failed why), v))))
      ⊎ (IsAllowed m target
          × ((v : W) × (e : Option E) × (u : W) × Runs m.state target m.before_hooks w (none, v)
              × Runs m.state target m.after_hooks v (e, u)
              × (r ≡ (record m { state = target }, after_error e, u))))

  finish_transition-Outcome :
      (m : Machine W E) (target : ConnState) (w : W) (b : Option E × W)
      → Runs m.state target m.before_hooks w b
      → IsAllowed m target
      → Outcome m target w (finish_transition m target b)
  unfolding finish_transition
  finish_transition-Outcome m target w (some why, v) k c = inr (inl (c, (why, v, k, refl)))
  finish_transition-Outcome m target w (none, v) k c =
      let after = run_hooks m.after_hooks m.state target v in
      inr (inr (c, (v, after.0, after.1, k, run_hooks-Runs m.state target m.after_hooks v, refl)))

  -- `Transition` goes one of three ways. A target that is not listed for the machine's state is
  -- refused, with no hook run and nothing changed. Otherwise the before hooks run in order up to the
  -- first that fails: none behind it runs, the machine is as before, and its error is returned. If
  -- none fails the machine is in the target state and otherwise as before, and the after hooks run
  -- the same way on the world that the before hooks left; an error of theirs is returned, and the
  -- state stays changed.
  pub transition-Outcome :
      (m : Machine W E) (target : ConnState) (w : W) → Outcome m target w (transition m target w)
  transition-Outcome m target w = elim (Bool-cases (can_transition m target)) [
    | inl e ↦ subst (Outcome m target w) (sym (transition_allowed m target w e)) (
        finish_transition-Outcome m target w _ (run_hooks-Runs m.state target m.before_hooks w)
          (can_transition-IsAllowed m target e))
    | inr e ↦
        subst (Outcome m target w) (sym (transition_refused m target w e))
          (inl (can_transition-refuses m target e, refl))
  ]

  abbrev pub then_run :
      List (TransitionHook W E) → ConnState → ConnState → Option E × W → Option E × W
  then_run hooks from target (none, w) = run_hooks hooks from target w
  then_run hooks from target (some why, w) = (some why, w)

  run_hooks-append :
      (hooks others : List (TransitionHook W E)) (from target : ConnState) (w : W)
      → run_hooks (hooks ++ others) from target w
        ≡ then_run others from target (run_hooks hooks from target w)
  unfolding run_hooks
  run_hooks-append [] others from target w = refl
  run_hooks-append (hook ∷ hooks) others from target w =
      by_result (hook from target w) (run_hooks-append hooks others from target)
    where
      by_result :
          (r : Option E × W)
          → ((v : W)
              → run_hooks (hooks ++ others) from target v
                ≡ then_run others from target (run_hooks hooks from target v))
          → after_hook r (run_hooks (hooks ++ others) from target)
            ≡ then_run others from target (after_hook r (run_hooks hooks from target))
      by_result (none, v) ih = ih v
      by_result (some why, v) ih = refl

  -- A hook that is added runs behind the hooks that were there, if none of those fails, on the world
  -- that they leave; it leaves the machine's other parts alone.
  run_hooks-on_before :
      (m : Machine W E) (hook : TransitionHook W E) (from target : ConnState) (w : W)
      → (run_hooks (on_before hook m).before_hooks from target w
          ≡ then_run (hook ∷ []) from target (run_hooks m.before_hooks from target w))
        × (run_hooks (on_after hook m).after_hooks from target w
            ≡ then_run (hook ∷ []) from target (run_hooks m.after_hooks from target w))
        × ((on_before hook m).state ≡ m.state)
        × ((on_after hook m).state ≡ m.state)
        × ((target' : ConnState)
            → (can_transition (on_before hook m) target' ≡ can_transition m target')
              × (can_transition (on_after hook m) target' ≡ can_transition m target'))
  unfolding on_before on_after can_transition
  run_hooks-on_before m hook from target w = (
    run_hooks-append m.before_hooks (hook ∷ []) from target w,
    run_hooks-append m.after_hooks (hook ∷ []) from target w,
    refl,
    refl,
    λ target'. (refl, refl),
  )
