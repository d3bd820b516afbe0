-- ===== src/Tests/State.antt =====
-- The state machine at concrete inputs.
use imap_go.Imap.ConnState.{not_authenticated, authenticated, selected, logout}
use imap_go.Prelude.{ℕ, zero, suc, ◌+◌, none, some, ◌≡◌, refl}
use imap_go.State.Machine.Hooks.{Outcome, transition-Outcome}
use imap_go.State.Machine.Reach.{Reach, here, next, logout_final, selected_after_authenticated}
use imap_go.State.Machine.{TransitionHook, Machine, new, transition, on_before}
use imap_go.State.Transitions.{default_transitions}

-- A hook that counts its calls, and fails at the third.
abbrev count_calls : TransitionHook ℕ ℕ
count_calls from target zero = (none, 1)
count_calls from target (suc zero) = (none, 2)
count_calls from target (suc (suc n)) = (some n, n + 3)

abbrev counted : Machine ℕ ℕ
counted = on_before count_calls (new not_authenticated)

transition-Outcome_example : Outcome counted authenticated 0 (transition counted authenticated 0)
transition-Outcome_example = transition-Outcome counted authenticated 0

abbrev gone : Machine ℕ ℕ
gone = new logout

logout_final_example : (transition gone authenticated 0).0 ≡ gone
unfolding new
logout_final_example = logout_final {m = gone} refl refl (next authenticated 0 here)

abbrev fresh : Machine ℕ ℕ
fresh = new not_authenticated

abbrev after_login : Machine ℕ ℕ
after_login = (transition fresh authenticated 0).0

abbrev after_select : Machine ℕ ℕ
after_select = (transition after_login selected 0).0

selected_after_authenticated_example :
    (j : Machine ℕ ℕ) × Reach fresh j × (j.state ≡ authenticated) × Reach j after_select
unfolding new transition default_transitions
selected_after_authenticated_example =
    selected_after_authenticated {m = fresh} refl refl (next selected 0 (next authenticated 0 here))
      refl
