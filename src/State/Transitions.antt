-- ===== src/State/Transitions.antt =====
-- state/transitions.go: the default transitions and the states in which a command is valid.
use imap_go.Imap.ConnState.{
  ConnState, not_authenticated, authenticated, selected, logout, same_state,
}
use imap_go.Prelude.{
  Bool, true, false, List, [], ◌∷◌, Option, none, some, if◌then◌else◌, Bytes, codes, equal, any,
}
use Prim.Native.String.{String}

-- A map from states to lists of states.
abbrev pub Transitions : Type 0
Transitions = ConnState → Option (List ConnState)

unfoldable pub default_transitions : Transitions
default_transitions not_authenticated = some (authenticated ∷ logout ∷ [])
default_transitions authenticated = some (selected ∷ logout ∷ not_authenticated ∷ [])
default_transitions selected = some (authenticated ∷ selected ∷ logout ∷ [])
default_transitions logout = none

-- One `case` of the switch.
unfoldable pub one_of : Bytes → List String → Bool
unfolding equal
one_of cmd [] = false
one_of cmd (name ∷ names) = if equal cmd (codes name) then true else one_of cmd names

-- `none` for a command that is not listed.
unfoldable pub command_allowed_states : Bytes → Option (List ConnState)
command_allowed_states cmd =
    if one_of cmd ("CAPABILITY" ∷ "NOOP" ∷ "LOGOUT" ∷ [])
    then some (not_authenticated ∷ authenticated ∷ selected ∷ [])
    else if one_of cmd ("STARTTLS" ∷ "AUTHENTICATE" ∷ "LOGIN" ∷ [])
    then some (not_authenticated ∷ [])
    else if one_of cmd (
        "ENABLE" ∷ "SELECT" ∷ "EXAMINE" ∷ "CREATE" ∷ "DELETE" ∷ "RENAME" ∷ "SUBSCRIBE"
        ∷ "UNSUBSCRIBE" ∷ "LIST" ∷ "LSUB" ∷ "NAMESPACE" ∷ "STATUS" ∷ "APPEND" ∷ "IDLE" ∷ [])
    then some (authenticated ∷ selected ∷ [])
    else if one_of cmd (
        "CLOSE" ∷ "UNSELECT" ∷ "EXPUNGE" ∷ "SEARCH" ∷ "FETCH" ∷ "STORE" ∷ "COPY" ∷ "MOVE" ∷ "SORT"
        ∷ "THREAD" ∷ "UID" ∷ [])
    then some (selected ∷ [])
    else none

-- Whether a state is among those of an answer; no state is where the command is not listed.
abbrev pub admits : Option (List ConnState) → ConnState → Bool
admits none s = false
admits (some allowed) s = any (λ a. same_state s a) allowed
