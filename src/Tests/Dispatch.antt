-- ===== src/Tests/Dispatch.antt =====
-- The dispatch of commands at concrete inputs: a handler is a number.
use imap_go.Imap.ConnState.{not_authenticated, selected}
use imap_go.MemServer.Mailbox.{num_kind_uid}
use imap_go.Prelude.{ℕ, [], ◌∷◌, ◌++◌, ◌≡◌, refl, codes, equal, to_upper, lookup}
use imap_go.Server.Dispatch.Route.{IsSafe, dispatch, choose, refused, run, dispatch-IsSafe}
use imap_go.Server.Dispatch.{Dispatcher, get}
use imap_go.State.Machine.{Machine, new, not_allowed, require_state}
use imap_go.Imap.ConnState.{same_state}
use imap_go.State.Transitions.{command_allowed_states, one_of}

abbrev handlers : Dispatcher ℕ
handlers = (codes "FETCH", 1) ∷ (codes "LOGIN", 2) ∷ (codes "XFOO", 3) ∷ []

abbrev in_mailbox : Machine ℕ ℕ
in_mailbox = new selected

abbrev greeted : Machine ℕ ℕ
greeted = new not_authenticated

dispatch-IsSafe_example :
    IsSafe handlers in_mailbox
      (codes "fetch")
      (codes "1 FLAGS")
      (dispatch handlers in_mailbox (codes "fetch") (codes "1 FLAGS"))
    × (dispatch handlers in_mailbox (codes "Uid") (codes "fetch" ++ b' ' ∷ codes "1 FLAGS")
        ≡ choose handlers in_mailbox (to_upper (codes "fetch")) num_kind_uid (codes "1 FLAGS"))
unfolding to_upper
dispatch-IsSafe_example =
    dispatch-IsSafe handlers in_mailbox (codes "fetch") (codes "1 FLAGS") (codes "Uid")
      (codes "fetch") (codes "1 FLAGS") refl (λ e. cc) (refl, (refl, (refl, (refl, (refl, tt)))))

fetch_by_uid :
    dispatch handlers in_mailbox (codes "uid") (codes "fetch 1 FLAGS")
    ≡ run 1 (codes "FETCH") num_kind_uid (codes "1 FLAGS")
unfolding dispatch equal to_upper command_allowed_states require_state get new lookup one_of
    same_state
fetch_by_uid = refl

fetch_too_early :
    dispatch handlers greeted (codes "FETCH") (codes "1 FLAGS")
    ≡ refused (not_allowed not_authenticated)
unfolding dispatch equal to_upper command_allowed_states require_state get new lookup one_of
    same_state
fetch_too_early = refl

-- The prefix is taken before commands that have no form with UIDs.
login_by_uid :
    dispatch handlers greeted (codes "UID") (codes "LOGIN a b")
    ≡ run 2 (codes "LOGIN") num_kind_uid (codes "a b")
unfolding dispatch equal to_upper command_allowed_states require_state get new lookup one_of
    same_state
login_by_uid = refl
