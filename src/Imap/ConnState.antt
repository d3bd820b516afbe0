-- ===== src/Imap/ConnState.antt =====
-- `ConnState` of imap.go.
use imap_go.Prelude.{Bool, true, false}

pub data ConnState : Type 0 where
  not_authenticated authenticated selected logout : ConnState

-- `==` on connection states.
unfoldable pub same_state : ConnState → ConnState → Bool
same_state not_authenticated not_authenticated = true
same_state authenticated authenticated = true
same_state selected selected = true
same_state logout logout = true
same_state _ _ = false
