-- ===== src/MemServer/Session.antt =====
-- server/memserver/session.go: what a session does with the mailboxes of its user. A user's data has a
-- pointer, since sessions share it; a selected mailbox is the pointer of the data and the one in it.
pub mod Closed
use imap_go.MemServer.Mailbox.{Mailbox}
use imap_go.MemServer.User.{
  UserData, UserError, no_such_mailbox, get_mailbox, create_mailbox, delete_mailbox, rename_mailbox,
}
use imap_go.Prelude.{
  ℕ, Bool, true, false, List, Option, none, some, ◌≡◌, refl, Bytes, equal, if◌then◌else◌, set_at,
  lookup,
}

pub data SessionError : Type 0 where
  not_authenticated invalid_credentials : SessionError
  user_error : UserError → SessionError

pub record Session : Type 0 where
  pub user_data : Option ℕ
  pub selected_mailbox : Option (ℕ × ℕ)
  pub selected_read_only : Bool

unfoldable pub close : Session → Session
close s = record s { user_data = none; selected_mailbox = none }

unfoldable pub unselect : Session → Session
unselect s = record s { selected_mailbox = none; selected_read_only = false }

-- `Login`, with the maps `users` and `userData` of the server.
unfoldable pub login_at : Option Bytes → Option ℕ → Bytes → Session → Option SessionError × Session
unfolding equal
login_at none found password s = (some invalid_credentials, s)
login_at (some expected) found password s =
    if equal expected password
    then (none, record s { user_data = found })
    else (some invalid_credentials, s)

unfoldable pub login :
    List (Bytes × Bytes)
    → List (Bytes × ℕ)
    → Bytes
    → Bytes
    → Session
    → Option SessionError × Session
unfolding lookup login_at
login users user_data username password s =
    login_at (lookup username users) (lookup username user_data) password s

unfoldable pub select_at : ℕ → Option ℕ → Bool → Session → Option SessionError × Session
select_at d none read_only s = (some (user_error no_such_mailbox), s)
select_at d (some p) read_only s =
    (none, record s { selected_mailbox = some (d, p); selected_read_only = read_only })

abbrev lift : Option UserError → Option SessionError
lift none = none
lift (some e) = some (user_error e)

module _ {Time : Type 0} where
  unfoldable pub select :
      (ℕ → UserData Time) → Bytes → Bool → Session → Option SessionError × Session
  unfolding select_at get_mailbox
  select store mailbox read_only s = elim s.user_data [
    | none ↦ (some not_authenticated, s)
    | some d ↦ select_at d (get_mailbox (store d) mailbox) read_only s
  ]

  -- An operation of the user's data, by a session that has one.
  abbrev on_data :
      (UserData Time → Option UserError × UserData Time)
      → Session
      → (ℕ → UserData Time)
      → Option SessionError × (ℕ → UserData Time)
  on_data f s store = elim s.user_data [
    | none ↦ (some not_authenticated, store)
    | some d ↦ (lift (f (store d)).0, set_at store d (f (store d)).1)
  ]

  unfoldable pub create :
      Bytes → Session → (ℕ → UserData Time) → Option SessionError × (ℕ → UserData Time)
  unfolding create_mailbox
  create mailbox = on_data (create_mailbox mailbox)

  unfoldable pub rename :
      Bytes → Bytes → Session → (ℕ → UserData Time) → Option SessionError × (ℕ → UserData Time)
  unfolding rename_mailbox
  rename mailbox new_name = on_data (rename_mailbox mailbox new_name)

  -- The test of `Delete`: whether the selected mailbox bears the name.
  unfoldable pub selects_name : Bytes → Option (ℕ × ℕ) → (ℕ → UserData Time) → Bool
  unfolding equal
  selects_name mailbox none store = false
  selects_name mailbox (some (d, p)) store = equal ((store d).boxes p).name mailbox

  unfoldable pub delete :
      Bytes → Session → (ℕ → UserData Time) → Option SessionError × Session × (ℕ → UserData Time)
  unfolding unselect selects_name delete_mailbox
  delete mailbox s store = elim s.user_data [
    | none ↦ (some not_authenticated, s, store)
    | some d ↦
        let s' = if selects_name mailbox s.selected_mailbox store then unselect s else s in
        let r = on_data (delete_mailbox mailbox) s store in (r.0, s', r.1)
  ]

  -- `Subscribe` with `true` and `Unsubscribe` with `false`.
  unfoldable pub mark_at : Bool → Option ℕ → UserData Time → Option UserError × UserData Time
  mark_at b none u = (some no_such_mailbox, u)
  mark_at b (some p) u =
      (none, record u { boxes = set_at u.boxes p (record (u.boxes p) { subscribed = b }) })

  unfoldable pub subscribe :
      Bytes → Session → (ℕ → UserData Time) → Option SessionError × (ℕ → UserData Time)
  unfolding mark_at get_mailbox
  subscribe mailbox = on_data (λ u. mark_at true (get_mailbox u mailbox) u)

  unfoldable pub unsubscribe :
      Bytes → Session → (ℕ → UserData Time) → Option SessionError × (ℕ → UserData Time)
  unfolding mark_at get_mailbox
  unsubscribe mailbox = on_data (λ u. mark_at false (get_mailbox u mailbox) u)
