-- ===== src/MemServer/Session/Closed.antt =====
-- A session that has been closed, and has not logged in again.
use imap_go.MemServer.Session.{
  Session, not_authenticated, close, select, create, delete, rename, subscribe, unsubscribe,
}
use imap_go.MemServer.User.{UserData}
use imap_go.Prelude.{ℕ, Bool, some, ◌≡◌, refl, Bytes}

-- Every operation on the mailboxes is refused after `Close`, and changes nothing.
pub close_refuses :
    {Time : Type 0} (s : Session) (store : ℕ → UserData Time) (name new_name : Bytes)
    (read_only : Bool)
    → (select store name read_only (close s) ≡ (some not_authenticated, close s))
      × (create name (close s) store ≡ (some not_authenticated, store))
      × (delete name (close s) store ≡ (some not_authenticated, close s, store))
      × (rename name new_name (close s) store ≡ (some not_authenticated, store))
      × (subscribe name (close s) store ≡ (some not_authenticated, store))
      × (unsubscribe name (close s) store ≡ (some not_authenticated, store))
unfolding close select create delete rename subscribe unsubscribe
close_refuses s store name new_name read_only = (refl, refl, refl, refl, refl, refl)
