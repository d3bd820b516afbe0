-- ===== src/Auth/Login.antt =====
-- auth/login/login.go: the mechanism LOGIN, which asks for the name and then for the password.
use imap_go.Auth.{AuthError, Authenticator, Reply, unexpected_response, answer, last, ask}
use imap_go.Prelude.{ℕ, zero, suc, ◌+◌, Option, none, some, Bytes, codes, [], ◌==◌, if◌then◌else◌}
pub mod Exchange

pub record Client : Type 0 where
  pub username : Bytes
  pub password : Bytes
  pub step : ℕ

-- `none` is the error for an unexpected challenge.
unfoldable pub next_client : Client → Bytes → Option Bytes × Client
next_client c challenge =
    if c.step == 0
    then (some c.username, record c { step = c.step + 1 })
    else if c.step == 1
    then (some c.password, record c { step = c.step + 1 })
    else (none, c)

pub record Server : Type 0 where
  pub step : ℕ
  pub username : Bytes

abbrev pub new_server : Server
new_server = record { step = 0; username = [] }

module _ {E : Type 0} where
  unfoldable pub next_server : Authenticator E → Server → Bytes → Reply E × Server
  next_server auth m response =
      if m.step == 0
      then (ask (codes "Username:"), record m { step = m.step + 1 })
      else if m.step == 1
      then (ask (codes "Password:"), record { username = response; step = m.step + 1 })
      else if m.step == 2
      then (
        last (answer (auth (codes "LOGIN") m.username response)),
        record m { step = m.step + 1 },
      )
      else (last (some unexpected_response), m)
