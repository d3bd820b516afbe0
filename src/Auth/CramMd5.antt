-- ===== src/Auth/CramMd5.antt =====
-- auth/crammd5/crammd5.go: the mechanism CRAM-MD5. The keyed digest, in hexadecimal digits, is an
-- argument: it is the standard library's.
use imap_go.Auth.{
  AuthError, Authenticator, Reply, invalid_format, unexpected_response, answer, last, ask,
}
use imap_go.Prelude.Split.{split_n}
use imap_go.Prelude.{ℕ, ◌+◌, List, [], ◌∷◌, ◌++◌, Option, some, Bytes, codes, ◌==◌, if◌then◌else◌}
pub mod Repeats

pub record Client : Type 0 where
  pub username : Bytes
  pub password : Bytes

unfoldable pub next_client : (Bytes → Bytes → Bytes) → Client → Bytes → Bytes
next_client digest c challenge = c.username ++ b' ' ∷ digest c.password challenge

pub record Server : Type 0 where
  pub challenge : Bytes
  pub step : ℕ

abbrev pub new_server : Server
new_server = record { challenge = []; step = 0 }

abbrev pub sent_challenge : Bytes
sent_challenge = codes "<0.0@localhost>"

module _ {E : Type 0} where
  unfoldable pub check : Authenticator E → Bytes → List Bytes → Option (AuthError E)
  check auth response (username ∷ digest ∷ []) = answer (auth (codes "CRAM-MD5") username response)
  check auth response _ = some invalid_format

  unfoldable pub next_server : Authenticator E → Server → Bytes → Reply E × Server
  unfolding split_n check
  next_server auth m response =
      if m.step == 0
      then (ask sent_challenge, record { challenge = sent_challenge; step = m.step + 1 })
      else if m.step == 1
      then (last (check auth response (split_n 1 b' ' response)), m)
      else (last (some unexpected_response), m)
