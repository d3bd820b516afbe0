-- ===== src/Auth/Plain.antt =====
-- auth/plain/plain.go: the mechanism PLAIN.
use imap_go.Auth.{AuthError, Authenticator, Reply, invalid_format, answer, next_once}
use imap_go.Prelude.Split.{split_n}
use imap_go.Prelude.{ℕ, Bool, List, [], ◌∷◌, ◌++◌, Option, some, Bytes, codes}
pub mod Accepts

abbrev pub name : Bytes
name = codes "PLAIN"

pub record Client : Type 0 where
  pub authz_id : Bytes
  pub username : Bytes
  pub password : Bytes

unfoldable pub start : Client → Bytes
start c = c.authz_id ++ 0 ∷ (c.username ++ 0 ∷ c.password)

module _ {E : Type 0} where
  -- The identity that the client wants to act as is not passed on.
  unfoldable pub check : Authenticator E → List Bytes → Option (AuthError E)
  check auth (authz_id ∷ username ∷ password ∷ []) = answer (auth name username password)
  check auth _ = some invalid_format

  unfoldable pub next : Authenticator E → Bool → Bytes → Reply E × Bool
  unfolding split_n check
  next auth = next_once (λ response. check auth (split_n 2 0 response))
