-- ===== src/Auth.antt =====
-- auth/auth.go: what the SASL mechanisms share. The authenticator is the application's: it gets the
-- mechanism, the identity and the credentials, and says why it denies, or nothing.
use imap_go.Prelude.{Bool, true, false, List, Option, none, some, Bytes, to_upper, lookup, store}
pub mod Plain
pub mod Login
pub mod Xoauth2
pub mod Oauthbearer
pub mod CramMd5
pub mod Simple

pub data AuthError (E : Type 0) : Type 0 where
  completed invalid_format unexpected_response missing_username missing_token : AuthError E
  denied : E → AuthError E

abbrev pub Authenticator : Type 0 → Type 0
Authenticator E = Bytes → Bytes → Bytes → Option E

-- What `Next` of a server mechanism returns.
pub record Reply (E : Type 0) : Type 0 where
  pub challenge : Option Bytes
  pub done : Bool
  pub error : Option (AuthError E)

module _ {E : Type 0} where
  abbrev pub answer : Option E → Option (AuthError E)
  answer none = none
  answer (some why) = some (denied why)

  abbrev pub last : Option (AuthError E) → Reply E
  last e = record { challenge = none; done = true; error = e }

  abbrev pub ask : Bytes → Reply E
  ask c = record { challenge = some c; done = false; error = none }

  -- `Next` of a mechanism with one response: the flag `done` says whether it has been given.
  abbrev pub next_once : (Bytes → Option (AuthError E)) → Bool → Bytes → Reply E × Bool
  next_once check true response = (last (some completed), true)
  next_once check false response = (last (check response), true)

-- The tables of factories of `Registry`.
module _ {Factory : Type 0} where
  unfoldable pub register : Bytes → Factory → List (Bytes × Factory) → List (Bytes × Factory)
  unfolding to_upper store
  register name factory factories = store (to_upper name) factory factories

  unfoldable pub new_mechanism : List (Bytes × Factory) → Bytes → Option Factory
  unfolding to_upper lookup
  new_mechanism factories name = lookup (to_upper name) factories
