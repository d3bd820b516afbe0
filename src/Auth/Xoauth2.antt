-- ===== src/Auth/Xoauth2.antt =====
-- auth/xoauth2/xoauth2.go: the mechanism XOAUTH2.
use imap_go.Auth.{
  AuthError, Authenticator, Reply, missing_username, missing_token, answer, next_once,
}
use imap_go.Prelude.Result.{Result, ok, err}
use imap_go.Prelude.{
  ℕ, Bool, true, false, ◌&&◌, List, [], ◌∷◌, ◌++◌, Option, none, some, Bytes, codes, equal, length,
  take, drop, ltb, ◌==◌, if◌then◌else◌,
}
pub mod RoundTrip

abbrev pub name : Bytes
name = codes "XOAUTH2"

pub record Client : Type 0 where
  pub username : Bytes
  pub access_token : Bytes

unfoldable pub start : Client → Bytes
start c =
    codes "user=" ++ (c.username ++ 1 ∷ (codes "auth=Bearer " ++ (c.access_token ++ 1 ∷ 1 ∷ [])))

-- What the loop has found.
pub record Found : Type 0 where
  pub username : Bytes
  pub token : Bytes

unfoldable pub strip_bearer : Bytes → Bytes
unfolding equal
strip_bearer val =
    if ltb 7 (length val) && equal (take 7 val) (codes "Bearer ") then drop 7 val else val

unfoldable pub set_field : Bytes → Bytes → Found → Found
unfolding strip_bearer equal
set_field key val f =
    if equal key (codes "user")
    then record f { username = val }
    else if equal key (codes "auth")
    then record f { token = strip_bearer val }
    else f

-- The loop, a byte at a time: `some key` while it is in the value of a key, and `acc` holds the bytes
-- of the key or the value so far.
unfoldable pub scan : Option Bytes → Bytes → Bytes → Found → Found
unfolding set_field
scan none acc [] f = f
scan (some key) acc [] f = set_field key acc f
scan none acc (c ∷ s) f =
    let value = scan (some acc) [] s f in
    let more = scan none (acc ++ c ∷ []) s f in if c == b'=' then value else more
scan (some key) acc (c ∷ s) f =
    let next = scan none [] s (set_field key acc f) in
    let more = scan (some key) (acc ++ c ∷ []) s f in if c == 1 then next else more

module _ {E : Type 0} where
  unfoldable pub check_found : Found → Result (AuthError E) Found
  unfolding equal
  check_found f =
      if equal f.username []
      then err missing_username
      else if equal f.token []
      then err missing_token
      else ok f

  unfoldable pub parse : Bytes → Result (AuthError E) Found
  unfolding scan check_found
  parse response = check_found (scan none [] response (record { username = []; token = [] }))

  unfoldable pub authenticate : Authenticator E → Result (AuthError E) Found → Option (AuthError E)
  authenticate auth (err e) = some e
  authenticate auth (ok f) = answer (auth name f.username f.token)

  unfoldable pub next : Authenticator E → Bool → Bytes → Reply E × Bool
  unfolding parse authenticate
  next auth = next_once (λ response. authenticate auth (parse response))
