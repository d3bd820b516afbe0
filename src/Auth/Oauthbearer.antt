-- ===== src/Auth/Oauthbearer.antt =====
-- auth/oauthbearer/oauthbearer.go: the mechanism OAUTHBEARER.
use imap_go.Auth.{
  AuthError, Authenticator, Reply, invalid_format, missing_username, missing_token, answer,
  next_once,
}
use imap_go.Prelude.Result.{Result, ok, err}
use imap_go.Prelude.Split.{split, cut}
use imap_go.Prelude.{
  ℕ, Bool, List, [], ◌∷◌, ◌++◌, Option, none, some, Bytes, codes, equal, length, take, drop,
  has_prefix, if◌then◌else◌,
}
pub mod RoundTrip

abbrev pub name : Bytes
name = codes "OAUTHBEARER"

pub record Client : Type 0 where
  pub username : Bytes
  pub access_token : Bytes
  pub host : Bytes
  pub port : Bytes

-- A key with its value and the separator, unless the value is empty.
unfoldable pub pair : Bytes → Bytes → Bytes
unfolding equal
pair key value = if equal value [] then [] else key ++ (value ++ 1 ∷ [])

unfoldable pub start : Client → Bytes
unfolding pair
start c =
    codes "n,a="
    ++ (c.username
        ++ b','
          ∷ 1
          ∷ (pair (codes "host=") c.host
              ++ (pair (codes "port=") c.port
                  ++ (codes "auth=Bearer " ++ (c.access_token ++ 1 ∷ 1 ∷ [])))))

pub record Found : Type 0 where
  pub username : Bytes
  pub token : Bytes

unfoldable pub username_of : Bytes → Bytes
unfolding has_prefix
username_of authz = if has_prefix (codes "a=") authz then drop 2 authz else []

-- The loop over the pairs: the last token stays.
unfoldable pub token_of : List Bytes → Bytes → Bytes
unfolding has_prefix
token_of [] token = token
token_of (part ∷ parts) token = token_of parts (
    if has_prefix (codes "auth=Bearer ") part
    then drop 12 part
    else if has_prefix (codes "auth=") part
    then drop 5 part
    else token)

module _ {E : Type 0} where
  unfoldable pub check_found : Found → Result (AuthError E) Found
  unfolding equal
  check_found f =
      if equal f.username []
      then err missing_username
      else if equal f.token []
      then err missing_token
      else ok f

  unfoldable pub parse_body : Option (Bytes × Bytes) → Result (AuthError E) Found
  unfolding username_of token_of check_found split
  parse_body none = err invalid_format
  parse_body (some (authz, s)) =
      check_found (record { username = username_of authz; token = token_of (split 1 s) [] })

  unfoldable pub parse : Bytes → Result (AuthError E) Found
  unfolding has_prefix parse_body cut
  parse s =
      if has_prefix (codes "n,") s then parse_body (cut b',' (drop 2 s)) else err invalid_format

  unfoldable pub authenticate : Authenticator E → Result (AuthError E) Found → Option (AuthError E)
  authenticate auth (err e) = some e
  authenticate auth (ok f) = answer (auth name f.username f.token)

  unfoldable pub next : Authenticator E → Bool → Bytes → Reply E × Bool
  unfolding parse authenticate
  next auth = next_once (λ response. authenticate auth (parse response))
