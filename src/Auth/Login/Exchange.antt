-- ===== src/Auth/Login/Exchange.antt =====
-- The exchange of LOGIN between the client and the server.
use imap_go.Auth.Login.{Client, next_client, Server, new_server, next_server}
use imap_go.Auth.{AuthError, Authenticator, unexpected_response, answer}
use imap_go.Prelude.{
  ℕ, zero, suc, ◌≤◌, Option, none, some, ◌≡◌, refl, Bytes, codes, [], arith, if◌then◌else◌,
}

abbrev or_empty : Option Bytes → Bytes
or_empty none = []
or_empty (some c) = c

module _ {E : Type 0} (auth : Authenticator E) where
  abbrev pub Outcome : Type 0
  Outcome = Option (Option (AuthError E))

  abbrev respond : (Client → Server → Bytes → Outcome) → Option Bytes × Client → Server → Outcome
  respond go_on (none, c) m = none
  respond go_on (some response, c) m = go_on c m response

  -- The two sides in turn, for a number of rounds: what the server says at the end, or `none` if it
  -- has not ended by then, or the client gives up.
  unfoldable pub converse : ℕ → Client → Server → Bytes → Outcome
  unfolding next_client next_server
  converse zero c m response = none
  converse (suc n) c m response =
      let (r, m') = next_server auth m response in
      if r.done
      then some r.error
      else respond (converse n) (next_client c (or_empty r.challenge)) m'

  -- Whatever the client sends to begin with, the exchange ends within three rounds, and the server
  -- then says what the authenticator says to the client's name and password. A server that has
  -- ended asks the authenticator no more.
  pub converse_ends :
      (username password first : Bytes) (n : ℕ) (m : Server) (response : Bytes)
      → 3 ≤ m.step
      → (converse
            (suc (suc (suc n)))
            (record { username = username; password = password; step = 0 })
            new_server
            first
          ≡ some (answer (auth (codes "LOGIN") username password)))
        × ((next_server auth m response).0.error ≡ some unexpected_response)
        × ((next_server auth m response).1 ≡ m)
  unfolding converse
  converse_ends username password first n m response h = (refl, ended, same)
    where
      ended : (next_server auth m response).0.error ≡ some unexpected_response
      ended = ground arith

      same : (next_server auth m response).1 ≡ m
      same = ground arith
