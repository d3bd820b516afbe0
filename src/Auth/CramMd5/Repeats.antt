-- ===== src/Auth/CramMd5/Repeats.antt =====
-- The exchange of CRAM-MD5, and a response that is given again.
use imap_go.Auth.CramMd5.{
  Client, next_client, Server, new_server, sent_challenge, check, next_server,
}
use imap_go.Auth.{Authenticator, answer}
use imap_go.Prelude.Split.{split_n, pieces, cut-append, Lacks}
use imap_go.Prelude.{◌≡◌, refl, ap, ◌∙◌, List, [], ◌∷◌, some, Bytes, codes}

module _ {E : Type 0} (auth : Authenticator E) (digest : Bytes → Bytes → Bytes) where
  -- The server after its challenge, and after a list of responses more.
  abbrev pub asked : Bytes → Server
  asked first = (next_server auth new_server first).1

  pub after : Server → List Bytes → Server
  after m [] = m
  after m (r ∷ rs) = after (next_server auth m r).1 rs

  after_same : (first : Bytes) (rs : List Bytes) → after (asked first) rs ≡ asked first
  unfolding after next_server
  after_same first [] = refl
  after_same first (r ∷ rs) = after_same first rs

  split-response :
      (c : Client) (challenge : Bytes)
      → Lacks b' ' c.username
      → split_n 1 b' ' (next_client digest c challenge)
        ≡ c.username ∷ digest c.password challenge ∷ []
  unfolding split_n next_client
  split-response c challenge l =
      ap (pieces (split_n 0 b' ') (next_client digest c challenge))
        (cut-append b' ' c.username (digest c.password challenge) l)

  -- A client whose name has no space has its response taken to the authenticator, with the name; and
  -- not the first time only: however many responses the server has had to its challenge, right or
  -- wrong, it takes the next to the authenticator too.
  pub asks_again :
      (c : Client) (first : Bytes) (rs : List Bytes)
      → Lacks b' ' c.username
      → let response = next_client digest c sent_challenge in
        ((next_server auth new_server first).0.challenge ≡ some sent_challenge)
        × ((next_server auth (after (asked first) rs) response).0.error
            ≡ answer (auth (codes "CRAM-MD5") c.username response))
  unfolding next_server
  asks_again c first rs l = (
    refl,
    ap (λ m. (next_server auth m response).0.error) (after_same first rs)
        ∙ ap (check auth response) (split-response c sent_challenge l),
  )
    where
      response : Bytes
      response = next_client digest c sent_challenge
