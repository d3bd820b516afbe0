-- ===== src/Auth/Oauthbearer/RoundTrip.antt =====
-- The server of OAUTHBEARER reads the response of the client, but a name with a comma in part.
use imap_go.Auth.Oauthbearer.{
  Client, name, pair, start, username_of, token_of, check_found, parse_body, parse, authenticate,
  next,
}
use imap_go.Auth.{Authenticator, answer}
use imap_go.Prelude.Split.{split, split-append, cut-append, Lacks}
use imap_go.Prelude.{
  ◌≡◌, ◌≢◌, refl, sym, ap, ◌∙◌, inl, inr, false, [], ◌∷◌, ◌++◌, append_assoc, All-append, Bytes,
  codes, equal, equal-nil, drop, if◌then◌else◌, Bool-cases, has_prefix,
}

-- The end of the response, from the host on.
tail_of : Client → Bytes
tail_of c =
    pair (codes "host=") c.host
    ++ (pair (codes "port=") c.port ++ (codes "auth=Bearer " ++ (c.access_token ++ 1 ∷ 1 ∷ [])))

-- A part that is no token leaves the token.
token-skip :
    (part rest token : Bytes)
    → Lacks 1 part
    → has_prefix (codes "auth=") part ≡ false
    → has_prefix (codes "auth=Bearer ") part ≡ false
    → token_of (split 1 (part ++ 1 ∷ rest)) token ≡ token_of (split 1 rest) token
unfolding token_of
token-skip part rest token l h k =
    ap (λ ps. token_of ps token) (split-append 1 part rest l)
    ∙ ap
        (λ b. token_of (split 1 rest) (
          if b
          then drop 12 part
          else if has_prefix (codes "auth=") part
          then drop 5 part
          else token))
        k
    ∙ ap (λ b. token_of (split 1 rest) (if b then drop 5 part else token)) h

token-last :
    (t token : Bytes)
    → Lacks 1 t
    → token_of (split 1 (codes "auth=Bearer " ++ (t ++ 1 ∷ 1 ∷ []))) token ≡ t
unfolding token_of split
token-last t token l =
    ap (λ ps. token_of ps token)
      (split-append 1 (codes "auth=Bearer " ++ t) (1 ∷ []) (
        refl,
        (refl, (refl, (refl, (refl, (refl, (refl, (refl, (refl, (refl, (refl, (refl, l))))))))))),
      ))

-- A pair that is left out, or one that is no token, leaves the token.
token-pair :
    (key v rest token : Bytes)
    → Lacks 1 (key ++ v)
    → has_prefix (codes "auth=") (key ++ v) ≡ false
    → has_prefix (codes "auth=Bearer ") (key ++ v) ≡ false
    → token_of (split 1 (pair key v ++ rest)) token ≡ token_of (split 1 rest) token
unfolding pair
token-pair key v rest token l h k = elim (Bool-cases (equal v [])) [
  | inl e ↦ rw e refl
  | inr e ↦ rw e (
      ap (λ s. token_of (split 1 s) token)
        (append_assoc key (v ++ 1 ∷ []) rest
          ∙ ap (λ s. key ++ s) (append_assoc v (1 ∷ []) rest)
          ∙ sym (append_assoc key v (1 ∷ rest)))
      ∙ token-skip (key ++ v) rest token l h k)
]

module _ {E : Type 0} (auth : Authenticator E) where
  -- Whatever stands between the comma and the pairs, the token is the last.
  token-body :
      (c : Client) (before : Bytes)
      → Lacks 1 before
      → Lacks 1 c.host
      → Lacks 1 c.port
      → Lacks 1 c.access_token
      → token_of (split 1 (before ++ 1 ∷ tail_of c)) [] ≡ c.access_token
  unfolding tail_of token_of
  token-body c before lb lh lp lt =
      ap (λ ps. token_of ps []) (split-append 1 before (tail_of c) lb)
      ∙ token-pair (codes "host=") c.host _ (token_of (before ∷ []) [])
          (refl, (refl, (refl, (refl, (refl, lh))))) refl refl
      ∙ token-pair (codes "port=") c.port _ (token_of (before ∷ []) [])
          (refl, (refl, (refl, (refl, (refl, lp))))) refl refl
      ∙ token-last c.access_token (token_of (before ∷ []) []) lt

  authenticate-found :
      (u t : Bytes)
      → u ≢ []
      → t ≢ []
      → authenticate auth (check_found (record { username = u; token = t }))
        ≡ answer (auth name u t)
  unfolding authenticate check_found
  authenticate-found u t hu ht = rw (equal-nil u hu) (rw (equal-nil t ht) refl)

  -- The response of a client whose name starts with `u` and a comma, or is `u`: `before` is the rest.
  next-cut :
      (c : Client) (u before : Bytes)
      → start c ≡ codes "n,a=" ++ (u ++ b',' ∷ (before ++ 1 ∷ tail_of c))
      → Lacks b',' u
      → u ≢ []
      → c.access_token ≢ []
      → Lacks 1 before
      → Lacks 1 c.host
      → Lacks 1 c.port
      → Lacks 1 c.access_token
      → (next auth false (start c)).0.error ≡ answer (auth name u c.access_token)
  unfolding next parse parse_body username_of
  next-cut c u before e l hu ht lb lh lp lt =
      ap (λ r. (next auth false r).0.error) e
      ∙ ap (λ o. authenticate auth (parse_body o))
          (cut-append b',' (codes "a=" ++ u) (before ++ 1 ∷ tail_of c) (refl, (refl, l)))
      ∙ ap (λ t. authenticate auth (check_found (record { username = u; token = t })))
          (token-body c before lb lh lp lt)
      ∙ authenticate-found u c.access_token hu ht

  -- The server reads the name and the token that the client wrote, if they are not empty, the name has
  -- no comma and the others no byte 1, and takes them to the authenticator.
  pub next_bearer :
      (c : Client)
      → c.username ≢ []
      → c.access_token ≢ []
      → Lacks b',' c.username
      → Lacks 1 c.host
      → Lacks 1 c.port
      → Lacks 1 c.access_token
      → (next auth false (start c)).0.error ≡ answer (auth name c.username c.access_token)
  unfolding start tail_of
  next_bearer c hu ht l lh lp lt = next-cut c c.username [] refl l hu ht tt lh lp lt

  -- Of a name with a comma the server takes what stands before it for the whole name.
  pub next_comma :
      (c : Client) (u v : Bytes)
      → c.username ≡ u ++ b',' ∷ v
      → u ≢ []
      → c.access_token ≢ []
      → Lacks b',' u
      → Lacks 1 v
      → Lacks 1 c.host
      → Lacks 1 c.port
      → Lacks 1 c.access_token
      → (next auth false (start c)).0.error ≡ answer (auth name u c.access_token)
  unfolding start tail_of
  next_comma c u v e hu ht l lv lh lp lt =
      next-cut c u (v ++ b',' ∷ [])
        (ap (λ n. codes "n,a=" ++ (n ++ b',' ∷ 1 ∷ tail_of c)) e
          ∙ ap (λ s. codes "n,a=" ++ s)
              (append_assoc u (b',' ∷ v) (b',' ∷ 1 ∷ tail_of c)
                ∙ ap (λ s. u ++ b',' ∷ s) (sym (append_assoc v (b',' ∷ []) (1 ∷ tail_of c)))))
        l hu ht (All-append _ v (b',' ∷ []) lv (refl, tt)) lh lp lt
