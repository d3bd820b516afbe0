-- ===== src/Auth/Xoauth2/RoundTrip.antt =====
-- The server of XOAUTH2 reads the response of the client.
use imap_go.Auth.Xoauth2.{
  Client, name, start, Found, strip_bearer, set_field, scan, check_found, parse, authenticate, next,
}
use imap_go.Auth.{Authenticator, answer}
use imap_go.Prelude.Result.{ok}
use imap_go.Prelude.Split.{Lacks}
use imap_go.Prelude.{
  ◌≡◌, ◌≢◌, refl, ap, ◌∙◌, false, [], ◌∷◌, ◌++◌, append-nil, append_assoc, none, some, arith, Bytes,
  codes, equal-nil,
}

scan-key :
    (s rest acc : Bytes) (f : Found)
    → Lacks b'=' s
    → scan none acc (s ++ b'=' ∷ rest) f ≡ scan (some (acc ++ s)) [] rest f
unfolding scan
scan-key [] rest acc f h = rw append-nil
scan-key (c ∷ s) rest acc f (hc, h) = rw hc (scan-key s rest (acc ++ c ∷ []) f h ∙ rw append_assoc)

scan-value :
    (s rest acc key : Bytes) (f : Found)
    → Lacks 1 s
    → scan (some key) acc (s ++ 1 ∷ rest) f ≡ scan none [] rest (set_field key (acc ++ s) f)
unfolding scan
scan-value [] rest acc key f h = rw append-nil
scan-value (c ∷ s) rest acc key f (hc, h) =
    rw hc (scan-value s rest (acc ++ c ∷ []) key f h ∙ rw append_assoc)

strip_bearer-append : (t : Bytes) → t ≢ [] → strip_bearer (codes "Bearer " ++ t) ≡ t
unfolding strip_bearer
strip_bearer-append [] h = absurd (h refl)
strip_bearer-append (c ∷ t) h = ground arith

Lacks-Bearer : (t : Bytes) → Lacks 1 t → Lacks 1 (codes "Bearer " ++ t)
Lacks-Bearer t h = (refl, (refl, (refl, (refl, (refl, (refl, (refl, h)))))))

module _ {E : Type 0} (auth : Authenticator E) (c : Client) (user : c.username ≢ [])
    (token : c.access_token ≢ []) (lu : Lacks 1 c.username) (lt : Lacks 1 c.access_token) where
  found : Found
  found = record { username = c.username; token = c.access_token }

  blank : Found
  blank = record { username = []; token = [] }

  rest : Bytes
  rest = codes "auth=Bearer " ++ (c.access_token ++ 1 ∷ 1 ∷ [])

  scan-start : scan none [] (start c) blank ≡ found
  unfolding start set_field scan rest found blank
  scan-start =
      scan-key (codes "user") (c.username ++ 1 ∷ rest) [] blank (refl, (refl, (refl, (refl, tt))))
      ∙ scan-value c.username rest [] (codes "user") blank lu
      ∙ scan-key (codes "auth") (codes "Bearer " ++ (c.access_token ++ 1 ∷ 1 ∷ [])) [] _
          (refl, (refl, (refl, (refl, tt))))
      ∙ scan-value (codes "Bearer " ++ c.access_token) (1 ∷ []) [] (codes "auth")
          (record { username = c.username; token = [] }) (Lacks-Bearer c.access_token lt)
      ∙ ap (λ t. let f : Found = record { username = c.username; token = t } in f)
          (strip_bearer-append c.access_token token)

  check_found-found : check_found {E = E} found ≡ ok found
  unfolding check_found found
  check_found-found = rw (equal-nil c.username user) (rw (equal-nil c.access_token token) refl)

  -- The server reads the name and the token that the client wrote, if they are not empty and have no
  -- byte 1, and takes them to the authenticator.
  pub next-start :
      (next auth false (start c)).0.error ≡ answer (auth name c.username c.access_token)
  unfolding next parse found blank
  next-start =
      ap (λ f. authenticate auth (check_found f)) scan-start
      ∙ ap (authenticate auth) check_found-found
