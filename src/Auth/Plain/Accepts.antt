-- ===== src/Auth/Plain/Accepts.antt =====
-- What the server accepts of PLAIN.
use imap_go.Auth.Plain.{Client, name, start, check, next}
use imap_go.Auth.{Authenticator, completed, answer}
use imap_go.Prelude.Split.{split_n, cut, pieces, IsCut, cut-IsCut, cut-append, Lacks}
use imap_go.Prelude.{true, false, [], ◌∷◌, ◌++◌, Option, none, some, ◌≡◌, refl, ap, ◌∙◌, ◌↔◌, Bytes}

module _ {E : Type 0} (auth : Authenticator E) where
  -- The response of a client whose credentials the authenticator accepts.
  abbrev pub IsAccepted : Bytes → Type 0
  IsAccepted r =
      (c : Client) × (r ≡ start c)
      × Lacks 0 c.authz_id
      × Lacks 0 c.username
      × (auth name c.username c.password ≡ none)

  answer-none : (o : Option E) → answer o ≡ none → o ≡ none
  answer-none none h = refl
  answer-none (some e) h = cc

  second :
      (r a b : Bytes) (o : Option (Bytes × Bytes))
      → r ≡ a ++ 0 ∷ b
      → Lacks 0 a
      → IsCut 0 b o
      → check auth (a ∷ pieces (split_n 0 0) b o) ≡ none
      → IsAccepted r
  unfolding check split_n start
  second r a b none e l i h = cc
  second r a b (some (u, p)) e l i h = (
    record { authz_id = a; username = u; password = p },
    e ∙ ap (λ x. a ++ 0 ∷ x) i.0,
    l,
    i.1,
    answer-none (auth name u p) h,
  )

  first :
      (r : Bytes) (o : Option (Bytes × Bytes))
      → IsCut 0 r o
      → check auth (pieces (split_n 1 0) r o) ≡ none
      → IsAccepted r
  unfolding check split_n
  first r none i h = cc
  first r (some (a, b)) i h = second r a b (cut 0 b) i.0 i.1 (cut-IsCut 0 b) h

  sound : (r : Bytes) → (next auth false r).0.error ≡ none → IsAccepted r
  unfolding next
  sound r h = first r (cut 0 r) (cut-IsCut 0 r) h

  split-start :
      (c : Client)
      → Lacks 0 c.authz_id
      → Lacks 0 c.username
      → split_n 2 0 (start c) ≡ c.authz_id ∷ c.username ∷ c.password ∷ []
  unfolding split_n start
  split-start c la lu =
      ap (pieces (split_n 1 0) (start c))
        (cut-append 0 c.authz_id (c.username ++ 0 ∷ c.password) la)
      ∙ ap (λ o. c.authz_id ∷ pieces (split_n 0 0) (c.username ++ 0 ∷ c.password) o)
          (cut-append 0 c.username c.password lu)

  -- The server accepts a response, as the first one, exactly if it consists of three texts with a NUL
  -- between them, of which the first two have none, and the authenticator accepts the second and the
  -- third. The first, the identity to act as, plays no part. Any later response is refused.
  pub next_iff :
      (r : Bytes)
      → (((next auth false r).0.error ≡ none) ↔ IsAccepted r)
        × ((next auth false r).1 ≡ true)
        × ((next auth true r).0.error ≡ some completed)
  unfolding next check
  next_iff r = (
    (
      sound r,
      λ a.
          ap (λ x. check auth (split_n 2 0 x)) a.1
          ∙ ap (check auth) (split-start a.0 a.2 a.3)
          ∙ ap answer a.4,
    ),
    refl,
    refl,
  )
