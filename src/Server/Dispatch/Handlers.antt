-- ===== src/Server/Dispatch/Handlers.antt =====
-- The table of handlers, through registration and wrapping.
use mathlib.Core.Option
use imap_go.Prelude.{
  ◌≡◌, refl, sym, ap, ◌∙◌, inl, inr, Bool-cases, Option, none, some, Bytes, equal, equal_iff,
  to_upper, if◌then◌else◌, lookup, lookup-store,
}
use imap_go.Server.Dispatch.{Dispatcher, register, get, wrap_at, wrap}

module _ {Handler : Type 0} where
  -- After `Register` the handler is found under each spelling of its name, and the others as before.
  pub get-register :
      (name q : Bytes) (h : Handler) (d : Dispatcher Handler)
      → get (register name h d) q ≡ (if equal (to_upper name) (to_upper q) then some h else get d q)
  unfolding get register
  get-register name q h d = lookup-store (to_upper name) (to_upper q) h d

  lookup-wrap_at :
      (o : Option Handler) (upper q : Bytes) (f : Handler → Handler) (d : Dispatcher Handler)
      → lookup upper d ≡ o
      → lookup q (wrap_at o upper f d)
        ≡ (if equal upper q then Option.map f (lookup q d) else lookup q d)
  unfolding wrap_at
  lookup-wrap_at none upper q f d e = elim (Bool-cases (equal upper q)) [
    | inl s ↦ rw s (found ((equal_iff upper q).0 s))
    | inr s ↦ rw s refl
  ]
    where
      found : upper ≡ q → lookup q d ≡ Option.map f (lookup q d)
      found s =
          let l : lookup q d ≡ none = ap (λ n. lookup n d) (sym s) ∙ e in
          l ∙ sym (ap (Option.map f) l)
  lookup-wrap_at (some h) upper q f d e =
      lookup-store upper q (f h) d ∙ elim (Bool-cases (equal upper q)) [
        | inl s ↦
            rw s
              (sym (ap (Option.map f) (ap (λ n. lookup n d) (sym ((equal_iff upper q).0 s)) ∙ e)))
        | inr s ↦ rw s refl
      ]

  -- `Wrap` wraps the handler of the name, if there is one, and changes no other.
  pub get-wrap :
      (name q : Bytes) (f : Handler → Handler) (d : Dispatcher Handler)
      → get (wrap name f d) q
        ≡ (if equal (to_upper name) (to_upper q) then Option.map f (get d q) else get d q)
  unfolding get wrap
  get-wrap name q f d =
      lookup-wrap_at (lookup (to_upper name) d) (to_upper name) (to_upper q) f d refl
