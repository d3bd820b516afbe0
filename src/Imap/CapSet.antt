-- ===== src/Imap/CapSet.antt =====
-- `CapSet` of capability.go: a map from capabilities to `true`.
use imap_go.Prelude.{
  Bool, true, false, ◌||◌, ◌&&◌, not, List, [], ◌∷◌, ◌++◌, Option, none, some, ◌≡◌, refl, ap, ◌∙◌,
  inl, inr, arith, Bool-cases, Bytes, codes, equal, to_upper, if◌then◌else◌, any, lookup, store,
  erase, lookup-store, lookup-erase,
}

abbrev pub Cap : Type 0
Cap = Bytes

abbrev pub CapSet : Type 0
CapSet = List (Cap × Bool)

unfoldable pub add : List Cap → CapSet → CapSet
unfolding store
add [] cs = cs
add (c ∷ caps) cs = add caps (store c true cs)

unfoldable pub new_cap_set : List Cap → CapSet
unfolding add
new_cap_set caps = add caps []

-- A missing key reads as `false`.
abbrev pub or_false : Option Bool → Bool
or_false none = false
or_false (some b) = b

unfoldable pub has : CapSet → Cap → Bool
unfolding lookup
has cs cap = or_false (lookup cap cs)

unfoldable pub remove : List Cap → CapSet → CapSet
unfolding erase
remove [] cs = cs
remove (c ∷ caps) cs = remove caps (erase c cs)

unfoldable pub clone_entries : CapSet → CapSet → CapSet
unfolding store
clone_entries [] copy = copy
clone_entries ((c, b) ∷ cs) copy = clone_entries cs (store c true copy)

unfoldable pub clone : CapSet → CapSet
unfolding clone_entries
clone cs = clone_entries cs []

unfoldable pub has_auth : CapSet → Bytes → Bool
unfolding has to_upper
has_auth cs mechanism = has cs (codes "AUTH=" ++ to_upper mechanism)

has-if :
    (b : Bool) (o o' : Option Bool)
    → or_false (if b then o else o') ≡ (if b then or_false o else or_false o')
has-if true o o' = refl
has-if false o o' = refl

has-store : (c q : Cap) (cs : CapSet) → has (store c true cs) q ≡ (equal c q || has cs q)
unfolding has
has-store c q cs =
    ap or_false (lookup-store c q true cs)
    ∙ has-if (equal c q) _ _
    ∙ elim (Bool-cases (equal c q)) [ inl e ↦ rw e refl | inr e ↦ rw e refl ]

has-erase : (c q : Cap) (cs : CapSet) → has (erase c cs) q ≡ (not (equal c q) && has cs q)
unfolding has
has-erase c q cs =
    ap or_false (lookup-erase c q cs)
    ∙ has-if (equal c q) _ _
    ∙ elim (Bool-cases (equal c q)) [ inl e ↦ rw e refl | inr e ↦ rw e refl ]

pub has-add :
    (caps : List Cap) (q : Cap) (cs : CapSet)
    → has (add caps cs) q ≡ (any (λ c. equal c q) caps || has cs q)
unfolding add
has-add [] q cs = refl
has-add (c ∷ caps) q cs =
    has-add caps q (store c true cs)
    ∙ ap (λ b. any (λ c'. equal c' q) caps || b) (has-store c q cs)
    ∙ swap (any (λ c'. equal c' q) caps) (equal c q) (has cs q)
  where
    swap : (x y z : Bool) → (x || (y || z)) ≡ ((y || x) || z)
    swap x y z = ground arith

pub has-remove :
    (caps : List Cap) (q : Cap) (cs : CapSet)
    → has (remove caps cs) q ≡ (not (any (λ c. equal c q) caps) && has cs q)
unfolding remove
has-remove [] q cs = refl
has-remove (c ∷ caps) q cs =
    has-remove caps q (erase c cs)
    ∙ ap (λ b. not (any (λ c'. equal c' q) caps) && b) (has-erase c q cs)
    ∙ swap (any (λ c'. equal c' q) caps) (equal c q) (has cs q)
  where
    swap : (x y z : Bool) → (not x && (not y && z)) ≡ (not (y || x) && z)
    swap x y z = ground arith
