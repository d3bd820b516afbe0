-- ===== src/Extension/Registry.antt =====
-- extension/registry.go: the extensions of a server by name, and their order by dependencies. A map
-- is a list of entries; the order in which a `range` visits them is given from outside.
use imap_go.Prelude.Result.{Result, ok, err}
use imap_go.Prelude.{
  ℕ, zero, suc, ◌+◌, ℤ, pos, negsuc, Bool, true, false, not, List, [], ◌∷◌, ◌++◌, Option, none,
  some, Bytes, equal, length, lookup, store, erase, ◌==◌, if◌then◌else◌,
}
pub mod Members
pub mod Relax
pub mod Woken
pub mod Ready
pub mod Sorted
pub mod Starts
pub mod Missing
pub mod Outcomes
pub mod Kept

-- What the registry asks of an `Extension`: `Name` and `Dependencies`.
pub record Extension : Type 0 where
  pub name : Bytes
  pub dependencies : List Bytes

pub record Registry : Type 0 where
  pub extensions : List (Bytes × Extension)
  pub order : List Bytes

pub data RegistryError : Type 0 where
  already_registered : Bytes → RegistryError
  not_registered : Bytes → Bytes → RegistryError
  circular_dependency : RegistryError
  -- No error of the source: a loop of the model ran out of fuel.
  out_of_fuel : RegistryError

unfoldable pub new_registry : Registry
new_registry = record { extensions = []; order = [] }

abbrev register_at : Option Extension → Extension → Registry → Result RegistryError Registry
register_at (some old) ext r = err (already_registered ext.name)
register_at none ext r =
    ok (record { extensions = store ext.name ext r.extensions; order = r.order ++ ext.name ∷ [] })

unfoldable pub register : Extension → Registry → Result RegistryError Registry
unfolding lookup store
register ext r = register_at (lookup ext.name r.extensions) ext r

unfoldable pub get : Registry → Bytes → Option Extension
unfolding lookup
get r name = lookup name r.extensions

-- The loop of `Remove`: the first occurrence is taken out.
unfoldable pub drop_name : Bytes → List Bytes → List Bytes
drop_name name [] = []
drop_name name (n ∷ order) = if equal n name then order else n ∷ drop_name name order

unfoldable pub remove : Bytes → Registry → Registry
unfolding erase drop_name
remove name r = record { extensions = erase name r.extensions; order = drop_name name r.order }

-- `r.extensions[name].Dependencies()`; an extension that is missing has none to give.
abbrev pub dependencies_of : Option Extension → List Bytes
dependencies_of none = []
dependencies_of (some ext) = ext.dependencies

-- The first loop of `Resolve`: the dependency that is not registered, and who has it.
abbrev unless_there : Option Extension → Bytes → Option Bytes → Option Bytes
unless_there none dep rest = some dep
unless_there (some ext) dep rest = rest

unfoldable pub missing_of : List (Bytes × Extension) → List Bytes → Option Bytes
unfolding lookup
missing_of es [] = none
missing_of es (dep ∷ deps) = unless_there (lookup dep es) dep (missing_of es deps)

abbrev or_missing : Bytes → Option Bytes → Option RegistryError → Option RegistryError
or_missing name none rest = rest
or_missing name (some dep) rest = some (not_registered name dep)

unfoldable pub missing : List (Bytes × Extension) → List (Bytes × Extension) → Option RegistryError
unfolding missing_of
missing es [] = none
missing es ((key, ext) ∷ visited) =
    or_missing ext.name (missing_of es ext.dependencies) (missing es visited)

-- `inDegree`, a map to `int` in which a missing key has 0.
abbrev pub Degrees : Type 0
Degrees = Bytes → ℤ

abbrev pub set_degree : Bytes → ℤ → Degrees → Degrees
set_degree key n degree q = if equal key q then n else degree q

abbrev pub increment : ℤ → ℤ
increment (pos n) = pos (suc n)
increment (negsuc zero) = pos 0
increment (negsuc (suc n)) = negsuc n

abbrev pub decrement : ℤ → ℤ
decrement (pos zero) = negsuc 0
decrement (pos (suc n)) = pos n
decrement (negsuc n) = negsuc (suc n)

abbrev pub is_zero : ℤ → Bool
is_zero (pos n) = n == 0
is_zero (negsuc n) = false

-- The three loops that fill it.
unfoldable pub clear_degrees : List (Bytes × Extension) → Degrees → Degrees
clear_degrees [] degree = degree
clear_degrees ((key, ext) ∷ visited) degree = clear_degrees visited (set_degree key (pos 0) degree)

unfoldable pub raise : Bytes → List Bytes → Degrees → Degrees
raise name [] degree = degree
raise name (dep ∷ deps) degree = raise name deps (set_degree name (increment (degree name)) degree)

unfoldable pub raise_degrees : List (Bytes × Extension) → Degrees → Degrees
unfolding raise
raise_degrees [] degree = degree
raise_degrees ((key, ext) ∷ visited) degree =
    raise_degrees visited (raise ext.name ext.dependencies degree)

unfoldable pub fill_degrees :
    List (Bytes × Extension) → List (Bytes × Extension) → Degrees → Degrees
unfolding lookup
fill_degrees es [] degree = degree
fill_degrees es ((key, ext) ∷ visited) degree =
    fill_degrees es visited (set_degree key (pos (length (dependencies_of (lookup key es)))) degree)

-- The keys of `inDegree` are those of the map, each extension standing under its own name.
unfoldable pub first_queue : Degrees → List (Bytes × Extension) → List Bytes
first_queue degree [] = []
first_queue degree ((key, ext) ∷ visited) =
    let rest = first_queue degree visited in if is_zero (degree key) then key ∷ rest else rest

-- The variables of the sort. `sorted` holds the names; `Resolve` looks them up as it goes.
pub record Sort : Type 0 where
  pub degree : Degrees
  pub queue : List Bytes
  pub sorted : List Bytes

abbrev pub lower : Bytes → Sort → Sort
lower other s =
    let n = decrement (s.degree other) in
    record s {
      degree = set_degree other n s.degree;
      queue = s.queue ++ (if is_zero n then other ∷ [] else []);
    }

unfoldable pub relax : Bytes → Bytes → List Bytes → Sort → Sort
relax name other [] s = s
relax name other (dep ∷ deps) s =
    relax name other deps (if equal dep name then lower other s else s)

unfoldable pub relax_all : Bytes → List (Bytes × Extension) → Sort → Sort
unfolding relax
relax_all name [] s = s
relax_all name ((other, ext) ∷ visited) s =
    relax_all name visited (relax name other ext.dependencies s)

unfoldable pub look_up : List (Bytes × Extension) → List Bytes → List (Option Extension)
unfolding lookup
look_up es [] = []
look_up es (name ∷ names) = lookup name es ∷ look_up es names

-- The comparison of the lengths at the end.
unfoldable pub finish :
    List (Bytes × Extension) → Option (List Bytes) → Result RegistryError (List (Option Extension))
unfolding look_up
finish es none = err out_of_fuel
finish es (some sorted) =
    if length sorted == length es then ok (look_up es sorted) else err circular_dependency

-- `ranges n` is what the n-th `range` over the map visits.
module _ (ranges : ℕ → List (Bytes × Extension)) where
  unfoldable pub sort_loop : ℕ → ℕ → Degrees → List Bytes → List Bytes → Option (List Bytes)
  unfolding relax_all
  sort_loop fuel n degree [] sorted = some sorted
  sort_loop zero n degree (name ∷ queue) sorted = none
  sort_loop (suc fuel) n degree (name ∷ queue) sorted =
      let s =
        relax_all name (ranges n)
          (record { degree = degree; queue = queue; sorted = sorted ++ name ∷ [] }) in
      sort_loop fuel (n + 1) s.degree s.queue s.sorted

  unfoldable pub first_degrees : List (Bytes × Extension) → Degrees
  unfolding fill_degrees raise_degrees clear_degrees
  first_degrees es =
      fill_degrees es (ranges 3) (raise_degrees (ranges 2) (clear_degrees (ranges 1) λ q. pos 0))

  unfoldable pub sort : List (Bytes × Extension) → Option (List Bytes)
  unfolding sort_loop first_queue first_degrees
  sort es =
      let degree = first_degrees es in
      sort_loop (length es) 5 degree (first_queue degree (ranges 4)) []

  unfoldable pub resolve_at :
      List (Bytes × Extension)
      → Option RegistryError
      → Result RegistryError (List (Option Extension))
  unfolding sort finish
  resolve_at es (some e) = err e
  resolve_at es none = finish es (sort es)

  -- Each turn of the loop sorts one extension, so their number is fuel enough.
  unfoldable pub resolve : Registry → Result RegistryError (List (Option Extension))
  unfolding resolve_at missing
  resolve r = resolve_at r.extensions (missing r.extensions (ranges 0))
