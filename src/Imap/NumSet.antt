-- ===== src/Imap/NumSet.antt =====
-- Number sets of numset.go: `NumRange`, and what `SeqSet` and `UIDSet` share. The two types have the
-- same field and the same methods, and are one record here.
pub mod Parse
pub mod Values
pub mod RoundTrip
pub mod Atoms
pub mod Members
use imap_go.Prelude.{
  ℕ, Bool, true, false, not, ◌&&◌, ◌||◌, List, [], ◌∷◌, ◌++◌, Option, none, some, ltb, leb, ◌==◌,
  if◌then◌else◌, Bytes,
}
use imap_go.Wire.Decimal.{format_uint}

-- 0 stands for `*`.
pub record NumRange : Type 0 where
  pub start : ℕ
  pub stop : ℕ

unfoldable pub range_contains : NumRange → ℕ → Bool
range_contains r num =
    if r.stop == 0
    then leb r.start num
    else if ltb r.stop r.start
    then leb r.stop num && leb num r.start
    else leb r.start num && leb num r.stop

-- `NumRange.String`.
unfoldable pub format_range : NumRange → Bytes
unfolding format_uint
format_range r =
    if r.start == r.stop
    then format_uint r.start
    else format_uint r.start ++ (b':' ∷ (if r.stop == 0 then b'*' ∷ [] else format_uint r.stop))

pub record NumSet : Type 0 where
  pub ranges : List NumRange

unfoldable pub some_dynamic : List NumRange → Bool
some_dynamic [] = false
some_dynamic (r ∷ rs) = if r.start == 0 || r.stop == 0 then true else some_dynamic rs

unfoldable pub dynamic : NumSet → Bool
unfolding some_dynamic
dynamic ss = some_dynamic ss.ranges

unfoldable pub some_contains : List NumRange → ℕ → Bool
some_contains [] num = false
some_contains (r ∷ rs) num = if range_contains r num then true else some_contains rs num

unfoldable pub contains : NumSet → ℕ → Bool
unfolding some_contains
contains ss num = some_contains ss.ranges num

unfoldable pub add_num : List ℕ → NumSet → NumSet
add_num [] ss = ss
add_num (n ∷ nums) ss =
    add_num nums (record ss { ranges = ss.ranges ++ record { start = n; stop = n } ∷ [] })

unfoldable pub add_range : ℕ → ℕ → NumSet → NumSet
add_range start stop ss = record ss {
  ranges = ss.ranges ++ record { start = start; stop = stop } ∷ [];
}

unfoldable pub no_ranges : List NumRange → Bool
no_ranges [] = true
no_ranges (r ∷ rs) = false

unfoldable pub is_empty : NumSet → Bool
unfolding no_ranges
is_empty ss = no_ranges ss.ranges

-- `strings.Join` of the printed ranges.
unfoldable pub join_ranges : List NumRange → Bytes
unfolding format_range
join_ranges [] = []
join_ranges (r ∷ rs) = b',' ∷ (format_range r ++ join_ranges rs)

unfoldable pub format_num_set : List NumRange → Bytes
unfolding join_ranges
format_num_set [] = []
format_num_set (r ∷ rs) = format_range r ++ join_ranges rs

-- `SeqSet.String` and `UIDSet.String`.
unfoldable pub to_string : NumSet → Bytes
unfolding format_num_set
to_string ss = format_num_set ss.ranges
