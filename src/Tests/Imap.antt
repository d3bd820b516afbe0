-- ===== src/Tests/Imap.antt =====
-- Number sets at concrete inputs.
use imap_go.Wire.Decimal.{parse_uint}
use imap_go.Prelude.Split.{split, index_byte, trim_space}
use imap_go.Imap.NumSet.Parse.{parse_range, parse_seq_num, InRange, parse_num_set}
use imap_go.Imap.NumSet.Values.{Stand, parse_num_set_sound}
use imap_go.Imap.NumSet.RoundTrip.{parse_num_set-format_num_set}
use imap_go.Imap.NumSet.{NumRange, format_num_set}
use imap_go.Prelude.Result.{ok}
use imap_go.Prelude.{equal, ℕ, List, [], ◌∷◌, ◌≡◌, ◌≢◌, refl, arith, codes, All}

abbrev range : ℕ → ℕ → NumRange
range a b = record { start = a; stop = b }

-- 1:3,7,10:*
abbrev three_ranges : List NumRange
three_ranges = range 1 3 ∷ range 7 7 ∷ range 10 0 ∷ []

parse_spaces : parse_num_set (codes "1:3, 7,10:*") ≡ ok three_ranges
unfolding parse_num_set split parse_range trim_space index_byte parse_seq_num equal parse_uint
parse_spaces = refl

format_three : format_num_set three_ranges ≡ codes "1:3,7,10:*"
unfolding format_num_set
format_three = refl

parse_num_set-format_num_set_example : parse_num_set (format_num_set three_ranges) ≡ ok three_ranges
parse_num_set-format_num_set_example = parse_num_set-format_num_set three_ranges (cc) (omega arith)

parse_num_set_sound_example :
    (codes "1:3, 7,10:*" ≢ [])
    × (three_ranges ≢ [])
    × All InRange three_ranges
    × Stand (split b',' (codes "1:3, 7,10:*")) three_ranges
parse_num_set_sound_example = parse_num_set_sound (codes "1:3, 7,10:*") three_ranges parse_spaces
