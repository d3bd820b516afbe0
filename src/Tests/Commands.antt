-- ===== src/Tests/Commands.antt =====
-- Arguments of commands at concrete inputs.
use imap_go.Imap.Fetch.{no_section, no_options}
use imap_go.Imap.NumSet.{NumRange, format_num_set}
use imap_go.MemServer.Mailbox.{num_kind_uid}
use imap_go.Prelude.{true, [], ◌∷◌, ◌++◌, ◌≡◌, refl, arith, Bytes, codes, to_upper}
use imap_go.Server.Commands.Fetch.{add_body, parse_fetch_items}
use imap_go.Server.Commands.Fetch.Hangs.{RanOut, fetch_never_ends}
use imap_go.Server.Commands.Sets.Stores.{IsActionWord, parse_store-flags, star_refused}
use imap_go.Server.Commands.Sets.{store_flags_add, parse_store, parse_copy, parse_fetch}
use imap_go.Wire.Atom.{needs_quoting-IsAtom}
use imap_go.Wire.Chars.{is_atom_char, needs_quoting}
use imap_go.Wire.Decimal.{format_uint}
use imap_go.Wire.Encoder.{flags}
use imap_go.Wire.Flags.{IsKeyword}
use imap_go.Wire.Reader.{bad_set, ok, err}

fetch_never_ends_example :
    RanOut (parse_fetch_items 1000 (codes "(BODY[]" ++ b'<' ∷ codes "0.10>" ++ b')' ∷ []))
    × (parse_fetch_items 1002 (codes "BODY[]" ++ b'<' ∷ codes "0.10>" ++ [])
        ≡ ok (add_body no_section no_options) [])
unfolding is_atom_char
fetch_never_ends_example =
    fetch_never_ends 1000 (codes "0.10>") b')' [] (refl, (refl, (refl, (refl, (refl, tt))))) refl

abbrev two_to_four : NumRange
two_to_four = record { start = 2; stop = 4 }

abbrev add_word : Bytes
add_word = codes "+flags.Silent"

add_word-IsActionWord : IsActionWord add_word store_flags_add true
unfolding needs_quoting is_atom_char to_upper
add_word-IsActionWord =
    let (ne, atom) = needs_quoting-IsAtom add_word refl in
    (ne, atom, (codes ".SILENT", refl), ((λ e. (codes "+FLAGS", refl)), λ e. refl))

seen-IsKeyword : IsKeyword (codes "$Seen")
unfolding needs_quoting is_atom_char
seen-IsKeyword =
    let (ne, atom) = needs_quoting-IsAtom (codes "$Seen") refl in
    record { ne_nil = ne; is_atom = atom }

parse_store-flags_example :
    parse_store (
      format_num_set (two_to_four ∷ [])
      ++ (b' ' ∷ (add_word ++ (b' ' ∷ (flags (codes "$Seen" ∷ []) [] ++ codes "x")))))
    ≡ ok
        (
          record { ranges = two_to_four ∷ [] },
          record { action = store_flags_add; silent = true; flags = codes "$Seen" ∷ [] },
        )
        (codes "x")
parse_store-flags_example =
    parse_store-flags (two_to_four ∷ []) add_word store_flags_add true (codes "$Seen" ∷ [])
      (codes "x") (λ e. cc)
      (record { start_pos = omega arith; start_le = omega arith; stop_le = omega arith }, tt)
      ((λ e. omega arith), tt) add_word-IsActionWord (seen-IsKeyword, tt)

star_refused_example :
    let t = (format_uint 1 ++ b':' ∷ []) ++ b'*' ∷ codes " FLAGS" in
    (parse_store t ≡ err bad_set (b'*' ∷ codes " FLAGS"))
    × (parse_copy t ≡ err bad_set (b'*' ∷ codes " FLAGS"))
    × (parse_fetch 9 num_kind_uid t ≡ err bad_set (b'*' ∷ codes " FLAGS"))
star_refused_example = star_refused 1 (codes " FLAGS") 9 num_kind_uid (omega arith) (omega arith)
