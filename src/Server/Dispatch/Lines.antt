-- ===== src/Server/Dispatch/Lines.antt =====
-- A command line that is put together from its parts is split into them again.
use imap_go.Prelude.{ℕ, suc, ◌≡◌, refl, ap, ◌∙◌, [], ◌∷◌, ◌++◌, Bytes, length, drop, take-append}
use imap_go.Prelude.Result.{ok}
use imap_go.Prelude.Split.{index_byte, Lacks, index_byte-append, index_byte-none}
use imap_go.Server.Dispatch.{cut_name, check_parts, cut_tag, parse_line}

drop_past : (s : Bytes) (c : ℕ) (rest : Bytes) → drop (suc (length s)) (s ++ c ∷ rest) ≡ rest
drop_past [] c rest = refl
drop_past (x ∷ s) c rest = drop_past s c rest

cut_name-append :
    (name rest : Bytes)
    → Lacks b' ' name
    → cut_name (index_byte b' ' (name ++ b' ' ∷ rest)) (name ++ b' ' ∷ rest) ≡ (name, rest)
unfolding cut_name
cut_name-append name rest h =
    rw (index_byte-append b' ' name rest h) (rw (take-append name, drop_past name b' ' rest) refl)

cut_name-none : (name : Bytes) → Lacks b' ' name → cut_name (index_byte b' ' name) name ≡ (name, [])
unfolding cut_name
cut_name-none name h = rw (index_byte-none b' ' name h) refl

cut_tag-append :
    (tag remaining : Bytes)
    → Lacks b' ' tag
    → cut_tag (index_byte b' ' (tag ++ b' ' ∷ remaining)) (tag ++ b' ' ∷ remaining)
      ≡ check_parts tag (cut_name (index_byte b' ' remaining) remaining)
unfolding cut_tag
cut_tag-append tag remaining h =
    rw (index_byte-append b' ' tag remaining h)
      (rw (take-append tag, drop_past tag b' ' remaining) refl)

parse_line-cut :
    (t : ℕ) (tag remaining : Bytes)
    → Lacks b' ' (t ∷ tag)
    → parse_line (t ∷ (tag ++ b' ' ∷ remaining))
      ≡ check_parts (t ∷ tag) (cut_name (index_byte b' ' remaining) remaining)
unfolding parse_line
parse_line-cut t tag remaining h = cut_tag-append (t ∷ tag) remaining h

-- A line of a tag and a name that are not empty and have no space, with a space between them, and a
-- space and any rest behind them or nothing, is split into the three parts.
pub parse_line-append :
    (t n : ℕ) (tag name rest : Bytes)
    → Lacks b' ' (t ∷ tag)
    → Lacks b' ' (n ∷ name)
    → (parse_line (t ∷ (tag ++ b' ' ∷ n ∷ (name ++ b' ' ∷ rest)))
        ≡ ok (record { tag = t ∷ tag; name = n ∷ name; rest = rest }))
      × (parse_line (t ∷ (tag ++ b' ' ∷ n ∷ name))
          ≡ ok (record { tag = t ∷ tag; name = n ∷ name; rest = [] }))
unfolding check_parts
parse_line-append t n tag name rest ht hn = (
  parse_line-cut t tag (n ∷ (name ++ b' ' ∷ rest)) ht
      ∙ ap (check_parts (t ∷ tag)) (cut_name-append (n ∷ name) rest hn),
  parse_line-cut t tag (n ∷ name) ht ∙ ap (check_parts (t ∷ tag)) (cut_name-none (n ∷ name) hn),
)
