-- ===== src/Server/Commands/Search/Forward.antt =====
-- What each key of a search reads: every reader of an argument leaves a suffix of the text.
use imap_go.Imap.NumSet.Parse.{SetError, parse_set}
use imap_go.Imap.NumSet.{NumSet}
use imap_go.Imap.Search.{SearchCriteria}
use imap_go.Prelude.Result.{Result}
use imap_go.Prelude.{[], ◌∷◌, Bytes, Option, none, some, ◌==◌}
use imap_go.Server.Commands.Search.{
  KeyAction, all_key, new_key, keyword, unkeyword, larger_key, smaller_key, body_key, text_key,
  any_header, uid_key, mod_seq_key, not_key, saved_before_key, saved_since_key, saved_on_key,
  flag_key, not_flag_key, header_key, with_arg, lift_set, read_header, read_uid_set, read_entry,
  read_mod_seq, lift_date, read_date, act, act_on,
}
use imap_go.Wire.Decoder.{read_sp, read_astring}
use imap_go.Wire.Reader.{Out, ok, err, Reader, continue, peek_byte}
use imap_go.Wire.Reads.{
  read_atom-Leaves, read_string-Leaves, read_quoted_string-Leaves, read_number-Leaves,
  expect_byte-Leaves,
}
use imap_go.Wire.Suffix.{Suffix, Suffix-refl, Leaves, Leaves-trans, Leaves-continue, Leaves-choice}

pub read_sp-Leaves : (t : Bytes) → Leaves t (read_sp t)
unfolding read_sp
read_sp-Leaves t = expect_byte-Leaves b' ' t

read_astring-Leaves : (t : Bytes) → Leaves t (read_astring t)
unfolding read_astring
read_astring-Leaves t = read_string-Leaves t

with_arg-Leaves :
    {A B : Type 0} (m : Reader A) (f : A → B) (t : Bytes)
    → ((s : Bytes) → Suffix s t → Leaves s (m s))
    → Leaves t (with_arg m f t)
unfolding with_arg
with_arg-Leaves m f t h = at_space (read_sp t) (read_sp-Leaves t)
  where
    at_space :
        (r : Out (Unit {0}))
        → Leaves t r
        → Leaves t (continue r (λ x s. continue (m s) (λ a u. ok (f a) u)))
    at_space (ok x s) k = Leaves-trans s t _ k (Leaves-continue s _ _ (h s k) λ a u. Suffix-refl u)
    at_space (err e s) k = k

lift_set-Leaves : (r : Result SetError NumSet) (t : Bytes) → Leaves t (lift_set r t)
unfolding lift_set
lift_set-Leaves (Result.ok ss) t = Suffix-refl t
lift_set-Leaves (Result.err e) t = (Suffix-refl t, tt)

read_header-Leaves : (t : Bytes) → Leaves t (read_header t)
unfolding read_header
read_header-Leaves t = Leaves-continue t _ _ (read_astring-Leaves t) λ key s.
    Leaves-continue s _ _ (read_sp-Leaves s)
      λ x u. Leaves-continue u _ _ (read_astring-Leaves u) λ value v. Suffix-refl v

read_uid_set-Leaves : (t : Bytes) → Leaves t (read_uid_set t)
unfolding read_uid_set
read_uid_set-Leaves t =
    Leaves-continue t _ _ (read_atom-Leaves t) λ a s. lift_set-Leaves (parse_set a) s

read_entry-Leaves : (t : Bytes) → Leaves t (read_entry t)
unfolding read_entry
read_entry-Leaves t = Leaves-continue t _ _ (read_quoted_string-Leaves t) λ entry s.
    Leaves-continue s _ _ (read_sp-Leaves s) λ x u.
      Leaves-continue u _ _ (read_atom-Leaves u)
        λ kind v. Leaves-continue v _ _ (read_sp-Leaves v) λ y w. Suffix-refl w

read_mod_seq-Leaves : (t : Bytes) → Leaves t (read_mod_seq t)
unfolding read_mod_seq peek_byte
read_mod_seq-Leaves [] = (Suffix-refl [], tt)
read_mod_seq-Leaves (b ∷ t) =
    Leaves-continue (b ∷ t) _ _
      (Leaves-choice (b ∷ t) (b == b'"') _ _ (read_entry-Leaves (b ∷ t)) (Suffix-refl (b ∷ t)))
      λ entry s. Leaves-continue s _ _ (read_number-Leaves s).1 λ n u. Suffix-refl u

module _ {Time : Type 0} (zero_time : Time) (parse_date : Bytes → Option Time) where
  lift_date-Leaves : (d : Option Time) (t : Bytes) → Leaves t (lift_date zero_time parse_date d t)
  lift_date-Leaves none t = (Suffix-refl t, tt)
  lift_date-Leaves (some d) t = Suffix-refl t

  read_date-Leaves : (t : Bytes) → Leaves t (read_date zero_time parse_date t)
  unfolding read_date
  read_date-Leaves t =
      Leaves-continue t _ _ (read_astring-Leaves t) λ s u. lift_date-Leaves (parse_date s) u

  act-Leaves :
      (sub : Reader (SearchCriteria Time)) (k : KeyAction) (c : SearchCriteria Time) (t : Bytes)
      → ((s : Bytes) → Suffix s t → Leaves s (sub s))
      → Leaves t (act zero_time parse_date sub k c t)
  unfolding act
  act-Leaves sub all_key c t h = Suffix-refl t
  act-Leaves sub (flag_key flag) c t h = Suffix-refl t
  act-Leaves sub (not_flag_key flag) c t h = Suffix-refl t
  act-Leaves sub new_key c t h = Suffix-refl t
  act-Leaves sub keyword c t h = with_arg-Leaves _ _ t λ s i. read_atom-Leaves s
  act-Leaves sub unkeyword c t h = with_arg-Leaves _ _ t λ s i. read_atom-Leaves s
  act-Leaves sub larger_key c t h = with_arg-Leaves _ _ t λ s i. (read_number-Leaves s).1
  act-Leaves sub smaller_key c t h = with_arg-Leaves _ _ t λ s i. (read_number-Leaves s).1
  act-Leaves sub body_key c t h = with_arg-Leaves _ _ t λ s i. read_astring-Leaves s
  act-Leaves sub text_key c t h = with_arg-Leaves _ _ t λ s i. read_astring-Leaves s
  act-Leaves sub (header_key key) c t h = with_arg-Leaves _ _ t λ s i. read_astring-Leaves s
  act-Leaves sub any_header c t h = with_arg-Leaves _ _ t λ s i. read_header-Leaves s
  act-Leaves sub uid_key c t h = with_arg-Leaves _ _ t λ s i. read_uid_set-Leaves s
  act-Leaves sub mod_seq_key c t h = with_arg-Leaves _ _ t λ s i. read_mod_seq-Leaves s
  act-Leaves sub saved_before_key c t h = with_arg-Leaves _ _ t λ s i. read_date-Leaves s
  act-Leaves sub saved_since_key c t h = with_arg-Leaves _ _ t λ s i. read_date-Leaves s
  act-Leaves sub saved_on_key c t h = with_arg-Leaves _ _ t λ s i. read_date-Leaves s
  act-Leaves sub not_key c t h = with_arg-Leaves _ _ t h

  pub act_on-Leaves :
      (sub : Reader (SearchCriteria Time)) (k : Option KeyAction) (key : Bytes)
      (c : SearchCriteria Time) (t : Bytes)
      → ((s : Bytes) → Suffix s t → Leaves s (sub s))
      → Leaves t (act_on zero_time parse_date sub k key c t)
  unfolding act_on
  act_on-Leaves sub (some k) key c t h = act-Leaves sub k c t h
  act_on-Leaves sub none key c t h = Suffix-refl t
