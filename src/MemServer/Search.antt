-- ===== src/MemServer/Search.antt =====
-- `SearchMessages` and `matchesCriteria` of server/memserver/mailbox.go, with `TextBytes` of message.go.
use imap_go.Imap.NumSet.{NumSet, contains}
use imap_go.Imap.Search.{
  Fields, SearchCriteria, criteria, Nots, no_nots, add_not, Ors, no_ors, add_or,
}
use imap_go.MemServer.Mailbox.{Mailbox, NumKind, num_of, u32}
use imap_go.MemServer.Message.{Flag, Message, has_flag}
use imap_go.Prelude.{
  ℕ, suc, ◌+◌, ◌-◌, ℤ, pos, negsuc, Bool, true, false, not, ◌&&◌, ◌||◌, List, [], ◌∷◌, Option, none,
  some, Bytes, equal, to_lower, contains_text, has_prefix, length, drop, all, ltb, leb,
  if◌then◌else◌,
}
pub mod Meets

-- What stands behind the first occurrence of a text.
unfoldable pub after_text : Bytes → Bytes → Option Bytes
unfolding has_prefix
after_text pattern [] = if has_prefix pattern [] then some [] else none
after_text pattern (c ∷ s) =
    let rest = after_text pattern s in
    if has_prefix pattern (c ∷ s) then some (drop (length pattern) (c ∷ s)) else rest

abbrev text_or : Option Bytes → Option Bytes → Bytes
text_or (some t) o = t
text_or none (some t) = t
text_or none none = []

unfoldable pub text_bytes : Bytes → Bytes
unfolding after_text
text_bytes body =
    text_or (after_text (13 ∷ 10 ∷ 13 ∷ 10 ∷ []) body) (after_text (10 ∷ 10 ∷ []) body)

-- What the search takes from the packages `time` and `net/textproto`: the zero time, the order, whether
-- two times fall on one day (`Truncate` and `Equal`), the header's values by key if there is a header,
-- and the date of `ParseEnvelope`.
pub record Backend (Time : Type 0) : Type 0 where
  pub is_zero : Time → Bool
  pub is_before : Time → Time → Bool
  pub same_day : Time → Time → Bool
  pub header_of : Bytes → Option (Bytes → Bytes)
  pub sent_date : Bytes → Time

abbrev pub in_set : Option NumSet → ℕ → Bool
in_set none num = true
in_set (some ss) num = contains ss num

-- `larger > 0 && size <= larger`, and the same for `smaller`.
abbrev pub too_small : ℤ → ℕ → Bool
too_small (pos n) size = ltb 0 n && leb size n
too_small (negsuc n) size = false

abbrev pub too_large : ℤ → ℕ → Bool
too_large (pos n) size = ltb 0 n && leb n size
too_large (negsuc n) size = false

-- `hdr.Value == ""` asks for a header that is there.
abbrev pub value_fits : Bytes → Bytes → Bool
value_fits [] val = not (equal val [])
value_fits (c ∷ value) val = contains_text (to_lower val) (to_lower (c ∷ value))

abbrev pub header_fits : Option (Bytes → Bytes) → Bytes × Bytes → Bool
header_fits none hdr = false
header_fits (some get) hdr = value_fits hdr.1 (get hdr.0)

module _ {Time : Type 0} (b : Backend Time) where
  -- The checks on one date: not before `since`, before `until`, on the day of `on`.
  abbrev pub dates_fit : Time → Time → Time → Time → Bool
  dates_fit since until on date =
      (b.is_zero since || not (b.is_before date since))
      && (b.is_zero until || b.is_before date until)
      && (b.is_zero on || b.same_day date on)

  unfoldable pub fields_match : Message Time → ℕ → Fields Time → Bool
  unfolding contains has_flag text_bytes to_lower contains_text equal
  fields_match msg seq_num c =
      in_set c.seq_num seq_num
      && in_set c.uid msg.uid
      && all (λ f. has_flag msg f) c.flag
      && all (λ f. not (has_flag msg f)) c.not_flag
      && dates_fit c.since c.before c.on msg.internal_date
      && dates_fit c.sent_since c.sent_before c.sent_on (b.sent_date msg.body)
      && not (too_small c.larger msg.size)
      && not (too_large c.smaller msg.size)
      && all (header_fits (b.header_of msg.body)) c.header
      && all (λ t. contains_text (to_lower (text_bytes msg.body)) (to_lower t)) c.body
      && all (λ t. contains_text (to_lower msg.body) (to_lower t)) c.text

  unfoldable mutual
    unfolding fields_match

    pub matches_criteria : Message Time → ℕ → SearchCriteria Time → Bool
    matches_criteria msg seq_num (criteria f ns os) =
        fields_match msg seq_num f && none_match msg seq_num ns && each_matches msg seq_num os

    pub none_match : Message Time → ℕ → Nots Time → Bool
    none_match msg seq_num no_nots = true
    none_match msg seq_num (add_not c ns) =
        not (matches_criteria msg seq_num c) && none_match msg seq_num ns

    pub each_matches : Message Time → ℕ → Ors Time → Bool
    each_matches msg seq_num no_ors = true
    each_matches msg seq_num (add_or c d os) =
        (matches_criteria msg seq_num c || matches_criteria msg seq_num d)
        && each_matches msg seq_num os

  -- The loop of `SearchMessages`, from the index `i` on.
  unfoldable pub search_loop : NumKind → SearchCriteria Time → ℕ → List (Message Time) → List ℕ
  unfolding matches_criteria
  search_loop kind c i [] = []
  search_loop kind c i (msg ∷ msgs) =
      let rest = search_loop kind c (i + 1) msgs in
      if matches_criteria msg (u32 (i + 1)) c
      then num_of kind (u32 (i + 1)) msg.uid ∷ rest
      else rest

  unfoldable pub search_messages : NumKind → SearchCriteria Time → Mailbox Time → List ℕ
  unfolding search_loop
  search_messages kind c mbox = search_loop kind c 0 mbox.messages
