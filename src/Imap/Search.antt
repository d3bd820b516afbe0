-- ===== src/Imap/Search.antt =====
-- search.go: the criteria of SEARCH. A criterion holds lists of criteria, so the lists are declared
-- with it. `time.Time` is the parameter `Time`.
use imap_go.Imap.NumSet.{NumSet}
use imap_go.MemServer.Message.{Flag}
use imap_go.Prelude.{ℕ, ℤ, pos, Bool, false, List, [], Option, none, Bytes}

pub record SearchCriteriaModSeq : Type 0 where
  pub mod_seq : ℕ
  pub metadata_name : Bytes
  pub metadata_type : Bytes

-- The fields of `SearchCriteria` but `Or` and `Not`.
pub record Fields (Time : Type 0) : Type 0 where
  pub seq_num : Option NumSet
  pub uid : Option NumSet
  pub since : Time
  pub before : Time
  pub sent_since : Time
  pub sent_before : Time
  pub sent_on : Time
  pub on : Time
  pub saved_before : Time
  pub saved_since : Time
  pub saved_on : Time
  pub header : List (Bytes × Bytes)
  pub body : List Bytes
  pub text : List Bytes
  pub larger : ℤ
  pub smaller : ℤ
  pub flag : List Flag
  pub not_flag : List Flag
  pub mod_seq : Option SearchCriteriaModSeq
  pub younger : ℤ
  pub older : ℤ
  pub save_result : Bool
  pub fuzzy : Bool

mutual
  -- The fields, `Not` and `Or`.
  pub data SearchCriteria (Time : Type 0) : Type 0 where
    criteria : Fields Time → Nots Time → Ors Time → SearchCriteria Time

  pub data Nots (Time : Type 0) : Type 0 where
    no_nots : Nots Time
    add_not : SearchCriteria Time → Nots Time → Nots Time

  pub data Ors (Time : Type 0) : Type 0 where
    no_ors : Ors Time
    add_or : SearchCriteria Time → SearchCriteria Time → Ors Time → Ors Time

module _ {Time : Type 0} where
  -- The zero value.
  abbrev pub blank_fields : Time → Fields Time
  blank_fields zero_time = record {
    seq_num = none;
    uid = none;
    since = zero_time;
    before = zero_time;
    sent_since = zero_time;
    sent_before = zero_time;
    sent_on = zero_time;
    on = zero_time;
    saved_before = zero_time;
    saved_since = zero_time;
    saved_on = zero_time;
    header = [];
    body = [];
    text = [];
    larger = pos 0;
    smaller = pos 0;
    flag = [];
    not_flag = [];
    mod_seq = none;
    younger = pos 0;
    older = pos 0;
    save_result = false;
    fuzzy = false;
  }

  abbrev pub blank : Time → SearchCriteria Time
  blank zero_time = criteria (blank_fields zero_time) no_nots no_ors

  abbrev pub on_fields : (Fields Time → Fields Time) → SearchCriteria Time → SearchCriteria Time
  on_fields g (criteria f ns os) = criteria (g f) ns os

  -- `append(criteria.Not, c)`.
  unfoldable pub snoc_not : Nots Time → SearchCriteria Time → Nots Time
  snoc_not no_nots c = add_not c no_nots
  snoc_not (add_not d ns) c = add_not d (snoc_not ns c)
