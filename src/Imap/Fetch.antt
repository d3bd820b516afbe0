-- ===== src/Imap/Fetch.antt =====
-- fetch.go: what a FETCH asks for; and the partial range of imap.go.
use imap_go.Prelude.{ℕ, ℤ, Bool, false, List, [], Option, none, Bytes}

pub record SectionPartial : Type 0 where
  pub offset : ℤ
  pub count : ℤ

pub record FetchItemBodySection : Type 0 where
  pub specifier : Bytes
  pub part : List ℤ
  pub fields : List Bytes
  pub not_fields : Bool
  pub peek : Bool
  pub partial : Option SectionPartial

pub record FetchItemBinarySection : Type 0 where
  pub part : List ℤ
  pub peek : Bool
  pub partial : Option SectionPartial

pub record FetchOptions : Type 0 where
  pub body_section : List FetchItemBodySection
  pub body_structure : Bool
  pub envelope : Bool
  pub flags : Bool
  pub internal_date : Bool
  pub rfc822_size : Bool
  pub uid : Bool
  pub mod_seq : Bool
  pub preview : Bool
  pub preview_lazy : Bool
  pub save_date : Bool
  pub email_id : Bool
  pub thread_id : Bool
  pub binary_section : List FetchItemBinarySection
  pub binary_size_section : List (List ℤ)
  pub changed_since : ℕ
  pub vanished : Bool

-- The zero values.
abbrev pub no_section : FetchItemBodySection
no_section = record {
  specifier = [];
  part = [];
  fields = [];
  not_fields = false;
  peek = false;
  partial = none;
}

abbrev pub no_options : FetchOptions
no_options = record {
  body_section = [];
  body_structure = false;
  envelope = false;
  flags = false;
  internal_date = false;
  rfc822_size = false;
  uid = false;
  mod_seq = false;
  preview = false;
  preview_lazy = false;
  save_date = false;
  email_id = false;
  thread_id = false;
  binary_section = [];
  binary_size_section = [];
  changed_since = 0;
  vanished = false;
}
