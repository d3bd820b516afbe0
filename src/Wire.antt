-- ===== src/Wire.antt =====
-- The package `wire`: reading and writing the tokens of the IMAP grammar.
pub mod Chars
pub mod Decimal
pub mod Reader
pub mod Decoder
pub mod Atom
pub mod Quoted
pub mod Literal
pub mod RoundTrip
pub mod Nullable
pub mod Flags
pub mod Suffix
pub mod Reads
pub mod Lists
pub mod Lossy
pub mod Safe
pub mod ListReader
pub mod Encoder
