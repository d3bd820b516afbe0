-- ===== src/Prelude/Int.antt =====
-- Signed integers, as far as the source uses them.
use Prim.Native.Nat.{ℕ, ◌-◌, ◌^◌}
use imap_go.Prelude.Tests.{ltb, if◌then◌else◌}

-- `negsuc n` is -(n + 1).
pub data ℤ : Type 0 where
  pos : ℕ → ℤ
  negsuc : ℕ → ℤ

-- `int64(n)` of a `uint64`.
abbrev pub to_int64 : ℕ → ℤ
to_int64 n = if ltb n (2 ^ 63) then pos n else negsuc (2 ^ 64 - n - 1)
