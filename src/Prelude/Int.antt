-- ===== src/Prelude/Int.antt =====
-- Signed numbers.
use Prim.Native.Nat.{ℕ, ◌-◌}
use fastsystem.Prelude.Tests.{leb, if◌then◌else◌}

-- `negsuc n` is `-(n + 1)`.
pub data ℤ : Type 0 where
  pos negsuc : ℕ → ℤ

-- `a - b`
abbrev pub sub : ℕ → ℕ → ℤ
sub a b = if leb b a then pos (a - b) else negsuc (b - a - 1)
