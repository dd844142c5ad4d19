-- ===== src/Prelude/Ints.antt =====
-- Signed integers over the native numbers, and Go's int32.
use Prim.Native.Nat.{ℕ, suc, ◌+◌, ◌-◌, ◌%◌, ◌<◌}
use mathlib.Core.Path.{◌≡◌}
use mathlib.Core.Bool.{Bool, false, ◌&&◌}
use native.Mathlib.Omega.{arith}
use k8s_lite.Prelude.Tests.{ltb, leb, if◌then◌else◌}

-- `negsuc n` is -(n + 1).
pub data ℤ : Type 0 where
  pos : ℕ → ℤ
  negsuc : ℕ → ℤ

abbrev pub pos_part : ℤ → ℕ
pos_part (pos n) = n
pos_part (negsuc n) = 0

abbrev pub neg_part : ℤ → ℕ
neg_part (pos n) = 0
neg_part (negsuc n) = suc n

-- a - b, as an integer.
abbrev pub sub_ℕ : ℕ → ℕ → ℤ
sub_ℕ a b = if leb b a then pos (a - b) else negsuc (b - a - 1)

infixl 65 ◌+ℤ◌ ◌-ℤ◌
unfoldable pub ◌+ℤ◌ : ℤ → ℤ → ℤ
a +ℤ b = sub_ℕ (pos_part a + pos_part b) (neg_part a + neg_part b)

unfoldable pub ◌-ℤ◌ : ℤ → ℤ → ℤ
a -ℤ b = sub_ℕ (pos_part a + neg_part b) (neg_part a + pos_part b)

abbrev pub ltb_ℤ : ℤ → ℤ → Bool
ltb_ℤ a b = ltb (pos_part a + neg_part b) (pos_part b + neg_part a)

abbrev pub eqb_ℤ : ℤ → ℤ → Bool
eqb_ℤ (pos a) (pos b) = leb a b && leb b a
eqb_ℤ (negsuc a) (negsuc b) = leb a b && leb b a
eqb_ℤ _ _ = false

-- The int32 with a given bit pattern, and the conversion int32(n) of an int.
unfoldable pub signed32 : ℕ → ℤ
signed32 n = if ltb n 0x8000_0000 then pos n else negsuc (0xffff_ffff - n)

unfoldable pub to_int32 : ℕ → ℤ
unfolding signed32
to_int32 n = signed32 (n % 0x1_0000_0000)

-- Addition and subtraction of int32 wrap around.
unfoldable pub wrap32 : ℤ → ℤ
unfolding signed32
wrap32 (pos n) = signed32 (n % 0x1_0000_0000)
wrap32 (negsuc n) = signed32 (0xffff_ffff - n % 0x1_0000_0000)

pub to_int32-small : (n : ℕ) → n < 0x8000_0000 → to_int32 n ≡ pos n
unfolding to_int32
to_int32-small n h = ground arith
