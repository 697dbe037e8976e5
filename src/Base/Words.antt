-- ===== src/Base/Words.antt =====
-- Go's conversions to the unsigned machine integers.
use Prim.Native.Nat.{ℕ, ◌+◌, ◌%◌, ◌^◌, ◌<◌}
use mathlib.Core.Path.{◌≡◌}
use mathlib.Core.Bool.{Bool}
use native.Mathlib.Omega.{arith}
use encarno.Base.Tests.{ltb}

abbrev pub u16 : ℕ → ℕ
u16 n = n % 2 ^ 16

abbrev pub u32 : ℕ → ℕ
u32 n = n % 2 ^ 32

pub u16_small : (n : ℕ) → n < 2 ^ 16 → u16 n ≡ n
u16_small n h = omega arith

abbrev pub u64 : ℕ → ℕ
u64 n = n % 2 ^ 64

-- `<` on the bit patterns of int64, such as a `time.Duration` has.
abbrev pub slt : ℕ → ℕ → Bool
slt a b = ltb (u64 (a + 2 ^ 63)) (u64 (b + 2 ^ 63))

-- On numbers that are no negative int64 it is the order of numbers.
pub slt_small : (a b : ℕ) → a < 2 ^ 63 → b < 2 ^ 63 → slt a b ≡ ltb a b
slt_small a b h k =
    let e : u64 (a + 2 ^ 63) ≡ a + 2 ^ 63 = omega arith in
    let f : u64 (b + 2 ^ 63) ≡ b + 2 ^ 63 = omega arith in rw (e, f) (ground arith)
