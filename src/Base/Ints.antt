-- ===== src/Base/Ints.antt =====
-- Go's signed integers, and its conversions between them, which wrap around.
use Prim.Native.Nat.{ℕ, suc, ◌-◌, ◌*◌, ◌%◌, ◌^◌, ◌<◌}
use mathlib.Core.Path.{◌≡◌}
use native.Mathlib.Omega.{arith}
use terraform_provider_confl.Base.Tests.{ltb, if◌then◌else◌}

-- `negsuc n` is -(n + 1).
pub data ℤ : Type 0 where
  pos : ℕ → ℤ
  negsuc : ℕ → ℤ

-- The two's complement integer of that width with the same lowest bits. A complement swaps the two
-- signs, and all bits.
unfoldable pub to_signed : (bits : ℕ) → ℤ → ℤ
to_signed bits (pos n) =
    let low = n % 2 ^ bits in
    if ltb low (2 ^ (bits - 1)) then pos low else negsuc (2 ^ bits - 1 - low)
to_signed bits (negsuc n) =
    let low = n % 2 ^ bits in
    if ltb low (2 ^ (bits - 1)) then negsuc low else pos (2 ^ bits - 1 - low)

-- `int32(i)`
unfoldable pub to_int32 : ℤ → ℤ
unfolding to_signed
to_int32 i = to_signed 32 i

-- The product of two `int64`s, of which the second one is not negative.
unfoldable pub times_int64 : ℤ → ℕ → ℤ
unfolding to_signed
times_int64 (pos n) k = to_signed 64 (pos (n * k))
times_int64 (negsuc n) k = if ltb 0 k then to_signed 64 (negsuc (suc n * k - 1)) else pos 0

-- The numbers of an `int32`.
abbrev pub InInt32 : ℤ → Type 0
InInt32 (pos n) = n < 2147483648
InInt32 (negsuc n) = n < 2147483648

pub to_int32-InInt32 : (i : ℤ) → InInt32 i → to_int32 i ≡ i
unfolding to_int32
to_int32-InInt32 (pos n) h = ground arith
to_int32-InInt32 (negsuc n) h = ground arith

-- A product that fits is not changed.
pub times_int64-fits : (n k : ℕ) → n * k < 9223372036854775808 → times_int64 (pos n) k ≡ pos (n * k)
unfolding times_int64
times_int64-fits n k h = ground arith
