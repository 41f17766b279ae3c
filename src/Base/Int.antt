-- ===== src/Base/Int.antt =====
-- `int32_t` and `int16_t` values as integers.
use Prim.Native.Nat.{ℕ, ◌-◌, ◌^◌}
use mathlib.Core.Bool.{Bool, false}
use old_pixel_gun_3d_online.Base.Tests.{ltb, leb, ◌==◌, if◌then◌else◌}

-- `negsuc n` is -(n + 1).
pub data ℤ : Type 0 where
  pos : ℕ → ℤ
  negsuc : ℕ → ℤ

abbrev pub minus_one : ℤ
minus_one = negsuc 0

-- `z == k` and `z >= k` for a constant `k` that is not negative.
abbrev pub int_eq : ℤ → ℕ → Bool
int_eq (pos n) k = n == k
int_eq (negsuc n) k = false

abbrev pub int_ge : ℤ → ℕ → Bool
int_ge (pos n) k = leb k n
int_ge (negsuc n) k = false

-- The value of an `int32_t` with this bit pattern.
abbrev pub signed32 : ℕ → ℤ
signed32 w = if ltb w (2 ^ 31) then pos w else negsuc (2 ^ 32 - w - 1)

abbrev pub same_int : ℤ → ℤ → Bool
same_int (pos a) (pos b) = a == b
same_int (negsuc a) (negsuc b) = a == b
same_int _ _ = false
