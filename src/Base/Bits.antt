-- ===== src/Base/Bits.antt =====
-- `^`, `|` and `&` on bit patterns: digit laws, cancellation and range of `^`, tags and masks.
use Prim.Native.Nat.{min, differ, digits, bit_and, bit_xor}
use Prim.Native.Nat.{bit_and-bitwise, bit_xor-bitwise}
use Prim.Native.Nat.{ℕ, zero, suc, ◌+◌, ◌*◌, ◌/◌, ◌%◌, ◌^◌, ◌≤◌, ◌<◌}
use mathlib.Core.Path.{◌≡◌, refl}
use mathlib.Core.Bool.{Bool, true, ◌&&◌}
use native.Mathlib.Nat.{pow-suc}
use native.Mathlib.Omega.{arith}

-- A test that holds below a bound, by evaluation.
abbrev pub all_under : ℕ → (ℕ → Bool) → Bool
all_under zero p = true
all_under (suc n) p = p n && all_under n p

pub all_under_lem : (p : ℕ → Bool) (n : ℕ) {x : ℕ} → all_under n p ≡ true → x < n → p x ≡ true
all_under_lem p zero h l = elim l [ ]
all_under_lem p (suc n) {x} h l = ground (arith, all_under_lem p n {x = x})

-- Any fuel that covers the first operand gives the same digits.
module _ (z : ℕ → ℕ) (f : ℕ → ℕ → ℕ) where
  digits_enough : (n k a b : ℕ) → a ≤ n → a ≤ k → digits z f n a b ≡ digits z f k a b
  digits_enough zero k (suc a) b p q = absurd (omega arith)
  digits_enough n zero (suc a) b p q = absurd (omega arith)
  digits_enough zero zero zero b p q = refl
  digits_enough zero (suc k) zero b p q = refl
  digits_enough (suc n) zero zero b p q = refl
  digits_enough (suc n) (suc k) zero b p q = refl
  digits_enough (suc n) (suc k) (suc a) b p q =
      omega (arith, digits_enough n k (suc a / 2) (b / 2) (omega arith) (omega arith))

differ_bits : (x y : ℕ) → x < 2 → y < 2 → differ x y ≡ (x + y) % 2
differ_bits zero zero h l = omega arith
differ_bits zero (suc y) h l = omega arith
differ_bits (suc zero) zero h l = omega arith
differ_bits (suc zero) (suc zero) h l = omega arith
differ_bits (suc zero) (suc (suc y)) h l = absurd (omega arith)
differ_bits (suc (suc x)) y h l = absurd (omega arith)

differ_bound : (a b : ℕ) → differ (a % 2) (b % 2) ≡ (a % 2 + b % 2) % 2
differ_bound a b = differ_bits (a % 2) (b % 2) (omega arith) (omega arith)

pub xor_digit : (a b : ℕ) → bit_xor a b ≡ bit_xor (a / 2) (b / 2) * 2 + differ (a % 2) (b % 2)
xor_digit zero b = omega (arith, bit_xor-bitwise 0 b, bit_xor-bitwise 0 (b / 2), differ_bound 0 b)
xor_digit (suc a) b = omega (
  arith,
  bit_xor-bitwise (suc a) b,
  bit_xor-bitwise (suc a / 2) (b / 2),
  digits_enough (λ y. y) differ a (suc a / 2) (suc a / 2) (b / 2) (omega arith) (omega arith),
)

pub and_digit : (a b : ℕ) → bit_and a b ≡ bit_and (a / 2) (b / 2) * 2 + min (a % 2) (b % 2)
and_digit zero b = omega (arith, bit_and-bitwise 0 b, bit_and-bitwise 0 (b / 2))
and_digit (suc a) b = omega (
  arith,
  bit_and-bitwise (suc a) b,
  bit_and-bitwise (suc a / 2) (b / 2),
  digits_enough (λ y. 0) min a (suc a / 2) (suc a / 2) (b / 2) (omega arith) (omega arith),
)

-- `x ^ y` and `x ^ z` agree only where `y` and `z` do, on numbers of `k` digits.
pub xor_cancel : (k a b c : ℕ) → b < 2 ^ k → c < 2 ^ k → bit_xor a b ≡ bit_xor a c → b ≡ c
xor_cancel zero a b c hb hc e = omega arith
xor_cancel (suc k) a b c hb hc e = omega (
  arith,
  xor_cancel k (a / 2) (b / 2) (c / 2) (omega (arith, pow-suc 2 k)) (omega (arith, pow-suc 2 k))
      halves,
  low,
)
  where
    halves : bit_xor (a / 2) (b / 2) ≡ bit_xor (a / 2) (c / 2)
    halves = omega (arith, xor_digit a b, xor_digit a c, differ_bound a b, differ_bound a c)

    low : b % 2 ≡ c % 2
    low = omega (arith, xor_digit a b, xor_digit a c, differ_bound a b, differ_bound a c)

pub xor_cancel_left : (k a b c : ℕ) → a < 2 ^ k → b < 2 ^ k → bit_xor a c ≡ bit_xor b c → a ≡ b
xor_cancel_left zero a b c hb hc e = omega arith
xor_cancel_left (suc k) a b c hb hc e = omega (
  arith,
  xor_cancel_left k (a / 2) (b / 2) (c / 2) (omega (arith, pow-suc 2 k))
      (omega (arith, pow-suc 2 k)) halves,
  low,
)
  where
    halves : bit_xor (a / 2) (c / 2) ≡ bit_xor (b / 2) (c / 2)
    halves = omega (arith, xor_digit a c, xor_digit b c, differ_bound a c, differ_bound b c)

    low : a % 2 ≡ b % 2
    low = omega (arith, xor_digit a c, xor_digit b c, differ_bound a c, differ_bound b c)

pub xor-lt : (k a b : ℕ) → a < 2 ^ k → b < 2 ^ k → bit_xor a b < 2 ^ k
xor-lt zero zero zero ha hb = omega arith
xor-lt zero (suc a) b ha hb = absurd (omega arith)
xor-lt zero zero (suc b) ha hb = absurd (omega arith)
xor-lt (suc k) a b ha hb = omega (
  arith,
  xor_digit a b,
  pow-suc 2 k,
  differ_bound a b,
  xor-lt k (a / 2) (b / 2) (omega (arith, pow-suc 2 k)) (omega (arith, pow-suc 2 k)),
)

and-zero : (n a : ℕ) → a ≤ n → bit_and a 0 ≡ 0
and-zero n zero h = refl
and-zero zero (suc a) h = absurd (omega arith)
and-zero (suc n) (suc a) h =
    omega (arith, and_digit (suc a) 0, and-zero n (suc a / 2) (omega arith))

-- `a & 0x3f` is the remainder by 64.
pub and_63 : (a : ℕ) → bit_and a 63 ≡ a % 64
and_63 a = omega (
  arith,
  and_digit a 63,
  and_digit (a / 2) 31,
  and_digit (a / 2 / 2) 15,
  and_digit (a / 2 / 2 / 2) 7,
  and_digit (a / 2 / 2 / 2 / 2) 3,
  and_digit (a / 2 / 2 / 2 / 2 / 2) 1,
  and-zero a (a / 2 / 2 / 2 / 2 / 2 / 2) (omega arith),
)
