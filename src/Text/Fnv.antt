-- ===== src/Text/Fnv.antt =====
-- `fnv1a` of photon_hooks.cpp, the fingerprint under which a credential is logged.
use Prim.Native.Nat.{bit_xor}
use old_pixel_gun_3d_online.Base.{
  ℕ, ◌*◌, ◌%◌, ◌^◌, ◌<◌, ◌≡◌, refl, sym, ◌∙◌, [], ◌∷◌, ◌++◌, arith, Bytes, All,
}
use old_pixel_gun_3d_online.Base.Bits.{xor_cancel, xor_cancel_left, xor-lt}

-- One round of the loop: `hash ^= data[i]; hash *= 16777619u`, on `uint32_t`.
unfoldable pub round : ℕ → ℕ → ℕ
round hash b = bit_xor hash (b % 256) * 16777619 % 2 ^ 32

unfoldable pub rounds : ℕ → Bytes → ℕ
rounds hash [] = hash
rounds hash (b ∷ bs) = rounds (round hash b) bs

unfoldable pub fnv1a : Bytes → ℕ
unfolding rounds
fnv1a bytes = rounds 2166136261 bytes

pub round-lt : (hash b : ℕ) → round hash b < 2 ^ 32
unfolding round
round-lt hash b = omega arith

rounds-lt : (hash : ℕ) (bs : Bytes) → hash < 2 ^ 32 → rounds hash bs < 2 ^ 32
unfolding rounds
rounds-lt hash [] h = h
rounds-lt hash (b ∷ bs) h = rounds-lt (round hash b) bs (round-lt hash b)

-- Multiplying by the prime loses nothing: 16777619 * 899433627 is 1 modulo 2 ^ 32.
times_prime_cancel :
    (x y : ℕ) → x < 2 ^ 32 → y < 2 ^ 32 → x * 16777619 % 2 ^ 32 ≡ y * 16777619 % 2 ^ 32 → x ≡ y
times_prime_cancel x y hx hy e = omega arith

-- A round can be undone in either argument.
pub round_injective_hash :
    (g h b : ℕ) → g < 2 ^ 32 → h < 2 ^ 32 → b < 256 → round g b ≡ round h b → g ≡ h
unfolding round
round_injective_hash g h b hg hh hb e = xor_cancel_left 32 g h (b % 256) hg hh (
    times_prime_cancel _ _ (xor-lt 32 g (b % 256) hg (omega arith))
      (xor-lt 32 h (b % 256) hh (omega arith)) e)

pub round_injective_byte :
    (h b c : ℕ) → h < 2 ^ 32 → b < 256 → c < 256 → round h b ≡ round h c → b ≡ c
unfolding round
round_injective_byte h b c hh hb hc e = omega (
  arith,
  xor_cancel 32 h (b % 256) (c % 256) (omega arith) (omega arith) (
      times_prime_cancel _ _ (xor-lt 32 h (b % 256) hh (omega arith))
        (xor-lt 32 h (c % 256) hh (omega arith)) e),
)

pub rounds-append : (hash : ℕ) (xs ys : Bytes) → rounds hash (xs ++ ys) ≡ rounds (rounds hash xs) ys
unfolding rounds
rounds-append hash [] ys = refl
rounds-append hash (x ∷ xs) ys = rounds-append (round hash x) xs ys

rounds_injective_hash :
    (g h : ℕ) (bs : Bytes)
    → g < 2 ^ 32
    → h < 2 ^ 32
    → All (λ b. b < 256) bs
    → rounds g bs ≡ rounds h bs
    → g ≡ h
unfolding rounds
rounds_injective_hash g h [] hg hh w e = e
rounds_injective_hash g h (b ∷ bs) hg hh w e =
    round_injective_hash g h b hg hh w.0
      (rounds_injective_hash (round g b) (round h b) bs (round-lt g b) (round-lt h b) w.1 e)

-- The fingerprint is a `uint32_t`, and two texts of bytes that differ in exactly one byte, at any
-- place, have different fingerprints.
pub fnv1a_separates :
    (before : Bytes) (b c : ℕ) (behind : Bytes)
    → b < 256
    → c < 256
    → All (λ x. x < 256) behind
    → (fnv1a (before ++ b ∷ behind) < 2 ^ 32)
      × (fnv1a (before ++ b ∷ behind) ≡ fnv1a (before ++ c ∷ behind) → b ≡ c)
unfolding fnv1a
fnv1a_separates before b c behind hb hc w = (
  rounds-lt _ (before ++ b ∷ behind) (omega arith),
  λ e. round_injective_byte start b c start-lt hb hc (
      rounds_injective_hash (round start b) (round start c) behind (round-lt start b)
        (round-lt start c) w
        (sym (rounds-append _ before (b ∷ behind)) ∙ e ∙ rounds-append _ before (c ∷ behind))),
)
  where
    start : ℕ
    start = rounds 2166136261 before

    start-lt : start < 2 ^ 32
    start-lt = rounds-lt 2166136261 before (omega arith)
