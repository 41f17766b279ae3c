-- ===== src/Text/Digits.antt =====
-- Numbers as digits, the way `%u`, `%ld`, `%x` and Python's `:x` spell them, and read back.
use old_pixel_gun_3d_online.Base.{
  ℕ, zero, suc, ◌+◌, ◌-◌, ◌*◌, ◌/◌, ◌%◌, ◌^◌, ◌≤◌, ◌<◌, ◌≡◌, refl, ap, ◌∙◌, inl, inr, Bool, ◌&&◌,
  ◌||◌, ltb, leb, [], ◌∷◌, Bytes, All, length, arith, Bool-cases, ltb→lt, if◌then◌else◌,
}

abbrev pub digit : ℕ → ℕ
digit d = if ltb d 10 then 48 + d else 87 + d

-- The digits of `n` in front of a text, at most `places` of them.
unfoldable pub spell : ℕ → ℕ → ℕ → Bytes → Bytes
spell base zero n behind = behind
spell base (suc places) n behind =
    let rest = spell base places (n / base) (digit (n % base) ∷ behind) in
    if ltb n base then digit n ∷ behind else rest

-- A `uint64_t` has at most 20 decimal digits and 16 hexadecimal ones.
abbrev pub decimal : ℕ → Bytes
decimal n = spell 10 20 n []

abbrev pub hexadecimal : ℕ → Bytes
hexadecimal n = spell 16 16 n []

-- `[0-9A-Fa-f]`
abbrev pub is_hex : ℕ → Bool
is_hex c = leb 48 c && leb c 57 || leb 65 c && leb c 70 || leb 97 c && leb c 102

abbrev hex_value : ℕ → ℕ
hex_value c = if leb c 57 then c - 48 else if leb c 70 then c - 55 else c - 87

-- `int(text, 16)` behind digits that are worth `high`.
unfoldable pub int16 : ℕ → Bytes → ℕ
int16 high [] = high
int16 high (c ∷ cs) = int16 (high * 16 + hex_value c) cs

divided : (n k : ℕ) → n < 16 ^ suc k → n / 16 < 16 ^ k
divided n k b = omega arith

last_digit : (n : ℕ) → n / 16 * 16 + hex_value (digit (n % 16)) ≡ n
last_digit n = ground arith

one_digit : (n : ℕ) → n < 16 → 0 * 16 + hex_value (digit n) ≡ n
one_digit n b = ground arith

zero_below : (n : ℕ) → n < 1 → n ≡ 0
zero_below n b = omega arith

pub int16-spell :
    (places n : ℕ) (behind : Bytes)
    → n < 16 ^ places
    → int16 0 (spell 16 places n behind) ≡ int16 n behind
unfolding spell int16
int16-spell zero n behind b = rw (zero_below n b) refl
int16-spell (suc places) n behind b = elim (Bool-cases (ltb n 16)) [
  | inl e ↦ rw e (ap (λ v. int16 v behind) (one_digit n (ltb→lt n 16 e)))
  | inr e ↦ rw e (
      int16-spell places (n / 16) (digit (n % 16) ∷ behind) (divided n places b)
      ∙ ap (λ v. int16 v behind) (last_digit n))
]

-- Any property of the digits holds of what is spelled.
pub spell-All :
    (P : ℕ → Type 0) (base places n : ℕ) (behind : Bytes)
    → ((m : ℕ) → m % base < base)
    → ((d : ℕ) → d < base → P (digit d))
    → All P behind
    → All P (spell base places n behind)
unfolding spell
spell-All P base zero n behind small digits h = h
spell-All P base (suc places) n behind small digits h = elim (Bool-cases (ltb n base)) [
  | inl e ↦ rw e (digits n (ltb→lt n base e), h)
  | inr e ↦ rw e (
      spell-All P base places (n / base) (digit (n % base) ∷ behind) small digits
        (digits (n % base) (small n), h))
]

pub length-spell :
    (base places n : ℕ) (behind : Bytes)
    → length (spell base places n behind) ≤ places + length behind
unfolding spell
length-spell base zero n behind = omega arith
length-spell base (suc places) n behind = elim (Bool-cases (ltb n base)) [
  | inl e ↦ rw e (omega arith)
  | inr e ↦ rw e (omega (arith, length-spell base places (n / base) (digit (n % base) ∷ behind)))
]
