-- ===== src/Text/Utf8/Loop.antt =====
-- The loop of `to_utf8` appends the encodings of a list of code points, `code_points`.
use old_pixel_gun_3d_online.Base.{
  ℕ, zero, suc, ◌+◌, ◌<◌, ◌≤◌, ◌≡◌, refl, sym, ap, ◌∙◌, inl, inr, true, false, List, [], ◌∷◌, ◌++◌,
  arith, Bytes, append_assoc, append-nil, ltb, lt→ltb, Bool-cases, if◌then◌else◌,
}
use old_pixel_gun_3d_online.Text.Utf8.{append_utf8, is_high, is_low, next_code_point, loop}
use old_pixel_gun_3d_online.Text.Utf8.Reference.{pair}
use old_pixel_gun_3d_online.Text.Utf8.Encode.{encode, append_utf8_lem}

-- The code units at `i`, ..., `i + n - 1`.
abbrev pub units : (ℕ → ℕ) → ℕ → ℕ → List ℕ
units chars i zero = []
units chars i (suc n) = chars i ∷ units chars (i + 1) n

abbrev pub low_replaced : ℕ → ℕ
low_replaced u = if is_low u then 0xfffd else u

-- The code points that the rounds find. A high surrogate in the last place is passed on.
unfoldable pub code_points : List ℕ → List ℕ
code_points [] = []
code_points (u ∷ []) = low_replaced u ∷ []
code_points (u ∷ v ∷ us) = elim (is_high u) [
  | true ↦ elim (is_low v) [
    | true ↦ pair u v ∷ code_points us
    | false ↦ 0xfffd ∷ code_points (v ∷ us)
  ]
  | false ↦ low_replaced u ∷ code_points (v ∷ us)
]

unfoldable pub encode_all : List ℕ → Bytes
encode_all [] = []
encode_all (cp ∷ cps) = encode cp ++ encode_all cps

module _ (chars : ℕ → ℕ) (limit i : ℕ) where
  -- The last unit.
  next_last :
      ltb (i + 1) limit ≡ false → next_code_point chars limit i ≡ (low_replaced (chars i), 1)
  unfolding next_code_point
  next_last h = ground arith

  next_plain :
      is_high (chars i) ≡ false → next_code_point chars limit i ≡ (low_replaced (chars i), 1)
  unfolding next_code_point
  next_plain h = ground arith

  next_pair :
      ltb (i + 1) limit ≡ true
      → is_high (chars i) ≡ true
      → is_low (chars (i + 1)) ≡ true
      → next_code_point chars limit i ≡ (pair (chars i) (chars (i + 1)), 2)
  unfolding next_code_point
  next_pair m h l = ground arith

  next_unpaired :
      ltb (i + 1) limit ≡ true
      → is_high (chars i) ≡ true
      → is_low (chars (i + 1)) ≡ false
      → next_code_point chars limit i ≡ (0xfffd, 1)
  unfolding next_code_point
  next_unpaired m h l = ground arith

-- A round of the loop.
loop-step :
    (fuel : ℕ) (chars : ℕ → ℕ) (limit i : ℕ) (out : Bytes) (cp step : ℕ)
    → i < limit
    → next_code_point chars limit i ≡ (cp, step)
    → loop (suc fuel) chars limit i out ≡ loop fuel chars limit (i + step) (append_utf8 out cp)
unfolding loop
loop-step fuel chars limit i out cp step h e = rw (e, loop) (rw (lt→ltb _ _ h))

loop-end :
    (fuel : ℕ) (chars : ℕ → ℕ) (limit i : ℕ) (out : Bytes)
    → limit ≤ i
    → loop fuel chars limit i out ≡ out
unfolding loop
loop-end zero chars limit i out h = refl
loop-end (suc fuel) chars limit i out h = ground arith

module _ (u v : ℕ) (us : List ℕ) where
  pub points_pair :
      is_high u ≡ true → is_low v ≡ true → code_points (u ∷ v ∷ us) ≡ pair u v ∷ code_points us
  unfolding code_points
  points_pair h l = ground arith

  pub points_unpaired :
      is_high u ≡ true → is_low v ≡ false → code_points (u ∷ v ∷ us) ≡ 0xfffd ∷ code_points (v ∷ us)
  unfolding code_points
  points_unpaired h l = ground arith

  pub points_plain :
      is_high u ≡ false → code_points (u ∷ v ∷ us) ≡ low_replaced u ∷ code_points (v ∷ us)
  unfolding code_points
  points_plain h = ground arith

-- Appending one code point and then the rest.
regroup :
    (out : Bytes) (cp : ℕ) (cps : List ℕ)
    → append_utf8 out cp ++ encode_all cps ≡ out ++ encode_all (cp ∷ cps)
unfolding encode_all
regroup out cp cps = rw append_utf8_lem (append_assoc out (encode cp) (encode_all cps))

pub loop_lem :
    (fuel n : ℕ) (chars : ℕ → ℕ) (limit i : ℕ) (out : Bytes)
    → limit ≡ i + n
    → n ≤ fuel
    → loop fuel chars limit i out ≡ out ++ encode_all (code_points (units chars i n))
loop_lem fuel zero chars limit i out e h =
    loop-end fuel chars limit i out (omega arith)
    ∙ unfold encode_all code_points in sym (append-nil out)
loop_lem zero (suc n) chars limit i out e h = absurd (omega arith)
loop_lem (suc fuel) (suc zero) chars limit i out e h =
    loop-step fuel chars limit i out _ 1 (omega arith) (next_last chars limit i (ground arith))
    ∙ loop-end fuel chars limit (i + 1) _ (omega arith)
    ∙ sym (append-nil _)
    ∙ unfold encode_all code_points in regroup out (low_replaced (chars i)) []
loop_lem (suc fuel) (suc (suc n)) chars limit i out e h = elim (Bool-cases (is_high (chars i))) [
  | inr plain ↦
      loop-step fuel chars limit i out _ 1 (omega arith) (next_plain chars limit i plain)
      ∙ loop_lem fuel (suc n) chars limit (i + 1) _ (omega arith) (omega arith)
      ∙ regroup out _ _
      ∙ ap (λ cps. out ++ encode_all cps) (sym (points_plain (chars i) (chars (i + 1)) _ plain))
  | inl high ↦ elim (Bool-cases (is_low (chars (i + 1)))) [
    | inl low ↦
        loop-step fuel chars limit i out _ 2 (omega arith)
          (next_pair chars limit i (ground arith) high low)
        ∙ loop_lem fuel n chars limit (i + 2) _ (omega arith) (omega arith)
        ∙ regroup out _ _
        ∙ ap (λ cps. out ++ encode_all cps)
            (sym (
              points_pair (chars i) (chars (i + 1)) _ high low
              ∙ ap (λ (k : ℕ). pair (chars i) (chars (i + 1)) ∷ code_points (units chars k n))
                  (omega arith)))
    | inr other ↦
        loop-step fuel chars limit i out _ 1 (omega arith)
          (next_unpaired chars limit i (ground arith) high other)
        ∙ loop_lem fuel (suc n) chars limit (i + 1) _ (omega arith) (omega arith)
        ∙ regroup out _ _
        ∙ ap (λ cps. out ++ encode_all cps)
            (sym (points_unpaired (chars i) (chars (i + 1)) _ high other))
  ]
]
