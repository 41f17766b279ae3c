-- ===== src/Text/Utf8/Convert.antt =====
-- The whole conversion of `to_utf8`: well-formedness, meaning, truncation and size.
use Prim.Native.Nat.{min}
use old_pixel_gun_3d_online.Base.{
  ℕ, zero, suc, ◌+◌, ◌*◌, ◌<◌, ◌≤◌, ◌≡◌, refl, sym, ap, ◌∙◌, inl, inr, true, false, none, some,
  List, [], ◌∷◌, ◌++◌, arith, Bytes, codes, length, length-append, All, All-append, append-nil, ltb,
  Bool-cases, if◌then◌else◌,
}
use old_pixel_gun_3d_online.Text.Utf8.{append_utf8, is_high, is_low, loop, convert}
use old_pixel_gun_3d_online.Text.Utf8.Reference.{decode_from, decode, sanitize, pair}
use old_pixel_gun_3d_online.Text.Utf8.Encode.{encode}
use old_pixel_gun_3d_online.Text.Utf8.Loop.{
  units, code_points, encode_all, loop_lem, low_replaced, points_pair, points_plain,
  points_unpaired,
}
use old_pixel_gun_3d_online.Text.Utf8.Laws.{
  AllUnits, ends_high, points-sanitize, sanitize-AllScalar, emits, emits-some, decode_all,
  points_ill_formed,
}

-- The mark of a text that was cut.
abbrev pub suffix : ℕ → ℕ → Bytes
suffix limit total = if ltb limit total then codes "..." else []

convert-points :
    (total : ℕ) (chars : ℕ → ℕ) (max : ℕ)
    → convert total chars max
      ≡ encode_all (code_points (units chars 0 (min total max))) ++ suffix (min total max) total
unfolding convert
convert-points total chars max = elim (Bool-cases (ltb (min total max) total)) [
  | inl cut ↦ rw cut (ap (λ (b : Bytes). b ++ codes "...") whole)
  | inr full ↦ rw full (whole ∙ sym (append-nil _))
]
  where
    whole :
        loop (min total max) chars (min total max) 0 []
        ≡ encode_all (code_points (units chars 0 (min total max)))
    whole =
        loop_lem (min total max) (min total max) chars (min total max) 0 [] (omega arith)
          (omega arith)

units-AllUnits :
    (chars : ℕ → ℕ) (i n : ℕ) → ((k : ℕ) → chars k < 65536) → AllUnits (units chars i n)
units-AllUnits chars i zero h = tt
units-AllUnits chars i (suc n) h = (h i, units-AllUnits chars (i + 1) n h)

decode-suffix :
    (limit total : ℕ) → decode_from 0 0 0 (suffix limit total) ≡ some (suffix limit total)
unfolding decode_from
decode-suffix limit total = elim (Bool-cases (ltb limit total)) [
  | inl cut ↦ rw cut
  | inr full ↦ rw full
]

encode-length : (cp : ℕ) → (length (encode cp) ≤ 4) × (cp < 0x10000 → length (encode cp) ≤ 3)
unfolding append_utf8
encode-length cp = ground arith

encode_bytes : (cp : ℕ) → All (λ b. b < 256) (encode cp)
unfolding append_utf8
encode_bytes cp = ground arith

encode_all_bytes : (cps : List ℕ) → All (λ b. b < 256) (encode_all cps)
unfolding encode_all
encode_all_bytes [] = tt
encode_all_bytes (c ∷ cps) =
    All-append (λ b. b < 256) (encode c) (encode_all cps) (encode_bytes c) (encode_all_bytes cps)

points_last : (u : ℕ) → code_points (u ∷ []) ≡ low_replaced u ∷ []
unfolding code_points
points_last u = refl

length-encode_all-nil : length (encode_all []) ≡ 0
unfolding encode_all
length-encode_all-nil = refl

length-encode_all-cons :
    (c : ℕ) (cps : List ℕ)
    → length (encode_all (c ∷ cps)) ≡ length (encode c) + length (encode_all cps)
unfolding encode_all
length-encode_all-cons c cps = length-append (encode c) (encode_all cps)

-- At most three bytes for each unit, since a code point of four bytes comes from two.
encode_all-points-le :
    (us : List ℕ) → AllUnits us → length (encode_all (code_points us)) ≤ 3 * length us
encode_all-points-le [] b = unfold encode_all code_points in omega arith
encode_all-points-le (u ∷ []) b = rw (points_last u) (
    omega (
      arith,
      length-encode_all-cons (low_replaced u) [],
      (encode-length (low_replaced u)).1 (ground arith),
      length-encode_all-nil,
    ))
encode_all-points-le (u ∷ v ∷ us) b = elim (Bool-cases (is_high u)) [
  | inr plain ↦ rw (points_plain u v us plain) (
      omega (
        arith,
        length-encode_all-cons (low_replaced u) (code_points (v ∷ us)),
        (encode-length (low_replaced u)).1 (ground arith),
        encode_all-points-le (v ∷ us) b.1,
      ))
  | inl high ↦ elim (Bool-cases (is_low v)) [
    | inl low ↦ rw (points_pair u v us high low) (
        omega (
          arith,
          length-encode_all-cons (pair u v) (code_points us),
          (encode-length (pair u v)).0,
          encode_all-points-le us b.1.1,
        ))
    | inr other ↦ rw (points_unpaired u v us high other) (
        omega (
          arith,
          length-encode_all-cons 0xfffd (code_points (v ∷ us)),
          (encode-length 0xfffd).1 (omega arith),
          encode_all-points-le (v ∷ us) b.1,
        ))
  ]
]

length-units : (chars : ℕ → ℕ) (i n : ℕ) → length (units chars i n) ≡ n
length-units chars i zero = refl
length-units chars i (suc n) = ap suc (length-units chars (i + 1) n)

suffix_size : (limit n : ℕ) → (length (suffix limit n) ≤ 3) × All (λ b. b < 256) (suffix limit n)
suffix_size limit n = ground arith

module _ (total : ℕ) (chars : ℕ → ℕ) (max : ℕ) (bounded : (k : ℕ) → chars k < 65536) where
  -- For units of 16 bits: unless the last unit that is converted is the first half of a surrogate
  -- pair, the result is well-formed UTF-8. It spells the UTF-16 text of the first `min total max`
  -- units with each unpaired surrogate replaced by U+FFFD, and "..." behind it exactly when units
  -- were cut off.
  pub decode-convert :
      ends_high (units chars 0 (min total max)) ≡ false
      → decode (convert total chars max)
        ≡ some (sanitize (units chars 0 (min total max)) ++ suffix (min total max) total)
  unfolding decode
  decode-convert h =
      let bounds = units-AllUnits chars 0 (min total max) bounded in
      rw (convert-points total chars max, points-sanitize _ bounds h)
        (decode_all _ _ (sanitize-AllScalar _ bounds)
          ∙ ap (emits (sanitize (units chars 0 (min total max))))
              (decode-suffix (min total max) total)
          ∙ emits-some (sanitize (units chars 0 (min total max))) _)

  -- For units of 16 bits: if the last unit that is converted is the first half of a surrogate pair
  -- (a text that ends in an unpaired one, or a pair that the limit cuts in two), the result is not
  -- well-formed UTF-8.
  pub convert_split_pair :
      ends_high (units chars 0 (min total max)) ≡ true → decode (convert total chars max) ≡ none
  unfolding decode
  convert_split_pair h =
      rw (convert-points total chars max)
        (points_ill_formed _ _ (units-AllUnits chars 0 (min total max) bounded) h)

  -- For units of 16 bits, the result consists of bytes, and has at most three for each unit within
  -- the limit, and three more.
  pub convert_size :
      All (λ b. b < 256) (convert total chars max)
      × (length (convert total chars max) ≤ 3 * min total max + 3)
  convert_size =
      let us = units chars 0 (min total max) in
      let end = suffix (min total max) total in
      rw (convert-points total chars max) (
        All-append (λ b. b < 256) (encode_all (code_points us)) end (encode_all_bytes _)
            (suffix_size (min total max) total).1,
        omega (
          arith,
          length-append (encode_all (code_points us)) end,
          encode_all-points-le us (units-AllUnits chars 0 (min total max) bounded),
          length-units chars 0 (min total max),
          (suffix_size (min total max) total).0,
        ),
      )
