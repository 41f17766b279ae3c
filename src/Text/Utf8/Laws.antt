-- ===== src/Text/Utf8/Laws.antt =====
-- What `to_utf8` promises of its conversion, against the reference of the two encodings.
use old_pixel_gun_3d_online.Base.{
  ℕ, ◌<◌, ◌≡◌, refl, sym, ap, ◌∙◌, inl, inr, Bool, true, false, Option, none, some, List, [], ◌∷◌,
  ◌++◌, arith, Bytes, All, append_assoc, append-nil, Bool-cases,
}
use old_pixel_gun_3d_online.Text.Utf8.{is_high, is_low}
use old_pixel_gun_3d_online.Text.Utf8.Reference.{
  pair, is_scalar, emit, decode_from, sanitize, surrogate_pair, or_replacement, sanitize-pair,
  sanitize_other,
}
use old_pixel_gun_3d_online.Text.Utf8.Encode.{encode, decode_encode, decode_surrogate}
use old_pixel_gun_3d_online.Text.Utf8.Loop.{
  code_points, encode_all, low_replaced, points_pair, points_plain, points_unpaired,
}

-- The last unit is the first half of a pair.
unfoldable pub ends_high : List ℕ → Bool
ends_high [] = false
ends_high (u ∷ []) = is_high u
ends_high (u ∷ v ∷ us) = ends_high (v ∷ us)

abbrev pub AllUnits : List ℕ → Type 0
AllUnits = All λ u. u < 65536

-- The tests of the code and of the reference.
module _ (u v : ℕ) where
  pair_of : is_high u ≡ true → is_low v ≡ true → surrogate_pair u v ≡ true
  pair_of h l = ground arith

  no_pair_low : is_low v ≡ false → surrogate_pair u v ≡ false
  no_pair_low l = ground arith

  no_pair_high : is_high u ≡ false → surrogate_pair u v ≡ false
  no_pair_high h = ground arith

high_replaced : (u : ℕ) → is_high u ≡ true → or_replacement u ≡ 0xfffd
high_replaced u h = ground arith

plain_replaced : (u : ℕ) → u < 65536 → is_high u ≡ false → low_replaced u ≡ or_replacement u
plain_replaced u b h = ground arith

-- A unit in front of another.
module _ (u v : ℕ) (us : List ℕ) (bound : u < 65536) where
  points-step :
      code_points (v ∷ us) ≡ sanitize (v ∷ us)
      → code_points us ≡ sanitize us
      → code_points (u ∷ v ∷ us) ≡ sanitize (u ∷ v ∷ us)
  points-step a b = elim (Bool-cases (is_high u)) [
    | inr plain ↦
        points_plain u v us plain
        ∙ cc (a, plain_replaced u bound plain)
        ∙ sym (sanitize_other u v us (no_pair_high u v plain))
    | inl high ↦ elim (Bool-cases (is_low v)) [
      | inl low ↦
          points_pair u v us high low
          ∙ ap (◌∷◌ (pair u v)) b
          ∙ sym (sanitize-pair u v us (pair_of u v high low))
      | inr other ↦
          points_unpaired u v us high other
          ∙ cc (a, high_replaced u high)
          ∙ sym (sanitize_other u v us (no_pair_low u v other))
    ]
  ]

ends_high-tail : (v : ℕ) (us : List ℕ) → ends_high (v ∷ us) ≡ false → ends_high us ≡ false
unfolding ends_high
ends_high-tail v [] h = refl
ends_high-tail v (w ∷ us) h = h

-- On texts that do not end in the first half of a pair the code follows the reference.
pub points-sanitize :
    (us : List ℕ) → AllUnits us → ends_high us ≡ false → code_points us ≡ sanitize us
unfolding code_points sanitize ends_high
points-sanitize [] b h = refl
points-sanitize (u ∷ []) b h = ground arith
points-sanitize (u ∷ v ∷ us) b h =
    points-step u v us b.0 (points-sanitize (v ∷ us) b.1 h)
      (points-sanitize us b.1.1 (ends_high-tail v us h))

abbrev pub AllScalar : List ℕ → Type 0
AllScalar = All λ c. is_scalar c ≡ true

replacement-scalar : (u : ℕ) → is_scalar (or_replacement u) ≡ true
replacement-scalar u = ground arith

pair-scalar : (u v : ℕ) → surrogate_pair u v ≡ true → is_scalar (pair u v) ≡ true
pair-scalar u v h = ground arith

module _ (u v : ℕ) (us : List ℕ) (bound : u < 65536) where
  sanitize-step :
      AllScalar (sanitize (v ∷ us)) → AllScalar (sanitize us) → AllScalar (sanitize (u ∷ v ∷ us))
  sanitize-step a b = elim (Bool-cases (surrogate_pair u v)) [
    | inl paired ↦ rw (sanitize-pair u v us paired) (pair-scalar u v paired, b)
    | inr other ↦ rw (sanitize_other u v us other) (replacement-scalar u, a)
  ]

pub sanitize-AllScalar : (us : List ℕ) → AllUnits us → AllScalar (sanitize us)
unfolding sanitize
sanitize-AllScalar [] b = tt
sanitize-AllScalar (u ∷ []) b = (replacement-scalar u, tt)
sanitize-AllScalar (u ∷ v ∷ us) b =
    sanitize-step u v us b.0 (sanitize-AllScalar (v ∷ us) b.1) (sanitize-AllScalar us b.1.1)

abbrev pub emits : List ℕ → Option (List ℕ) → Option (List ℕ)
emits [] r = r
emits (c ∷ cps) r = emit c (emits cps r)

pub emits-some : (cps ds : List ℕ) → emits cps (some ds) ≡ some (cps ++ ds)
emits-some [] ds = refl
emits-some (c ∷ cps) ds = rw (emits-some cps ds)

pub decode_all :
    (cps : List ℕ) (rest : Bytes)
    → AllScalar cps
    → decode_from 0 0 0 (encode_all cps ++ rest) ≡ emits cps (decode_from 0 0 0 rest)
unfolding encode_all
decode_all [] rest s = refl
decode_all (c ∷ cps) rest s =
    rw (append_assoc (encode c) (encode_all cps) rest)
      (decode_encode c _ s.0 ∙ ap (emit c) (decode_all cps rest s.1))

last_kept : (u : ℕ) → is_high u ≡ true → low_replaced u ≡ u
last_kept u h = ground arith

-- A high surrogate in the last place makes the bytes ill-formed.
ends_high_pair :
    (v : ℕ) (us : List ℕ) → is_low v ≡ true → ends_high (v ∷ us) ≡ true → ends_high us ≡ true
unfolding ends_high
ends_high_pair v [] l h = ground arith
ends_high_pair v (w ∷ us) l h = h

decode_cons :
    (c : ℕ) (cps : List ℕ) (rest : Bytes)
    → is_scalar c ≡ true
    → decode_from 0 0 0 (encode_all cps ++ rest) ≡ none
    → decode_from 0 0 0 (encode_all (c ∷ cps) ++ rest) ≡ none
unfolding encode_all
decode_cons c cps rest s h =
    rw (append_assoc (encode c) (encode_all cps) rest) (decode_encode c _ s ∙ ap (emit c) h)

pub points_ill_formed :
    (us : List ℕ) (rest : Bytes)
    → AllUnits us
    → ends_high us ≡ true
    → decode_from 0 0 0 (encode_all (code_points us) ++ rest) ≡ none
unfolding ends_high
points_ill_formed [] rest b h = cc
points_ill_formed (u ∷ []) rest b h =
    unfold encode_all code_points in
    rw (last_kept u h)
      (rw (append-nil (encode u)) (decode_surrogate u rest (ground arith) (ground arith)))
points_ill_formed (u ∷ v ∷ us) rest b h = elim (Bool-cases (is_high u)) [
  | inr plain ↦ rw (points_plain u v us plain) (
      decode_cons _ _ rest (ap is_scalar (plain_replaced u b.0 plain) ∙ replacement-scalar u)
        (points_ill_formed (v ∷ us) rest b.1 h))
  | inl high ↦ elim (Bool-cases (is_low v)) [
    | inl low ↦ rw (points_pair u v us high low) (
        decode_cons _ _ rest (pair-scalar u v (pair_of u v high low))
          (points_ill_formed us rest b.1.1 (ends_high_pair v us low h)))
    | inr other ↦
        rw (points_unpaired u v us high other)
          (decode_cons _ _ rest refl (points_ill_formed (v ∷ us) rest b.1 h))
  ]
]
