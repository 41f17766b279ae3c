-- ===== src/Text/Utf8/Encode.antt =====
-- What `append_utf8` appends, as arithmetic, and that the strict decoder reads it back.
use Prim.Native.Nat.{bit_and, bit_or}
use old_pixel_gun_3d_online.Base.{
  ℕ, suc, ◌+◌, ◌*◌, ◌/◌, ◌%◌, ◌<◌, ◌≤◌, ◌≡◌, refl, ap, true, false, ◌∙◌, none, [], ◌∷◌, ◌++◌, arith,
  Bytes, ◌==◌, ==_iff,
}
use native.Mathlib.Decide.{dec_lt}
use old_pixel_gun_3d_online.Base.Bits.{all_under_lem, and_63}
use old_pixel_gun_3d_online.Text.Utf8.{append_utf8}
use old_pixel_gun_3d_online.Text.Utf8.Reference.{is_scalar, emit, decode_from, lead, ascii, more}

abbrev pub encode : ℕ → Bytes
encode cp = append_utf8 [] cp

pub append_utf8_lem : (out : Bytes) (cp : ℕ) → append_utf8 out cp ≡ out ++ encode cp
unfolding append_utf8
append_utf8_lem out cp = ground arith

or_80 : (x : ℕ) → bit_or 0x80 (bit_and x 0x3f) ≡ 0x80 + x % 64
or_80 x =
    rw and_63
      ((==_iff _ _).0 (all_under_lem (λ y. bit_or 0x80 y == 0x80 + y) 64 refl (omega arith)))

or_c0 : (x : ℕ) → x < 32 → bit_or 0xc0 x ≡ 0xc0 + x
or_c0 x h = (==_iff _ _).0 (all_under_lem (λ y. bit_or 0xc0 y == 0xc0 + y) 32 refl h)

or_e0 : (x : ℕ) → x < 16 → bit_or 0xe0 x ≡ 0xe0 + x
or_e0 x h = (==_iff _ _).0 (all_under_lem (λ y. bit_or 0xe0 y == 0xe0 + y) 16 refl h)

or_f0 : (x : ℕ) → x < 8 → bit_or 0xf0 x ≡ 0xf0 + x
or_f0 x h = (==_iff _ _).0 (all_under_lem (λ y. bit_or 0xf0 y == 0xf0 + y) 8 refl h)

encode-one : (cp : ℕ) → cp < 0x80 → encode cp ≡ cp ∷ []
unfolding append_utf8
encode-one cp h = ground arith

encode-two :
    (cp : ℕ) → 0x80 ≤ cp → cp < 0x800 → encode cp ≡ (0xc0 + cp / 64) ∷ (0x80 + cp % 64) ∷ []
unfolding append_utf8
encode-two cp l h = ground (arith, or_c0 (cp / 64), or_80 cp)

encode-three :
    (cp : ℕ)
    → 0x800 ≤ cp
    → cp < 0x10000
    → encode cp ≡ (0xe0 + cp / 4096) ∷ (0x80 + cp / 64 % 64) ∷ (0x80 + cp % 64) ∷ []
unfolding append_utf8
encode-three cp l h = ground (arith, or_e0 (cp / 4096), or_80 (cp / 64), or_80 cp)

encode-four :
    (cp : ℕ)
    → 0x10000 ≤ cp
    → cp < 0x200000
    → encode cp
      ≡ (0xf0 + cp / 262144)
        ∷ (0x80 + cp / 4096 % 64)
        ∷ (0x80 + cp / 64 % 64)
        ∷ (0x80 + cp % 64)
        ∷ []
unfolding append_utf8
encode-four cp l h =
    ground (arith, or_f0 (cp / 262144), or_80 (cp / 4096), or_80 (cp / 64), or_80 cp)

lead_two : (p : ℕ) → p < 32 → lead (0xc0 + p) ≡ more 1 p 0x80
unfolding lead
lead_two p h = ground arith

lead_three : (p : ℕ) → p < 16 → lead (0xe0 + p) ≡ more 2 p 0x800
unfolding lead
lead_three p h = ground arith

lead_four : (p : ℕ) → p < 8 → lead (0xf0 + p) ≡ more 3 p 0x10000
unfolding lead
lead_four p h = ground arith

lead_one : (p : ℕ) → p < 0x80 → lead p ≡ ascii
unfolding lead
lead_one p h = ground arith

-- One step of the decoder, at each kind of byte.
module _ (bs : Bytes) where
  step_lead_two :
      (acc low p : ℕ) → p < 32 → decode_from 0 acc low ((0xc0 + p) ∷ bs) ≡ decode_from 1 p 0x80 bs
  unfolding decode_from
  step_lead_two acc low p h = rw (lead_two p h, decode_from)

  step_lead_three :
      (acc low p : ℕ) → p < 16 → decode_from 0 acc low ((0xe0 + p) ∷ bs) ≡ decode_from 2 p 0x800 bs
  unfolding decode_from
  step_lead_three acc low p h = rw (lead_three p h, decode_from)

  step_lead_four :
      (acc low p : ℕ) → p < 8 → decode_from 0 acc low ((0xf0 + p) ∷ bs) ≡ decode_from 3 p 0x10000 bs
  unfolding decode_from
  step_lead_four acc low p h = rw (lead_four p h, decode_from)

  step_next :
      (n acc low x : ℕ)
      → x < 64
      → decode_from (suc (suc n)) acc low ((0x80 + x) ∷ bs)
        ≡ decode_from (suc n) (acc * 64 + x) low bs
  unfolding decode_from
  step_next n acc low x h = ground arith

  step_last :
      (acc low x : ℕ)
      → x < 64
      → low ≤ acc * 64 + x
      → is_scalar (acc * 64 + x) ≡ true
      → decode_from 1 acc low ((0x80 + x) ∷ bs) ≡ emit (acc * 64 + x) (decode_from 0 0 0 bs)
  unfolding decode_from
  step_last acc low x h l s = ground arith

  step_last_bad :
      (acc low x : ℕ)
      → x < 64
      → is_scalar (acc * 64 + x) ≡ false
      → decode_from 1 acc low ((0x80 + x) ∷ bs) ≡ none
  unfolding decode_from
  step_last_bad acc low x h s = ground arith

module _ (cp : ℕ) (rest : Bytes) where
  decode_one : cp < 0x80 → decode_from 0 0 0 (encode cp ++ rest) ≡ emit cp (decode_from 0 0 0 rest)
  unfolding decode_from
  decode_one h = rw (encode-one cp h) (rw (lead_one cp h, decode_from))

  decode_two :
      0x80 ≤ cp
      → cp < 0x800
      → decode_from 0 0 0 (encode cp ++ rest) ≡ emit cp (decode_from 0 0 0 rest)
  decode_two l h = rw (encode-two cp l h) (
      step_lead_two _ 0 0 (cp / 64) (omega arith)
      ∙ step_last rest (cp / 64) 0x80 (cp % 64) (omega arith) (omega arith) (ground arith)
      ∙ ap (λ (c : ℕ). emit c (decode_from 0 0 0 rest)) (omega arith))

  decode_three :
      0x800 ≤ cp
      → cp < 0x10000
      → is_scalar cp ≡ true
      → decode_from 0 0 0 (encode cp ++ rest) ≡ emit cp (decode_from 0 0 0 rest)
  decode_three l h s = rw (encode-three cp l h) (
      step_lead_three _ 0 0 (cp / 4096) (omega arith)
      ∙ step_next _ 0 (cp / 4096) 0x800 (cp / 64 % 64) (omega arith)
      ∙ step_last rest (cp / 4096 * 64 + cp / 64 % 64) 0x800 (cp % 64) (omega arith) (omega arith)
          (ap is_scalar whole ∙ s)
      ∙ ap (λ (c : ℕ). emit c (decode_from 0 0 0 rest)) whole)
    where
      whole : (cp / 4096 * 64 + cp / 64 % 64) * 64 + cp % 64 ≡ cp
      whole = omega arith

  -- A surrogate is encoded in three bytes that the decoder refuses.
  pub decode_surrogate : 0xd800 ≤ cp → cp < 0xe000 → decode_from 0 0 0 (encode cp ++ rest) ≡ none
  decode_surrogate l h = rw (encode-three cp (omega arith) (omega arith)) (
      step_lead_three _ 0 0 (cp / 4096) (omega arith)
      ∙ step_next _ 0 (cp / 4096) 0x800 (cp / 64 % 64) (omega arith)
      ∙ step_last_bad rest (cp / 4096 * 64 + cp / 64 % 64) 0x800 (cp % 64) (omega arith)
          (ap is_scalar whole ∙ ground arith))
    where
      whole : (cp / 4096 * 64 + cp / 64 % 64) * 64 + cp % 64 ≡ cp
      whole = omega arith

  decode_four :
      0x10000 ≤ cp
      → cp < 0x110000
      → decode_from 0 0 0 (encode cp ++ rest) ≡ emit cp (decode_from 0 0 0 rest)
  decode_four l h = rw (encode-four cp l (omega arith)) (
      step_lead_four _ 0 0 (cp / 262144) (omega arith)
      ∙ step_next _ 1 (cp / 262144) 0x10000 (cp / 4096 % 64) (omega arith)
      ∙ step_next _ 0 (cp / 262144 * 64 + cp / 4096 % 64) 0x10000 (cp / 64 % 64) (omega arith)
      ∙ step_last rest ((cp / 262144 * 64 + cp / 4096 % 64) * 64 + cp / 64 % 64) 0x10000 (cp % 64)
          (omega arith) (omega arith) (ap is_scalar whole ∙ ground arith)
      ∙ ap (λ (c : ℕ). emit c (decode_from 0 0 0 rest)) whole)
    where
      whole : ((cp / 262144 * 64 + cp / 4096 % 64) * 64 + cp / 64 % 64) * 64 + cp % 64 ≡ cp
      whole = omega arith

  -- The decoder reads every scalar value back from its encoding, whatever follows.
  pub decode_encode :
      is_scalar cp ≡ true → decode_from 0 0 0 (encode cp ++ rest) ≡ emit cp (decode_from 0 0 0 rest)
  decode_encode s = elim (dec_lt cp 0x80) [
    | yes a ↦ decode_one a
    | no a ↦ elim (dec_lt cp 0x800) [
      | yes b ↦ decode_two (omega arith) b
      | no b ↦ elim (dec_lt cp 0x10000) [
        | yes c ↦ decode_three (omega arith) c s
        | no c ↦ decode_four (omega arith) (ground arith)
      ]
    ]
  ]
