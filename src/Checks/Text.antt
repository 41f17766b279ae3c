-- ===== src/Checks/Text.antt =====
-- Texts: fingerprints and conversions.
use old_pixel_gun_3d_online.Base.{
  ◌≡◌, refl, ◌<◌, ◌≤◌, ◌++◌, ◌∷◌, ℕ, All, none, some, codes, length, arith, ◌==◌, if◌then◌else◌,
}
use old_pixel_gun_3d_online.Text.Fnv.{fnv1a, round, rounds, fnv1a_separates}
use old_pixel_gun_3d_online.Text.Utf8.{convert}
use old_pixel_gun_3d_online.Text.Utf8.Reference.{decode, sanitize}
use old_pixel_gun_3d_online.Text.Utf8.Laws.{ends_high}
use old_pixel_gun_3d_online.Text.Utf8.Convert.{
  suffix, decode-convert, convert_split_pair, convert_size,
}
use old_pixel_gun_3d_online.Text.Utf8.Loop.{units}

-- The published FNV-1a value of "foobar".
fnv1a_foobar : fnv1a (codes "foobar") ≡ 0xbf9cf968
unfolding fnv1a round rounds
fnv1a_foobar = refl

fnv1a_separates_example :
    (fnv1a (codes "app" ++ b'1' ∷ codes "-eu") < 4294967296)
    × (fnv1a (codes "app" ++ b'1' ∷ codes "-eu") ≡ fnv1a (codes "app" ++ b'2' ∷ codes "-eu")
        → ◌≡◌ {A = ℕ} b'1' b'2')
fnv1a_separates_example =
    fnv1a_separates (codes "app") b'1' b'2' (codes "-eu") (omega arith) (omega arith) (omega arith)

-- "A", the two halves of U+1F600, a lone low surrogate, and "B".
abbrev mixed : ℕ → ℕ
mixed i =
    if i == 0
    then 0x41
    else if i == 1
    then 0xd83d
    else if i == 2
    then 0xde00
    else if i == 3
    then 0xdc00
    else 0x42

mixed_bounded : (k : ℕ) → mixed k < 65536
mixed_bounded k = ground arith

mixed_converts :
    convert 5 mixed 4 ≡ 0x41 ∷ 0xf0 ∷ 0x9f ∷ 0x98 ∷ 0x80 ∷ 0xef ∷ 0xbf ∷ 0xbd ∷ codes "..."
unfolding convert
mixed_converts = refl

decode-convert_example :
    decode (convert 5 mixed 4) ≡ some (sanitize (units mixed 0 4) ++ suffix 4 5)
unfolding ends_high
decode-convert_example = decode-convert 5 mixed 4 mixed_bounded refl

-- The limit falls between the two halves of U+1F600.
convert_split_pair_example : decode (convert 5 mixed 2) ≡ none
unfolding ends_high
convert_split_pair_example = convert_split_pair 5 mixed 2 mixed_bounded refl

convert_size_example : All (λ b. b < 256) (convert 5 mixed 4) × (length (convert 5 mixed 4) ≤ 15)
convert_size_example = convert_size 5 mixed 4 mixed_bounded
