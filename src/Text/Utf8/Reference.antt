-- ===== src/Text/Utf8/Reference.antt =====
-- An independent description of the two encodings: a strict UTF-8 decoder, which refuses overlong
-- forms, surrogates and what lies above U+10FFFF, and UTF-16 decoding that replaces each unpaired
-- surrogate by U+FFFD.
use old_pixel_gun_3d_online.Base.{
  ℕ, zero, suc, ◌+◌, ◌-◌, ◌*◌, ◌≡◌, arith, Bool, true, false, ◌&&◌, ◌||◌, Option, none, some, List,
  [], ◌∷◌, Bytes, ltb, leb, if◌then◌else◌,
}

abbrev pub is_scalar : ℕ → Bool
is_scalar cp = ltb cp 0xd800 || (leb 0xe000 cp && leb cp 0x10ffff)

-- What a first byte announces: the number of bytes that follow, its payload, the least code point.
pub data Lead : Type 0 where
  ascii : Lead
  more : ℕ → ℕ → ℕ → Lead
  bad : Lead

unfoldable pub lead : ℕ → Lead
lead b =
    if ltb b 0x80
    then ascii
    else if ltb b 0xc0
    then bad
    else if ltb b 0xe0
    then more 1 (b - 0xc0) 0x80
    else if ltb b 0xf0
    then more 2 (b - 0xe0) 0x800
    else if ltb b 0xf8
    then more 3 (b - 0xf0) 0x10000
    else bad

abbrev pub emit : ℕ → Option (List ℕ) → Option (List ℕ)
emit cp none = none
emit cp (some cps) = some (cp ∷ cps)

abbrev is_continuation : ℕ → Bool
is_continuation b = leb 0x80 b && ltb b 0xc0

-- `needed` bytes of a sequence are still to come, `acc` is its payload so far.
unfoldable pub decode_from : ℕ → ℕ → ℕ → Bytes → Option (List ℕ)
unfolding lead
decode_from zero acc least [] = some []
decode_from (suc n) acc least [] = none
decode_from zero acc least (b ∷ bs) = elim (lead b) [
  | ascii ↦ emit b (decode_from 0 0 0 bs)
  | more n payload low ↦ decode_from n payload low bs
  | bad ↦ none
]
decode_from (suc zero) acc least (b ∷ bs) =
    let cp = acc * 64 + (b - 0x80) in
    let rest = emit cp (decode_from 0 0 0 bs) in
    if is_continuation b && leb least cp && is_scalar cp then rest else none
decode_from (suc (suc n)) acc least (b ∷ bs) =
    let rest = decode_from (suc n) (acc * 64 + (b - 0x80)) least bs in
    if is_continuation b then rest else none

unfoldable pub decode : Bytes → Option (List ℕ)
unfolding decode_from
decode bytes = decode_from 0 0 0 bytes

abbrev pub surrogate_pair : ℕ → ℕ → Bool
surrogate_pair u v = leb 0xd800 u && ltb u 0xdc00 && leb 0xdc00 v && ltb v 0xe000

abbrev pub or_replacement : ℕ → ℕ
or_replacement u = if is_scalar u then u else 0xfffd

abbrev pub pair : ℕ → ℕ → ℕ
pair high low = 0x10000 + (high - 0xd800) * 1024 + (low - 0xdc00)

unfoldable pub sanitize : List ℕ → List ℕ
sanitize [] = []
sanitize (u ∷ []) = or_replacement u ∷ []
sanitize (u ∷ v ∷ us) = elim (surrogate_pair u v) [
  | true ↦ pair u v ∷ sanitize us
  | false ↦ or_replacement u ∷ sanitize (v ∷ us)
]

module _ (u v : ℕ) (us : List ℕ) where
  pub sanitize-pair : surrogate_pair u v ≡ true → sanitize (u ∷ v ∷ us) ≡ pair u v ∷ sanitize us
  unfolding sanitize
  sanitize-pair h = ground arith

  pub sanitize_other :
      surrogate_pair u v ≡ false → sanitize (u ∷ v ∷ us) ≡ or_replacement u ∷ sanitize (v ∷ us)
  unfolding sanitize
  sanitize_other h = ground arith
