-- ===== src/Text/Utf8.antt =====
-- `append_utf8` and the loop of `to_utf8` in il2cpp.cpp: UTF-16 code units to UTF-8 bytes.
-- The null checks in front of the loop are in Il2cpp/Strings.
pub mod Reference
pub mod Encode
pub mod Loop
pub mod Laws
pub mod Convert
use Prim.Native.Nat.{bit_and, bit_or, min}
use old_pixel_gun_3d_online.Base.{
  ℕ, zero, suc, ◌+◌, ◌-◌, ◌*◌, ◌/◌, ◌%◌, ◌^◌, Bool, ◌&&◌, [], ◌∷◌, ◌++◌, Bytes, codes, ltb, leb,
  if◌then◌else◌,
}

-- `static_cast<char>`, as an unsigned byte.
abbrev char : ℕ → ℕ
char n = n % 2 ^ 8

unfoldable pub append_utf8 : Bytes → ℕ → Bytes
append_utf8 out cp =
    if leb cp 0x7f
    then out ++ char cp ∷ []
    else if leb cp 0x7ff
    then out ++ char (bit_or 0xc0 (cp / 2 ^ 6)) ∷ char (bit_or 0x80 (bit_and cp 0x3f)) ∷ []
    else if leb cp 0xffff
    then out
      ++ char (bit_or 0xe0 (cp / 2 ^ 12))
        ∷ char (bit_or 0x80 (bit_and (cp / 2 ^ 6) 0x3f))
        ∷ char (bit_or 0x80 (bit_and cp 0x3f))
        ∷ []
    else out
      ++ char (bit_or 0xf0 (cp / 2 ^ 18))
        ∷ char (bit_or 0x80 (bit_and (cp / 2 ^ 12) 0x3f))
        ∷ char (bit_or 0x80 (bit_and (cp / 2 ^ 6) 0x3f))
        ∷ char (bit_or 0x80 (bit_and cp 0x3f))
        ∷ []

abbrev pub is_high : ℕ → Bool
is_high u = leb 0xd800 u && leb u 0xdbff

abbrev pub is_low : ℕ → Bool
is_low u = leb 0xdc00 u && leb u 0xdfff

-- The body of the `for` loop at index `i`: the code point, and how far `i` moves, `++i` included.
unfoldable pub next_code_point : (ℕ → ℕ) → ℕ → ℕ → ℕ × ℕ
next_code_point chars limit i =
    let cp = chars i in
    if is_high cp && ltb (i + 1) limit
    then (let low = chars (i + 1) in
        if is_low low then (0x10000 + (cp - 0xd800) * 2 ^ 10 + (low - 0xdc00), 2) else (0xfffd, 1))
    else if is_low cp
    then (0xfffd, 1)
    else (cp, 1)

-- The loop, with fuel for its rounds: each moves `i`, so `limit - i` rounds are enough.
unfoldable pub loop : ℕ → (ℕ → ℕ) → ℕ → ℕ → Bytes → Bytes
loop zero chars limit i result = result
loop (suc fuel) chars limit i result =
    let (cp, step) = next_code_point chars limit i in
    let rest = loop fuel chars limit (i + step) (append_utf8 result cp) in
    if ltb i limit then rest else result

-- From `const size_t length` to the return.
unfoldable pub convert : ℕ → (ℕ → ℕ) → ℕ → Bytes
unfolding loop next_code_point append_utf8
convert length chars max_code_units =
    let limit = min length max_code_units in
    let result = loop limit chars limit 0 [] in
    if ltb limit length then result ++ codes "..." else result
