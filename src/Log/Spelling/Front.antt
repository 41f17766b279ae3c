-- ===== src/Log/Spelling/Front.antt =====
-- What stands at the start of a spelled line, and that it is never cut off.
use old_pixel_gun_3d_online.Base.{
  ℕ, zero, suc, ◌+◌, ◌-◌, ◌≤◌, ◌<◌, ◌≡◌, ◌≢◌, refl, ap, ◌∙◌, [], ◌∷◌, ◌++◌, append_assoc, Bytes,
  All, codes, length, take, replicate, arith,
}
use old_pixel_gun_3d_online.Base.Lists.{length-append, All-append}
use old_pixel_gun_3d_online.Text.Digits.{digit, decimal, hexadecimal, spell-All, length-spell}
use old_pixel_gun_3d_online.Log.{Entry, inside}
use old_pixel_gun_3d_online.Log.Spelling.{zero_padded, spell_place, spell_front, spell_line}

-- An ASCII character other than `p`.
abbrev pub Skipped : ℕ → Type 0
Skipped c = (c < 128) × (c ≢ 112)

pub All-map : {P Q : ℕ → Type 0} (xs : Bytes) → ((c : ℕ) → P c → Q c) → All P xs → All Q xs
All-map [] f h = tt
All-map (x ∷ xs) f (p, h) = (f x p, All-map xs f h)

minus_zero : (n : ℕ) → n - 0 ≡ n
minus_zero n = omega arith

take-append :
    (n : ℕ) (xs ys : Bytes) → length xs ≤ n → take n (xs ++ ys) ≡ xs ++ take (n - length xs) ys
take-append n [] ys b = rw (minus_zero n) refl
take-append zero (x ∷ xs) ys b = absurd (omega arith)
take-append (suc n) (x ∷ xs) ys b =
    ap (λ zs. x ∷ zs)
      (take-append n xs ys (omega (arith, b)) ∙ ap (λ k. xs ++ take k ys) (omega arith))

digit-Skipped : (d : ℕ) → d < 10 → Skipped (digit d)
digit-Skipped d b = ground arith

decimal-Skipped : (n : ℕ) → All Skipped (decimal n)
decimal-Skipped n = spell-All Skipped 10 20 n [] (λ m. omega arith) digit-Skipped tt

zeros-Skipped : (n : ℕ) → All Skipped (replicate n 48)
zeros-Skipped zero = tt
zeros-Skipped (suc n) = ((omega arith, omega arith), zeros-Skipped n)

zero_padded-Skipped :
    (width : ℕ) (digits : Bytes) → All Skipped digits → All Skipped (zero_padded width digits)
zero_padded-Skipped width digits h =
    All-append Skipped (replicate (width - length digits) 48) digits (zeros-Skipped _) h

length-zeros : (n : ℕ) → length {A = ℕ} (replicate n 48) ≡ n
length-zeros zero = refl
length-zeros (suc n) = omega (arith, length-zeros n)

length-zero_padded : (width n : ℕ) → length (zero_padded width (decimal n)) ≤ width + 20
length-zero_padded width n = omega (
  arith,
  length-append (replicate (width - length (decimal n)) 48) (decimal n),
  length-zeros (width - length (decimal n)),
  length-spell 10 20 n [],
)

length-append_bytes : (xs ys : Bytes) → length (xs ++ ys) ≡ length xs + length ys
length-append_bytes = length-append

-- The seven parts of the front.
module _ (a b c d e f g : Bytes) where
  parts-Skipped :
      All Skipped a
      → All Skipped b
      → All Skipped c
      → All Skipped d
      → All Skipped e
      → All Skipped f
      → All Skipped g
      → All Skipped (a ++ b ++ c ++ d ++ e ++ f ++ g)
  parts-Skipped ha hb hc hd he hf hg =
      both _ g (both _ f (both _ e (both _ d (both _ c (both a b ha hb) hc) hd) he) hf) hg
    where
      both : (xs ys : Bytes) → All Skipped xs → All Skipped ys → All Skipped (xs ++ ys)
      both = All-append Skipped

  length-parts :
      length (a ++ b ++ c ++ d ++ e ++ f ++ g)
      ≡ length a + length b + length c + length d + length e + length f + length g
  length-parts = omega (arith, length-append_bytes)

pub spell_front-Skipped : (e : Entry) → All Skipped (spell_front e)
spell_front-Skipped e =
    parts-Skipped (codes "[#") (zero_padded 6 (decimal e.sequence)) (codes " +")
      (zero_padded 6 (decimal e.elapsed)) (codes "ms tid=") (decimal e.thread_id) (codes " ")
      (ground arith) (zero_padded-Skipped 6 _ (decimal-Skipped e.sequence)) (ground arith)
      (zero_padded-Skipped 6 _ (decimal-Skipped e.elapsed)) (ground arith)
      (decimal-Skipped e.thread_id) (ground arith)

length-spell_front : (e : Entry) → length (spell_front e) ≤ 100
length-spell_front e = omega (
  arith,
  length-parts (codes "[#") (zero_padded 6 (decimal e.sequence)) (codes " +")
      (zero_padded 6 (decimal e.elapsed)) (codes "ms tid=") (decimal e.thread_id) (codes " "),
  length-zero_padded 6 e.sequence,
  length-zero_padded 6 e.elapsed,
  length-spell 10 20 e.thread_id [],
)

-- What a line starts with, up to the bracket behind a place in libil2cpp.so.
abbrev pub head : Entry → ℕ → Bytes
head e rva = spell_front e ++ (codes "pc=libil2cpp.so+0x" ++ (hexadecimal rva ++ 93 ∷ []))

joined_line :
    (f p h message : Bytes)
    → f ++ (p ++ h) ++ codes "] " ++ message ≡ (f ++ (p ++ (h ++ 93 ∷ []))) ++ 32 ∷ message
joined_line f p h message = simp append_assoc

cut :
    (n : ℕ) (f p h message : Bytes)
    → length f + length p + length h + 1 ≤ n
    → take n (f ++ (p ++ h) ++ codes "] " ++ message)
      ≡ (f ++ (p ++ (h ++ 93 ∷ [])))
        ++ take (n - length (f ++ (p ++ (h ++ 93 ∷ [])))) (32 ∷ message)
cut n f p h message b =
    ap (take n) (joined_line f p h message)
    ∙ take-append n (f ++ (p ++ (h ++ 93 ∷ []))) (32 ∷ message)
        (omega (arith, b, length-append_bytes))

-- The end of the line is cut off behind the place.
pub line_head :
    (e : Entry) (rva : ℕ)
    → e.place ≡ inside (codes "libil2cpp.so") rva
    → (rest : Bytes) × (spell_line e ≡ head e rva ++ rest)
unfolding spell_line
line_head e rva here = (
  _,
  ap (λ p. take 4095 (spell_front e ++ spell_place p ++ codes "] " ++ e.message)) here
      ∙ cut 4095 (spell_front e) (codes "pc=libil2cpp.so+0x") (hexadecimal rva) e.message
          (omega (arith, length-spell_front e, length-spell 16 16 rva [])),
)
