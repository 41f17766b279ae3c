-- ===== src/Symbolize/Callsite.antt =====
-- The tool reads back the place that log.h has spelled into a line.
use old_pixel_gun_3d_online.Base.{
  ℕ, zero, suc, ◌-◌, ◌/◌, ◌%◌, ◌^◌, ◌≤◌, ◌<◌, ◌≡◌, ◌≢◌, refl, ap, ◌∙◌, inl, inr, true, false, leb,
  ltb, not, ◌&&◌, ◌==◌, is_null, some, none, [], ◌∷◌, ◌++◌, append_assoc, Bytes, All, codes, Ptr,
  arith, Bool-cases,
}
use old_pixel_gun_3d_online.Base.Lists.{All-append}
use old_pixel_gun_3d_online.State.{Level}
use old_pixel_gun_3d_online.Text.Digits.{
  spell, digit, hexadecimal, is_hex, int16, int16-spell, spell-All,
}
use old_pixel_gun_3d_online.ElfSym.Names.{from_file}
use old_pixel_gun_3d_online.Log.{
  System, DlInfo, Logger, Entry, inside, base_name, even_address, place_of, print,
}
use old_pixel_gun_3d_online.Log.Spelling.{spell_front, spell_line}
use old_pixel_gun_3d_online.Log.Spelling.Front.{All-map, spell_front-Skipped, head, line_head}
use old_pixel_gun_3d_online.Symbolize.{Unicode, is_nil, first_of, hex_run, callsite_at, callsite}

hex_digit : (d : ℕ) → d < 16 → (is_hex (digit d) ≡ true) × (digit d < 128)
hex_digit d b = (ground arith, ground arith)

-- A hexadecimal digit.
abbrev IsHex : ℕ → Type 0
IsHex c = (is_hex c ≡ true) × (c < 128)

hexadecimal-IsHex : (n : ℕ) → All IsHex (hexadecimal n)
hexadecimal-IsHex n = spell-All IsHex 16 16 n [] (λ m. omega arith) hex_digit tt

-- A run of digits ends in front of the bracket.
hex_run-IsHex : (run rest : Bytes) → All IsHex run → hex_run (run ++ 93 ∷ rest) ≡ (run, 93 ∷ rest)
hex_run-IsHex [] rest h = refl
hex_run-IsHex (c ∷ run) rest ((x, b), h) = rw (hex_run-IsHex run rest h, x) refl

other : (c : ℕ) → c ≢ 112 → (112 == c) ≡ false
other c ne = ground arith

-- A number has a digit.
is_nil-spell :
    (base places n d : ℕ) (behind : Bytes) → is_nil (spell base places n (d ∷ behind)) ≡ false
unfolding spell
is_nil-spell base zero n d behind = refl
is_nil-spell base (suc places) n d behind = elim (Bool-cases (ltb n base)) [
  | inl e ↦ rw e refl
  | inr e ↦ rw e (is_nil-spell base places (n / base) (digit (n % base)) (d ∷ behind))
]

is_nil-hexadecimal : (n : ℕ) → is_nil (hexadecimal n) ≡ false
unfolding spell
is_nil-hexadecimal n = elim (Bool-cases (ltb n 16)) [
  | inl e ↦ rw e refl
  | inr e ↦ rw e (is_nil-spell 16 15 (n / 16) (digit (n % 16)) [])
]

module _ (U : Unicode) where
  callsite_at-other : (c : ℕ) (text : Bytes) → c ≢ 112 → callsite_at U (c ∷ text) ≡ none
  callsite_at-other c text ne = rw (other c ne) refl

  callsite_skips :
      (before text : Bytes)
      → All (λ c. c ≢ 112) before
      → callsite U (before ++ text) ≡ callsite U text
  unfolding callsite
  callsite_skips [] text h = refl
  callsite_skips (c ∷ before) text (ne, h) =
      ap (λ here. first_of here (callsite U (before ++ text)))
        (callsite_at-other c (before ++ text) ne)
      ∙ callsite_skips before text h

  callsite_at-here :
      (run rest : Bytes)
      → All IsHex run
      → is_nil run ≡ false
      → callsite_at U (codes "pc=libil2cpp.so+0x" ++ (run ++ 93 ∷ rest)) ≡ some (int16 0 run)
  callsite_at-here run rest h there = rw (hex_run-IsHex run rest h, there) refl

  callsite_here :
      (run rest : Bytes)
      → All IsHex run
      → is_nil run ≡ false
      → callsite U (codes "pc=libil2cpp.so+0x" ++ (run ++ 93 ∷ rest)) ≡ some (int16 0 run)
  unfolding callsite
  callsite_here run rest h there =
      ap (λ here. first_of here (callsite U (codes "c=libil2cpp.so+0x" ++ (run ++ 93 ∷ rest))))
        (callsite_at-here run rest h there)

joined_text :
    (before f p h rest : Bytes)
    → before ++ ((f ++ (p ++ (h ++ 93 ∷ []))) ++ rest) ≡ before ++ (f ++ (p ++ (h ++ 93 ∷ rest)))
joined_text before f p h rest = simp append_assoc

callsite-head :
    (U : Unicode) (before rest : Bytes) (e : Entry) (rva : ℕ)
    → All (λ c. c ≢ 112) before
    → rva < 16 ^ 16
    → callsite U (before ++ (head e rva ++ rest)) ≡ some rva
unfolding int16
callsite-head U before rest e rva h b =
    ap (callsite U)
      (joined_text before (spell_front e) (codes "pc=libil2cpp.so+0x") (hexadecimal rva) rest)
    ∙ callsite_skips U before _ h
    ∙ callsite_skips U (spell_front e) _
        (All-map (spell_front e) (λ c s. s.1) (spell_front-Skipped e))
    ∙ callsite_here U (hexadecimal rva) rest (hexadecimal-IsHex rva) (is_nil-hexadecimal rva)
    ∙ ap some (int16-spell 16 rva [] b)

head-Ascii : (e : Entry) (rva : ℕ) → All (λ c. c < 128) (head e rva)
head-Ascii e rva =
    All-append (λ c. c < 128) (spell_front e)
      (codes "pc=libil2cpp.so+0x" ++ (hexadecimal rva ++ 93 ∷ []))
      (All-map (spell_front e) (λ c s. s.0) (spell_front-Skipped e))
      (All-append (λ c. c < 128) (codes "pc=libil2cpp.so+0x") (hexadecimal rva ++ 93 ∷ [])
        (ground arith)
        (All-append (λ c. c < 128) (hexadecimal rva) (93 ∷ [])
          (All-map (hexadecimal rva) (λ c s. s.1) (hexadecimal-IsHex rva)) (omega arith, tt)))

il2cpp-Plain : All (λ b. b ≢ 47) (codes "libil2cpp.so")
il2cpp-Plain = ground arith

base_name-il2cpp :
    (dir : Bytes) → base_name (some (dir ++ 47 ∷ codes "libil2cpp.so")) ≡ codes "libil2cpp.so"
unfolding base_name
base_name-il2cpp [] =
    from_file (47 ∷ codes "libil2cpp.so") (codes "libil2cpp.so") il2cpp-Plain (inr ([], refl))
base_name-il2cpp (b ∷ dir) =
    from_file (b ∷ dir ++ 47 ∷ codes "libil2cpp.so") (codes "libil2cpp.so") il2cpp-Plain
      (inr (b ∷ dir, refl))

both_there :
    (base pc : Ptr)
    → is_null base ≡ false
    → base ≤ pc
    → (not (is_null pc) && not (is_null base)) ≡ true
both_there base pc there below = ground arith

starts_below : (base pc : Ptr) → base ≤ pc → leb base pc ≡ true
starts_below base pc below = ground arith

-- The place of a caller in libil2cpp.so.
module _ {W : Type 0} (S : System W) where
  il2cpp_place :
      (pc : Ptr) (dir : Bytes) (info : DlInfo)
      → info.dli_fname ≡ some (dir ++ 47 ∷ codes "libil2cpp.so")
      → is_null info.dli_fbase ≡ false
      → info.dli_fbase ≤ pc
      → place_of S pc (some info) ≡ inside (codes "libil2cpp.so") (pc - info.dli_fbase)
  unfolding place_of
  il2cpp_place pc dir info path there below =
      rw (both_there info.dli_fbase pc there below, starts_below info.dli_fbase pc below)
        (ap (λ name. inside name (pc - info.dli_fbase)) (ap base_name path ∙ base_name-il2cpp dir))

  print-place :
      (priority : Level) (return_address : Ptr) (text : Bytes) (w : W) (l : Logger)
      → (print S priority return_address text w l).0.place
        ≡ place_of S
            (even_address return_address)
            (S.dladdr (even_address return_address) (print S priority return_address text w l).2)
  unfolding print
  print-place priority return_address text w l = refl

  module _ (U : Unicode) (decode : Bytes → Bytes)
      (keeps_ascii : (xs ys : Bytes)
        → All (λ c. c < 128) xs
        → decode (xs ++ ys) ≡ xs ++ decode ys) where
    -- A line that `print` writes for a caller in libil2cpp.so: dladdr knows the module of the even
    -- return address, the module's path ends in `/libil2cpp.so`, and its base is not null and not
    -- above the address. Then, with a prefix without a `p` in front, as logcat has one, and after a
    -- decoding that keeps the ASCII at the start of a text, the first match of the tool's pattern is
    -- in the line's own place, whatever the message, and gives the address's offset in the module.
    pub print-callsite :
        (priority : Level) (return_address : Ptr) (text : Bytes) (w : W) (l : Logger)
        (before dir : Bytes) (info : DlInfo)
        → return_address < 2 ^ 64
        → S.dladdr (even_address return_address) (print S priority return_address text w l).2
          ≡ some info
        → info.dli_fname ≡ some (dir ++ 47 ∷ codes "libil2cpp.so")
        → is_null info.dli_fbase ≡ false
        → info.dli_fbase ≤ even_address return_address
        → All (λ c. c ≢ 112) before
        → callsite U (before ++ decode (spell_line (print S priority return_address text w l).0))
          ≡ some (even_address return_address - info.dli_fbase)
    print-callsite priority return_address text w l before dir info fits found path there below h =
        let line = (print S priority return_address text w l).0 in
        let rva = even_address return_address - info.dli_fbase in
        let here : line.place ≡ inside (codes "libil2cpp.so") rva =
          print-place priority return_address text w l
          ∙ ap (place_of S (even_address return_address)) found
          ∙ il2cpp_place (even_address return_address) dir info path there below in
        let (rest, spelled) = line_head line rva here in
        ap (λ (shown : Bytes). callsite U (before ++ shown))
          (ap decode spelled ∙ keeps_ascii (head line rva) rest (head-Ascii line rva))
        ∙ callsite-head U before (decode rest) line rva h (omega (arith, fits))
