-- ===== src/Log/Spelling.antt =====
-- The line that `print` hands to `__android_log_write`: the fields of an `Entry`, spelled by snprintf.
pub mod Front
use old_pixel_gun_3d_online.Base.{ℕ, ◌-◌, ◌++◌, Bytes, codes, length, take, replicate}
use old_pixel_gun_3d_online.Text.Digits.{decimal, hexadecimal}
use old_pixel_gun_3d_online.Log.{Place, inside, at, Entry}

-- `%0*u`
abbrev pub zero_padded : ℕ → Bytes → Bytes
zero_padded width digits = replicate (width - length digits) 48 ++ digits

-- `pc=%s+0x%x`, or `pc=0x%x`
abbrev pub spell_place : Place → Bytes
spell_place (inside name rva) = codes "pc=" ++ name ++ codes "+0x" ++ hexadecimal rva
spell_place (at pc) = codes "pc=0x" ++ hexadecimal pc

-- What stands in front of the place.
abbrev pub spell_front : Entry → Bytes
spell_front e =
    codes "[#"
    ++ zero_padded 6 (decimal e.sequence)
    ++ codes " +"
    ++ zero_padded 6 (decimal e.elapsed)
    ++ codes "ms tid="
    ++ decimal e.thread_id
    ++ codes " "

-- `char line[4096]`
unfoldable pub spell_line : Entry → Bytes
spell_line e = take 4095 (spell_front e ++ spell_place e.place ++ codes "] " ++ e.message)
