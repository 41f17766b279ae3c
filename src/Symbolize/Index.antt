-- ===== src/Symbolize/Index.antt =====
-- `RvaIndex` of tools/symbolize_log.py: the method that starts nearest below an offset.
pub mod Names
pub mod Nearest
use old_pixel_gun_3d_online.Base.{
  ℕ, zero, suc, ◌-◌, Bool, true, false, ◌==◌, ltb, leb, Option, none, some, List, [], ◌∷◌, ◌++◌,
  Bytes, codes, length, take, if◌then◌else◌,
}
use old_pixel_gun_3d_online.Text.Digits.{spell}

pub record Method : Type 0 where
  pub rva : ℕ
  pub qualified_name : Bytes

-- `sorted(grouped)`: the offsets, ascending and each one once.
abbrev pub insert : ℕ → List ℕ → List ℕ
insert x [] = x ∷ []
insert x (y ∷ ys) =
    let rest = insert x ys in if ltb x y then x ∷ y ∷ ys else if x == y then y ∷ ys else y ∷ rest

abbrev pub rvas : List Method → List ℕ
rvas [] = []
rvas (m ∷ ms) = insert m.rva (rvas ms)

-- Python's order of strings.
abbrev pub text_lt : Bytes → Bytes → Bool
text_lt [] [] = false
text_lt [] (b ∷ bs) = true
text_lt (a ∷ as') [] = false
text_lt (a ∷ as') (b ∷ bs) = if ltb a b then true else if a == b then text_lt as' bs else false

-- `sorted(set(names))`
abbrev pub insert_name : Bytes → List Bytes → List Bytes
insert_name x [] = x ∷ []
insert_name x (y ∷ ys) =
    let rest = insert_name x ys in
    if text_lt x y then x ∷ y ∷ ys else if text_lt y x then y ∷ rest else y ∷ ys

abbrev pub names : List Method → ℕ → List Bytes
names [] start = []
names (m ∷ ms) start =
    let rest = names ms start in if m.rva == start then insert_name m.qualified_name rest else rest

-- `bisect_right` of an ascending list.
abbrev pub bisect_right : List ℕ → ℕ → ℕ
bisect_right [] x = 0
bisect_right (y ∷ ys) x = let rest = bisect_right ys x in if leb y x then suc rest else 0

abbrev pub nth : List ℕ → ℕ → ℕ
nth [] i = 0
nth (x ∷ xs) zero = x
nth (x ∷ xs) (suc i) = nth xs i

-- `"|".join`
abbrev pub join : List Bytes → Bytes
join [] = []
join (x ∷ []) = x
join (x ∷ y ∷ ys) = x ++ codes "|" ++ join (y ∷ ys)

abbrev pub rendered : List Bytes → ℕ → Bytes
rendered shown offset =
    join (take 3 shown)
    ++ (if ltb 3 (length shown)
        then codes "|+" ++ spell 10 (length shown) (length shown - 3) [] ++ codes " more"
        else [])
    ++ codes "+0x"
    ++ spell 16 (suc offset) offset []

-- From `start` on.
abbrev pub within : List Method → ℕ → ℕ → ℕ → Option Bytes
within methods rva max_offset start =
    if ltb max_offset (rva - start)
    then none
    else some (rendered (names methods start) (rva - start))

unfoldable pub resolve_rva : List Method → ℕ → ℕ → Option Bytes
resolve_rva methods rva max_offset = elim (bisect_right (rvas methods) rva) [
  | zero ↦ none
  | suc position ↦ within methods rva max_offset (nth (rvas methods) position)
]
