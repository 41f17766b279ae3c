-- ===== src/Symbolize.antt =====
-- tools/symbolize_log.py: the call sites of the log's lines, and the managed methods around them. Lines
-- and names are lists of code points. The reading of dump.cs is left out: the index is made of methods.
pub mod Index
pub mod Callsite
pub mod Once
use old_pixel_gun_3d_online.Base.{
  ℕ, Bool, true, false, not, ◌&&◌, ◌||◌, ◌==◌, leb, Option, none, some, List, [], ◌∷◌, ◌++◌, Bytes,
  codes, if◌then◌else◌,
}
use old_pixel_gun_3d_online.Text.Digits.{is_hex, int16}
use old_pixel_gun_3d_online.Symbolize.Index.{Method, resolve_rva}

-- What `\b` and `\s` take for letters and spaces, of the code points from 128 on.
pub record Unicode : Type 0 where
  pub is_letter : ℕ → Bool
  pub is_blank : ℕ → Bool

abbrev pub is_nil : Bytes → Bool
is_nil [] = true
is_nil (c ∷ cs) = false

-- What is behind a literal at the start of a text.
abbrev pub after_literal : Bytes → Bytes → Option Bytes
after_literal [] text = some text
after_literal (c ∷ literal) [] = none
after_literal (c ∷ literal) (d ∷ text) =
    let rest = after_literal literal text in if c == d then rest else none

-- The hexadecimal digits at the start of a text, and the rest.
abbrev pub hex_run : Bytes → Bytes × Bytes
hex_run [] = ([], [])
hex_run (c ∷ cs) =
    let (run, rest) = hex_run cs in if is_hex c then (c ∷ run, rest) else ([], c ∷ cs)

-- A match here, or else the first one behind.
abbrev pub first_of : Option ℕ → Option ℕ → Option ℕ
first_of none later = later
first_of (some rva) later = some rva

-- `line.rstrip("\n")`
abbrev pub rstrip : Bytes → Bytes
rstrip [] = []
rstrip (c ∷ cs) = let rest = rstrip cs in if is_nil rest && c == 10 then [] else c ∷ rest

-- `line += f" [managed={resolved}]"`, where there is something to add.
abbrev pub annotate : Bytes → Option Bytes → Bytes
annotate line none = line
annotate line (some resolved) = line ++ codes " [managed=" ++ resolved ++ codes "]"

module _ (U : Unicode) where
  abbrev pub is_word : ℕ → Bool
  is_word c =
      leb 48 c && leb c 57
      || leb 65 c && leb c 90
      || c == 95
      || leb 97 c && leb c 122
      || leb 128 c && U.is_letter c

  abbrev pub is_space : ℕ → Bool
  is_space c = leb 9 c && leb c 13 || leb 28 c && leb c 32 || leb 128 c && U.is_blank c

  -- `\b` behind a digit
  abbrev pub boundary : Bytes → Bool
  boundary [] = true
  boundary (c ∷ cs) = not (is_word c)

  -- CALLSITE_RE at the start of a text. A shorter run of digits would be followed by a digit.
  abbrev pub callsite_digits : Option Bytes → Option ℕ
  callsite_digits none = none
  callsite_digits (some text) =
      let (run, rest) = hex_run text in
      if not (is_nil run) && boundary rest then some (int16 0 run) else none

  abbrev pub callsite_at : Bytes → Option ℕ
  callsite_at text = callsite_digits (after_literal (codes "pc=libil2cpp.so+0x") text)

  -- `CALLSITE_RE.search(line)`, and the number in its group.
  unfoldable pub callsite : Bytes → Option ℕ
  callsite [] = none
  callsite (c ∷ cs) = first_of (callsite_at (c ∷ cs)) (callsite cs)

  -- `\s*$`
  abbrev pub blank_end : Bytes → Bool
  blank_end [] = true
  blank_end (c ∷ cs) = is_space c && blank_end cs

  -- `[^\]]*\]\s*$`
  abbrev pub closes : Bytes → Bool
  closes [] = false
  closes (c ∷ cs) = if c == 93 then blank_end cs else closes cs

  -- `\[managed=[^\]]+\]\s*$` at the start of a text
  abbrev pub opened : Option Bytes → Bool
  opened none = false
  opened (some []) = false
  opened (some (c ∷ cs)) = not (c == 93) && closes cs

  -- `ANNOTATION_RE.search(line)`: the last of its leading spaces is enough.
  unfoldable pub annotated : Bytes → Bool
  annotated [] = false
  annotated (c ∷ cs) = is_space c && opened (after_literal (codes "[managed=") cs) || annotated cs

  -- `index.resolve` for the match of CALLSITE_RE, if there is one and no annotation.
  abbrev pub resolved_at : List Method → ℕ → Bytes → Option ℕ → Option Bytes
  resolved_at methods max_offset line none = none
  resolved_at methods max_offset line (some rva) =
      if annotated line then none else resolve_rva methods rva max_offset

  -- The body of the loop of `symbolize_lines`.
  unfoldable pub symbolize_line : List Method → ℕ → Bytes → Bytes
  symbolize_line methods max_offset raw_line =
      let line = rstrip raw_line in
      annotate line (resolved_at methods max_offset line (callsite line)) ++ 10 ∷ []
