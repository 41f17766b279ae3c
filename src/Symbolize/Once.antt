-- ===== src/Symbolize/Once.antt =====
-- A log that has been annotated is left as it is.
use old_pixel_gun_3d_online.Base.{
  ℕ, zero, suc, ◌-◌, ◌<◌, ◌≡◌, ◌≢◌, inl, inr, refl, sym, ap, subst, ◌∙◌, Bool, true, false, ◌&&◌,
  ◌==◌, ltb, Option, none, some, List, [], ◌∷◌, ◌++◌, append_assoc, Bytes, All, codes, length, take,
  arith, Bool-cases, if◌then◌else◌,
}
use old_pixel_gun_3d_online.Base.Lists.{All-append}
use old_pixel_gun_3d_online.Text.Digits.{spell, digit, spell-All}
use old_pixel_gun_3d_online.Symbolize.Index.{Method, join, rendered, resolve_rva}
use old_pixel_gun_3d_online.Symbolize.Index.Names.{In, Named}
use old_pixel_gun_3d_online.Symbolize.Index.Nearest.{Nearest, resolve_rva-Nearest}
use old_pixel_gun_3d_online.Symbolize.{
  Unicode, is_nil, rstrip, closes, callsite, annotated, annotate, resolved_at, symbolize_line,
}

-- No closing bracket.
abbrev pub Open : Bytes → Type 0
Open = All (λ c. c ≢ 93)

rstrip-newline : (xs : Bytes) → rstrip (xs ++ 10 ∷ []) ≡ rstrip xs
rstrip-newline [] = refl
rstrip-newline (c ∷ xs) = rw (rstrip-newline xs) refl

rstrip-rstrip : (xs : Bytes) → rstrip (rstrip xs) ≡ rstrip xs
rstrip-rstrip [] = refl
rstrip-rstrip (c ∷ xs) = elim (Bool-cases (is_nil (rstrip xs) && c == 10)) [
  | inl e ↦ rw e refl
  | inr e ↦ rw e (rw (rstrip-rstrip xs, e) refl)
]

rstrip-bracket : (xs : Bytes) → rstrip (xs ++ 93 ∷ []) ≡ xs ++ 93 ∷ []
rstrip-bracket [] = refl
rstrip-bracket (c ∷ xs) = rw (rstrip-bracket xs) (kept c xs)
  where
    kept :
        (c : ℕ) (xs : Bytes)
        → (if is_nil (xs ++ 93 ∷ []) && c == 10 then [] else c ∷ (xs ++ 93 ∷ []))
          ≡ c ∷ (xs ++ 93 ∷ [])
    kept c [] = refl
    kept c (x ∷ xs) = refl

module _ (U : Unicode) where
  closes-Open : (text : Bytes) → Open text → closes U (text ++ 93 ∷ []) ≡ true
  closes-Open [] h = refl
  closes-Open (c ∷ text) (ne, h) = ground (arith, ne, closes-Open text h)

  annotated-append : (xs ys : Bytes) → annotated U ys ≡ true → annotated U (xs ++ ys) ≡ true
  unfolding annotated
  annotated-append [] ys h = h
  annotated-append (c ∷ xs) ys h = ground (arith, annotated-append xs ys h)

  annotated_here :
      (text : Bytes)
      → Open text
      → is_nil text ≡ false
      → annotated U (codes " [managed=" ++ (text ++ 93 ∷ [])) ≡ true
  unfolding annotated
  annotated_here [] h there = ground arith
  annotated_here (c ∷ text) (ne, h) there = ground (arith, ne, closes-Open text h)

each_of : {P : Bytes → Type 0} (xs : List Bytes) → ((x : Bytes) → In x xs → P x) → All P xs
each_of [] f = tt
each_of (x ∷ xs) f = (f x (inl refl), each_of xs (λ y i. f y (inr i)))

Open-Named :
    (methods : List Method) (start : ℕ) (name : Bytes)
    → All (λ m. Open m.qualified_name) methods
    → Named methods start name
    → Open name
Open-Named [] start name h i = absurd i
Open-Named (m ∷ ms) start name (h, hs) (inl (here, e)) = subst Open e h
Open-Named (m ∷ ms) start name (h, hs) (inr i) = Open-Named ms start name hs i

All-take : (n : ℕ) (xs : List Bytes) → All Open xs → All Open (take n xs)
All-take zero xs h = tt
All-take (suc n) [] h = tt
All-take (suc n) (x ∷ xs) (hx, hs) = (hx, All-take n xs hs)

Open-append : (xs ys : Bytes) → Open xs → Open ys → Open (xs ++ ys)
Open-append = All-append (λ c. c ≢ 93)

Open-join : (names : List Bytes) → All Open names → Open (join names)
Open-join [] h = tt
Open-join (x ∷ []) h = h.0
Open-join (x ∷ y ∷ ys) (hx, hs) =
    Open-append (x ++ codes "|") (join (y ∷ ys)) (Open-append x (codes "|") hx (ground arith))
      (Open-join (y ∷ ys) hs)

digit-Open : (d : ℕ) → d < 16 → digit d ≢ 93
digit-Open d b = ground arith

Open-count :
    (n : ℕ) (b : Bool)
    → Open (if b then codes "|+" ++ spell 10 n (n - 3) [] ++ codes " more" else [])
Open-count n false = tt
Open-count n true =
    Open-append (codes "|+" ++ spell 10 n (n - 3) []) (codes " more")
      (Open-append (codes "|+") (spell 10 n (n - 3) []) (ground arith) (
        spell-All (λ c. c ≢ 93) 10 n (n - 3) [] (λ m. omega arith)
          (λ d b. digit-Open d (omega (arith, b))) tt))
      (ground arith)

Open-rendered : (shown : List Bytes) (offset : ℕ) → All Open shown → Open (rendered shown offset)
Open-rendered shown offset h =
    Open-append _ (spell 16 (suc offset) offset [])
      (Open-append _ (codes "+0x")
        (Open-append (join (take 3 shown)) _ (Open-join (take 3 shown) (All-take 3 shown h))
          (Open-count (length shown) (ltb 3 (length shown))))
        (ground arith))
      (spell-All (λ c. c ≢ 93) 16 (suc offset) offset [] (λ m. omega arith) digit-Open tt)

is_nil_behind : (xs ys : Bytes) → is_nil ys ≡ false → is_nil (xs ++ ys) ≡ false
is_nil_behind [] ys h = h
is_nil_behind (x ∷ xs) ys h = refl

is_nil-before : (xs ys : Bytes) → is_nil xs ≡ false → is_nil (xs ++ ys) ≡ false
is_nil-before [] ys h = ground arith
is_nil-before (x ∷ xs) ys h = refl

is_nil-rendered : (shown : List Bytes) (offset : ℕ) → is_nil (rendered shown offset) ≡ false
is_nil-rendered shown offset =
    is_nil-before (join (take 3 shown) ++ count ++ codes "+0x") (spell 16 (suc offset) offset [])
      (is_nil_behind (join (take 3 shown) ++ count) (codes "+0x") refl)
  where
    count : Bytes
    count =
        if ltb 3 (length shown)
        then codes "|+" ++ spell 10 (length shown) (length shown - 3) [] ++ codes " more"
        else []

-- What `resolve` gives has no bracket and is not empty.
resolve_rva-Open :
    (methods : List Method) (r max_offset : ℕ) {text : Bytes}
    → All (λ m. Open m.qualified_name) methods
    → resolve_rva methods r max_offset ≡ some text
    → Open text × (is_nil text ≡ false)
resolve_rva-Open methods r max_offset {text} h e =
    let (start, shown, _, _, _, _, named, spelled) =
      subst (Nearest methods r max_offset) e (resolve_rva-Nearest methods r max_offset) in
    (
      subst Open (sym spelled) (
          Open-rendered shown (r - start)
            (each_of shown λ name i. Open-Named methods start name h ((named name).0 i))),
      ap is_nil spelled ∙ is_nil-rendered shown (r - start),
    )

module _ (U : Unicode) (methods : List Method) (max_offset : ℕ) where
  -- The line that is yielded for a line without its end, and without the new end.
  abbrev shown : Bytes → Bytes
  shown line = annotate line (resolved_at U methods max_offset line (callsite U line))

  resolved_at-annotated :
      (line : Bytes) (site : Option ℕ)
      → annotated U line ≡ true
      → resolved_at U methods max_offset line site ≡ none
  resolved_at-annotated line none e = refl
  resolved_at-annotated line (some r) e = rw e refl

  resolved_at-Open :
      (line text : Bytes) (site : Option ℕ)
      → All (λ m. Open m.qualified_name) methods
      → resolved_at U methods max_offset line site ≡ some text
      → Open text × (is_nil text ≡ false)
  resolved_at-Open line text none h e = absurd (ground (arith, e))
  resolved_at-Open line text (some r) h e = elim (Bool-cases (annotated U line)) [
    | inl a ↦ absurd (ground (arith, rw a at e))
    | inr a ↦ resolve_rva-Open methods r max_offset h (rw a at e)
  ]

  -- The line comes out of a second run as it went in.
  shown_again :
      (line : Bytes) (o : Option Bytes)
      → All (λ m. Open m.qualified_name) methods
      → rstrip line ≡ line
      → resolved_at U methods max_offset line (callsite U line) ≡ o
      → shown (rstrip (annotate line o ++ 10 ∷ [])) ≡ annotate line o
  shown_again line none h stripped e = rw (rstrip-newline line, stripped) (ap (annotate line) e)
  shown_again line (some text) h stripped e =
      let (clean, there) = resolved_at-Open line text (callsite U line) h e in
      ap shown (rstrip-newline (annotate line (some text)) ∙ rstrip-bracket _)
      ∙ ap (annotate (annotate line (some text))) (
          resolved_at-annotated (annotate line (some text)) _ (
            ap (annotated U) (joined line text)
            ∙ annotated-append U line _ (annotated_here U text clean there)))
    where
      joined :
          (line text : Bytes)
          → line ++ codes " [managed=" ++ text ++ codes "]"
            ≡ line ++ (codes " [managed=" ++ (text ++ 93 ∷ []))
      joined line text = simp append_assoc

  -- If no name of a method has a closing bracket, a line that the tool has written is written again
  -- as it is: an annotation is found and not repeated, and a line without one gets none.
  pub symbolize_line-twice :
      (raw_line : Bytes)
      → All (λ m. Open m.qualified_name) methods
      → symbolize_line U methods max_offset (symbolize_line U methods max_offset raw_line)
        ≡ symbolize_line U methods max_offset raw_line
  unfolding symbolize_line
  symbolize_line-twice raw_line h =
      ap (λ (line : Bytes). line ++ 10 ∷ [])
        (shown_again (rstrip raw_line) _ h (rstrip-rstrip raw_line) refl)
