-- ===== src/Symbolize/Index/Names.antt =====
-- The names that `resolve` shows are those of the methods that start there.
use old_pixel_gun_3d_online.Base.{
  ◌≡◌, ◌⊎◌, ◌↔◌, inl, inr, refl, sym, ◌∙◌, false, ◌==◌, ==_iff, ℕ, List, [], ◌∷◌, Bytes, arith,
  Bool-cases,
}
use old_pixel_gun_3d_online.Symbolize.Index.{Method, text_lt, insert_name, names}

abbrev pub In : {A : Type 0} → A → List A → Type 0
In x [] = ⊥
In x (y ∷ ys) = (x ≡ y) ⊎ In x ys

-- A method of this name that starts at an offset.
abbrev pub Named : List Method → ℕ → Bytes → Type 0
Named [] start name = ⊥
Named (m ∷ ms) start name = ((m.rva ≡ start) × (m.qualified_name ≡ name)) ⊎ Named ms start name

text_lt_connex : (a b : Bytes) → text_lt a b ≡ false → text_lt b a ≡ false → a ≡ b
text_lt_connex [] [] h k = refl
text_lt_connex [] (d ∷ b) h k = ground arith
text_lt_connex (c ∷ a) [] h k = ground arith
text_lt_connex (c ∷ a) (d ∷ b) h k = ground (arith, text_lt_connex a b)

In-insert_name : (x y : Bytes) (ys : List Bytes) → In x (insert_name y ys) → (x ≡ y) ⊎ In x ys
In-insert_name x y [] h = h
In-insert_name x y (z ∷ ys) h = elim (Bool-cases (text_lt y z)) [
  | inl e ↦ rw e at h
  | inr e ↦ elim (Bool-cases (text_lt z y)) [
    | inl f ↦ behind (rw (e, f) at h) (In-insert_name x y ys)
    | inr f ↦ inr (rw (e, f) at h)
  ]
]
  where
    behind :
        (x ≡ z) ⊎ In x (insert_name y ys)
        → (In x (insert_name y ys) → (x ≡ y) ⊎ In x ys)
        → (x ≡ y) ⊎ ((x ≡ z) ⊎ In x ys)
    behind (inl e) rest = inr (inl e)
    behind (inr i) rest = elim (rest i) [ inl e ↦ inl e | inr j ↦ inr (inr j) ]

insert_name-In : (x y : Bytes) (ys : List Bytes) → (x ≡ y) ⊎ In x ys → In x (insert_name y ys)
insert_name-In x y [] h = h
insert_name-In x y (z ∷ ys) h = elim (Bool-cases (text_lt y z)) [
  | inl e ↦ rw e h
  | inr e ↦ elim (Bool-cases (text_lt z y)) [
    | inl f ↦ rw (e, f) (behind h (insert_name-In x y ys))
    | inr f ↦ rw (e, f) (same (text_lt_connex y z e f) h)
  ]
]
  where
    same : y ≡ z → (x ≡ y) ⊎ ((x ≡ z) ⊎ In x ys) → (x ≡ z) ⊎ In x ys
    same e (inl f) = inl (f ∙ e)
    same e (inr h) = h

    behind :
        (x ≡ y) ⊎ ((x ≡ z) ⊎ In x ys)
        → ((x ≡ y) ⊎ In x ys → In x (insert_name y ys))
        → (x ≡ z) ⊎ In x (insert_name y ys)
    behind (inl e) rest = inr (rest (inl e))
    behind (inr (inl e)) rest = inl e
    behind (inr (inr i)) rest = inr (rest (inr i))

In-names :
    (x : Bytes) (methods : List Method) (start : ℕ)
    → In x (names methods start)
    → Named methods start x
In-names x [] start h = h
In-names x (m ∷ ms) start h = elim (Bool-cases (m.rva == start)) [
  | inl e ↦ elim (In-insert_name x m.qualified_name (names ms start) (rw e at h)) [
    | inl f ↦ inl ((==_iff m.rva start).0 e, sym f)
    | inr i ↦ inr (In-names x ms start i)
  ]
  | inr e ↦ inr (In-names x ms start (rw e at h))
]

names-In :
    (x : Bytes) (methods : List Method) (start : ℕ)
    → Named methods start x
    → In x (names methods start)
names-In x [] start h = h
names-In x (m ∷ ms) start (inl (here, named)) =
    rw ((==_iff m.rva start).1 here)
      (insert_name-In x m.qualified_name (names ms start) (inl (sym named)))
names-In x (m ∷ ms) start (inr h) = elim (Bool-cases (m.rva == start)) [
  | inl e ↦ rw e (insert_name-In x m.qualified_name (names ms start) (inr (names-In x ms start h)))
  | inr e ↦ rw e (names-In x ms start h)
]

pub names_iff :
    (methods : List Method) (start : ℕ) (name : Bytes)
    → In name (names methods start) ↔ Named methods start name
names_iff methods start name = (In-names name methods start, names-In name methods start)
