-- ===== src/ElfSym/Names.antt =====
-- `name_matches`: which paths name a library.
use old_pixel_gun_3d_online.Base.{
  ◌≡◌, ◌≢◌, ◌⊎◌, ◌↔◌, refl, sym, ap, subst, ◌∙◌, inl, inr, true, ◌==◌, none, some, [], ◌∷◌, ◌++◌,
  Bytes, All, str_eq, arith, Option-cases, Bool-cases,
}
use old_pixel_gun_3d_online.Base.Lists.{str_eq→eq, str_eq_refl}
use old_pixel_gun_3d_online.ElfSym.{name_matches, strrchr, file_of}

-- No slash in it.
abbrev pub Plain : Bytes → Type 0
Plain = All (λ b. b ≢ 47)

strrchr-Plain : (file : Bytes) → Plain file → strrchr 47 file ≡ none
strrchr-Plain [] p = refl
strrchr-Plain (b ∷ bs) p = rw (strrchr-Plain bs p.1) (ground (arith, p.0))

strrchr_behind : (dir file : Bytes) → Plain file → strrchr 47 (dir ++ 47 ∷ file) ≡ some (47 ∷ file)
strrchr_behind [] file p = rw (strrchr-Plain file p) refl
strrchr_behind (b ∷ dir) file p = rw (strrchr_behind dir file p) refl

strrchr-none : (path : Bytes) → strrchr 47 path ≡ none → Plain path
strrchr-none [] e = tt
strrchr-none (b ∷ bs) e = elim (Option-cases (strrchr 47 bs)) [
  | inr (t, deep) ↦ absurd (ground (arith, e, deep))
  | inl plain ↦ elim (Bool-cases (b == 47)) [
    | inl slash ↦ absurd (ground (arith, e, plain, slash))
    | inr other ↦ (ground (arith, other), strrchr-none bs plain)
  ]
]

-- What is found is behind a slash, is a tail, and has no other slash.
strrchr_tail :
    (path tail : Bytes)
    → strrchr 47 path ≡ some tail
    → (dir : Bytes) × (file : Bytes) × (tail ≡ 47 ∷ file) × (path ≡ dir ++ 47 ∷ file) × Plain file
strrchr_tail [] tail e = absurd (ground (arith, e))
strrchr_tail (b ∷ bs) tail e = elim (Option-cases (strrchr 47 bs)) [
  | inr (t, deep) ↦
      let (dir, file, shape, split, last) = strrchr_tail bs t deep in
      (b ∷ dir, file, (ground (arith, e, deep, shape)), ap (λ p. b ∷ p) split, last)
  | inl plain ↦ elim (Bool-cases (b == 47)) [
    | inl slash ↦
        ([], bs, ground (arith, e, plain, slash), ground (arith, slash), strrchr-none bs plain)
    | inr other ↦ absurd (ground (arith, e, plain, other))
  ]
]

file_of-Plain : (path : Bytes) → strrchr 47 path ≡ none → file_of path ≡ path
file_of-Plain path e = rw (file_of, e) refl

file_of_behind :
    (path tail file : Bytes) → strrchr 47 path ≡ some tail → tail ≡ 47 ∷ file → file_of path ≡ file
file_of_behind path tail file e shape = rw (file_of, e, shape) refl

-- A path is its last component, or that stands behind its last slash.
pub file_of-cases :
    (path : Bytes)
    → Plain (file_of path)
      × ((path ≡ file_of path) ⊎ ((dir : Bytes) × (path ≡ dir ++ 47 ∷ file_of path)))
file_of-cases path = elim (Option-cases (strrchr 47 path)) [
  | inl plain ↦
      let same = file_of-Plain path plain in
      (subst Plain (sym same) (strrchr-none path plain), inl (sym same))
  | inr (tail, found) ↦
      let (dir, file, shape, split, last) = strrchr_tail path tail found in
      let same = file_of_behind path tail file found shape in
      (subst Plain (sym same) last, inr (dir, split ∙ ap (λ (f : Bytes). dir ++ 47 ∷ f) (sym same)))
]

module _ (path soname : Bytes) (p : Plain soname) where
  to_file : file_of path ≡ soname → (path ≡ soname) ⊎ ((dir : Bytes) × (path ≡ dir ++ 47 ∷ soname))
  to_file is = elim (Option-cases (strrchr 47 path)) [
    | inl plain ↦ inl (sym (file_of-Plain path plain) ∙ is)
    | inr (tail, found) ↦
        let (dir, file, shape, split, last) = strrchr_tail path tail found in
        let same : file ≡ soname = sym (file_of_behind path tail file found shape) ∙ is in
        inr (dir, split ∙ ap (λ (f : Bytes). dir ++ 47 ∷ f) same)
  ]

  pub from_file :
      (path ≡ soname) ⊎ ((dir : Bytes) × (path ≡ dir ++ 47 ∷ soname)) → file_of path ≡ soname
  from_file (inl same) = file_of-Plain path (ap (strrchr 47) same ∙ strrchr-Plain soname p) ∙ same
  from_file (inr (dir, split)) =
      file_of_behind path (47 ∷ soname) soname (ap (strrchr 47) split ∙ strrchr_behind dir soname p)
        refl

-- For a file name without a slash, a path names the library if it is the name itself, or ends in a
-- slash and the name; an empty path names none.
pub name_matches_iff :
    (path soname : Bytes)
    → Plain soname
    → (name_matches (some path) soname ≡ true)
      ↔ ((path ≢ []) × ((path ≡ soname) ⊎ ((dir : Bytes) × (path ≡ dir ++ 47 ∷ soname))))
unfolding name_matches
name_matches_iff [] soname p = (λ e. absurd (ground (arith, e)), λ e. absurd (e.0 refl))
name_matches_iff (b ∷ bs) soname p = (
  λ matches. (λ e. ground (arith, e), to_file (b ∷ bs) soname p (str_eq→eq _ soname matches)),
  λ ends.
      ap (λ (f : Bytes). str_eq f soname) (from_file (b ∷ bs) soname p ends.1) ∙ str_eq_refl soname,
)
