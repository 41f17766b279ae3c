-- ===== src/Symbolize/Index/Nearest.antt =====
-- `resolve` finds the nearest start.
use old_pixel_gun_3d_online.Base.{
  ℕ, zero, suc, ◌-◌, ◌≤◌, ◌<◌, ◌≡◌, ◌⊎◌, ◌↔◌, inl, inr, refl, ◌∙◌, ==_iff, ltb, leb, ltb→lt, leb→le,
  ◌==◌, Option, none, some, List, [], ◌∷◌, Bytes, arith, Bool-cases,
}
use old_pixel_gun_3d_online.Symbolize.Index.{
  Method, insert, rvas, names, bisect_right, nth, rendered, within, resolve_rva,
}
use old_pixel_gun_3d_online.Symbolize.Index.Names.{In, Named, names_iff}

-- A method that starts at an offset.
abbrev pub Starts : List Method → ℕ → Type 0
Starts [] x = ⊥
Starts (m ∷ ms) x = (x ≡ m.rva) ⊎ Starts ms x

abbrev Ascending : List ℕ → Type 0
Ascending [] = Unit
Ascending (x ∷ xs) = ((y : ℕ) → In y xs → x < y) × Ascending xs

In-insert : (x y : ℕ) (ys : List ℕ) → In x (insert y ys) → (x ≡ y) ⊎ In x ys
In-insert x y [] h = h
In-insert x y (z ∷ ys) h = elim (Bool-cases (ltb y z)) [
  | inl e ↦ rw e at h
  | inr e ↦ elim (Bool-cases (y == z)) [
    | inl f ↦ inr (rw (e, f) at h)
    | inr f ↦ behind (rw (e, f) at h) (In-insert x y ys)
  ]
]
  where
    behind :
        (x ≡ z) ⊎ In x (insert y ys)
        → (In x (insert y ys) → (x ≡ y) ⊎ In x ys)
        → (x ≡ y) ⊎ ((x ≡ z) ⊎ In x ys)
    behind (inl e) rest = inr (inl e)
    behind (inr i) rest = elim (rest i) [ inl e ↦ inl e | inr j ↦ inr (inr j) ]

insert-In : (x y : ℕ) (ys : List ℕ) → (x ≡ y) ⊎ In x ys → In x (insert y ys)
insert-In x y [] h = h
insert-In x y (z ∷ ys) h = elim (Bool-cases (ltb y z)) [
  | inl e ↦ rw e h
  | inr e ↦ elim (Bool-cases (y == z)) [
    | inl f ↦ rw (e, f) (same ((==_iff y z).0 f) h)
    | inr f ↦ rw (e, f) (behind h (insert-In x y ys))
  ]
]
  where
    same : y ≡ z → (x ≡ y) ⊎ ((x ≡ z) ⊎ In x ys) → (x ≡ z) ⊎ In x ys
    same e (inl f) = inl (f ∙ e)
    same e (inr h) = h

    behind :
        (x ≡ y) ⊎ ((x ≡ z) ⊎ In x ys)
        → ((x ≡ y) ⊎ In x ys → In x (insert y ys))
        → (x ≡ z) ⊎ In x (insert y ys)
    behind (inl e) rest = inr (rest (inl e))
    behind (inr (inl e)) rest = inl e
    behind (inr (inr i)) rest = inr (rest (inr i))

insert-Ascending : (y : ℕ) (ys : List ℕ) → Ascending ys → Ascending (insert y ys)
insert-Ascending y [] a = (λ x i. absurd i, tt)
insert-Ascending y (z ∷ ys) (low, a) = elim (Bool-cases (ltb y z)) [
  | inl e ↦ rw e (front (ltb→lt y z e), (low, a))
  | inr e ↦ elim (Bool-cases (y == z)) [
    | inl f ↦ rw (e, f) (low, a)
    | inr f ↦ rw (e, f) (behind (ground arith), insert-Ascending y ys a)
  ]
]
  where
    front : y < z → (x : ℕ) → (x ≡ z) ⊎ In x ys → y < x
    front b x (inl e) = omega arith
    front b x (inr i) = omega (arith, low x i)

    behind : z < y → (x : ℕ) → In x (insert y ys) → z < x
    behind b x i = elim (In-insert x y ys i) [ inl e ↦ omega arith | inr j ↦ low x j ]

rvas-Ascending : (methods : List Method) → Ascending (rvas methods)
rvas-Ascending [] = tt
rvas-Ascending (m ∷ ms) = insert-Ascending m.rva (rvas ms) (rvas-Ascending ms)

In-rvas : (x : ℕ) (methods : List Method) → In x (rvas methods) → Starts methods x
In-rvas x [] i = i
In-rvas x (m ∷ ms) i = elim (In-insert x m.rva (rvas ms) i) [
  | inl e ↦ inl e
  | inr j ↦ inr (In-rvas x ms j)
]

rvas-In : (x : ℕ) (methods : List Method) → Starts methods x → In x (rvas methods)
rvas-In x [] i = i
rvas-In x (m ∷ ms) (inl e) = insert-In x m.rva (rvas ms) (inl e)
rvas-In x (m ∷ ms) (inr i) = insert-In x m.rva (rvas ms) (inr (rvas-In x ms i))

-- What `bisect_right` tells of an ascending list.
abbrev Bisects : List ℕ → ℕ → ℕ → Type 0
Bisects xs r zero = (x : ℕ) → In x xs → r < x
Bisects xs r (suc i) =
    In (nth xs i) xs × (nth xs i ≤ r) × ((x : ℕ) → In x xs → x ≤ r → x ≤ nth xs i)

Bisects-cons :
    (y : ℕ) (ys : List ℕ) (r p : ℕ)
    → y ≤ r
    → ((x : ℕ) → In x ys → y < x)
    → Bisects ys r p
    → Bisects (y ∷ ys) r (suc p)
Bisects-cons y ys r zero b low h = (inl refl, b, nearest)
  where
    nearest : (x : ℕ) → (x ≡ y) ⊎ In x ys → x ≤ r → x ≤ y
    nearest x (inl e) c = omega arith
    nearest x (inr i) c = omega (arith, h x i)
Bisects-cons y ys r (suc p) b low (i, below, near) = (inr i, below, nearest)
  where
    nearest : (x : ℕ) → (x ≡ y) ⊎ In x ys → x ≤ r → x ≤ nth ys p
    nearest x (inl e) c = omega (arith, low (nth ys p) i)
    nearest x (inr j) c = near x j c

bisect_right-Bisects : (xs : List ℕ) (r : ℕ) → Ascending xs → Bisects xs r (bisect_right xs r)
bisect_right-Bisects [] r a = λ x i. absurd i
bisect_right-Bisects (y ∷ ys) r (low, a) = elim (Bool-cases (leb y r)) [
  | inl e ↦
      rw e
        (Bisects-cons y ys r (bisect_right ys r) (leb→le y r e) low (bisect_right-Bisects ys r a))
  | inr e ↦ rw e (above (ground arith))
]
  where
    above : r < y → (x : ℕ) → (x ≡ y) ⊎ In x ys → r < x
    above b x (inl f) = omega arith
    above b x (inr i) = omega (arith, low x i)

-- Some method starts at most `max_offset` below `r`: the nearest start below, the names of the methods
-- there, and their text. Or no method does.
abbrev pub Nearest : List Method → ℕ → ℕ → Option Bytes → Type 0
Nearest methods r max_offset none = (x : ℕ) → Starts methods x → x ≤ r → max_offset < r - x
Nearest methods r max_offset (some text) =
    (start : ℕ) × (shown : List Bytes) × (start ≤ r)
    × (r - start ≤ max_offset)
    × Starts methods start
    × ((x : ℕ) → Starts methods x → x ≤ r → x ≤ start)
    × ((name : Bytes) → In name shown ↔ Named methods start name)
    × (text ≡ rendered shown (r - start))

within-Nearest :
    (methods : List Method) (r max_offset start : ℕ)
    → start ≤ r
    → Starts methods start
    → ((x : ℕ) → Starts methods x → x ≤ r → x ≤ start)
    → Nearest methods r max_offset (within methods r max_offset start)
within-Nearest methods r max_offset start below there near =
    elim (Bool-cases (ltb max_offset (r - start))) [
      | inl e ↦ rw e λ x s b. farther x (near x s b) (ltb→lt max_offset (r - start) e)
      | inr e ↦ rw e (
        start,
        names methods start,
        below,
        ground arith,
        there,
        near,
        names_iff methods start,
        refl,
      )
    ]
  where
    farther : (x : ℕ) → x ≤ start → max_offset < r - start → max_offset < r - x
    farther x b f = omega arith

resolved :
    (methods : List Method) (r max_offset p : ℕ)
    → Bisects (rvas methods) r p
    → Nearest methods r max_offset (elim p [
      | zero ↦ none
      | suc position ↦ within methods r max_offset (nth (rvas methods) position)
    ])
resolved methods r max_offset zero h = λ x s b. absurd (omega (arith, h x (rvas-In x methods s)))
resolved methods r max_offset (suc p) (i, below, near) =
    within-Nearest methods r max_offset (nth (rvas methods) p) below (In-rvas _ methods i)
      λ x s b. near x (rvas-In x methods s) b

-- `resolve` names the nearest start at or below the offset, if it is at most `max_offset` away: its
-- text is made of the names of exactly the methods that start there, and of the distance. It gives
-- nothing only where every start at or below the offset is farther away.
pub resolve_rva-Nearest :
    (methods : List Method) (r max_offset : ℕ)
    → Nearest methods r max_offset (resolve_rva methods r max_offset)
unfolding resolve_rva
resolve_rva-Nearest methods r max_offset =
    resolved methods r max_offset (bisect_right (rvas methods) r)
      (bisect_right-Bisects (rvas methods) r (rvas-Ascending methods))
