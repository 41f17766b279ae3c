-- ===== src/ElfSym/Scan.antt =====
-- `lookup`: the loops over the dynamic entries and over the symbols.
use native.Mathlib.Decide.{dec_lt}
use old_pixel_gun_3d_online.Base.{
  ℕ, zero, suc, ◌+◌, ◌≤◌, ◌<◌, ◌≡◌, ◌⊎◌, refl, inl, inr, Bool, true, false, ◌==◌, some, Bytes, Ptr,
  null, arith, Bool-cases,
}
use old_pixel_gun_3d_online.ElfSym.{Image, Found, Tables, bears, symbol_loop, entries_loop, addr32}

-- Below a bound, from the first place and the places behind it.
from_first :
    (f : ℕ → Bool) (i : ℕ) → f i ≡ false → (k : ℕ) → i ≤ k → (i + 1 ≤ k → f k ≡ false) → f k ≡ false
from_first f i e k l behind = elim (dec_lt i k) [
  | yes b ↦ behind (omega arith)
  | no b ↦ let same : k ≡ i = omega arith in rw same e
]

module _ (I : Image) (lib : Found) (t : Tables) (symbol : Bytes) where
  -- The symbol at an index is defined and bears the name.
  abbrev pub bears_at : ℕ → Bool
  bears_at i = bears I t.strtab (I.sym_at t.symtab i) symbol

  -- The address of the first symbol of the name in [i, i + n), or null if there is none.
  abbrev pub IsScanned : ℕ → ℕ → Ptr → Type 0
  IsScanned i n p =
      ((p ≡ null) × ((k : ℕ) → i ≤ k → k < i + n → bears_at k ≡ false))
      ⊎ ((j : ℕ) × (i ≤ j)
          × (j < i + n)
          × (p ≡ addr32 (lib.base + (I.sym_at t.symtab j).st_value))
          × (bears_at j ≡ true)
          × ((k : ℕ) → i ≤ k → k < j → bears_at k ≡ false))

  later : (n i : ℕ) (p : Ptr) → bears_at i ≡ false → IsScanned (i + 1) n p → IsScanned i (suc n) p
  later n i p miss (inl (e, all)) =
      inl (e, λ k l m. from_first bears_at i miss k l λ b. all k b (omega arith))
  later n i p miss (inr (j, l, m, e, hit, before)) = inr (
    j,
    omega arith,
    omega arith,
    e,
    hit,
    λ k l' m'. from_first bears_at i miss k l' λ b. before k b m',
  )

  -- The scan of `n` symbols gives the address of the first defined symbol of the name, moved by the
  -- load bias, and null if no symbol in the table is defined and bears the name.
  pub symbol_loop-IsScanned : (n i : ℕ) → IsScanned i n (symbol_loop I lib t symbol n i)
  unfolding symbol_loop
  symbol_loop-IsScanned zero i = inl (refl, λ k l m. absurd (omega arith))
  symbol_loop-IsScanned (suc n) i = elim (Bool-cases (bears_at i)) [
    | inl hit ↦ rw hit (inr (i, omega arith, omega arith, refl, hit, λ k l m. absurd (omega arith)))
    | inr miss ↦ rw miss (later n i _ miss (symbol_loop-IsScanned n (i + 1)))
  ]

module _ (I : Image) (base dyn : Ptr) where
  -- The loop over the dynamic entries ends: with more fuel than entries in front of DT_NULL it
  -- returns its tables.
  pub entries_loop_ends :
      (n fuel i k : ℕ) (t : Tables)
      → k ≡ i + n
      → (I.dyn_at dyn k).d_tag ≡ 0
      → n < fuel
      → (u : Tables) × (entries_loop I base dyn fuel i t ≡ some u)
  unfolding entries_loop
  entries_loop_ends n zero i k t at e b = absurd (omega arith)
  entries_loop_ends zero (suc fuel) i k t at e b =
      let here : i ≡ k = omega (arith, at) in rw (here, e) (t, refl)
  entries_loop_ends (suc n) (suc fuel) i k t at e b =
      elim (Bool-cases ((I.dyn_at dyn i).d_tag == 0)) [
        | inl last ↦ rw last (t, refl)
        | inr more ↦
            rw more (entries_loop_ends n fuel (i + 1) k _ (omega (arith, at)) e (omega arith))
      ]
