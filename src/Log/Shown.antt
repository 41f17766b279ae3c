-- ===== src/Log/Shown.antt =====
-- The place that a line of the log shows.
use old_pixel_gun_3d_online.Base.{
  ◌+◌, ◌%◌, ◌≤◌, ◌<◌, ◌≡◌, ◌≢◌, ◌⊎◌, inl, inr, refl, not, ◌&&◌, Option, none, some, [], ◌∷◌, ◌++◌,
  Bytes, codes, Ptr, is_null, arith, Bool-cases,
}
use old_pixel_gun_3d_online.ElfSym.Names.{Plain, file_of-cases}
use old_pixel_gun_3d_online.Log.{
  System, DlInfo, Place, inside, at, base_name, even_address, place_of,
}

-- The last component of a path.
abbrev pub IsLast : Bytes → Bytes → Type 0
IsLast path name = Plain name × ((path ≡ name) ⊎ ((dir : Bytes) × (path ≡ dir ++ 47 ∷ name)))

module _ {W : Type 0} (S : System W) where
  -- From the place, the even address can be told, if the module starts below it.
  abbrev pub Shows : Ptr → Option DlInfo → Place → Type 0
  Shows pc none p = p ≡ at pc
  Shows pc (some info) (at a) = (a ≡ pc) × ((pc ≡ 0) ⊎ (info.dli_fbase ≡ 0))
  Shows pc (some info) (inside name rva) =
      (info.dli_fbase ≤ pc → info.dli_fbase + rva ≡ pc)
      × (pc < info.dli_fbase → rva ≡ 0)
      × (info.dli_fname ≡ none → name ≡ codes "?")
      × ((path : Bytes) → info.dli_fname ≡ some path → path ≢ [] → IsLast path name)

  base_name-IsLast : (path : Bytes) → path ≢ [] → IsLast path (base_name (some path))
  unfolding base_name
  base_name-IsLast [] ne = absurd (ne refl)
  base_name-IsLast (b ∷ bs) ne = file_of-cases (b ∷ bs)

  -- The address that `print` uses is even and is the return address or the one below it. If dladdr
  -- knows no module for it, the line shows the address itself; so it does where the address or the
  -- module's base is null. Otherwise it shows the last component of the module's path, `?` where there
  -- is none, and an offset that gives the address when it is added to the base, 0 if the base is above.
  pub place_of-Shows :
      (return_address : Ptr) (info : Option DlInfo)
      → (even_address return_address % 2 ≡ 0)
        × (even_address return_address ≤ return_address)
        × (return_address ≤ even_address return_address + 1)
        × Shows (even_address return_address) info (place_of S (even_address return_address) info)
  unfolding place_of base_name
  place_of-Shows return_address info =
      (omega arith, omega arith, omega arith, shown (even_address return_address) info)
    where
      shown : (pc : Ptr) (info : Option DlInfo) → Shows pc info (place_of S pc info)
      shown pc none = refl
      shown pc (some info) = elim (Bool-cases (not (is_null pc) && not (is_null info.dli_fbase))) [
        | inr missing ↦ rw missing (refl, ground arith)
        | inl there ↦ rw there (
          λ b. ground arith,
          λ b. ground arith,
          λ e. rw e refl,
          λ path e ne. rw e (base_name-IsLast path ne),
        )
      ]
