-- ===== src/ElfSym/Libraries.antt =====
-- `find` and `find_library`: which of the loaded libraries is meant, and when the symbol lookup ends.
use old_pixel_gun_3d_online.Base.{
  ℕ, ◌<◌, ◌≡◌, ◌⊎◌, refl, ap, ◌∙◌, inl, inr, Bool, true, false, ◌||◌, none, some, List, [], ◌∷◌,
  ◌++◌, Bytes, All, Ptr, null, is_null, arith, Bool-cases, if◌then◌else◌,
}
use old_pixel_gun_3d_online.ElfSym.{
  Image, Info, Found, name_matches, iterate, find, find_library, find_symbol, lookup, dynamic_loop,
}
use old_pixel_gun_3d_online.ElfSym.Scan.{entries_loop_ends}

module _ (soname : Bytes) where
  abbrev pub Unnamed : List Info → Type 0
  Unnamed = All (λ info. name_matches info.dlpi_name soname ≡ false)

  -- The first library of the name in the loader's order.
  abbrev pub IsFirstNamed : List Info → Info → Type 0
  IsFirstNamed infos info =
      (before : List Info) × (behind : List Info) × (infos ≡ before ++ info ∷ behind)
      × Unnamed before
      × (name_matches info.dlpi_name soname ≡ true)

  abbrev pub found_at : Info → Found
  found_at info = record {
    base = info.dlpi_addr;
    phdr = info.dlpi_phdr;
    phnum = info.dlpi_phnum;
    ok = true;
  }

  iterate_first :
      (infos : List Info) (start : Found)
      → (Unnamed infos × (iterate infos soname start ≡ start))
        ⊎ ((info : Info) × IsFirstNamed infos info × (iterate infos soname start ≡ found_at info))
  unfolding iterate
  iterate_first [] start = inl (tt, refl)
  iterate_first (info ∷ infos) start = elim (Bool-cases (name_matches info.dlpi_name soname)) [
    | inl hit ↦ rw hit (inr (info, ([], infos, refl, tt, hit), refl))
    | inr miss ↦ rw miss (elim (iterate_first infos start) [
      | inl (none_named, kept) ↦ inl ((refl, none_named), kept)
      | inr (first, (before, behind, split, unnamed, hit), same) ↦ inr (
        first,
        (info ∷ before, behind, ap (λ (l : List Info). info ∷ l) split, (miss, unnamed), hit),
        same,
      )
    ])
  ]

  module _ (I : Image) where
    find_nothing :
        iterate I.loaded soname (record { base = 0; phdr = null; phnum = 0; ok = false })
          ≡ record { base = 0; phdr = null; phnum = 0; ok = false }
        → find I soname ≡ none
    unfolding find
    find_nothing e = rw (e, find) refl

    find_at :
        (info : Info)
        → iterate I.loaded soname (record { base = 0; phdr = null; phnum = 0; ok = false })
          ≡ found_at info
        → find I soname ≡ (if is_null info.dlpi_phdr then none else some (found_at info))
    unfolding find
    find_at info e = rw (e, find) refl

  module _ (I : Image) (fuel : ℕ) (symbol : Bytes) where
    -- Either no loaded library bears the name, `find_library` fails and `find_symbol` gives null; or
    -- the first one in the loader's order that bears it decides: without program headers it counts as
    -- missing, and otherwise its load address is found and its tables are looked up, whatever other
    -- libraries of the name come behind it.
    pub find_library_cases :
        (Unnamed I.loaded
          × (find_library I soname ≡ none)
          × (find_symbol I fuel soname symbol ≡ some null))
        ⊎ ((info : Info) × IsFirstNamed I.loaded info
            × (is_null info.dlpi_phdr ≡ true
                → (find_library I soname ≡ none) × (find_symbol I fuel soname symbol ≡ some null))
            × (is_null info.dlpi_phdr ≡ false
                → (find_library I soname ≡ some info.dlpi_addr)
                  × (find_symbol I fuel soname symbol ≡ lookup I fuel (found_at info) symbol)))
    unfolding find_library find_symbol
    find_library_cases =
        elim (iterate_first I.loaded (record { base = 0; phdr = null; phnum = 0; ok = false })) [
          | inl (none_named, same) ↦ inl (
            none_named,
            rw (find_nothing I same, find_library) refl,
            rw (find_nothing I same, find_symbol) refl,
          )
          | inr (info, first, same) ↦ inr (
            info,
            first,
            λ gone.
                let e =
                  find_at I info same
                  ∙ ap (λ (b : Bool). if b then none else some (found_at info)) gone in
                (rw (e, find_library) refl, rw (e, find_symbol) refl),
            λ there.
                let e =
                  find_at I info same
                  ∙ ap (λ (b : Bool). if b then none else some (found_at info)) there in
                (rw (e, find_library) refl, rw (e, find_symbol) refl),
          )
        ]

-- The symbol lookup in a library whose dynamic entries end at DT_NULL within the fuel returns.
pub lookup_returns :
    (I : Image) (lib : Found) (symbol : Bytes) (n fuel : ℕ)
    → (I.dyn_at (dynamic_loop I lib lib.phnum 0) n).d_tag ≡ 0
    → n < fuel
    → (p : Ptr) × (lookup I fuel lib symbol ≡ some p)
unfolding lookup
lookup_returns I lib symbol n fuel e b =
    elim (Bool-cases (is_null (dynamic_loop I lib lib.phnum 0))) [
      | inl absent ↦ rw absent (null, refl)
      | inr there ↦
          let (u, ran) =
            entries_loop_ends I lib.base (dynamic_loop I lib lib.phnum 0) n fuel 0 n
              (record { strtab = null; symtab = null; hash = null }) (omega arith) e b in
          rw (there, ran)
            (elim (Bool-cases (is_null u.strtab || is_null u.symtab || is_null u.hash)) [
              | inl missing ↦ rw missing (null, refl)
              | inr complete ↦ rw complete (_, refl)
            ])
    ]
