-- ===== src/Checks/ElfSym.antt =====
-- A library image with three dynamic entries and two symbols, and the waits of the start.
use old_pixel_gun_3d_online.Base.{
  Ptr, is_null, ◌≡◌, ◌≢◌, ◌↔◌, ◌⊎◌, refl, ◌+◌, ◌==◌, true, false, some, none, [], ◌∷◌, ◌++◌, Bytes,
  codes, arith, if◌then◌else◌,
}
use old_pixel_gun_3d_online.ElfSym.{
  Image, Info, Found, Tables, name_matches, symbol_loop, entries_loop, lookup, find, find_library,
  find_symbol, iterate, dynamic_loop,
}
use old_pixel_gun_3d_online.ElfSym.Names.{name_matches_iff}
use old_pixel_gun_3d_online.ElfSym.Scan.{IsScanned, symbol_loop-IsScanned}
use old_pixel_gun_3d_online.ElfSym.Libraries.{
  Unnamed, IsFirstNamed, found_at, find_library_cases, lookup_returns,
}

abbrev pub image : Image
image = record {
  loaded =
      record { dlpi_name = none; dlpi_addr = 8; dlpi_phdr = 9; dlpi_phnum = 1 }
      ∷ record {
        dlpi_name = some (codes "/data/lib/libil2cpp.so");
        dlpi_addr = 4096;
        dlpi_phdr = 77;
        dlpi_phnum = 2;
      }
      ∷ [];
  phdr_at = λ p i. record { p_type = 1 + i; p_vaddr = 500 };
  dyn_at = λ p i. record {
    d_tag = if i == 0 then 5 else if i == 1 then 6 else if i == 2 then 4 else 0;
    d_ptr = 600 + i;
  };
  sym_at = λ p i. record { st_name = 1 + i; st_value = 33; st_shndx = i };
  word_at = λ p i. 2;
  text_at = λ p. codes "il2cpp_domain_get";
}

abbrev pub lib : Found
lib = record { base = 4096; phdr = 77; phnum = 2; ok = true }

abbrev tables : Tables
tables = record { strtab = 4696; symtab = 4697; hash = 4698 }

name_matches_iff_example :
    (name_matches (some (codes "/data/lib/libil2cpp.so")) (codes "libil2cpp.so") ≡ true) ↔ (
      (codes "/data/lib/libil2cpp.so" ≢ [])
      × ((codes "/data/lib/libil2cpp.so" ≡ codes "libil2cpp.so")
          ⊎ ((dir : Bytes) × (codes "/data/lib/libil2cpp.so" ≡ dir ++ 47 ∷ codes "libil2cpp.so"))))
name_matches_iff_example =
    name_matches_iff (codes "/data/lib/libil2cpp.so") (codes "libil2cpp.so") (ground arith)

-- The first symbol is undefined, the second one is taken.
symbol_loop-IsScanned_example :
    IsScanned image lib tables
      (codes "il2cpp_domain_get")
      0
      2
      (symbol_loop image lib tables (codes "il2cpp_domain_get") 2 0)
symbol_loop-IsScanned_example =
    symbol_loop-IsScanned image lib tables (codes "il2cpp_domain_get") 2 0

lookup_returns_example : (p : Ptr) × (lookup image 9 lib (codes "il2cpp_domain_get") ≡ some p)
lookup_returns_example = lookup_returns image lib (codes "il2cpp_domain_get") 3 9 refl (omega arith)

-- The second library of the image is found.
find_library_cases_example :
    (Unnamed (codes "libil2cpp.so") image.loaded
      × (find_library image (codes "libil2cpp.so") ≡ none)
      × (find_symbol image 9 (codes "libil2cpp.so") (codes "il2cpp_domain_get") ≡ some 0))
    ⊎ ((info : Info) × IsFirstNamed (codes "libil2cpp.so") image.loaded info
        × (is_null info.dlpi_phdr ≡ true
            → (find_library image (codes "libil2cpp.so") ≡ none)
              × (find_symbol image 9 (codes "libil2cpp.so") (codes "il2cpp_domain_get") ≡ some 0))
        × (is_null info.dlpi_phdr ≡ false
            → (find_library image (codes "libil2cpp.so") ≡ some info.dlpi_addr)
              × (find_symbol image 9 (codes "libil2cpp.so") (codes "il2cpp_domain_get")
                  ≡ lookup image 9
                      (found_at (codes "libil2cpp.so") info)
                      (codes "il2cpp_domain_get"))))
find_library_cases_example =
    find_library_cases (codes "libil2cpp.so") image 9 (codes "il2cpp_domain_get")

find_library_runs : find_library image (codes "libil2cpp.so") ≡ some 4096
unfolding find_library find name_matches iterate
find_library_runs = refl

find_symbol_runs :
    find_symbol image 9 (codes "libil2cpp.so") (codes "il2cpp_domain_get") ≡ some (4096 + 33)
unfolding find_symbol find name_matches iterate lookup entries_loop symbol_loop dynamic_loop
find_symbol_runs = refl
