-- ===== src/ElfSym.antt =====
-- elf_sym.cpp: finding a loaded library and a symbol of its dynamic symbol table. The loader's list
-- and the mapped memory are arguments (`Image`); addresses are those of the one ABI that is built,
-- armeabi-v7a, where `uintptr_t` has 32 bits.
pub mod Names
pub mod Scan
pub mod Libraries
use Prim.Native.String.{String}
use old_pixel_gun_3d_online.Base.{
  ℕ, zero, suc, ◌+◌, ◌%◌, ◌^◌, Bool, true, false, ◌||◌, not, ◌==◌, ltb, Option, none, some, List,
  [], ◌∷◌, Bytes, codes, Ptr, null, is_null, str_eq, if◌then◌else◌,
}

-- `dl_phdr_info`, `ElfW(Phdr)`, `ElfW(Dyn)` and `ElfW(Sym)` of the system's headers.
pub record Info : Type 0 where
  -- a null name is `none`
  pub dlpi_name : Option Bytes
  pub dlpi_addr : Ptr
  pub dlpi_phdr : Ptr
  pub dlpi_phnum : ℕ

pub record Phdr : Type 0 where
  pub p_type : ℕ
  pub p_vaddr : ℕ

pub record Dyn : Type 0 where
  pub d_tag : ℕ
  pub d_ptr : ℕ

pub record Sym : Type 0 where
  pub st_name : ℕ
  pub st_value : ℕ
  pub st_shndx : ℕ

-- What `dl_iterate_phdr` goes through, in its order, and the entries of the arrays at an address.
pub record Image : Type 0 where
  pub loaded : List Info
  pub phdr_at : Ptr → ℕ → Phdr
  pub dyn_at : Ptr → ℕ → Dyn
  pub sym_at : Ptr → ℕ → Sym
  pub word_at : Ptr → ℕ → ℕ
  pub text_at : Ptr → Bytes

-- PT_DYNAMIC; DT_HASH, DT_STRTAB, DT_SYMTAB (DT_NULL is 0, and so is SHN_UNDEF).
abbrev pub pt_dynamic : ℕ
pt_dynamic = 2

abbrev dt_hash : ℕ
dt_hash = 4

abbrev dt_strtab : ℕ
dt_strtab = 5

abbrev dt_symtab : ℕ
dt_symtab = 6

abbrev pub addr32 : ℕ → Ptr
addr32 a = a % 2 ^ 32

-- `std::strrchr`: from the last place where the byte stands.
abbrev pub strrchr : ℕ → Bytes → Option Bytes
strrchr c [] = none
strrchr c (b ∷ bs) = elim (strrchr c bs) [
  | some tail ↦ some tail
  | none ↦ if b == c then some (b ∷ bs) else none
]

-- `(slash != nullptr) ? slash + 1 : path`
abbrev pub file_of : Bytes → Bytes
file_of path = elim (strrchr 47 path) [ none ↦ path | some [] ↦ path | some (slash ∷ file) ↦ file ]

unfoldable pub name_matches : Option Bytes → Bytes → Bool
name_matches none soname = false
name_matches (some []) soname = false
name_matches (some (b ∷ bs)) soname = str_eq (file_of (b ∷ bs)) soname

pub record Found : Type 0 where
  pub base : Ptr
  pub phdr : Ptr
  pub phnum : ℕ
  pub ok : Bool

-- `dl_iterate_phdr(iterate_cb, out)`, which stops where the callback returns 1.
unfoldable pub iterate : List Info → Bytes → Found → Found
iterate [] soname found = found
iterate (info ∷ infos) soname found =
    let rest = iterate infos soname found in
    if not (name_matches info.dlpi_name soname)
    then rest
    else record { base = info.dlpi_addr; phdr = info.dlpi_phdr; phnum = info.dlpi_phnum; ok = true }

abbrev pub fix_addr : ℕ → Ptr → Ptr
fix_addr value base = if ltb value base then addr32 (base + value) else value

-- `strtab`, `symtab` and `hash`.
pub record Tables : Type 0 where
  pub strtab : Ptr
  pub symtab : Ptr
  pub hash : Ptr

-- One round of the `switch`.
abbrev pub entry : Ptr → Dyn → Tables → Tables
entry base dyn t =
    let v = fix_addr dyn.d_ptr base in
    if dyn.d_tag == dt_strtab
    then record t { strtab = v }
    else if dyn.d_tag == dt_symtab
    then record t { symtab = v }
    else if dyn.d_tag == dt_hash
    then record t { hash = v }
    else t

module _ (I : Image) where
  open I use {loaded, phdr_at, dyn_at, sym_at, word_at, text_at}

  -- The loop for PT_DYNAMIC from header `i` on, with `left` headers to go.
  unfoldable pub dynamic_loop : Found → ℕ → ℕ → Ptr
  dynamic_loop lib zero i = null
  dynamic_loop lib (suc left) i =
      let rest = dynamic_loop lib left (i + 1) in
      let header = phdr_at lib.phdr i in
      if header.p_type == pt_dynamic then addr32 (lib.base + header.p_vaddr) else rest

  -- The loop over the dynamic entries; it ends at DT_NULL, and `none` is one that is not there.
  unfoldable pub entries_loop : Ptr → Ptr → (fuel i : ℕ) → Tables → Option Tables
  entries_loop base dyn zero i t = none
  entries_loop base dyn (suc fuel) i t =
      let rest = entries_loop base dyn fuel (i + 1) (entry base (dyn_at dyn i) t) in
      if (dyn_at dyn i).d_tag == 0 then some t else rest

  -- `sym` is defined and bears this name.
  abbrev pub bears : Ptr → Sym → Bytes → Bool
  bears strtab sym symbol =
      if sym.st_name == 0 || sym.st_value == 0
      then false
      else if sym.st_shndx == 0
      then false
      else str_eq (text_at (addr32 (strtab + sym.st_name))) symbol

  -- The scan of the symbol table.
  unfoldable pub symbol_loop : Found → Tables → Bytes → (left i : ℕ) → Ptr
  symbol_loop lib t symbol zero i = null
  symbol_loop lib t symbol (suc left) i =
      let rest = symbol_loop lib t symbol left (i + 1) in
      let sym = sym_at t.symtab i in
      if bears t.strtab sym symbol then addr32 (lib.base + sym.st_value) else rest

  abbrev no_tables : Tables
  no_tables = record { strtab = null; symtab = null; hash = null }

  -- `fuel` bounds the number of dynamic entries that are read.
  unfoldable pub lookup : ℕ → Found → Bytes → Option Ptr
  unfolding dynamic_loop
  lookup fuel lib symbol =
      let dyn = dynamic_loop lib lib.phnum 0 in
      if is_null dyn then some null else elim (entries_loop lib.base dyn fuel 0 no_tables) [
        | none ↦ none
        | some t ↦
            if is_null t.strtab || is_null t.symtab || is_null t.hash
            then some null
            else some (symbol_loop lib t symbol (word_at t.hash 1) 0)
      ]

  abbrev blank : Found
  blank = record { base = 0; phdr = null; phnum = 0; ok = false }

  -- The `Found` of a library that is there, `none` for `return false`.
  unfoldable pub find : Bytes → Option Found
  find soname =
      let out = iterate loaded soname blank in
      if not out.ok || is_null out.phdr then none else some out

  -- `*base_out`, `none` for `return false`.
  unfoldable pub find_library : Bytes → Option Ptr
  find_library soname = elim (find soname) [ none ↦ none | some lib ↦ some lib.base ]

  unfoldable pub find_symbol : ℕ → Bytes → Bytes → Option Ptr
  find_symbol fuel soname symbol = elim (find soname) [
    | none ↦ some null
    | some lib ↦ lookup fuel lib symbol
  ]
