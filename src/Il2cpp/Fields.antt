-- ===== src/Il2cpp/Fields.antt =====
-- `read_field`, the template that photon_hooks.cpp and cloud_guard.h both define. The address of the
-- value is that of a local at every call, so its null test is left out; `sizeof(T)` is an argument.
pub mod Values
use Prim.Native.String.{String}
use old_pixel_gun_3d_online.Base.{
  ℕ, zero, suc, ◌+◌, ◌*◌, ◌≤◌, arith, ◌≡◌, ◌≢◌, Bool, true, false, ◌&&◌, ◌||◌, not, ◌==◌, Option,
  none, some, List, [], ◌∷◌, ◌++◌, Bytes, Ptr, null, is_null, ltb, length, take, drop, replicate, ℤ,
  signed32, if◌then◌else◌,
}
use old_pixel_gun_3d_online.State.{
  Env, Export, State, object_get_class, class_get_field_from_name, field_get_value,
}
use old_pixel_gun_3d_online.State.Monad.{M}

-- `alignas(8) uint8_t scratch[16] = {0}`
abbrev pub scratch : Bytes
scratch = replicate 16 0

-- Bytes copied to the start of a buffer.
abbrev pub overlay : Bytes → Bytes → Bytes
overlay copied buffer = copied ++ drop (length copied) buffer

-- The number in the bytes, lowest first: ARM is little-endian.
abbrev pub le_value : Bytes → ℕ
le_value [] = 0
le_value (b ∷ bs) = b + 256 * le_value bs

-- The variable keeps its initial value where nothing was read.
abbrev pub int_or : ℤ → Option Bytes → ℤ
int_or initial none = initial
int_or initial (some read) = signed32 (le_value read)

abbrev pub is_read : Option Bytes → Bool
is_read none = false
is_read (some read) = true

abbrev pub ptr_or : Ptr → Option Bytes → Ptr
ptr_or initial none = initial
ptr_or initial (some read) = le_value read

module _ {W : Type 0} (E : Env W) where
  open E use {platform}

  -- The read on given export pointers and world: the first `size` bytes of the buffer, or `some none`
  -- for `return false`. A field wider than the buffer is written past its end: `none`.
  unfoldable pub field_bytes : ℕ → Ptr → String → (Export → Ptr) → W → Option (Option Bytes)
  field_bytes size object name slots w =
      let klass = platform.il2cpp_object_get_class object w in
      let field = platform.il2cpp_class_get_field_from_name klass name w in
      let copied = platform.il2cpp_field_get_value object field w in
      if is_null object
        || is_null (slots object_get_class)
        || is_null (slots class_get_field_from_name)
        || is_null (slots field_get_value)
      then some none
      else if is_null klass
      then some none
      else if is_null field
      then some none
      else if ltb 16 (length copied)
      then none
      else some (some (take size (overlay copied scratch)))

  unfoldable pub read_field : ℕ → Ptr → String → M W (Option Bytes)
  read_field size object name s = elim (field_bytes size object name s.slots s.world) [
    | none ↦ none
    | some read ↦ some (read, s)
  ]

  pub read_field-fault :
      (size : ℕ) (object : Ptr) (name : String) (s : State W)
      → field_bytes size object name s.slots s.world ≡ none
      → read_field size object name s ≡ none
  unfolding read_field
  read_field-fault size object name s e = rw (e, read_field)

  pub read_field-some :
      (size : ℕ) (object : Ptr) (name : String) (s : State W) {r : Option Bytes}
      → field_bytes size object name s.slots s.world ≡ some r
      → read_field size object name s ≡ some (r, s)
  unfolding read_field
  read_field-some size object name s e = rw (e, read_field)

  -- A field no wider than the buffer is read without a fault.
  pub field_bytes-ne-none :
      (size : ℕ) (object : Ptr) (name : String) (s : State W)
      → length (
          platform.il2cpp_field_get_value object
            (platform.il2cpp_class_get_field_from_name
              (platform.il2cpp_object_get_class object s.world)
              name
              s.world)
            s.world)
        ≤ 16
      → field_bytes size object name s.slots s.world ≢ none
  unfolding field_bytes
  field_bytes-ne-none size object name s fits e = ground arith
