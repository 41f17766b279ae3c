-- ===== src/Il2cpp/Metadata.antt =====
-- `find_image`, `find_class`, `find_method_info`, `method_pointer` and `find_field` of il2cpp.cpp.
-- Their name arguments are string literals at every call, so the tests for a null name are left out.
pub mod Search
pub mod Images
use Prim.Native.String.{String}
use old_pixel_gun_3d_online.Base.{
  ℕ, zero, suc, ◌+◌, Bool, true, false, ◌&&◌, ◌||◌, not, ◌==◌, Option, none, some, Bytes, Ptr, null,
  is_null, ltb, str_eq, if◌then◌else◌,
}
use old_pixel_gun_3d_online.State.{
  Env, Platform, State, domain_get, domain_get_assemblies, assembly_get_image, image_get_name,
  class_from_name, class_get_method_from_name, class_get_field_from_name,
}
use old_pixel_gun_3d_online.State.Monad.{M, ◌>>=◌, ◌>>◌, pure, gets, reads, branch, bound}

abbrev pub max_assemblies : ℕ
max_assemblies = 8192

abbrev pub named : Option Bytes → Bytes → Bool
named none name = false
named (some image_name) name = str_eq image_name name

module _ {W : Type 0} (P : Platform W) (w : W) (assemblies : Ptr) where
  open P use {assembly_at, il2cpp_assembly_get_image, il2cpp_image_get_name, il2cpp_class_from_name}

  -- The `for` loop of `find_image` from index `i`, with `left` rounds to go.
  pub image_loop : Bytes → ℕ → ℕ → Ptr
  image_loop name zero i = null
  image_loop name (suc left) i =
      let rest = image_loop name left (i + 1) in
      let image = il2cpp_assembly_get_image (assembly_at assemblies i w) w in
      if is_null (assembly_at assemblies i w)
      then rest
      else if is_null image
      then rest
      else if named (il2cpp_image_get_name image w) name
      then image
      else rest

  -- The `for` loop of `find_class`.
  unfoldable pub class_loop : String → String → ℕ → ℕ → Ptr
  class_loop namespaze name zero i = null
  class_loop namespaze name (suc left) i =
      let rest = class_loop namespaze name left (i + 1) in
      let image = il2cpp_assembly_get_image (assembly_at assemblies i w) w in
      let klass = il2cpp_class_from_name image namespaze name w in
      if is_null (assembly_at assemblies i w)
      then rest
      else if is_null image
      then rest
      else if not (is_null klass)
      then klass
      else rest

-- `assemblies == nullptr || count == 0u || count > kMaxAssemblies`
abbrev pub unusable : Ptr → ℕ → Bool
unusable assemblies count = is_null assemblies || count == 0 || ltb max_assemblies count

-- The lookups read the runtime's tables and run no managed code, so they are functions of the state.
module _ {W : Type 0} (E : Env W) where
  open E use {platform}

  unfoldable pub find_image : Bytes → State W → Ptr
  unfolding image_loop
  find_image name s =
      let domain = platform.il2cpp_domain_get s.world in
      let (assemblies, count) = platform.il2cpp_domain_get_assemblies domain s.world in
      if not (
        bound domain_get s
        && bound domain_get_assemblies s
        && bound assembly_get_image s
        && bound image_get_name s)
      then null
      else if is_null domain
      then null
      else if unusable assemblies count
      then null
      else image_loop platform s.world assemblies name count 0

  unfoldable pub find_class : String → String → State W → Ptr
  unfolding class_loop
  find_class namespaze name s =
      let domain = platform.il2cpp_domain_get s.world in
      let (assemblies, count) = platform.il2cpp_domain_get_assemblies domain s.world in
      if not (
        bound domain_get s
        && bound domain_get_assemblies s
        && bound assembly_get_image s
        && bound class_from_name s)
      then null
      else if is_null domain
      then null
      else if unusable assemblies count
      then null
      else class_loop platform s.world assemblies namespaze name count 0

  unfoldable pub find_method_info : String → String → String → ℕ → State W → Ptr
  find_method_info namespaze klass method args_count s =
      let type = find_class namespaze klass s in
      if not (bound class_get_method_from_name s)
      then null
      else if is_null type
      then null
      else platform.il2cpp_class_get_method_from_name type method args_count s.world

  unfoldable pub method_pointer : Ptr → State W → Ptr
  method_pointer method_info s =
      if is_null method_info then null else platform.pointer_at method_info s.world

  unfoldable pub find_field : String → String → String → State W → Ptr
  find_field namespaze klass field s =
      let type = find_class namespaze klass s in
      if not (bound class_get_field_from_name s)
      then null
      else if is_null type
      then null
      else platform.il2cpp_class_get_field_from_name type field s.world
