-- ===== src/Il2cpp/Metadata/Images.antt =====
-- `find_image`: the first assembly whose image bears the name.
use old_pixel_gun_3d_online.Base.{
  ℕ, zero, suc, ◌+◌, ◌≡◌, refl, inl, inr, true, false, ◌&&◌, Bytes, Ptr, null, is_null,
  if◌then◌else◌, arith, Bool-cases,
}
use old_pixel_gun_3d_online.State.{
  Env, Platform, State, domain_get, domain_get_assemblies, assembly_get_image, image_get_name,
}
use old_pixel_gun_3d_online.State.Monad.{bound}
use old_pixel_gun_3d_online.Il2cpp.Metadata.{image_loop, find_image, unusable, named}
use old_pixel_gun_3d_online.Il2cpp.Metadata.Search.{IsFirst, IsFirst-here, IsFirst-later}

-- The image of the assembly at an index of the array if it bears the name, null otherwise.
abbrev pub image_at : {W : Type 0} → Platform W → W → Ptr → Bytes → ℕ → Ptr
image_at P w assemblies name i =
    let image = P.il2cpp_assembly_get_image (P.assembly_at assemblies i w) w in
    if is_null (P.assembly_at assemblies i w)
    then null
    else if is_null image
    then null
    else if named (P.il2cpp_image_get_name image w) name
    then image
    else null

module _ {W : Type 0} (P : Platform W) (w : W) (assemblies : Ptr) (name : Bytes) where
  image_loop-step :
      (left i : ℕ)
      → image_loop P w assemblies name (suc left) i ≡ (
          if is_null (image_at P w assemblies name i)
          then image_loop P w assemblies name left (i + 1)
          else image_at P w assemblies name i)
  unfolding image_loop
  image_loop-step left i = ground arith

  image_loop-IsFirst :
      (left i : ℕ)
      → IsFirst (image_at P w assemblies name) i left (image_loop P w assemblies name left i)
  image_loop-IsFirst zero i = unfold image_loop in inl (refl, λ k l m. absurd (omega arith))
  image_loop-IsFirst (suc left) i = elim (Bool-cases (is_null (image_at P w assemblies name i))) [
    | inl miss ↦
        rw (image_loop-step left i, miss)
          (IsFirst-later (image_at P w assemblies name) i left _ (ground arith)
            (image_loop-IsFirst left (i + 1)))
    | inr hit ↦
        rw (image_loop-step left i, hit)
          (IsFirst-here (image_at P w assemblies name) i left _ refl (ground arith))
  ]

module _ {W : Type 0} (E : Env W) (name : Bytes) (s : State W) where
  abbrev all_assemblies : Ptr × ℕ
  all_assemblies = E.il2cpp_domain_get_assemblies (E.il2cpp_domain_get s.world) s.world

  -- With the four exports bound, a domain, and an assembly array of 1 to 8192 entries, `find_image`
  -- returns the image of the first assembly whose image bears the name, and null only if none does.
  pub find_image-IsFirst :
      bound domain_get s
          && bound domain_get_assemblies s
          && bound assembly_get_image s
          && bound image_get_name s
        ≡ true
      → is_null (E.il2cpp_domain_get s.world) ≡ false
      → unusable all_assemblies.0 all_assemblies.1 ≡ false
      → IsFirst
          (image_at E.platform s.world all_assemblies.0 name)
          0
          all_assemblies.1
          (find_image E name s)
  unfolding find_image
  find_image-IsFirst b d u =
      rw (b, d, u) (image_loop-IsFirst E.platform s.world all_assemblies.0 name all_assemblies.1 0)
