-- ===== src/Il2cpp/Metadata/Search.antt =====
-- What the lookups find: the first assembly with the class, and no change of any state.
use Prim.Native.String.{String}
use native.Mathlib.Decide.{dec_lt}
use old_pixel_gun_3d_online.Base.{
  ℕ, zero, suc, ◌+◌, ◌<◌, ◌≤◌, ◌≡◌, ◌≢◌, refl, ◌⊎◌, inl, inr, true, false, ◌&&◌, Ptr, null, is_null,
  if◌then◌else◌, arith, Bool-cases,
}
use old_pixel_gun_3d_online.State.{
  Env, Platform, State, domain_get, domain_get_assemblies, assembly_get_image, class_from_name,
}
use old_pixel_gun_3d_online.State.Monad.{bound}
use old_pixel_gun_3d_online.Il2cpp.Metadata.{class_loop, find_class, unusable}

-- `c` is the first value of `f` in [i, i + n) that is not null, or null if there is none.
abbrev pub IsFirst : (ℕ → Ptr) → ℕ → ℕ → Ptr → Type 0
IsFirst f i n c =
    ((c ≡ null) × ((k : ℕ) → i ≤ k → k < i + n → f k ≡ null))
    ⊎ ((c ≢ null)
        × ((j : ℕ) × (i ≤ j) × (j < i + n) × (f j ≡ c) × ((k : ℕ) → i ≤ k → k < j → f k ≡ null)))

at_or_behind :
    (f : ℕ → Ptr) (i : ℕ) → f i ≡ null → (k : ℕ) → i ≤ k → (i + 1 ≤ k → f k ≡ null) → f k ≡ null
at_or_behind f i e k l behind = elim (dec_lt i k) [
  | yes b ↦ behind (omega arith)
  | no b ↦ let same : k ≡ i = omega arith in rw same e
]

module _ (f : ℕ → Ptr) (i n : ℕ) (c : Ptr) where
  pub IsFirst-here : f i ≡ c → c ≢ null → IsFirst f i (suc n) c
  IsFirst-here e h = inr (h, (i, omega arith, omega arith, e, λ k l m. absurd (omega arith)))

  pub IsFirst-later : f i ≡ null → IsFirst f (i + 1) n c → IsFirst f i (suc n) c
  IsFirst-later e (inl (z, all)) =
      inl (z, λ k l m. at_or_behind f i e k l λ b. all k b (omega arith))
  IsFirst-later e (inr (h, (j, l, m, hit, before))) =
      inr (
        h,
        (j, omega arith, omega arith, hit, λ k l' m'. at_or_behind f i e k l' λ b. before k b m'),
      )

-- The class of this name in the assembly at an index of the array, null where there is none.
abbrev pub class_at : {W : Type 0} → Platform W → W → Ptr → String → String → ℕ → Ptr
class_at P w assemblies namespaze name i =
    let image = P.il2cpp_assembly_get_image (P.assembly_at assemblies i w) w in
    if is_null (P.assembly_at assemblies i w)
    then null
    else if is_null image
    then null
    else P.il2cpp_class_from_name image namespaze name w

module _ {W : Type 0} (P : Platform W) (w : W) (assemblies : Ptr) (namespaze name : String) where
  class_loop-step :
      (left i : ℕ)
      → class_loop P w assemblies namespaze name (suc left) i ≡ (
          if is_null (class_at P w assemblies namespaze name i)
          then class_loop P w assemblies namespaze name left (i + 1)
          else class_at P w assemblies namespaze name i)
  unfolding class_loop
  class_loop-step left i = ground arith

  class_loop-IsFirst :
      (left i : ℕ)
      → IsFirst
          (class_at P w assemblies namespaze name)
          i
          left
          (class_loop P w assemblies namespaze name left i)
  class_loop-IsFirst zero i = unfold class_loop in inl (refl, λ k l m. absurd (omega arith))
  class_loop-IsFirst (suc left) i =
      elim (Bool-cases (is_null (class_at P w assemblies namespaze name i))) [
        | inl miss ↦
            rw (class_loop-step left i, miss)
              (IsFirst-later (class_at P w assemblies namespaze name) i left _ (ground arith)
                (class_loop-IsFirst left (i + 1)))
        | inr hit ↦
            rw (class_loop-step left i, hit)
              (IsFirst-here (class_at P w assemblies namespaze name) i left _ refl (ground arith))
      ]

module _ {W : Type 0} (E : Env W) (namespaze name : String) (s : State W) where
  abbrev assemblies_of : Ptr × ℕ
  assemblies_of = E.il2cpp_domain_get_assemblies (E.il2cpp_domain_get s.world) s.world

  -- With the four exports bound, a domain, and an assembly array of 1 to 8192 entries, `find_class`
  -- returns the class of the first assembly that has one of this name, and null only if none has.
  pub find_class-IsFirst :
      bound domain_get s
          && bound domain_get_assemblies s
          && bound assembly_get_image s
          && bound class_from_name s
        ≡ true
      → is_null (E.il2cpp_domain_get s.world) ≡ false
      → unusable assemblies_of.0 assemblies_of.1 ≡ false
      → IsFirst
          (class_at E.platform s.world assemblies_of.0 namespaze name)
          0
          assemblies_of.1
          (find_class E namespaze name s)
  unfolding find_class
  find_class-IsFirst b d u =
      rw (b, d, u)
        (class_loop-IsFirst E.platform s.world assemblies_of.0 namespaze name assemblies_of.1 0)
