-- ===== src/Secrets/Reads.antt =====
-- The lookups of the metadata, the fields and the texts are the same in both processes, and a
-- secret's summary is.
use Prim.Native.String.{String}
use old_pixel_gun_3d_online.Base.{
  ℕ, zero, suc, ◌+◌, ◌==◌, ◌≡◌, refl, ap, ◌∙◌, inl, inr, Bool-cases, not, ◌&&◌, [], Bytes, codes,
  Ptr, is_null, ℤ, pos, negsuc, if◌then◌else◌,
}
use mathlib.Core.Path.{fun_ext}
use old_pixel_gun_3d_online.State.{Env, State, Export, string_length, string_chars}
use old_pixel_gun_3d_online.State.Monad.{bound}
use old_pixel_gun_3d_online.Text.Utf8.{convert}
use old_pixel_gun_3d_online.Il2cpp.Metadata.{
  class_loop, find_class, find_method_info, method_pointer, find_field,
}
use old_pixel_gun_3d_online.Il2cpp.Fields.{field_bytes}
use old_pixel_gun_3d_online.Il2cpp.Strings.{to_utf8}
use old_pixel_gun_3d_online.Photon.{secret_summary, configured_secret_summary}
use old_pixel_gun_3d_online.Secrets.{Secrets, Shown, Twins}

-- What `to_utf8` makes of a string's length, its place and its code units.
abbrev text : {W : Type 0} → Ptr → ℕ → State W → ℤ → Ptr → (ℕ → ℕ) → Bytes
text string max_code_units s length chars units =
    if is_null string
    then codes "<null>"
    else if not (bound string_length s && bound string_chars s)
    then codes "<string-api-unavailable>"
    else elim length [
      | negsuc n ↦ []
      | pos n ↦
          if n == 0
          then []
          else if is_null chars
          then codes "<null-chars>"
          else convert n units max_code_units
    ]

module _ {W : Type 0} (E F : Env W) (V : Secrets W) ⦃twins : Twins E F V⦄ where
  class_loop-same :
      (w u : W)
      → V.Alike w u
      → (assemblies : Ptr) (namespaze name : String) (left i : ℕ)
      → class_loop F.platform u assemblies namespaze name left i
        ≡ class_loop E.platform w assemblies namespaze name left i
  unfolding class_loop
  class_loop-same w u l assemblies namespaze name zero i = refl
  class_loop-same w u l assemblies namespaze name (suc left) i = simp (
    twins.same_assembly_at l,
    twins.same_image l,
    twins.same_class l,
    class_loop-same w u l assemblies namespaze name left (i + 1),
  )

  find_class-same :
      (namespaze name : String) (s : State W) (u : W)
      → V.Alike s.world u
      → find_class F namespaze name (record s { world = u }) ≡ find_class E namespaze name s
  unfolding find_class
  find_class-same namespaze name s u l =
      simp (twins.same_domain l, twins.same_assemblies l, class_loop-same s.world u l)

  pub find_method_info-same :
      (namespaze klass method : String) (count : ℕ) (s : State W) (u : W)
      → V.Alike s.world u
      → find_method_info F namespaze klass method count (record s { world = u })
        ≡ find_method_info E namespaze klass method count s
  unfolding find_method_info
  find_method_info-same namespaze klass method count s u l =
      simp (find_class-same namespaze klass s u l, twins.same_method l)

  pub method_pointer-same :
      (info : Ptr) (s : State W) (u : W)
      → V.Alike s.world u
      → method_pointer F info (record s { world = u }) ≡ method_pointer E info s
  unfolding method_pointer
  method_pointer-same info s u l = simp (twins.same_pointer l)

  pub find_field-same :
      (namespaze klass field : String) (s : State W) (u : W)
      → V.Alike s.world u
      → find_field F namespaze klass field (record s { world = u })
        ≡ find_field E namespaze klass field s
  unfolding find_field
  find_field-same namespaze klass field s u l =
      simp (find_class-same namespaze klass s u l, twins.same_field l)

  pub field_bytes-same :
      (size : ℕ) (object : Ptr) (name : String) (slots : Export → Ptr) (w u : W)
      → V.Alike w u
      → field_bytes F size object name slots u ≡ field_bytes E size object name slots w
  unfolding field_bytes
  field_bytes-same size object name slots w u l =
      simp (twins.same_class_of l, twins.same_field l, twins.same_value l)

  to_utf8-public :
      (string : Ptr) (max_code_units : ℕ) (s : State W) (u : W)
      → V.Alike s.world u
      → ¬ V.IsSecret string
      → to_utf8 F string max_code_units (record s { world = u }) ≡ to_utf8 E string max_code_units s
  unfolding to_utf8
  to_utf8-public string max_code_units s u l public = λ j.
      text string max_code_units s (twins.same_length l string j) (twins.same_chars l string j)
        (fun_ext units j)
    where
      units :
          (i : ℕ)
          → F.unit_at (F.il2cpp_string_chars string u) i u
            ≡ E.unit_at (E.il2cpp_string_chars string s.world) i s.world
      units i =
          ap (λ chars. F.unit_at chars i u) (twins.same_chars l string)
          ∙ twins.same_unit l string public i

  pub to_utf8-same :
      (string : Ptr) (max_code_units : ℕ) (s : State W) (u : W)
      → V.Alike s.world u
      → Shown V string
      → to_utf8 F string max_code_units (record s { world = u }) ≡ to_utf8 E string max_code_units s
  unfolding to_utf8
  to_utf8-same string max_code_units s u l shown = elim (Bool-cases (is_null string)) [
    | inl z ↦ rw (z, to_utf8) refl
    | inr z ↦ to_utf8-public string max_code_units s u l (shown z)
  ]

  pub secret_summary-same :
      (string : Ptr) (s : State W) (u : W)
      → V.Alike s.world u
      → secret_summary F string (record s { world = u }) ≡ secret_summary E string s
  unfolding secret_summary
  secret_summary-same string s u l =
      simp (twins.same_length l, twins.same_text_length string s u l, twins.same_print string s u l)

  pub configured_secret_summary-same : configured_secret_summary F ≡ configured_secret_summary E
  unfolding configured_secret_summary
  configured_secret_summary-same = simp (twins.same_app_length, twins.same_app_print)
