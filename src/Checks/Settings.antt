-- ===== src/Checks/Settings.antt =====
-- The configuration of the settings object in a runtime whose settings have three fields, and where a
-- write stores as many bytes as the field is wide.
use Prim.Native.String.{String}
use text.Mathlib.Text.{◌==◌ as same_text}
use text.Mathlib.TextEquality.{eq_iff}
use old_pixel_gun_3d_online.Base.{
  ◌≡◌, ◌≢◌, refl, sym, true, false, take, length, [], ◌∷◌, Bytes, ◌==◌, Ptr, is_null, inl, inr,
  arith, Bool-cases, codes_differ, if◌then◌else◌,
}
use old_pixel_gun_3d_online.State.{Env, Platform, State}
use old_pixel_gun_3d_online.State.Monad.{Returns}
use old_pixel_gun_3d_online.Il2cpp.Fields.{field_bytes}
use old_pixel_gun_3d_online.Photon.Settings.{apply_config_to_settings}
use old_pixel_gun_3d_online.Photon.Settings.Kept.{IsConfigured, apply_config-keeps}
use old_pixel_gun_3d_online.Photon.Settings.Rules.{Fields}
use old_pixel_gun_3d_online.Photon.Settings.Stored.{Stores, Reads}
use old_pixel_gun_3d_online.Photon.Settings.Selfhosted.{
  host_type, protocol, apply_config-selfhosted,
}
use old_pixel_gun_3d_online.Checks.Toy.{World, config, platform as toy_platform, start, toy}

abbrev slot : String → Ptr
slot name =
    if same_text name "HostType"
    then 71
    else if same_text name "Protocol"
    then 75
    else if same_text name "AppID"
    then 73
    else 0

abbrev name_at : Ptr → String
name_at p = if p == 71 then "HostType" else if p == 75 then "Protocol" else "AppID"

slot-name_at : (name : String) → is_null (slot name) ≡ false → name_at (slot name) ≡ name
slot-name_at name = elim (Bool-cases (same_text name "HostType")) [
  | inl e ↦ rw e (λ h. sym ((eq_iff name "HostType").0 e))
  | inr a ↦ elim (Bool-cases (same_text name "Protocol")) [
    | inl e ↦ rw (a, e) (λ h. sym ((eq_iff name "Protocol").0 e))
    | inr b ↦ elim (Bool-cases (same_text name "AppID")) [
      | inl e ↦ rw (a, b, e) (λ h. sym ((eq_iff name "AppID").0 e))
      | inr c ↦ rw (a, b, c) (λ h. ground arith)
    ]
  ]
]

abbrev stored : Ptr → Bytes → (Ptr → Bytes) → Ptr → Bytes
stored field value memory f = if f == field then take (length (memory f)) value else memory f

abbrev platform : Platform World
platform = record toy_platform {
  il2cpp_class_get_field_from_name = λ k name w. slot name;
  il2cpp_field_get_value = λ o f w. w.memory f;
  il2cpp_field_set_value = λ o f value w. record w { memory = stored f value w.memory };
}

-- The protocol is one byte wide, the other fields four.
abbrev begin : State World
begin = record start {
  world = record start.world { memory = λ f. if f == 75 then 9 ∷ [] else 0 ∷ 0 ∷ 0 ∷ 0 ∷ [] };
}

-- The two builds.
abbrev cloud : Env World
cloud = record toy { platform = platform }

abbrev hosted : Env World
hosted = record toy { platform = platform; config = record config { selfhosted = true } }

stored-other :
    (f g : Ptr) (value : Bytes) (memory : Ptr → Bytes) → g ≢ f → stored f value memory g ≡ memory g
stored-other f g value memory ne = ground arith

stored-same :
    (f : Ptr) (value : Bytes) (memory : Ptr → Bytes)
    → stored f value memory f ≡ take (length (memory f)) value
stored-same f value memory = ground arith

fields : Fields platform 50
fields = record {
  set_class = λ f v w. refl;
  set_field = λ f v k n w. refl;
  set_other = λ f g v w ne. stored-other f g v w.memory ne;
  name_at = name_at;
  named = λ k name w there. slot-name_at name there;
  new_class = λ t w. refl;
  new_field = λ t k n w. refl;
  new_value = λ t f w. refl;
}

stores : Stores platform 50
stores = record { set_same = λ f v w e. stored-same f v w.memory }

host-unconfigured : ¬ IsConfigured false "HostType"
host-unconfigured (inl e) = codes_differ "HostType" "AppID" refl e
host-unconfigured (inr (inl e)) = codes_differ "HostType" "ServerAddress" refl e
host-unconfigured (inr (inr (inl e))) = codes_differ "HostType" "ServerPort" refl e
host-unconfigured (inr (inr (inr (e, n)))) = ground arith

apply_config-keeps_example :
    Returns (apply_config_to_settings cloud 50 "SetUpPhoton/end" begin) (λ changed t.
      field_bytes cloud 4 50 "HostType" t.slots t.world
      ≡ field_bytes cloud 4 50 "HostType" begin.slots begin.world)
apply_config-keeps_example =
    apply_config-keeps cloud 50 fields "HostType" "SetUpPhoton/end" 4 begin host-unconfigured refl

apply_config-selfhosted_example :
    Returns
      (apply_config_to_settings hosted 50 "SetUpPhoton/end" begin)
      (λ changed t. (changed ≡ true) × Reads hosted 50 host_type 2 t × Reads hosted 50 protocol 0 t)
apply_config-selfhosted_example =
    apply_config-selfhosted hosted 50 fields stores 4 1 "SetUpPhoton/end" begin refl (omega arith)
      refl
      (record {
        object = refl;
        exports = refl;
        writes = refl;
        klass = refl;
        field = refl;
        size = refl;
        fits = omega arith;
      })
      (record {
        object = refl;
        exports = refl;
        writes = refl;
        klass = refl;
        field = refl;
        size = refl;
        fits = omega arith;
      })
