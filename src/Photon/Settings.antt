-- ===== src/Photon/Settings.antt =====
-- `write_field` and `apply_config_to_settings` of photon_hooks.cpp: the build's AppID and endpoint are
-- written into the game's settings object.
pub mod Rules
pub mod Kept
pub mod Stored
pub mod Selfhosted
use Prim.Native.String.{String}
use old_pixel_gun_3d_online.Base.{
  ℕ, ◌-◌, ◌%◌, ◌^◌, Bool, true, false, not, ◌&&◌, ◌||◌, [], ◌∷◌, Bytes, Ptr, is_null, ℤ, pos,
  negsuc,
}
use old_pixel_gun_3d_online.State.{
  Env, str, string_new, object_get_class, class_get_field_from_name, field_set_value,
}
use old_pixel_gun_3d_online.State.Monad.{
  M, ◌>>=◌, ◌>>◌, pure, gets, acts, changes, branch, bound, through, logi,
}
use old_pixel_gun_3d_online.Il2cpp.Fields.Values.{le_bytes}
use old_pixel_gun_3d_online.Cloud.{is_empty}

-- The bits of an `int32_t`.
abbrev pub bits32 : ℤ → ℕ
bits32 (pos n) = n % 2 ^ 32
bits32 (negsuc n) = 2 ^ 32 - 1 - n % 2 ^ 32

module _ {W : Type 0} (E : Env W) where
  open E use {platform}

  -- The bytes of the variable `value` are what `&value` points at.
  unfoldable pub write_field : Ptr → String → Bytes → M W Bool
  write_field object name value = do
    there ← gets (λ s.
        not (is_null object)
        && bound object_get_class s
        && bound class_get_field_from_name s
        && bound field_set_value s)
    klass ← gets (λ s. platform.il2cpp_object_get_class object s.world)
    field ← gets (λ s. platform.il2cpp_class_get_field_from_name klass name s.world)
    branch (not there) (pure false) (
        branch (is_null klass) (pure false) (
          branch (is_null field) (pure false)
            (do changes (platform.il2cpp_field_set_value object field value); pure true)))

  -- The AppID of the build.
  unfoldable pub write_app_id : Ptr → M W Bool
  write_app_id settings =
      branch (not (is_empty E.app_id))
        (do
          through string_new
          app_id ← acts (platform.il2cpp_string_new E.app_id)
          branch (not (is_null app_id)) (write_field settings "AppID" (le_bytes 4 app_id))
              (pure false))
        (pure false)

  -- The address and port of the build, the same text in both of its modes.
  unfoldable pub write_endpoint : Ptr → M W Bool
  write_endpoint settings =
      branch (not (is_empty E.server_address))
        (do
          through string_new
          address ← acts (platform.il2cpp_string_new E.server_address)
          host ← write_field settings "ServerAddress" (le_bytes 4 address)
          port ← write_field settings "ServerPort" (le_bytes 4 (bits32 E.server_port))
          pure (host || port))
        (pure false)

  -- `#ifdef PHOTON_MODE_SELFHOSTED`
  unfoldable pub write_mode : Ptr → M W Bool
  write_mode settings =
      branch E.selfhosted
        (do
          host ← write_field settings "HostType" (le_bytes 4 2)
          protocol ← write_field settings "Protocol" (le_bytes 4 0)
          pure (host || protocol))
        (pure false)

  unfoldable pub apply_config_to_settings : Ptr → String → M W Bool
  apply_config_to_settings settings point = branch (is_null settings) (pure false) (do
    app_id ← write_app_id settings
    mode ← write_mode settings
    endpoint ← write_endpoint settings
    branch (app_id || mode || endpoint)
        (logi "settings[%s]: build configuration applied" (str point ∷ [])) (pure tt)
    pure (app_id || mode || endpoint))
