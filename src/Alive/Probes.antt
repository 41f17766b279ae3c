-- ===== src/Alive/Probes.antt =====
-- The probes of photon_hooks.cpp return.
use Prim.Native.String.{String}
use old_pixel_gun_3d_online.Base.{◌≡◌, true, Bool, Ptr}
use old_pixel_gun_3d_online.State.{Env, Hook}
use old_pixel_gun_3d_online.Photon.Probes.{
  cache_method, cache_field, current_server_settings, connection_state, server_address,
  secret_length, log_auth_fields, log_auth_snapshot, set_log_level, networking_peer, set_debug_out,
  enable_verbose_photon_logs, log_settings,
}
use old_pixel_gun_3d_online.Alive.{Robust}
use old_pixel_gun_3d_online.Alive.Rules.{
  Survives, alive_rules, Survives-read_field, Survives-invoke_void, Survives-invoke_ptr,
  Survives-invoke_int,
}

ruleset probe_rules = (
  alive_rules, Survives-read_field, Survives-invoke_void, Survives-invoke_ptr, Survives-invoke_int,
)

module _ {W : Type 0} (E : Env W) (IsReached : Hook → Type 0) (up : Bool)
    ⦃robust : Robust E IsReached⦄ where
  pub Survives-current_server_settings :
      up ≡ true → Survives E IsReached up (current_server_settings E)
  unfolding current_server_settings cache_field
  Survives-current_server_settings on = search alive_rules depth 40

  pub Survives-connection_state : Survives E IsReached up (connection_state E)
  unfolding connection_state cache_method
  Survives-connection_state = search probe_rules depth 40

  pub Survives-server_address : Survives E IsReached up (server_address E)
  unfolding server_address cache_method
  Survives-server_address = search probe_rules depth 40

  pub Survives-log_auth_snapshot :
      (point : String) → Survives E IsReached up (log_auth_snapshot E point)
  unfolding log_auth_snapshot cache_method log_auth_fields secret_length
  Survives-log_auth_snapshot point = search probe_rules depth 80

  pub Survives-enable_verbose_photon_logs :
      up ≡ true → Survives E IsReached up (enable_verbose_photon_logs E)
  unfolding enable_verbose_photon_logs set_log_level networking_peer set_debug_out cache_method
      cache_field
  Survives-enable_verbose_photon_logs on = search probe_rules depth 80

  pub Survives-log_settings :
      (point : String) (settings : Ptr) → Survives E IsReached up (log_settings E point settings)
  unfolding log_settings
  Survives-log_settings point settings = search probe_rules depth 80
