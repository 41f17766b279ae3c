-- ===== src/Alive/Hooks.antt =====
-- The hooks of photon_hooks.cpp return.
use old_pixel_gun_3d_online.Base.{◌≡◌, true, Bool, Ptr, ℤ}
use old_pixel_gun_3d_online.State.{
  Env, Hook, select_app_id, use_cloud, use_cloud_best, use_cloud_region, use_my_server,
  connect_using_settings, connect_to_master, get_game_version, game_connect, disconnect,
  debug_return, on_status_changed, on_operation_response, failed_to_connect, disconnected,
  connected_to_master,
}
use old_pixel_gun_3d_online.Photon.Probes.{}
use old_pixel_gun_3d_online.Photon.{select_original, hook_select_app_id}
use old_pixel_gun_3d_online.Photon.Settings.{}
use old_pixel_gun_3d_online.Photon.Hooks.{
  hook_use_cloud, hook_use_cloud_best, hook_use_cloud_region, hook_use_my_server,
  hook_connect_using_settings, hook_connect_to_master, hook_get_game_version, hook_game_connect,
  hook_disconnect, hook_debug_return, hook_on_status_changed, hook_on_operation_response,
  hook_failed_to_connect, hook_disconnected, hook_connected_to_master,
}
use old_pixel_gun_3d_online.Photon.Hooks.Client.{
  Call, Allowed, hooked, call_use_cloud, call_use_cloud_best, call_use_cloud_region,
  call_use_my_server, call_connect_using_settings, call_connect_to_master, call_get_game_version,
  call_game_connect, call_disconnect, call_debug_return, call_on_status_changed,
  call_on_operation_response, call_failed_to_connect, call_disconnected, call_connected_to_master,
}
use old_pixel_gun_3d_online.Alive.{Robust}
use old_pixel_gun_3d_online.Alive.Rules.{
  Survives, alive_rules, Survives-read_field, Survives-void, Survives-bool, Survives-ptr,
}
use old_pixel_gun_3d_online.Alive.Probes.{
  Survives-current_server_settings, Survives-connection_state, Survives-server_address,
  Survives-log_auth_snapshot, Survives-enable_verbose_photon_logs, Survives-log_settings,
}

pub ruleset hook_rules = (
  alive_rules, Survives-read_field, Survives-current_server_settings, Survives-connection_state,
  Survives-server_address, Survives-log_auth_snapshot, Survives-enable_verbose_photon_logs,
  Survives-log_settings, Survives-void, Survives-bool, Survives-ptr,
)

-- The hook behind a traced entry.
abbrev pub hook_of : Call → Hook
hook_of (call_use_cloud self app_id method) = use_cloud
hook_of (call_use_cloud_best self app_id method) = use_cloud_best
hook_of (call_use_cloud_region self app_id region method) = use_cloud_region
hook_of (call_use_my_server self address port app_id method) = use_my_server
hook_of (call_connect_using_settings game_version method) = connect_using_settings
hook_of (call_connect_to_master address port app_id game_version method) = connect_to_master
hook_of (call_get_game_version method) = get_game_version
hook_of (call_game_connect method) = game_connect
hook_of (call_disconnect method) = disconnect
hook_of (call_debug_return self level message method) = debug_return
hook_of (call_on_status_changed self status method) = on_status_changed
hook_of (call_on_operation_response self response method) = on_operation_response
hook_of (call_failed_to_connect self cause method) = failed_to_connect
hook_of (call_disconnected self method) = disconnected
hook_of (call_connected_to_master self method) = connected_to_master

module _ {W : Type 0} (E : Env W) (IsReached : Hook → Type 0) (up : Bool)
    ⦃robust : Robust E IsReached⦄ where
  pub Survives-hook_select_app_id :
      (settings method : Ptr)
      → IsReached select_app_id
      → Survives E IsReached up (hook_select_app_id E settings method)
  unfolding hook_select_app_id select_original
  Survives-hook_select_app_id settings method reached = search hook_rules depth 60

  Survives-hook_use_cloud :
      (self app_id method : Ptr)
      → IsReached use_cloud
      → Survives E IsReached up (hook_use_cloud E self app_id method)
  unfolding hook_use_cloud
  Survives-hook_use_cloud self app_id method reached = search hook_rules depth 60

  Survives-hook_use_cloud_best :
      (self app_id method : Ptr)
      → IsReached use_cloud_best
      → Survives E IsReached up (hook_use_cloud_best E self app_id method)
  unfolding hook_use_cloud_best
  Survives-hook_use_cloud_best self app_id method reached = search hook_rules depth 60

  Survives-hook_use_cloud_region :
      (self app_id : Ptr) (region : ℤ) (method : Ptr)
      → IsReached use_cloud_region
      → Survives E IsReached up (hook_use_cloud_region E self app_id region method)
  unfolding hook_use_cloud_region
  Survives-hook_use_cloud_region self app_id region method reached = search hook_rules depth 60

  Survives-hook_use_my_server :
      (self address : Ptr) (port : ℤ) (app_id method : Ptr)
      → IsReached use_my_server
      → Survives E IsReached up (hook_use_my_server E self address port app_id method)
  unfolding hook_use_my_server
  Survives-hook_use_my_server self address port app_id method reached = search hook_rules depth 60

  Survives-hook_connect_using_settings :
      (game_version method : Ptr)
      → IsReached connect_using_settings
      → up ≡ true
      → Survives E IsReached up (hook_connect_using_settings E game_version method)
  unfolding hook_connect_using_settings
  Survives-hook_connect_using_settings game_version method reached on = search hook_rules depth 60

  Survives-hook_connect_to_master :
      (address : Ptr) (port : ℤ) (app_id game_version method : Ptr)
      → IsReached connect_to_master
      → up ≡ true
      → Survives E IsReached up (hook_connect_to_master E address port app_id game_version method)
  unfolding hook_connect_to_master
  Survives-hook_connect_to_master address port app_id game_version method reached on =
      search hook_rules depth 60

  Survives-hook_get_game_version :
      (method : Ptr)
      → IsReached get_game_version
      → Survives E IsReached up (hook_get_game_version E method)
  unfolding hook_get_game_version
  Survives-hook_get_game_version method reached = search hook_rules depth 60

  Survives-hook_game_connect :
      (method : Ptr) → IsReached game_connect → Survives E IsReached up (hook_game_connect E method)
  unfolding hook_game_connect
  Survives-hook_game_connect method reached = search hook_rules depth 60

  Survives-hook_disconnect :
      (method : Ptr) → IsReached disconnect → Survives E IsReached up (hook_disconnect E method)
  unfolding hook_disconnect
  Survives-hook_disconnect method reached = search hook_rules depth 60

  Survives-hook_debug_return :
      (self : Ptr) (level : ℤ) (message method : Ptr)
      → IsReached debug_return
      → Survives E IsReached up (hook_debug_return E self level message method)
  unfolding hook_debug_return
  Survives-hook_debug_return self level message method reached = search hook_rules depth 60

  Survives-hook_on_status_changed :
      (self : Ptr) (status : ℤ) (method : Ptr)
      → IsReached on_status_changed
      → Survives E IsReached up (hook_on_status_changed E self status method)
  unfolding hook_on_status_changed
  Survives-hook_on_status_changed self status method reached = search hook_rules depth 60

  Survives-hook_on_operation_response :
      (self response method : Ptr)
      → IsReached on_operation_response
      → Survives E IsReached up (hook_on_operation_response E self response method)
  unfolding hook_on_operation_response
  Survives-hook_on_operation_response self response method reached = search hook_rules depth 60

  Survives-hook_failed_to_connect :
      (self : Ptr) (cause : ℤ) (method : Ptr)
      → IsReached failed_to_connect
      → Survives E IsReached up (hook_failed_to_connect E self cause method)
  unfolding hook_failed_to_connect
  Survives-hook_failed_to_connect self cause method reached = search hook_rules depth 60

  Survives-hook_disconnected :
      (self method : Ptr)
      → IsReached disconnected
      → Survives E IsReached up (hook_disconnected E self method)
  unfolding hook_disconnected
  Survives-hook_disconnected self method reached = search hook_rules depth 60

  Survives-hook_connected_to_master :
      (self method : Ptr)
      → IsReached connected_to_master
      → Survives E IsReached up (hook_connected_to_master E self method)
  unfolding hook_connected_to_master
  Survives-hook_connected_to_master self method reached = search hook_rules depth 60

  pub Survives-hooked :
      (c : Call)
      → Allowed (up ≡ true) c
      → IsReached (hook_of c)
      → Survives E IsReached up (hooked E c)
  Survives-hooked (call_use_cloud self app_id method) on reached =
      Survives-hook_use_cloud self app_id method reached
  Survives-hooked (call_use_cloud_best self app_id method) on reached =
      Survives-hook_use_cloud_best self app_id method reached
  Survives-hooked (call_use_cloud_region self app_id region method) on reached =
      Survives-hook_use_cloud_region self app_id region method reached
  Survives-hooked (call_use_my_server self address port app_id method) on reached =
      Survives-hook_use_my_server self address port app_id method reached
  Survives-hooked (call_connect_using_settings game_version method) on reached =
      Survives-hook_connect_using_settings game_version method reached on
  Survives-hooked (call_connect_to_master address port app_id game_version method) on reached =
      Survives-hook_connect_to_master address port app_id game_version method reached on
  Survives-hooked (call_get_game_version method) on reached =
      Survives-hook_get_game_version method reached
  Survives-hooked (call_game_connect method) on reached = Survives-hook_game_connect method reached
  Survives-hooked (call_disconnect method) on reached = Survives-hook_disconnect method reached
  Survives-hooked (call_debug_return self level message method) on reached =
      Survives-hook_debug_return self level message method reached
  Survives-hooked (call_on_status_changed self status method) on reached =
      Survives-hook_on_status_changed self status method reached
  Survives-hooked (call_on_operation_response self response method) on reached =
      Survives-hook_on_operation_response self response method reached
  Survives-hooked (call_failed_to_connect self cause method) on reached =
      Survives-hook_failed_to_connect self cause method reached
  Survives-hooked (call_disconnected self method) on reached =
      Survives-hook_disconnected self method reached
  Survives-hooked (call_connected_to_master self method) on reached =
      Survives-hook_connected_to_master self method reached
