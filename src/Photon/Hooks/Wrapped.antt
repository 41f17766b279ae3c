-- ===== src/Photon/Hooks/Wrapped.antt =====
-- Each tracing hook of photon_hooks.cpp is built around its original by the rules of Photon.Wrappers.
use old_pixel_gun_3d_online.Base.{ℤ, Ptr, List, [], ◌∷◌}
use old_pixel_gun_3d_online.State.{
  Env, Hook, Value, ptr, num, use_cloud, use_cloud_best, use_cloud_region, use_my_server,
  connect_using_settings, connect_to_master, disconnect, get_game_version, game_connect,
  debug_return, on_status_changed, on_operation_response, failed_to_connect, disconnected,
  connected_to_master,
}
use old_pixel_gun_3d_online.Cloud.{call_original}
use old_pixel_gun_3d_online.Photon.Observers.{View, Probes}
use old_pixel_gun_3d_online.Photon.Rules.{observer_rules}
use old_pixel_gun_3d_online.Photon.Probes.Getters.{
  Observer-connection_state, Observer-server_address, Observer-log_auth_snapshot,
  Observer-log_settings,
}
use old_pixel_gun_3d_online.Photon.Probes.Quiet.{
  Observer-current_server_settings, Observer-enable_verbose_photon_logs,
}
use old_pixel_gun_3d_online.Photon.Wrappers.{
  Wrapper, Keeps, Keeps-call_original, Gives-pure, Gives-bind, Gives-then, Wrapper-original,
  Wrapper-result, Wrapper-void, Wrapper-bind, Wrapper-then,
}
use old_pixel_gun_3d_online.Photon.Hooks.{
  hook_use_cloud, hook_use_cloud_best, hook_use_cloud_region, hook_use_my_server,
  hook_connect_using_settings, hook_connect_to_master, hook_get_game_version, hook_game_connect,
  hook_disconnect, hook_debug_return, hook_on_status_changed, hook_on_operation_response,
  hook_failed_to_connect, hook_disconnected, hook_connected_to_master,
}

ruleset wrapper_rules = (
  observer_rules, Observer-connection_state, Observer-server_address, Observer-log_auth_snapshot,
  Observer-current_server_settings, Observer-enable_verbose_photon_logs, Observer-log_settings,
  Gives-pure, Gives-bind, Gives-then, Wrapper-original, Wrapper-result, Wrapper-void, Wrapper-bind,
  Wrapper-then,
)

module _ {W : Type 0} {E : Env W} {V : View W} ⦃laws : Probes E V⦄ where
  Keeps-void : (h : Hook) (args : List Value) → Keeps E V (call_original E E.invoke_void h args)
  Keeps-void = Keeps-call_original E.invoke_void laws.keeps_void

  Keeps-bool : (h : Hook) (args : List Value) → Keeps E V (call_original E E.invoke_bool h args)
  Keeps-bool = Keeps-call_original E.invoke_bool laws.keeps_bool

  Keeps-ptr : (h : Hook) (args : List Value) → Keeps E V (call_original E E.invoke_ptr h args)
  Keeps-ptr = Keeps-call_original E.invoke_ptr laws.keeps_ptr

  pub Wrapper-hook_use_cloud :
      (self app_id method : Ptr)
      → Wrapper E V
          (call_original E E.invoke_void use_cloud (ptr self ∷ ptr app_id ∷ ptr method ∷ []))
          (hook_use_cloud E self app_id method)
  unfolding hook_use_cloud
  Wrapper-hook_use_cloud self app_id method = search (wrapper_rules, Keeps-void) depth 40

  pub Wrapper-hook_connect_using_settings :
      (game_version method : Ptr)
      → V.IsInitialized
      → Wrapper E V
          (call_original E E.invoke_bool connect_using_settings
            (ptr game_version ∷ ptr method ∷ []))
          (hook_connect_using_settings E game_version method)
  unfolding hook_connect_using_settings
  Wrapper-hook_connect_using_settings game_version method up =
      search (wrapper_rules, Keeps-bool) depth 60

  pub Wrapper-hook_use_cloud_best :
      (self app_id method : Ptr)
      → Wrapper E V
          (call_original E E.invoke_void use_cloud_best (ptr self ∷ ptr app_id ∷ ptr method ∷ []))
          (hook_use_cloud_best E self app_id method)
  unfolding hook_use_cloud_best
  Wrapper-hook_use_cloud_best self app_id method = search (wrapper_rules, Keeps-void) depth 60

  pub Wrapper-hook_use_cloud_region :
      (self app_id : Ptr) (region : ℤ) (method : Ptr)
      → Wrapper E V
          (call_original E E.invoke_void use_cloud_region
            (ptr self ∷ ptr app_id ∷ num region ∷ ptr method ∷ []))
          (hook_use_cloud_region E self app_id region method)
  unfolding hook_use_cloud_region
  Wrapper-hook_use_cloud_region self app_id region method =
      search (wrapper_rules, Keeps-void) depth 60

  pub Wrapper-hook_use_my_server :
      (self address : Ptr) (port : ℤ) (app_id method : Ptr)
      → Wrapper E V
          (call_original E E.invoke_void use_my_server
            (ptr self ∷ ptr address ∷ num port ∷ ptr app_id ∷ ptr method ∷ []))
          (hook_use_my_server E self address port app_id method)
  unfolding hook_use_my_server
  Wrapper-hook_use_my_server self address port app_id method =
      search (wrapper_rules, Keeps-void) depth 60

  pub Wrapper-hook_connect_to_master :
      (address : Ptr) (port : ℤ) (app_id game_version method : Ptr)
      → V.IsInitialized
      → Wrapper E V
          (call_original E E.invoke_bool connect_to_master
            (ptr address ∷ num port ∷ ptr app_id ∷ ptr game_version ∷ ptr method ∷ []))
          (hook_connect_to_master E address port app_id game_version method)
  unfolding hook_connect_to_master
  Wrapper-hook_connect_to_master address port app_id game_version method up =
      search (wrapper_rules, Keeps-bool) depth 60

  pub Wrapper-hook_get_game_version :
      (method : Ptr)
      → Wrapper E V
          (call_original E E.invoke_ptr get_game_version (ptr method ∷ []))
          (hook_get_game_version E method)
  unfolding hook_get_game_version
  Wrapper-hook_get_game_version method = search (wrapper_rules, Keeps-ptr) depth 60

  pub Wrapper-hook_game_connect :
      (method : Ptr)
      → Wrapper E V
          (call_original E E.invoke_bool game_connect (ptr method ∷ []))
          (hook_game_connect E method)
  unfolding hook_game_connect
  Wrapper-hook_game_connect method = search (wrapper_rules, Keeps-bool) depth 60

  pub Wrapper-hook_disconnect :
      (method : Ptr)
      → Wrapper E V
          (call_original E E.invoke_void disconnect (ptr method ∷ []))
          (hook_disconnect E method)
  unfolding hook_disconnect
  Wrapper-hook_disconnect method = search (wrapper_rules, Keeps-void) depth 60

  pub Wrapper-hook_debug_return :
      (self : Ptr) (level : ℤ) (message method : Ptr)
      → Wrapper E V
          (call_original E E.invoke_void debug_return
            (ptr self ∷ num level ∷ ptr message ∷ ptr method ∷ []))
          (hook_debug_return E self level message method)
  unfolding hook_debug_return
  Wrapper-hook_debug_return self level message method = search (wrapper_rules, Keeps-void) depth 60

  pub Wrapper-hook_on_status_changed :
      (self : Ptr) (status : ℤ) (method : Ptr)
      → Wrapper E V
          (call_original E E.invoke_void on_status_changed
            (ptr self ∷ num status ∷ ptr method ∷ []))
          (hook_on_status_changed E self status method)
  unfolding hook_on_status_changed
  Wrapper-hook_on_status_changed self status method = search (wrapper_rules, Keeps-void) depth 60

  pub Wrapper-hook_on_operation_response :
      (self response method : Ptr)
      → Wrapper E V
          (call_original E E.invoke_void on_operation_response
            (ptr self ∷ ptr response ∷ ptr method ∷ []))
          (hook_on_operation_response E self response method)
  unfolding hook_on_operation_response
  Wrapper-hook_on_operation_response self response method =
      search (wrapper_rules, Keeps-void) depth 60

  pub Wrapper-hook_failed_to_connect :
      (self : Ptr) (cause : ℤ) (method : Ptr)
      → Wrapper E V
          (call_original E E.invoke_void failed_to_connect (ptr self ∷ num cause ∷ ptr method ∷ []))
          (hook_failed_to_connect E self cause method)
  unfolding hook_failed_to_connect
  Wrapper-hook_failed_to_connect self cause method = search (wrapper_rules, Keeps-void) depth 60

  pub Wrapper-hook_disconnected :
      (self method : Ptr)
      → Wrapper E V
          (call_original E E.invoke_void disconnected (ptr self ∷ ptr method ∷ []))
          (hook_disconnected E self method)
  unfolding hook_disconnected
  Wrapper-hook_disconnected self method = search (wrapper_rules, Keeps-void) depth 60

  pub Wrapper-hook_connected_to_master :
      (self method : Ptr)
      → Wrapper E V
          (call_original E E.invoke_void connected_to_master (ptr self ∷ ptr method ∷ []))
          (hook_connected_to_master E self method)
  unfolding hook_connected_to_master
  Wrapper-hook_connected_to_master self method = search (wrapper_rules, Keeps-void) depth 60
