-- ===== src/Secrets/Gates.antt =====
-- The route of cloud_guard.h, its gates and its quarantine run alike in both processes.
use Prim.Native.String.{String}
use old_pixel_gun_3d_online.Base.{Bool, ℤ, Ptr}
use old_pixel_gun_3d_online.State.{Env}
use old_pixel_gun_3d_online.Cloud.{
  current_server_settings, connection_state, new_app_id, resolve_use_cloud, report, verify,
  apply_route, refuse_missing_app_id, force_cloud, hook_connect_scene_go,
  hook_connection_control_connect, hook_game_connect_tier, hook_game_connect_squad,
  hook_friends_update,
}
use old_pixel_gun_3d_online.Secrets.{Secrets, Twins}
use old_pixel_gun_3d_online.Secrets.Reads.{
  find_method_info-same, method_pointer-same, find_field-same,
}
use old_pixel_gun_3d_online.Secrets.Rules.{
  Blind, Blind-touch, Blind-if, Blind-acts, blind_rules, Blind-void, Blind-bool, Blind-invoke_void,
  Blind-invoke_int,
}
use old_pixel_gun_3d_online.Secrets.Probes.{Blind-read_field}
use old_pixel_gun_3d_online.Secrets.Settings.{same_is_empty}

module _ {W : Type 0} (E F : Env W) (V : Secrets W) ⦃twins : Twins E F V⦄ where
  Blind-settings : Blind V (current_server_settings E) (current_server_settings F)
  unfolding current_server_settings
  Blind-settings =
      search (blind_rules, Blind-touch E F V, find_field-same E F V, twins.same_static) depth 40

  Blind-state : Blind V (connection_state E) (connection_state F)
  unfolding connection_state
  Blind-state =
      search
        (
          blind_rules,
          find_method_info-same E F V,
          method_pointer-same E F V,
          Blind-invoke_int E F V,
        )
        depth 40

  Blind-new_app_id : Blind V (new_app_id E) (new_app_id F)
  unfolding new_app_id
  Blind-new_app_id = search (blind_rules, Blind-acts, twins.same_new_app_id) depth 40

  Blind-resolve_use_cloud : Blind V (resolve_use_cloud E) (resolve_use_cloud F)
  unfolding resolve_use_cloud
  Blind-resolve_use_cloud =
      search (blind_rules, find_method_info-same E F V, method_pointer-same E F V) depth 40

  Blind-apply_route :
      (point : String) (settings app_id : Ptr)
      → Blind V (apply_route E point settings app_id) (apply_route F point settings app_id)
  unfolding apply_route verify report
  Blind-apply_route point settings app_id =
      search (blind_rules, Blind-read_field E F V, Blind-invoke_void E F V, twins.same_length) depth
        60

  Blind-force_cloud :
      (point : String) (reapply : Bool)
      → Blind V (force_cloud E point reapply) (force_cloud F point reapply)
  unfolding force_cloud refuse_missing_app_id
  Blind-force_cloud point reapply =
      search
        (
          blind_rules,
          Blind-if,
          Blind-settings,
          Blind-new_app_id,
          Blind-resolve_use_cloud,
          Blind-apply_route,
          same_is_empty E F V,
          twins.same_selfhosted,
        )
        depth 60

  pub Blind-hook_connect_scene_go :
      (self method : Ptr)
      → Blind V (hook_connect_scene_go E self method) (hook_connect_scene_go F self method)
  unfolding hook_connect_scene_go
  Blind-hook_connect_scene_go self method =
      search (blind_rules, Blind-force_cloud, Blind-void E F V) depth 40

  pub Blind-hook_connection_control_connect :
      (self method : Ptr)
      → Blind V
          (hook_connection_control_connect E self method)
          (hook_connection_control_connect F self method)
  unfolding hook_connection_control_connect
  Blind-hook_connection_control_connect self method =
      search (blind_rules, Blind-force_cloud, Blind-void E F V) depth 40

  pub Blind-hook_game_connect_tier :
      (tier : ℤ) (method : Ptr)
      → Blind V (hook_game_connect_tier E tier method) (hook_game_connect_tier F tier method)
  unfolding hook_game_connect_tier
  Blind-hook_game_connect_tier tier method =
      search (blind_rules, Blind-force_cloud, Blind-bool E F V) depth 40

  pub Blind-hook_game_connect_squad :
      (method : Ptr) → Blind V (hook_game_connect_squad E method) (hook_game_connect_squad F method)
  unfolding hook_game_connect_squad
  Blind-hook_game_connect_squad method =
      search (blind_rules, Blind-force_cloud, Blind-bool E F V) depth 40

  pub Blind-hook_friends_update :
      (self method : Ptr)
      → Blind V (hook_friends_update E self method) (hook_friends_update F self method)
  unfolding hook_friends_update
  Blind-hook_friends_update self method =
      search (blind_rules, Blind-state, Blind-void E F V) depth 40
