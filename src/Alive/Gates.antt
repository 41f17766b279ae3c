-- ===== src/Alive/Gates.antt =====
-- The hooks of cloud_guard.h return.
use Prim.Native.String.{String}
use old_pixel_gun_3d_online.Base.{◌≡◌, true, Bool, ℤ, Ptr}
use old_pixel_gun_3d_online.State.{
  Env, Hook, friends_update, connect_scene_go, connection_control_connect, game_connect_tier,
  game_connect_squad,
}
use old_pixel_gun_3d_online.Cloud.{
  current_server_settings, connection_state, new_app_id, resolve_use_cloud, report, verify,
  apply_route, refuse_missing_app_id, force_cloud, hook_connect_scene_go,
  hook_connection_control_connect, hook_game_connect_tier, hook_game_connect_squad,
  hook_friends_update,
}
use old_pixel_gun_3d_online.Alive.{Robust}
use old_pixel_gun_3d_online.Alive.Rules.{
  Survives, alive_rules, Survives-read_field, Survives-invoke_void, Survives-invoke_int,
  Survives-void, Survives-bool,
}

ruleset gate_rules = (
  alive_rules, Survives-read_field, Survives-invoke_void, Survives-invoke_int, Survives-void,
  Survives-bool,
)

module _ {W : Type 0} (E : Env W) (IsReached : Hook → Type 0) (up : Bool)
    ⦃robust : Robust E IsReached⦄ where
  Survives-apply_route :
      (point : String) (settings app_id : Ptr)
      → Survives E IsReached up (apply_route E point settings app_id)
  unfolding apply_route verify report
  Survives-apply_route point settings app_id = search gate_rules depth 60

  Survives-force_cloud :
      (point : String) (reapply : Bool)
      → up ≡ true
      → Survives E IsReached up (force_cloud E point reapply)
  unfolding force_cloud refuse_missing_app_id current_server_settings new_app_id resolve_use_cloud
  Survives-force_cloud point reapply on = search (alive_rules, Survives-apply_route) depth 80

  pub Survives-hook_connect_scene_go :
      (self method : Ptr)
      → IsReached connect_scene_go
      → up ≡ true
      → Survives E IsReached up (hook_connect_scene_go E self method)
  unfolding hook_connect_scene_go
  Survives-hook_connect_scene_go self method reached on =
      search (gate_rules, Survives-force_cloud) depth 40

  pub Survives-hook_connection_control_connect :
      (self method : Ptr)
      → IsReached connection_control_connect
      → up ≡ true
      → Survives E IsReached up (hook_connection_control_connect E self method)
  unfolding hook_connection_control_connect
  Survives-hook_connection_control_connect self method reached on =
      search (gate_rules, Survives-force_cloud) depth 40

  pub Survives-hook_game_connect_tier :
      (tier : ℤ) (method : Ptr)
      → IsReached game_connect_tier
      → up ≡ true
      → Survives E IsReached up (hook_game_connect_tier E tier method)
  unfolding hook_game_connect_tier
  Survives-hook_game_connect_tier tier method reached on =
      search (gate_rules, Survives-force_cloud) depth 40

  pub Survives-hook_game_connect_squad :
      (method : Ptr)
      → IsReached game_connect_squad
      → up ≡ true
      → Survives E IsReached up (hook_game_connect_squad E method)
  unfolding hook_game_connect_squad
  Survives-hook_game_connect_squad method reached on =
      search (gate_rules, Survives-force_cloud) depth 40

  pub Survives-hook_friends_update :
      (self method : Ptr)
      → IsReached friends_update
      → Survives E IsReached up (hook_friends_update E self method)
  unfolding hook_friends_update connection_state
  Survives-hook_friends_update self method reached = search gate_rules depth 60
