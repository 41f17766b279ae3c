-- ===== src/Checks/Toy/Hooks.antt =====
-- Where the hook functions of the library stand in the toy runtime.
use old_pixel_gun_3d_online.Base.{ℕ, ◌+◌, ◌==◌, Ptr, ◌≡◌, refl, if◌then◌else◌}
use old_pixel_gun_3d_online.State.{
  Hook, select_app_id, set_up_photon, use_cloud, use_cloud_best, use_cloud_region, use_my_server,
  connect_using_settings, connect_to_master, disconnect, get_game_version, game_connect,
  debug_return, on_status_changed, on_operation_response, failed_to_connect, disconnected,
  connected_to_master, friends_update, connect_scene_go, connection_control_connect,
  game_connect_tier, game_connect_squad,
}

-- The hook functions stand one after the other in memory.
abbrev pub hook_index : Hook → ℕ
hook_index select_app_id = 0
hook_index set_up_photon = 1
hook_index use_cloud = 2
hook_index use_cloud_best = 3
hook_index use_cloud_region = 4
hook_index use_my_server = 5
hook_index connect_using_settings = 6
hook_index connect_to_master = 7
hook_index disconnect = 8
hook_index get_game_version = 9
hook_index game_connect = 10
hook_index debug_return = 11
hook_index on_status_changed = 12
hook_index on_operation_response = 13
hook_index failed_to_connect = 14
hook_index disconnected = 15
hook_index connected_to_master = 16
hook_index friends_update = 17
hook_index connect_scene_go = 18
hook_index connection_control_connect = 19
hook_index game_connect_tier = 20
hook_index game_connect_squad = 21

abbrev pub hook_at : Ptr → Hook
hook_at p =
    if p == 1000
    then select_app_id
    else if p == 1001
    then set_up_photon
    else if p == 1002
    then use_cloud
    else if p == 1003
    then use_cloud_best
    else if p == 1004
    then use_cloud_region
    else if p == 1005
    then use_my_server
    else if p == 1006
    then connect_using_settings
    else if p == 1007
    then connect_to_master
    else if p == 1008
    then disconnect
    else if p == 1009
    then get_game_version
    else if p == 1010
    then game_connect
    else if p == 1011
    then debug_return
    else if p == 1012
    then on_status_changed
    else if p == 1013
    then on_operation_response
    else if p == 1014
    then failed_to_connect
    else if p == 1015
    then disconnected
    else if p == 1016
    then connected_to_master
    else if p == 1017
    then friends_update
    else if p == 1018
    then connect_scene_go
    else if p == 1019
    then connection_control_connect
    else if p == 1020
    then game_connect_tier
    else game_connect_squad

pub hook_at_address : (h : Hook) → hook_at (1000 + hook_index h) ≡ h
hook_at_address select_app_id = refl
hook_at_address set_up_photon = refl
hook_at_address use_cloud = refl
hook_at_address use_cloud_best = refl
hook_at_address use_cloud_region = refl
hook_at_address use_my_server = refl
hook_at_address connect_using_settings = refl
hook_at_address connect_to_master = refl
hook_at_address disconnect = refl
hook_at_address get_game_version = refl
hook_at_address game_connect = refl
hook_at_address debug_return = refl
hook_at_address on_status_changed = refl
hook_at_address on_operation_response = refl
hook_at_address failed_to_connect = refl
hook_at_address disconnected = refl
hook_at_address connected_to_master = refl
hook_at_address friends_update = refl
hook_at_address connect_scene_go = refl
hook_at_address connection_control_connect = refl
hook_at_address game_connect_tier = refl
hook_at_address game_connect_squad = refl
