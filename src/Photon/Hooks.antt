-- ===== src/Photon/Hooks.antt =====
-- The hooks of photon_hooks.cpp that write lines to the log around the original. The arguments of a
-- log call are evaluated from left to right, which C++ leaves open.
pub mod Wrapped
pub mod Client
pub mod SetUp
use old_pixel_gun_3d_online.Base.{
  ◌-◌, ◌^◌, Bool, not, ◌&&◌, ltb, Option, none, some, [], ◌∷◌, ◌++◌, Bytes, Ptr, null, ℤ, pos,
  negsuc, int_eq, if◌then◌else◌,
}
use old_pixel_gun_3d_online.State.{
  Env, str, bytes, int, nat, ptr, num, set_up_photon, use_cloud, use_cloud_best, use_cloud_region,
  use_my_server, connect_using_settings, connect_to_master, disconnect, get_game_version,
  game_connect, debug_return, on_status_changed, on_operation_response, failed_to_connect,
  disconnected, connected_to_master,
}
use old_pixel_gun_3d_online.State.Monad.{M, ◌>>=◌, ◌>>◌, pure, gets, branch, logi, logw, loge}
use old_pixel_gun_3d_online.Il2cpp.Fields.{read_field, is_read, ptr_or, le_value}
use old_pixel_gun_3d_online.Il2cpp.Strings.{to_utf8}
use old_pixel_gun_3d_online.Cloud.{call_original}
use old_pixel_gun_3d_online.Photon.{secret_summary}
use old_pixel_gun_3d_online.Photon.Names.{status_name, disconnect_name, debug_level_name}
use old_pixel_gun_3d_online.Photon.Probes.{
  flag, mark, current_server_settings, connection_state, server_address, log_auth_snapshot,
  enable_verbose_photon_logs, log_settings,
}
use old_pixel_gun_3d_online.Photon.Settings.{apply_config_to_settings}

-- The value of an `int16_t` with this bit pattern, 0 where nothing was read.
abbrev pub code16 : Option Bytes → ℤ
code16 none = pos 0
code16 (some read) =
    if ltb (le_value read) (2 ^ 15)
    then pos (le_value read)
    else negsuc (2 ^ 16 - le_value read - 1)

module _ {W : Type 0} (E : Env W) where
  open E use {invoke_void, invoke_bool, invoke_ptr}

  unfoldable pub hook_set_up_photon : Ptr → Ptr → M W (Unit {0})
  hook_set_up_photon settings method = do
    logi "trace: Switcher.SetUpPhoton begin (HiddenSettings=%p)" (nat settings ∷ [])
    call_original E invoke_void set_up_photon (ptr settings ∷ ptr method ∷ [])
    enable_verbose_photon_logs E
    server_settings ← current_server_settings E
    apply_config_to_settings E server_settings "SetUpPhoton/end"
    log_settings E "SetUpPhoton/end" server_settings

  unfoldable pub hook_use_cloud : Ptr → Ptr → Ptr → M W (Unit {0})
  hook_use_cloud self app_id method = do
    summary ← gets (secret_summary E app_id)
    logi "trace: ServerSettings.UseCloud app={%s}" summary
    call_original E invoke_void use_cloud (ptr self ∷ ptr app_id ∷ ptr method ∷ [])
    log_settings E "UseCloud/end" self

  unfoldable pub hook_use_cloud_best : Ptr → Ptr → Ptr → M W (Unit {0})
  hook_use_cloud_best self app_id method = do
    summary ← gets (secret_summary E app_id)
    logi "trace: ServerSettings.UseCloudBestRegion app={%s}" summary
    call_original E invoke_void use_cloud_best (ptr self ∷ ptr app_id ∷ ptr method ∷ [])
    log_settings E "UseCloudBestRegion/end" self

  unfoldable pub hook_use_cloud_region : Ptr → Ptr → ℤ → Ptr → M W (Unit {0})
  hook_use_cloud_region self app_id region method = do
    summary ← gets (secret_summary E app_id)
    logi "trace: ServerSettings.UseCloud(region=%d) app={%s}" (int region ∷ summary)
    call_original E invoke_void use_cloud_region
        (ptr self ∷ ptr app_id ∷ num region ∷ ptr method ∷ [])
    log_settings E "UseCloud(region)/end" self

  unfoldable pub hook_use_my_server : Ptr → Ptr → ℤ → Ptr → Ptr → M W (Unit {0})
  hook_use_my_server self address port app_id method = do
    host ← gets (to_utf8 E address 256)
    summary ← gets (secret_summary E app_id)
    logi "trace: ServerSettings.UseMyServer '%s':%d app={%s}" (bytes host ∷ int port ∷ summary)
    call_original E invoke_void use_my_server
        (ptr self ∷ ptr address ∷ num port ∷ ptr app_id ∷ ptr method ∷ [])
    log_settings E "UseMyServer/end" self

  unfoldable pub hook_connect_using_settings : Ptr → Ptr → M W Bool
  hook_connect_using_settings game_version method = do
    enable_verbose_photon_logs E
    version ← gets (to_utf8 E game_version 128)
    state ← connection_state E
    server ← server_address E
    logi "net: ConnectUsingSettings begin version='%s' state=%d server='%s'"
        (bytes version ∷ int state ∷ bytes server ∷ [])
    settings ← current_server_settings E
    log_settings E "ConnectUsingSettings/before" settings
    log_auth_snapshot E "ConnectUsingSettings/before"
    result ← call_original E invoke_bool connect_using_settings (ptr game_version ∷ ptr method ∷ [])
    state ← connection_state E
    server ← server_address E
    logi "net: ConnectUsingSettings end result=%d state=%d server='%s'"
        (flag result ∷ int state ∷ bytes server ∷ [])
    pure result

  unfoldable pub hook_connect_to_master : Ptr → ℤ → Ptr → Ptr → Ptr → M W Bool
  hook_connect_to_master address port app_id game_version method = do
    enable_verbose_photon_logs E
    host ← gets (to_utf8 E address 256)
    version ← gets (to_utf8 E game_version 128)
    app ← gets (secret_summary E app_id)
    state ← connection_state E
    logi "net: ConnectToMaster begin '%s':%d version='%s' app={%s} state=%d"
        (bytes host ∷ int port ∷ bytes version ∷ (app ++ int state ∷ []))
    log_auth_snapshot E "ConnectToMaster/before"
    result ←
        call_original E invoke_bool connect_to_master
          (ptr address ∷ num port ∷ ptr app_id ∷ ptr game_version ∷ ptr method ∷ [])
    state ← connection_state E
    server ← server_address E
    logi "net: ConnectToMaster end result=%d state=%d server='%s'"
        (flag result ∷ int state ∷ bytes server ∷ [])
    pure result

  unfoldable pub hook_get_game_version : Ptr → M W Ptr
  hook_get_game_version method = do
    result ← call_original E invoke_ptr get_game_version (ptr method ∷ [])
    version ← gets (to_utf8 E result 128)
    logi "net: GameConnect.GetConnectGameVersion -> '%s'" (bytes version ∷ [])
    pure result

  unfoldable pub hook_game_connect : Ptr → M W Bool
  hook_game_connect method = do
    state ← connection_state E
    logi "net: GameConnect.ConnectToPhoton begin state=%d" (int state ∷ [])
    result ← call_original E invoke_bool game_connect (ptr method ∷ [])
    state ← connection_state E
    logi "net: GameConnect.ConnectToPhoton end result=%d state=%d" (flag result ∷ int state ∷ [])
    pure result

  unfoldable pub hook_disconnect : Ptr → M W (Unit {0})
  hook_disconnect method = do
    state ← connection_state E
    server ← server_address E
    logw "net: PhotonNetwork.Disconnect requested state=%d server='%s'"
        (int state ∷ bytes server ∷ [])
    call_original E invoke_void disconnect (ptr method ∷ [])

  unfoldable pub hook_debug_return : Ptr → ℤ → Ptr → Ptr → M W (Unit {0})
  hook_debug_return self level message method = do
    text ← gets (to_utf8 E message 1024)
    let line = str (debug_level_name level) ∷ int level ∷ bytes text ∷ []
    branch (int_eq level 1) (loge "photon[%s/%d]: %s" line)
        (branch (int_eq level 2) (logw "photon[%s/%d]: %s" line) (logi "photon[%s/%d]: %s" line))
    call_original E invoke_void debug_return (ptr self ∷ num level ∷ ptr message ∷ ptr method ∷ [])

  unfoldable pub hook_on_status_changed : Ptr → ℤ → Ptr → M W (Unit {0})
  hook_on_status_changed self status method = do
    state ← connection_state E
    logi "photon-status: %d (%s), state-before=%d"
        (int status ∷ str (status_name status) ∷ int state ∷ [])
    call_original E invoke_void on_status_changed (ptr self ∷ num status ∷ ptr method ∷ [])
    state ← connection_state E
    server ← server_address E
    logi "photon-status: handled %d, state-after=%d server='%s'"
        (int status ∷ int state ∷ bytes server ∷ [])

  unfoldable pub hook_on_operation_response : Ptr → Ptr → Ptr → M W (Unit {0})
  hook_on_operation_response self response method = do
    operation ← read_field E 1 response "OperationCode"
    return_code ← read_field E 2 response "ReturnCode"
    debug_message ← read_field E 4 response "DebugMessage"
    debug ← gets (to_utf8 E (ptr_or null debug_message) 512)
    let code = nat (ptr_or 0 operation)
    branch (is_read return_code && not (int_eq (code16 return_code) 0))
        (loge "photon-op: code=%s%u return=%d debug='%s'"
          (mark (is_read operation) ∷ code ∷ int (code16 return_code) ∷ bytes debug ∷ []))
        (logi "photon-op: code=%s%u return=%s%d debug='%s'" (
          mark (is_read operation)
          ∷ code
          ∷ mark (is_read return_code)
          ∷ int (code16 return_code)
          ∷ bytes debug
          ∷ []))
    call_original E invoke_void on_operation_response (ptr self ∷ ptr response ∷ ptr method ∷ [])

  unfoldable pub hook_failed_to_connect : Ptr → ℤ → Ptr → M W (Unit {0})
  hook_failed_to_connect self cause method = do
    state ← connection_state E
    server ← server_address E
    loge "ui: ConnectionControl.OnFailedToConnect cause=%d (%s) state=%d server='%s'"
        (int cause ∷ str (disconnect_name cause) ∷ int state ∷ bytes server ∷ [])
    call_original E invoke_void failed_to_connect (ptr self ∷ num cause ∷ ptr method ∷ [])

  unfoldable pub hook_disconnected : Ptr → Ptr → M W (Unit {0})
  hook_disconnected self method = do
    state ← connection_state E
    server ← server_address E
    logw "ui: ConnectionControl.OnDisconnected state=%d server='%s'" (int state ∷ bytes server ∷ [])
    call_original E invoke_void disconnected (ptr self ∷ ptr method ∷ [])

  unfoldable pub hook_connected_to_master : Ptr → Ptr → M W (Unit {0})
  hook_connected_to_master self method = do
    state ← connection_state E
    server ← server_address E
    logi "ui: ConnectionControl.OnConnectedToMaster state=%d server='%s'"
        (int state ∷ bytes server ∷ [])
    call_original E invoke_void connected_to_master (ptr self ∷ ptr method ∷ [])
