-- ===== src/Photon/Install.antt =====
-- `install_hooks` of photon_hooks.cpp, which also reports what it has done.
pub mod Each
pub mod Safe
pub mod Hooking
use Prim.Native.String.{String}
use old_pixel_gun_3d_online.Base.{ℕ, ◌+◌, Bool, true, false, some, List, [], ◌∷◌, if◌then◌else◌}
use old_pixel_gun_3d_online.State.{
  Env, Hook, nat, str, select_app_id, set_up_photon, use_cloud, use_cloud_best, use_cloud_region,
  use_my_server, connect_using_settings, connect_to_master, disconnect, get_game_version,
  game_connect, debug_return, on_status_changed, on_operation_response, failed_to_connect,
  disconnected, connected_to_master,
}
use old_pixel_gun_3d_online.State.Monad.{M, ◌>>=◌, ◌>>◌, pure, branch, logi, logw}
use old_pixel_gun_3d_online.Hook.{ManagedMethod, game_method, install}
use old_pixel_gun_3d_online.Cloud.{is_empty}

-- The calls of `optional`, in their order.
abbrev pub optional_targets : List (ManagedMethod × Hook)
optional_targets =
    (game_method "Switcher" "SetUpPhoton" 1, set_up_photon)
    ∷ (game_method "ServerSettings" "UseCloud" 1, use_cloud)
    ∷ (game_method "ServerSettings" "UseCloudBestRegion" 1, use_cloud_best)
    ∷ (game_method "ServerSettings" "UseCloud" 2, use_cloud_region)
    ∷ (game_method "ServerSettings" "UseMyServer" 3, use_my_server)
    ∷ (game_method "PhotonNetwork" "ConnectUsingSettings" 1, connect_using_settings)
    ∷ (game_method "PhotonNetwork" "ConnectToMaster" 4, connect_to_master)
    ∷ (game_method "PhotonNetwork" "Disconnect" 0, disconnect)
    ∷ (game_method "GameConnect" "GetConnectGameVersion" 0, get_game_version)
    ∷ (game_method "GameConnect" "ConnectToPhoton" 0, game_connect)
    ∷ (game_method "NetworkingPeer" "DebugReturn" 2, debug_return)
    ∷ (game_method "NetworkingPeer" "OnStatusChanged" 1, on_status_changed)
    ∷ (game_method "NetworkingPeer" "OnOperationResponse" 1, on_operation_response)
    ∷ (game_method "ConnectionControl" "OnFailedToConnect" 1, failed_to_connect)
    ∷ (game_method "ConnectionControl" "OnDisconnected" 0, disconnected)
    ∷ (game_method "ConnectionControl" "OnConnectedToMaster" 0, connected_to_master)
    ∷ []

module _ {W : Type 0} (E : Env W) where
  -- `original` names both the hook and the pointer to its original; the result is `*installed`.
  unfoldable pub optional : ManagedMethod → Hook → ℕ → M W ℕ
  optional target original installed = do
    done ← install E target (E.address_of original) (some original) false
    pure (if done then installed + 1 else installed)

  unfoldable pub optional_each : List (ManagedMethod × Hook) → ℕ → M W ℕ
  optional_each [] installed = pure installed
  optional_each ((target, original) ∷ targets) installed = do
    n ← optional target original installed
    optional_each targets n

  unfoldable pub install_hooks : M W Bool
  install_hooks = do
    logi "hook: engine %s; resolving targets through IL2CPP metadata" []
    core ←
        install E (game_method "Switcher" "SelectPhotonAppId" 1) (E.address_of select_app_id)
          (some select_app_id) true
    installed ← optional_each optional_targets (if core then 1 else 0)
    logi "hook: installed %d managed hooks (core=%s)"
        (nat installed ∷ str (if core then "OK" else "FAILED") ∷ [])
    logi
        "settings[post-install]: deferred to SetUpPhoton hook (PhotonNetwork statics are not safe to touch yet)"
        []
    branch (is_empty E.app_id)
        (logw "appid: build has no PHOTON_APP_ID secret; hook is diagnostic passthrough" [])
        (pure tt)
    pure core
