-- ===== src/Cloud/Install.antt =====
-- `install_hooks` of cloud_guard.h.
pub mod Safe
pub mod Hooking
pub mod Counts
use Prim.Native.String.{String}
use old_pixel_gun_3d_online.Base.{
  ℕ, ◌+◌, Bool, true, false, ◌&&◌, some, List, [], ◌∷◌, leb, ℤ, pos, if◌then◌else◌,
}
use old_pixel_gun_3d_online.State.{
  Env, Hook, nat, str, friends_update, connect_scene_go, connection_control_connect,
  game_connect_tier, game_connect_squad,
}
use old_pixel_gun_3d_online.State.Monad.{M, ◌>>=◌, ◌>>◌, pure, branch, logi}
use old_pixel_gun_3d_online.Hook.{ManagedMethod, game_method, install}

module _ {W : Type 0} (E : Env W) where
  -- `original` names both the hook and the pointer to its original; the result is `*installed`.
  unfoldable pub install_optional : ManagedMethod → Hook → ℕ → M W ℕ
  install_optional target original installed = do
    done ← install E target (E.address_of original) (some original) false
    pure (if done then installed + 1 else installed)

  -- The build with the guard.
  unfoldable pub install_guard : M W Bool
  install_guard = do
    backend_guard ←
        install E (game_method "FriendsController" "Update" 0) (E.address_of friends_update)
          (some friends_update) true
    n ←
        install_optional (game_method "ConnectScene" "HandleGoBtnClicked" 0) connect_scene_go
          (if backend_guard then 1 else 0)
    n ←
        install_optional (game_method "ConnectionControl" "ConnectToPhoton" 0)
          connection_control_connect n
    n ← install_optional (game_method "GameConnect" "ConnectToPhoton" 1) game_connect_tier n
    n ← install_optional (game_method "GameConnect" "ConnectToPhotonSquad" 0) game_connect_squad n
    logi "cloud-force: installed %d hooks (backend-guard=%s)"
        (nat n ∷ str (if backend_guard then "OK" else "FAILED") ∷ [])
    pure (backend_guard && leb 2 n)

  unfoldable pub install_hooks : M W Bool
  install_hooks =
      branch E.selfhosted
        (do logi "cloud-force: PHOTON_MODE=selfhosted; cloud routing guard disabled" []; pure true)
        install_guard
