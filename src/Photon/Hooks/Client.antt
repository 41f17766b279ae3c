-- ===== src/Photon/Hooks/Client.antt =====
-- The game as a client of the traced entries: what it calls next may depend on what it got.
pub mod Refines
use old_pixel_gun_3d_online.Base.{ℤ, Ptr, Bool, List, [], ◌∷◌}
use old_pixel_gun_3d_online.State.{
  Env, ptr, num, use_cloud, use_cloud_best, use_cloud_region, use_my_server, connect_using_settings,
  connect_to_master, get_game_version, game_connect, disconnect, debug_return, on_status_changed,
  on_operation_response, failed_to_connect, disconnected, connected_to_master,
}
use old_pixel_gun_3d_online.State.Monad.{M, ◌>>=◌, pure}
use old_pixel_gun_3d_online.Cloud.{call_original}
use old_pixel_gun_3d_online.Photon.Hooks.{
  hook_use_cloud, hook_use_cloud_best, hook_use_cloud_region, hook_use_my_server,
  hook_connect_using_settings, hook_connect_to_master, hook_get_game_version, hook_game_connect,
  hook_disconnect, hook_debug_return, hook_on_status_changed, hook_on_operation_response,
  hook_failed_to_connect, hook_disconnected, hook_connected_to_master,
}

-- A call of one of the fifteen entries.
pub data Call : Type 0 where
  call_use_cloud : (self app_id method : Ptr) → Call
  call_use_cloud_best : (self app_id method : Ptr) → Call
  call_use_cloud_region : (self app_id : Ptr) (region : ℤ) (method : Ptr) → Call
  call_use_my_server : (self address : Ptr) (port : ℤ) (app_id method : Ptr) → Call
  call_connect_using_settings : (game_version method : Ptr) → Call
  call_connect_to_master : (address : Ptr) (port : ℤ) (app_id game_version method : Ptr) → Call
  call_get_game_version : (method : Ptr) → Call
  call_game_connect : (method : Ptr) → Call
  call_disconnect : (method : Ptr) → Call
  call_debug_return : (self : Ptr) (level : ℤ) (message method : Ptr) → Call
  call_on_status_changed : (self : Ptr) (status : ℤ) (method : Ptr) → Call
  call_on_operation_response : (self response method : Ptr) → Call
  call_failed_to_connect : (self : Ptr) (cause : ℤ) (method : Ptr) → Call
  call_disconnected : (self method : Ptr) → Call
  call_connected_to_master : (self method : Ptr) → Call

abbrev pub Result : Call → Type 0
Result (call_use_cloud self app_id method) = Unit {0}
Result (call_use_cloud_best self app_id method) = Unit {0}
Result (call_use_cloud_region self app_id region method) = Unit {0}
Result (call_use_my_server self address port app_id method) = Unit {0}
Result (call_connect_using_settings game_version method) = Bool
Result (call_connect_to_master address port app_id game_version method) = Bool
Result (call_get_game_version method) = Ptr
Result (call_game_connect method) = Bool
Result (call_disconnect method) = Unit {0}
Result (call_debug_return self level message method) = Unit {0}
Result (call_on_status_changed self status method) = Unit {0}
Result (call_on_operation_response self response method) = Unit {0}
Result (call_failed_to_connect self cause method) = Unit {0}
Result (call_disconnected self method) = Unit {0}
Result (call_connected_to_master self method) = Unit {0}

pub data Client (A : Type 0) : Type 0 where
  finish : A → Client A
  ask : (c : Call) → (Result c → Client A) → Client A

-- What the entries do with the hooks, and without them.
module _ {W : Type 0} (E : Env W) where
  abbrev pub hooked : (c : Call) → M W (Result c)
  hooked (call_use_cloud self app_id method) = hook_use_cloud E self app_id method
  hooked (call_use_cloud_best self app_id method) = hook_use_cloud_best E self app_id method
  hooked (call_use_cloud_region self app_id region method) =
      hook_use_cloud_region E self app_id region method
  hooked (call_use_my_server self address port app_id method) =
      hook_use_my_server E self address port app_id method
  hooked (call_connect_using_settings game_version method) =
      hook_connect_using_settings E game_version method
  hooked (call_connect_to_master address port app_id game_version method) =
      hook_connect_to_master E address port app_id game_version method
  hooked (call_get_game_version method) = hook_get_game_version E method
  hooked (call_game_connect method) = hook_game_connect E method
  hooked (call_disconnect method) = hook_disconnect E method
  hooked (call_debug_return self level message method) =
      hook_debug_return E self level message method
  hooked (call_on_status_changed self status method) = hook_on_status_changed E self status method
  hooked (call_on_operation_response self response method) =
      hook_on_operation_response E self response method
  hooked (call_failed_to_connect self cause method) = hook_failed_to_connect E self cause method
  hooked (call_disconnected self method) = hook_disconnected E self method
  hooked (call_connected_to_master self method) = hook_connected_to_master E self method

  abbrev pub original : (c : Call) → M W (Result c)
  original (call_use_cloud self app_id method) =
      call_original E E.invoke_void use_cloud (ptr self ∷ ptr app_id ∷ ptr method ∷ [])
  original (call_use_cloud_best self app_id method) =
      call_original E E.invoke_void use_cloud_best (ptr self ∷ ptr app_id ∷ ptr method ∷ [])
  original (call_use_cloud_region self app_id region method) =
      call_original E E.invoke_void use_cloud_region
        (ptr self ∷ ptr app_id ∷ num region ∷ ptr method ∷ [])
  original (call_use_my_server self address port app_id method) =
      call_original E E.invoke_void use_my_server
        (ptr self ∷ ptr address ∷ num port ∷ ptr app_id ∷ ptr method ∷ [])
  original (call_connect_using_settings game_version method) =
      call_original E E.invoke_bool connect_using_settings (ptr game_version ∷ ptr method ∷ [])
  original (call_connect_to_master address port app_id game_version method) =
      call_original E E.invoke_bool connect_to_master
        (ptr address ∷ num port ∷ ptr app_id ∷ ptr game_version ∷ ptr method ∷ [])
  original (call_get_game_version method) =
      call_original E E.invoke_ptr get_game_version (ptr method ∷ [])
  original (call_game_connect method) = call_original E E.invoke_bool game_connect (ptr method ∷ [])
  original (call_disconnect method) = call_original E E.invoke_void disconnect (ptr method ∷ [])
  original (call_debug_return self level message method) =
      call_original E E.invoke_void debug_return
        (ptr self ∷ num level ∷ ptr message ∷ ptr method ∷ [])
  original (call_on_status_changed self status method) =
      call_original E E.invoke_void on_status_changed (ptr self ∷ num status ∷ ptr method ∷ [])
  original (call_on_operation_response self response method) =
      call_original E E.invoke_void on_operation_response
        (ptr self ∷ ptr response ∷ ptr method ∷ [])
  original (call_failed_to_connect self cause method) =
      call_original E E.invoke_void failed_to_connect (ptr self ∷ num cause ∷ ptr method ∷ [])
  original (call_disconnected self method) =
      call_original E E.invoke_void disconnected (ptr self ∷ ptr method ∷ [])
  original (call_connected_to_master self method) =
      call_original E E.invoke_void connected_to_master (ptr self ∷ ptr method ∷ [])

module _ {W A : Type 0} (handle : (c : Call) → M W (Result c)) where
  unfoldable pub run : Client A → M W A
  run (finish a) = pure a
  run (ask c next) = handle c >>= λ a. run (next a)

module _ (IsInitialized : Type 0) where
  -- The two hooks that touch the static fields of PhotonNetwork are entered once it is initialised.
  abbrev pub Allowed : Call → Type 0
  Allowed (call_use_cloud self app_id method) = Unit
  Allowed (call_use_cloud_best self app_id method) = Unit
  Allowed (call_use_cloud_region self app_id region method) = Unit
  Allowed (call_use_my_server self address port app_id method) = Unit
  Allowed (call_connect_using_settings game_version method) = IsInitialized
  Allowed (call_connect_to_master address port app_id game_version method) = IsInitialized
  Allowed (call_get_game_version method) = Unit
  Allowed (call_game_connect method) = Unit
  Allowed (call_disconnect method) = Unit
  Allowed (call_debug_return self level message method) = Unit
  Allowed (call_on_status_changed self status method) = Unit
  Allowed (call_on_operation_response self response method) = Unit
  Allowed (call_failed_to_connect self cause method) = Unit
  Allowed (call_disconnected self method) = Unit
  Allowed (call_connected_to_master self method) = Unit

  abbrev pub AllAllowed : {A : Type 0} → Client A → Type 0
  AllAllowed (finish a) = Unit
  AllAllowed (ask c next) = Allowed c × ((a : Result c) → AllAllowed (next a))
