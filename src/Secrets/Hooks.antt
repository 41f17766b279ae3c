-- ===== src/Secrets/Hooks.antt =====
-- The hooks of photon_hooks.cpp run alike in both processes.
use old_pixel_gun_3d_online.Base.{Ptr, ℤ, List, is_null, inl, inr, Bool-cases}
use old_pixel_gun_3d_online.State.{Env, State, Value, get_game_version}
use old_pixel_gun_3d_online.State.Monad.{M, ◌>>=◌, Ensures, Ensures-mono}
use old_pixel_gun_3d_online.Cloud.{call_original}
use old_pixel_gun_3d_online.Photon.Hooks.{
  hook_use_cloud, hook_use_cloud_best, hook_use_cloud_region, hook_use_my_server,
  hook_connect_using_settings, hook_connect_to_master, hook_get_game_version, hook_game_connect,
  hook_disconnect, hook_debug_return, hook_on_status_changed, hook_on_operation_response,
  hook_failed_to_connect, hook_disconnected, hook_connected_to_master, hook_set_up_photon,
}
use old_pixel_gun_3d_online.Photon.Hooks.Client.{
  Call, hooked, call_use_cloud, call_use_cloud_best, call_use_cloud_region, call_use_my_server,
  call_connect_using_settings, call_connect_to_master, call_get_game_version, call_game_connect,
  call_disconnect, call_debug_return, call_on_status_changed, call_on_operation_response,
  call_failed_to_connect, call_disconnected, call_connected_to_master,
}
use old_pixel_gun_3d_online.Secrets.{Secrets, Shown, Prepared, Twins}
use old_pixel_gun_3d_online.Secrets.Reads.{to_utf8-same, secret_summary-same}
use old_pixel_gun_3d_online.Secrets.Rules.{
  Blind, Blind-known, blind_rules, Blind-void, Blind-bool, Blind-ptr,
}
use old_pixel_gun_3d_online.Secrets.Probes.{
  Blind-message_field, Blind-read_field, Blind-current_server_settings, Blind-connection_state,
  Blind-server_address, Blind-log_auth_snapshot, Blind-enable_verbose_photon_logs,
  Blind-log_settings,
}
use old_pixel_gun_3d_online.Secrets.Settings.{Blind-apply_config}

ruleset hook_rules = (
  Blind-message_field, blind_rules, Blind-read_field, Blind-current_server_settings,
  Blind-connection_state, Blind-server_address, Blind-log_auth_snapshot,
  Blind-enable_verbose_photon_logs, Blind-log_settings, to_utf8-same, secret_summary-same,
  Blind-void, Blind-bool, Blind-ptr,
)

module _ {W A : Type 0} (E F : Env W) (V : Secrets W) ⦃twins : Twins E F V⦄ where
  -- The game version may stand in the log.
  Blind-version :
      (args : List Value) (k k' : Ptr → M W A)
      → ((string : Ptr) → Shown V string → Blind V (k string) (k' string))
      → Blind V
          (call_original E E.invoke_ptr get_game_version args >>= k)
          (call_original F F.invoke_ptr get_game_version args >>= k')
  Blind-version args k k' rest =
      Blind-known (Shown V) _ _ k k' (Blind-ptr E F V get_game_version args) shown rest
    where
      shown :
          (s : State W)
          → Prepared V s
          → Ensures
              (call_original E E.invoke_ptr get_game_version args s)
              (λ string _. Shown V string)
      shown s p = elim (Bool-cases (is_null (s.originals get_game_version))) [
        | inl z ↦ rw z tt
        | inr z ↦ rw z (
            Ensures-mono _ _ (E.invoke_ptr (s.originals get_game_version) args s)
              (twins.getter_public _ args s (p.version z)) λ string t public z. public)
      ]

module _ {W : Type 0} (E F : Env W) (V : Secrets W) ⦃twins : Twins E F V⦄ where
  Blind-hook_use_cloud :
      (self app_id method : Ptr)
      → Blind V (hook_use_cloud E self app_id method) (hook_use_cloud F self app_id method)
  unfolding hook_use_cloud
  Blind-hook_use_cloud self app_id method = search hook_rules depth 60

  Blind-hook_use_cloud_best :
      (self app_id method : Ptr)
      → Blind V
          (hook_use_cloud_best E self app_id method)
          (hook_use_cloud_best F self app_id method)
  unfolding hook_use_cloud_best
  Blind-hook_use_cloud_best self app_id method = search hook_rules depth 60

  Blind-hook_use_cloud_region :
      (self app_id : Ptr) (region : ℤ) (method : Ptr)
      → Blind V
          (hook_use_cloud_region E self app_id region method)
          (hook_use_cloud_region F self app_id region method)
  unfolding hook_use_cloud_region
  Blind-hook_use_cloud_region self app_id region method = search hook_rules depth 60

  Blind-hook_use_my_server :
      (self address : Ptr) (port : ℤ) (app_id method : Ptr)
      → Shown V address
      → Blind V
          (hook_use_my_server E self address port app_id method)
          (hook_use_my_server F self address port app_id method)
  unfolding hook_use_my_server
  Blind-hook_use_my_server self address port app_id method address_shown =
      search hook_rules depth 60

  Blind-hook_connect_using_settings :
      (game_version method : Ptr)
      → Shown V game_version
      → Blind V
          (hook_connect_using_settings E game_version method)
          (hook_connect_using_settings F game_version method)
  unfolding hook_connect_using_settings
  Blind-hook_connect_using_settings game_version method game_version_shown =
      search hook_rules depth 60

  Blind-hook_connect_to_master :
      (address : Ptr) (port : ℤ) (app_id game_version method : Ptr)
      → Shown V address
      → Shown V game_version
      → Blind V
          (hook_connect_to_master E address port app_id game_version method)
          (hook_connect_to_master F address port app_id game_version method)
  unfolding hook_connect_to_master
  Blind-hook_connect_to_master address port app_id game_version method address_shown
        game_version_shown =
      search hook_rules depth 60

  Blind-hook_get_game_version :
      (method : Ptr) → Blind V (hook_get_game_version E method) (hook_get_game_version F method)
  unfolding hook_get_game_version
  Blind-hook_get_game_version method = search (Blind-version E F V, hook_rules) depth 60

  Blind-hook_game_connect :
      (method : Ptr) → Blind V (hook_game_connect E method) (hook_game_connect F method)
  unfolding hook_game_connect
  Blind-hook_game_connect method = search hook_rules depth 60

  Blind-hook_disconnect :
      (method : Ptr) → Blind V (hook_disconnect E method) (hook_disconnect F method)
  unfolding hook_disconnect
  Blind-hook_disconnect method = search hook_rules depth 60

  Blind-hook_debug_return :
      (self : Ptr) (level : ℤ) (message method : Ptr)
      → Shown V message
      → Blind V
          (hook_debug_return E self level message method)
          (hook_debug_return F self level message method)
  unfolding hook_debug_return
  Blind-hook_debug_return self level message method message_shown = search hook_rules depth 60

  Blind-hook_on_status_changed :
      (self : Ptr) (status : ℤ) (method : Ptr)
      → Blind V
          (hook_on_status_changed E self status method)
          (hook_on_status_changed F self status method)
  unfolding hook_on_status_changed
  Blind-hook_on_status_changed self status method = search hook_rules depth 60

  Blind-hook_on_operation_response :
      (self response method : Ptr)
      → Blind V
          (hook_on_operation_response E self response method)
          (hook_on_operation_response F self response method)
  unfolding hook_on_operation_response
  Blind-hook_on_operation_response self response method = search hook_rules depth 60

  Blind-hook_failed_to_connect :
      (self : Ptr) (cause : ℤ) (method : Ptr)
      → Blind V
          (hook_failed_to_connect E self cause method)
          (hook_failed_to_connect F self cause method)
  unfolding hook_failed_to_connect
  Blind-hook_failed_to_connect self cause method = search hook_rules depth 60

  Blind-hook_disconnected :
      (self method : Ptr)
      → Blind V (hook_disconnected E self method) (hook_disconnected F self method)
  unfolding hook_disconnected
  Blind-hook_disconnected self method = search hook_rules depth 60

  Blind-hook_connected_to_master :
      (self method : Ptr)
      → Blind V (hook_connected_to_master E self method) (hook_connected_to_master F self method)
  unfolding hook_connected_to_master
  Blind-hook_connected_to_master self method = search hook_rules depth 60

  pub Blind-hook_set_up_photon :
      (settings method : Ptr)
      → Blind V (hook_set_up_photon E settings method) (hook_set_up_photon F settings method)
  unfolding hook_set_up_photon
  Blind-hook_set_up_photon settings method = search (hook_rules, Blind-apply_config) depth 60

module _ {W : Type 0} (V : Secrets W) where
  -- The texts among the arguments that are logged in full.
  abbrev pub ShownArgs : Call → Type 0
  ShownArgs (call_use_cloud self app_id method) = Unit
  ShownArgs (call_use_cloud_best self app_id method) = Unit
  ShownArgs (call_use_cloud_region self app_id region method) = Unit
  ShownArgs (call_use_my_server self address port app_id method) = Shown V address
  ShownArgs (call_connect_using_settings game_version method) = Shown V game_version
  ShownArgs (call_connect_to_master address port app_id game_version method) =
      Shown V address × Shown V game_version
  ShownArgs (call_get_game_version method) = Unit
  ShownArgs (call_game_connect method) = Unit
  ShownArgs (call_disconnect method) = Unit
  ShownArgs (call_debug_return self level message method) = Shown V message
  ShownArgs (call_on_status_changed self status method) = Unit
  ShownArgs (call_on_operation_response self response method) = Unit
  ShownArgs (call_failed_to_connect self cause method) = Unit
  ShownArgs (call_disconnected self method) = Unit
  ShownArgs (call_connected_to_master self method) = Unit

module _ {W : Type 0} (E F : Env W) (V : Secrets W) ⦃twins : Twins E F V⦄ where
  pub Blind-hooked : (c : Call) → ShownArgs V c → Blind V (hooked E c) (hooked F c)
  Blind-hooked (call_use_cloud self app_id method) u = Blind-hook_use_cloud E F V self app_id method
  Blind-hooked (call_use_cloud_best self app_id method) u =
      Blind-hook_use_cloud_best E F V self app_id method
  Blind-hooked (call_use_cloud_region self app_id region method) u =
      Blind-hook_use_cloud_region E F V self app_id region method
  Blind-hooked (call_use_my_server self address port app_id method) address_shown =
      Blind-hook_use_my_server E F V self address port app_id method address_shown
  Blind-hooked (call_connect_using_settings game_version method) game_version_shown =
      Blind-hook_connect_using_settings E F V game_version method game_version_shown
  Blind-hooked (call_connect_to_master address port app_id game_version method)
        (address_shown, game_version_shown) =
      Blind-hook_connect_to_master E F V address port app_id game_version method address_shown
        game_version_shown
  Blind-hooked (call_get_game_version method) u = Blind-hook_get_game_version E F V method
  Blind-hooked (call_game_connect method) u = Blind-hook_game_connect E F V method
  Blind-hooked (call_disconnect method) u = Blind-hook_disconnect E F V method
  Blind-hooked (call_debug_return self level message method) message_shown =
      Blind-hook_debug_return E F V self level message method message_shown
  Blind-hooked (call_on_status_changed self status method) u =
      Blind-hook_on_status_changed E F V self status method
  Blind-hooked (call_on_operation_response self response method) u =
      Blind-hook_on_operation_response E F V self response method
  Blind-hooked (call_failed_to_connect self cause method) u =
      Blind-hook_failed_to_connect E F V self cause method
  Blind-hooked (call_disconnected self method) u = Blind-hook_disconnected E F V self method
  Blind-hooked (call_connected_to_master self method) u =
      Blind-hook_connected_to_master E F V self method
