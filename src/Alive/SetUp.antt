-- ===== src/Alive/SetUp.antt =====
-- The hook on SetUpPhoton returns, and leaves PhotonNetwork initialised.
use Prim.Native.String.{String}
use old_pixel_gun_3d_online.Base.{false, refl, List, [], ◌∷◌, ◌≡◌, true, Bool, Ptr}
use old_pixel_gun_3d_online.State.{Env, State, Value, ptr, nat, info, Hook, set_up_photon}
use old_pixel_gun_3d_online.State.Monad.{Returns, M, Returns-bind, ◌>>=◌, ◌>>◌}
use old_pixel_gun_3d_online.Cloud.{call_original}
use old_pixel_gun_3d_online.Photon.Probes.{
  enable_verbose_photon_logs, current_server_settings, log_settings,
}
use old_pixel_gun_3d_online.Photon.Settings.{
  write_field, write_app_id, write_endpoint, write_mode, apply_config_to_settings,
}
use old_pixel_gun_3d_online.Photon.Hooks.{hook_set_up_photon}
use old_pixel_gun_3d_online.Photon.Hooks.Client.{}
use old_pixel_gun_3d_online.Alive.{Lasts, Robust}
use old_pixel_gun_3d_online.Alive.Rules.{Survives, alive_rules}
use old_pixel_gun_3d_online.Alive.Probes.{}
use old_pixel_gun_3d_online.Alive.Hooks.{hook_rules}

-- What the hook on SetUpPhoton does behind the original.
abbrev configure : {W : Type 0} → Env W → M W (Unit {0})
configure E = do
  enable_verbose_photon_logs E
  server_settings ← current_server_settings E
  apply_config_to_settings E server_settings "SetUpPhoton/end"
  log_settings E "SetUpPhoton/end" server_settings

module _ {W : Type 0} (E : Env W) (IsReached : Hook → Type 0) (up : Bool)
    ⦃robust : Robust E IsReached⦄ where
  Survives-apply_config :
      (settings : Ptr) (point : String)
      → Survives E IsReached up (apply_config_to_settings E settings point)
  unfolding apply_config_to_settings write_app_id write_endpoint write_mode write_field
  Survives-apply_config settings point = search alive_rules depth 60

  Survives-configure : up ≡ true → Survives E IsReached up (configure E)
  Survives-configure on = search (hook_rules, Survives-apply_config) depth 60

module _ {W : Type 0} (E : Env W) (IsReached : Hook → Type 0) ⦃robust : Robust E IsReached⦄ where
  original-Lasts :
      (args : List Value)
      → IsReached set_up_photon
      → (s : State W) → Lasts E IsReached false s
      → Returns (call_original E E.invoke_void set_up_photon args s) (λ _. Lasts E IsReached true)
  original-Lasts args reached s l =
      rw (l.0.original_there set_up_photon reached)
        (robust.sets_up args s (l.0.original_there set_up_photon reached) l)

  -- The hook on SetUpPhoton leaves PhotonNetwork initialised.
  pub set_up-Lasts :
      (settings method : Ptr)
      → IsReached set_up_photon
      → (s : State W) → Lasts E IsReached false s
      → Returns (hook_set_up_photon E settings method s) (λ _. Lasts E IsReached true)
  unfolding hook_set_up_photon
  set_up-Lasts settings method reached s l =
      Returns-bind (λ _. Lasts E IsReached true) (λ _. Lasts E IsReached true)
        (call_original E E.invoke_void set_up_photon (ptr settings ∷ ptr method ∷ []) begun)
        (λ u. configure E) (original-Lasts (ptr settings ∷ ptr method ∷ []) reached begun l)
        (λ u. (Survives-configure E IsReached true refl).at)
    where
      begun : State W
      begun = record s {
        log =
            record {
              level = info;
              text = "trace: Switcher.SetUpPhoton begin (HiddenSettings=%p)";
              args = nat settings ∷ [];
            }
            ∷ s.log;
      }
