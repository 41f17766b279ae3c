-- ===== src/Checks/Cloud.antt =====
-- The cloud guard on the toy runtime.
use Prim.Native.Nat.{min}
use old_pixel_gun_3d_online.Base.{
  ◌≡◌, refl, ◌+◌, ◌/◌, some, true, false, pos, length, arith, [], ◌∷◌,
}
use old_pixel_gun_3d_online.State.{
  State, ptr, num, connect_scene_go, connection_control_connect, game_connect_tier,
  game_connect_squad,
}
use old_pixel_gun_3d_online.State.Monad.{Ensures, loge, pure}
use old_pixel_gun_3d_online.Cloud.{
  force_cloud, call_original, current_server_settings, new_app_id, resolve_use_cloud,
  hook_connect_scene_go, hook_connection_control_connect, hook_game_connect_tier,
  hook_game_connect_squad,
}
use old_pixel_gun_3d_online.Il2cpp.Metadata.{
  find_field, find_class, find_method_info, method_pointer, class_loop,
}
use old_pixel_gun_3d_online.Il2cpp.Fields.{field_bytes}
use old_pixel_gun_3d_online.Il2cpp.Fields.Values.{le_bytes}
use old_pixel_gun_3d_online.Cloud.Force.{Forced, force_cloud_fail_closed}
use old_pixel_gun_3d_online.Cloud.Succeeds.{force_cloud_succeeds}
use old_pixel_gun_3d_online.Cloud.Gates.{Gate, hooks-Gate}
use old_pixel_gun_3d_online.Cloud.Quarantine.{updates, updates_throttled}
use old_pixel_gun_3d_online.Checks.Toy.{World, toy, start}

force_cloud_fail_closed_example : Ensures (force_cloud toy "test" true start) (Forced toy start)
force_cloud_fail_closed_example = force_cloud_fail_closed toy "test" start refl

abbrev Progress : State World → State World → Type 0
Progress s s4 =
    (s' : State World) × (force_cloud toy "test" true s ≡ some (true, s'))
    × (s'.cloud.cloud_ready ≡ true)
    × (s'.world ≡ s4.world)

-- The statics after the lookups, and the world after UseCloud.
abbrev looked_up : State World
looked_up = record start { cloud = record start.cloud { settings_field = 80 } }

abbrev found : State World
found = record start {
  cloud = record start.cloud { settings_field = 80; use_cloud_method = 90; use_cloud_fn = 91 };
}

abbrev routed : State World
routed = record found { world = record found.world { host = 1; region = 0; app = 100 } }

force_cloud_succeeds_example : Progress start routed
unfolding current_server_settings find_field find_class new_app_id resolve_use_cloud
    find_method_info method_pointer class_loop field_bytes
force_cloud_succeeds_example =
    force_cloud_succeeds toy "test" 50 100 start looked_up looked_up found routed refl refl refl
      refl refl refl refl refl refl
      (record {
        host = (le_bytes 4 1, refl, refl);
        region = (le_bytes 4 0, refl, refl);
        app = (le_bytes 4 100, refl, refl);
      })

hooks-Gate_example :
    Gate toy "ConnectScene.HandleGoBtnClicked"
      (loge "cloud-force: blocked ConnectScene.HandleGoBtnClicked" [])
      (call_original toy toy.invoke_void connect_scene_go (ptr 3 ∷ ptr 4 ∷ []))
      start
      (hook_connect_scene_go toy 3 4 start)
    × Gate toy "ConnectionControl.ConnectToPhoton"
        (loge "cloud-force: blocked ConnectionControl.ConnectToPhoton" [])
        (call_original toy toy.invoke_void connection_control_connect (ptr 3 ∷ ptr 4 ∷ []))
        start
        (hook_connection_control_connect toy 3 4 start)
    × Gate toy "GameConnect.ConnectToPhoton(tier)"
        (pure false)
        (call_original toy toy.invoke_bool game_connect_tier (num (pos 2) ∷ ptr 4 ∷ []))
        start
        (hook_game_connect_tier toy (pos 2) 4 start)
    × Gate toy "GameConnect.ConnectToPhotonSquad"
        (pure false)
        (call_original toy toy.invoke_bool game_connect_squad (ptr 4 ∷ []))
        start
        (hook_game_connect_squad toy 4 start)
hooks-Gate_example = hooks-Gate toy refl 3 4 (pos 2) start

updates_throttled_example :
    (s' : State World) × (updates toy 3 4 (pos 20) 250 start ≡ some (tt, s'))
    × (s'.cloud.quarantined_updates ≡ 250)
    × (length s'.log ≡ length start.log + (min 250 8 + 250 / 120))
    × (s'.world ≡ start.world)
    × (s'.cloud.state_fn ≡ 91)
    × (s'.cloud.state_method ≡ 90)
updates_throttled_example =
    updates_throttled toy 3 4 (pos 20) 91 90 refl (λ t. refl) (omega arith, omega arith) 250
      (omega arith) start refl refl refl
