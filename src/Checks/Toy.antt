-- ===== src/Checks/Toy.antt =====
-- A runtime with one assembly and one settings object, in which UseCloud does what it should.
mod Hooks
pub use Hooks.{hook_index, hook_at, hook_at_address}
use Prim.Native.String.{String}
use text.Mathlib.Text.{◌==◌ as same_text}
use old_pixel_gun_3d_online.Base.{
  ℕ, ◌+◌, is_null, true, false, Option, some, List, [], ◌∷◌, Bytes, ◌==◌, Ptr, pos, codes, ◌≡◌, ◌≢◌,
  refl, ap, arith, if◌then◌else◌,
}
use old_pixel_gun_3d_online.State.{
  Env, Platform, Config, State, Value, Hook, select_app_id, set_up_photon, use_cloud,
  use_cloud_best, use_cloud_region, use_my_server, connect_using_settings, connect_to_master,
  disconnect, get_game_version, game_connect, debug_return, on_status_changed,
  on_operation_response, failed_to_connect, disconnected, connected_to_master, friends_update,
  connect_scene_go, connection_control_connect, game_connect_tier, game_connect_squad,
}
use old_pixel_gun_3d_online.Il2cpp.Fields.Values.{le_bytes}
use old_pixel_gun_3d_online.Hook.Laws.{Patches}
use old_pixel_gun_3d_online.Init.Waits.{Threads}

-- The settings' fields, the entries that are patched and the attached threads, the newest first, and
-- the fields of an object whose fields can be written.
pub record World : Type 0 where
  pub host : ℕ
  pub region : ℕ
  pub app : Ptr
  pub patches : List (Ptr × Ptr)
  pub threads : List Ptr
  pub memory : Ptr → Bytes

abbrev pub field_id : String → Ptr
field_id name =
    if same_text name "HostType"
    then 71
    else if same_text name "PreferredRegion"
    then 72
    else if same_text name "AppID"
    then 73
    else 80

abbrev pub field_value : Ptr → World → ℕ
field_value f w = if f == 71 then w.host else if f == 72 then w.region else w.app

abbrev unpatched : List (Ptr × Ptr) → List (Ptr × Ptr)
unpatched [] = []
unpatched (p ∷ ps) = ps

abbrev detached : List Ptr → List Ptr
detached [] = []
detached (t ∷ ts) = ts

abbrev pub patch_at : List (Ptr × Ptr) → Ptr → Ptr
patch_at [] a = 0
patch_at ((b, r) ∷ ps) a = if b == a then r else patch_at ps a

abbrev pub platform : Platform World
platform = record {
  il2cpp_string_new = λ b w. (100, w);
  il2cpp_string_length = λ p w. pos 2;
  il2cpp_string_chars = λ p w. p;
  unit_at = λ p i w. 65;
  il2cpp_domain_get = λ w. 1;
  il2cpp_domain_get_assemblies = λ d w. (2, 3);
  assembly_at = λ a i w. if i == 0 then 0 else i;
  il2cpp_assembly_get_image = λ a w. a;
  il2cpp_image_get_name = λ i w. some (codes "Assembly-CSharp.dll");
  il2cpp_class_from_name = λ i ns name w. if i == 2 then 60 else 0;
  il2cpp_class_get_method_from_name = λ k name n w. 90;
  il2cpp_class_get_field_from_name = λ k name w. field_id name;
  il2cpp_object_get_class = λ o w. 60;
  il2cpp_field_get_value = λ o f w. le_bytes 4 (field_value f w);
  il2cpp_field_set_value = λ o f b w. w;
  network_initialized = λ w. true;
  il2cpp_field_static_get_value = λ f w. 50;
  il2cpp_field_static_set_value = λ f b w. w;
  il2cpp_thread_attach = λ d w. (7, record w { threads = 7 ∷ w.threads });
  il2cpp_thread_detach = λ t w. record w { threads = detached w.threads };
  pointer_at = λ p w. 91;
  address_of = λ h. 1000 + hook_index h;
  shadowhook_errno_ok = pos 0;
  shadowhook_init = λ w. (pos 0, w);
  shadowhook_hook_func_addr = λ a r w. record {
    stub = 5;
    orig = some 95;
    after = record w { patches = (a, r) ∷ w.patches };
  };
  shadowhook_unhook = λ p w. record w { patches = unpatched w.patches };
  shadowhook_get_errno = λ w. pos 1;
  usleep = λ n w. w;
}

pub patch_at-same : (a r : Ptr) (ps : List (Ptr × Ptr)) → patch_at ((a, r) ∷ ps) a ≡ r
patch_at-same a r ps = ground arith

pub patch_at-other :
    (a r : Ptr) (ps : List (Ptr × Ptr)) (b : Ptr) → b ≢ a → patch_at ((a, r) ∷ ps) b ≡ patch_at ps b
patch_at-other a r ps b ne = ground arith

abbrev pub config : Config
config = record {
  selfhosted = false;
  app_id = 97 ∷ 98 ∷ [];
  server_address = [];
  server_port = pos 5055;
}

abbrev pub use_cloud_code : Ptr → List Value → State World → Option (Unit {0} × State World)
use_cloud_code p args s =
    some (tt, record s { world = record s.world { host = 1; region = 0; app = 100 } })

abbrev pub toy : Env World
toy = record {
  config = config;
  platform = platform;
  invoke_void = use_cloud_code;
  invoke_bool = λ p args s. some (true, s);
  invoke_ptr = λ p args s. some (0, s);
  invoke_int = λ p args s. some (pos 20, s);
}

abbrev pub start : State World
start = record {
  world = record {
    host = 2;
    region = 4;
    app = 0;
    patches = [];
    threads = [];
    memory = λ f. 0 ∷ 0 ∷ 0 ∷ 0 ∷ [];
  };
  slots = λ e. 1;
  originals = λ h. 95;
  engine = record { engine_once = false; engine_ready = false };
  cloud = record {
    cloud_ready = false;
    cloud_apply_count = 0;
    quarantined_updates = 0;
    missing_app_id_logged = false;
    settings_field = 0;
    state_method = 90;
    state_fn = 91;
    use_cloud_method = 0;
    use_cloud_fn = 0;
  };
  photon = record {
    select_calls = 0;
    verbose_ready = false;
    settings_field = 0;
    state_method = 0;
    state_fn = 0;
    address_method = 0;
    address_fn = 0;
    auth_method = 0;
    auth_fn = 0;
    log_level_field = 0;
    peer_field = 0;
    set_debug_method = 0;
    set_debug_fn = 0;
  };
  log = [];
}

-- The laws of shadowhook hold here.
abbrev pub patches_of_toy : Patches platform
patches_of_toy = record {
  patched = λ w. patch_at w.patches;
  init_keeps = λ w a. refl;
  hook_fails = λ address replace w e. absurd (omega arith);
  hook_sets = λ address replace w ne. patch_at-same address replace w.patches;
  hook_others = λ address replace w ne a other. patch_at-other address replace w.patches a other;
  unhook_restores = λ address replace w ne a. refl;
}

pub thread_there : is_null 7 ≢ true
thread_there e = ground arith

-- So do those of the threads.
abbrev pub threads_of_toy : Threads platform patches_of_toy
threads_of_toy = record {
  attached = λ w. w.threads;
  sleep_patched = λ n w a. refl;
  sleep_attached = λ n w. refl;
  init_attached = λ w. refl;
  hook_attached = λ address replace w. refl;
  unhook_attached = λ stub w. refl;
  attach_patched = λ domain w a. refl;
  attach_fails = λ domain w e. absurd (thread_there e);
  attach_adds = λ domain w e. refl;
  detach_patched = λ thread w a. refl;
  detach_removes = λ thread rest w e. ap detached e;
}
