-- ===== src/State.antt =====
-- The data of the library: its global and static variables (`State`), the build's constants
-- (config.h, `Config`), and everything that the C++ calls and does not define (`Platform`, `Env`):
-- the exports of libil2cpp.so (il2cpp.h lists their signatures), the loader's tables, shadowhook,
-- the clock, and the machine code behind a function pointer. The monad over it is in State/Monad.
pub mod Monad
use Prim.Native.String.{String}
use old_pixel_gun_3d_online.Base.{ℕ, Bool, Option, List, Bytes, Ptr, ℤ}

-- The inline function pointers of il2cpp.h, in the order of `resolve`.
pub data Export : Type 0 where
  string_new string_length string_chars domain_get domain_get_assemblies : Export
  assembly_get_image image_get_name class_from_name class_get_method_from_name : Export
  class_get_field_from_name object_get_class field_get_value field_set_value : Export
  field_static_get_value field_static_set_value thread_attach thread_detach : Export

pub Export-discrete : Discrete Export
Export-discrete = hlevel

-- The `g_...` pointers to the originals: those of photon_hooks.cpp, then those of cloud_guard.h.
pub data Hook : Type 0 where
  select_app_id set_up_photon use_cloud use_cloud_best use_cloud_region use_my_server : Hook
  connect_using_settings connect_to_master disconnect get_game_version game_connect : Hook
  debug_return on_status_changed on_operation_response failed_to_connect : Hook
  disconnected connected_to_master : Hook
  friends_update connect_scene_go connection_control_connect : Hook
  game_connect_tier game_connect_squad : Hook

pub Hook-discrete : Discrete Hook
Hook-discrete = hlevel

pub data Level : Type 0 where
  info warn error : Level

-- An argument of a log call.
pub data Arg : Type 0 where
  str : String → Arg
  bytes : Bytes → Arg
  int : ℤ → Arg
  nat : ℕ → Arg

-- A call of logi, logw or loge: the literal behind its tag, and its arguments.
pub record Line : Type 0 where
  pub level : Level
  pub text : String
  pub args : List Arg

-- A value handed to machine code.
pub data Value : Type 0 where
  ptr : Ptr → Value
  num : ℤ → Value

-- The atomics and the function-local statics of cloud_guard.h.
pub record Cloud : Type 0 where
  pub cloud_ready : Bool
  pub cloud_apply_count : ℕ
  pub quarantined_updates : ℕ
  pub missing_app_id_logged : Bool
  pub settings_field : Ptr
  pub state_method : Ptr
  pub state_fn : Ptr
  pub use_cloud_method : Ptr
  pub use_cloud_fn : Ptr

-- The atomics and the function-local statics of photon_hooks.cpp.
pub record Photon : Type 0 where
  pub select_calls : ℕ
  pub verbose_ready : Bool
  pub settings_field : Ptr
  pub state_method : Ptr
  pub state_fn : Ptr
  pub address_method : Ptr
  pub address_fn : Ptr
  pub auth_method : Ptr
  pub auth_fn : Ptr
  pub log_level_field : Ptr
  pub peer_field : Ptr
  pub set_debug_method : Ptr
  pub set_debug_fn : Ptr

-- `g_engine_once` (has it run?) and `g_engine_ready` of hook.cpp.
pub record Engine : Type 0 where
  pub engine_once : Bool
  pub engine_ready : Bool

pub record State (W : Type 0) : Type 0 where
  pub world : W
  pub slots : Export → Ptr
  pub originals : Hook → Ptr
  pub engine : Engine
  pub cloud : Cloud
  pub photon : Photon
  -- newest first
  pub log : List Line

-- The constants of config.h, and whether PHOTON_MODE_SELFHOSTED is defined.
pub record Config : Type 0 where
  pub selfhosted : Bool
  pub app_id : Bytes
  pub server_address : Bytes
  pub server_port : ℤ

-- What a call of `shadowhook_hook_func_addr` leaves: its result, what it wrote through `orig_addr`.
pub record Hooked (W : Type 0) : Type 0 where
  pub stub : Ptr
  pub orig : Option Ptr
  pub after : W

-- Functions and tables of other libraries, on a state `W` of the process around this library.
pub record Platform (W : Type 0) : Type 0 where
  pub il2cpp_string_new : Bytes → W → Ptr × W
  pub il2cpp_string_length : Ptr → W → ℤ
  pub il2cpp_string_chars : Ptr → W → Ptr
  -- `chars[i]` of a `const uint16_t*`
  pub unit_at : Ptr → ℕ → W → ℕ
  pub il2cpp_domain_get : W → Ptr
  -- the array, and what is written to `*count`
  pub il2cpp_domain_get_assemblies : Ptr → W → Ptr × ℕ
  -- `assemblies[i]`
  pub assembly_at : Ptr → ℕ → W → Ptr
  pub il2cpp_assembly_get_image : Ptr → W → Ptr
  -- a null name is `none`
  pub il2cpp_image_get_name : Ptr → W → Option Bytes
  pub il2cpp_class_from_name : Ptr → String → String → W → Ptr
  pub il2cpp_class_get_method_from_name : Ptr → String → ℕ → W → Ptr
  pub il2cpp_class_get_field_from_name : Ptr → String → W → Ptr
  pub il2cpp_object_get_class : Ptr → W → Ptr
  -- the bytes that are copied out, as many as the field is wide
  pub il2cpp_field_get_value : Ptr → Ptr → W → Bytes
  pub il2cpp_field_set_value : Ptr → Ptr → Bytes → W → W
  -- whether the static constructor of PhotonNetwork has run: only then has the class the memory that
  -- its static fields stand in
  pub network_initialized : W → Bool
  pub il2cpp_field_static_get_value : Ptr → W → Ptr
  pub il2cpp_field_static_set_value : Ptr → Bytes → W → W
  pub il2cpp_thread_attach : Ptr → W → Ptr × W
  pub il2cpp_thread_detach : Ptr → W → W
  -- the pointer stored at an address
  pub pointer_at : Ptr → W → Ptr
  -- the address of a hook function of this library
  pub address_of : Hook → Ptr
  pub shadowhook_errno_ok : ℤ
  pub shadowhook_init : W → ℤ × W
  pub shadowhook_hook_func_addr : Ptr → Ptr → W → Hooked W
  pub shadowhook_unhook : Ptr → W → W
  pub shadowhook_get_errno : W → ℤ
  pub usleep : ℕ → W → W

-- The machine code at an address, called with some arguments. It may be the game's, or a hooked
-- entry that leads back into this library, so it acts on the whole state; `none` is a fault.
pub record Env (W : Type 0) : Type 0 where
  pub config : Config
  pub open config use *
  pub platform : Platform W
  pub open platform use *
  pub invoke_void : Ptr → List Value → State W → Option (Unit {0} × State W)
  pub invoke_bool : Ptr → List Value → State W → Option (Bool × State W)
  pub invoke_ptr : Ptr → List Value → State W → Option (Ptr × State W)
  pub invoke_int : Ptr → List Value → State W → Option (ℤ × State W)
