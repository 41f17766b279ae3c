-- ===== src/Photon/Observers.antt =====
-- What photon_hooks.cpp relies on where it probes the game for a log line, and the rules by which
-- code that only probes and logs leaves the game alone.
use old_pixel_gun_3d_online.Base.{◌≤◌, ◌≡◌, true, false, Bytes, List, length, Ptr, is_null}
use old_pixel_gun_3d_online.State.{
  Env, Platform, State, Photon, Line, Value, field_static_get_value, field_static_set_value,
}
use old_pixel_gun_3d_online.State.Monad.{Returns, Ensures}
use old_pixel_gun_3d_online.Il2cpp.Metadata.{find_field, find_method_info, method_pointer}
use old_pixel_gun_3d_online.Il2cpp.Fields.Values.{le_bytes}

-- A view of the game: which changes of the state do not matter to it, which entries are the getters
-- and the setter that are probed, which field is the log level, and whether the game has initialised
-- PhotonNetwork, as it must before code touches the static fields of that class.
pub record View (W : Type 0) : Type 1 where
  pub Quiet : State W → State W → Type 0
  pub IsProbe : Ptr → Type 0
  pub IsLevel : Ptr → Type 0
  pub IsInitialized : Type 0

-- New strings and writes of fields leave PhotonNetwork initialised.
pub record StaysInitialized {W : Type 0} (P : Platform W) : Type 0 where
  pub new_stays :
      (text : Bytes) (w : W)
      → P.network_initialized w ≡ true
      → P.network_initialized (P.il2cpp_string_new text w).1 ≡ true
  pub set_stays :
      (object field : Ptr) (value : Bytes) (w : W)
      → P.network_initialized w ≡ true
      → P.network_initialized (P.il2cpp_field_set_value object field value w) ≡ true
  pub static_set_stays :
      (field : Ptr) (value : Bytes) (w : W)
      → P.network_initialized w ≡ true
      → P.network_initialized (P.il2cpp_field_static_set_value field value w) ≡ true

module _ {W : Type 0} (E : Env W) (V : View W) where
  open V use {Quiet, IsProbe, IsLevel, IsInitialized}

  -- The function-local statics hold what they cache or null, and the exports that are called without
  -- a test are bound. In a view of an initialised PhotonNetwork, it is.
  pub record Ready (s : State W) : Type 0 where
    pub state : is_null s.photon.state_fn ≡ false → IsProbe s.photon.state_fn
    pub address : is_null s.photon.address_fn ≡ false → IsProbe s.photon.address_fn
    pub auth : is_null s.photon.auth_fn ≡ false → IsProbe s.photon.auth_fn
    pub debug : is_null s.photon.set_debug_fn ≡ false → IsProbe s.photon.set_debug_fn
    pub level : is_null s.photon.log_level_field ≡ false → IsLevel s.photon.log_level_field
    pub static_get : is_null (s.slots field_static_get_value) ≡ false
    pub static_set : is_null (s.slots field_static_set_value) ≡ false
    pub initialized : IsInitialized → E.network_initialized s.world ≡ true

  pub record Probes : Type 0 where
    pub stays : StaysInitialized E.platform
    pub quiet_refl : (s : State W) → Quiet s s
    pub quiet_trans : (s t u : State W) → Quiet s t → Quiet t u → Quiet s u
    -- The log and the statics of photon_hooks.cpp are not the game's.
    pub quiet_log : (s : State W) (l : List Line) → Quiet s (record s { log = l })
    pub quiet_photon : (s : State W) (p : Photon) → Quiet s (record s { photon = p })
    pub quiet_level :
        (s : State W) (field : Ptr)
        → IsLevel field
        → is_null field ≡ false
        → Quiet s
            (record s { world = E.il2cpp_field_static_set_value field (le_bytes 4 2) s.world })
    -- The metadata gives the getters, the setter and the field.
    pub state_found :
        (s : State W)
        → IsProbe (
            method_pointer E
              (find_method_info E "" "PhotonNetwork" "get_connectionStateDetailed" 0 s)
              s)
    pub address_found :
        (s : State W)
        → IsProbe
            (method_pointer E (find_method_info E "" "PhotonNetwork" "get_ServerAddress" 0 s) s)
    pub auth_found :
        (s : State W)
        → IsProbe (method_pointer E (find_method_info E "" "PhotonNetwork" "get_AuthValues" 0 s) s)
    pub debug_found :
        (s : State W)
        → IsProbe (
            method_pointer E
              (find_method_info E "ExitGames.Client.Photon" "PhotonPeer" "set_DebugOut" 1 s)
              s)
    pub level_found : (s : State W) → IsLevel (find_field E "" "PhotonNetwork" "logLevel" s)
    -- A call of one returns, and does not disturb the game.
    pub probe_int :
        (fn : Ptr) (args : List Value) (s : State W)
        → IsProbe fn
        → is_null fn ≡ false
        → Returns (E.invoke_int fn args s) (λ _ t. Quiet s t)
    pub probe_ptr :
        (fn : Ptr) (args : List Value) (s : State W)
        → IsProbe fn
        → is_null fn ≡ false
        → Returns (E.invoke_ptr fn args s) (λ _ t. Quiet s t)
    pub probe_void :
        (fn : Ptr) (args : List Value) (s : State W)
        → IsProbe fn
        → is_null fn ≡ false
        → Returns (E.invoke_void fn args s) (λ _ t. Quiet s t)
    -- Machine code changes the statics of this library at most by its hooks.
    pub keeps_int :
        (fn : Ptr) (args : List Value) (s : State W)
        → Ready s
        → Ensures (E.invoke_int fn args s) (λ _. Ready)
    pub keeps_ptr :
        (fn : Ptr) (args : List Value) (s : State W)
        → Ready s
        → Ensures (E.invoke_ptr fn args s) (λ _. Ready)
    pub keeps_void :
        (fn : Ptr) (args : List Value) (s : State W)
        → Ready s
        → Ensures (E.invoke_void fn args s) (λ _. Ready)
    pub keeps_bool :
        (fn : Ptr) (args : List Value) (s : State W)
        → Ready s
        → Ensures (E.invoke_bool fn args s) (λ _. Ready)
    -- The fields that are read fit the buffer.
    pub narrow :
        (object field : Ptr) (w : W) → length (E.il2cpp_field_get_value object field w) ≤ 16
