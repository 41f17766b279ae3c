-- ===== src/Alive.antt =====
-- What the hooks need so that none of them calls through a null pointer or touches the static fields
-- of a class that is not initialised: the exports that are called without a test, the originals of the
-- entries that the game can reach, and PhotonNetwork. Rules has one rule for
-- each way to build code, Probes, Hooks, SetUp and Gates the code of photon_hooks.cpp and cloud_guard.h,
-- Sessions the game as a client, Start the start in front of it.
pub mod Rules
pub mod Probes
pub mod Hooks
pub mod SetUp
pub mod Gates
pub mod Sessions
pub mod Start
use old_pixel_gun_3d_online.Base.{◌≡◌, ◌≤◌, Bool, true, false, List, length, Ptr, is_null}
use old_pixel_gun_3d_online.State.{
  Env, State, Export, Hook, Value, string_new, field_static_get_value, field_static_set_value,
  set_up_photon,
}
use old_pixel_gun_3d_online.State.Monad.{Returns}
use old_pixel_gun_3d_online.Photon.Observers.{StaysInitialized}

-- `IsReached` holds of the hooks that some entry leads to.
pub record Sound (IsReached : Hook → Type 0) (slots : Export → Ptr) (originals : Hook → Ptr)
    : Type 0 where
  pub new_there : is_null (slots string_new) ≡ false
  pub static_get_there : is_null (slots field_static_get_value) ≡ false
  pub static_set_there : is_null (slots field_static_set_value) ≡ false
  pub original_there : (h : Hook) → IsReached h → is_null (originals h) ≡ false

module _ {W : Type 0} (E : Env W) (IsReached : Hook → Type 0) (up : Bool) where
  -- The pointers are sound and, if `up`, PhotonNetwork is initialised.
  abbrev pub Lasts : State W → Type 0
  Lasts s = Sound IsReached s.slots s.originals × (up ≡ true → E.network_initialized s.world ≡ true)

-- Machine code does not fault, leaves the library's pointers alone or as sound as they were, and
-- PhotonNetwork initialised if it was; the fields that are read fit the buffer.
pub record Robust {W : Type 0} (E : Env W) (IsReached : Hook → Type 0) : Type 0 where
  pub voids :
      (up : Bool) (fn : Ptr) (args : List Value) (s : State W)
      → is_null fn ≡ false
      → Lasts E IsReached up s
      → Returns (E.invoke_void fn args s) (λ _. Lasts E IsReached up)
  pub bools :
      (up : Bool) (fn : Ptr) (args : List Value) (s : State W)
      → is_null fn ≡ false
      → Lasts E IsReached up s
      → Returns (E.invoke_bool fn args s) (λ _. Lasts E IsReached up)
  pub ptrs :
      (up : Bool) (fn : Ptr) (args : List Value) (s : State W)
      → is_null fn ≡ false
      → Lasts E IsReached up s
      → Returns (E.invoke_ptr fn args s) (λ _. Lasts E IsReached up)
  pub ints :
      (up : Bool) (fn : Ptr) (args : List Value) (s : State W)
      → is_null fn ≡ false
      → Lasts E IsReached up s
      → Returns (E.invoke_int fn args s) (λ _. Lasts E IsReached up)
  -- The game's SetUpPhoton initialises PhotonNetwork.
  pub sets_up :
      (args : List Value) (s : State W)
      → is_null (s.originals set_up_photon) ≡ false
      → Lasts E IsReached false s
      → Returns (E.invoke_void (s.originals set_up_photon) args s) (λ _. Lasts E IsReached true)
  pub stays : StaysInitialized E.platform
  pub narrow : (object field : Ptr) (w : W) → length (E.il2cpp_field_get_value object field w) ≤ 16
