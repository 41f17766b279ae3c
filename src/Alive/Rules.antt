-- ===== src/Alive/Rules.antt =====
-- One rule for each way to build code that returns.
use Prim.Native.String.{String}
use old_pixel_gun_3d_online.Base.{
  Bytes, ℕ, ◌≡◌, refl, sym, arith, inl, inr, Bool, true, false, not, ◌&&◌, ◌||◌, List, Ptr, is_null,
  Option-cases,
}
use old_pixel_gun_3d_online.State.{
  Env, State, Hook, Value, Arg, Cloud, Photon, string_new, field_static_get_value,
  field_static_set_value,
}
use old_pixel_gun_3d_online.State.Monad.{
  M, ◌>>=◌, ◌>>◌, pure, gets, reads, acts, changes, branch, through, touch_statics, modify_cloud,
  modify_photon, logi, logw, loge, Returns, Returns-bind,
}
use old_pixel_gun_3d_online.Il2cpp.Fields.{
  read_field, field_bytes, read_field-some, field_bytes-ne-none,
}
use old_pixel_gun_3d_online.Cloud.{call_original}
use old_pixel_gun_3d_online.Alive.{Lasts, Robust}

-- From a sound state the code returns, in a sound state.
pub record Survives {W A : Type 0} (E : Env W) (IsReached : Hook → Type 0) (up : Bool) (m : M W A)
    : Type 0 where
  pub at : (s : State W) → Lasts E IsReached up s → Returns (m s) (λ _. Lasts E IsReached up)

module _ {W A : Type 0} {E : Env W} {IsReached : Hook → Type 0} {up : Bool} where
  pub Survives-pure : (a : A) → Survives E IsReached up (pure a)
  Survives-pure a = record { at = λ s h. h }

  pub Survives-gets : (f : State W → A) → Survives E IsReached up (gets f)
  Survives-gets f = record { at = λ s h. h }

  pub Survives-reads : (f : W → A) → Survives E IsReached up (reads f)
  Survives-reads f = record { at = λ s h. h }

  pub Survives-branch :
      (b : Bool) (m k : M W A)
      → (b ≡ true → Survives E IsReached up m)
      → (b ≡ false → Survives E IsReached up k)
      → Survives E IsReached up (branch b m k)
  Survives-branch true m k sm sk = record { at = λ s h. (sm refl).at s h }
  Survives-branch false m k sm sk = record { at = λ s h. (sk refl).at s h }

module _ {W A B : Type 0} {E : Env W} {IsReached : Hook → Type 0} {up : Bool} where
  pub Survives-bind :
      (m : M W A) (k : A → M W B)
      → Survives E IsReached up m
      → ((a : A) → Survives E IsReached up (k a))
      → Survives E IsReached up (m >>= k)
  Survives-bind m k sm sk = record {
    at = λ s h. Returns-bind _ _ (m s) k (sm.at s h) (λ a. (sk a).at);
  }

  pub Survives-then :
      (m : M W A) (k : M W B)
      → Survives E IsReached up m
      → Survives E IsReached up k
      → Survives E IsReached up (m >> k)
  Survives-then m k sm sk = Survives-bind m (λ _. k) sm (λ _. sk)

module _ {W : Type 0} {E : Env W} {IsReached : Hook → Type 0} {up : Bool} where
  pub Survives-modify_cloud : (f : Cloud → Cloud) → Survives E IsReached up (modify_cloud f)
  Survives-modify_cloud f = record { at = λ s h. h }

  pub Survives-modify_photon : (f : Photon → Photon) → Survives E IsReached up (modify_photon f)
  Survives-modify_photon f = record { at = λ s h. h }

  pub Survives-logi : (text : String) (args : List Arg) → Survives E IsReached up (logi text args)
  Survives-logi text args = record { at = λ s h. h }

  pub Survives-logw : (text : String) (args : List Arg) → Survives E IsReached up (logw text args)
  Survives-logw text args = record { at = λ s h. h }

  pub Survives-loge : (text : String) (args : List Arg) → Survives E IsReached up (loge text args)
  Survives-loge text args = record { at = λ s h. h }

  pub Survives-new : Survives E IsReached up (through string_new)
  Survives-new = record { at = λ s h. rw h.0.new_there h }

  pub Survives-static_get : Survives E IsReached up (through field_static_get_value)
  Survives-static_get = record { at = λ s h. rw h.0.static_get_there h }

  pub Survives-static_set : Survives E IsReached up (through field_static_set_value)
  Survives-static_set = record { at = λ s h. rw h.0.static_set_there h }

module _ {W : Type 0} (E : Env W) (IsReached : Hook → Type 0) (up : Bool)
    ⦃robust : Robust E IsReached⦄ where
  pub Survives-read_field :
      (size : ℕ) (object : Ptr) (name : String)
      → Survives E IsReached up (read_field E size object name)
  Survives-read_field size object name = record {
    at = λ s h. elim (Option-cases (field_bytes E size object name s.slots s.world)) [
      | inl fault ↦
          absurd (field_bytes-ne-none E size object name s (robust.narrow _ _ s.world) fault)
      | inr (read, e) ↦ rw (read_field-some E size object name s e) h
    ];
  }

  pub Survives-touch : up ≡ true → Survives E IsReached up (touch_statics E)
  Survives-touch e = record { at = λ s h. rw (h.1 e) h }

  pub Survives-string_new :
      (text : Bytes) → Survives E IsReached up (acts (E.il2cpp_string_new text))
  Survives-string_new text = record {
    at = λ s h. (h.0, λ e. robust.stays.new_stays text s.world (h.1 e));
  }

  pub Survives-field_set :
      (object field : Ptr) (value : Bytes)
      → Survives E IsReached up (changes (E.il2cpp_field_set_value object field value))
  Survives-field_set object field value = record {
    at = λ s h. (h.0, λ e. robust.stays.set_stays object field value s.world (h.1 e));
  }

  pub Survives-static_change :
      (field : Ptr) (value : Bytes)
      → Survives E IsReached up (changes (E.il2cpp_field_static_set_value field value))
  Survives-static_change field value = record {
    at = λ s h. (h.0, λ e. robust.stays.static_set_stays field value s.world (h.1 e));
  }

  -- Calls of pointers that have been tested.
  pub Survives-invoke_void :
      (fn : Ptr) (args : List Value)
      → is_null fn ≡ false
      → Survives E IsReached up (E.invoke_void fn args)
  Survives-invoke_void fn args there = record { at = λ s h. robust.voids up fn args s there h }

  pub Survives-invoke_ptr :
      (fn : Ptr) (args : List Value)
      → is_null fn ≡ false
      → Survives E IsReached up (E.invoke_ptr fn args)
  Survives-invoke_ptr fn args there = record { at = λ s h. robust.ptrs up fn args s there h }

  pub Survives-invoke_int :
      (fn : Ptr) (args : List Value)
      → is_null fn ≡ false
      → Survives E IsReached up (E.invoke_int fn args)
  Survives-invoke_int fn args there = record { at = λ s h. robust.ints up fn args s there h }

  -- Calls of the originals of hooks that are reached.
  pub Survives-void :
      (h : Hook) (args : List Value)
      → IsReached h
      → Survives E IsReached up (call_original E E.invoke_void h args)
  Survives-void h args reached = record {
    at = λ s l.
        rw (l.0.original_there h reached)
          (robust.voids up (s.originals h) args s (l.0.original_there h reached) l);
  }

  pub Survives-bool :
      (h : Hook) (args : List Value)
      → IsReached h
      → Survives E IsReached up (call_original E E.invoke_bool h args)
  Survives-bool h args reached = record {
    at = λ s l.
        rw (l.0.original_there h reached)
          (robust.bools up (s.originals h) args s (l.0.original_there h reached) l);
  }

  pub Survives-ptr :
      (h : Hook) (args : List Value)
      → IsReached h
      → Survives E IsReached up (call_original E E.invoke_ptr h args)
  Survives-ptr h args reached = record {
    at = λ s l.
        rw (l.0.original_there h reached)
          (robust.ptrs up (s.originals h) args s (l.0.original_there h reached) l);
  }

-- What the tests in front of a call say of the pointer.
pub tested : (b : Bool) → not b ≡ true → b ≡ false
tested true e = sym e
tested false e = refl

pub tested_first : (b c : Bool) → (b || c) ≡ false → b ≡ false
tested_first b c e = ground (arith, e)

pub tested_second : (b c : Bool) → (not b && not c) ≡ true → c ≡ false
tested_second b c e = ground (arith, e)

pub ruleset alive_rules = (
  Survives-pure, Survives-gets, Survives-reads, Survives-branch, Survives-bind, Survives-then,
  Survives-touch, Survives-string_new, Survives-field_set, Survives-static_change,
  Survives-modify_cloud, Survives-modify_photon, Survives-logi, Survives-logw, Survives-loge,
  Survives-new, Survives-static_get, Survives-static_set, tested, tested_first, tested_second,
)
