-- ===== src/Photon/Statics.antt =====
-- One rule for each way to build code that keeps the statics of photon_hooks.cpp sound.
use Prim.Native.String.{String}
use old_pixel_gun_3d_online.Base.{
  Bytes, Ptr, Bool, true, false, List, is_null, Bool-cases, inl, inr,
}
use old_pixel_gun_3d_online.State.{Env, State, Export, Arg}
use old_pixel_gun_3d_online.State.Monad.{
  M, ◌>>=◌, ◌>>◌, pure, gets, acts, changes, branch, through, logi, Ensures-bind,
}
use old_pixel_gun_3d_online.Photon.Observers.{View, Probes}
use old_pixel_gun_3d_online.Photon.Wrappers.{Keeps}
use old_pixel_gun_3d_online.Photon.Probes.Quiet.{}
use old_pixel_gun_3d_online.Photon.Probes.{}
use old_pixel_gun_3d_online.Photon.Settings.{}

module _ {W A : Type 0} {E : Env W} {V : View W} where
  pub Keeps-pure : (a : A) → Keeps E V (pure a)
  Keeps-pure a = record { at = λ s r. r }

  pub Keeps-gets : (f : State W → A) → Keeps E V (gets f)
  Keeps-gets f = record { at = λ s r. r }

  pub Keeps-branch : (b : Bool) (m k : M W A) → Keeps E V m → Keeps E V k → Keeps E V (branch b m k)
  Keeps-branch true m k hm hk = record { at = hm.at }
  Keeps-branch false m k hm hk = record { at = hk.at }

module _ {W A B : Type 0} {E : Env W} {V : View W} where
  pub Keeps-bind :
      (m : M W A) (k : A → M W B) → Keeps E V m → ((a : A) → Keeps E V (k a)) → Keeps E V (m >>= k)
  Keeps-bind m k hm hk = record {
    at = λ s r. Ensures-bind _ _ (m s) k (hm.at s r) (λ a. (hk a).at);
  }

  pub Keeps-then : (m : M W A) (k : M W B) → Keeps E V m → Keeps E V k → Keeps E V (m >> k)
  Keeps-then m k hm hk = Keeps-bind m (λ _. k) hm (λ _. hk)

module _ {W : Type 0} {E : Env W} {V : View W} where
  pub Keeps-logi : (text : String) (args : List Arg) → Keeps E V (logi text args)
  Keeps-logi text args = record {
    at = λ s r. record {
      state = r.state;
      address = r.address;
      auth = r.auth;
      debug = r.debug;
      level = r.level;
      static_get = r.static_get;
      static_set = r.static_set;
      initialized = r.initialized;
    };
  }

  pub Keeps-through : (e : Export) → Keeps E V (through e)
  Keeps-through e = record {
    at = λ s r. elim (Bool-cases (is_null (s.slots e))) [
      | inl missing ↦ rw missing tt
      | inr there ↦ rw there r
    ];
  }

module _ {W : Type 0} {E : Env W} {V : View W} ⦃laws : Probes E V⦄ where
  pub Keeps-string_new : (text : Bytes) → Keeps E V (acts (E.il2cpp_string_new text))
  Keeps-string_new text = record {
    at = λ s r. record {
      state = r.state;
      address = r.address;
      auth = r.auth;
      debug = r.debug;
      level = r.level;
      static_get = r.static_get;
      static_set = r.static_set;
      initialized = λ up. laws.stays.new_stays text s.world (r.initialized up);
    };
  }

  pub Keeps-field_set :
      (object field : Ptr) (value : Bytes)
      → Keeps E V (changes (E.il2cpp_field_set_value object field value))
  Keeps-field_set object field value = record {
    at = λ s r. record {
      state = r.state;
      address = r.address;
      auth = r.auth;
      debug = r.debug;
      level = r.level;
      static_get = r.static_get;
      static_set = r.static_set;
      initialized = λ up. laws.stays.set_stays object field value s.world (r.initialized up);
    };
  }

pub ruleset ready_rules = (
  Keeps-pure, Keeps-gets, Keeps-string_new, Keeps-branch, Keeps-bind, Keeps-then, Keeps-field_set,
  Keeps-logi, Keeps-through,
)
