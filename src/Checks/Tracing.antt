-- ===== src/Checks/Tracing.antt =====
-- The tracing hooks in the toy runtime, where the getters and the setter at 91 do nothing.
use old_pixel_gun_3d_online.Base.{
  ℕ, ◌≡◌, ◌≤◌, ◌⊎◌, inl, inr, refl, ◌∙◌, length, true, false, Option, some, List, [], ◌∷◌, ◌==◌,
  Ptr, is_null, pos, arith, if◌then◌else◌, Bool-cases,
}
use old_pixel_gun_3d_online.State.{Env, State, set_up_photon, Value, ptr}
use old_pixel_gun_3d_online.State.Monad.{Returns, Ensures}
use old_pixel_gun_3d_online.Il2cpp.Fields.Values.{le_bytes}
use old_pixel_gun_3d_online.Il2cpp.Metadata.{method_pointer}
use old_pixel_gun_3d_online.Photon.Observers.{View, Ready, Probes}
use old_pixel_gun_3d_online.Cloud.{call_original}
use old_pixel_gun_3d_online.Photon.Wrappers.{Wraps, Keeps-call_original}
use old_pixel_gun_3d_online.Photon.Hooks.{hook_set_up_photon}
use old_pixel_gun_3d_online.Photon.Hooks.SetUp.{before, SetsUp, hook_set_up_photon-SetsUp}
use old_pixel_gun_3d_online.Photon.Hooks.Client.{hooked, original, call_connect_to_master}
use old_pixel_gun_3d_online.Photon.Hooks.Client.Refines.{hooked-Wraps}
use old_pixel_gun_3d_online.Checks.Toy.{World, field_value, toy, start, use_cloud_code}

abbrev pub code_at : Ptr → List Value → State World → Option (Unit {0} × State World)
code_at p args s = if p == 91 then some (tt, s) else use_cloud_code p args s

abbrev pub traced : Env World
traced = record toy { invoke_void = code_at }

abbrev pub view : View World
view = record {
  Quiet = λ s t. (s.world ≡ t.world) × (s.originals ≡ t.originals);
  IsProbe = λ p. (p ≡ 91) ⊎ (is_null p ≡ true);
  IsLevel = λ f. Unit;
  IsInitialized = Unit;
}

pub start-Ready : Ready traced view start
start-Ready = record {
  state = λ h. inr refl;
  address = λ h. inr refl;
  auth = λ h. inr refl;
  debug = λ h. inr refl;
  level = λ h. tt;
  static_get = refl;
  static_set = refl;
  initialized = λ up. refl;
}

method_pointer_at :
    (info : Ptr) (s : State World)
    → (method_pointer traced info s ≡ 91) ⊎ (is_null (method_pointer traced info s) ≡ true)
unfolding method_pointer
method_pointer_at info s = elim (Bool-cases (is_null info)) [
  | inl missing ↦ rw missing (inr refl)
  | inr there ↦ rw there (inl refl)
]

returns_still :
    (p : Ptr) (args : List Value) (s : State World)
    → (p ≡ 91) ⊎ (is_null p ≡ true)
    → is_null p ≡ false
    → Returns (code_at p args s) (λ _ t. view.Quiet s t)
returns_still p args s (inl e) there = rw e (refl, refl)
returns_still p args s (inr z) there = ground arith

code_keeps :
    (p : Ptr) (args : List Value) (s : State World)
    → Ready traced view s
    → Ensures (code_at p args s) (λ _. Ready traced view)
code_keeps p args s r = elim (Bool-cases (p == 91)) [
  | inl e ↦ rw e r
  | inr e ↦ rw e (record {
    state = r.state;
    address = r.address;
    auth = r.auth;
    debug = r.debug;
    level = r.level;
    static_get = r.static_get;
    static_set = r.static_set;
    initialized = r.initialized;
  })
]

narrow_le : (v : ℕ) → length (le_bytes 4 v) ≤ 16
narrow_le v = omega arith

instance pub probes : Probes traced view
probes = record {
  stays = record {
    new_stays = λ text w e. refl;
    set_stays = λ object field value w e. refl;
    static_set_stays = λ field value w e. refl;
  };
  quiet_refl = λ s. (refl, refl);
  quiet_trans = λ s t u p q. (p.0 ∙ q.0, p.1 ∙ q.1);
  quiet_log = λ s l. (refl, refl);
  quiet_photon = λ s p. (refl, refl);
  quiet_level = λ s f h n. (refl, refl);
  state_found = λ s. method_pointer_at _ s;
  address_found = λ s. method_pointer_at _ s;
  auth_found = λ s. method_pointer_at _ s;
  debug_found = λ s. method_pointer_at _ s;
  level_found = λ s. tt;
  probe_int = λ p args s h n. (refl, refl);
  probe_ptr = λ p args s h n. (refl, refl);
  probe_void = returns_still;
  keeps_int = λ p args s r. r;
  keeps_ptr = λ p args s r. r;
  keeps_void = code_keeps;
  keeps_bool = λ p args s r. r;
  narrow = λ o f w. narrow_le (field_value f w);
}

hooked-Wraps_example :
    Wraps traced view
      (original traced (call_connect_to_master 4 (pos 5055) 5 6 9))
      start
      (hooked traced (call_connect_to_master 4 (pos 5055) 5 6 9) start)
hooked-Wraps_example =
    hooked-Wraps traced view (call_connect_to_master 4 (pos 5055) 5 6 9) start tt start-Ready

start-before : Ready traced (before view) start
start-before = record {
  state = start-Ready.state;
  address = start-Ready.address;
  auth = start-Ready.auth;
  debug = start-Ready.debug;
  level = start-Ready.level;
  static_get = refl;
  static_set = refl;
  initialized = λ up. absurd up;
}

initialised : (s : State World) → Ready traced (before view) s → Ready traced view s
initialised s r = record {
  state = r.state;
  address = r.address;
  auth = r.auth;
  debug = r.debug;
  level = r.level;
  static_get = r.static_get;
  static_set = r.static_set;
  initialized = λ up. refl;
}

hook_set_up_photon-SetsUp_example :
    (s1 : State World) × view.Quiet start s1
    × SetsUp traced view
        (call_original traced traced.invoke_void set_up_photon (ptr 3 ∷ ptr 9 ∷ []) s1)
        (hook_set_up_photon traced 3 9 start)
hook_set_up_photon-SetsUp_example =
    hook_set_up_photon-SetsUp traced view tt 3 9 start start-before λ s1 r.
      (Keeps-call_original traced.invoke_void code_keeps set_up_photon (ptr 3 ∷ ptr 9 ∷ [])).at s1
        (initialised s1 r)
