-- ===== src/Hook.antt =====
-- hook.cpp and hook.h: one inline hook on a managed method, found through the metadata.
-- Of the log calls the arguments that name the method are kept, those that spell an error are not.
pub mod Laws
pub mod Install
pub mod Safe
pub mod Steps
use Prim.Native.String.{String}
use old_pixel_gun_3d_online.Base.{
  ℕ, Bool, true, false, not, Option, none, some, List, [], ◌∷◌, Ptr, null, is_null, ℤ,
  if◌then◌else◌,
}
use old_pixel_gun_3d_online.Base.Int.{same_int}
use old_pixel_gun_3d_online.State.{Env, State, Hook, Hooked, Engine, Arg, str, nat, int}
use old_pixel_gun_3d_online.State.Monad.{
  M, ◌>>=◌, ◌>>◌, pure, gets, reads, acts, changes, branch, logi, logw, loge, set_original,
}
use old_pixel_gun_3d_online.Il2cpp.Metadata.{find_method_info, method_pointer}

pub record ManagedMethod : Type 0 where
  pub namespaze : String
  pub klass : String
  pub method : String
  pub args_count : ℕ

-- A method of a class without a namespace.
abbrev pub game_method : String → String → ℕ → ManagedMethod
game_method klass method args_count = record {
  namespaze = "";
  klass = klass;
  method = method;
  args_count = args_count;
}

abbrev named : ManagedMethod → List Arg
named target = str target.klass ∷ str target.method ∷ nat target.args_count ∷ []

-- A write of the engine through `orig_addr`, if it made one.
abbrev pub written : Option Ptr → Hook → (Hook → Ptr) → Hook → Ptr
written none h originals = originals
written (some p) h originals = set_original h p originals

module _ {W : Type 0} (E : Env W) where
  open E use {platform}

  set_engine : Engine → M W (Unit {0})
  set_engine e s = some (tt, record s { engine = e })

  -- `std::call_once` on the initialisation.
  unfoldable pub ensure_engine : M W (Unit {0})
  unfolding set_engine
  ensure_engine = do
    once ← gets (λ s. s.engine.engine_once)
    branch once (pure tt) (do
      rc ← acts platform.shadowhook_init
      set_engine
          (record { engine_once = true; engine_ready = same_int rc platform.shadowhook_errno_ok })
      branch (same_int rc platform.shadowhook_errno_ok) (logi "hook: %s ready (UNIQUE mode)" [])
          (loge "hook: shadowhook_init failed errno=%d (%s)" (int rc ∷ [])))

  -- `*original = p`
  set_orig : Hook → Ptr → M W (Unit {0})
  set_orig h p s = some (tt, record s { originals = set_original h p s.originals })

  -- What the engine wrote through `orig_addr`.
  receive : Hook → Hooked W → M W Ptr
  receive h r s =
      some (r.stub, record s { world = r.after; originals = written r.orig h s.originals })

  -- `*original = nullptr; void* stub = shadowhook_hook_func_addr(address, replacement, original);`
  pub hook_func_addr : Ptr → Ptr → Hook → M W Ptr
  unfolding set_orig receive
  hook_func_addr address replacement original = do
    set_orig original null
    hooked ← reads (platform.shadowhook_hook_func_addr address replacement)
    receive original hooked

  -- From the lookup of the method on.
  pub install_ready : ManagedMethod → Ptr → Hook → Bool → M W Bool
  install_ready target replacement original required = do
    method_info ←
        gets (find_method_info E target.namespaze target.klass target.method target.args_count)
    branch (is_null method_info)
        (do
          branch required (loge "hook: REQUIRED method not found: %s.%s/%d" (named target))
              (logw "hook: optional method not found: %s.%s/%d" (named target))
          pure false)
        (do
          address ← gets (method_pointer E method_info)
          branch (is_null address)
              (do loge "hook: null methodPointer: %s.%s/%d" (named target); pure false)
              (do
                stub ← hook_func_addr address replacement original
                branch (is_null stub)
                    (do
                      err ← reads platform.shadowhook_get_errno
                      loge "hook: shadowhook_hook_func_addr failed errno=%d (%s): %s.%s/%d @ %p"
                          (int err ∷ named target)
                      pure false)
                    (do
                      orig ← gets (λ s. s.originals original)
                      branch (is_null orig)
                          (do
                            loge "hook: engine gave no trampoline for %s.%s/%d @ %p; rolling back"
                                (named target)
                            changes (platform.shadowhook_unhook stub)
                            pure false)
                          (do logi "hook: installed %s.%s/%d @ %p" (named target); pure true))))

  -- `original` is the address of one of the `g_...` pointers, or null.
  unfoldable pub install : ManagedMethod → Ptr → Option Hook → Bool → M W Bool
  install target replacement none required = do
    loge "hook: invalid arguments for %s.%s" (str target.klass ∷ str target.method ∷ [])
    pure false
  install target replacement (some original) required =
      branch (is_null replacement)
        (do
          loge "hook: invalid arguments for %s.%s" (str target.klass ∷ str target.method ∷ [])
          pure false)
        (do
          ensure_engine
          ready ← gets (λ s. s.engine.engine_ready)
          branch (not ready)
              (do loge "hook: engine unavailable; cannot hook %s.%s/%d" (named target); pure false)
              (install_ready target replacement original required))
