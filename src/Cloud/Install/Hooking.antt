-- ===== src/Cloud/Install/Hooking.antt =====
-- `install_hooks` of cloud_guard.h acts on the process by calls of shadowhook alone.
use old_pixel_gun_3d_online.Base.{ℕ}
use old_pixel_gun_3d_online.State.{Env, Hook}
use old_pixel_gun_3d_online.Hook.{ManagedMethod}
use old_pixel_gun_3d_online.Hook.Steps.{Hooks, Hooks-install, hooks_rules}
use old_pixel_gun_3d_online.Cloud.Install.{install_optional, install_guard, install_hooks}

module _ {W : Type 0} {E : Env W} where
  Hooks-install_optional :
      (target : ManagedMethod) (h : Hook) (n : ℕ) → Hooks E (install_optional E target h n)
  unfolding install_optional
  Hooks-install_optional target h n = search (hooks_rules, Hooks-install) depth 20

  pub Hooks-install_hooks : Hooks E (install_hooks E)
  unfolding install_hooks install_guard
  Hooks-install_hooks = search (hooks_rules, Hooks-install, Hooks-install_optional) depth 40
