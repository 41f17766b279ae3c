-- ===== src/Photon/Install/Hooking.antt =====
-- Both `install_hooks` act on the process by calls of shadowhook alone.
use old_pixel_gun_3d_online.Base.{ℕ, List, [], ◌∷◌}
use old_pixel_gun_3d_online.State.{Env, State, Hook}
use old_pixel_gun_3d_online.State.Monad.{Returns}
use old_pixel_gun_3d_online.Hook.{ManagedMethod}
use old_pixel_gun_3d_online.Hook.Steps.{HooksOnly, Hooks, Hooks-install, hooks_rules}
use old_pixel_gun_3d_online.Photon.Install.{optional, optional_each, install_hooks}

module _ {W : Type 0} {E : Env W} where
  Hooks-optional : (target : ManagedMethod) (h : Hook) (n : ℕ) → Hooks E (optional E target h n)
  unfolding optional
  Hooks-optional target h n = search (hooks_rules, Hooks-install) depth 20

  Hooks-optional_each :
      (targets : List (ManagedMethod × Hook)) (n : ℕ) → Hooks E (optional_each E targets n)
  unfolding optional_each
  Hooks-optional_each [] n = search hooks_rules
  Hooks-optional_each ((target, h) ∷ targets) n =
      search (hooks_rules, Hooks-optional, Hooks-optional_each targets) depth 20

  pub Hooks-install_hooks : Hooks E (install_hooks E)
  unfolding install_hooks
  Hooks-install_hooks = search (hooks_rules, Hooks-install, Hooks-optional_each) depth 40

module _ {W : Type 0} (E : Env W) where
  -- `install_hooks` of photon_hooks.cpp never faults. It leaves the process around the library as a
  -- sequence of calls of shadowhook leaves it, with no write of a field of the game among them, and
  -- changes neither the pointers to the exports nor what the hooks have remembered.
  pub install_tracing-HooksOnly :
      (s : State W) → Returns (install_hooks E s) (λ core t. HooksOnly E s t)
  install_tracing-HooksOnly s = Hooks-install_hooks.at s
