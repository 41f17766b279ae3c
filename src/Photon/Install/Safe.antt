-- ===== src/Photon/Install/Safe.antt =====
-- After `install_hooks` no patched entry leads to a hook whose original is missing.
use old_pixel_gun_3d_online.Base.{
  ◌≡◌, ◌≢◌, inl, inr, sym, ◌∙◌, Bool, true, false, some, List, [], ◌∷◌, ◌++◌, All, Ptr, null, arith,
  Bool-cases,
}
use old_pixel_gun_3d_online.State.{Env, State, Hook, select_app_id}
use old_pixel_gun_3d_online.State.Monad.{Returns, Returns-bind, Returns-mono}
use old_pixel_gun_3d_online.Hook.{ManagedMethod, install}
use old_pixel_gun_3d_online.Hook.Laws.{Patches}
use old_pixel_gun_3d_online.Hook.Install.{Outcome, Outcome-others, install-Outcome}
use old_pixel_gun_3d_online.Hook.Safe.{Safe, Safe-step}
use old_pixel_gun_3d_online.Cloud.{is_empty}
use old_pixel_gun_3d_online.Cloud.Install.Safe.{guard_hooks}
use old_pixel_gun_3d_online.Photon.Install.{optional_targets, optional_each, install_hooks}
use old_pixel_gun_3d_online.Photon.Install.Each.{hooks_of, optional_each-keeps}

-- No hook is twice in the list.
abbrev IsFresh : List Hook → Type 0
IsFresh [] = Unit
IsFresh (h ∷ hs) = All (λ k. h ≢ k) hs × IsFresh hs

-- The optional hooks, then those of the guard, which is installed later.
abbrev after_core : List Hook
after_core = hooks_of optional_targets ++ guard_hooks

abbrev pub all_hooks : List Hook
all_hooks = select_app_id ∷ after_core

all_hooks-IsFresh : IsFresh all_hooks
all_hooks-IsFresh = ground arith

module _ {W : Type 0} (E : Env W) (laws : Patches E.platform) (hook_at : Ptr → Hook)
    (hook_at_address : (h : Hook) → hook_at (E.address_of h) ≡ h) where
  abbrev SafeFor : List Hook → State W → Type 0
  SafeFor = Safe E laws hook_at hook_at_address

  -- In front of the installs of `to_come`, when the core hook's install has returned `core`.
  abbrev Between : Bool → List Hook → State W → Type 0
  Between core to_come s =
      IsFresh to_come
      × SafeFor to_come s
      × (core ≡ true → All (λ k. select_app_id ≢ k) to_come × (s.originals select_app_id ≢ null))

  Between-step :
      (core : Bool) (target : ManagedMethod) (h : Hook) (to_come : List Hook) (s : State W)
      → Between core (h ∷ to_come) s
      → Returns (install E target (E.address_of h) (some h) false s) (λ _ t. Between core to_come t)
  Between-step core target h to_come s ((fresh, rest), safe, there) =
      Returns-mono _ _ (install E target (E.address_of h) (some h) false s)
        (install-Outcome E laws target (E.address_of h) h false s)
        λ done t o. (
          rest,
          Safe-step E laws hook_at hook_at_address h to_come s done t fresh safe o,
          λ e.
              let ((other, others), given) = there e in
              (
                others,
                λ z. given (sym (Outcome-others E laws _ h s done t o select_app_id other) ∙ z),
              ),
        )

  started :
      (s : State W) (core : Bool) (t : State W)
      → SafeFor all_hooks s
      → Outcome E laws (E.address_of select_app_id) select_app_id s core t
      → Between core after_core t
  started s true t safe o = (
    all_hooks-IsFresh.1,
    Safe-step E laws hook_at hook_at_address select_app_id after_core s true t all_hooks-IsFresh.0
        safe o,
    λ e. (all_hooks-IsFresh.0, o.trampoline),
  )
  started s false t safe o = (
    all_hooks-IsFresh.1,
    Safe-step E laws hook_at hook_at_address select_app_id after_core s false t all_hooks-IsFresh.0
        safe o,
    λ e. ground arith,
  )

  -- Under the laws of shadowhook and with the hook functions at different addresses: if no entry
  -- leads to one of the library's hooks yet, `install_hooks` of photon_hooks.cpp returns. Afterwards
  -- each entry that leads to a hook leads to one whose original can be called, and to none of those
  -- that cloud_guard.h installs later; and where the result is true, the original of
  -- `SelectPhotonAppId` can be called.
  pub install_tracing-Safe :
      (s : State W)
      → SafeFor all_hooks s
      → Returns
          (install_hooks E s)
          (λ core s'. SafeFor guard_hooks s' × (core ≡ true → s'.originals select_app_id ≢ null))
  unfolding install_hooks
  install_tracing-Safe s safe =
      Returns-bind _ _ (install E _ (E.address_of select_app_id) (some select_app_id) true _) _
        (install-Outcome E laws _ _ select_app_id true _)
        λ core t o.
          Returns-bind _ _ (optional_each E optional_targets _ t) _
            (optional_each-keeps E (Between core) (Between-step core) optional_targets guard_hooks _
              t (started _ core t safe o))
            λ n t (fresh, safe, there). elim (Bool-cases (is_empty E.app_id)) [
              | inl e ↦ rw e (safe, λ h. (there h).1)
              | inr e ↦ rw e (safe, λ h. (there h).1)
            ]
