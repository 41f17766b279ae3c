-- ===== src/Init/Thread.antt =====
-- `init_thread` of main.cpp: the waits, the attachment to the runtime, the installs. An early
-- `return nullptr` ends the branch that it stands in.
use Prim.Native.String.{String}
use old_pixel_gun_3d_online.Base.{
  ℕ, zero, suc, Bool, true, false, not, ◌&&◌, ltb, Option, none, some, [], ◌∷◌, codes, Ptr, null,
  is_null,
}
use old_pixel_gun_3d_online.State.{Env, str, nat, domain_get, thread_attach, thread_detach}
use old_pixel_gun_3d_online.State.Monad.{
  M, ◌>>=◌, ◌>>◌, pure, gets, reads, acts, changes, branch, bound, through, logi, loge,
}
use old_pixel_gun_3d_online.ElfSym.{Image, find_library}
use old_pixel_gun_3d_online.Il2cpp.Resolve.{resolve}
use old_pixel_gun_3d_online.Il2cpp.Metadata.{find_image}
use old_pixel_gun_3d_online.Init.{settle, wait_steps, wait_step_us, stable_checks}
use old_pixel_gun_3d_online.Photon.Install as Photon
use old_pixel_gun_3d_online.Cloud.Install as Cloud

-- `kIl2Cpp`
abbrev pub il2cpp_name : String
il2cpp_name = "libil2cpp.so"

abbrev pub settle_us : ℕ
settle_us = 750000

abbrev pub is_found : Option Ptr → Bool
is_found none = false
is_found (some base) = true

module _ {W A : Type 0} (E : Env W) (found : A → Bool) (probe : M W A) where
  -- `for (int i = 0; i < kWaitSteps && !found; ++i) { ...; if (!found) usleep(kWaitStepUs); }`
  unfoldable pub poll : ℕ → A → M W A
  poll zero a = pure a
  poll (suc left) a =
      branch (found a) (pure a)
        (do a ← probe; branch (found a) (pure tt) (changes (E.usleep wait_step_us)); poll left a)

module _ {W : Type 0} (E : Env W) where
  unfoldable pub report_installs : Bool → Bool → M W (Unit {0})
  report_installs photon_installed guard_installed =
      branch (photon_installed && guard_installed)
        (logi
          "init: phase 0 ready — AppID override, Photon Cloud routing, dead-backend guard and connection tracing active"
          [])
        (do
          branch (not photon_installed)
              (loge
                "init: core SelectPhotonAppId hook failed; fail-closed, no unsafe RVA patching attempted"
                [])
              (pure tt)
          branch (not guard_installed)
              (loge
                "init: Photon Cloud/dead-backend guard incomplete; do not treat this build as a successful online fix"
                [])
              (pure tt))

  unfoldable pub install_all : M W (Unit {0})
  install_all = do
    logi "init: [6/6] Assembly-CSharp.dll ready; installing hooks" []
    photon_installed ← Photon.install_hooks E
    guard_installed ← Cloud.install_hooks E
    report_installs photon_installed guard_installed

  unfoldable pub detach : Ptr → M W (Unit {0})
  detach attached_thread = do
    there ← gets (bound thread_detach)
    branch there (changes (E.il2cpp_thread_detach attached_thread)) (pure tt)

  unfoldable pub run_attached : Ptr → M W (Unit {0})
  run_attached attached_thread = do
    image ←
        poll E (λ p. not (is_null p)) (gets (find_image E (codes "Assembly-CSharp.dll"))) wait_steps
          null
    branch (is_null image)
        (do
          loge "init: Assembly-CSharp.dll never appeared; nothing to hook" []
          detach attached_thread)
        (do install_all; detach attached_thread; logi "init: phase 0 thread finished cleanly" [])

  -- The wait of Init for the assembly list.
  unfoldable pub wait_settled : Ptr → M W (ℕ × ℕ)
  wait_settled domain s =
      let (last, stable, w) = settle E.platform s.slots domain wait_steps 0 0 s.world in
      some ((last, stable), record s { world = w })

  unfoldable pub run_domain : Ptr → M W (Unit {0})
  run_domain domain = do
    logi "init: [3/6] domain=%p" (nat domain ∷ [])
    (last, stable) ← wait_settled domain
    branch (ltb stable stable_checks)
        (loge "init: assembly list never settled (last count=%zu)" (nat last ∷ []))
        (do
          logi "init: [4/6] assembly list settled at %zu assemblies" (nat last ∷ [])
          changes (E.usleep settle_us)
          through thread_attach
          attached_thread ← acts (E.il2cpp_thread_attach domain)
          branch (is_null attached_thread) (loge "init: il2cpp_thread_attach failed" [])
              (do logi "init: [5/6] thread attached to runtime" []; run_attached attached_thread))

-- `image` is what the loader shows in a state of the process, `fuel` the bound of ElfSym.lookup.
module _ {W : Type 0} (E : Env W) (image : W → Image) (fuel : ℕ) where
  unfoldable pub init_thread : M W (Unit {0})
  init_thread = do
    logi "init: [0/6] phase 0 thread started" []
    base ←
        poll E is_found (gets (λ s. find_library (image s.world) (codes il2cpp_name))) wait_steps
          none
    branch (not (is_found base))
        (loge "init: %s not found in process after 60 seconds" (str il2cpp_name ∷ []))
        (do
          logi "init: [1/6] %s found, base=0x%"
              (str il2cpp_name ∷ nat (elim base [ none ↦ 0 | some p ↦ p ]) ∷ [])
          resolved ← poll E (λ b. b) (resolve image fuel) wait_steps false
          branch (not resolved) (loge "init: required il2cpp_* exports were not resolved" []) (do
            logi "init: [2/6] IL2CPP API resolved" []
            domain ←
                poll E (λ p. not (is_null p)) (do through domain_get; reads E.il2cpp_domain_get)
                  wait_steps null
            branch (is_null domain) (loge "init: il2cpp_domain_get() stayed null" [])
                (run_domain E domain)))
