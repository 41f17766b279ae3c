-- ===== src/Init/Clean.antt =====
-- `init_thread` runs to its end, and what holds then.
pub mod Attached
pub use Attached.{IsClean}
use old_pixel_gun_3d_online.Base.{
  ℕ, ◌≡◌, ◌≢◌, refl, sym, subst, ap, ◌∙◌, inl, inr, Bool, true, false, not, ltb, none, List, [],
  ◌∷◌, Ptr, null, is_null, arith, Bool-cases,
}
use old_pixel_gun_3d_online.State.{Env, State, Hook, domain_get, thread_attach, thread_detach}
use old_pixel_gun_3d_online.State.Monad.{
  ◌>>◌, reads, bound, through, Returns, Returns-bind, Returns-mono, Returns-both,
}
use old_pixel_gun_3d_online.ElfSym.{Image}
use old_pixel_gun_3d_online.Hook.Laws.{Patches}
use old_pixel_gun_3d_online.Hook.Safe.{Safe}
use old_pixel_gun_3d_online.Il2cpp.Resolve.{resolve}
use old_pixel_gun_3d_online.Il2cpp.Resolve.Total.{SymbolsReturn, resolve-Returns}
use old_pixel_gun_3d_online.Photon.Install.Safe.{all_hooks, install_tracing-Safe}
use old_pixel_gun_3d_online.Photon.Install.Hooking as PhotonSteps
use old_pixel_gun_3d_online.Photon.Install as Photon
use old_pixel_gun_3d_online.Cloud.Install.Safe.{install_hooks-Safe}
use old_pixel_gun_3d_online.Cloud.Install.Hooking as CloudSteps
use old_pixel_gun_3d_online.Cloud.Install as Cloud
use old_pixel_gun_3d_online.Init.{settle, wait_steps, wait_step_us, stable_checks}
use old_pixel_gun_3d_online.Init.Thread.{
  poll, is_found, settle_us, report_installs, install_all, detach, run_attached, wait_settled,
  run_domain, init_thread,
}
use old_pixel_gun_3d_online.Init.Waits.{
  Threads, poll-Returns, Hooking-attached, settle_patched, settle_attached,
}
use old_pixel_gun_3d_online.Init.Clean.Attached.{
  not_null, SafeFor, SafeFor-world, Idle, Idle-IsClean, Idle-sleep, run_attached-IsClean,
}

module _ {W : Type 0} (E : Env W) (laws : Patches E.platform) (threads : Threads E.platform laws)
    (hook_at : Ptr → Hook) (hook_at_address : (h : Hook) → hook_at (E.address_of h) ≡ h) where
  open laws use {patched}
  open threads use {attached}

  run_domain-IsClean :
      (domain : Ptr) (ts : List Ptr) (s : State W)
      → Idle E laws threads hook_at hook_at_address ts s
      → bound thread_attach s ≡ true
      → Returns (run_domain E domain s) (λ _ t. IsClean E laws threads hook_at hook_at_address ts t)
  unfolding run_domain wait_settled
  run_domain-IsClean domain ts s idle attach =
      elim (Bool-cases
        (ltb (settle E.platform s.slots domain wait_steps 0 0 s.world).1 stable_checks)) [
          | inl never ↦
              rw never (Idle-IsClean E laws threads hook_at hook_at_address ts after settled)
          | inr steady ↦
              rw (steady, not_null _ attach)
                (elim (Bool-cases (is_null (E.il2cpp_thread_attach domain rested).0)) [
                  | inl failed ↦ rw failed (
                      Idle-IsClean E laws threads hook_at hook_at_address ts
                        (record s { world = (E.il2cpp_thread_attach domain rested).1 })
                        (
                          attached_patched,
                          threads.attach_fails domain rested failed
                              ∙ (Idle-sleep E laws threads hook_at hook_at_address settle_us ts
                                  after settled).1,
                        ))
                  | inr given ↦ rw given (
                      run_attached-IsClean E laws threads hook_at hook_at_address _ ts _
                        (attached_idle given))
                ])
        ]
    where
      after : State W
      after = record s { world = (settle E.platform s.slots domain wait_steps 0 0 s.world).2 }

      settled : Idle E laws threads hook_at hook_at_address ts after
      settled = (
        SafeFor-world E laws threads hook_at hook_at_address all_hooks s _
            (settle_patched E.platform laws threads s.slots domain wait_steps 0 0 s.world) idle.0,
        settle_attached E.platform laws threads s.slots domain wait_steps 0 0 s.world ∙ idle.1,
      )

      rested : W
      rested = E.usleep settle_us after.world

      attached_patched :
          SafeFor E laws threads hook_at hook_at_address all_hooks
            (record s { world = (E.il2cpp_thread_attach domain rested).1 })
      attached_patched =
          SafeFor-world E laws threads hook_at hook_at_address all_hooks
            (record s { world = rested }) _ (threads.attach_patched domain rested)
            (Idle-sleep E laws threads hook_at hook_at_address settle_us ts after settled).0

      attached_idle :
          is_null (E.il2cpp_thread_attach domain rested).0 ≡ false
          → Idle E laws threads hook_at hook_at_address
              ((E.il2cpp_thread_attach domain rested).0 ∷ ts)
              (record s { world = (E.il2cpp_thread_attach domain rested).1 })
      attached_idle given = (
        attached_patched,
        threads.attach_adds domain rested given
            ∙ ap (λ (l : List Ptr). (E.il2cpp_thread_attach domain rested).0 ∷ l)
                (Idle-sleep E laws threads hook_at hook_at_address settle_us ts after settled).1,
      )

  -- The exports that are called without a test are there.
  abbrev HasExports : State W → Type 0
  HasExports s = (bound domain_get s ≡ true) × (bound thread_attach s ≡ true)

  module _ (image : W → Image) (fuel : ℕ) (symbols : SymbolsReturn image fuel) where
    resolve-Idle :
        (ts : List Ptr) (s : State W)
        → Idle E laws threads hook_at hook_at_address ts s
        → Returns
            (resolve image fuel s)
            (λ ok t. Idle E laws threads hook_at hook_at_address ts t × (ok ≡ true → HasExports t))
    resolve-Idle ts s idle =
        Returns-mono _ _ (resolve image fuel s) (resolve-Returns image fuel symbols s)
          λ ok t (sound, kept). (
            subst (Idle E laws threads hook_at hook_at_address ts) (sym kept.rest) idle,
            λ e.
                let (
                  a,
                  (
                    b,
                    (
                      c,
                      (
                        domain,
                        (f, (g, (h, (i, (j, (k, (l, (m, (n, (o, (p, (attach, rest)))))))))))),
                      ),
                    ),
                  ),
                ) =
                  sound e in
                (domain, attach),
          )

    domain-Idle :
        (ts : List Ptr) (s : State W)
        → Idle E laws threads hook_at hook_at_address ts s × HasExports s
        → Returns
            ((through domain_get >> reads E.il2cpp_domain_get) s)
            (λ _ t. Idle E laws threads hook_at hook_at_address ts t × HasExports t)
    domain-Idle ts s (idle, there) = rw (not_null _ there.0) (idle, there)

    -- Under the laws of shadowhook and of the runtime's threads, if each lookup of a symbol of
    -- libil2cpp.so returns, and no entry leads to one of the library's hooks yet: `init_thread` runs to
    -- its end without a fault, on whatever path. Then each entry that leads to a hook leads to one
    -- whose original can be called, and if threads can be detached, the threads that are attached to
    -- the runtime are those that were attached before.
    pub init_thread-IsClean :
        (s : State W)
        → SafeFor E laws threads hook_at hook_at_address all_hooks s
        → Returns
            (init_thread E image fuel s)
            (λ _ t. IsClean E laws threads hook_at hook_at_address (attached s.world) t)
    unfolding init_thread
    init_thread-IsClean s safe =
        Returns-bind _ _ (poll E _ _ wait_steps none _) _
          (poll-Returns E _ _ (λ _. Idle E laws threads hook_at hook_at_address ts)
            (λ a t i missing. i)
            (λ a t. Idle-sleep E laws threads hook_at hook_at_address wait_step_us ts t) wait_steps
            none _ (safe, refl))
          λ base t idle. elim (Bool-cases (is_found base)) [
            | inr missing ↦
                rw missing (Idle-IsClean E laws threads hook_at hook_at_address ts t idle)
            | inl found ↦ rw found (
                Returns-bind _ _ (poll E _ _ wait_steps false _) _
                  (poll-Returns E _ _
                    (λ ok t.
                      Idle E laws threads hook_at hook_at_address ts t × (ok ≡ true → HasExports t))
                    (λ a t i missing. resolve-Idle ts t i.0)
                    (λ a t i. (
                      Idle-sleep E laws threads hook_at hook_at_address wait_step_us ts t i.0,
                      i.1,
                    ))
                    wait_steps false _ (idle, λ e. ground arith))
                  λ resolved u up. elim (Bool-cases resolved) [
                    | inr missing ↦
                        rw missing (Idle-IsClean E laws threads hook_at hook_at_address ts u up.0)
                    | inl done ↦ rw done (
                        Returns-bind _ _ (poll E _ _ wait_steps null _) _
                          (poll-Returns E _ _
                            (λ _ t. Idle E laws threads hook_at hook_at_address ts t × HasExports t)
                            (λ a t i missing. domain-Idle ts t i)
                            (λ a t i. (
                              Idle-sleep E laws threads hook_at hook_at_address wait_step_us ts t
                                  i.0,
                              i.1,
                            ))
                            wait_steps null _ (up.0, up.1 done))
                          λ domain v i. elim (Bool-cases (is_null domain)) [
                            | inl missing ↦
                                rw missing
                                  (Idle-IsClean E laws threads hook_at hook_at_address ts v i.0)
                            | inr there ↦ rw there (run_domain-IsClean domain ts v i.0 i.1.1)
                          ])
                  ])
          ]
      where
        ts : List Ptr
        ts = attached s.world
