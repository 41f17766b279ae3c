-- ===== src/Init/Clean/Attached.antt =====
-- From the attachment of the thread on: what holds before the installs, and in the end.
use old_pixel_gun_3d_online.Base.{
  ℕ, ◌≡◌, ◌≢◌, sym, ◌∙◌, inl, inr, Bool, true, false, not, List, [], ◌∷◌, Ptr, null, is_null, arith,
  Bool-cases,
}
use old_pixel_gun_3d_online.State.{Env, State, Hook, thread_detach}
use old_pixel_gun_3d_online.State.Monad.{bound, Returns, Returns-bind, Returns-both}
use old_pixel_gun_3d_online.Hook.Laws.{Patches}
use old_pixel_gun_3d_online.Hook.Safe.{Safe}
use old_pixel_gun_3d_online.Photon.Install.Safe.{all_hooks, install_tracing-Safe}
use old_pixel_gun_3d_online.Photon.Install.Hooking as PhotonSteps
use old_pixel_gun_3d_online.Photon.Install as Photon
use old_pixel_gun_3d_online.Cloud.Install.Safe.{install_hooks-Safe}
use old_pixel_gun_3d_online.Cloud.Install.Hooking as CloudSteps
use old_pixel_gun_3d_online.Cloud.Install as Cloud
use old_pixel_gun_3d_online.Init.{wait_steps, wait_step_us}
use old_pixel_gun_3d_online.Init.Thread.{poll, report_installs, install_all, detach, run_attached}
use old_pixel_gun_3d_online.Init.Waits.{Threads, poll-Returns, Hooking-attached}

pub not_null : (p : Ptr) → not (is_null p) ≡ true → is_null p ≡ false
not_null p h = ground arith

module _ {W : Type 0} (E : Env W) (laws : Patches E.platform) (threads : Threads E.platform laws)
    (hook_at : Ptr → Hook) (hook_at_address : (h : Hook) → hook_at (E.address_of h) ≡ h) where
  open laws use {patched}
  open threads use {attached}

  abbrev pub SafeFor : List Hook → State W → Type 0
  SafeFor = Safe E laws hook_at hook_at_address

  -- The other world has the same patches.
  pub SafeFor-world :
      (hooks : List Hook) (s : State W) (w : W)
      → ((a : Ptr) → patched w a ≡ patched s.world a)
      → SafeFor hooks s
      → SafeFor hooks (record s { world = w })
  SafeFor-world hooks s w same safe a h leads = safe a h (sym (same a) ∙ leads)

  SafeFor-weaken : (hooks : List Hook) (s : State W) → SafeFor hooks s → SafeFor [] s
  SafeFor-weaken hooks s safe a h leads = ((safe a h leads).0, tt)

  -- Before the installs, with the threads `ts` attached.
  abbrev pub Idle : List Ptr → State W → Type 0
  Idle ts s = SafeFor all_hooks s × (attached s.world ≡ ts)

  -- At the end: hooked entries are safe, and no thread more is attached if threads can be detached.
  abbrev pub IsClean : List Ptr → State W → Type 0
  IsClean ts s = SafeFor [] s × (bound thread_detach s ≡ true → attached s.world ≡ ts)

  pub Idle-IsClean : (ts : List Ptr) (s : State W) → Idle ts s → IsClean ts s
  Idle-IsClean ts s (safe, same) = (SafeFor-weaken all_hooks s safe, λ b. same)

  pub Idle-sleep :
      (n : ℕ) (ts : List Ptr) (s : State W)
      → Idle ts s
      → Idle ts (record s { world = E.usleep n s.world })
  Idle-sleep n ts s (safe, same) = (
    SafeFor-world all_hooks s _ (threads.sleep_patched n s.world) safe,
    threads.sleep_attached n s.world ∙ same,
  )

  detach-IsClean :
      (thread : Ptr) (ts : List Ptr) (s : State W)
      → SafeFor [] s
      → attached s.world ≡ thread ∷ ts
      → Returns (detach E thread s) (λ _ t. IsClean ts t)
  unfolding detach
  detach-IsClean thread ts s safe there = elim (Bool-cases (bound thread_detach s)) [
    | inl b ↦ simp b (
      SafeFor-world [] s _ (threads.detach_patched thread s.world) safe,
      λ e. threads.detach_removes thread ts s.world there,
    )
    | inr b ↦ simp b (safe, λ e. ground (arith, e, b))
  ]

  -- The report writes lines to the log alone.
  report_installs-keeps :
      (Q : (Hook → Ptr) → W → Type 0) (photon guard : Bool) (s : State W)
      → Q s.originals s.world
      → Returns (report_installs E photon guard s) (λ _ t. Q t.originals t.world)
  unfolding report_installs
  report_installs-keeps Q true true s q = q
  report_installs-keeps Q true false s q = q
  report_installs-keeps Q false true s q = q
  report_installs-keeps Q false false s q = q

  abbrev Installed : W → (Hook → Ptr) → W → Type 0
  Installed w originals v =
      ((a : Ptr) (h : Hook) → patched v a ≡ E.address_of h → (originals h ≢ null) × Unit {0})
      × (attached v ≡ attached w)

  install_all-Safe :
      (s : State W)
      → SafeFor all_hooks s
      → Returns (install_all E s) (λ _ t. SafeFor [] t × (attached t.world ≡ attached s.world))
  unfolding install_all
  install_all-Safe s safe =
      Returns-bind _ _ (Photon.install_hooks E _) _
        (Returns-both _ _ (Photon.install_hooks E _)
          (install_tracing-Safe E laws hook_at hook_at_address _ safe)
          (PhotonSteps.Hooks-install_hooks.at _))
        λ photon t q.
          Returns-bind _ _ (Cloud.install_hooks E t) _
            (Returns-both _ _ (Cloud.install_hooks E t)
              (install_hooks-Safe E laws hook_at hook_at_address t q.0.0)
              (CloudSteps.Hooks-install_hooks.at t))
            λ guard u r. report_installs-keeps (Installed s.world) photon guard u (
              r.0,
              Hooking-attached E.platform laws threads _ _ r.1.world
                  ∙ Hooking-attached E.platform laws threads _ _ q.1.world,
            )

  pub run_attached-IsClean :
      (thread : Ptr) (ts : List Ptr) (s : State W)
      → Idle (thread ∷ ts) s
      → Returns (run_attached E thread s) (λ _ t. IsClean ts t)
  unfolding run_attached
  run_attached-IsClean thread ts s idle =
      Returns-bind _ _ (poll E _ _ wait_steps null s) _
        (poll-Returns E _ _ (λ _. Idle (thread ∷ ts)) (λ p t i missing. i)
          (λ p t. Idle-sleep wait_step_us (thread ∷ ts) t) wait_steps null s idle)
        λ image t i. elim (Bool-cases (is_null image)) [
          | inl never ↦ rw never (detach-IsClean thread ts _ (SafeFor-weaken all_hooks t i.0) i.1)
          | inr there ↦ rw there (
              Returns-bind _ _ (install_all E t) _ (install_all-Safe t i.0) λ x u k.
                Returns-bind _ _ (detach E thread u) _ (detach-IsClean thread ts u k.0 (k.1 ∙ i.1))
                  λ y v c. c)
        ]
