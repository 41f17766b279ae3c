-- ===== src/Init/Waits.antt =====
-- What the thread of main.cpp relies on, and what its waits keep.
use old_pixel_gun_3d_online.Base.{
  ℕ, zero, suc, ◌≡◌, refl, ◌∙◌, inl, inr, Bool, true, false, ltb, List, ◌∷◌, Ptr, is_null,
  Bool-cases,
}
use old_pixel_gun_3d_online.State.{Env, Platform, State, Export}
use old_pixel_gun_3d_online.State.Monad.{M, Returns, Returns-bind}
use old_pixel_gun_3d_online.Hook.Laws.{Patches}
use old_pixel_gun_3d_online.Hook.Steps.{Hooking, done, init, hook, unhook}
use old_pixel_gun_3d_online.Init.{settle, wait_step_us, stable_checks}
use old_pixel_gun_3d_online.Init.Thread.{poll}

-- What the thread relies on: sleeping, attaching and detaching patch no code, and the runtime keeps
-- the list of attached threads.
pub record Threads {W : Type 0} (P : Platform W) (laws : Patches P) : Type 0 where
  pub attached : W → List Ptr
  pub sleep_patched : (n : ℕ) (w : W) (a : Ptr) → laws.patched (P.usleep n w) a ≡ laws.patched w a
  pub sleep_attached : (n : ℕ) (w : W) → attached (P.usleep n w) ≡ attached w
  pub init_attached : (w : W) → attached (P.shadowhook_init w).1 ≡ attached w
  pub hook_attached :
      (address replace : Ptr) (w : W)
      → attached (P.shadowhook_hook_func_addr address replace w).after ≡ attached w
  pub unhook_attached : (stub : Ptr) (w : W) → attached (P.shadowhook_unhook stub w) ≡ attached w
  pub attach_patched :
      (domain : Ptr) (w : W) (a : Ptr)
      → laws.patched (P.il2cpp_thread_attach domain w).1 a ≡ laws.patched w a
  -- A null thread has not been attached.
  pub attach_fails :
      (domain : Ptr) (w : W)
      → is_null (P.il2cpp_thread_attach domain w).0 ≡ true
      → attached (P.il2cpp_thread_attach domain w).1 ≡ attached w
  pub attach_adds :
      (domain : Ptr) (w : W)
      → is_null (P.il2cpp_thread_attach domain w).0 ≡ false
      → attached (P.il2cpp_thread_attach domain w).1
        ≡ (P.il2cpp_thread_attach domain w).0 ∷ attached w
  pub detach_patched :
      (thread : Ptr) (w : W) (a : Ptr)
      → laws.patched (P.il2cpp_thread_detach thread w) a ≡ laws.patched w a
  pub detach_removes :
      (thread : Ptr) (rest : List Ptr) (w : W)
      → attached w ≡ thread ∷ rest
      → attached (P.il2cpp_thread_detach thread w) ≡ rest

module _ {W A : Type 0} (E : Env W) (found : A → Bool) (probe : M W A) (P : A → State W → Type 0)
    (probed : (a : A) (s : State W) → P a s → found a ≡ false → Returns (probe s) P)
    (slept : (a : A) (s : State W)
      → P a s
      → P a (record s { world = E.usleep wait_step_us s.world })) where
  -- What each probe establishes and each sleep keeps holds when the polling ends.
  pub poll-Returns :
      (left : ℕ) (a : A) (s : State W) → P a s → Returns (poll E found probe left a s) P
  unfolding poll
  poll-Returns zero a s p = p
  poll-Returns (suc left) a s p = elim (Bool-cases (found a)) [
    | inl there ↦ rw there p
    | inr missing ↦ rw missing (
        Returns-bind _ _ (probe s) _ (probed a s p missing) λ b t q. elim (Bool-cases (found b)) [
          | inl now ↦ rw now (poll-Returns left b t q)
          | inr still ↦ rw still (poll-Returns left b _ (slept b t q))
        ])
  ]

module _ {W : Type 0} (P : Platform W) (laws : Patches P) (threads : Threads P laws) where
  open threads use {attached}

  pub Hooking-attached : (w v : W) → Hooking P w v → attached v ≡ attached w
  Hooking-attached w v (done _) = refl
  Hooking-attached w v (init _ _ a) = Hooking-attached _ v a ∙ threads.init_attached w
  Hooking-attached w v (hook address replace _ _ a) =
      Hooking-attached _ v a ∙ threads.hook_attached address replace w
  Hooking-attached w v (unhook stub _ _ a) = Hooking-attached _ v a ∙ threads.unhook_attached stub w

  -- The world that the wait for the assembly list ends in.
  module _ (slots : Export → Ptr) (domain : Ptr) where
    pub settle_patched :
        (left last stable : ℕ) (w : W) (a : Ptr)
        → laws.patched (settle P slots domain left last stable w).2 a ≡ laws.patched w a
    unfolding settle
    settle_patched zero last stable w a = refl
    settle_patched (suc left) last stable w a = elim (Bool-cases (ltb stable stable_checks)) [
      | inl go ↦ rw go (settle_patched left _ _ _ a ∙ threads.sleep_patched wait_step_us w a)
      | inr full ↦ rw full refl
    ]

    pub settle_attached :
        (left last stable : ℕ) (w : W)
        → attached (settle P slots domain left last stable w).2 ≡ attached w
    unfolding settle
    settle_attached zero last stable w = refl
    settle_attached (suc left) last stable w = elim (Bool-cases (ltb stable stable_checks)) [
      | inl go ↦ rw go (settle_attached left _ _ _ ∙ threads.sleep_attached wait_step_us w)
      | inr full ↦ rw full refl
    ]
