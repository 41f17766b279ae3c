-- ===== src/Init/Exports.antt =====
-- Where an entry leads to a hook when `init_thread` has ended, the exports are there that the hooks
-- call without a test.
mod Slots
use Prim.Native.String.{String}
use old_pixel_gun_3d_online.Base.{
  ℕ, zero, suc, ◌≡◌, ◌⊎◌, refl, sym, ap, subst, ◌∙◌, inl, inr, Bool, true, false, not, Option, none,
  some, List, Ptr, null, is_null, arith, Bool-cases, [],
}
use old_pixel_gun_3d_online.State.{
  Env, State, Export, Hook, Arg, domain_get, string_new, field_static_get_value,
  field_static_set_value,
}
use old_pixel_gun_3d_online.State.Monad.{
  M, ◌>>=◌, ◌>>◌, pure, gets, reads, acts, changes, branch, bound, through, logi, loge, Returns,
  Ensures, Returns-mono, Ensures-bind, Ensures-mono,
}
use old_pixel_gun_3d_online.ElfSym.{Image}
use old_pixel_gun_3d_online.Hook.Laws.{Patches}
use old_pixel_gun_3d_online.Il2cpp.Resolve.{resolve, resolve_outcome}
use old_pixel_gun_3d_online.Photon.Install.Hooking as PhotonSteps
use old_pixel_gun_3d_online.Photon.Install as Photon
use old_pixel_gun_3d_online.Cloud.Install.Hooking as CloudSteps
use old_pixel_gun_3d_online.Cloud.Install as Cloud
use old_pixel_gun_3d_online.Init.{settle, wait_steps, wait_step_us, stable_checks}
use old_pixel_gun_3d_online.Init.Thread.{
  poll, is_found, report_installs, install_all, detach, run_attached, wait_settled, run_domain,
  init_thread,
}
use old_pixel_gun_3d_online.Init.Waits.{Threads}
use old_pixel_gun_3d_online.Init.Clean.Attached.{not_null}
use old_pixel_gun_3d_online.Init.Exports.Slots.{SameSlots, SameSlots-from_domain}

module _ {W A : Type 0} (E : Env W) (found : A → Bool) (probe : M W A) (Q : A → State W → Type 0)
    (probed : (a : A) (s : State W) → Q a s → found a ≡ false → Ensures (probe s) Q)
    (slept : (a : A) (s : State W)
      → Q a s
      → Q a (record s { world = E.usleep wait_step_us s.world })) where
  -- What each probe establishes and each sleep keeps holds when the polling ends.
  poll-Ensures : (left : ℕ) (a : A) (s : State W) → Q a s → Ensures (poll E found probe left a s) Q
  unfolding poll
  poll-Ensures zero a s q = q
  poll-Ensures (suc left) a s q = elim (Bool-cases (found a)) [
    | inl there ↦ rw there q
    | inr missing ↦ rw missing (
        Ensures-bind _ _ (probe s) _ (probed a s q missing) λ b t r. elim (Bool-cases (found b)) [
          | inl now ↦ rw now (poll-Ensures left b t r)
          | inr still ↦ rw still (poll-Ensures left b _ (slept b t r))
        ])
  ]

-- The exports that the hooks call without a test.
pub record Called {W : Type 0} (s : State W) : Type 0 where
  pub new_there : is_null (s.slots string_new) ≡ false
  pub static_get_there : is_null (s.slots field_static_get_value) ≡ false
  pub static_set_there : is_null (s.slots field_static_set_value) ≡ false

module _ {W : Type 0} (E : Env W) (laws : Patches E.platform)
    (threads : Threads E.platform laws) where
  open laws use {patched}

  -- No entry leads to a hook.
  abbrev pub Quiet : State W → Type 0
  Quiet s = (a : Ptr) (h : Hook) → ¬ (patched s.world a ≡ E.address_of h)

  Called-same : (s t : State W) → t.slots ≡ s.slots → Called s → Called t
  Called-same s t e there = record {
    new_there = rw e there.new_there;
    static_get_there = rw e there.static_get_there;
    static_set_there = rw e there.static_set_there;
  }

  -- Code that leaves the slots alone leaves the exports there.
  Called-kept :
      {A : Type 0} (m : M W A) (s : State W)
      → SameSlots m
      → Called s
      → Ensures (m s) (λ _ t. Quiet t ⊎ Called t)
  Called-kept m s same there =
      Ensures-mono _ _ (m s) (same.at s) λ a t e. inr (Called-same s t e there)

  Quiet-sleep : (s : State W) → Quiet s → Quiet (record s { world = E.usleep wait_step_us s.world })
  Quiet-sleep s quiet a h leads =
      quiet a h (sym (threads.sleep_patched wait_step_us s.world a) ∙ leads)

  module _ (image : W → Image) (fuel : ℕ) where
    resolve-Called :
        (s : State W)
        → Quiet s
        → Ensures (resolve image fuel s) (λ ok t. Quiet t × (ok ≡ true → Called t))
    resolve-Called s quiet =
        Ensures-mono _ _ (resolve image fuel s) (resolve_outcome image fuel s)
          λ ok t (sound, complete, kept). (
            subst Quiet (sym kept.rest) quiet,
            λ e.
                let (
                  new,
                  (b, (c, (d, (f, (g, (h, (i, (j, (k, (l, (m, (n, (get, (set, rest)))))))))))))),
                ) =
                  sound e in
                record {
                  new_there = not_null _ new;
                  static_get_there = not_null _ get;
                  static_set_there = not_null _ set;
                },
          )

    pub init_thread-Called :
        (s : State W) → Quiet s → Ensures (init_thread E image fuel s) (λ _ t. Quiet t ⊎ Called t)
    unfolding init_thread
    init_thread-Called s quiet =
        Ensures-bind _ _ (poll E _ _ wait_steps none _) _
          (poll-Ensures E _ _ (λ _. Quiet) (λ a t q missing. q) (λ a. Quiet-sleep) wait_steps none _
            quiet)
          λ base t still. elim (Bool-cases (is_found base)) [
            | inr missing ↦ rw missing (inl still)
            | inl there ↦ rw there (
                Ensures-bind _ _ (poll E _ _ wait_steps false _) _
                  (poll-Ensures E _ _ (λ ok t. Quiet t × (ok ≡ true → Called t))
                    (λ a t i missing. resolve-Called t i.0)
                    (λ a t i. (
                      Quiet-sleep t i.0,
                      λ e.
                          Called-same t (record t { world = E.usleep wait_step_us t.world }) refl
                            (i.1 e),
                    ))
                    wait_steps false _ (still, λ e. ground arith))
                  λ resolved u up. elim (Bool-cases resolved) [
                    | inr missing ↦ rw missing (inl up.0)
                    | inl done ↦ rw done (
                        Called-kept _ _ (SameSlots-from_domain E)
                          (Called-same u _ refl (up.1 done)))
                  ])
          ]
