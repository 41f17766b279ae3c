-- ===== src/Checks/Init.antt =====
-- The start of the library in the toy runtime.
use old_pixel_gun_3d_online.Base.{[], ◌≡◌, ◌≤◌, refl, true, All, arith}
use old_pixel_gun_3d_online.State.Monad.{Ensures, Returns}
use old_pixel_gun_3d_online.Il2cpp.Resolve.{
  resolve, resolve_outcome, required, Bound, Available, Kept,
}
use old_pixel_gun_3d_online.Hook.Safe.{Safe}
use old_pixel_gun_3d_online.Cloud.Install.{install_hooks}
use old_pixel_gun_3d_online.Cloud.Install.Safe.{install_hooks-Safe}
use old_pixel_gun_3d_online.Cloud.Install.Counts.{Ready, install_hooks-Ready}
use old_pixel_gun_3d_online.Init.{settle, assembly_count, stable_checks, wait_steps}
use old_pixel_gun_3d_online.Init.Settle.{IsSettled, settle-IsSettled, settle_succeeds}
use old_pixel_gun_3d_online.Checks.Toy.{
  toy, World, platform, start, patches_of_toy, hook_at, hook_at_address,
}
use old_pixel_gun_3d_online.Checks.ElfSym.{image}

resolve_outcome_example : Ensures (resolve {W = World} (λ w. image) 9 start) (λ ok s'.
    (ok ≡ true → All (Bound (λ w. image) 9 s') required)
    × (All (Available (λ w. image) 9 start) required → ok ≡ true)
    × Kept (λ w. image) 9 start s')
resolve_outcome_example = resolve_outcome (λ w. image) 9 start

settle_succeeds_example :
    stable_checks ≤ (settle platform start.slots 1 wait_steps 0 0 start.world).1
unfolding assembly_count
settle_succeeds_example =
    settle_succeeds platform start.slots 1 start.world 3 7 (omega arith) (omega arith) λ j l. refl

settle-IsSettled_example :
    IsSettled platform start.slots 1 start.world
      (settle platform start.slots 1 wait_steps 0 0 start.world).0
unfolding assembly_count
settle-IsSettled_example =
    settle-IsSettled platform start.slots 1 start.world (
      settle_succeeds platform start.slots 1 start.world 3 0 (omega arith) (omega arith)
        λ j l. refl)

install_hooks-Safe_example :
    Returns
      (install_hooks toy start)
      (λ _ s'. Safe toy patches_of_toy hook_at hook_at_address [] s')
install_hooks-Safe_example =
    install_hooks-Safe toy patches_of_toy hook_at hook_at_address start
      λ a h leads. absurd (omega (arith, leads))

install_hooks-Ready_example : Returns (install_hooks toy start) (Ready toy patches_of_toy)
install_hooks-Ready_example = install_hooks-Ready toy patches_of_toy start refl
