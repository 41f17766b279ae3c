-- ===== src/Checks/Start.antt =====
-- The whole start in the toy runtime, with a library image in which each lookup returns.
use old_pixel_gun_3d_online.Base.{
  [], Bytes, null, ◌≡◌, ◌≢◌, refl, sym, ◌∙◌, true, none, some, codes, arith,
}
use old_pixel_gun_3d_online.State.{select_app_id}
use old_pixel_gun_3d_online.State.Monad.{Returns}
use old_pixel_gun_3d_online.ElfSym.{find_symbol, lookup, find, name_matches, iterate}
use old_pixel_gun_3d_online.ElfSym.Libraries.{lookup_returns}
use old_pixel_gun_3d_online.Hook.Safe.{Safe}
use old_pixel_gun_3d_online.Hook.Steps.{HooksOnly}
use old_pixel_gun_3d_online.Il2cpp.Resolve.{so}
use old_pixel_gun_3d_online.Il2cpp.Resolve.Total.{SymbolsReturn}
use old_pixel_gun_3d_online.Cloud.Install.Safe.{guard_hooks}
use old_pixel_gun_3d_online.Photon.Install.{install_hooks}
use old_pixel_gun_3d_online.Photon.Install.Safe.{all_hooks, install_tracing-Safe}
use old_pixel_gun_3d_online.Photon.Install.Hooking.{install_tracing-HooksOnly}
use old_pixel_gun_3d_online.Init.Thread.{init_thread}
use old_pixel_gun_3d_online.Init.Clean.{IsClean, init_thread-IsClean}
use old_pixel_gun_3d_online.Checks.Toy.{
  World, toy, start, patches_of_toy, threads_of_toy, hook_at, hook_at_address,
}
use old_pixel_gun_3d_online.Checks.ElfSym.{image, lib}

finds_lib : (symbol : Bytes) → find_symbol image 9 (codes so) symbol ≡ lookup image 9 lib symbol
unfolding find_symbol find name_matches iterate
finds_lib symbol = refl

pub symbols : SymbolsReturn {W = World} (λ w. image) 9
symbols w name fault =
    let (p, e) = lookup_returns image lib (codes name) 3 9 refl (omega arith) in
    let ends : none ≡ some p = sym fault ∙ finds_lib (codes name) ∙ e in ground arith

unpatched-Safe : Safe toy patches_of_toy hook_at hook_at_address all_hooks start
unpatched-Safe a h leads = absurd (omega (arith, leads))

init_thread-IsClean_example :
    Returns
      (init_thread toy (λ w. image) 9 start)
      (λ _ t. IsClean toy patches_of_toy threads_of_toy hook_at hook_at_address [] t)
init_thread-IsClean_example =
    init_thread-IsClean toy patches_of_toy threads_of_toy hook_at hook_at_address (λ w. image) 9
      symbols start unpatched-Safe

install_tracing-Safe_example : Returns (install_hooks toy start) (λ core s'.
    Safe toy patches_of_toy hook_at hook_at_address guard_hooks s'
    × (core ≡ true → s'.originals select_app_id ≢ null))
install_tracing-Safe_example =
    install_tracing-Safe toy patches_of_toy hook_at hook_at_address start unpatched-Safe

install_tracing-HooksOnly_example :
    Returns (install_hooks toy start) (λ core t. HooksOnly toy start t)
install_tracing-HooksOnly_example = install_tracing-HooksOnly toy start
