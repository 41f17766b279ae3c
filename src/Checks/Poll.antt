-- ===== src/Checks/Poll.antt =====
-- The first wait of the start, in the toy runtime and with the image of a loaded library.
use old_pixel_gun_3d_online.Base.{◌*◌, ◌≡◌, refl, none, codes}
use old_pixel_gun_3d_online.Init.{wait_steps, wait_step_us}
use old_pixel_gun_3d_online.Init.Thread.{is_found, il2cpp_name}
use old_pixel_gun_3d_online.Init.Poll.{Outcome, poll-Outcome}
use old_pixel_gun_3d_online.ElfSym.{find_library}
use old_pixel_gun_3d_online.Checks.Toy.{toy, start}
use old_pixel_gun_3d_online.Checks.ElfSym.{image}

poll-Outcome_example :
    (wait_steps * wait_step_us ≡ 60 * 1000000)
    × Outcome toy is_found (λ s. find_library image (codes il2cpp_name)) wait_steps none start
poll-Outcome_example =
    poll-Outcome toy is_found (λ s. find_library image (codes il2cpp_name)) none start refl
