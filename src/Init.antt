-- ===== src/Init.antt =====
-- main.cpp: the wait until the runtime has registered its assemblies, the fourth step of
-- `init_thread`, and the count that it samples.
pub mod Settle
pub mod Thread
pub mod Waits
pub mod Poll
pub mod Clean
pub mod Exports
pub mod Load
use old_pixel_gun_3d_online.Base.{
  ℕ, zero, suc, ◌+◌, Bool, true, false, not, ◌&&◌, ◌==◌, ltb, Ptr, is_null, if◌then◌else◌,
}
use old_pixel_gun_3d_online.State.{Platform, Export, domain_get_assemblies}

abbrev pub wait_steps : ℕ
wait_steps = 6000

abbrev pub wait_step_us : ℕ
wait_step_us = 10000

abbrev pub stable_checks : ℕ
stable_checks = 25

module _ {W : Type 0} (P : Platform W) (slots : Export → Ptr) (domain : Ptr) where
  unfoldable pub assembly_count : W → ℕ
  assembly_count w =
      if is_null domain
      then 0
      else if is_null (slots domain_get_assemblies)
      then 0
      else let count = (P.il2cpp_domain_get_assemblies domain w).1 in
        if ltb 8192 count then 0 else count

  -- `stable = (now != 0u && now == last) ? stable + 1 : 0`
  abbrev pub next_stable : (now last stable : ℕ) → ℕ
  next_stable now last stable = if not (now == 0) && now == last then stable + 1 else 0

  -- The loop with `left` of its rounds to go: the last count and how often it was the same.
  unfoldable pub settle : (left last stable : ℕ) → W → ℕ × ℕ × W
  settle zero last stable w = (last, stable, w)
  settle (suc left) last stable w =
      let now = assembly_count w in
      let rest = settle left now (next_stable now last stable) (P.usleep wait_step_us w) in
      if ltb stable stable_checks then rest else (last, stable, w)
