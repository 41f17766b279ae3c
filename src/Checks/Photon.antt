-- ===== src/Checks/Photon.antt =====
-- The AppID override in the toy runtime, whose AppID is "ab".
use old_pixel_gun_3d_online.Base.{◌≡◌, true, false, is_null}
use old_pixel_gun_3d_online.State.{string_new}
use old_pixel_gun_3d_online.Cloud.{is_empty}
use old_pixel_gun_3d_online.Photon.{hook_select_app_id}
use old_pixel_gun_3d_online.Photon.Override.{
  Overridden, PassedThrough, made, hook_select_app_id_cases,
}
use old_pixel_gun_3d_online.Checks.Toy.{toy, start}

hook_select_app_id_cases_example :
    (is_empty toy.config.app_id ≡ false
      → is_null (start.slots string_new) ≡ false
      → is_null (made toy 3 4 start).0 ≡ false
      → Overridden toy 3 4 start (hook_select_app_id toy 3 4 start))
    × (is_empty toy.config.app_id ≡ true
        → PassedThrough toy 3 4 start start.world (hook_select_app_id toy 3 4 start))
    × (is_empty toy.config.app_id ≡ false
        → is_null (start.slots string_new) ≡ false
        → is_null (made toy 3 4 start).0 ≡ true
        → PassedThrough toy 3 4 start (made toy 3 4 start).1 (hook_select_app_id toy 3 4 start))
hook_select_app_id_cases_example = hook_select_app_id_cases toy 3 4 start
