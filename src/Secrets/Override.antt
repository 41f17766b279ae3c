-- ===== src/Secrets/Override.antt =====
-- The override of the AppID runs alike in both processes.
use old_pixel_gun_3d_online.Base.{Ptr}
use old_pixel_gun_3d_online.State.{Env}
use old_pixel_gun_3d_online.Photon.{select_original, hook_select_app_id}
use old_pixel_gun_3d_online.Secrets.{Secrets, Twins}
use old_pixel_gun_3d_online.Secrets.Reads.{secret_summary-same, configured_secret_summary-same}
use old_pixel_gun_3d_online.Secrets.Rules.{Blind, Blind-if, Blind-acts, blind_rules, Blind-ptr}
use old_pixel_gun_3d_online.Secrets.Settings.{same_has_app_id}

module _ {W : Type 0} (E F : Env W) (V : Secrets W) ⦃twins : Twins E F V⦄ where
  Blind-select_original :
      (settings method : Ptr)
      → Blind V (select_original E settings method) (select_original F settings method)
  unfolding select_original
  Blind-select_original settings method =
      search (blind_rules, Blind-ptr E F V, secret_summary-same E F V) depth 40

  pub Blind-hook_select_app_id :
      (settings method : Ptr)
      → Blind V (hook_select_app_id E settings method) (hook_select_app_id F settings method)
  unfolding hook_select_app_id
  Blind-hook_select_app_id settings method = rw (configured_secret_summary-same E F V) (
      search
        (
          blind_rules,
          Blind-if,
          Blind-acts,
          Blind-select_original,
          same_has_app_id E F V,
          twins.same_new_app_id,
        )
        depth 40)
