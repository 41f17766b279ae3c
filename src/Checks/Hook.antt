-- ===== src/Checks/Hook.antt =====
-- A hook that is installed in the toy runtime.
use old_pixel_gun_3d_online.Base.{some, true}
use old_pixel_gun_3d_online.State.{connect_scene_go}
use old_pixel_gun_3d_online.State.Monad.{Returns}
use old_pixel_gun_3d_online.Hook.{ManagedMethod, install}
use old_pixel_gun_3d_online.Hook.Install.{Outcome, install-Outcome}
use old_pixel_gun_3d_online.Checks.Toy.{toy, start, patches_of_toy}

abbrev go_button : ManagedMethod
go_button = record {
  namespaze = "";
  klass = "ConnectScene";
  method = "HandleGoBtnClicked";
  args_count = 0;
}

install-Outcome_example :
    Returns
      (install toy go_button 1000 (some connect_scene_go) true start)
      (Outcome toy patches_of_toy 1000 connect_scene_go start)
install-Outcome_example =
    install-Outcome toy patches_of_toy go_button 1000 connect_scene_go true start
